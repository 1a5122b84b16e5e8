-- ===== src/Checksum/Fold.antt =====
-- The carry loop of `ip_checksum` ends with the sum reduced modulo 65535.
use mathlib.Core.WellFounded.{Acc}
use pcom.Prelude.{ℕ, ◌+◌, ◌-◌, ◌/◌, ◌%◌, ◌^◌, ◌<◌, ◌≡◌, arith, lt_wf}
use pcom.Checksum.{fold_carries, deferred_carries}

-- Every positive sum ends as its remainder, with 65535 in the place of 0.
pub fold_carries_lem :
    (acc : ℕ) (w : Acc ◌<◌ acc) → 0 < acc → fold_carries acc w ≡ (acc - 1) % 65535 + 1
unfolding fold_carries
fold_carries_lem acc (Acc.intro _ smaller) h = grind (
  arith,
  λ (p : 0xffff < acc).
      fold_carries_lem (acc % 2 ^ 16 + acc / 2 ^ 16) (smaller _ (omega arith)) (omega arith),
)

pub deferred_carries_lem : (acc : ℕ) → 0 < acc → deferred_carries acc ≡ (acc - 1) % 65535 + 1
unfolding deferred_carries
deferred_carries_lem acc h =
    omega (arith, fold_carries_lem (acc % 2 ^ 32 + acc / 2 ^ 32) (lt_wf.apply _) (omega arith))
