-- ===== src/Checksum/Blocks.antt =====
-- The block loops of `ip_checksum` sum the 16-bit words modulo 65535, at every alignment.
use pcom.Prelude.{
  ℕ, zero, suc, ◌+◌, ◌*◌, ◌%◌, ◌^◌, ◌≤◌, ◌<◌, List, [], ◌∷◌, ◌≡◌, arith, length, ◌==◌,
  if◌then◌else◌, min, refl,
}
use pcom.Checksum.{accumulate, sum_blocks, sum_aligned}
use pcom.Checksum.Rfc.{be_sum, be_sum-shift, AllBytes}

-- `acc` has become `out` by adding words whose sum is `s` modulo 65535, without wrapping.
pub record IsAdded (acc s out : ℕ) : Type 0 where
  pub grows : acc ≤ out
  pub same : out % 65535 ≡ (acc + s) % 65535

pub sum_blocks-IsAdded :
    (acc : ℕ) (bytes : List ℕ)
    → AllBytes bytes
    → acc + 2 ^ 32 * length bytes < 2 ^ 64
    → IsAdded acc (be_sum bytes) (sum_blocks acc bytes)
unfolding sum_blocks accumulate be_sum
sum_blocks-IsAdded acc [] v h = omega arith
sum_blocks-IsAdded acc (a ∷ []) v h = omega arith
sum_blocks-IsAdded acc (a ∷ b ∷ []) v h = omega arith
sum_blocks-IsAdded acc (a ∷ b ∷ c ∷ []) v h = omega arith
sum_blocks-IsAdded acc (a ∷ b ∷ c ∷ d ∷ rest) v h =
    omega
      (arith, sum_blocks-IsAdded (accumulate acc (a ∷ b ∷ c ∷ d ∷ [])) rest v.1.1.1.1 (omega arith))

-- No more than 2 ^ 30 bytes: the accumulator of 64 bits does not wrap.
abbrev pub Fits : List ℕ → Type 0
Fits bytes = length bytes ≤ 2 ^ 30

-- How many bytes stand before the first whole word.
module _ (rest : List ℕ) where
  sum_aligned_two-cons :
      (a b : ℕ)
      → sum_aligned 2 (a ∷ b ∷ rest) ≡ sum_blocks (accumulate 0xffff (0 ∷ 0 ∷ a ∷ b ∷ [])) rest
  unfolding sum_aligned
  sum_aligned_two-cons a b = let e : min 2 (length (a ∷ b ∷ rest)) ≡ 2 = omega arith in rw e refl

  sum_aligned_one-cons :
      (a b c : ℕ)
      → sum_aligned 1 (a ∷ b ∷ c ∷ rest) ≡ sum_blocks (accumulate 0xffff (0 ∷ a ∷ b ∷ c ∷ [])) rest
  unfolding sum_aligned
  sum_aligned_one-cons a b c =
      let e : min 3 (length (a ∷ b ∷ c ∷ rest)) ≡ 3 = omega arith in rw e refl

  sum_aligned_three-cons :
      (a : ℕ) → sum_aligned 3 (a ∷ rest) ≡ sum_blocks (accumulate 0xffff (0 ∷ 0 ∷ 0 ∷ a ∷ [])) rest
  unfolding sum_aligned
  sum_aligned_three-cons a = let e : min 1 (length (a ∷ rest)) ≡ 1 = omega arith in rw e refl

sum_aligned_even :
    (bytes : List ℕ)
    → AllBytes bytes
    → Fits bytes
    → IsAdded 0xffff (be_sum bytes) (sum_aligned 0 bytes)
      × IsAdded 0xffff (be_sum bytes) (sum_aligned 2 bytes)
unfolding sum_aligned accumulate be_sum sum_blocks
sum_aligned_even [] v h = omega arith
sum_aligned_even (a ∷ []) v h = omega arith
sum_aligned_even (a ∷ b ∷ rest) v h = (
  sum_blocks-IsAdded 0xffff (a ∷ b ∷ rest) v (omega arith),
  omega (
    arith,
    sum_aligned_two-cons rest a b,
    sum_blocks-IsAdded (accumulate 0xffff (0 ∷ 0 ∷ a ∷ b ∷ [])) rest v.1.1 (omega arith),
  ),
)

sum_aligned_one :
    (bytes : List ℕ)
    → AllBytes bytes
    → Fits bytes
    → IsAdded 0xffff (256 * be_sum bytes) (sum_aligned 1 bytes)
unfolding sum_aligned accumulate be_sum sum_blocks
sum_aligned_one [] v h = omega arith
sum_aligned_one (a ∷ []) v h = omega arith
sum_aligned_one (a ∷ b ∷ []) v h = omega arith
sum_aligned_one (a ∷ b ∷ c ∷ rest) v h = omega (
  arith,
  sum_aligned_one-cons rest a b c,
  be_sum-shift c rest,
  sum_blocks-IsAdded (accumulate 0xffff (0 ∷ a ∷ b ∷ c ∷ [])) rest v.1.1.1 (omega arith),
)

sum_aligned_three :
    (bytes : List ℕ)
    → AllBytes bytes
    → Fits bytes
    → IsAdded 0xffff (256 * be_sum bytes) (sum_aligned 3 bytes)
unfolding sum_aligned accumulate be_sum sum_blocks
sum_aligned_three [] v h = omega arith
sum_aligned_three (a ∷ rest) v h = omega (
  arith,
  sum_aligned_three-cons rest a,
  be_sum-shift a rest,
  sum_blocks-IsAdded (accumulate 0xffff (0 ∷ 0 ∷ 0 ∷ a ∷ [])) rest v.1 (omega arith),
)

-- At an odd address every word is summed with its bytes exchanged.
pub sum_aligned-IsAdded :
    (offset : ℕ) (bytes : List ℕ)
    → offset < 4
    → AllBytes bytes
    → Fits bytes
    → IsAdded 0xffff
        ((if offset % 2 == 1 then 256 else 1) * be_sum bytes)
        (sum_aligned offset bytes)
sum_aligned-IsAdded zero bytes o v h = omega (arith, sum_aligned_even bytes v h)
sum_aligned-IsAdded (suc zero) bytes o v h = sum_aligned_one bytes v h
sum_aligned-IsAdded (suc (suc zero)) bytes o v h = omega (arith, sum_aligned_even bytes v h)
sum_aligned-IsAdded (suc (suc (suc zero))) bytes o v h = sum_aligned_three bytes v h
sum_aligned-IsAdded (suc (suc (suc (suc k)))) bytes o v h = absurd (omega arith)
