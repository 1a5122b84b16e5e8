-- ===== src/Router/Header.antt =====
-- Ageing a packet in place: `ttl` falls, `check` is right again, and nothing else changes.
use pcom.Prelude.{ℕ, ◌+◌, ◌%◌, ◌≤◌, List, [], ◌∷◌, ◌≡◌, ◌≢◌, ◌∙◌, arith, length}
use pcom.Bytes.{
  load8, le16, patch, slice, length-patch, load8-patch_outside, load8-patch_inside, slice-patch,
  length-slice, load8-slice,
}
use pcom.Checksum.{ip_checksum}
use pcom.Checksum.Rfc.{AllBytes}
use pcom.Checksum.Header.{ip_checksum-patch}
use pcom.Checksum.Store.{AllBytes-patch, AllBytes-slice}
use pcom.Router.{header_sum, clear_check, update_header, ip_ttl, ip_check}

-- An array that holds the three headers.
pub record IsPayload (p : List ℕ) : Type 0 where
  pub holds : 42 ≤ length p
  pub bytes : AllBytes p

pub IsPayload-patch :
    (p : List ℕ) (at : ℕ) (bs : List ℕ) → AllBytes bs → IsPayload p → IsPayload (patch p at bs)
IsPayload-patch p at bs h v = record {
  holds = omega (arith, length-patch p at bs);
  bytes = AllBytes-patch p at bs h v.bytes;
}

pub clear_check-IsPayload : (p : List ℕ) → IsPayload p → IsPayload (clear_check p)
unfolding clear_check
clear_check-IsPayload p v = IsPayload-patch p 24 (le16 0) (omega arith) v

pub length-clear_check : (p : List ℕ) → length (clear_check p) ≡ length p
unfolding clear_check
length-clear_check p = length-patch p 24 (le16 0)

pub load8-clear_check : (p : List ℕ) (j : ℕ) → j ≢ 24 → j ≢ 25 → load8 (clear_check p) j ≡ load8 p j
unfolding clear_check
load8-clear_check p j a b = load8-patch_outside p 24 (le16 0) j (omega arith)

ip_check-clear : (p : List ℕ) → 42 ≤ length p → ip_check (clear_check p) ≡ 0
unfolding clear_check
ip_check-clear p h = omega (
  arith,
  load8-patch_inside p 24 (le16 0) 0 (omega arith) (omega arith),
  load8-patch_inside p 24 (le16 0) 1 (omega arith) (omega arith),
)

-- The header of a packet whose cleared `check` is filled with the sum.
header_sum-fill :
    (p : List ℕ) → IsPayload p → ip_check p ≡ 0 → header_sum (patch p 24 (le16 (header_sum p))) ≡ 0
unfolding header_sum
header_sum-fill p v z =
    rw (slice-patch p 14 20 10 (le16 (ip_checksum 2 (slice p 14 20))) (omega arith) (omega arith)) (
      ip_checksum-patch 2 2 (slice p 14 20) (omega arith) (omega arith)
        (AllBytes-slice p 14 20 v.bytes) (omega (arith, length-slice p 14 20))
        (omega (arith, length-slice p 14 20))
        (omega (arith, load8-slice p 14 20 10 (omega arith), load8-slice p 14 20 11 (omega arith))))

-- Clearing the checksum field and filling it makes the header verify.
pub header_sum-clear_check :
    (p : List ℕ)
    → IsPayload p
    → header_sum (patch (clear_check p) 24 (le16 (header_sum (clear_check p)))) ≡ 0
header_sum-clear_check p v =
    header_sum-fill (clear_check p) (clear_check-IsPayload p v) (ip_check-clear p v.holds)

-- What `update_header` does to the bytes of a packet.
pub record IsAged (p aged : List ℕ) : Type 0 where
  pub payload : IsPayload aged
  pub same_length : length aged ≡ length p
  pub ttl : ip_ttl aged ≡ (ip_ttl p + 255) % 256
  pub verifies : header_sum aged ≡ 0
  pub others : (j : ℕ) → j ≢ 22 → j ≢ 24 → j ≢ 25 → load8 aged j ≡ load8 p j

pub update_header-IsAged : (p : List ℕ) → IsPayload p → IsAged p (update_header p)
unfolding update_header clear_check
update_header-IsAged p v = record {
  payload = IsPayload-patch cleared 24 sum (omega arith) v2;
  same_length = length-patch cleared 24 sum ∙ length-patch aged 24 (le16 0) ∙ length-patch p 22 ttl;
  ttl =
      load8-patch_outside cleared 24 sum 22 (omega arith)
      ∙ load8-clear_check aged 22 (omega arith) (omega arith)
      ∙ omega (arith, load8-patch_inside p 22 ttl 0 (omega arith) (omega arith));
  verifies =
      header_sum-fill cleared v2 (ip_check-clear aged (omega (arith, length-patch p 22 ttl)));
  others = λ j a b c.
      load8-patch_outside cleared 24 sum j (omega arith)
      ∙ load8-clear_check aged j b c
      ∙ load8-patch_outside p 22 ttl j (omega arith);
}
  where
    ttl : List ℕ
    ttl = (ip_ttl p + 255) % 256 ∷ []

    aged : List ℕ
    aged = patch p 22 ttl

    cleared : List ℕ
    cleared = clear_check aged

    sum : List ℕ
    sum = le16 (header_sum cleared)

    v2 : IsPayload cleared
    v2 = clear_check-IsPayload aged (IsPayload-patch p 22 ttl (omega arith) v)
