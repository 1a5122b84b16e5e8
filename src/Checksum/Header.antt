-- ===== src/Checksum/Header.antt =====
-- What the routines compute: the checksum of RFC 1071, and a header that verifies.
use pcom.Prelude.{
  if◌then◌else◌, ◌==◌, dec_lt, ne→==, ap, ◌∙◌, ◌≢◌, ℕ, ◌+◌, ◌-◌, ◌*◌, ◌%◌, ◌^◌, ◌≤◌, ◌<◌, List, [],
  ◌∷◌, ◌≡◌, refl, arith, length,
}
use pcom.Checksum.{htons, sum_aligned, ip_checksum, icmp_sum, icmp_checksum}
use pcom.Bytes.{load8, load16, le16, patch, length-patch}
use pcom.Checksum.Store.{folded_checksum-patch, be_sum-patch, AllBytes-load8, AllBytes-patch}
use pcom.Checksum.Fold.{deferred_carries_lem}
use pcom.Checksum.Blocks.{Fits, sum_aligned-IsAdded}
use pcom.Checksum.Rfc.{
  be_sum, carried, folded_checksum, rfc_checksum, AllBytes, folded_checksum-eq-rfc,
}

-- Wherever the bytes lie, `ip_checksum` returns the folded sum in network byte order.
ip_checksum-eq-folded :
    (offset : ℕ) (bytes : List ℕ)
    → offset < 4
    → AllBytes bytes
    → Fits bytes
    → ip_checksum offset bytes ≡ htons (folded_checksum bytes)
unfolding ip_checksum folded_checksum
ip_checksum-eq-folded offset bytes o v h =
    ground (
      arith,
      sum_aligned-IsAdded offset bytes o v h,
      deferred_carries_lem (sum_aligned offset bytes),
    )

htons_zero : htons 0 ≡ 0
unfolding htons
htons_zero = refl

folded_zero : (bytes : List ℕ) → be_sum bytes ≡ 0 → folded_checksum bytes ≡ 0
unfolding folded_checksum carried
folded_zero bytes z = rw z refl

-- Wherever the bytes lie, `ip_checksum` returns the checksum of RFC 1071 in network byte order, except
-- that for nothing but zeros it returns 0, where RFC 1071 has 0xffff.
pub ip_checksum-eq-rfc :
    (offset : ℕ) (bytes : List ℕ)
    → offset < 4
    → AllBytes bytes
    → Fits bytes
    → ip_checksum offset bytes ≡ (if be_sum bytes == 0 then 0 else htons (rfc_checksum bytes))
ip_checksum-eq-rfc offset bytes o v h = elim (dec_lt 0 (be_sum bytes)) [
  | yes p ↦
      rw
        (
          ip_checksum-eq-folded offset bytes o v h,
          folded_checksum-eq-rfc bytes p,
          ne→== (be_sum bytes) 0 (λ e. omega arith),
        )
        refl
  | no n ↦
      (let z : be_sum bytes ≡ 0 = omega arith in
        rw (ip_checksum-eq-folded offset bytes o v h, folded_zero bytes z, z) htons_zero)
]

-- The loop of `icmp_checksum` sums little-endian words, which is the same sum turned round.
icmp_sum_lem :
    (cksum : ℕ) (bytes : List ℕ)
    → AllBytes bytes
    → cksum + 2 ^ 16 * length bytes < 2 ^ 64
    → (cksum ≤ icmp_sum cksum (length bytes) bytes)
      × (icmp_sum cksum (length bytes) bytes ≤ cksum + 2 ^ 16 * length bytes)
      × ((256 * icmp_sum cksum (length bytes) bytes) % 65535 ≡ (256 * cksum + be_sum bytes) % 65535)
      × (0 < be_sum bytes → 0 < icmp_sum cksum (length bytes) bytes)
unfolding icmp_sum be_sum
icmp_sum_lem cksum [] v h = omega arith
icmp_sum_lem cksum (a ∷ []) v h = omega arith
icmp_sum_lem cksum (a ∷ b ∷ rest) v h =
    grind (arith, icmp_sum_lem ((cksum + (a + b * 256)) % 2 ^ 64) rest v.1.1 (omega arith))

icmp_checksum-eq-folded :
    (bytes : List ℕ)
    → AllBytes bytes
    → length bytes ≤ 2 ^ 15
    → 0 < be_sum bytes
    → icmp_checksum bytes (length bytes) ≡ htons (folded_checksum bytes)
unfolding icmp_checksum folded_checksum htons
icmp_checksum-eq-folded bytes v h pos = ground (arith, icmp_sum_lem 0 bytes v (omega arith))

-- `icmp_checksum` of a message that is not all zero is the checksum of RFC 1071 as well.
pub icmp_checksum-eq-rfc :
    (bytes : List ℕ)
    → AllBytes bytes
    → length bytes ≤ 2 ^ 15
    → 0 < be_sum bytes
    → icmp_checksum bytes (length bytes) ≡ htons (rfc_checksum bytes)
icmp_checksum-eq-rfc bytes v h pos =
    icmp_checksum-eq-folded bytes v h pos ∙ ap htons (folded_checksum-eq-rfc bytes pos)

header_words :
    (s hi lo : ℕ)
    → hi < 256
    → lo < 256
    → (htons (0xffff - carried s) ≡ hi + 256 * lo
        → (htons (0xffff - carried (s + (hi * 256 + lo))) ≡ 0) × (hi + 256 * lo ≢ 0xffff))
      × (htons (0xffff - carried (s + (hi * 256 + lo))) ≡ 0
          → hi + 256 * lo ≢ 0xffff
          → htons (0xffff - carried s) ≡ hi + 256 * lo)
unfolding htons carried
header_words s hi lo h l = (λ e. omega arith, λ e n. omega arith)

-- `newSum != currSum` of the router: it takes a header exactly when the header sums up to 0xffff and
-- its field does not hold the other zero of ones' complement.
pub header_test :
    (offset : ℕ) (header : List ℕ)
    → offset < 4
    → AllBytes header
    → Fits header
    → 12 ≤ length header
    → let sum = ip_checksum offset (patch header 10 (le16 0)) in
      ((sum ≡ load16 header 10) → (ip_checksum offset header ≡ 0) × (load16 header 10 ≢ 0xffff))
      × ((ip_checksum offset header ≡ 0) → (load16 header 10 ≢ 0xffff) → sum ≡ load16 header 10)
unfolding folded_checksum
header_test offset header o v f l =
    let zeroed = patch header 10 (le16 0) in
    let v' : AllBytes zeroed = AllBytes-patch header 10 (le16 0) (omega arith) v in
    let f' : Fits zeroed = omega (arith, length-patch header 10 (le16 0)) in
    let e : be_sum header ≡ be_sum zeroed + (load8 header 10 * 256 + load8 header 11) =
      omega (arith, be_sum-patch 5 10 0 header refl l (omega arith), htons_zero) in
    rw (ip_checksum-eq-folded offset zeroed o v' f', ip_checksum-eq-folded offset header o v f, e)
      (header_words (be_sum zeroed) (load8 header 10) (load8 header 11) (AllBytes-load8 header 10 v)
        (AllBytes-load8 header 11 v))

-- A header whose zero check field is filled with `ip_checksum` of the header sums up to zero,
-- wherever the two computations find it in memory.
pub ip_checksum-patch :
    (filled checked : ℕ) (header : List ℕ)
    → filled < 4
    → checked < 4
    → AllBytes header
    → Fits header
    → 12 ≤ length header
    → load16 header 10 ≡ 0
    → ip_checksum checked (patch header 10 (le16 (ip_checksum filled header))) ≡ 0
ip_checksum-patch filled checked header o o' v f l z = rw (
  ip_checksum-eq-folded filled header o v f,
  ip_checksum-eq-folded checked (patch header 10 (le16 (htons (folded_checksum header)))) o'
      (AllBytes-patch header 10 _ (omega arith) v)
      (omega (arith, length-patch header 10 (le16 (htons (folded_checksum header))))),
  folded_checksum-patch 5 10 header refl l z,
  htons_zero,
)
