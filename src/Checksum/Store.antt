-- ===== src/Checksum/Store.antt =====
-- Storing a checksum into the zeroed field of a header makes the header verify.
use pcom.Prelude.{
  ℕ, zero, suc, ◌+◌, ◌*◌, ◌/◌, ◌%◌, ◌^◌, ◌≤◌, ◌<◌, List, [], ◌∷◌, ◌≡◌, refl, arith, length, set,
  take, drop,
}
use pcom.Bytes.{load8, load16, load32, le16, patch, slice}
use pcom.Checksum.{htons}
use pcom.Checksum.Rfc.{be_sum, folded_checksum, AllBytes}

pub AllBytes-set : (xs : List ℕ) (i v : ℕ) → v < 256 → AllBytes xs → AllBytes (set xs i v)
AllBytes-set [] i v h a = a
AllBytes-set (x ∷ xs) zero v h a = (h, a.1)
AllBytes-set (x ∷ xs) (suc i) v h a = (a.0, AllBytes-set xs i v h a.1)

pub AllBytes-patch :
    (xs : List ℕ) (at : ℕ) (bs : List ℕ) → AllBytes bs → AllBytes xs → AllBytes (patch xs at bs)
unfolding patch
AllBytes-patch xs at [] h a = a
AllBytes-patch xs at (b ∷ bs) h a =
    AllBytes-patch (set xs at b) (at + 1) bs h.1 (AllBytes-set xs at b h.0 a)

-- Writing one 16-bit word changes the sum by the difference of the words.
be_sum-set :
    (k i j a b : ℕ) (xs : List ℕ)
    → i ≡ 2 * k
    → j ≡ 2 * k + 1
    → i + 2 ≤ length xs
    → be_sum (set (set xs i a) j b) + (load8 xs i * 256 + load8 xs j) ≡ be_sum xs + (a * 256 + b)
unfolding be_sum
be_sum-set k i j a b [] e f h = absurd (omega arith)
be_sum-set k i j a b (x ∷ []) e f h = absurd (omega arith)
be_sum-set zero i j a b (x ∷ y ∷ xs) e f h =
    let e' : i ≡ 0 = omega arith in let f' : j ≡ 1 = omega arith in rw (e', f') (omega arith)
be_sum-set (suc k) i j a b (x ∷ y ∷ xs) e f h =
    let e' : i ≡ suc (suc (2 * k)) = omega arith in
    let f' : j ≡ suc (suc (2 * k + 1)) = omega arith in
    rw (e', f') (omega (arith, be_sum-set k (2 * k) (2 * k + 1) a b xs refl refl (omega arith)))

pub be_sum-patch :
    (k i v : ℕ) (xs : List ℕ)
    → i ≡ 2 * k
    → i + 2 ≤ length xs
    → v < 2 ^ 16
    → be_sum (patch xs i (le16 v)) + (load8 xs i * 256 + load8 xs (i + 1)) ≡ be_sum xs + htons v
unfolding patch htons
be_sum-patch k i v xs e h w =
    omega (arith, be_sum-set k i (i + 1) (v % 256) (v / 256 % 256) xs e (omega arith) h)

pub AllBytes-load8 : (xs : List ℕ) (i : ℕ) → AllBytes xs → load8 xs i < 256
AllBytes-load8 [] i a = omega arith
AllBytes-load8 (x ∷ xs) zero a = a.0
AllBytes-load8 (x ∷ xs) (suc i) a = AllBytes-load8 xs i a.1

-- With the checksum of the rest in its zero field, the whole sums up to 0xffff.
pub folded_checksum-patch :
    (k i : ℕ) (xs : List ℕ)
    → i ≡ 2 * k
    → i + 2 ≤ length xs
    → load16 xs i ≡ 0
    → folded_checksum (patch xs i (le16 (htons (folded_checksum xs)))) ≡ 0
unfolding folded_checksum htons
folded_checksum-patch k i xs e h z =
    omega (arith, be_sum-patch k i (htons (folded_checksum xs)) xs e h)

AllBytes-take : (n : ℕ) (xs : List ℕ) → AllBytes xs → AllBytes (take n xs)
AllBytes-take zero xs a = tt
AllBytes-take (suc n) [] a = tt
AllBytes-take (suc n) (x ∷ xs) a = (a.0, AllBytes-take n xs a.1)

AllBytes-drop : (n : ℕ) (xs : List ℕ) → AllBytes xs → AllBytes (drop n xs)
AllBytes-drop zero xs a = a
AllBytes-drop (suc n) [] a = tt
AllBytes-drop (suc n) (x ∷ xs) a = AllBytes-drop n xs a.1

pub AllBytes-slice : (p : List ℕ) (at n : ℕ) → AllBytes p → AllBytes (slice p at n)
unfolding slice
AllBytes-slice p at n a = AllBytes-take n (drop at p) (AllBytes-drop at p a)

pub load32-lt : (p : List ℕ) (i : ℕ) → AllBytes p → load32 p i < 2 ^ 32
load32-lt p i h = omega (
  arith,
  AllBytes-load8 p i h,
  AllBytes-load8 p (i + 1) h,
  AllBytes-load8 p (i + 2) h,
  AllBytes-load8 p (i + 2 + 1) h,
)
