-- ===== src/Bytes.antt =====
-- Packet memory: an array of bytes, and the loads, stores and copies of a little-endian host.
use mathlib.Core.Path.{ap₂}
use native.Mathlib.Nat.{add-zero}
use pcom.Prelude.{
  sym, dec_lt, ◌⊎◌, ℕ, zero, suc, ◌+◌, ◌-◌, ◌*◌, ◌/◌, ◌%◌, ◌^◌, ◌≤◌, ◌<◌, List, [], ◌∷◌, ◌++◌, ◌≡◌,
  refl, ap, ◌∙◌, arith, length, get_or, set, take, drop, length-set, get_or-set_self, get_or-set_ne,
  inl, inr, length-take, length-drop,
}

abbrev pub load8 : List ℕ → ℕ → ℕ
load8 p i = get_or p i 0

abbrev pub load16 : List ℕ → ℕ → ℕ
load16 p i = load8 p i + 256 * load8 p (i + 1)

abbrev pub load32 : List ℕ → ℕ → ℕ
load32 p i = load16 p i + 2 ^ 16 * load16 p (i + 2)

abbrev pub le16 : ℕ → List ℕ
le16 v = v % 256 ∷ v / 256 % 256 ∷ []

abbrev pub le32 : ℕ → List ℕ
le32 v = v % 256 ∷ v / 256 % 256 ∷ v / 2 ^ 16 % 256 ∷ v / 2 ^ 24 % 256 ∷ []

-- `memcpy(p + at, bytes, n)` into an array; a write out of range changes nothing.
unfoldable pub patch : List ℕ → ℕ → List ℕ → List ℕ
patch p at [] = p
patch p at (b ∷ bs) = patch (set p at b) (at + 1) bs

-- The `n` bytes from `at` on.
unfoldable pub slice : List ℕ → ℕ → ℕ → List ℕ
slice p at n = take n (drop at p)

pub length-patch : (p : List ℕ) (at : ℕ) (bs : List ℕ) → length (patch p at bs) ≡ length p
unfolding patch
length-patch p at [] = refl
length-patch p at (b ∷ bs) = length-patch (set p at b) (at + 1) bs ∙ length-set p at b

-- A byte outside the copied range is the old one.
pub load8-patch_outside :
    (p : List ℕ) (at : ℕ) (bs : List ℕ) (j : ℕ)
    → (j < at) ⊎ (at + length bs ≤ j)
    → load8 (patch p at bs) j ≡ load8 p j
unfolding patch
load8-patch_outside p at [] j h = refl
load8-patch_outside p at (b ∷ bs) j h =
    load8-patch_outside (set p at b) (at + 1) bs j (omega arith)
    ∙ get_or-set_ne p at j b 0 (omega arith)

-- A byte inside it is the copied one.
pub load8-patch_reach :
    (p : List ℕ) (at : ℕ) (bs : List ℕ) (k : ℕ)
    → at + k < length p
    → k < length bs
    → load8 (patch p at bs) (at + k) ≡ load8 bs k
unfolding patch
load8-patch_reach p at [] k h l = absurd (omega arith)
load8-patch_reach p at (b ∷ bs) zero h l = rw (add-zero at) (
    load8-patch_outside (set p at b) (at + 1) bs at (omega arith)
    ∙ get_or-set_self p at b 0 (omega arith))
load8-patch_reach p at (b ∷ bs) (suc k) h l =
    let e : at + suc k ≡ at + 1 + k = omega arith in
    rw e (
      load8-patch_reach (set p at b) (at + 1) bs k (omega (arith, length-set p at b)) (omega arith))

pub load8-patch_inside :
    (p : List ℕ) (at : ℕ) (bs : List ℕ) (k : ℕ)
    → at + length bs ≤ length p
    → k < length bs
    → load8 (patch p at bs) (at + k) ≡ load8 bs k
load8-patch_inside p at bs k h l = load8-patch_reach p at bs k (omega arith) l

-- Arrays of one length with the same bytes are equal.
pub load8_ext :
    (xs ys : List ℕ)
    → length xs ≡ length ys
    → ((i : ℕ) → i < length xs → load8 xs i ≡ load8 ys i)
    → xs ≡ ys
load8_ext [] [] e h = refl
load8_ext [] (y ∷ ys) e h = absurd (omega arith)
load8_ext (x ∷ xs) [] e h = absurd (omega arith)
load8_ext (x ∷ xs) (y ∷ ys) e h =
    ap₂ ◌∷◌ (h 0 (omega arith)) (load8_ext xs ys (omega arith) (λ i l. h (suc i) (omega arith)))

pub load8-drop : (p : List ℕ) (at i : ℕ) → load8 (drop at p) i ≡ load8 p (at + i)
load8-drop p zero i = ap (load8 p) (omega arith)
load8-drop [] (suc at) i = refl
load8-drop (x ∷ p) (suc at) i =
    let e : suc at + i ≡ suc (at + i) = omega arith in rw e (load8-drop p at i)

pub load8-take : (n : ℕ) (p : List ℕ) (i : ℕ) → i < n → load8 (take n p) i ≡ load8 p i
load8-take zero p i h = absurd (omega arith)
load8-take (suc n) [] i h = refl
load8-take (suc n) (x ∷ p) zero h = refl
load8-take (suc n) (x ∷ p) (suc i) h = load8-take n p i (omega arith)

pub load8-slice : (p : List ℕ) (at n i : ℕ) → i < n → load8 (slice p at n) i ≡ load8 p (at + i)
unfolding slice
load8-slice p at n i h = load8-take n (drop at p) i h ∙ load8-drop p at i

pub length-slice : (p : List ℕ) (at n : ℕ) → at + n ≤ length p → length (slice p at n) ≡ n
unfolding slice
length-slice p at n h = omega (arith, length-take n (drop at p), length-drop at p)

-- A copy inside a part of the array is a copy into that part.
pub slice-patch :
    (p : List ℕ) (at n k : ℕ) (bs : List ℕ)
    → at + n ≤ length p
    → k + length bs ≤ n
    → slice (patch p (at + k) bs) at n ≡ patch (slice p at n) k bs
slice-patch p at n k bs h l =
    load8_ext _ _
      (length-slice (patch p (at + k) bs) at n (omega (arith, length-patch p (at + k) bs))
        ∙ sym (length-patch (slice p at n) k bs ∙ length-slice p at n h))
      λ i lt.
        same i (omega (arith, length-slice (patch p (at + k) bs) at n, length-patch p (at + k) bs))
  where
    outside :
        (i : ℕ)
        → i < n
        → (i < k) ⊎ (k + length bs ≤ i)
        → load8 (patch p (at + k) bs) (at + i) ≡ load8 (patch (slice p at n) k bs) i
    outside i lt o =
        load8-patch_outside p (at + k) bs (at + i) (omega arith)
        ∙ sym (load8-patch_outside (slice p at n) k bs i o ∙ load8-slice p at n i lt)

    inside :
        (t : ℕ)
        → t < length bs
        → load8 (patch p (at + k) bs) (at + k + t) ≡ load8 (patch (slice p at n) k bs) (k + t)
    inside t lt =
        load8-patch_inside p (at + k) bs t (omega arith) lt
        ∙ sym (load8-patch_inside (slice p at n) k bs t (omega (arith, length-slice p at n h)) lt)

    same :
        (i : ℕ)
        → i < n
        → load8 (slice (patch p (at + k) bs) at n) i ≡ load8 (patch (slice p at n) k bs) i
    same i lt = load8-slice (patch p (at + k) bs) at n i lt ∙ elim (dec_lt i k) [
      | yes a ↦ outside i lt (inl a)
      | no a ↦ (elim (dec_lt i (k + length bs)) [
        | no b ↦ outside i lt (inr (omega arith))
        | yes b ↦
            (let e : i ≡ k + (i - k) = omega arith in
              let e' : at + i ≡ at + k + (i - k) = omega arith in
              ap (load8 (patch p (at + k) bs)) e'
              ∙ inside (i - k) (omega arith)
              ∙ ap (load8 (patch (slice p at n) k bs)) (sym e))
      ])
    ]

-- A copy outside a part leaves the part alone.
pub slice-patch_outside :
    (p : List ℕ) (at n to : ℕ) (bs : List ℕ)
    → at + n ≤ length p
    → (at + n ≤ to) ⊎ (to + length bs ≤ at)
    → slice (patch p to bs) at n ≡ slice p at n
slice-patch_outside p at n to bs h o =
    load8_ext _ _
      (length-slice (patch p to bs) at n (omega (arith, length-patch p to bs))
        ∙ sym (length-slice p at n h))
      λ i lt. same i (omega (arith, length-slice (patch p to bs) at n, length-patch p to bs))
  where
    same : (i : ℕ) → i < n → load8 (slice (patch p to bs) at n) i ≡ load8 (slice p at n) i
    same i lt =
        load8-slice (patch p to bs) at n i lt
        ∙ load8-patch_outside p to bs (at + i) (omega arith)
        ∙ sym (load8-slice p at n i lt)

-- The part that was copied reads as what was copied into it.
pub slice-patch_self :
    (p : List ℕ) (at : ℕ) (bs : List ℕ)
    → at + length bs ≤ length p
    → slice (patch p at bs) at (length bs) ≡ bs
slice-patch_self p at bs h =
    load8_ext _ _
      (length-slice (patch p at bs) at (length bs) (omega (arith, length-patch p at bs)))
      λ i lt.
        same i (omega (arith, length-slice (patch p at bs) at (length bs), length-patch p at bs))
  where
    same : (i : ℕ) → i < length bs → load8 (slice (patch p at bs) at (length bs)) i ≡ load8 bs i
    same i lt = load8-slice (patch p at bs) at (length bs) i lt ∙ load8-patch_inside p at bs i h lt

take-nil : (n : ℕ) → take {A = ℕ} n [] ≡ []
take-nil zero = refl
take-nil (suc n) = refl

drop-nil : (n : ℕ) → drop {A = ℕ} n [] ≡ []
drop-nil zero = refl
drop-nil (suc n) = refl

take-add : (m n : ℕ) (xs : List ℕ) → take (m + n) xs ≡ take m xs ++ take n (drop m xs)
take-add zero n xs = let e : 0 + n ≡ n = omega arith in rw e
take-add (suc m) n [] = rw (take-nil (suc m + n), take-nil n)
take-add (suc m) n (x ∷ xs) =
    let e : suc m + n ≡ suc (m + n) = omega arith in rw e (ap (λ t. x ∷ t) (take-add m n xs))

drop-drop : (m n : ℕ) (xs : List ℕ) → drop m (drop n xs) ≡ drop (n + m) xs
drop-drop m zero xs = let e : 0 + m ≡ m = omega arith in rw e
drop-drop m (suc n) [] = rw (drop-nil m, drop-nil (suc n + m))
drop-drop m (suc n) (x ∷ xs) =
    let e : suc n + m ≡ suc (n + m) = omega arith in rw e (drop-drop m n xs)

-- Two parts that follow one another.
pub slice-add : (p : List ℕ) (at m n : ℕ) → slice p at (m + n) ≡ slice p at m ++ slice p (at + m) n
unfolding slice
slice-add p at m n =
    take-add m n (drop at p) ∙ ap (λ t. take m (drop at p) ++ take n t) (drop-drop m at p)
