-- ===== src/Routes/Order.antt =====
-- The order that `qsort` gives the table, and what the search finds in it.
use Prim.Native.Nat.{bit_and}
use mathlib.Core.Path.{subst, ap}
use mathlib.Core.Option.{some-injective, none-ne-some}
use pcom.Prelude.{
  dec_lt, ℕ, zero, suc, ◌+◌, ◌-◌, ◌/◌, ◌^◌, ◌≤◌, ◌<◌, List, [], ◌∷◌, ◌≡◌, ◌≢◌, ◌⊎◌, inl, inr, arith,
  some, length, get_elem?, Bool-cases, if◌then◌else◌, All, ℤ, pos, negsuc, leb,
}
use pcom.Routes.{Entry, found, missing, masked, probe, search_route, get_best_route, comparator}
use pcom.Routes.Search.{get_elem?-some}

-- Below 2 ^ 31 the subtraction of `comparator` does not wrap.
pub comparator_lem :
    (a b : Entry)
    → a.prefix < 2 ^ 31
    → b.prefix < 2 ^ 31
    → comparator a b ≡ (
        if leb a.prefix b.prefix
        then pos (b.prefix - a.prefix)
        else negsuc (a.prefix - b.prefix - 1))
unfolding comparator
comparator_lem a b ha hb = ground arith

-- The first of two neighbours may stand before the second, as `qsort` is told.
abbrev pub NotPositive : ℤ → Type 0
NotPositive (pos n) = n ≡ 0
NotPositive (negsuc n) = Unit

-- The order that `qsort` documents: no entry compares greater than one behind it.
abbrev pub IsSorted : List Entry → Type 0
IsSorted [] = Unit
IsSorted (a ∷ rest) = All (λ b. NotPositive (comparator a b)) rest × IsSorted rest

abbrev pub SmallPrefixes : List Entry → Type 0
SmallPrefixes = All (λ e. e.prefix < 2 ^ 31)

abbrev pub OneMask : ℕ → List Entry → Type 0
OneMask m = All (λ e. e.mask ≡ m)

All-get_elem? {ℓ κ} :
    {A : Type ℓ} (P : A → Type κ) (xs : List A) (i : ℕ) {a : A}
    → All P xs
    → get_elem? xs i ≡ some a
    → P a
All-get_elem? P [] i h e = absurd (none-ne-some _ e)
All-get_elem? P (x ∷ xs) zero h e = subst P (some-injective _ _ e) h.0
All-get_elem? P (x ∷ xs) (suc i) h e = All-get_elem? P xs i h.1 e

get_elem?-lt {ℓ} :
    {A : Type ℓ} (xs : List A) (i : ℕ) {a : A} → get_elem? xs i ≡ some a → i < length xs
get_elem?-lt [] i e = absurd (none-ne-some _ e)
get_elem?-lt (x ∷ xs) zero e = omega arith
get_elem?-lt (x ∷ xs) (suc i) e = omega (arith, get_elem?-lt xs i e)

le_of_NotPositive :
    (a b : Entry)
    → a.prefix < 2 ^ 31
    → b.prefix < 2 ^ 31
    → NotPositive (comparator a b)
    → b.prefix ≤ a.prefix
le_of_NotPositive a b ha hb h = elim (Bool-cases (leb a.prefix b.prefix)) [
  | inl le ↦
      (let e : comparator a b ≡ pos (b.prefix - a.prefix) =
          ground (arith, comparator_lem a b ha hb) in
        omega (arith, subst NotPositive e h))
  | inr gt ↦ ground arith
]

before :
    (a : Entry) (rest : List Entry)
    → a.prefix < 2 ^ 31
    → SmallPrefixes rest
    → All (λ b. NotPositive (comparator a b)) rest
    → All (λ b. b.prefix ≤ a.prefix) rest
before a [] ha hs h = tt
before a (b ∷ rest) ha hs h = (le_of_NotPositive a b ha hs.0 h.0, before a rest ha hs.1 h.1)

-- Sorted by `comparator`, the prefixes fall.
IsSorted-le :
    (xs : List Entry)
    → SmallPrefixes xs
    → IsSorted xs
    → (i j : ℕ) {a b : Entry} → i ≤ j
    → get_elem? xs i ≡ some a
    → get_elem? xs j ≡ some b
    → b.prefix ≤ a.prefix
IsSorted-le [] hs h i j l p q = absurd (none-ne-some _ p)
IsSorted-le (x ∷ xs) hs h zero zero l p q = ground arith
IsSorted-le (x ∷ xs) hs h zero (suc j) {a} {b} l p q =
    ground (arith, All-get_elem? (λ b. b.prefix ≤ x.prefix) xs j (before x xs hs.0 hs.1 h.0) q)
IsSorted-le (x ∷ xs) hs h (suc i) zero l p q = absurd (omega arith)
IsSorted-le (x ∷ xs) hs h (suc i) (suc j) l p q = IsSorted-le xs hs.1 h.1 i j (omega arith) p q

module _ (rtable : List Entry) (dest m : ℕ) (hs : SmallPrefixes rtable) (sorted : IsSorted rtable)
    (one : OneMask m rtable) where
  key_of : (i : ℕ) {e : Entry} → get_elem? rtable i ≡ some e → masked dest e ≡ bit_and dest m
  key_of i p = ap (bit_and dest) (All-get_elem? (λ e. e.mask ≡ m) rtable i one p)

  -- What a round that ends in `NULL` has seen at `mid`.
  missing_round :
      (fuel left end : ℕ) (e : Entry)
      → left < end
      → get_elem? rtable ((left + (end - 1)) / 2) ≡ some e
      → search_route (suc fuel) rtable dest left end ≡ missing
      → (masked dest e < e.prefix
          × (search_route fuel rtable dest ((left + (end - 1)) / 2 + 1) end ≡ missing))
        ⊎ (e.prefix < masked dest e
            × (search_route fuel rtable dest left ((left + (end - 1)) / 2) ≡ missing))
  unfolding search_route probe
  missing_round fuel left end e l at r = ground arith

  -- Outside `left..end` no entry matches, above by a larger prefix and below by a smaller one.
  search_route-missing :
      (fuel left end : ℕ)
      → end ≤ length rtable
      → ((i : ℕ) (e : Entry) → get_elem? rtable i ≡ some e → i < left → bit_and dest m < e.prefix)
      → ((i : ℕ) (e : Entry) → get_elem? rtable i ≡ some e → end ≤ i → e.prefix < bit_and dest m)
      → search_route fuel rtable dest left end ≡ missing
      → (i : ℕ) (e : Entry) → get_elem? rtable i ≡ some e
      → bit_and dest m ≢ e.prefix
  unfolding search_route
  search_route-missing zero left end l above below r i e at = absurd (cc)
  search_route-missing (suc fuel) left end l above below r i e at = elim (dec_lt left end) [
    | no stop ↦ elim (dec_lt i left) [
      | yes p ↦ omega (arith, above i e at p)
      | no p ↦ omega (arith, below i e at (omega arith))
    ]
    | yes more ↦
        (let mid = (left + (end - 1)) / 2 in
          let (c, here) = get_elem?-some rtable mid (omega arith) in
          let key : masked dest c ≡ bit_and dest m = key_of mid here in
          elim (missing_round fuel left end c more here r) [
            | inl (less, rest) ↦
                (search_route-missing fuel (mid + 1) end l
                  (λ j d p q.
                    omega (arith, IsSorted-le rtable hs sorted j mid (omega arith) p here))
                  below rest i e at)
            | inr (greater, rest) ↦
                (search_route-missing fuel left mid (omega arith) above
                  (λ j d p q. omega (arith, IsSorted-le rtable hs sorted mid j q here p)) rest i e
                  at)
          ])
  ]

-- In a table sorted by `comparator` whose rows have one mask and prefixes below 2 ^ 31, `NULL` means
-- that no row matches.
pub get_best_route_complete :
    (rtable : List Entry) (dest m : ℕ)
    → SmallPrefixes rtable
    → IsSorted rtable
    → OneMask m rtable
    → get_best_route rtable dest ≡ missing
    → (i : ℕ) (e : Entry) → get_elem? rtable i ≡ some e
    → masked dest e ≢ e.prefix
unfolding get_best_route
get_best_route_complete rtable dest m hs sorted one r i e at =
    rw (key_of rtable dest m hs sorted one i at) (
      search_route-missing rtable dest m hs sorted one (length rtable + 1) 0 (length rtable)
        (omega arith) (λ j d p q. absurd (omega arith))
        (λ j d p q. absurd (omega (arith, get_elem?-lt rtable j p))) r i e at)

found_round :
    (rtable : List Entry) (dest fuel left end mid : ℕ) (e : Entry)
    → left < end
    → (left + (end - 1)) / 2 ≡ mid
    → get_elem? rtable mid ≡ some e
    → masked dest e ≡ e.prefix
    → search_route (suc fuel) rtable dest left end ≡ found mid e
unfolding search_route probe
found_round rtable dest fuel left end mid e l is_mid at match = rw is_mid (ground arith)

-- The row in the middle wins whenever it matches, whatever the masks of the others.
pub get_best_route-middle :
    (rtable : List Entry) (dest : ℕ) (e : Entry)
    → get_elem? rtable ((length rtable - 1) / 2) ≡ some e
    → masked dest e ≡ e.prefix
    → get_best_route rtable dest ≡ found ((length rtable - 1) / 2) e
unfolding get_best_route
get_best_route-middle rtable dest e at match =
    let fuel : length rtable + 1 ≡ suc (length rtable) = omega arith in
    rw fuel (
      found_round rtable dest (length rtable) 0 (length rtable) ((length rtable - 1) / 2) e
        (omega (arith, get_elem?-lt rtable ((length rtable - 1) / 2) at)) (omega arith) at match)
