-- ===== src/Assoc.antt =====
-- `unordered_map` of the C++ programs: rows of a key and a value, a key at most once, under an
-- equality test of the keys.
use pcom.Prelude.{
  List, [], ◌∷◌, Option, none, some, Bool, true, false, if◌then◌else◌, ◌≡◌, ◌≢◌, refl, sym, ◌∙◌,
  arith, Bool-cases, inl, inr,
}

-- A test that decides equality.
pub record IsTest {K : Type 0} (same : K → K → Bool) : Type 0 where
  pub same_refl : (k : K) → same k k ≡ true
  pub same→eq : (j k : K) → same j k ≡ true → j ≡ k

module _ {K V : Type 0} (same : K → K → Bool) where
  -- `m.find(k)`, where `none` is `m.end()`.
  unfoldable pub find : List (K × V) → K → Option V
  find [] k = none
  find ((key, value) ∷ m) k = if same key k then some value else find m k

  -- `m[k] = value`
  unfoldable pub assign : List (K × V) → K → V → List (K × V)
  assign [] k value = (k, value) ∷ []
  assign ((key, old) ∷ m) k value =
      let rest = assign m k value in if same key k then (key, value) ∷ m else (key, old) ∷ rest

  -- `m.erase(k)`
  unfoldable pub erase : List (K × V) → K → List (K × V)
  erase [] k = []
  erase ((key, value) ∷ m) k =
      let rest = erase m k in if same key k then rest else (key, value) ∷ rest

module _ {K : Type 0} (same : K → K → Bool) (test : IsTest same) where
  pub different : (j key k : K) → same j key ≡ false → same j k ≡ true → same key k ≡ false
  different j key k f t = elim (Bool-cases (same key k)) [
    | inl u ↦
        let e : j ≡ key = test.same→eq j k t ∙ sym (test.same→eq key k u) in
        let g : same key key ≡ false = rw e at f in
        absurd (contradiction (sym (test.same_refl key) ∙ g))
    | inr g ↦ g
  ]
    where
      contradiction : true ≢ false
      contradiction e = ground arith

module _ {K V : Type 0} (same : K → K → Bool) (test : IsTest same) where
  -- An assignment is found under its key, and changes no other key.
  pub find-assign :
      (m : List (K × V)) (key : K) (value : V) (k : K)
      → find same (assign same m key value) k ≡ (if same key k then some value else find same m k)
  unfolding find assign
  find-assign [] key value k = refl
  find-assign ((j, old) ∷ m) key value k = elim (Bool-cases (same j key)) [
    | inl t ↦ rw (t, test.same→eq j key t) (ground arith)
    | inr f ↦ elim (Bool-cases (same j k)) [
      | inl t ↦ rw (f, t) (rw (different same test j key k f t) refl)
      | inr g ↦ rw (f, g) (find-assign m key value k)
    ]
  ]

  -- A key that was erased is not found, and no other key is changed.
  pub find-erase :
      (m : List (K × V)) (key k : K)
      → find same (erase same m key) k ≡ (if same key k then none else find same m k)
  unfolding find erase
  find-erase [] key k = ground arith
  find-erase ((j, old) ∷ m) key k = elim (Bool-cases (same j key)) [
    | inl t ↦ rw (t, test.same→eq j key t) (find-erase m key k ∙ ground arith)
    | inr f ↦ elim (Bool-cases (same j k)) [
      | inl t ↦ rw (f, t) (rw (different same test j key k f t) refl)
      | inr g ↦ rw (f, g) (find-erase m key k)
    ]
  ]
