-- ===== src/Routes/Search.antt =====
-- The binary search over the routing table: it ends, stays inside, and what it finds matches.
use pcom.Prelude.{
  ℕ, zero, suc, ◌+◌, ◌-◌, ◌/◌, ◌≤◌, ◌<◌, List, [], ◌∷◌, ◌≡◌, inl, inr, refl, arith, some, length,
  get_elem?, ltb, ◌==◌, Bool-cases,
}
use pcom.Routes.{Entry, Lookup, found, missing, masked, probe, search_route, get_best_route}

pub get_elem?-some {ℓ} :
    {A : Type ℓ} (xs : List A) (i : ℕ) → i < length xs → (a : A) × (get_elem? xs i ≡ some a)
get_elem?-some [] i h = absurd (omega arith)
get_elem?-some (x ∷ xs) zero h = (x, refl)
get_elem?-some (x ∷ xs) (suc i) h = get_elem?-some xs i (omega arith)

-- A result that C can return: a row of the table that matches, or `NULL`.
pub data Found (rtable : List Entry) (dest : ℕ) : Lookup → Type 0 where
  route :
      (i : ℕ) (e : Entry)
      → get_elem? rtable i ≡ some e
      → masked dest e ≡ e.prefix
      → Found rtable dest (found i e)
  null : Found rtable dest missing

module _ (rtable : List Entry) (dest : ℕ) where
  probe-Found :
      (mid : ℕ) (e : Entry) (lower upper : Lookup)
      → get_elem? rtable mid ≡ some e
      → Found rtable dest lower
      → Found rtable dest upper
      → Found rtable dest (probe dest mid e lower upper)
  unfolding probe
  probe-Found mid e lower upper at l u = elim (Bool-cases (masked dest e == e.prefix)) [
    | inl t ↦ rw t (route mid e at (ground arith))
    | inr f ↦
        rw f
          (elim (Bool-cases (ltb e.prefix (masked dest e))) [ inl t' ↦ rw t' l | inr f' ↦ rw f' u ])
  ]

  search_route-Found :
      (fuel left end : ℕ)
      → end - left < fuel
      → end ≤ length rtable
      → Found rtable dest (search_route fuel rtable dest left end)
  unfolding search_route
  search_route-Found zero left end f h = absurd (omega arith)
  search_route-Found (suc fuel) left end f h = elim (Bool-cases (ltb left end)) [
    | inr stop ↦ rw stop null
    | inl more ↦
        (let mid = (left + (end - 1)) / 2 in
          let below : left < end = ground arith in
          let (e, at) = get_elem?-some rtable mid (omega arith) in
          rw (more, at)
            (probe-Found mid e _ _ at (search_route-Found fuel left mid (omega arith) (omega arith))
              (search_route-Found fuel (mid + 1) end (omega arith) h)))
  ]

-- `get_best_route` ends, reads only rows of the table, and returns `NULL` or a row that matches.
pub get_best_route-Found :
    (rtable : List Entry) (dest : ℕ) → Found rtable dest (get_best_route rtable dest)
unfolding get_best_route
get_best_route-Found rtable dest =
    search_route-Found rtable dest (length rtable + 1) 0 (length rtable) (omega arith) (omega arith)
