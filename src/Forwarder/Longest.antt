-- ===== src/Forwarder/Longest.antt =====
-- The linear search of Lab04/router.c returns a matching row with the greatest mask.
use pcom.Prelude.{
  ℕ, suc, ◌+◌, ◌≤◌, ◌<◌, List, [], ◌∷◌, ◌≡◌, refl, ap, sym, ◌∙◌, arith, none, some, ltb, ◌==◌,
  Bool-cases, inl, inr, get_elem?, ==→eq, ==→ne, dec_lt, ◌⊎◌, length,
}
use mathlib.Core.Option.{some-injective}
use pcom.Routes.{Entry, masked}
use pcom.Forwarder.{Best, consider, best_loop, best_route}

add_zero_left : (n : ℕ) → 0 + n ≡ n
add_zero_left n = omega arith

-- A row that matches and has a mask.
pub record IsRow (rtable : List Entry) (dest_ip : ℕ) (best : Best) : Type 0 where
  pub index : ℕ
  pub entry : Entry
  pub is_id : best.id ≡ some index
  pub stands : get_elem? rtable index ≡ some entry
  pub matches : masked dest_ip entry ≡ entry.prefix
  pub is_mask : entry.mask ≡ best.mask_max
  pub positive : 0 < entry.mask

-- What the loop knows after the rows below `n`: a best row, or that there is none.
pub record IsBest (rtable : List Entry) (dest_ip n : ℕ) (best : Best) : Type 0 where
  pub greatest :
      (j : ℕ) (f : Entry)
      → j < n
      → get_elem? rtable j ≡ some f
      → masked dest_ip f ≡ f.prefix
      → f.mask ≤ best.mask_max
  pub row : ((best.id ≡ none) × (best.mask_max ≡ 0)) ⊎ IsRow rtable dest_ip best

module _ (rtable : List Entry) (dest_ip : ℕ) where
  same_row :
      (i j : ℕ) (e f : Entry)
      → get_elem? rtable i ≡ some e
      → j ≡ i
      → get_elem? rtable j ≡ some f
      → e ≡ f
  same_row i j e f a same b = some-injective _ _ (sym a ∙ ap (get_elem? rtable) (sym same) ∙ b)

  consider-IsBest :
      (i : ℕ) (e : Entry) (best : Best)
      → get_elem? rtable i ≡ some e
      → IsBest rtable dest_ip i best
      → IsBest rtable dest_ip (i + 1) (consider dest_ip i e best)
  unfolding consider
  consider-IsBest i e best at b = elim (Bool-cases (masked dest_ip e == e.prefix)) [
    | inr f ↦ rw f (keep λ g same m. absurd (==→ne _ _ f (rw same m)))
    | inl t ↦ (elim (Bool-cases (ltb best.mask_max e.mask)) [
      | inr f' ↦ rw (t, f') (keep λ g same m. rw (← same) (ground arith))
      | inl t' ↦ rw (t, t') (better (==→eq _ _ t) (ground arith))
    ])
  ]
    where
      keep :
          ((g : Entry) → e ≡ g → masked dest_ip g ≡ g.prefix → g.mask ≤ best.mask_max)
          → IsBest rtable dest_ip (i + 1) best
      keep h = record {
        greatest = λ j g l stands m. elim (dec_lt j i) [
          | yes before ↦ b.greatest j g before stands m
          | no n ↦ h g (same_row i j e g at (omega arith) stands) m
        ];
        row = b.row;
      }

      better :
          masked dest_ip e ≡ e.prefix
          → best.mask_max < e.mask
          → IsBest rtable dest_ip (i + 1) (record { id = some i; mask_max = e.mask })
      better m more = record {
        greatest = λ j g l stands m'. elim (dec_lt j i) [
          | yes before ↦ omega (arith, b.greatest j g before stands m')
          | no n ↦
              omega (arith, ap (λ (x : Entry). x.mask) (same_row i j e g at (omega arith) stands))
        ];
        row = inr (record {
          index = i;
          entry = e;
          is_id = refl;
          stands = at;
          matches = m;
          is_mask = refl;
          positive = omega arith;
        });
      }

  best_loop-IsBest :
      (i : ℕ) (rest : List Entry) (best : Best)
      → ((k : ℕ) → get_elem? rtable (i + k) ≡ get_elem? rest k)
      → IsBest rtable dest_ip i best
      → IsBest rtable dest_ip (i + length rest) (best_loop dest_ip i rest best)
  unfolding best_loop
  best_loop-IsBest i [] best h b = let e : i + 0 ≡ i = omega arith in rw e b
  best_loop-IsBest i (e ∷ rest) best h b =
      let shift : i + length (e ∷ rest) ≡ i + 1 + length rest = omega arith in
      let here : i + 0 ≡ i = omega arith in
      rw shift (
        best_loop-IsBest (i + 1) rest (consider dest_ip i e best)
          (λ k. ap (get_elem? rtable) (omega arith) ∙ h (suc k))
          (consider-IsBest i e best (rw here at (h 0)) b))

-- `get_best_route` returns a matching row whose mask, as an unsigned word, is the greatest among
-- all matching rows; it returns `NULL` exactly where every matching row has the mask 0.
pub best_route-IsBest :
    (rtable : List Entry) (dest_ip : ℕ)
    → (best : Best) × (best_route rtable dest_ip ≡ best.id)
      × IsBest rtable dest_ip (length rtable) best
unfolding best_route
best_route-IsBest rtable dest_ip = (
  best_loop dest_ip 0 rtable (record { id = none; mask_max = 0 }),
  refl,
  rw (add_zero_left (length rtable)) at (
      best_loop-IsBest rtable dest_ip 0 rtable (record { id = none; mask_max = 0 })
        (λ k. ap (get_elem? rtable) (omega arith))
        (record { greatest = λ j f l. absurd (omega arith); row = inl (refl, refl) })),
)
