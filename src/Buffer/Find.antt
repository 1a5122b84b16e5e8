-- ===== src/Buffer/Find.antt =====
-- The searches of the buffer return the first place where the text stands.
use pcom.Prelude.{
  ℕ, zero, suc, ◌+◌, ◌-◌, ◌<◌, ◌≤◌, List, ◌≡◌, arith, ◌∙◌, ltb, ◌==◌, Bool-cases, inl, inr, ℤ, pos,
  negsuc, length, ==→eq, ==→ne, ℕ_discrete,
}
use pcom.Bytes.{load8}
use pcom.Buffer.{Buffer, bytes, match_length, find_loop, buffer_find, buffer_find_insensitive}

module _ (key : ℕ → ℕ) (buffer text : List ℕ) where
  -- `text` stands at `i`, as `key` compares.
  abbrev pub Occurs : ℕ → Type 0
  Occurs i = (k : ℕ) → k < length text → key (load8 buffer (i + k)) ≡ key (load8 text k)

  match_length_sound :
      (i rest j : ℕ)
      → match_length key buffer text i rest j ≡ j + rest
      → (k : ℕ) → j ≤ k
      → k < j + rest
      → key (load8 buffer (i + k)) ≡ key (load8 text k)
  unfolding match_length
  match_length_sound i zero j e k h l = absurd (omega arith)
  match_length_sound i (suc rest) j e k h l =
      elim (Bool-cases (key (load8 buffer (i + j)) == key (load8 text j))) [
        | inr f ↦ absurd (ground arith)
        | inl t ↦ (elim (ℕ_discrete j k) [
          | yes same ↦ rw (← same) (==→eq _ _ t)
          | no other ↦
              match_length_sound i rest (j + 1) (ground arith) k (omega arith) (omega arith)
        ])
      ]

  match_length_complete :
      (i rest j : ℕ)
      → ((k : ℕ) → j ≤ k → k < j + rest → key (load8 buffer (i + k)) ≡ key (load8 text k))
      → match_length key buffer text i rest j ≡ j + rest
  unfolding match_length
  match_length_complete i zero j h = omega arith
  match_length_complete i (suc rest) j h = ground (
    arith,
    h j (omega arith) (omega arith),
    match_length_complete i rest (j + 1) (λ k a b. h k (omega arith) (omega arith)),
  )

  -- The first place from `i` on, among `rest`, where `text` stands; or there is none.
  pub data First (rest i : ℕ) : ℤ → Type 0 where
    at :
        (k : ℕ)
        → i ≤ k
        → k < i + rest
        → Occurs k
        → ((m : ℕ) → i ≤ m → m < k → ¬ Occurs m)
        → First rest i (pos k)
    nowhere : ((m : ℕ) → i ≤ m → m < i + rest → ¬ Occurs m) → First rest i (negsuc 0)

  First-later : (rest i : ℕ) {r : ℤ} → ¬ Occurs i → First rest (i + 1) r → First (suc rest) i r
  First-later rest i n (at k a b o before) = at k (omega arith) (omega arith) o λ m c d.
      elim (ℕ_discrete i m) [ yes same ↦ rw (← same) n | no other ↦ before m (omega arith) d ]
  First-later rest i n (nowhere none_of) = nowhere λ m c d. elim (ℕ_discrete i m) [
    | yes same ↦ rw (← same) n
    | no other ↦ none_of m (omega arith) (omega arith)
  ]

  find_loop-First : (rest i : ℕ) → First rest i (find_loop key buffer text rest i)
  unfolding find_loop
  find_loop-First zero i = nowhere λ m a b. absurd (omega arith)
  find_loop-First (suc rest) i =
      elim (Bool-cases (match_length key buffer text i (length text) 0 == length text)) [
        | inl t ↦ rw t (
            at i (omega arith) (omega arith)
              (λ k l.
                match_length_sound i (length text) 0 (==→eq _ _ t ∙ omega arith) k (omega arith)
                  (omega arith))
              λ m a b. absurd (omega arith))
        | inr f ↦ rw f (
            First-later rest i
              (λ o. ==→ne _ _ f (
                match_length_complete i (length text) 0 (λ k a b. o k (omega arith)) ∙ omega arith))
              (find_loop-First rest (i + 1)))
      ]

-- `buffer_find` returns the first position of the buffer at which `text` stands whole, or -1 where
-- there is none.
pub buffer_find-First :
    (b : Buffer) (text : List ℕ)
    → First (λ c. c) (bytes b) text (b.size + 1 - length text) 0 (buffer_find b text)
unfolding buffer_find
buffer_find-First b text = elim (Bool-cases (ltb b.size (length text))) [
  | inl t ↦ rw t (nowhere λ m a c. absurd (ground arith))
  | inr f ↦ rw f (
      let e : b.size + 1 - length text ≡ b.size - length text + 1 = ground arith in
      rw e (find_loop-First (λ c. c) (bytes b) text (b.size - length text + 1) 0))
]

-- `buffer_find_insensitive` does the same, comparing what `tolower` makes of the characters.
pub buffer_find_insensitive-First :
    (tolower : ℕ → ℕ) (b : Buffer) (text : List ℕ)
    → First tolower
        (bytes b)
        text
        (b.size + 1 - length text)
        0
        (buffer_find_insensitive tolower b text)
unfolding buffer_find_insensitive
buffer_find_insensitive-First tolower b text = elim (Bool-cases (ltb b.size (length text))) [
  | inl t ↦ rw t (nowhere λ m a c. absurd (ground arith))
  | inr f ↦ rw f (
      let e : b.size + 1 - length text ≡ b.size - length text + 1 = ground arith in
      rw e (find_loop-First tolower (bytes b) text (b.size - length text + 1) 0))
]
