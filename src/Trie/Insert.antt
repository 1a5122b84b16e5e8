-- ===== src/Trie/Insert.antt =====
-- Inserting into the trie stores the entry at its path and nowhere else.
use pcom.Prelude.{
  ℕ, zero, suc, ◌+◌, ◌<◌, List, [], ◌∷◌, Bool, true, false, if◌then◌else◌, ◌≡◌, refl, arith,
  Bool-cases, inl, inr,
}
use pcom.Trie.{
  TableEntry, Trie, empty, node, bit_at, no_entry, or_new, store_at_end, insert_from, insert,
  is_null,
}

-- The bits of a word from `i` on, the first `n` of them.
abbrev pub bits : (word i n : ℕ) → List Bool
bits word i zero = []
bits word i (suc n) = bit_at word i ∷ bits word (i + 1) n

-- What stands below a path.
abbrev pub below : Trie → List Bool → Trie
below t [] = t
below empty (b ∷ path) = empty
below (node bit entry child0 child1) (false ∷ path) = below child0 path
below (node bit entry child0 child1) (true ∷ path) = below child1 path

abbrev pub entry_of : Trie → TableEntry
entry_of empty = no_entry
entry_of (node bit entry child0 child1) = entry

-- The entry stored at a path.
abbrev pub entry_at : Trie → List Bool → TableEntry
entry_at t path = entry_of (below t path)

entry_at_empty : (path : List Bool) → entry_at empty path ≡ no_entry
entry_at_empty [] = refl
entry_at_empty (b ∷ path) = refl

abbrev pub same_path : List Bool → List Bool → Bool
same_path [] [] = true
same_path [] (d ∷ q) = false
same_path (c ∷ p) [] = false
same_path (false ∷ p) (false ∷ q) = same_path p q
same_path (false ∷ p) (true ∷ q) = false
same_path (true ∷ p) (false ∷ q) = false
same_path (true ∷ p) (true ∷ q) = same_path p q

entry_at-or_new :
    (b : Bool) (t : Trie) (path : List Bool) → entry_at (or_new b t) path ≡ entry_at t path
unfolding or_new
entry_at-or_new b empty [] = refl
entry_at-or_new b empty (false ∷ path) = entry_at_empty path
entry_at-or_new b empty (true ∷ path) = entry_at_empty path
entry_at-or_new b (node bit entry child0 child1) path = refl

-- A new node takes the entry where it is the last on the path.
stored :
    (b : Bool) (entry : TableEntry) (t : Trie) (path : List Bool)
    → entry_at (store_at_end 0 entry (or_new b t)) path
      ≡ (if same_path path [] then entry else entry_at t path)
unfolding store_at_end or_new
stored b entry empty [] = refl
stored b entry empty (false ∷ path) = entry_at_empty path
stored b entry empty (true ∷ path) = entry_at_empty path
stored b entry (node bit old child0 child1) [] = refl
stored b entry (node bit old child0 child1) (false ∷ path) = refl
stored b entry (node bit old child0 child1) (true ∷ path) = refl

-- What a null pointer becomes before the loop goes on.
pub store_later :
    (rest : ℕ) (b : Bool) (entry : TableEntry) (t : Trie)
    → store_at_end (suc rest) entry (or_new b t) ≡ or_new b t
unfolding store_at_end or_new
store_later rest b entry empty = refl
store_later rest b entry (node bit old child0 child1) = refl

-- A trie with a root.
abbrev pub IsRooted : Trie → Type 0
IsRooted t = is_null t ≡ false

or_new-IsRooted : (b : Bool) (t : Trie) → IsRooted (or_new b t)
unfolding or_new is_null
or_new-IsRooted b empty = refl
or_new-IsRooted b (node bit entry child0 child1) = refl

-- What the loop does to a child, for every path below it.
ChildStep : (rest i : ℕ) → TableEntry → Type 0
ChildStep rest i entry =
    (bit : Bool) (child : Trie) (path : List Bool)
    → entry_at (insert_from rest i entry (store_at_end rest entry (or_new bit child))) path
      ≡ (if same_path path (bits entry.prefix i rest) then entry else entry_at child path)

step_at :
    (rest i : ℕ) (entry : TableEntry) (t : Trie)
    → IsRooted t
    → ChildStep rest (i + 1) entry
    → (path : List Bool)
    → entry_at (insert_from (suc rest) i entry t) path
      ≡ (if same_path path (bits entry.prefix i (suc rest)) then entry else entry_at t path)
unfolding insert_from is_null ChildStep
step_at rest i entry empty r step path = absurd (ground arith)
step_at rest i entry (node b old child0 child1) r step path =
    elim (Bool-cases (bit_at entry.prefix i)) [
      | inl t ↦ rw t (on_one path)
      | inr f ↦ rw f (on_zero path)
    ]
  where
    on_one :
        (path : List Bool)
        → entry_at
            (node b old child0
              (insert_from rest (i + 1) entry (store_at_end rest entry (or_new true child1))))
            path
          ≡ (if same_path path (true ∷ bits entry.prefix (i + 1) rest)
              then entry
              else entry_at (node b old child0 child1) path)
    on_one [] = refl
    on_one (false ∷ path) = refl
    on_one (true ∷ path) = step true child1 path

    on_zero :
        (path : List Bool)
        → entry_at
            (node b old
              (insert_from rest (i + 1) entry (store_at_end rest entry (or_new false child0)))
              child1)
            path
          ≡ (if same_path path (false ∷ bits entry.prefix (i + 1) rest)
              then entry
              else entry_at (node b old child0 child1) path)
    on_zero [] = refl
    on_zero (false ∷ path) = step false child0 path
    on_zero (true ∷ path) = refl

child_at : (rest i : ℕ) (entry : TableEntry) → ChildStep rest i entry
unfolding ChildStep insert_from
child_at zero i entry bit child path = stored bit entry child path
child_at (suc rest) i entry bit child path = rw (
  store_later rest bit entry child,
  step_at rest i entry (or_new bit child) (or_new-IsRooted bit child) (child_at rest (i + 1) entry)
      path,
  entry_at-or_new bit child path,
)

-- After an insertion of an entry with a mask length above 0, the path of the first `mask_len` bits of
-- its prefix, from bit 0 up, holds the entry, and every other path holds what it held.
pub insert_at :
    (t : Trie) (entry : TableEntry) (path : List Bool)
    → IsRooted t
    → 0 < entry.mask_len
    → entry_at (insert t entry) path
      ≡ (if same_path path (bits entry.prefix 0 entry.mask_len) then entry else entry_at t path)
unfolding insert
insert_at t entry path r pos = counted entry.mask_len pos
  where
    counted :
        (n : ℕ)
        → 0 < n
        → entry_at (insert_from n 0 entry t) path
          ≡ (if same_path path (bits entry.prefix 0 n) then entry else entry_at t path)
    counted zero pos = absurd (omega arith)
    counted (suc rest) pos = step_at rest 0 entry t r (child_at rest 1 entry) path
