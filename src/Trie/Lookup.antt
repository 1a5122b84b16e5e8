-- ===== src/Trie/Lookup.antt =====
-- The search in the trie finds what an insertion has stored.
use pcom.Prelude.{
  ◌≢◌, List, ℕ, zero, suc, ◌+◌, ◌≤◌, ◌<◌, [], ◌∷◌, Bool, true, false, ◌≡◌, refl, sym, ◌∙◌, arith,
  Bool-cases, inl, inr,
}
use pcom.Trie.{
  TableEntry, Trie, empty, node, bit_at, no_entry, mask_length_from, get_mask_length, or_new,
  store_at_end, insert_from, insert, is_null, next_match, get_prefix,
}
use pcom.Trie.Insert.{bits, below, IsRooted, store_later}

mask_length_from_le : (mask i : ℕ) → mask_length_from mask i ≤ i
unfolding mask_length_from
mask_length_from_le mask zero = omega arith
mask_length_from_le mask (suc i) = ground (arith, mask_length_from_le mask i)

-- A leaf with this entry.
abbrev pub IsLeaf : Trie → TableEntry → Type 0
IsLeaf t entry = (b : Bool) × (t ≡ node b entry empty empty)

below_empty : (path : List Bool) → below empty path ≡ empty
below_empty [] = refl
below_empty (b ∷ path) = refl

below-or_new :
    (b c : Bool) (t : Trie) (path : List Bool)
    → below t (c ∷ path) ≡ empty
    → below (or_new b t) (c ∷ path) ≡ empty
unfolding or_new
below-or_new b true empty path h = below_empty path
below-or_new b false empty path h = below_empty path
below-or_new b c (node d entry child0 child1) path h = h

or_new_root : (b : Bool) (t : Trie) → is_null (or_new b t) ≡ false
unfolding or_new is_null
or_new_root b empty = refl
or_new_root b (node d entry child0 child1) = refl

-- A leaf where the path of an entry ends, if nothing stood there.
LeafStep : (rest i : ℕ) → TableEntry → Type 0
LeafStep rest i entry =
    (bit : Bool) (child : Trie)
    → below child (bits entry.prefix i rest) ≡ empty
    → IsLeaf
        (below (insert_from rest i entry (store_at_end rest entry (or_new bit child)))
          (bits entry.prefix i rest))
        entry

step-IsLeaf :
    (rest i : ℕ) (entry : TableEntry) (t : Trie)
    → is_null t ≡ false
    → LeafStep rest (i + 1) entry
    → below t (bits entry.prefix i (suc rest)) ≡ empty
    → IsLeaf (below (insert_from (suc rest) i entry t) (bits entry.prefix i (suc rest))) entry
unfolding insert_from is_null LeafStep
step-IsLeaf rest i entry empty r step h = absurd (ground arith)
step-IsLeaf rest i entry (node b old child0 child1) r step h =
    elim (Bool-cases (bit_at entry.prefix i)) [
      | inl t ↦ rw t (step true child1 (rw t at h))
      | inr f ↦ rw f (step false child0 (rw f at h))
    ]

child-IsLeaf : (rest i : ℕ) (entry : TableEntry) → LeafStep rest i entry
unfolding LeafStep insert_from store_at_end or_new
child-IsLeaf zero i entry bit child h = rw h (bit, refl)
child-IsLeaf (suc rest) i entry bit child h = rw (store_later rest bit entry child) (
    step-IsLeaf rest i entry (or_new bit child) (or_new_root bit child)
      (child-IsLeaf rest (i + 1) entry)
      (below-or_new bit (bit_at entry.prefix i) child (bits entry.prefix (i + 1) rest) h))

is_null-leaf :
    (t : Trie) (path : List Bool) (entry : TableEntry)
    → IsLeaf (below t path) entry
    → is_null t ≡ false
unfolding is_null
is_null-leaf empty path entry (b, l) = absurd (ne b (sym (below_empty path) ∙ l))
  where
    ne : (b : Bool) → empty ≢ node b entry empty empty
    ne b e = absurd (ground arith)
is_null-leaf (node d old child0 child1) path entry l = refl

-- The walk reaches a leaf and brings its entry.
next_match-leaf :
    (n pos elem : ℕ) (matched entry : TableEntry) (t : Trie)
    → pos + n < 32
    → IsLeaf (below t (bits elem pos n)) entry
    → next_match t elem pos matched ≡ entry
unfolding next_match
next_match-leaf zero pos elem matched entry t h (b, l) = rw l (ground arith)
next_match-leaf (suc n) pos elem matched entry empty h (b, l) = absurd (ground arith)
next_match-leaf (suc n) pos elem matched entry (node d old child0 child1) h leaf =
    elim (Bool-cases (bit_at elem pos)) [
      | inl t ↦
          let l = rw t at leaf in
          let found = next_match-leaf n (pos + 1) elem old entry child1 (omega arith) l in
          let there = is_null-leaf child1 (bits elem (pos + 1) n) entry l in
          rw (t, there) (ground (arith, found))
      | inr f ↦
          let l = rw f at leaf in
          let found = next_match-leaf n (pos + 1) elem old entry child0 (omega arith) l in
          rw f (ground (arith, found))
    ]

get_prefix-leaf :
    (n elem : ℕ) (entry : TableEntry) (t : Trie)
    → n < 31
    → 0 < elem
    → IsLeaf (below t (bits elem 0 (suc n))) entry
    → get_prefix t elem ≡ entry
unfolding get_prefix
get_prefix-leaf n elem entry empty h pos (b, l) = absurd (ground arith)
get_prefix-leaf n elem entry (node d old child0 child1) h pos leaf =
    elim (Bool-cases (bit_at elem 0)) [
      | inl t ↦ rw t (
          ground
            (arith, next_match-leaf n 1 elem no_entry entry child1 (omega arith) (rw t at leaf)))
      | inr f ↦ rw f (
          ground
            (arith, next_match-leaf n 1 elem no_entry entry child0 (omega arith) (rw f at leaf)))
    ]

inserted_found :
    (n : ℕ) (t : Trie) (entry : TableEntry) (elem : ℕ)
    → is_null t ≡ false
    → 0 < n
    → n ≤ 31
    → below t (bits entry.prefix 0 n) ≡ empty
    → bits elem 0 n ≡ bits entry.prefix 0 n
    → 0 < elem
    → get_prefix (insert_from n 0 entry t) elem ≡ entry
inserted_found zero t entry elem r one le free same pos = absurd (omega arith)
inserted_found (suc n) t entry elem r one le free same pos =
    get_prefix-leaf n elem entry (insert_from (suc n) 0 entry t) (omega arith) pos
      (rw same (step-IsLeaf n 0 entry t r (child-IsLeaf n 1 entry) free))

get_mask_length-positive : (mask : ℕ) → bit_at mask 31 ≡ true → 0 < get_mask_length mask
unfolding get_mask_length mask_length_from
get_mask_length-positive mask top = rw top (omega arith)

-- A row of the file whose mask has bit 31 set, put into a trie that has a root and nothing at the
-- row's path or below, is what the search finds for every address above 0 that agrees with its
-- prefix in the first `mask_len` bits from bit 0 up.
pub get_prefix-insert :
    (t : Trie) (entry : TableEntry) (elem : ℕ)
    → IsRooted t
    → entry.mask_len ≡ get_mask_length entry.mask
    → bit_at entry.mask 31 ≡ true
    → below t (bits entry.prefix 0 entry.mask_len) ≡ empty
    → bits elem 0 entry.mask_len ≡ bits entry.prefix 0 entry.mask_len
    → 0 < elem
    → get_prefix (insert t entry) elem ≡ entry
unfolding insert get_mask_length
get_prefix-insert t entry elem r e top free same pos =
    let above = get_mask_length-positive entry.mask top in
    let bounded = mask_length_from_le entry.mask 31 in
    inserted_found entry.mask_len t entry elem r (omega arith) (omega arith) free same pos
