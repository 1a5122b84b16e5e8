-- ===== src/Trie.antt =====
-- The routing table of the other router, "pc pirvu": include/rtable_entry.h, include/trie.h and
-- include/rtable.h. A null pointer is `empty`.
pub mod Insert
pub mod Lookup
use pcom.Prelude.{
  ℕ, zero, suc, ◌+◌, ◌-◌, ◌*◌, ◌/◌, ◌%◌, ◌^◌, List, [], ◌∷◌, Bool, true, false, ltb, ◌==◌, ◌&&◌,
  not, if◌then◌else◌,
}
use pcom.Routes.{htonl}

-- `rTableEntry`: the prefix and the next hop in network byte order, read as little-endian words.
pub record TableEntry : Type 0 where
  pub prefix : ℕ
  pub next_hop : ℕ
  pub mask : ℕ
  pub mask_len : ℕ
  pub interface : ℕ

-- `(word >> i) & 1`
abbrev pub bit_at : ℕ → ℕ → Bool
bit_at word i = word / 2 ^ i % 2 == 1

-- The loop of `getMaskLength`, with `i` rounds left: it ends in front of bit 0.
unfoldable pub mask_length_from : (mask i : ℕ) → ℕ
mask_length_from mask zero = 0
mask_length_from mask (suc i) =
    let rest = mask_length_from mask i in if bit_at mask (suc i) then 1 + rest else 0

-- `getMaskLength`
unfoldable pub get_mask_length : ℕ → ℕ
get_mask_length mask = mask_length_from mask 31

-- `rTableEntry()`
abbrev pub no_entry : TableEntry
no_entry = record { prefix = 0; next_hop = 0; mask = 0; mask_len = 0; interface = 0 }

-- `rTableEntry(prefix, nextHop, mask, interface)`
unfoldable pub new_entry : (prefix next_hop mask interface : ℕ) → TableEntry
new_entry prefix next_hop mask interface = record {
  prefix = prefix;
  next_hop = next_hop;
  mask = mask;
  mask_len = get_mask_length mask;
  interface = interface;
}

-- `trieNode`: `data.first`, `data.second`, and the two children.
pub data Trie : Type 0 where
  empty : Trie
  node : (bit : Bool) → (entry : TableEntry) → (child0 child1 : Trie) → Trie

-- `Trie()`
unfoldable pub new_trie : Trie
new_trie = node false no_entry empty empty

unfoldable pub is_null : Trie → Bool
is_null empty = true
is_null (node bit entry child0 child1) = false

-- `if(!children[bitValue]) children[bitValue] = new trieNode(bitValue, rTableEntry());`
unfoldable pub or_new : Bool → Trie → Trie
or_new bit empty = node bit no_entry empty empty
or_new bit (node b entry child0 child1) = node b entry child0 child1

-- `data.second = entry`, on the last round of the loop only.
unfoldable pub store_at_end : (rest : ℕ) → TableEntry → Trie → Trie
store_at_end rest entry empty = empty
store_at_end zero entry (node b old child0 child1) = node b entry child0 child1
store_at_end (suc rest) entry (node b old child0 child1) = node b old child0 child1

-- The loop of `insert` at the node `currentNode` and bit `i`, with `rest` rounds left.
unfoldable pub insert_from : (rest i : ℕ) → TableEntry → Trie → Trie
insert_from zero i entry t = t
insert_from (suc rest) i entry empty = empty
insert_from (suc rest) i entry (node b old child0 child1) =
    let bit = bit_at entry.prefix i in
    let down0 = insert_from rest (i + 1) entry (store_at_end rest entry (or_new bit child0)) in
    let down1 = insert_from rest (i + 1) entry (store_at_end rest entry (or_new bit child1)) in
    if bit then node b old child0 down1 else node b old down0 child1

-- `insert`
unfoldable pub insert : Trie → TableEntry → Trie
insert t entry = insert_from entry.mask_len 0 entry t

-- `next`, where `matched` is `match`.
unfoldable pub next_match : Trie → (elem pos : ℕ) → (matched : TableEntry) → TableEntry
next_match empty elem pos matched = matched
next_match (node b entry child0 child1) elem pos matched =
    let go0 = next_match child0 elem (pos + 1) entry in
    let go1 = next_match child1 elem (pos + 1) entry in
    if ltb pos 32
    then (if bit_at elem pos && (is_null child1 && not (is_null child0))
        then go0
        else if bit_at elem pos
        then go1
        else go0)
    else matched

-- `getPrefix`
unfoldable pub get_prefix : Trie → ℕ → TableEntry
get_prefix empty elem = no_entry
get_prefix (node b entry child0 child1) elem =
    if ltb 0 elem
    then (if bit_at elem 0
        then next_match child1 elem 1 no_entry
        else next_match child0 elem 1 no_entry)
    else no_entry

-- What `>>` and `inet_aton` find in a line of the file.
pub record Line : Type 0 where
  pub prefix : ℕ
  pub next_hop : ℕ
  pub mask : ℕ
  pub interface : ℕ

-- `parseRTable`; `ntohl` is `htonl`.
unfoldable pub parse_rtable : Trie → List Line → Trie
parse_rtable t [] = t
parse_rtable t (line ∷ lines) =
    parse_rtable (insert t (new_entry line.prefix line.next_hop (htonl line.mask) line.interface))
      lines
