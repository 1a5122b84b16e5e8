-- ===== src/TrieRouter/Table.antt =====
-- Look-up in `arpTable` after an assignment, and the packets whose destination has a row in it.
use pcom.Prelude.{
  ℕ, List, [], ◌∷◌, ◌++◌, some, ◌==◌, if◌then◌else◌, ◌≡◌, refl, ◌∙◌, arith, inl, inr, Bool-cases,
}
use pcom.Frames.{Packet}
use pcom.Router.{ip_daddr}
use pcom.TrieRouter.{ArpEntry, ArpTable, find, assign}

-- An assignment is found under its key, and changes no other key.
pub find-assign :
    (table : ArpTable) (key : ℕ) (entry : ArpEntry) (ip : ℕ)
    → find (assign table key entry) ip ≡ (if key == ip then some entry else find table ip)
unfolding find assign
find-assign [] key entry ip = refl
find-assign ((k, old) ∷ table) key entry ip = ground (arith, find-assign table key entry ip)

-- The key has a row.
abbrev pub HasRow : ArpTable → ℕ → Type 0
HasRow table ip = (entry : ArpEntry) × (find table ip ≡ some entry)

pub HasRow-assign :
    (table : ArpTable) (key : ℕ) (entry : ArpEntry) (ip : ℕ)
    → HasRow table ip
    → HasRow (assign table key entry) ip
HasRow-assign table key entry ip (old, h) = elim (Bool-cases (key == ip)) [
  | inl t ↦ (entry, find-assign table key entry ip ∙ rw t)
  | inr f ↦ (old, find-assign table key entry ip ∙ rw f h)
]

-- Every packet of the queue is for a destination that has a row.
pub data IsWaiting (table : ArpTable) : List Packet → Type 0 where
  none_left : IsWaiting table []
  one_more :
      {packet : Packet} {q : List Packet}
      → HasRow table (ip_daddr packet.payload)
      → IsWaiting table q
      → IsWaiting table (packet ∷ q)

pub IsWaiting-assign :
    (table : ArpTable) (key : ℕ) (entry : ArpEntry) {q : List Packet}
    → IsWaiting table q
    → IsWaiting (assign table key entry) q
IsWaiting-assign table key entry none_left = none_left
IsWaiting-assign table key entry (one_more h w) =
    one_more (HasRow-assign table key entry _ h) (IsWaiting-assign table key entry w)

pub IsWaiting-push :
    (table : ArpTable) (packet : Packet) {q : List Packet}
    → HasRow table (ip_daddr packet.payload)
    → IsWaiting table q
    → IsWaiting table (q ++ (packet ∷ []))
IsWaiting-push table packet h none_left = one_more h none_left
IsWaiting-push table packet h (one_more g w) = one_more g (IsWaiting-push table packet h w)
