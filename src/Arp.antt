-- ===== src/Arp.antt =====
-- The ARP table of Teme/Tema1/router.c.
use pcom.Prelude.{
  ℕ, List, [], ◌∷◌, ◌++◌, ◌≡◌, ◌<◌, refl, Option, none, some, ◌==◌, if◌then◌else◌, leb, length,
  arith,
}

-- `struct arp_entry`
pub record ArpEntry : Type 0 where
  pub ip : ℕ
  pub mac : List ℕ

-- `get_arp_entry`: the first row with this address.
unfoldable pub get_arp_entry : List ArpEntry → ℕ → Option ArpEntry
get_arp_entry [] ip = none
get_arp_entry (e ∷ table) ip = if ip == e.ip then some e else get_arp_entry table ip

-- `arp_table[arp_table_len++] = newArp;` in the 66000 rows that `main` allocates; `none` is a write
-- behind them.
unfoldable pub add_arp_entry : List ArpEntry → ArpEntry → Option (List ArpEntry)
add_arp_entry table entry = if leb 66000 (length table) then none else some (table ++ (entry ∷ []))

get_arp_entry-append :
    (table : List ArpEntry) (entry : ArpEntry) (ip : ℕ)
    → get_arp_entry (table ++ (entry ∷ [])) ip ≡ elim (get_arp_entry table ip) [
      | some e ↦ some e
      | none ↦ (if ip == entry.ip then some entry else none)
    ]
unfolding get_arp_entry
get_arp_entry-append [] entry ip = refl
get_arp_entry-append (e ∷ table) entry ip = ground (arith, get_arp_entry-append table entry ip)

-- Where a reply is stored it is found for its address, unless an older row has that address: the
-- older row stays in force, and no other address is touched.
pub get_arp_entry-add :
    (table : List ArpEntry) (entry : ArpEntry) (ip : ℕ) {table' : List ArpEntry}
    → add_arp_entry table entry ≡ some table'
    → get_arp_entry table' ip ≡ elim (get_arp_entry table ip) [
      | some e ↦ some e
      | none ↦ (if ip == entry.ip then some entry else none)
    ]
unfolding add_arp_entry
get_arp_entry-add table entry ip h = ground (arith, get_arp_entry-append table entry ip)

pub add_arp_entry-room :
    (table : List ArpEntry) (entry : ArpEntry)
    → length table < 66000
    → (table' : List ArpEntry) × (add_arp_entry table entry ≡ some table')
unfolding add_arp_entry
add_arp_entry-room table entry h = (table ++ (entry ∷ []), ground arith)
