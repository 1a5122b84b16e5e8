-- ===== src/Routes.antt =====
-- The routing table of Teme/Tema1/router.c: its rows, their order, and the search in it.
pub mod Order
pub mod Search
use Prim.Native.Nat.{bit_and}
use pcom.Prelude.{
  ℕ, zero, suc, ◌+◌, ◌-◌, ◌*◌, ◌/◌, ◌%◌, ◌^◌, List, [], ◌∷◌, Option, none, some, Bool, true, false,
  ℤ, pos, negsuc, signed32, ltb, leb, ◌==◌, if◌then◌else◌, length, get_elem?,
}

-- `struct route_table_entry`: addresses in network byte order, read as little-endian words. `interface`
-- is one of the three of `interfaces`.
pub record Entry : Type 0 where
  pub prefix : ℕ
  pub next_hop : ℕ
  pub mask : ℕ
  pub interface : ℕ

-- The four numbers that `sscanf(ip, "%u.%u.%u.%u", …)` finds.
pub record Quad : Type 0 where
  pub group3 : ℕ
  pub group2 : ℕ
  pub group1 : ℕ
  pub group0 : ℕ

-- `ipToInt`, on `unsigned int`.
unfoldable pub ip_to_int : Quad → ℕ
ip_to_int q =
    (q.group3 * 2 ^ 24 % 2 ^ 32 + q.group2 * 2 ^ 16 % 2 ^ 32 + q.group1 * 2 ^ 8 % 2 ^ 32 + q.group0)
    % 2 ^ 32

-- `htonl` of a little-endian host.
unfoldable pub htonl : ℕ → ℕ
htonl x = x % 256 * 2 ^ 24 + x / 2 ^ 8 % 256 * 2 ^ 16 + x / 2 ^ 16 % 256 * 2 ^ 8 + x / 2 ^ 24

-- What `sscanf` and `atoi` find in one line of the file.
pub record Row : Type 0 where
  pub prefix : Quad
  pub next_hop : Quad
  pub mask : Quad
  pub interface : ℤ

-- `died` is the exit by `DIE`, `overrun` a write behind the 66000 entries that `main` allocates. A table
-- with a row for none of the three interfaces is `not_modelled`: the program goes on with it, and reads
-- outside of `interfaces` when it sends by that row.
pub data Loaded : Type 0 where
  table : List Entry → Loaded
  died overrun not_modelled : Loaded

unfoldable pub interface_of : ℤ → Option ℕ
interface_of (pos i) = if ltb i 3 then some i else none
interface_of (negsuc i) = none

unfoldable pub row_entry : Row → (interface : ℕ) → Entry
unfolding ip_to_int htonl
row_entry r interface = record {
  prefix = htonl (ip_to_int r.prefix);
  next_hop = htonl (ip_to_int r.next_hop);
  mask = htonl (ip_to_int r.mask);
  interface = interface;
}

-- A row before those that are read after it.
unfoldable pub put_row : Row → Option ℕ → Loaded → Loaded
unfolding row_entry
put_row r none rest = not_modelled
put_row r (some interface) (table entries) = table (row_entry r interface ∷ entries)
put_row r (some interface) died = died
put_row r (some interface) overrun = overrun
put_row r (some interface) not_modelled = not_modelled

-- The `fgets` loop at index `i`.
unfoldable pub read_rows : {Line : Type 0} → (Line → Row) → ℕ → List Line → Loaded
unfolding put_row interface_of
read_rows scan i [] = table []
read_rows scan i (line ∷ lines) =
    let rest = read_rows scan (i + 1) lines in
    if leb 66000 i then overrun else put_row (scan line) (interface_of (scan line).interface) rest

-- `readRtable`: the file is the list of its lines, or `none` if it cannot be opened. `scan` stands
-- for `sscanf` and `atoi` of the C library.
unfoldable pub read_rtable : {Line : Type 0} → (Line → Row) → Option (List Line) → Loaded
unfolding read_rows
read_rtable scan none = died
read_rtable scan (some lines) = read_rows scan 0 lines

-- `comparator` for `qsort`: the difference of two `int`s, wrapping.
unfoldable pub comparator : Entry → Entry → ℤ
comparator o1 o2 = signed32 ((o2.prefix + 2 ^ 32 - o1.prefix) % 2 ^ 32)

-- What `get_best_route` returns: the index and content of the row, or `NULL`. `fault` is a read
-- outside the table.
pub data Lookup : Type 0 where
  found : ℕ → Entry → Lookup
  missing fault out_of_fuel : Lookup

-- `(dest_ip & rtable[mid].mask)`
abbrev pub masked : ℕ → Entry → ℕ
masked dest e = bit_and dest e.mask

-- The body of the loop at `mid`; `lower` and `upper` are the two ways to go on.
unfoldable pub probe : ℕ → ℕ → Entry → Lookup → Lookup → Lookup
probe dest mid e lower upper =
    if masked dest e == e.prefix
    then found mid e
    else if ltb e.prefix (masked dest e)
    then lower
    else upper

-- The loop of `get_best_route`, where `end` is `right + 1`, so that `left <= right` is `left < end`
-- and `right` may be -1. Fuel bounds the rounds.
unfoldable pub search_route : ℕ → List Entry → ℕ → ℕ → ℕ → Lookup
search_route zero rtable dest left end = out_of_fuel
search_route (suc fuel) rtable dest left end =
    let mid = (left + (end - 1)) / 2 in
    let lower = search_route fuel rtable dest left mid in
    let upper = search_route fuel rtable dest (mid + 1) end in
    if ltb left end
    then elim (get_elem? rtable mid) [ none ↦ fault | some e ↦ probe dest mid e lower upper ]
    else missing

unfoldable pub get_best_route : List Entry → ℕ → Lookup
get_best_route rtable dest = search_route (length rtable + 1) rtable dest 0 (length rtable)
