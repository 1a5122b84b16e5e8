-- ===== src/Forwarder.antt =====
-- The router of Lab04/router.c: a linear search for the longest mask, a fixed ARP table, and a loop
-- that forwards. Its packets, rows and header checksum are those of Teme/Tema1.
pub mod Longest
pub mod Serve
use pcom.Prelude.{
  ℕ, zero, suc, ◌+◌, List, [], ◌∷◌, Option, none, some, Bool, true, false, ltb, leb, ◌==◌, ◌&&◌,
  not, if◌then◌else◌, get_elem?,
}
use pcom.Bytes.{patch}
use pcom.Routes.{Entry, masked}
use pcom.Arp.{ArpEntry, get_arp_entry}
use pcom.Frames.{Packet, Frame, send_packet}
use pcom.Router.{header_sum, update_header, ip_ttl, ip_daddr}

-- The variables `id` and `maskMax` of the loop; `id` is `none` for -1.
pub record Best : Type 0 where
  pub id : Option ℕ
  pub mask_max : ℕ

-- The body of the loop at row `i`; the masks are compared as unsigned words.
unfoldable pub consider : ℕ → ℕ → Entry → Best → Best
consider dest_ip i e best =
    if (masked dest_ip e == e.prefix) && ltb best.mask_max e.mask
    then record { id = some i; mask_max = e.mask }
    else best

-- The loop from row `i` on.
unfoldable pub best_loop : ℕ → ℕ → List Entry → Best → Best
best_loop dest_ip i [] best = best
best_loop dest_ip i (e ∷ rtable) best = best_loop dest_ip (i + 1) rtable (consider dest_ip i e best)

-- `get_best_route`, as the index of the row.
unfoldable pub best_route : List Entry → ℕ → Option ℕ
best_route rtable dest_ip = (best_loop dest_ip 0 rtable (record { id = none; mask_max = 0 })).id

-- A round: the packet array after it and the frames sent, or a read through `NULL`.
pub data Round : Type 0 where
  next : Packet → List Frame → Round
  undefined : Round

-- The end of the round, with what the two searches returned.
unfoldable pub transmit : Packet → Option Entry → Option ArpEntry → Round
transmit m none arp = undefined
transmit m (some route) none = undefined
transmit m (some route) (some arp) =
    let m' = record m { payload = patch m.payload 0 arp.mac } in
    next m' (send_packet route.interface m' ∷ [])

-- The row at an index that `best_route` returned.
unfoldable pub row : List Entry → Option ℕ → Option Entry
row rtable none = none
row rtable (some i) = get_elem? rtable i

-- The body of the loop of `main`.
unfoldable pub serve_packet : List Entry → List ArpEntry → Packet → Round
serve_packet rtable arp_table m =
    if not (header_sum m.payload == 0)
    then next m []
    else if leb (ip_ttl m.payload) 1
    then next m []
    else (let aged = update_header m.payload in
        transmit (record m { payload = aged }) (row rtable (best_route rtable (ip_daddr m.payload)))
          (get_arp_entry arp_table (ip_daddr aged)))
