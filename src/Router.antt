-- ===== src/Router.antt =====
-- The main loop of Teme/Tema1/router.c: one call of `serve` for each packet that `get_packet` gives.
pub mod Header
pub mod Headed
pub mod Ipv4
pub mod Forward
pub mod Requests
pub mod Release
pub mod Safety
pub mod Reply
pub mod Run
use pcom.Prelude.{
  ℕ, zero, suc, ◌+◌, ◌-◌, ◌*◌, ◌%◌, ◌^◌, List, [], ◌∷◌, ◌++◌, Option, none, some, Bool, true, false,
  ltb, leb, ◌==◌, if◌then◌else◌, length, ◌&&◌, not, replicate,
}
use pcom.Bytes.{load8, load16, load32, le16, patch, slice}
use pcom.Checksum.{htons, ip_checksum}
use pcom.Routes.{
  Entry, Quad, ip_to_int, htonl, Lookup, found, missing, fault, out_of_fuel, get_best_route,
}
use pcom.Arp.{ArpEntry, get_arp_entry, add_arp_entry}
use pcom.Frames.{
  Packet, Frame, send_packet, send_icmp, send_icmp_error, send_arp, ethertype_arp, ethertype_ip,
}

-- What does not change while the router runs: the sorted table, and what the system says of the
-- interfaces and the process. `interface_ip` is the dotted quad that `get_interface_ip` returns.
pub record Config : Type 0 where
  pub rtable : List Entry
  pub interface_ip : ℕ → Quad
  pub interface_mac : ℕ → List ℕ
  pub pid : ℕ

-- What an element of the queue points to: a packet on the heap, which nothing else points to, or
-- the variable `firstPacket` of a block that has been left.
pub data Ref : Type 0 where
  owned : Packet → Ref
  dangling : Ref

pub record State : Type 0 where
  pub arp_table : List ArpEntry
  pub q : List Ref
  pub m : Packet

-- A round of the loop: the next state and the frames sent, or undefined behaviour.
pub data Turn : Type 0 where
  next : State → List Frame → Turn
  undefined : Turn

-- `inet_aton` of a dotted quad, as `s_addr`: the four numbers in memory order.
unfoldable pub inet_aton : Quad → ℕ
inet_aton q = q.group3 + q.group2 * 2 ^ 8 + q.group1 * 2 ^ 16 + q.group0 * 2 ^ 24

-- Offsets into `m.payload`: the Ethernet header, then the IP or ARP header, then the ICMP header.
abbrev pub ether_type : List ℕ → ℕ
ether_type p = load16 p 12

abbrev pub ip_ttl : List ℕ → ℕ
ip_ttl p = load8 p 22

abbrev pub ip_protocol : List ℕ → ℕ
ip_protocol p = load8 p 23

abbrev pub ip_check : List ℕ → ℕ
ip_check p = load16 p 24

abbrev pub ip_saddr : List ℕ → ℕ
ip_saddr p = load32 p 26

abbrev pub ip_daddr : List ℕ → ℕ
ip_daddr p = load32 p 30

abbrev pub arp_op : List ℕ → ℕ
arp_op p = load16 p 20

abbrev pub arp_spa : List ℕ → ℕ
arp_spa p = load32 p 28

abbrev pub icmp_type : List ℕ → ℕ
icmp_type p = load8 p 34

-- `ip_checksum(ip_hdr, sizeof(struct iphdr))`: a `packet` is aligned, and its IP header stands 18
-- bytes behind its start.
unfoldable pub header_sum : List ℕ → ℕ
header_sum p = ip_checksum 2 (slice p 14 20)

-- `ip_hdr->check = 0;`
unfoldable pub clear_check : List ℕ → List ℕ
clear_check p = patch p 24 (le16 0)

-- `ttl = ttl - 1; check = 0; check = ip_checksum(…);`, on a `uint8_t`.
unfoldable pub update_header : List ℕ → List ℕ
update_header p =
    let aged = patch p 22 ((ip_ttl p + 255) % 256 ∷ []) in
    let cleared = clear_check aged in patch cleared 24 (le16 (header_sum cleared))

-- `init` leaves the tables empty; `m` holds whatever the stack held.
unfoldable pub boot : Packet → State
boot m = record { arp_table = []; q = []; m = m }

-- `get_packet`: `read` puts the frame over the old bytes of `m.payload`.
unfoldable pub receive : State → ℕ → List ℕ → State
receive st interface bytes = record st {
  m = record { len = length bytes; payload = patch st.m.payload 0 bytes; interface = interface };
}

-- The branch of an ARP request: the reply goes back with the router's address as the sender.
unfoldable pub serve_arp_request : Config → State → Turn
serve_arp_request cfg st =
    let p = st.m.payload in
    let p1 = patch p 0 (slice p 6 6) in
    let p2 = patch p1 6 (cfg.interface_mac st.m.interface) in
    let p3 = patch p2 12 (le16 (htons ethertype_arp)) in
    let reply =
      send_arp (arp_spa p3) (htonl (ip_to_int (cfg.interface_ip st.m.interface))) (slice p3 0 14)
        st.m.interface (htons 2) in
    next (record st { m = record st.m { payload = p3 } }) (reply ∷ [])

-- What the loop over `q` leaves: the packets put into `q2`, and the frames sent.
pub data Released : Type 0 where
  released : List Packet → List Frame → Released
  faulted : Released

unfoldable pub release_packet : Config → Packet → Entry → List ℕ → Frame
release_packet cfg packet route sha =
    let p1 = update_header packet.payload in
    let p2 = patch p1 0 sha in
    let p3 = patch p2 6 (cfg.interface_mac route.interface) in
    send_packet route.interface (record packet { payload = p3 })

-- One packet of the queue against the reply of `spa`; `rest` is the remainder of the loop.
unfoldable pub release_one : Config → ℕ → List ℕ → Packet → Released → Released
release_one cfg spa sha packet rest = elim rest [
  | faulted ↦ faulted
  | released kept frames ↦ (elim (get_best_route cfg.rtable (ip_daddr packet.payload)) [
    | found i route ↦
        (if route.next_hop == spa
          then released kept (release_packet cfg packet route sha ∷ frames)
          else released (packet ∷ kept) frames)
    | missing ↦ faulted
    | fault ↦ faulted
    | out_of_fuel ↦ faulted
  ])
]

-- `while (!queue_empty(q))` of the ARP reply, where `NULL` and an expired pointer are read through.
unfoldable pub release : Config → ℕ → List ℕ → List Ref → Released
release cfg spa sha [] = released [] []
release cfg spa sha (dangling ∷ q) = faulted
release cfg spa sha (owned packet ∷ q) = release_one cfg spa sha packet (release cfg spa sha q)

-- `packet firstPacket = *(packet *) queue_deq(q2); queue_enq(q, &firstPacket);`: every element put
-- back is the address of a variable whose block ends at once.
unfoldable pub put_back : List Packet → List Ref
put_back [] = []
put_back (packet ∷ kept) = dangling ∷ put_back kept

-- The branch of an ARP reply.
unfoldable pub serve_arp_reply : Config → State → Turn
serve_arp_reply cfg st =
    let p = st.m.payload in
    let entry : ArpEntry = record { ip = arp_spa p; mac = slice p 22 6 } in
    elim (add_arp_entry st.arp_table entry) [
      | none ↦ undefined
      | some arp_table ↦ (elim (release cfg (arp_spa p) (slice p 22 6) st.q) [
        | faulted ↦ undefined
        | released kept frames ↦
            next (record st { arp_table = arp_table; q = put_back kept }) frames
      ])
    ]

-- The destination's hardware address is not known: keep the packet and ask for it.
unfoldable pub serve_unknown_mac : Config → State → List ℕ → Entry → Turn
serve_unknown_mac cfg st p route =
    let p1 = patch p 6 (cfg.interface_mac route.interface) in
    let p2 = patch p1 0 (replicate 6 0xff) in
    let p3 = patch p2 12 (le16 1544) in
    let request =
      send_arp route.next_hop (inet_aton (cfg.interface_ip route.interface)) (slice p3 0 14)
        route.interface (htons 1) in
    next
      (record st {
        q = st.q ++ (owned (record st.m { payload = p }) ∷ []);
        m = record st.m { payload = p3 };
      })
      (request ∷ [])

-- The destination's hardware address is known: send the packet on.
unfoldable pub forward : State → List ℕ → Entry → ArpEntry → Turn
forward st p route arp =
    let p1 = patch (update_header p) 0 arp.mac in
    let m = record st.m { payload = p1 } in
    next (record st { m = m }) (send_packet route.interface m ∷ [])

-- Is it an echo request to the address of the interface it came in by?
unfoldable pub is_echo_for_router : Config → State → List ℕ → Bool
is_echo_for_router cfg st p =
    (ip_protocol p == 1)
    && ((icmp_type p == 8) && (inet_aton (cfg.interface_ip st.m.interface) == ip_daddr p))

-- An IPv4 packet with a route, its `check` cleared in `p`.
unfoldable pub serve_routed : Config → State → List ℕ → Entry → Turn
serve_routed cfg st p route =
    let st' = record st { m = record st.m { payload = p } } in
    if is_echo_for_router cfg st p
    then next st' (
        send_icmp (ip_saddr p) (ip_daddr p) (slice p 0 6) (slice p 6 6) 0 0 st.m.interface
          (htons (cfg.pid % 2 ^ 16)) 0
        ∷ [])
    else (elim (get_arp_entry st.arp_table (ip_daddr p)) [
      | none ↦ serve_unknown_mac cfg st p route
      | some arp ↦ forward st p route arp
    ])

-- The branch of an IPv4 packet.
unfoldable pub serve_ipv4 : Config → State → Turn
serve_ipv4 cfg st =
    let p = clear_check st.m.payload in
    let st' = record st { m = record st.m { payload = p } } in
    let refuse = λ (type : ℕ). next st' (
      send_icmp_error (ip_saddr p) (ip_daddr p) (slice p 0 6) (slice p 6 6) type 0 st.m.interface
      ∷ []) in
    let lookup = get_best_route cfg.rtable (ip_daddr st.m.payload) in
    if not (header_sum p == ip_check st.m.payload)
    then next st' []
    else if leb (ip_ttl p) 1
    then refuse 11
    else (elim lookup [
      | found i route ↦ serve_routed cfg st p route
      | missing ↦ refuse 3
      | fault ↦ undefined
      | out_of_fuel ↦ undefined
    ])

-- The body of the loop.
unfoldable pub serve : Config → State → Turn
serve cfg st =
    let p = st.m.payload in
    if ether_type p == htons ethertype_arp
    then (if arp_op p == htons 1 then serve_arp_request cfg st else serve_arp_reply cfg st)
    else if ether_type p == htons ethertype_ip
    then serve_ipv4 cfg st
    else next st []

-- The loop over the frames that arrive, each with its interface.
unfoldable pub run : Config → State → List (ℕ × List ℕ) → Turn
run cfg st [] = next st []
run cfg st ((interface, bytes) ∷ arrivals) = elim (serve cfg (receive st interface bytes)) [
  | undefined ↦ undefined
  | next st' frames ↦ (elim (run cfg st' arrivals) [
    | undefined ↦ undefined
    | next st'' frames' ↦ next st'' (frames ++ frames')
  ])
]
