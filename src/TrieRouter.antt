-- ===== src/TrieRouter.antt =====
-- The main loop of "pc pirvu/router.cpp": one call of `serve` for each packet that `get_packet`
-- gives. The queue holds packets by value.
pub mod Table
pub mod Flush
pub mod Ipv4
pub mod Forward
pub mod Echo
use pcom.Prelude.{
  ℕ, ◌+◌, List, [], ◌∷◌, ◌++◌, Option, none, some, Bool, true, false, ltb, ◌==◌, ◌&&◌, not,
  if◌then◌else◌, length, replicate,
}
use pcom.Bytes.{load32, patch, slice}
use pcom.Checksum.{htons}
use pcom.Routes.{Quad}
use pcom.Frames.{Packet, Frame, send_packet, ethertype_arp, ethertype_ip}
use pcom.Router.{
  inet_aton, ether_type, ip_ttl, ip_protocol, ip_check, ip_daddr, arp_op, arp_spa, icmp_type,
  header_sum, clear_check, update_header,
}
use pcom.Trie.{Trie, TableEntry, get_prefix}
use pcom.TrieFrames.{send_arp_reply, send_arp_request, icmp_reply_payload, send_icmp_scratch}

-- `ARPEntry`
pub record ArpEntry : Type 0 where
  pub ip : ℕ
  pub mac : List ℕ

-- `ARPEntry()`
abbrev pub no_arp_entry : ArpEntry
no_arp_entry = record { ip = 0; mac = replicate 6 0 }

-- `arpTable`: a key is at most once in it.
abbrev pub ArpTable : Type 0
ArpTable = List (ℕ × ArpEntry)

-- `arpTable.find(ip)`, where `none` is `arpTable.end()`.
unfoldable pub find : ArpTable → ℕ → Option ArpEntry
find [] ip = none
find ((key, entry) ∷ table) ip = if key == ip then some entry else find table ip

-- `arpTable[ip] = entry`
unfoldable pub assign : ArpTable → ℕ → ArpEntry → ArpTable
assign [] ip entry = (ip, entry) ∷ []
assign ((key, old) ∷ table) ip entry =
    let rest = assign table ip entry in
    if key == ip then (key, entry) ∷ table else (key, old) ∷ rest

-- `arpTable[ip]` read: a missing key is put in with a new entry.
unfoldable pub touch : ArpTable → ℕ → Option ArpEntry → ArpTable
touch table ip none = assign table ip no_arp_entry
touch table ip (some entry) = table

unfoldable pub entry_or_new : Option ArpEntry → ArpEntry
entry_or_new none = no_arp_entry
entry_or_new (some entry) = entry

pub record Config : Type 0 where
  pub rtable : Trie
  pub interface_ip : ℕ → Quad
  pub interface_mac : ℕ → List ℕ
  pub pid : ℕ

pub record State : Type 0 where
  pub arp_table : ArpTable
  pub q : List Packet
  pub m : Packet

-- What a round leaves and sends.
pub record Turn : Type 0 where
  pub state : State
  pub frames : List Frame

-- `get_packet`: `read` puts the frame over the old bytes of `m.payload`.
unfoldable pub receive : State → ℕ → List ℕ → State
receive st interface bytes = record st {
  m = record { len = length bytes; payload = patch st.m.payload 0 bytes; interface = interface };
}

-- A packet sent on to `mac` by the interface of its route.
unfoldable pub readdress : Config → (mac payload : List ℕ) → Packet → Frame
readdress cfg mac payload packet =
    send_packet (get_prefix cfg.rtable (ip_daddr payload)).interface
      (record packet { payload = patch (update_header payload) 0 mac })

-- `while (!q.empty())` of the ARP reply.
unfoldable pub flush : Config → ArpTable → List Packet → ArpTable × List Frame
flush cfg table [] = (table, [])
flush cfg table (packet ∷ q) =
    let ip = ip_daddr packet.payload in
    let entry = find table ip in
    let rest = flush cfg (touch table ip entry) q in
    (rest.0, readdress cfg (entry_or_new entry).mac packet.payload packet ∷ rest.1)

-- The branch of an ARP request.
unfoldable pub answer : (memory : List ℕ) → State → Option ArpEntry → Turn
answer memory st none = record { state = st; frames = [] }
answer memory st (some entry) = record {
  state = st;
  frames = send_arp_reply memory st.m entry.mac ∷ [];
}

unfoldable pub serve_arp_request : Config → (memory : List ℕ) → State → Turn
serve_arp_request cfg memory st =
    let arp_tpa = load32 st.m.payload 38 in
    if inet_aton (cfg.interface_ip st.m.interface) == arp_tpa
    then record {
      state = st;
      frames = send_arp_reply memory st.m (cfg.interface_mac st.m.interface) ∷ [];
    }
    else answer memory st (find st.arp_table arp_tpa)

-- The branch of an ARP reply.
unfoldable pub serve_arp_reply : Config → State → Turn
serve_arp_reply cfg st =
    let p = st.m.payload in
    let entry : ArpEntry = record { ip = arp_spa p; mac = slice p 22 6 } in
    let flushed = flush cfg (assign st.arp_table (arp_spa p) entry) st.q in
    record { state = record st { arp_table = flushed.0; q = [] }; frames = flushed.1 }

-- The branch of a known or unknown hardware address; `p` has its `check` cleared.
unfoldable pub transmit :
    Config → (memory : List ℕ) → State → List ℕ → TableEntry → Option ArpEntry → Turn
transmit cfg memory st p best_match none = record {
  state = record st {
    arp_table = assign st.arp_table (ip_daddr p) no_arp_entry;
    q = st.q ++ (record st.m { payload = p } ∷ []);
    m = record st.m { payload = p };
  };
  frames =
      send_arp_request memory cfg.interface_mac cfg.interface_ip best_match (slice p 30 4) ∷ [];
}
transmit cfg memory st p best_match (some entry) =
    let sent = patch (update_header p) 0 entry.mac in
    let m = record st.m { payload = sent } in
    record { state = record st { m = m }; frames = send_packet best_match.interface m ∷ [] }

-- `sendICMPscratch(m, type, 0)`
unfoldable pub refuse : Config → (memory : List ℕ) → State → List ℕ → ℕ → Turn
refuse cfg memory st p type =
    let m = record st.m { payload = p } in
    record { state = record st { m = m }; frames = send_icmp_scratch memory m type 0 cfg.pid ∷ [] }

-- `sendICMPReply(m)`
unfoldable pub echo : State → List ℕ → Turn
echo st p =
    let m = record st.m { payload = icmp_reply_payload p } in
    record { state = record st { m = m }; frames = send_packet m.interface m ∷ [] }

unfoldable pub is_echo_for_router : Config → State → List ℕ → Bool
is_echo_for_router cfg st p =
    (ip_protocol p == 1)
    && ((icmp_type p == 8) && (inet_aton (cfg.interface_ip st.m.interface) == ip_daddr p))

-- The branch of an IPv4 packet.
unfoldable pub serve_ipv4 : Config → (memory : List ℕ) → State → Turn
serve_ipv4 cfg memory st =
    let p = clear_check st.m.payload in
    let best_match = get_prefix cfg.rtable (ip_daddr st.m.payload) in
    let dropped : Turn = record {
      state = record st { m = record st.m { payload = p } };
      frames = [];
    } in
    if not (header_sum p == ip_check st.m.payload)
    then dropped
    else if ltb (ip_ttl p) 1
    then dropped
    else if ip_ttl p == 1
    then refuse cfg memory st p 11
    else if best_match.prefix == 0
    then refuse cfg memory st p 3
    else if is_echo_for_router cfg st p
    then echo st p
    else transmit cfg memory st p best_match (find st.arp_table (ip_daddr p))

-- The body of the loop.
unfoldable pub serve : Config → (memory : List ℕ) → State → Turn
serve cfg memory st =
    let p = st.m.payload in
    let idle : Turn = record { state = st; frames = [] } in
    if ether_type p == htons ethertype_arp
    then (if arp_op p == htons 1
        then serve_arp_request cfg memory st
        else if arp_op p == htons 2
        then serve_arp_reply cfg st
        else idle)
    else if ether_type p == htons ethertype_ip
    then serve_ipv4 cfg memory st
    else idle

-- What arrives: the interface, the bytes, and what the memory of a new packet holds then.
pub record Arrival : Type 0 where
  pub interface : ℕ
  pub bytes : List ℕ
  pub memory : List ℕ

-- The loop over the packets that arrive.
unfoldable pub run : Config → State → List Arrival → Turn
run cfg st [] = record { state = st; frames = [] }
run cfg st (a ∷ arrivals) =
    let turn = serve cfg a.memory (receive st a.interface a.bytes) in
    let rest = run cfg turn.state arrivals in
    record { state = rest.state; frames = turn.frames ++ rest.frames }

-- `arpTable` and `q` are empty at first; `m` holds whatever the stack held.
unfoldable pub boot : Packet → State
boot m = record { arp_table = []; q = []; m = m }
