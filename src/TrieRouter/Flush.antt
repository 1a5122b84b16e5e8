-- ===== src/TrieRouter/Flush.antt =====
-- An ARP reply empties the queue: every packet in it is sent once, in the order of arrival.
use pcom.Prelude.{
  ℕ, List, [], ◌∷◌, Option, none, some, ◌==◌, ◌≡◌, refl, ap, sym, ◌∙◌, arith, ltb, not, if_intro,
  take,
}
use pcom.Bytes.{load32, slice, patch}
use pcom.Checksum.{htons}
use pcom.Frames.{send_packet, Packet, Frame, ethertype_arp, ethertype_ip}
use pcom.Router.{
  update_header, inet_aton, clear_check, header_sum, ip_check, ip_ttl, ip_daddr, arp_spa, arp_op,
  ether_type,
}
use pcom.Trie.{TableEntry, get_prefix}
use pcom.TrieRouter.{
  no_arp_entry, is_echo_for_router, ArpEntry, ArpTable, Config, State, Turn, Arrival, find, assign,
  touch, entry_or_new, readdress, flush, serve_arp_reply, serve_arp_request, answer, serve_ipv4,
  transmit, refuse, echo, serve, receive, run, boot,
}
use pcom.TrieRouter.Table.{
  IsWaiting, none_left, one_more, IsWaiting-assign, IsWaiting-push, find-assign,
}

-- The hardware address that the table has for a destination.
abbrev pub mac_of : ArpTable → (ip : ℕ) → List ℕ
mac_of table ip = (entry_or_new (find table ip)).mac

-- A packet as it leaves the queue: by its route, its header updated, and in front of it the hardware
-- address that the table has for its destination.
abbrev pub released : Config → ArpTable → Packet → Frame
released cfg table packet = record {
  interface = (get_prefix cfg.rtable (ip_daddr packet.payload)).interface;
  bytes =
      take packet.len
        (patch (update_header packet.payload) 0 (mac_of table (ip_daddr packet.payload)));
}

abbrev pub released_all : Config → ArpTable → List Packet → List Frame
released_all cfg table [] = []
released_all cfg table (packet ∷ q) = released cfg table packet ∷ released_all cfg table q

flush-IsWaiting :
    (cfg : Config) (table : ArpTable) (q : List Packet)
    → IsWaiting table q
    → flush cfg table q ≡ (table, released_all cfg table q)
unfolding flush touch readdress send_packet
flush-IsWaiting cfg table [] none_left = refl
flush-IsWaiting cfg table (packet ∷ q) (one_more (entry, h) w) =
    rw (h, flush-IsWaiting cfg table q w)
      (ap
        (λ found. (
          table,
          record {
            interface = (get_prefix cfg.rtable (ip_daddr packet.payload)).interface;
            bytes =
                take packet.len (patch (update_header packet.payload) 0 (entry_or_new found).mac);
          }
              ∷ released_all cfg table q,
        ))
        (sym h))

-- Every queued packet's destination has a row.
abbrev pub IsReady : State → Type 0
IsReady st = IsWaiting st.arp_table st.q

data LeavesReady (turn : Turn) : Type 0 where
  leaves_ready : IsReady turn.state → LeavesReady turn

IsReady-left : (turn : Turn) → LeavesReady turn → IsReady turn.state
IsReady-left turn (leaves_ready w) = w

transmit-IsReady :
    (cfg : Config) (memory : List ℕ) (st : State) (p : List ℕ) (best_match : TableEntry)
    (entry : Option ArpEntry)
    → IsReady st
    → LeavesReady (transmit cfg memory st p best_match entry)
unfolding transmit
transmit-IsReady cfg memory st p best_match none w = leaves_ready (
    IsWaiting-push _ (record st.m { payload = p })
      (no_arp_entry, find-assign st.arp_table (ip_daddr p) no_arp_entry (ip_daddr p) ∙ ground arith)
      (IsWaiting-assign st.arp_table (ip_daddr p) no_arp_entry w))
transmit-IsReady cfg memory st p best_match (some entry) w = leaves_ready w

answer-IsReady :
    (memory : List ℕ) (st : State) (entry : Option ArpEntry)
    → IsReady st
    → LeavesReady (answer memory st entry)
unfolding answer
answer-IsReady memory st none w = leaves_ready w
answer-IsReady memory st (some entry) w = leaves_ready w

module _ (cfg : Config) (memory : List ℕ) (st : State) (w : IsReady st) where
  same :
      {m : Packet} {frames : List Frame}
      → LeavesReady (record { state = record st { m = m }; frames = frames })
  same = leaves_ready w

  serve_ipv4-IsReady : LeavesReady (serve_ipv4 cfg memory st)
  unfolding serve_ipv4 refuse echo
  serve_ipv4-IsReady =
      let p = clear_check st.m.payload in
      let best_match = get_prefix cfg.rtable (ip_daddr st.m.payload) in
      if_intro LeavesReady (not (header_sum p == ip_check st.m.payload)) _ _ same (
        if_intro LeavesReady (ltb (ip_ttl p) 1) _ _ same (
          if_intro LeavesReady (ip_ttl p == 1) _ _ same (
            if_intro LeavesReady (best_match.prefix == 0) _ _ same (
              if_intro LeavesReady (is_echo_for_router cfg st p) _ _ same
                (transmit-IsReady cfg memory st p best_match (find st.arp_table (ip_daddr p)) w)))))

  serve_arp_request-IsReady : LeavesReady (serve_arp_request cfg memory st)
  unfolding serve_arp_request
  serve_arp_request-IsReady =
      let arp_tpa = load32 st.m.payload 38 in
      if_intro LeavesReady (inet_aton (cfg.interface_ip st.m.interface) == arp_tpa) _ _ same
        (answer-IsReady memory st (find st.arp_table arp_tpa) w)

  -- A round keeps a row for the destination of every queued packet.
  serve-IsReady : LeavesReady (serve cfg memory st)
  unfolding serve serve_arp_reply
  serve-IsReady =
      let p = st.m.payload in
      if_intro LeavesReady (ether_type p == htons ethertype_arp) _ _
        (if_intro LeavesReady (arp_op p == htons 1) _ _ serve_arp_request-IsReady
          (if_intro LeavesReady (arp_op p == htons 2) _ _ (leaves_ready none_left) same))
        (if_intro LeavesReady (ether_type p == htons ethertype_ip) _ _ serve_ipv4-IsReady same)

pub run-IsReady :
    (cfg : Config) (st : State) (arrivals : List Arrival)
    → IsReady st
    → IsReady (run cfg st arrivals).state
unfolding run receive
run-IsReady cfg st [] w = w
run-IsReady cfg st (a ∷ arrivals) w =
    run-IsReady cfg (serve cfg a.memory (receive st a.interface a.bytes)).state arrivals
      (IsReady-left _ (serve-IsReady cfg a.memory (receive st a.interface a.bytes) w))

-- The table after an ARP reply.
abbrev pub learned : State → ArpTable
learned st =
    assign st.arp_table (arp_spa st.m.payload)
      (record { ip = arp_spa st.m.payload; mac = slice st.m.payload 22 6 })

reply-IsReady :
    (cfg : Config) (memory : List ℕ) (st : State)
    → IsReady st
    → ether_type st.m.payload ≡ htons ethertype_arp
    → arp_op st.m.payload ≡ htons 2
    → serve cfg memory st ≡ record {
      state = record st { arp_table = learned st; q = [] };
      frames = released_all cfg (learned st) st.q;
    }
unfolding serve serve_arp_reply htons
reply-IsReady cfg memory st w e o =
    rw (e, o, flush-IsWaiting cfg (learned st) st.q (IsWaiting-assign st.arp_table _ _ w))

-- What the router holds when, after some arrivals, one more packet comes in.
abbrev pub holding : Config → Packet → List Arrival → (interface : ℕ) (bytes : List ℕ) → State
holding cfg m arrivals interface bytes = receive (run cfg (boot m) arrivals).state interface bytes

-- After any arrivals, an ARP reply is learned, and every packet of the queue, whoever it waits for,
-- is sent once, in the order of the queue, by its route, to the hardware address that the table now
-- has for its destination; the queue is empty then.
pub serve-flush :
    (cfg : Config) (m : Packet) (arrivals : List Arrival) (memory : List ℕ) (interface : ℕ)
    (bytes : List ℕ)
    → ether_type (holding cfg m arrivals interface bytes).m.payload ≡ htons ethertype_arp
    → arp_op (holding cfg m arrivals interface bytes).m.payload ≡ htons 2
    → serve cfg memory (holding cfg m arrivals interface bytes) ≡ record {
      state = record (holding cfg m arrivals interface bytes) {
        arp_table = learned (holding cfg m arrivals interface bytes);
        q = [];
      };
      frames =
          released_all cfg
            (learned (holding cfg m arrivals interface bytes))
            (holding cfg m arrivals interface bytes).q;
    }
unfolding boot receive
serve-flush cfg m arrivals memory interface bytes e o =
    reply-IsReady cfg memory (holding cfg m arrivals interface bytes)
      (run-IsReady cfg (boot m) arrivals none_left) e o
