-- ===== src/Router/Requests.antt =====
-- The ARP frames that the router sends: the request for an unknown machine, and its own replies.
use pcom.Prelude.{
  ℕ, ◌^◌, ◌<◌, List, [], ◌∷◌, ◌++◌, ◌≡◌, refl, ◌∙◌, arith, length, none, false, replicate,
}
use pcom.Bytes.{le16, slice, length-slice}
use pcom.Checksum.{htons}
use pcom.Checksum.Store.{load32-lt}
use pcom.Routes.{Entry, Quad, ip_to_int, htonl, found, get_best_route}
use pcom.Arp.{get_arp_entry}
use pcom.Frames.{Frame, send_arp, ethertype_arp}
use pcom.Frames.Arp.{IsArp, send_arp-IsArp}
use pcom.Router.{
  Config, State, next, owned, ether_type, ip_ttl, ip_daddr, arp_op, arp_spa, inet_aton, clear_check,
  is_echo_for_router, serve_unknown_mac, serve_routed, serve_arp_request, serve,
}
use pcom.Router.Headed.{
  headed, headed', headed'-dhost, headed'-shost, headed'-type, headed-dhost, headed-load32,
  headed-shost, headed-type,
}
use pcom.Router.Header.{IsPayload, clear_check-IsPayload}
use pcom.Router.Ipv4.{IsAccepted, serve_accepted, ip_daddr-clear, is_echo-clear}

-- Four numbers that an address can have.
pub record IsQuad (q : Quad) : Type 0 where
  pub byte3 : q.group3 < 256
  pub byte2 : q.group2 < 256
  pub byte1 : q.group1 < 256
  pub byte0 : q.group0 < 256

-- The interfaces have addresses, and the routes have next hops of 32 bits.
pub record IsConfig (cfg : Config) : Type 0 where
  pub quads : (i : ℕ) → IsQuad (cfg.interface_ip i)
  pub macs : (i : ℕ) → length (cfg.interface_mac i) ≡ 6

-- The two ways in which the router reads an interface's address agree.
pub htonl-ip_to_int : (q : Quad) → IsQuad q → htonl (ip_to_int q) ≡ inet_aton q
unfolding htonl ip_to_int inet_aton
htonl-ip_to_int q h = omega (arith, h)

inet_aton-lt : (q : Quad) → IsQuad q → inet_aton q < 2 ^ 32
unfolding inet_aton
inet_aton-lt q h = omega (arith, h)

htons-lt : (x : ℕ) → x < 2 ^ 16 → htons x < 2 ^ 16
unfolding htons
htons-lt x h = omega arith

htons_arp : le16 1544 ≡ le16 (htons ethertype_arp)
unfolding htons
htons_arp = refl

-- On interfaces with proper addresses: for an IPv4 packet with a right header checksum and a time to
-- live above 1, no echo request to the router, whose destination has a route but no known hardware
-- address, the router queues the packet as it came, its header checksum cleared, and sends one frame:
-- by the route's interface, an ARP request from that interface's addresses to everyone, for the
-- address of the next hop, which is one of 32 bits.
pub serve-unknown_mac :
    (cfg : Config) (st : State)
    → IsConfig cfg
    → IsAccepted st.m.payload
    → 1 < ip_ttl st.m.payload
    → {i : ℕ} {route : Entry} → get_best_route cfg.rtable (ip_daddr st.m.payload) ≡ found i route
    → route.next_hop < 2 ^ 32
    → is_echo_for_router cfg st st.m.payload ≡ false
    → get_arp_entry st.arp_table (ip_daddr st.m.payload) ≡ none
    → (p : List ℕ) × (request : Frame) × (serve cfg st
        ≡ next
            (record st {
              q = st.q ++ (owned (record st.m { payload = clear_check st.m.payload }) ∷ []);
              m = record st.m { payload = p };
            })
            (request ∷ []))
      × IsArp route.next_hop
          (inet_aton (cfg.interface_ip route.interface))
          (cfg.interface_mac route.interface)
          (replicate 6 0xff)
          (htons 1)
          route.interface
          request
serve-unknown_mac cfg st c a t {i} {route} r hop echo none_known =
    let sha = cfg.interface_mac route.interface in
    let dha : List ℕ = replicate 6 0xff in
    let q = clear_check st.m.payload in
    let v = clear_check-IsPayload st.m.payload a.payload in
    let six = c.macs route.interface in
    let own = inet_aton (cfg.interface_ip route.interface) in
    (
      headed' q sha dha 1544,
      send_arp route.next_hop own (slice (headed' q sha dha 1544) 0 14) route.interface (htons 1),
      serve_accepted cfg st a t r ∙ turn,
      send_arp-IsArp route.next_hop own sha dha (headed' q sha dha 1544) route.interface (htons 1)
          hop (inet_aton-lt _ (c.quads route.interface)) (htons-lt 1 (omega arith)) six refl
          (headed'-dhost q sha dha v.holds six refl 1544)
          (headed'-shost q sha dha v.holds six refl 1544)
          (headed'-type q sha dha v.holds six refl 1544 ∙ htons_arp),
    )
  where
    turn : serve_routed cfg st (clear_check st.m.payload) route ≡ (
        let p =
          headed'
            (clear_check st.m.payload)
            (cfg.interface_mac route.interface)
            (replicate 6 0xff)
            1544 in
        next
          (record st {
            q = st.q ++ (owned (record st.m { payload = clear_check st.m.payload }) ∷ []);
            m = record st.m { payload = p };
          })
          (send_arp route.next_hop
              (inet_aton (cfg.interface_ip route.interface))
              (slice p 0 14)
              route.interface
              (htons 1)
            ∷ []))
    turn =
        unfold serve_routed serve_unknown_mac in
        (rw (is_echo-clear cfg st st.m.payload, echo, ip_daddr-clear st.m.payload, none_known))

serve-request_turn :
    (cfg : Config) (st : State)
    → IsConfig cfg
    → IsPayload st.m.payload
    → ether_type st.m.payload ≡ htons ethertype_arp
    → arp_op st.m.payload ≡ htons 1
    → serve cfg st ≡ (
        let p = st.m.payload in
        let p3 = headed p (cfg.interface_mac st.m.interface) (slice p 6 6) (htons ethertype_arp) in
        next
          (record st { m = record st.m { payload = p3 } })
          (send_arp
              (arp_spa p)
              (inet_aton (cfg.interface_ip st.m.interface))
              (slice p3 0 14)
              st.m.interface
              (htons 2)
            ∷ []))
unfolding serve serve_arp_request htons
serve-request_turn cfg st c v e o =
    let p = st.m.payload in
    let ld = length-slice p 6 6 (omega (arith, v.holds)) in
    rw
      (
        e,
        o,
        headed-load32 p (cfg.interface_mac st.m.interface) (slice p 6 6) v.holds
            (c.macs st.m.interface) ld (htons ethertype_arp) 28 (omega arith),
        htonl-ip_to_int _ (c.quads st.m.interface),
      )
      refl

-- On interfaces with proper addresses, an ARP request is answered by one ARP reply, sent back by the
-- interface it came in by: from that interface's addresses to the sender's. Only the packet's own
-- Ethernet header changes.
pub serve_arp_request_lem :
    (cfg : Config) (st : State)
    → IsConfig cfg
    → IsPayload st.m.payload
    → ether_type st.m.payload ≡ htons ethertype_arp
    → arp_op st.m.payload ≡ htons 1
    → (p : List ℕ) × (reply : Frame) × (serve cfg st
        ≡ next (record st { m = record st.m { payload = p } }) (reply ∷ []))
      × IsArp
          (arp_spa st.m.payload)
          (inet_aton (cfg.interface_ip st.m.interface))
          (cfg.interface_mac st.m.interface)
          (slice st.m.payload 6 6)
          (htons 2)
          st.m.interface
          reply
serve_arp_request_lem cfg st c v e o =
    let p = st.m.payload in
    let sha = cfg.interface_mac st.m.interface in
    let dha = slice p 6 6 in
    let six = c.macs st.m.interface in
    let ld = length-slice p 6 6 (omega (arith, v.holds)) in
    let type = htons ethertype_arp in
    let own = inet_aton (cfg.interface_ip st.m.interface) in
    (
      headed p sha dha type,
      send_arp (arp_spa p) own (slice (headed p sha dha type) 0 14) st.m.interface (htons 2),
      serve-request_turn cfg st c v e o,
      send_arp-IsArp (arp_spa p) own sha dha (headed p sha dha type) st.m.interface (htons 2)
          (load32-lt p 28 v.bytes) (inet_aton-lt _ (c.quads st.m.interface))
          (htons-lt 2 (omega arith)) six ld (headed-dhost p sha dha v.holds six ld type)
          (headed-shost p sha dha v.holds six ld type) (headed-type p sha dha v.holds six ld type),
    )
