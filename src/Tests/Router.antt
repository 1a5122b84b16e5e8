-- ===== src/Tests/Router.antt =====
-- The router's theorems at concrete packets: an interface 1 with the network 192.168.1.0/24.
use pcom.Prelude.{
  ℕ, ◌+◌, List, [], ◌∷◌, ◌≡◌, ◌≢◌, inr, refl, arith, none, some, true, false, length, replicate,
  take,
}
use pcom.Bytes.{patch, slice}
use pcom.Checksum.{htons}
use pcom.Routes.{Entry, Quad, found, missing, get_best_route}
use pcom.Arp.{ArpEntry, get_arp_entry, add_arp_entry}
use pcom.Frames.{Packet, Frame, ethertype_arp}
use pcom.Frames.Arp.{IsArp}
use pcom.Router.{
  Config, State, owned, dangling, next, undefined, ether_type, arp_op, arp_spa, ip_daddr, inet_aton,
  clear_check, put_back, is_echo_for_router, boot, receive, serve, run,
}
use pcom.Router.Header.{IsPayload}
use pcom.Router.Forward.{IsForwarded, serve-forward}
use pcom.Router.Requests.{IsConfig, serve-unknown_mac}
use pcom.Router.Release.{all_owned, IsRouted, done, stays, serve-arp_reply_dangling}
use pcom.Router.Safety.{
  IsNoReply, IsSound, Continues, serve-Continues, serve-second_reply, serve-reply_continues,
}
use pcom.Tests.Packets.{
  own_mac, next_mac, quad, good, lost, echo, arp_ask, arp_answer, arp_stranger, packet,
  good-IsAccepted,
}
use pcom.Router.Reply.{Sorts, serve-release}
use pcom.Router.Run.{one_more, no_more, IsNoReply-receive, run-IsSound, boot-IsSound}

abbrev row_one : Entry
row_one = record { prefix = 108736; next_hop = 33663168; mask = 16777215; interface = 1 }

abbrev cfg : Config
cfg = record {
  rtable = row_one ∷ [];
  interface_ip = λ i. quad;
  interface_mac = λ i. own_mac;
  pid = 7;
}

abbrev start : List ℕ → State
start = λ p. record { arp_table = []; q = []; m = packet p }

abbrev knows : List ℕ → State
knows =
    λ p. record { arp_table = record { ip = 33663168; mac = next_mac } ∷ []; q = []; m = packet p }

abbrev echo_row : Entry
echo_row = record { prefix = 10; next_hop = 150994954; mask = 255; interface = 0 }

abbrev echo_cfg : Config
echo_cfg = record cfg { rtable = echo_row ∷ [] }

cfg-IsConfig : IsConfig cfg
cfg-IsConfig = record {
  quads = λ i. record {
    byte3 = omega arith;
    byte2 = omega arith;
    byte1 = omega arith;
    byte0 = omega arith;
  };
  macs = λ i. refl;
}

good_route : get_best_route cfg.rtable (ip_daddr good) ≡ found 0 row_one
unfolding get_best_route pcom.Routes.search_route pcom.Routes.probe
good_route = refl

good_not_echo : is_echo_for_router cfg (start good) good ≡ false
unfolding is_echo_for_router
good_not_echo = refl

lost_route : get_best_route cfg.rtable (ip_daddr lost) ≡ missing
unfolding get_best_route pcom.Routes.search_route pcom.Routes.probe
lost_route = refl

echo_route : get_best_route echo_cfg.rtable (ip_daddr echo) ≡ found 0 echo_row
unfolding get_best_route pcom.Routes.search_route pcom.Routes.probe
echo_route = refl

echo_is_echo : is_echo_for_router echo_cfg (start echo) echo ≡ true
unfolding is_echo_for_router inet_aton
echo_is_echo = refl

known :
    get_arp_entry (knows good).arp_table (ip_daddr good)
    ≡ some (record { ip = 33663168; mac = next_mac })
unfolding get_arp_entry
known = refl

serve-forward_example :
    (p : List ℕ) × (serve cfg (knows good)
      ≡ next
          (record (knows good) { m = record (packet good) { payload = p } })
          (record { interface = 1; bytes = take 42 p } ∷ []))
    × IsForwarded good next_mac p
unfolding is_echo_for_router
serve-forward_example =
    serve-forward cfg (knows good) good-IsAccepted (omega arith) good_route good_not_echo known refl

unknown : get_arp_entry (start good).arp_table (ip_daddr good) ≡ none
unfolding get_arp_entry
unknown = refl

serve-unknown_mac_example :
    (p : List ℕ) × (request : Frame) × (serve cfg (start good)
      ≡ next
          (record (start good) {
            q = owned (record (packet good) { payload = clear_check good }) ∷ [];
            m = record (packet good) { payload = p };
          })
          (request ∷ []))
    × IsArp 33663168 (inet_aton quad) own_mac (replicate 6 0xff) (htons 1) 1 request
serve-unknown_mac_example =
    serve-unknown_mac cfg (start good) cfg-IsConfig good-IsAccepted (omega arith) good_route
      (omega arith) good_not_echo unknown

ask_type : ether_type arp_ask ≡ htons ethertype_arp
unfolding htons
ask_type = refl

ask_op : arp_op arp_ask ≡ htons 1
unfolding htons
ask_op = refl

ask-IsPayload : IsPayload arp_ask
ask-IsPayload = record { holds = omega arith; bytes = omega arith }

-- A queue with one packet, at an answer from its next hop and at one from a stranger.
abbrev waits : List ℕ → State
waits p = record { arp_table = []; q = owned (packet good) ∷ []; m = packet p }

good-IsRouted : IsRouted cfg (packet good)
good-IsRouted = record { index = 0; entry = row_one; is_route = good_route }

waits-IsSound : (p : List ℕ) → IsSound cfg (waits p)
unfolding all_owned
waits-IsSound p = record { waiting = packet good ∷ []; owns = refl; routed = (good-IsRouted, tt) }

is_reply : (ether_type arp_answer ≡ htons ethertype_arp) × (arp_op arp_answer ≢ htons 1)
unfolding htons
is_reply = (refl, omega arith)

is_stranger : (ether_type arp_stranger ≡ htons ethertype_arp) × (arp_op arp_stranger ≢ htons 1)
unfolding htons
is_stranger = (refl, omega arith)

added :
    (p : List ℕ)
    → add_arp_entry [] (record { ip = arp_spa p; mac = slice p 22 6 })
      ≡ some (record { ip = arp_spa p; mac = slice p 22 6 } ∷ [])
unfolding add_arp_entry
added p = refl

answer-IsPayload : IsPayload arp_answer
answer-IsPayload = record { holds = omega arith; bytes = omega arith }

serve-release_example :
    (kept : List Packet) × (frames : List Frame) × (serve cfg (waits arp_answer)
      ≡ next
          (record (waits arp_answer) {
            arp_table = record { ip = arp_spa arp_answer; mac = slice arp_answer 22 6 } ∷ [];
            q = replicate (length kept) dangling;
          })
          frames)
    × Sorts cfg (arp_spa arp_answer) (slice arp_answer 22 6) (packet good ∷ []) kept frames
unfolding good-IsRouted waits-IsSound
serve-release_example =
    serve-release cfg (waits arp_answer) (λ i. refl) answer-IsPayload is_reply.0 is_reply.1
      (added arp_answer) (waits-IsSound arp_answer).owns (good-IsRouted, tt)
      (good-IsAccepted.payload, tt)

serve-arp_reply_dangling_example :
    serve cfg (record (start arp_answer) { q = owned (packet good) ∷ (dangling ∷ []) }) ≡ undefined
serve-arp_reply_dangling_example =
    serve-arp_reply_dangling cfg
      (record (start arp_answer) { q = owned (packet good) ∷ (dangling ∷ []) }) is_reply.0
      is_reply.1 (owned (packet good) ∷ []) [] refl

patched_type : ether_type (patch arp_stranger 0 arp_answer) ≡ htons ethertype_arp
unfolding patch htons
patched_type = refl

patched_op : arp_op (patch arp_stranger 0 arp_answer) ≢ htons 1
unfolding patch htons
patched_op = omega arith

serve-second_reply_example :
    (after : State) × (serve cfg (waits arp_stranger) ≡ next after [])
    × (serve cfg (receive after 1 arp_answer) ≡ undefined)
unfolding good-IsRouted waits-IsSound
serve-second_reply_example =
    serve-second_reply cfg (waits arp_stranger) (packet good) is_stranger.0 is_stranger.1
      (added arp_stranger) (waits-IsSound arp_stranger).owns
      (stays good-IsRouted (omega arith) done) 1 arp_answer patched_type patched_op

serve-reply_continues_example :
    (table : List ArpEntry) × (kept : List Packet) × (frames : List Frame) × (serve cfg
        (waits arp_answer)
      ≡ next (record (waits arp_answer) { arp_table = table; q = put_back kept }) frames)
    × (length kept + length frames ≡ length (waits arp_answer).q)
serve-reply_continues_example =
    serve-reply_continues cfg (waits arp_answer) (waits-IsSound arp_answer) (omega arith) is_reply.0
      is_reply.1

serve-Continues_example : Continues cfg (waits arp_ask)
serve-Continues_example = serve-Continues cfg (waits arp_ask) (waits-IsSound arp_ask) (inr ask_op)

asks : IsNoReply cfg (receive (boot (packet good)) 0 arp_ask)
unfolding receive boot htons patch
asks = inr refl

run-IsSound_example :
    (st' : State) × (frames : List Frame) × (run cfg
        (boot (packet good))
        ((0, arp_ask) ∷ (0, good) ∷ [])
      ≡ next st' frames)
    × IsSound cfg st'
run-IsSound_example =
    run-IsSound cfg (boot (packet good)) ((0, arp_ask) ∷ (0, good) ∷ [])
      (boot-IsSound cfg (packet good))
      (one_more asks λ st frames e.
        one_more (IsNoReply-receive cfg st 0 good (omega arith) (omega arith) refl)
          λ st' frames' e'. no_more)
