-- ===== src/Ping.antt =====
-- The tools of Lab05/icmp.c: `ping` and `traceroute`, and the wait for an answer of Lab05/utils.c.
pub mod Trace
use pcom.Prelude.{
  ℤ, pos, negsuc, ◌+ℤ◌, ℕ, zero, suc, ◌+◌, ◌%◌, ◌^◌, List, [], ◌∷◌, ◌++◌, Option, none, some, Bool,
  true, false, ◌==◌, ◌&&◌, if◌then◌else◌, replicate,
}
use pcom.Bytes.{load8, le16, le32, patch, slice}
use pcom.Checksum.{htons}
use pcom.Frames.{ethertype_ip}
use pcom.Router.{ether_type, ip_protocol, ip_saddr, icmp_type, header_sum, clear_check}
use pcom.Scan.{same_text}
use pcom.TrieFrames.{icmp_header_sum}

-- What the system says of the interface, the gateway and the process.
pub record Host : Type 0 where
  pub mac : List ℕ
  pub ip : ℕ
  pub gateway_mac : List ℕ
  pub pid : ℕ

-- `init_packet` and `init_eth_hdr`
unfoldable pub new_packet : Host → List ℕ
new_packet host =
    let p1 = patch (replicate 1500 0) 0 host.gateway_mac in
    let p2 = patch p1 6 host.mac in patch p2 12 (le16 (htons ethertype_ip))

-- The IP header and its checksum, without options and with a message of 8 bytes. The payload stands
-- at the start of an aligned packet.
unfoldable pub fill_ip : Host → (daddr ttl : ℕ) → List ℕ → List ℕ
fill_ip host daddr ttl p =
    let p1 = patch p 14 (0x45 ∷ []) in
    let p2 = patch p1 22 (ttl % 256 ∷ []) in
    let p3 = patch p2 18 (le16 (htons (host.pid % 2 ^ 16))) in
    let p4 = patch p3 15 (0 ∷ []) in
    let p5 = patch p4 16 (le16 (htons 28)) in
    let p6 = patch p5 20 (le16 0) in
    let p7 = patch p6 23 (1 ∷ []) in
    let p8 = patch p7 26 (le32 host.ip) in
    let p9 = patch p8 30 (le32 daddr) in
    let p10 = clear_check p9 in patch p10 24 (le16 (header_sum p10))

-- The ICMP header and its checksum.
unfoldable pub fill_icmp : Host → List ℕ → List ℕ
fill_icmp host p =
    let p1 = patch p 35 (0 ∷ []) in
    let p2 = patch p1 38 (le16 (htons (host.pid % 2 ^ 16))) in
    let p3 = patch p2 40 (le16 0) in
    let p4 = patch p3 34 (8 ∷ []) in
    let p5 = patch p4 36 (le16 0) in patch p5 36 (le16 (icmp_header_sum p5))

unfoldable pub echo_request : Host → (daddr ttl : ℕ) → List ℕ → List ℕ
echo_request host daddr ttl p = fill_icmp host (fill_ip host daddr ttl p)

-- `relevant_packet`
unfoldable pub relevant_packet : Host → List ℕ → Bool
relevant_packet host reply =
    same_text host.mac (slice reply 0 6)
    && ((ether_type reply == htons ethertype_ip) && (ip_protocol reply == 1))

-- The loop of `time_packet` over the frames that arrive: the reply and the frames behind it, or an
-- endless wait.
unfoldable pub time_packet :
    Host → (reply : List ℕ) → (frames : List (List ℕ)) → Option (List ℕ × List (List ℕ))
time_packet host reply [] = none
time_packet host reply (frame ∷ frames) =
    let received = patch reply 0 frame in
    let rest = time_packet host received frames in
    if relevant_packet host received then some (received, frames) else rest

-- What a tool has sent and shown, and whether it came to its end.
pub record Outcome : Type 0 where
  pub sent : List (List ℕ)
  pub shown : List (ℤ × ℕ)
  pub ended : Bool

abbrev pub sent_and_shown : List ℕ → (ℤ × ℕ) → Outcome → Outcome
sent_and_shown packet line rest = record {
  sent = packet ∷ rest.sent;
  shown = line ∷ rest.shown;
  ended = rest.ended;
}

-- A packet that is not answered.
abbrev pub unanswered : List ℕ → Outcome
unanswered packet = record { sent = packet ∷ []; shown = []; ended = false }

-- The rest of a round of `ping`, behind `time_packet`.
unfoldable pub ping_on :
    (packet : List ℕ) (rest : List ℕ → List (List ℕ) → Outcome)
    → Option (List ℕ × List (List ℕ))
    → Outcome
ping_on packet rest none = unanswered packet
ping_on packet rest (some (reply, frames)) =
    sent_and_shown packet (pos (load8 reply 22), ip_saddr reply) (rest reply frames)

-- The loop of `ping` with `count` rounds left: the lines show the time to live and the address.
-- The buffer of the reply is declared in the loop, and is taken to keep its bytes.
unfoldable pub ping :
    Host → (daddr count : ℕ) → (packet reply : List ℕ) → (frames : List (List ℕ)) → Outcome
ping host daddr zero packet reply frames = record { sent = []; shown = []; ended = true }
ping host daddr (suc count) packet reply frames =
    let request = echo_request host daddr 64 packet in
    ping_on request (ping host daddr count request) (time_packet host reply frames)

-- `currentTTL - 1` of the time to live after its increment, an `int`.
unfoldable pub hop_of : ℕ → ℤ
hop_of ttl = pos ((ttl + 1) % 256) +ℤ negsuc 0

-- The rest of a round of `traceroute`: the line of the hop, and the test of the loop.
unfoldable pub trace_on :
    (packet : List ℕ) (ttl : ℕ) (rest : List ℕ → List (List ℕ) → Outcome)
    → Option (List ℕ × List (List ℕ))
    → Outcome
trace_on packet ttl rest none = unanswered packet
trace_on packet ttl rest (some (reply, frames)) =
    let further = rest reply frames in
    sent_and_shown packet (hop_of ttl, ip_saddr reply)
      (if icmp_type reply == 11 then further else record { sent = []; shown = []; ended = true })

-- The loop of `traceroute`, on a `uint8_t` time to live, for at most `rounds` rounds.
unfoldable pub traceroute :
    (rounds : ℕ)
    → Host
    → (daddr ttl : ℕ) → (packet reply : List ℕ) → (frames : List (List ℕ)) → Outcome
traceroute zero host daddr ttl packet reply frames = record { sent = []; shown = []; ended = false }
traceroute (suc rounds) host daddr ttl packet reply frames =
    let request = echo_request host daddr ttl packet in
    trace_on request ttl (traceroute rounds host daddr ((ttl + 1) % 256) request)
      (time_packet host reply frames)
