-- ===== src/TrieFrames.antt =====
-- The frames that the other router, "pc pirvu/router.cpp", builds: `sendARPReply`,
-- `sendARPRequest`, `sendICMPReply` and `sendICMPscratch`. A new packet holds whatever its memory
-- held, which is the parameter `memory`.
use pcom.Prelude.{ℕ, List, [], ◌∷◌, ◌%◌, ◌^◌, replicate}
use pcom.Bytes.{le16, le32, patch, slice}
use pcom.Checksum.{htons, ip_checksum}
use pcom.Frames.{Packet, Frame, send_packet, ethertype_arp, ethertype_ip}
use pcom.Router.{header_sum, clear_check, inet_aton}
use pcom.Routes.{Quad}
use pcom.Trie.{TableEntry}

-- `sendARPReply`: the request's frame, its addresses turned round.
unfoldable pub arp_reply_payload : (memory request new_mac : List ℕ) → List ℕ
arp_reply_payload memory request new_mac =
    let p1 = patch memory 0 (slice request 6 6) in
    let p2 = patch p1 6 new_mac in
    let p3 = patch p2 12 (slice request 12 2) in
    let p4 = patch p3 14 (slice request 14 28) in
    let p5 = patch p4 20 (le16 (htons 2)) in
    let p6 = patch p5 38 (slice request 28 4) in
    let p7 = patch p6 32 (slice request 22 6) in
    let p8 = patch p7 28 (slice request 38 4) in patch p8 22 new_mac

unfoldable pub send_arp_reply : (memory : List ℕ) → Packet → (new_mac : List ℕ) → Frame
send_arp_reply memory arp_request new_mac = send_packet arp_request.interface (record {
  len = arp_request.len;
  payload = arp_reply_payload memory arp_request.payload new_mac;
  interface = arp_request.interface;
})

-- `sendARPRequest`, where `mac` and `ip` are those of the interface `entry.interface`.
unfoldable pub arp_request_payload : (memory mac : List ℕ) (ip : ℕ) (daddr : List ℕ) → List ℕ
arp_request_payload memory mac ip daddr =
    let p1 = patch memory 12 (le16 (htons ethertype_arp)) in
    let p2 = patch p1 0 (replicate 6 0xff) in
    let p3 = patch p2 6 mac in
    let p4 = patch p3 14 (le16 (htons 1)) in
    let p5 = patch p4 16 (le16 (htons 0x0800)) in
    let p6 = patch p5 19 (4 ∷ []) in
    let p7 = patch p6 18 (6 ∷ []) in
    let p8 = patch p7 20 (le16 (htons 1)) in
    let p9 = patch p8 28 (le32 ip) in
    let p10 = patch p9 22 mac in let p11 = patch p10 38 daddr in patch p11 32 (replicate 6 0)

unfoldable pub send_arp_request :
    (memory : List ℕ) (interface_mac : ℕ → List ℕ) (interface_ip : ℕ → Quad)
    → TableEntry
    → (daddr : List ℕ) → Frame
send_arp_request memory interface_mac interface_ip entry daddr =
    send_packet entry.interface (record {
      len = 42;
      payload =
          arp_request_payload memory (interface_mac entry.interface)
            (inet_aton (interface_ip entry.interface)) daddr;
      interface = entry.interface;
    })

-- `ip_checksum(icmp_hdr, sizeof(icmphdr))`: the ICMP header stands 38 bytes behind the start of an
-- aligned packet.
unfoldable pub icmp_header_sum : List ℕ → ℕ
icmp_header_sum p = ip_checksum 2 (slice p 34 8)

-- `check = 0; check = ip_checksum(…); checksum = 0; checksum = ip_checksum(…);`
unfoldable pub fill_sums : List ℕ → List ℕ
fill_sums p =
    let p1 = clear_check p in
    let p2 = patch p1 24 (le16 (header_sum p1)) in
    let p3 = patch p2 36 (le16 0) in patch p3 36 (le16 (icmp_header_sum p3))

-- `sendICMPReply`: the packet itself, turned into a reply in place.
unfoldable pub icmp_reply_payload : List ℕ → List ℕ
icmp_reply_payload p =
    let p1 = patch p 34 (0 ∷ []) in
    let p2 = patch p1 35 (0 ∷ []) in
    let p3 = patch p2 30 (slice p2 26 4) in
    let p4 = patch p3 26 (slice p2 30 4) in let p5 = patch p4 22 (64 ∷ []) in fill_sums p5

-- `sendICMPscratch`: a new message of 42 bytes.
unfoldable pub icmp_scratch_payload : (memory m : List ℕ) (type code pid : ℕ) → List ℕ
icmp_scratch_payload memory m type code pid =
    let p1 = patch memory 12 (le16 (htons ethertype_ip)) in
    let p2 = patch p1 0 (slice m 6 6) in
    let p3 = patch p2 6 (slice m 0 6) in
    let p4 = patch p3 14 (0x45 ∷ 0 ∷ le16 (htons 28)) in
    let p5 = patch p4 18 (le16 (htons (pid % 2 ^ 16))) in
    let p6 = patch p5 20 (le16 0) in
    let p7 = patch p6 22 (64 ∷ 1 ∷ []) in
    let p8 = patch p7 26 (slice m 30 4) in
    let p9 = patch p8 30 (slice m 26 4) in
    let p10 = clear_check p9 in
    let p11 = patch p10 24 (le16 (header_sum p10)) in
    let p12 = patch p11 35 (code % 256 ∷ []) in
    let p13 = patch p12 34 (type % 256 ∷ []) in
    let p14 = patch p13 38 (le16 (htons (pid % 2 ^ 16))) in
    let p15 = patch p14 40 (le16 0) in
    let p16 = patch p15 36 (le16 0) in patch p16 36 (le16 (icmp_header_sum p16))

unfoldable pub send_icmp_scratch : (memory : List ℕ) → Packet → (type code pid : ℕ) → Frame
send_icmp_scratch memory m type code pid = send_packet m.interface (record {
  len = 42;
  payload = icmp_scratch_payload memory m.payload type code pid;
  interface = m.interface;
})
