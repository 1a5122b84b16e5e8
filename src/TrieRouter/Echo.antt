-- ===== src/TrieRouter/Echo.antt =====
-- The answer to an echo request: what `sendICMPReply` makes of the packet.
use pcom.Prelude.{
  ℕ, if◌then◌else◌, ◌+◌, ◌≤◌, ◌<◌, List, [], ◌∷◌, ◌≡◌, ap, ◌⊎◌, inl, inr, ◌∙◌, arith, length, true,
  take, ◌≢◌,
}
use pcom.Bytes.{
  le16, patch, slice, length-patch, slice-patch_outside, slice-patch_self, length-slice,
}
use pcom.Checksum.{ip_checksum}
use pcom.Checksum.Store.{AllBytes-slice}
use pcom.Frames.{send_packet}
use pcom.Router.{ip_ttl, ip_daddr, header_sum, clear_check}
use pcom.Router.Header.{
  IsPayload, IsPayload-patch, clear_check-IsPayload, header_sum-clear_check, length-clear_check,
}
use pcom.Router.Ipv4.{IsAccepted}
use pcom.Trie.{get_prefix}
use pcom.TrieFrames.{icmp_header_sum, fill_sums, icmp_reply_payload}
use pcom.TrieRouter.{Config, State, find, transmit, echo, is_echo_for_router, serve}
use pcom.TrieRouter.Ipv4.{serve-routed}

-- A part of the packet that lies beside the patched one, in a packet that holds the headers.
beside :
    (p : List ℕ) (at n to : ℕ) (bs : List ℕ)
    → 42 ≤ length p
    → at + n ≤ 42
    → (at + n ≤ to) ⊎ (to + length bs ≤ at)
    → slice (patch p to bs) at n ≡ slice p at n
beside p at n to bs h l o = slice-patch_outside p at n to bs (omega arith) o

fill_sums_outside :
    (p : List ℕ) (at n : ℕ)
    → IsPayload p
    → at + n ≤ 42
    → (at + n ≤ 24) ⊎ ((26 ≤ at) × (at + n ≤ 36))
    → slice (fill_sums p) at n ≡ slice p at n
unfolding fill_sums
fill_sums_outside p at n v l o =
    let p1 = clear_check p in
    let p2 = patch p1 24 (le16 (header_sum p1)) in
    let p3 = patch p2 36 (le16 0) in
    let l1 = length-clear_check p in
    let l2 = length-patch p1 24 (le16 (header_sum p1)) in
    let l3 = length-patch p2 36 (le16 0) in
    let h = v.holds in
    beside p3 at n 36 (le16 (icmp_header_sum p3)) (omega arith) l (inl (omega arith))
    ∙ beside p2 at n 36 (le16 0) (omega arith) l (inl (omega arith))
    ∙ beside p1 at n 24 (le16 (header_sum p1)) (omega arith) l (omega arith)
    ∙ (unfold clear_check in beside p at n 24 (le16 0) h l (omega arith))

-- The sums are written behind the IP header's other fields, so that it verifies.
fill_sums-verifies : (p : List ℕ) → IsPayload p → header_sum (fill_sums p) ≡ 0
unfolding fill_sums header_sum
fill_sums-verifies p v =
    let p1 = clear_check p in
    let p2 = patch p1 24 (le16 (header_sum p1)) in
    let p3 = patch p2 36 (le16 0) in
    let l1 = length-clear_check p in
    let l2 = length-patch p1 24 (le16 (header_sum p1)) in
    let l3 = length-patch p2 36 (le16 0) in
    let h = v.holds in
    ap (ip_checksum 2) (
      beside p3 14 20 36 (le16 (icmp_header_sum p3)) (omega arith) (omega arith) (inl (omega arith))
      ∙ beside p2 14 20 36 (le16 0) (omega arith) (omega arith) (inl (omega arith)))
    ∙ header_sum-clear_check p v

-- What `sendICMPReply` makes of a packet: an echo reply to the sender, in a frame whose Ethernet
-- header is still that of the request.
pub record IsEchoed (request reply : List ℕ) : Type 0 where
  pub ether : slice reply 0 14 ≡ slice request 0 14
  pub source : slice reply 26 4 ≡ slice request 30 4
  pub destination : slice reply 30 4 ≡ slice request 26 4
  pub ttl : slice reply 22 1 ≡ 64 ∷ []
  pub type_and_code : slice reply 34 2 ≡ 0 ∷ 0 ∷ []
  pub verifies : header_sum reply ≡ 0

module _ (p : List ℕ) (v : IsPayload p) where
  abbrev p1 : List ℕ
  p1 = patch p 34 (0 ∷ [])

  abbrev p2 : List ℕ
  p2 = patch p1 35 (0 ∷ [])

  abbrev saddr : List ℕ
  saddr = slice p2 26 4

  abbrev daddr : List ℕ
  daddr = slice p2 30 4

  abbrev p3 : List ℕ
  p3 = patch p2 30 saddr

  abbrev p4 : List ℕ
  p4 = patch p3 26 daddr

  abbrev p5 : List ℕ
  p5 = patch p4 22 (64 ∷ [])

  v2 : IsPayload p2
  v2 = IsPayload-patch p1 35 (0 ∷ []) (omega arith) (IsPayload-patch p 34 (0 ∷ []) (omega arith) v)

  four_saddr : length saddr ≡ 4
  four_saddr = length-slice p2 26 4 (omega (arith, v2.holds))

  four_daddr : length daddr ≡ 4
  four_daddr = length-slice p2 30 4 (omega (arith, v2.holds))

  v3 : IsPayload p3
  v3 = IsPayload-patch p2 30 saddr (AllBytes-slice p2 26 4 v2.bytes) v2

  v4 : IsPayload p4
  v4 = IsPayload-patch p3 26 daddr (AllBytes-slice p2 30 4 v2.bytes) v3

  v5 : IsPayload p5
  v5 = IsPayload-patch p4 22 (64 ∷ []) (omega arith) v4

  -- A part in front of the ICMP header is at first the request's.
  early : (at n : ℕ) → at + n ≤ 34 → slice p2 at n ≡ slice p at n
  early at n l =
      beside p1 at n 35 (0 ∷ []) (omega (arith, v.holds, length-patch p 34 (0 ∷ []))) (omega arith)
        (inl (omega arith))
      ∙ beside p at n 34 (0 ∷ []) v.holds (omega arith) (inl l)

  reply_payload-IsEchoed : IsEchoed p (icmp_reply_payload p)
  unfolding icmp_reply_payload
  reply_payload-IsEchoed = record {
    ether =
        fill_sums_outside p5 0 14 v5 (omega arith) (inl (omega arith))
        ∙ beside p4 0 14 22 (64 ∷ []) v4.holds (omega arith) (inl (omega arith))
        ∙ beside p3 0 14 26 daddr v3.holds (omega arith) (inl (omega arith))
        ∙ beside p2 0 14 30 saddr v2.holds (omega arith) (inl (omega arith))
        ∙ early 0 14 (omega arith);
    source =
        fill_sums_outside p5 26 4 v5 (omega arith) (inr (omega arith, omega arith))
        ∙ beside p4 26 4 22 (64 ∷ []) v4.holds (omega arith) (inr (omega arith))
        ∙ (rw four_daddr at (slice-patch_self p3 26 daddr (omega (arith, v3.holds, four_daddr))))
        ∙ early 30 4 (omega arith);
    destination =
        fill_sums_outside p5 30 4 v5 (omega arith) (inr (omega arith, omega arith))
        ∙ beside p4 30 4 22 (64 ∷ []) v4.holds (omega arith) (inr (omega arith))
        ∙ beside p3 30 4 26 daddr v3.holds (omega arith) (inr (omega (arith, four_daddr)))
        ∙ (rw four_saddr at (slice-patch_self p2 30 saddr (omega (arith, v2.holds, four_saddr))))
        ∙ early 26 4 (omega arith);
    ttl =
        fill_sums_outside p5 22 1 v5 (omega arith) (inl (omega arith))
        ∙ slice-patch_self p4 22 (64 ∷ []) (omega (arith, v4.holds));
    type_and_code =
        fill_sums_outside p5 34 2 v5 (omega arith) (inr (omega arith, omega arith))
        ∙ beside p4 34 2 22 (64 ∷ []) v4.holds (omega arith) (inr (omega arith))
        ∙ beside p3 34 2 26 daddr v3.holds (omega arith) (inr (omega (arith, four_daddr)))
        ∙ beside p2 34 2 30 saddr v2.holds (omega arith) (inr (omega (arith, four_saddr)))
        ∙ (unfold patch in slice-patch_self p 34 (0 ∷ 0 ∷ []) (omega (arith, v.holds)));
    verifies = fill_sums-verifies p5 v5;
  }

-- The same against the packet as it came, whose `check` had been cleared.
IsEchoed-clear :
    (p reply : List ℕ) → IsPayload p → IsEchoed (clear_check p) reply → IsEchoed p reply
IsEchoed-clear p reply v e = record {
  ether = e.ether ∙ apart 0 14 (inl (omega arith)) (omega arith);
  source = e.source ∙ apart 30 4 (inr (omega arith)) (omega arith);
  destination = e.destination ∙ apart 26 4 (inr (omega arith)) (omega arith);
  ttl = e.ttl;
  type_and_code = e.type_and_code;
  verifies = e.verifies;
}
  where
    apart :
        (at n : ℕ)
        → (at + n ≤ 24) ⊎ (26 ≤ at)
        → at + n ≤ 42
        → slice (clear_check p) at n ≡ slice p at n
    apart at n o l = unfold clear_check in beside p at n 24 (le16 0) v.holds l o

-- An echo request to the address of the interface it came in by, with a right header checksum, a
-- time to live above 1 and a route for its own destination: one frame goes back out of that
-- interface, an echo reply with the IP addresses turned round, a time to live of 64 and a header
-- that verifies. Its Ethernet header is the request's, so that it is addressed to the router.
pub serve_reply :
    (cfg : Config) (memory : List ℕ) (st : State)
    → IsAccepted st.m.payload
    → 1 < ip_ttl st.m.payload
    → (get_prefix cfg.rtable (ip_daddr st.m.payload)).prefix ≢ 0
    → is_echo_for_router cfg st st.m.payload ≡ true
    → (p : List ℕ) × (serve cfg memory st ≡ record {
      state = record st { m = record st.m { payload = p } };
      frames = record { interface = st.m.interface; bytes = take st.m.len p } ∷ [];
    })
      × IsEchoed st.m.payload p
serve_reply cfg memory st a young route echoes = (
  icmp_reply_payload (clear_check st.m.payload),
  serve-routed cfg memory st a young route ∙ turn,
  IsEchoed-clear st.m.payload _ a.payload (
      reply_payload-IsEchoed (clear_check st.m.payload)
        (clear_check-IsPayload st.m.payload a.payload)),
)
  where
    turn :
        (if is_echo_for_router cfg st st.m.payload
          then echo st (clear_check st.m.payload)
          else transmit cfg memory st
              (clear_check st.m.payload)
              (get_prefix cfg.rtable (ip_daddr st.m.payload))
              (find st.arp_table (ip_daddr st.m.payload)))
        ≡ record {
          state = record st {
            m = record st.m { payload = icmp_reply_payload (clear_check st.m.payload) };
          };
          frames =
              record {
                interface = st.m.interface;
                bytes = take st.m.len (icmp_reply_payload (clear_check st.m.payload));
              }
              ∷ [];
        }
    turn = unfold echo send_packet in rw echoes
