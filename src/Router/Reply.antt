-- ===== src/Router/Reply.antt =====
-- What an ARP reply does to the queue of waiting packets, byte by byte.
use pcom.Prelude.{
  ℕ, ◌+◌, ◌%◌, ◌≤◌, List, [], ◌∷◌, ◌≡◌, ◌≢◌, refl, ap, ◌∙◌, arith, length, some, All, inl, inr,
  take, replicate,
}
use pcom.Bytes.{
  load8, patch, slice, length-patch, length-slice, load8-patch_outside, slice-patch_self,
  slice-patch_outside,
}
use pcom.Checksum.{htons}
use pcom.Routes.{Entry}
use pcom.Arp.{ArpEntry, add_arp_entry}
use pcom.Frames.{Packet, Frame, ethertype_arp, send_packet}
use pcom.Router.{
  Config, State, Ref, dangling, next, ether_type, arp_op, arp_spa, ip_ttl, header_sum,
  release_packet, put_back, serve, update_header,
}
use pcom.Router.Header.{IsPayload, IsAged, update_header-IsAged}
use pcom.Router.Release.{all_owned, IsRouted, Splits, done, leaves, stays, serve-arp_reply}
use pcom.Router.Safety.{splits}

-- A packet that has waited, as it is sent: one hop older, from the interface of its route to `sha`, its
-- header right, and every other byte behind the addresses as it came.
pub record IsReleased (cfg : Config) (packet : Packet) (route : Entry) (sha : List ℕ)
    (frame : Frame) : Type 0 where
  pub payload : List ℕ
  pub on_wire : frame ≡ record { interface = route.interface; bytes = take packet.len payload }
  pub same_length : length payload ≡ length packet.payload
  pub dhost : slice payload 0 6 ≡ sha
  pub shost : slice payload 6 6 ≡ cfg.interface_mac route.interface
  pub ttl : ip_ttl payload ≡ (ip_ttl packet.payload + 255) % 256
  pub verifies : header_sum payload ≡ 0
  pub others :
      (j : ℕ) → 12 ≤ j → j ≢ 22 → j ≢ 24 → j ≢ 25 → load8 payload j ≡ load8 packet.payload j

-- The packets of a queue, in order: those whose next hop is `spa` leave as frames to `sha`, the others
-- are kept.
pub data Sorts (cfg : Config) (spa : ℕ) (sha : List ℕ)
    : List Packet → List Packet → List Frame → Type 0 where
  sorted : Sorts cfg spa sha [] [] []
  sent :
      {packet : Packet} {packets kept : List Packet} {frame : Frame} {frames : List Frame}
      → (r : IsRouted cfg packet) → r.entry.next_hop ≡ spa
      → IsReleased cfg packet r.entry sha frame
      → Sorts cfg spa sha packets kept frames
      → Sorts cfg spa sha (packet ∷ packets) kept (frame ∷ frames)
  waits :
      {packet : Packet} {packets kept : List Packet} {frames : List Frame}
      → (r : IsRouted cfg packet) → r.entry.next_hop ≢ spa
      → Sorts cfg spa sha packets kept frames
      → Sorts cfg spa sha (packet ∷ packets) (packet ∷ kept) frames

module _ (cfg : Config) (six : (i : ℕ) → length (cfg.interface_mac i) ≡ 6) (sha : List ℕ)
    (ls : length sha ≡ 6) where
  release_packet-IsReleased :
      (packet : Packet) (route : Entry)
      → IsPayload packet.payload
      → IsReleased cfg packet route sha (release_packet cfg packet route sha)
  unfolding release_packet send_packet header_sum
  release_packet-IsReleased packet route v = record {
    payload = p3;
    on_wire = refl;
    same_length = length-patch p2 6 mac ∙ length-patch p1 0 sha ∙ u.same_length;
    dhost =
        slice-patch_outside p2 0 6 6 mac (omega (arith, length-patch p1 0 sha, u.payload))
          (inl (omega arith))
        ∙ (rw ls at (slice-patch_self p1 0 sha (omega (arith, u.payload))));
    shost = rw (six route.interface) at (
        slice-patch_self p2 6 mac
          (omega (arith, length-patch p1 0 sha, u.payload, six route.interface)));
    ttl = kept 22 (omega arith) ∙ u.ttl;
    verifies =
        rw
          (
            slice-patch_outside p2 14 20 6 mac (omega (arith, length-patch p1 0 sha, u.payload))
                (inr (omega (arith, six route.interface))),
            slice-patch_outside p1 14 20 0 sha (omega (arith, u.payload)) (inr (omega arith)),
          )
          u.verifies;
    others = λ j a b c d. kept j a ∙ u.others j b c d;
  }
    where
      mac : List ℕ
      mac = cfg.interface_mac route.interface

      p1 : List ℕ
      p1 = update_header packet.payload

      p2 : List ℕ
      p2 = patch p1 0 sha

      p3 : List ℕ
      p3 = patch p2 6 mac

      u : IsAged packet.payload p1
      u = update_header-IsAged packet.payload v

      kept : (j : ℕ) → 12 ≤ j → load8 p3 j ≡ load8 p1 j
      kept j a =
          load8-patch_outside p2 6 mac j (omega (arith, six route.interface))
          ∙ load8-patch_outside p1 0 sha j (omega arith)

  Splits-Sorts :
      (spa : ℕ) {packets kept : List Packet} {frames : List Frame}
      → Splits cfg spa sha packets kept frames
      → All (λ packet. IsPayload packet.payload) packets
      → Sorts cfg spa sha packets kept frames
  Splits-Sorts spa done h = sorted
  Splits-Sorts spa (leaves {packet = packet} r e s) (v, h) =
      sent r e (release_packet-IsReleased packet r.entry v) (Splits-Sorts spa s h)
  Splits-Sorts spa (stays r n s) (v, h) = waits r n (Splits-Sorts spa s h)

put_back_lem : (kept : List Packet) → put_back kept ≡ replicate (length kept) dangling
unfolding put_back
put_back_lem [] = refl
put_back_lem (packet ∷ kept) = ap (λ q. dangling ∷ q) (put_back_lem kept)

-- An ARP reply, the interfaces having addresses of six bytes, and the queue holding packets of the heap
-- that have routes: the sender's row is stored; every waiting packet whose next hop is the sender
-- leaves, in order, one hop older, from the address of its interface to the sender's, with a header that
-- verifies; of the others, only as many expired addresses as there are of them are in the queue after
-- it.
pub serve-release :
    (cfg : Config) (st : State) {table : List ArpEntry} {packets : List Packet}
    → ((i : ℕ) → length (cfg.interface_mac i) ≡ 6)
    → IsPayload st.m.payload
    → ether_type st.m.payload ≡ htons ethertype_arp
    → arp_op st.m.payload ≢ htons 1
    → add_arp_entry st.arp_table
        (record { ip = arp_spa st.m.payload; mac = slice st.m.payload 22 6 })
      ≡ some table
    → st.q ≡ all_owned packets
    → All (IsRouted cfg) packets
    → All (λ packet. IsPayload packet.payload) packets
    → (kept : List Packet) × (frames : List Frame) × (serve cfg st
        ≡ next (record st { arp_table = table; q = replicate (length kept) dangling }) frames)
      × Sorts cfg (arp_spa st.m.payload) (slice st.m.payload 22 6) packets kept frames
serve-release cfg st {table} {packets} six v e o t owns routed payloads =
    let spa = arp_spa st.m.payload in
    let sha = slice st.m.payload 22 6 in
    let (kept, frames, split) = splits cfg spa sha packets routed in
    (
      kept,
      frames,
      serve-arp_reply cfg st e o t owns split
          ∙ ap (λ (q : List Ref). next (record st { arp_table = table; q = q }) frames)
              (put_back_lem kept),
      Splits-Sorts cfg six sha (length-slice st.m.payload 22 6 (omega (arith, v.holds))) spa split
          payloads,
    )
