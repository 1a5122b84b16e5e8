-- ===== src/Forwarder/Serve.antt =====
-- What Lab04/router.c forwards.
use pcom.Prelude.{
  ℕ, ◌+◌, ◌%◌, ◌≤◌, ◌<◌, List, [], ◌∷◌, ◌≡◌, ◌≢◌, ◌⊎◌, inl, inr, refl, ap, sym, ◌∙◌, arith, Option,
  none, some, length, take,
}
use mathlib.Core.Option.{none-ne-some}
use pcom.Bytes.{patch, slice, slice-patch_self, slice-patch_outside, load8-patch_outside}
use pcom.Routes.{Entry}
use pcom.Arp.{ArpEntry, get_arp_entry}
use pcom.Frames.{Packet, send_packet}
use pcom.Router.{header_sum, update_header, ip_ttl, ip_daddr}
use pcom.Router.Header.{IsPayload, update_header-IsAged}
use pcom.Forwarder.{next, undefined, best_route, row, transmit, serve_packet}

transmit-null :
    (m : Packet) (route : Option Entry) (arp : Option ArpEntry)
    → (route ≡ none) ⊎ (arp ≡ none)
    → transmit m route arp ≡ undefined
unfolding transmit
transmit-null m none arp h = refl
transmit-null m (some route) none h = refl
transmit-null m (some route) (some arp) (inl e) = absurd (none-ne-some _ (sym e))
transmit-null m (some route) (some arp) (inr e) = absurd (none-ne-some _ (sym e))

module _ (rtable : List Entry) (arp_table : List ArpEntry) (m : Packet) where
  -- A packet whose header does not verify, or whose time to live has run out, is dropped in silence.
  pub serve_packet-drops :
      (header_sum m.payload ≢ 0) ⊎ (ip_ttl m.payload ≤ 1)
      → serve_packet rtable arp_table m ≡ next m []
  unfolding serve_packet
  serve_packet-drops h = ground arith

  same_daddr : IsPayload m.payload → ip_daddr (update_header m.payload) ≡ ip_daddr m.payload
  same_daddr v =
      let a = update_header-IsAged m.payload v in
      omega (
        arith,
        a.others 30 (omega arith) (omega arith) (omega arith),
        a.others 31 (omega arith) (omega arith) (omega arith),
        a.others 32 (omega arith) (omega arith) (omega arith),
        a.others 33 (omega arith) (omega arith) (omega arith),
      )

  -- A packet whose header verifies, with a time to live above 1, whose destination has a route and a
  -- known hardware address of six bytes leaves by the
  -- route's interface, addressed to that hardware address, one hop older, with a header that
  -- verifies.
  pub serve_packet-forwards :
      {route : Entry} {arp : ArpEntry}
      → IsPayload m.payload
      → header_sum m.payload ≡ 0
      → 1 < ip_ttl m.payload
      → row rtable (best_route rtable (ip_daddr m.payload)) ≡ some route
      → get_arp_entry arp_table (ip_daddr m.payload) ≡ some arp
      → length arp.mac ≡ 6
      → (p : List ℕ) × (serve_packet rtable arp_table m
          ≡ next
              (record m { payload = p })
              (record { interface = route.interface; bytes = take m.len p } ∷ []))
        × (slice p 0 6 ≡ arp.mac)
        × (ip_ttl p ≡ (ip_ttl m.payload + 255) % 256)
        × (header_sum p ≡ 0)
  unfolding header_sum
  serve_packet-forwards {route} {arp} v ok t r k six =
      let a = update_header-IsAged m.payload v in
      let aged = update_header m.payload in
      (
        patch aged 0 arp.mac,
        turn,
        rw six at (slice-patch_self aged 0 arp.mac (omega (arith, a.payload))),
        load8-patch_outside aged 0 arp.mac 22 (omega arith) ∙ a.ttl,
        rw (slice-patch_outside aged 14 20 0 arp.mac (omega (arith, a.payload)) (inr (omega arith)))
            a.verifies,
      )
    where
      known : get_arp_entry arp_table (ip_daddr (update_header m.payload)) ≡ some arp
      known = ap (get_arp_entry arp_table) (same_daddr v) ∙ k

      turn :
          serve_packet rtable arp_table m
          ≡ next
              (record m { payload = patch (update_header m.payload) 0 arp.mac })
              (record {
                interface = route.interface;
                bytes = take m.len (patch (update_header m.payload) 0 arp.mac);
              }
                ∷ [])
      turn = unfold serve_packet transmit send_packet in ground (arith, ok, r, known)

  -- A packet that would be sent on is undefined behaviour where its destination has no route or no
  -- known hardware address.
  pub serve_packet-null :
      header_sum m.payload ≡ 0
      → 1 < ip_ttl m.payload
      → (row rtable (best_route rtable (ip_daddr m.payload)) ≡ none)
        ⊎ (get_arp_entry arp_table (ip_daddr (update_header m.payload)) ≡ none)
      → serve_packet rtable arp_table m ≡ undefined
  serve_packet-null ok t h =
      reaches ∙ transmit-null _ (row rtable (best_route rtable (ip_daddr m.payload))) _ h
    where
      reaches :
          serve_packet rtable arp_table m
          ≡ transmit
              (record m { payload = update_header m.payload })
              (row rtable (best_route rtable (ip_daddr m.payload)))
              (get_arp_entry arp_table (ip_daddr (update_header m.payload)))
      reaches = unfold serve_packet in ground (arith, ok)
