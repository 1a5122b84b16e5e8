-- ===== src/Router/Forward.antt =====
-- A packet with a route: sent on at once, or kept while its hardware address is asked for.
use pcom.Prelude.{
  ℕ, ◌-◌, ◌≤◌, ◌<◌, List, [], ◌∷◌, ◌≡◌, ◌≢◌, inr, ◌∙◌, arith, length, some, false, take,
}
use pcom.Bytes.{
  load8, patch, slice, length-patch, load8-patch_outside, slice-patch_self, slice-patch_outside,
}
use pcom.Checksum.Store.{AllBytes-load8}
use pcom.Routes.{Entry, found, get_best_route}
use pcom.Arp.{ArpEntry, get_arp_entry}
use pcom.Frames.{send_packet}
use pcom.Router.{
  Config, State, next, ip_ttl, ip_daddr, header_sum, clear_check, update_header, is_echo_for_router,
  forward, serve_routed, serve,
}
use pcom.Router.Header.{
  IsPayload, length-clear_check, IsAged, load8-clear_check, clear_check-IsPayload,
  update_header-IsAged,
}
use pcom.Router.Ipv4.{IsAccepted, serve_accepted, ip_daddr-clear, is_echo-clear}

-- The payload that is sent on: addressed to the next machine, one hop older, its header right, and
-- every other byte behind the destination address as it came.
pub record IsForwarded (arrived : List ℕ) (mac sent : List ℕ) : Type 0 where
  pub same_length : length sent ≡ length arrived
  pub dhost : slice sent 0 6 ≡ mac
  pub ttl : ip_ttl sent ≡ ip_ttl arrived - 1
  pub verifies : header_sum sent ≡ 0
  pub others : (j : ℕ) → 6 ≤ j → j ≢ 22 → j ≢ 24 → j ≢ 25 → load8 sent j ≡ load8 arrived j

abbrev aged : List ℕ → List ℕ
aged p = update_header (clear_check p)

pub aged-IsForwarded :
    (p : List ℕ) (mac : List ℕ)
    → IsPayload p
    → 1 < ip_ttl p
    → length mac ≡ 6
    → IsForwarded p mac (patch (aged p) 0 mac)
unfolding header_sum
aged-IsForwarded p mac v t six = record {
  same_length = length-patch (aged p) 0 mac ∙ u.same_length ∙ length-clear_check p;
  dhost = rw six at (slice-patch_self (aged p) 0 mac (omega (arith, u.payload)));
  ttl =
      load8-patch_outside (aged p) 0 mac 22 (omega arith)
      ∙ omega (
        arith,
        u.ttl,
        load8-clear_check p 22 (omega arith) (omega arith),
        AllBytes-load8 p 22 v.bytes,
      );
  verifies =
      rw (slice-patch_outside (aged p) 14 20 0 mac (omega (arith, u.payload)) (inr (omega arith)))
        u.verifies;
  others = λ j b c d e.
      load8-patch_outside (aged p) 0 mac j (omega arith)
      ∙ u.others j c d e
      ∙ load8-clear_check p j d e;
}
  where
    u : IsAged (clear_check p) (aged p)
    u = update_header-IsAged (clear_check p) (clear_check-IsPayload p v)

module _ (cfg : Config) (st : State) (a : IsAccepted st.m.payload) (t : 1 < ip_ttl st.m.payload)
    {i : ℕ} {route : Entry} (r : get_best_route cfg.rtable (ip_daddr st.m.payload) ≡ found i route)
    (echo : is_echo_for_router cfg st st.m.payload ≡ false) where
  -- An IPv4 packet with a right header checksum, a time to live above 1 and a route, which is no echo
  -- request to the router, and whose destination's hardware address is known and has six bytes: one
  -- frame leaves by the route's interface, one hop older, readdressed, with a header that verifies
  -- and every other byte as it came; the tables and the queue stay as they are.
  pub serve-forward :
      {arp : ArpEntry}
      → get_arp_entry st.arp_table (ip_daddr st.m.payload) ≡ some arp
      → length arp.mac ≡ 6
      → (p : List ℕ) × (serve cfg st
          ≡ next
              (record st { m = record st.m { payload = p } })
              (record { interface = route.interface; bytes = take st.m.len p } ∷ []))
        × IsForwarded st.m.payload arp.mac p
  serve-forward {arp} known six = (
    patch (aged st.m.payload) 0 arp.mac,
    serve_accepted cfg st a t r ∙ turn,
    aged-IsForwarded st.m.payload arp.mac a.payload t six,
  )
    where
      turn :
          serve_routed cfg st (clear_check st.m.payload) route
          ≡ next
              (record st { m = record st.m { payload = patch (aged st.m.payload) 0 arp.mac } })
              (record {
                interface = route.interface;
                bytes = take st.m.len (patch (aged st.m.payload) 0 arp.mac);
              }
                ∷ [])
      turn =
          unfold serve_routed forward send_packet in
          (rw (is_echo-clear cfg st st.m.payload, echo, ip_daddr-clear st.m.payload, known))
