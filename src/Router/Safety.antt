-- ===== src/Router/Safety.antt =====
-- Which rounds of the loop are safe: the queue's elements are packets of the heap with routes.
use pcom.Prelude.{
  ℕ, suc, ◌+◌, ◌<◌, List, [], ◌∷◌, ◌++◌, ◌≡◌, ◌≢◌, ◌⊎◌, inl, inr, refl, sym, ap, ◌∙◌, length, some,
  leb, ◌==◌, ==→eq, ==→ne, Bool-cases, All, All-append, ℕ_discrete, Option-cases,
}
use pcom.Bytes.{slice, patch}
use pcom.Checksum.{htons}
use pcom.Routes.{Entry, Lookup, found, missing, get_best_route}
use pcom.Routes.Search.{Found, route, null, get_best_route-Found}
use pcom.Arp.{ArpEntry, get_arp_entry, add_arp_entry, add_arp_entry-room}
use pcom.Frames.{Packet, Frame, ethertype_arp, ethertype_ip}
use pcom.Router.{
  Config, State, owned, Turn, next, undefined, ether_type, arp_op, arp_spa, ip_ttl, ip_check,
  ip_daddr, header_sum, clear_check, is_echo_for_router, release_packet, put_back,
  serve_arp_request, serve_unknown_mac, forward, serve_routed, serve_ipv4, serve, receive,
}
use pcom.Router.Ipv4.{ip_daddr-clear}
use pcom.Router.Release.{
  all_owned, IsRouted, Splits, done, leaves, stays, Splits-length, serve-arp_reply,
  serve-arp_reply_dangling,
}

-- Every element of the queue is a packet on the heap that has a route.
pub record IsSound (cfg : Config) (st : State) : Type 0 where
  pub waiting : List Packet
  pub owns : st.q ≡ all_owned waiting
  pub routed : All (IsRouted cfg) waiting

-- A round that changes at most `m` and adds at most one packet, which has a route.
data IsQuiet (cfg : Config) (st : State) : Turn → Type 0 where
  quiet : (m : Packet) (frames : List Frame) → IsQuiet cfg st (next (record st { m = m }) frames)
  queued :
      (m packet : Packet) (frames : List Frame)
      → IsRouted cfg packet
      → IsQuiet cfg st (next (record st { q = st.q ++ (owned packet ∷ []); m = m }) frames)

module _ (cfg : Config) (st : State) where
  serve_routed-IsQuiet :
      {i : ℕ} {e : Entry}
      → get_best_route cfg.rtable (ip_daddr st.m.payload) ≡ found i e
      → IsQuiet cfg st (serve_routed cfg st (clear_check st.m.payload) e)
  unfolding serve_routed serve_unknown_mac forward
  serve_routed-IsQuiet {i} {e} r =
      elim (Bool-cases (is_echo_for_router cfg st (clear_check st.m.payload))) [
        | inl t ↦ rw t (quiet _ _)
        | inr f ↦
            (elim (Option-cases
              (get_arp_entry st.arp_table (ip_daddr (clear_check st.m.payload)))) [
                | inl n ↦
                    rw (f, n)
                      (queued _ _ _ (record {
                        index = i;
                        entry = e;
                        is_route = ap (get_best_route cfg.rtable) (ip_daddr-clear st.m.payload) ∙ r;
                      }))
                | inr (arp, k) ↦ rw (f, k) (quiet _ _)
              ])
      ]

  -- What the look-up of an address can return.
  looked_up :
      {lookup : Lookup}
      → Found cfg.rtable (ip_daddr st.m.payload) lookup
      → ((i : ℕ) × (e : Entry) × (lookup ≡ found i e)) ⊎ (lookup ≡ missing)
  looked_up (route i e at h) = inl (i, e, refl)
  looked_up null = inr refl

  serve_ipv4-IsQuiet : IsQuiet cfg st (serve_ipv4 cfg st)
  unfolding serve_ipv4
  serve_ipv4-IsQuiet =
      elim (Bool-cases (header_sum (clear_check st.m.payload) == ip_check st.m.payload)) [
        | inr f ↦ rw f (quiet _ _)
        | inl t ↦ (elim (Bool-cases (leb (ip_ttl (clear_check st.m.payload)) 1)) [
          | inl t' ↦ rw (t, t') (quiet _ _)
          | inr f' ↦ (elim (looked_up (get_best_route-Found cfg.rtable (ip_daddr st.m.payload))) [
            | inl (i, e, r) ↦ rw (t, f', r) (serve_routed-IsQuiet r)
            | inr n ↦ rw (t, f', n) (quiet _ _)
          ])
        ])
      ]

  serve_arp_request-IsQuiet : IsQuiet cfg st (serve_arp_request cfg st)
  unfolding serve_arp_request
  serve_arp_request-IsQuiet = quiet _ _

  -- A packet that is not an ARP reply: another type, or an ARP request.
  abbrev pub IsNoReply : Type 0
  IsNoReply = (ether_type st.m.payload ≢ htons ethertype_arp) ⊎ (arp_op st.m.payload ≡ htons 1)

  serve-IsQuiet : IsNoReply → IsQuiet cfg st (serve cfg st)
  unfolding serve
  serve-IsQuiet h = elim (Bool-cases (ether_type st.m.payload == htons ethertype_arp)) [
    | inl t ↦ (elim (Bool-cases (arp_op st.m.payload == htons 1)) [
      | inl t' ↦ rw (t, t') serve_arp_request-IsQuiet
      | inr f' ↦ absurd (elim h [ inl n ↦ n (==→eq _ _ t) | inr o ↦ ==→ne _ _ f' o ])
    ])
    | inr f ↦ (elim (Bool-cases (ether_type st.m.payload == htons ethertype_ip)) [
      | inl t' ↦ rw (f, t') serve_ipv4-IsQuiet
      | inr f' ↦ rw (f, f') (quiet _ _)
    ])
  ]

all_owned-append :
    (packets : List Packet) (packet : Packet)
    → all_owned packets ++ (owned packet ∷ []) ≡ all_owned (packets ++ (packet ∷ []))
unfolding all_owned
all_owned-append [] packet = refl
all_owned-append (p ∷ packets) packet = ap (λ q. owned p ∷ q) (all_owned-append packets packet)

length-all_owned : (packets : List Packet) → length (all_owned packets) ≡ length packets
unfolding all_owned
length-all_owned [] = refl
length-all_owned (p ∷ packets) = ap suc (length-all_owned packets)

-- A round that went on, and left the queue sound.
pub record Continues (cfg : Config) (st : State) : Type 0 where
  pub state : State
  pub frames : List Frame
  pub turn : serve cfg st ≡ next state frames
  pub sound : IsSound cfg state
  pub same_table : state.arp_table ≡ st.arp_table

IsQuiet-Continues :
    (cfg : Config) (st : State) (turn : Turn)
    → IsQuiet cfg st turn
    → IsSound cfg st
    → serve cfg st ≡ turn
    → Continues cfg st
IsQuiet-Continues cfg st _ (quiet m frames) s e = record {
  state = record st { m = m };
  frames = frames;
  turn = e;
  sound = record { waiting = s.waiting; owns = s.owns; routed = s.routed };
  same_table = refl;
}
IsQuiet-Continues cfg st _ (queued m packet frames r) s e = record {
  state = record st { q = st.q ++ (owned packet ∷ []); m = m };
  frames = frames;
  turn = e;
  sound = record {
    waiting = s.waiting ++ (packet ∷ []);
    owns = ap (λ q. q ++ (owned packet ∷ [])) s.owns ∙ all_owned-append s.waiting packet;
    routed = All-append (IsRouted cfg) s.waiting (packet ∷ []) s.routed (r, tt);
  };
  same_table = refl;
}

-- With packets of the heap that have routes in the queue, a round for anything but an ARP reply is
-- defined, leaves such a queue, and does not touch the ARP table.
pub serve-Continues :
    (cfg : Config) (st : State) → IsSound cfg st → IsNoReply cfg st → Continues cfg st
serve-Continues cfg st s h = IsQuiet-Continues cfg st _ (serve-IsQuiet cfg st h) s refl

-- Every queue of packets with routes splits at a reply.
pub splits :
    (cfg : Config) (spa : ℕ) (sha : List ℕ) (packets : List Packet)
    → All (IsRouted cfg) packets
    → (kept : List Packet) × (frames : List Frame) × Splits cfg spa sha packets kept frames
splits cfg spa sha [] h = ([], [], done)
splits cfg spa sha (packet ∷ packets) (r, h) =
    let (kept, frames, s) = splits cfg spa sha packets h in
    elim (ℕ_discrete r.entry.next_hop spa) [
      | yes e ↦ (kept, release_packet cfg packet r.entry sha ∷ frames, leaves r e s)
      | no n ↦ (packet ∷ kept, frames, stays r n s)
    ]

-- A reply that arrives while the queue is sound is defined, unless it is the 66001st; what it
-- leaves of the queue are addresses of expired variables.
pub serve-reply_continues :
    (cfg : Config) (st : State)
    → IsSound cfg st
    → length st.arp_table < 66000
    → ether_type st.m.payload ≡ htons ethertype_arp
    → arp_op st.m.payload ≢ htons 1
    → (table : List ArpEntry) × (kept : List Packet) × (frames : List Frame) × (serve cfg st
        ≡ next (record st { arp_table = table; q = put_back kept }) frames)
      × (length kept + length frames ≡ length st.q)
serve-reply_continues cfg st s room e o =
    let (kept, frames, split) =
      splits cfg (arp_spa st.m.payload) (slice st.m.payload 22 6) s.waiting s.routed in
    let (table, added) = add_arp_entry-room st.arp_table _ room in
    (
      table,
      kept,
      frames,
      serve-arp_reply cfg st e o added s.owns split,
      sym (Splits-length cfg _ _ split) ∙ sym (ap length s.owns ∙ length-all_owned s.waiting),
    )

-- With packets of the heap that have routes in the queue, and room in the ARP table: where a reply
-- keeps a packet, a reply that comes in next is undefined behaviour.
pub serve-second_reply :
    (cfg : Config) (st : State) (packet : Packet) {packets kept : List Packet} {frames : List Frame}
    {table : List ArpEntry}
    → ether_type st.m.payload ≡ htons ethertype_arp
    → arp_op st.m.payload ≢ htons 1
    → add_arp_entry st.arp_table
        (record { ip = arp_spa st.m.payload; mac = slice st.m.payload 22 6 })
      ≡ some table
    → st.q ≡ all_owned packets
    → Splits cfg (arp_spa st.m.payload) (slice st.m.payload 22 6) packets (packet ∷ kept) frames
    → (interface : ℕ) (bytes : List ℕ)
    → ether_type (patch st.m.payload 0 bytes) ≡ htons ethertype_arp
    → arp_op (patch st.m.payload 0 bytes) ≢ htons 1
    → (after : State) × (serve cfg st ≡ next after frames)
      × (serve cfg (receive after interface bytes) ≡ undefined)
unfolding receive put_back
serve-second_reply cfg st packet {packets} {kept} {frames} {table} e o t owns split interface bytes
      e' o' =
    (
      record st { arp_table = table; q = put_back (packet ∷ kept) },
      serve-arp_reply cfg st e o t owns split,
      serve-arp_reply_dangling cfg _ e' o' [] (put_back kept) refl,
    )
