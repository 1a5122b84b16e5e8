-- ===== src/Router/Release.antt =====
-- What an ARP reply does to the queue of waiting packets.
use pcom.Prelude.{
  ℕ, ◌+◌, List, [], ◌∷◌, ◌++◌, ◌≡◌, ◌≢◌, refl, ◌∙◌, arith, length, some, eq→==, ne→==,
}
use pcom.Bytes.{slice}
use pcom.Checksum.{htons}
use pcom.Routes.{Entry, found, get_best_route}
use pcom.Arp.{ArpEntry, add_arp_entry}
use pcom.Frames.{Packet, Frame, ethertype_arp}
use pcom.Router.{
  Config, State, Ref, owned, dangling, next, undefined, released, faulted, ether_type, arp_op,
  arp_spa, ip_daddr, release_packet, release_one, release, put_back, serve_arp_reply, serve,
}

-- A queue in which every element is a packet on the heap.
unfoldable pub all_owned : List Packet → List Ref
all_owned [] = []
all_owned (packet ∷ packets) = owned packet ∷ all_owned packets

-- The table has a row for the packet.
pub record IsRouted (cfg : Config) (packet : Packet) : Type 0 where
  pub index : ℕ
  pub entry : Entry
  pub is_route : get_best_route cfg.rtable (ip_daddr packet.payload) ≡ found index entry

-- The packets of a queue, in order: those that wait for the next hop `spa` leave as frames, the
-- others are kept.
pub data Splits (cfg : Config) (spa : ℕ) (sha : List ℕ)
    : List Packet → List Packet → List Frame → Type 0 where
  done : Splits cfg spa sha [] [] []
  leaves :
      {packet : Packet} {packets kept : List Packet} {frames : List Frame}
      → (r : IsRouted cfg packet) → r.entry.next_hop ≡ spa
      → Splits cfg spa sha packets kept frames
      → Splits cfg spa sha (packet ∷ packets) kept (release_packet cfg packet r.entry sha ∷ frames)
  stays :
      {packet : Packet} {packets kept : List Packet} {frames : List Frame}
      → (r : IsRouted cfg packet) → r.entry.next_hop ≢ spa
      → Splits cfg spa sha packets kept frames
      → Splits cfg spa sha (packet ∷ packets) (packet ∷ kept) frames

module _ (cfg : Config) (spa : ℕ) (sha : List ℕ) where
  -- No packet is lost and none is sent twice.
  pub Splits-length :
      {packets kept : List Packet} {frames : List Frame}
      → Splits cfg spa sha packets kept frames
      → length packets ≡ length kept + length frames
  Splits-length done = refl
  Splits-length (leaves r e s) = omega (arith, Splits-length s)
  Splits-length (stays r e s) = omega (arith, Splits-length s)

  pub release-Splits :
      {packets kept : List Packet} {frames : List Frame}
      → Splits cfg spa sha packets kept frames
      → release cfg spa sha (all_owned packets) ≡ released kept frames
  unfolding release release_one all_owned
  release-Splits done = refl
  release-Splits (leaves r e s) = rw (release-Splits s, release_one, r.is_route, eq→== _ _ e) refl
  release-Splits (stays r e s) = rw (release-Splits s, release_one, r.is_route, ne→== _ _ e) refl

  -- An expired pointer anywhere in the queue is read through.
  pub release-dangling :
      (before after : List Ref) → release cfg spa sha (before ++ (dangling ∷ after)) ≡ faulted
  unfolding release release_one
  release-dangling [] after = refl
  release-dangling (dangling ∷ before) after = refl
  release-dangling (owned packet ∷ before) after = rw (release-dangling before after) refl

module _ (cfg : Config) (st : State) (e : ether_type st.m.payload ≡ htons ethertype_arp)
    (o : arp_op st.m.payload ≢ htons 1) where
  pub serve-arp_reply_eq : serve cfg st ≡ serve_arp_reply cfg st
  unfolding serve htons
  serve-arp_reply_eq = rw (e, ne→== _ _ o) refl

  -- An ARP reply, the queue holding packets of the heap that have routes: the sender's row is
  -- stored, every waiting packet whose next hop is the sender leaves in order, and the addresses
  -- of as many expired variables as packets were kept are all that the queue holds after it.
  pub serve-arp_reply :
      {table : List ArpEntry} {packets kept : List Packet} {frames : List Frame}
      → add_arp_entry st.arp_table
          (record { ip = arp_spa st.m.payload; mac = slice st.m.payload 22 6 })
        ≡ some table
      → st.q ≡ all_owned packets
      → Splits cfg (arp_spa st.m.payload) (slice st.m.payload 22 6) packets kept frames
      → serve cfg st ≡ next (record st { arp_table = table; q = put_back kept }) frames
  serve-arp_reply {table} {packets} {kept} {frames} t owns s = serve-arp_reply_eq ∙ turn
    where
      freed :
          release cfg (arp_spa st.m.payload) (slice st.m.payload 22 6) st.q ≡ released kept frames
      freed = rw owns (release-Splits cfg (arp_spa st.m.payload) (slice st.m.payload 22 6) s)

      turn :
          serve_arp_reply cfg st ≡ next (record st { arp_table = table; q = put_back kept }) frames
      turn = unfold serve_arp_reply in ground (arith, t, freed)

  -- With an expired address anywhere in the queue, an ARP reply is undefined behaviour.
  pub serve-arp_reply_dangling :
      (before after : List Ref) → st.q ≡ before ++ (dangling ∷ after) → serve cfg st ≡ undefined
  serve-arp_reply_dangling before after owns = serve-arp_reply_eq ∙ turn
    where
      read : release cfg (arp_spa st.m.payload) (slice st.m.payload 22 6) st.q ≡ faulted
      read =
          rw owns
            (release-dangling cfg (arp_spa st.m.payload) (slice st.m.payload 22 6) before after)

      turn : serve_arp_reply cfg st ≡ undefined
      turn = unfold serve_arp_reply in ground (arith, read)
