-- ===== src/Router/Ipv4.antt =====
-- What the router does with an IPv4 packet, branch by branch.
use pcom.Prelude.{
  ℕ, ◌+◌, ◌%◌, ◌^◌, ◌≤◌, ◌<◌, List, [], ◌∷◌, ◌≡◌, ◌≢◌, inl, ◌∙◌, arith, length, true, ne→==,
}
use pcom.Bytes.{le16, slice, slice-patch_outside, length-slice}
use pcom.Checksum.{htons}
use pcom.Checksum.Store.{load32-lt}
use pcom.Routes.{Entry, found, missing, get_best_route}
use pcom.Frames.{Frame, send_icmp, ethertype_ip}
use pcom.Frames.Icmp.{send_icmp_error-eq, IsMessage, send_icmp-IsMessage}
use pcom.Router.{
  Config, State, Turn, next, ether_type, ip_ttl, ip_check, ip_saddr, ip_daddr, header_sum,
  clear_check, is_echo_for_router, serve_routed, serve_ipv4, serve,
}
use pcom.Router.Header.{IsPayload, load8-clear_check}

-- An IPv4 packet whose stored header checksum is the one that the router computes.
pub record IsAccepted (p : List ℕ) : Type 0 where
  pub payload : IsPayload p
  pub ipv4 : ether_type p ≡ htons ethertype_ip
  pub checked : header_sum (clear_check p) ≡ ip_check p

-- The state after a round that only cleared the checksum field.
abbrev pub cleared : State → State
cleared st = record st { m = record st.m { payload = clear_check st.m.payload } }

serve-ipv4 :
    (cfg : Config) (st : State)
    → ether_type st.m.payload ≡ htons ethertype_ip
    → serve cfg st ≡ serve_ipv4 cfg st
unfolding serve htons
serve-ipv4 cfg st e = rw e

-- Clearing the checksum field leaves the addresses, the protocol and the time to live.
module _ (p : List ℕ) where
  ip_saddr-clear : ip_saddr (clear_check p) ≡ ip_saddr p
  ip_saddr-clear = omega (
    arith,
    load8-clear_check p 26 (omega arith) (omega arith),
    load8-clear_check p 27 (omega arith) (omega arith),
    load8-clear_check p 28 (omega arith) (omega arith),
    load8-clear_check p 29 (omega arith) (omega arith),
  )

  pub ip_daddr-clear : ip_daddr (clear_check p) ≡ ip_daddr p
  ip_daddr-clear = omega (
    arith,
    load8-clear_check p 30 (omega arith) (omega arith),
    load8-clear_check p 31 (omega arith) (omega arith),
    load8-clear_check p 32 (omega arith) (omega arith),
    load8-clear_check p 33 (omega arith) (omega arith),
  )

  slice-clear : (at n : ℕ) → at + n ≤ 24 → 42 ≤ length p → slice (clear_check p) at n ≡ slice p at n
  unfolding clear_check
  slice-clear at n h l = slice-patch_outside p at n 24 (le16 0) (omega arith) (inl h)

pub is_echo-clear :
    (cfg : Config) (st : State) (p : List ℕ)
    → is_echo_for_router cfg st (clear_check p) ≡ is_echo_for_router cfg st p
unfolding is_echo_for_router
is_echo-clear cfg st p = rw (
  load8-clear_check p 23 (omega arith) (omega arith),
  load8-clear_check p 34 (omega arith) (omega arith),
  ip_daddr-clear p,
)

-- An IPv4 packet whose header checksum is wrong is dropped: nothing is sent, stored or queued.
pub serve-bad_checksum :
    (cfg : Config) (st : State)
    → ether_type st.m.payload ≡ htons ethertype_ip
    → header_sum (clear_check st.m.payload) ≢ ip_check st.m.payload
    → serve cfg st ≡ next (cleared st) []
serve-bad_checksum cfg st e bad = serve-ipv4 cfg st e ∙ refused
  where
    refused : serve_ipv4 cfg st ≡ next (cleared st) []
    refused = unfold serve_ipv4 in (rw (ne→== _ _ bad))

-- A packet that was sent without a change of the tables, as `IsMessage` tells of the frame.
pub record Answered (cfg : Config) (st : State) (type : ℕ) : Type 0 where
  pub frame : Frame
  pub turn : serve cfg st ≡ next (cleared st) (frame ∷ [])
  pub message :
      IsMessage
        (ip_saddr st.m.payload)
        (ip_daddr st.m.payload)
        (slice st.m.payload 0 6)
        (slice st.m.payload 6 6)
        type
        0
        st.m.interface
        frame

module _ (cfg : Config) (st : State) (a : IsAccepted st.m.payload) where
  ipv4_accepted : (turn : Turn) → serve_ipv4 cfg st ≡ turn → serve cfg st ≡ turn
  ipv4_accepted turn e = serve-ipv4 cfg st a.ipv4 ∙ e

  pub ttl-clear : ip_ttl (clear_check st.m.payload) ≡ ip_ttl st.m.payload
  ttl-clear = load8-clear_check st.m.payload 22 (omega arith) (omega arith)

  pub serve_accepted :
      (1 < ip_ttl st.m.payload)
      → {i : ℕ} {route : Entry} → get_best_route cfg.rtable (ip_daddr st.m.payload) ≡ found i route
      → serve cfg st ≡ serve_routed cfg st (clear_check st.m.payload) route
  serve_accepted t {i} {route} r = ipv4_accepted _ routed
    where
      routed : serve_ipv4 cfg st ≡ serve_routed cfg st (clear_check st.m.payload) route
      routed = unfold serve_ipv4 in ground (arith, a.checked, ttl-clear)

  -- The answer to the packet, built from the fields behind the cleared checksum.
  abbrev answer : (type id seq : ℕ) → Frame
  answer type id seq =
      let p = clear_check st.m.payload in
      send_icmp (ip_saddr p) (ip_daddr p) (slice p 0 6) (slice p 6 6) type 0 st.m.interface id seq

  answered :
      (type id seq : ℕ)
      → type < 256
      → serve cfg st ≡ next (cleared st) (answer type id seq ∷ [])
      → Answered cfg st type
  answered type id seq h e = record {
    frame = answer type id seq;
    turn = e;
    message =
        rw
          (
            ip_saddr-clear st.m.payload,
            ip_daddr-clear st.m.payload,
            slice-clear st.m.payload 0 6 (omega arith) a.payload.holds,
            slice-clear st.m.payload 6 6 (omega arith) a.payload.holds,
          )
          (send_icmp-IsMessage (ip_saddr st.m.payload) (ip_daddr st.m.payload)
            (slice st.m.payload 0 6) (slice st.m.payload 6 6) type 0 st.m.interface id seq
            (load32-lt st.m.payload 26 a.payload.bytes) (load32-lt st.m.payload 30 a.payload.bytes)
            (length-slice st.m.payload 0 6 (omega (arith, a.payload)))
            (length-slice st.m.payload 6 6 (omega (arith, a.payload))) h (omega arith));
  }

  -- An IPv4 packet with a right header checksum whose time to live has run out is answered by the
  -- ICMP message 11 to its sender, and goes no further.
  pub serve-expired : ip_ttl st.m.payload ≤ 1 → Answered cfg st 11
  serve-expired t = answered 11 0 0 (omega arith) (ipv4_accepted _ turn)
    where
      turn : serve_ipv4 cfg st ≡ next (cleared st) (answer 11 0 0 ∷ [])
      turn =
          rw (← send_icmp_error-eq _ _ _ _ _ _ _)
            (unfold serve_ipv4 in ground (arith, a.checked, ttl-clear))

  -- An IPv4 packet with a right header checksum and a time to live above 1 for which the look-up
  -- finds no row is answered by the ICMP message 3 to its sender.
  pub serve-no_route :
      1 < ip_ttl st.m.payload
      → get_best_route cfg.rtable (ip_daddr st.m.payload) ≡ missing
      → Answered cfg st 3
  serve-no_route t r = answered 3 0 0 (omega arith) (ipv4_accepted _ turn)
    where
      turn : serve_ipv4 cfg st ≡ next (cleared st) (answer 3 0 0 ∷ [])
      turn =
          rw (← send_icmp_error-eq _ _ _ _ _ _ _)
            (unfold serve_ipv4 in ground (arith, a.checked, ttl-clear))

  -- An echo request to the interface it came in by, with a right header checksum, a time to live
  -- above 1 and a route, is answered by the ICMP message 0 to its sender.
  pub serve-echo :
      1 < ip_ttl st.m.payload
      → {i : ℕ} {route : Entry} → get_best_route cfg.rtable (ip_daddr st.m.payload) ≡ found i route
      → is_echo_for_router cfg st st.m.payload ≡ true
      → Answered cfg st 0
  serve-echo t {i} {route} r echo =
      answered 0 (htons (cfg.pid % 2 ^ 16)) 0 (omega arith) (serve_accepted t r ∙ turn)
    where
      turn :
          serve_routed cfg st (clear_check st.m.payload) route
          ≡ next (cleared st) (answer 0 (htons (cfg.pid % 2 ^ 16)) 0 ∷ [])
      turn = unfold serve_routed in (rw (is_echo-clear cfg st st.m.payload, echo))
