-- ===== src/TrieRouter/Ipv4.antt =====
-- An IPv4 packet that is accepted, young enough and has a route: what is left is whether it is an
-- echo request to the router.
use pcom.Prelude.{ℕ, ◌<◌, List, if◌then◌else◌, ◌≡◌, ◌≢◌, ◌∙◌, arith, ne→==}
use pcom.Checksum.{htons}
use pcom.Router.{ip_ttl, ip_daddr, clear_check}
use pcom.Router.Header.{load8-clear_check}
use pcom.Router.Ipv4.{IsAccepted, ip_daddr-clear}
use pcom.Trie.{get_prefix}
use pcom.TrieRouter.{Config, State, find, is_echo_for_router, transmit, echo, serve_ipv4, serve}

is_echo-clear :
    (cfg : Config) (st : State) (p : List ℕ)
    → is_echo_for_router cfg st (clear_check p) ≡ is_echo_for_router cfg st p
unfolding is_echo_for_router
is_echo-clear cfg st p = rw (
  load8-clear_check p 23 (omega arith) (omega arith),
  load8-clear_check p 34 (omega arith) (omega arith),
  ip_daddr-clear p,
)

pub serve-routed :
    (cfg : Config) (memory : List ℕ) (st : State)
    → IsAccepted st.m.payload
    → 1 < ip_ttl st.m.payload
    → (get_prefix cfg.rtable (ip_daddr st.m.payload)).prefix ≢ 0
    → serve cfg memory st ≡ (
        if is_echo_for_router cfg st st.m.payload
        then echo st (clear_check st.m.payload)
        else transmit cfg memory st
            (clear_check st.m.payload)
            (get_prefix cfg.rtable (ip_daddr st.m.payload))
            (find st.arp_table (ip_daddr st.m.payload)))
serve-routed cfg memory st a young route = to_ipv4 ∙ routed
  where
    to_ipv4 : serve cfg memory st ≡ serve_ipv4 cfg memory st
    to_ipv4 = unfold serve htons in rw a.ipv4

    ttl : ip_ttl (clear_check st.m.payload) ≡ ip_ttl st.m.payload
    ttl = load8-clear_check st.m.payload 22 (omega arith) (omega arith)

    routed : serve_ipv4 cfg memory st ≡ (
        if is_echo_for_router cfg st st.m.payload
        then echo st (clear_check st.m.payload)
        else transmit cfg memory st
            (clear_check st.m.payload)
            (get_prefix cfg.rtable (ip_daddr st.m.payload))
            (find st.arp_table (ip_daddr st.m.payload)))
    routed =
        unfold serve_ipv4 in
        (rw (is_echo-clear cfg st st.m.payload, ip_daddr-clear st.m.payload, ne→== _ _ route) ground
          (arith, a.checked, ttl, young))
