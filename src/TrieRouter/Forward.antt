-- ===== src/TrieRouter/Forward.antt =====
-- A packet with a route: sent on at once, or kept while its hardware address is asked for; and what
-- then happens to the next packet for the same destination.
use pcom.Prelude.{
  ℕ, ◌<◌, List, [], ◌∷◌, ◌++◌, ◌≡◌, ◌≢◌, refl, ap, ◌∙◌, arith, length, some, none, false, take,
  replicate,
}
use pcom.Bytes.{patch, slice}
use pcom.Frames.{send_packet}
use pcom.Router.{ip_ttl, ip_daddr, clear_check, update_header}
use pcom.Router.Ipv4.{IsAccepted, ip_daddr-clear}
use pcom.Router.Forward.{IsForwarded, aged-IsForwarded}
use pcom.Trie.{get_prefix}
use pcom.TrieFrames.{send_arp_request}
use pcom.TrieRouter.{
  ArpEntry, no_arp_entry, Config, State, Turn, find, assign, receive, is_echo_for_router, transmit,
  serve,
}
use pcom.TrieRouter.Ipv4.{serve-routed}
use pcom.TrieRouter.Table.{find-assign}

-- An accepted packet that is neither too old nor without a route nor an echo request to the router.
pub record IsRouted (cfg : Config) (st : State) : Type 0 where
  pub accepted : IsAccepted st.m.payload
  pub young : 1 < ip_ttl st.m.payload
  pub route : (get_prefix cfg.rtable (ip_daddr st.m.payload)).prefix ≢ 0
  pub no_echo : is_echo_for_router cfg st st.m.payload ≡ false

serve-transmit :
    (cfg : Config) (memory : List ℕ) (st : State)
    → IsRouted cfg st
    → serve cfg memory st
      ≡ transmit cfg memory st
          (clear_check st.m.payload)
          (get_prefix cfg.rtable (ip_daddr st.m.payload))
          (find st.arp_table (ip_daddr st.m.payload))
serve-transmit cfg memory st r =
    serve-routed cfg memory st r.accepted r.young r.route ∙ rw r.no_echo

module _ (cfg : Config) (memory : List ℕ) (st : State) (r : IsRouted cfg st) where
  -- Such a packet whose destination has a row with six bytes: one frame leaves by the route's
  -- interface, one hop older, addressed to the row's hardware address, with a header that verifies
  -- and every other byte as it came; the tables and the queue stay as they are.
  pub serve-transmit_known :
      {entry : ArpEntry}
      → find st.arp_table (ip_daddr st.m.payload) ≡ some entry
      → length entry.mac ≡ 6
      → (p : List ℕ) × (serve cfg memory st ≡ record {
        state = record st { m = record st.m { payload = p } };
        frames =
            record {
              interface = (get_prefix cfg.rtable (ip_daddr st.m.payload)).interface;
              bytes = take st.m.len p;
            }
            ∷ [];
      })
        × IsForwarded st.m.payload entry.mac p
  serve-transmit_known {entry} known six = (
    patch (update_header (clear_check st.m.payload)) 0 entry.mac,
    serve-transmit cfg memory st r ∙ turn,
    aged-IsForwarded st.m.payload entry.mac r.accepted.payload r.young six,
  )
    where
      turn :
          transmit cfg memory st
            (clear_check st.m.payload)
            (get_prefix cfg.rtable (ip_daddr st.m.payload))
            (find st.arp_table (ip_daddr st.m.payload))
          ≡ record {
            state = record st {
              m = record st.m {
                payload = patch (update_header (clear_check st.m.payload)) 0 entry.mac;
              };
            };
            frames =
                record {
                  interface = (get_prefix cfg.rtable (ip_daddr st.m.payload)).interface;
                  bytes =
                      take st.m.len (patch (update_header (clear_check st.m.payload)) 0 entry.mac);
                }
                ∷ [];
          }
      turn = unfold transmit send_packet in rw known

  -- The state that such a packet leaves when its destination has no row.
  abbrev kept : State
  kept = record st {
    arp_table = assign st.arp_table (ip_daddr (clear_check st.m.payload)) no_arp_entry;
    q = st.q ++ (record st.m { payload = clear_check st.m.payload } ∷ []);
    m = record st.m { payload = clear_check st.m.payload };
  }

  serve-kept :
      find st.arp_table (ip_daddr st.m.payload) ≡ none
      → serve cfg memory st ≡ record {
        state = kept;
        frames =
            send_arp_request memory cfg.interface_mac cfg.interface_ip
              (get_prefix cfg.rtable (ip_daddr st.m.payload))
              (slice (clear_check st.m.payload) 30 4)
            ∷ [];
      }
  serve-kept missing = serve-transmit cfg memory st r ∙ turn
    where
      turn :
          transmit cfg memory st
            (clear_check st.m.payload)
            (get_prefix cfg.rtable (ip_daddr st.m.payload))
            (find st.arp_table (ip_daddr st.m.payload))
          ≡ record {
            state = kept;
            frames =
                send_arp_request memory cfg.interface_mac cfg.interface_ip
                  (get_prefix cfg.rtable (ip_daddr st.m.payload))
                  (slice (clear_check st.m.payload) 30 4)
                ∷ [];
          }
      turn = unfold transmit in rw missing

  find-kept : find kept.arp_table (ip_daddr st.m.payload) ≡ some no_arp_entry
  find-kept =
      find-assign st.arp_table (ip_daddr (clear_check st.m.payload)) no_arp_entry
        (ip_daddr st.m.payload)
      ∙ rw (ip_daddr-clear st.m.payload) (ground arith)

-- What two packets in a row for one destination lead to, where `st'` holds the second: the first is
-- queued and asked for, and the second is sent on to 00:00:00:00:00:00.
pub record IsUnresolved (cfg : Config) (memory memory' : List ℕ) (st st' : State) : Type 0 where
  pub queued :
      (serve cfg memory st).state.q
      ≡ st.q ++ (record st.m { payload = clear_check st.m.payload } ∷ [])
  pub asked :
      (serve cfg memory st).frames
      ≡ send_arp_request memory cfg.interface_mac cfg.interface_ip
          (get_prefix cfg.rtable (ip_daddr st.m.payload))
          (slice (clear_check st.m.payload) 30 4)
        ∷ []
  pub payload : List ℕ
  pub sent : serve cfg memory' st' ≡ record {
    state = record st' { m = record st'.m { payload = payload } };
    frames =
        record {
          interface = (get_prefix cfg.rtable (ip_daddr st.m.payload)).interface;
          bytes = take st'.m.len payload;
        }
        ∷ [];
  }
  pub forwarded : IsForwarded st'.m.payload (replicate 6 0) payload

-- A packet that is accepted, not too old, with a route and no echo request to the router, and whose
-- destination has no row, is queued with its `check` cleared, and one request leaves for the
-- hardware address of the destination. If another such packet for the same destination comes in
-- next, it is not queued: it is sent on at once, to the hardware address 00:00:00:00:00:00.
pub serve-IsUnresolved :
    (cfg : Config) (memory memory' : List ℕ) (st : State) (interface : ℕ) (bytes : List ℕ)
    → IsRouted cfg st
    → find st.arp_table (ip_daddr st.m.payload) ≡ none
    → IsRouted cfg (receive (serve cfg memory st).state interface bytes)
    → ip_daddr (receive (serve cfg memory st).state interface bytes).m.payload
      ≡ ip_daddr st.m.payload
    → IsUnresolved cfg memory memory' st (receive (serve cfg memory st).state interface bytes)
serve-IsUnresolved cfg memory memory' st interface bytes r missing r' same = record {
  queued = ap (λ (turn : Turn). turn.state.q) first;
  asked = ap (λ (turn : Turn). turn.frames) first;
  payload = next_sent.0;
  sent = next_sent.1;
  forwarded = next_sent.2;
}
  where
    first : serve cfg memory st ≡ record {
      state = kept cfg memory st r;
      frames =
          send_arp_request memory cfg.interface_mac cfg.interface_ip
            (get_prefix cfg.rtable (ip_daddr st.m.payload))
            (slice (clear_check st.m.payload) 30 4)
          ∷ [];
    }
    first = serve-kept cfg memory st r missing

    st' : State
    st' = receive (serve cfg memory st).state interface bytes

    known : find st'.arp_table (ip_daddr st'.m.payload) ≡ some no_arp_entry
    known = unfold receive in rw (same, first) (find-kept cfg memory st r)

    next_sent :
        (p : List ℕ) × (serve cfg memory' st' ≡ record {
          state = record st' { m = record st'.m { payload = p } };
          frames =
              record {
                interface = (get_prefix cfg.rtable (ip_daddr st.m.payload)).interface;
                bytes = take st'.m.len p;
              }
              ∷ [];
        })
        × IsForwarded st'.m.payload (replicate 6 0) p
    next_sent = rw same at (serve-transmit_known cfg memory' st' r' known refl)
