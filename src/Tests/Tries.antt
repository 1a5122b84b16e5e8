-- ===== src/Tests/Tries.antt =====
-- The theorems of the trie and of its router at concrete inputs.
use pcom.Prelude.{ℕ, List, [], ◌∷◌, ◌≡◌, ◌≢◌, refl, arith, none, some, true, take, if◌then◌else◌}
use pcom.Bytes.{patch, slice}
use pcom.Checksum.{htons}
use pcom.Frames.{ethertype_arp}
use pcom.Router.{ether_type, arp_op, ip_daddr, inet_aton, header_sum, clear_check}
use pcom.Router.Forward.{IsForwarded}
use pcom.Trie.{TableEntry, Trie, new_trie, empty, bit_at, get_mask_length, insert, get_prefix}
use pcom.Trie.Insert.{bits, below, entry_at, same_path, IsRooted, insert_at}
use pcom.Trie.Lookup.{get_prefix-insert}
use pcom.TrieRouter.{
  ArpEntry, no_arp_entry, Config, State, find, assign, is_echo_for_router, receive, serve, run,
  boot, Arrival,
}
use pcom.TrieRouter.Flush.{learned, released_all, holding, serve-flush}
use pcom.TrieRouter.Forward.{IsRouted, IsUnresolved, serve-transmit_known, serve-IsUnresolved}
use pcom.TrieRouter.Echo.{IsEchoed, serve_reply}
use pcom.Tests.Packets.{
  own_mac, next_mac, quad, good, echo, arp_answer, packet, good-IsAccepted, echo-IsAccepted,
}

abbrev row : TableEntry
row = record {
  prefix = 108736;
  next_hop = 33663168;
  mask = 4294967040;
  mask_len = 24;
  interface = 1;
}

abbrev echo_row : TableEntry
echo_row = record {
  prefix = 10;
  next_hop = 150994954;
  mask = 4278190080;
  mask_len = 8;
  interface = 0;
}

new_trie-IsRooted : IsRooted new_trie
unfolding new_trie pcom.Trie.is_null
new_trie-IsRooted = refl

insert_at_example : entry_at (insert new_trie row) (bits 108736 0 24) ≡ (
    if same_path (bits 108736 0 24) (bits 108736 0 24)
    then row
    else entry_at new_trie (bits 108736 0 24))
insert_at_example = insert_at new_trie row (bits 108736 0 24) new_trie-IsRooted (omega arith)

row_mask_len : 24 ≡ get_mask_length 4294967040
unfolding get_mask_length pcom.Trie.mask_length_from
row_mask_len = refl

row_free : below new_trie (bits 108736 0 24) ≡ empty
unfolding new_trie
row_free = refl

get_prefix-insert_example : get_prefix (insert new_trie row) 33663168 ≡ row
get_prefix-insert_example =
    get_prefix-insert new_trie row 33663168 new_trie-IsRooted row_mask_len refl row_free refl
      (omega arith)

abbrev table : Trie
table = insert (insert new_trie row) echo_row

abbrev cfg : Config
cfg = record { rtable = table; interface_ip = λ i. quad; interface_mac = λ i. own_mac; pid = 7 }

abbrev start : List ℕ → State
start = λ p. record { arp_table = []; q = []; m = packet p }

abbrev knows : List ℕ → State
knows = λ p. record {
  arp_table = (33663168, record { ip = 33663168; mac = next_mac }) ∷ [];
  q = [];
  m = packet p;
}

route_good : (get_prefix table (ip_daddr good)).prefix ≢ 0
unfolding get_prefix insert pcom.Trie.insert_from pcom.Trie.store_at_end pcom.Trie.or_new new_trie
    pcom.Trie.next_match pcom.Trie.is_null
route_good = omega arith

start-IsRouted : IsRouted cfg (start good)
unfolding is_echo_for_router
start-IsRouted = record {
  accepted = good-IsAccepted;
  young = omega arith;
  route = route_good;
  no_echo = refl;
}

knows-IsRouted : IsRouted cfg (knows good)
unfolding is_echo_for_router
knows-IsRouted = record {
  accepted = good-IsAccepted;
  young = omega arith;
  route = route_good;
  no_echo = refl;
}

known :
    find (knows good).arp_table (ip_daddr good) ≡ some (record { ip = 33663168; mac = next_mac })
unfolding find
known = refl

serve-transmit_known_example :
    (p : List ℕ) × (serve cfg [] (knows good) ≡ record {
      state = record (knows good) { m = packet p };
      frames =
          record { interface = (get_prefix table (ip_daddr good)).interface; bytes = take 42 p }
          ∷ [];
    })
    × IsForwarded good next_mac p
serve-transmit_known_example = serve-transmit_known cfg [] (knows good) knows-IsRouted known refl

unknown : find (start good).arp_table (ip_daddr good) ≡ none
unfolding find
unknown = refl

-- The state when the same packet comes in again at once.
abbrev again : State
again = receive (serve cfg [] (start good)).state 0 good

again-payload : again.m.payload ≡ good
unfolding receive serve patch slice pcom.TrieRouter.serve_ipv4 pcom.TrieRouter.transmit htons
    header_sum clear_check pcom.Checksum.ip_checksum get_prefix insert pcom.Trie.insert_from
    pcom.Trie.store_at_end pcom.Trie.or_new new_trie pcom.Trie.next_match pcom.Trie.is_null
    is_echo_for_router find
again-payload = refl

again-IsRouted : IsRouted cfg again
unfolding is_echo_for_router
again-IsRouted = record {
  accepted = rw again-payload good-IsAccepted;
  young = rw again-payload (omega arith);
  route = rw again-payload route_good;
  no_echo = rw again-payload refl;
}

again_daddr : ip_daddr again.m.payload ≡ ip_daddr good
again_daddr = rw again-payload refl

serve-IsUnresolved_example : IsUnresolved cfg [] [] (start good) again
serve-IsUnresolved_example =
    serve-IsUnresolved cfg [] [] (start good) 0 good start-IsRouted unknown again-IsRouted
      again_daddr

route_echo : (get_prefix table (ip_daddr echo)).prefix ≢ 0
unfolding get_prefix insert pcom.Trie.insert_from pcom.Trie.store_at_end pcom.Trie.or_new new_trie
    pcom.Trie.next_match pcom.Trie.is_null
route_echo = omega arith

is_echo : is_echo_for_router cfg (start echo) echo ≡ true
unfolding is_echo_for_router inet_aton
is_echo = refl

serve_reply_example :
    (p : List ℕ) × (serve cfg [] (start echo) ≡ record {
      state = record (start echo) { m = packet p };
      frames = record { interface = 0; bytes = take 42 p } ∷ [];
    })
    × IsEchoed echo p
serve_reply_example =
    serve_reply cfg [] (start echo) echo-IsAccepted (omega arith) route_echo is_echo

-- A packet for an unknown destination comes in, and then an ARP reply.
abbrev arrivals : List Arrival
arrivals = record { interface = 0; bytes = good; memory = [] } ∷ []

abbrev answered : State
answered = holding cfg (packet good) arrivals 1 arp_answer

answered-payload : answered.m.payload ≡ arp_answer
unfolding run boot receive serve patch slice pcom.TrieRouter.serve_ipv4 pcom.TrieRouter.transmit
    htons header_sum clear_check pcom.Checksum.ip_checksum get_prefix insert pcom.Trie.insert_from
    pcom.Trie.store_at_end pcom.Trie.or_new new_trie pcom.Trie.next_match pcom.Trie.is_null
    is_echo_for_router find
answered-payload = refl

answered_is_arp : ether_type answered.m.payload ≡ htons ethertype_arp
unfolding htons
answered_is_arp = rw answered-payload refl

answered_is_reply : arp_op answered.m.payload ≡ htons 2
unfolding htons
answered_is_reply = rw answered-payload refl

serve-flush_example : serve cfg [] answered ≡ record {
  state = record answered { arp_table = learned answered; q = [] };
  frames = released_all cfg (learned answered) answered.q;
}
serve-flush_example =
    serve-flush cfg (packet good) arrivals [] 1 arp_answer answered_is_arp answered_is_reply
