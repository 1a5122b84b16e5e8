-- ===== src/Tests/Tables.antt =====
-- The theorems on checksums, hardware addresses and tables at concrete inputs.
use pcom.Prelude.{
  if◌then◌else◌, ◌==◌, ℕ, ◌<◌, List, [], ◌∷◌, ◌++◌, ◌≡◌, ◌≢◌, inl, inr, refl, arith, none, some,
}
use pcom.Bytes.{slice}
use pcom.Text.{bytes_of}
use pcom.Checksum.{htons, ip_checksum}
use pcom.Checksum.Rfc.{rfc_checksum, be_sum}
use pcom.Checksum.Header.{ip_checksum-eq-rfc}
use pcom.Hwaddr.{ok, hwaddr_aton}
use pcom.Hwaddr.Laws.{print_hwaddr, hwaddr_aton-print, HasNul}
use pcom.Routes.{Entry, comparator, found, missing, masked, get_best_route}
use pcom.Routes.Search.{Found, get_best_route-Found}
use pcom.Routes.Order.{get_best_route_complete}
use pcom.Arp.{ArpEntry, get_arp_entry, add_arp_entry}
use pcom.Frames.{Packet}
use pcom.Router.{header_sum, ip_daddr}
use pcom.Router.Header.{IsPayload}
use pcom.Forwarder.{Round, next, undefined, Best, best_route, row, serve_packet}
use pcom.Forwarder.Longest.{IsBest, best_route-IsBest}
use pcom.Forwarder.Serve.{serve_packet-null}

abbrev header : List ℕ
header = 69 ∷ 0 ∷ 0 ∷ 28 ∷ 0 ∷ 1 ∷ 0 ∷ 0 ∷ 64 ∷ 17 ∷ 0 ∷ 0 ∷ 10 ∷ 0 ∷ 0 ∷ 9 ∷ 192 ∷ 168 ∷ 1 ∷ 2 ∷ []

ip_checksum-eq-rfc_example :
    ip_checksum 2 header ≡ (if be_sum header == 0 then 0 else htons (rfc_checksum header))
ip_checksum-eq-rfc_example = ip_checksum-eq-rfc 2 header (omega arith) (omega arith) (omega arith)

positive : 0 < be_sum header
unfolding be_sum
positive = omega arith

abbrev mac : List ℕ
mac = 2 ∷ 0 ∷ 171 ∷ 0 ∷ 255 ∷ 16 ∷ []

hwaddr_aton-print_example : hwaddr_aton (print_hwaddr mac ++ (0 ∷ [])) ≡ ok mac
hwaddr_aton-print_example = hwaddr_aton-print mac (0 ∷ []) refl (omega arith)

abbrev short_text : List ℕ
short_text = bytes_of "00:1f:" ++ (0 ∷ [])

short-HasNul : HasNul short_text
short-HasNul = inr (inr (inr (inr (inr (inr (inl refl))))))

-- Two rows with one mask, and a wider row in front of a narrower one.
abbrev row_of : ℕ → ℕ → ℕ → Entry
row_of prefix mask interface = record {
  prefix = prefix;
  next_hop = prefix;
  mask = mask;
  interface = interface;
}

abbrev one_mask : List Entry
one_mask = row_of 174272 16777215 1 ∷ (row_of 108736 16777215 2 ∷ [])

no_match : get_best_route one_mask 17017024 ≡ missing
unfolding get_best_route pcom.Routes.search_route pcom.Routes.probe
no_match = refl

get_best_route-Found_example : Found one_mask 151103680 (get_best_route one_mask 151103680)
get_best_route-Found_example = get_best_route-Found one_mask 151103680

get_best_route_complete_example : masked 17017024 (row_of 108736 16777215 2) ≢ 108736
unfolding comparator
get_best_route_complete_example =
    get_best_route_complete one_mask 17017024 16777215 (omega arith) ((tt, tt), (tt, tt))
      (refl, (refl, tt)) no_match 1 (row_of 108736 16777215 2) refl

abbrev nested : List Entry
nested = row_of 43200 65535 1 ∷ (row_of 108736 16777215 2 ∷ [])

abbrev arp_row : ℕ → ArpEntry
arp_row ip = record { ip = ip; mac = mac }

added_row : add_arp_entry (arp_row 7 ∷ []) (arp_row 9) ≡ some (arp_row 7 ∷ (arp_row 9 ∷ []))
unfolding add_arp_entry
added_row = refl

best_route-IsBest_example :
    (best : Best) × (best_route nested 151103680 ≡ best.id) × IsBest nested 151103680 2 best
best_route-IsBest_example = best_route-IsBest nested 151103680

abbrev packet : Packet
packet = record {
  len = 42;
  payload =
      2 ∷ 0 ∷ 0 ∷ 0 ∷ 0 ∷ 1 ∷ 2 ∷ 0 ∷ 0 ∷ 0 ∷ 0 ∷ 9 ∷ 8 ∷ 0 ∷ 69 ∷ 0 ∷ 0 ∷ 28 ∷ 0 ∷ 1 ∷ 0 ∷ 0 ∷ 64
      ∷ 17 ∷ 175 ∷ 29 ∷ 10 ∷ 0 ∷ 0 ∷ 9 ∷ 192 ∷ 168 ∷ 1 ∷ 2 ∷ 1 ∷ 0 ∷ 0 ∷ 0 ∷ 0 ∷ 0 ∷ 0 ∷ 0 ∷ [];
  interface = 0;
}

packet-IsPayload : IsPayload packet.payload
packet-IsPayload = record { holds = omega arith; bytes = omega arith }

verifies : header_sum packet.payload ≡ 0
unfolding header_sum slice ip_checksum
verifies = refl

abbrev hosts : List ArpEntry
hosts = arp_row 33663168 ∷ []

to_row : row nested (best_route nested (ip_daddr packet.payload)) ≡ some (row_of 108736 16777215 2)
unfolding row best_route pcom.Forwarder.best_loop pcom.Forwarder.consider
to_row = refl

known_host : get_arp_entry hosts (ip_daddr packet.payload) ≡ some (arp_row 33663168)
unfolding get_arp_entry
known_host = refl

no_row : row [] (best_route [] (ip_daddr packet.payload)) ≡ none
unfolding row best_route pcom.Forwarder.best_loop
no_row = refl

serve_packet-null_example : serve_packet [] hosts packet ≡ undefined
serve_packet-null_example = serve_packet-null [] hosts packet verifies (omega arith) (inl no_row)
