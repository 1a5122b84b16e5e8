-- ===== src/Tests/Pings.antt =====
-- The loop of `traceroute` at two hops.
use pcom.Prelude.{pos, ℕ, List, [], ◌∷◌, ◌++◌, ◌≡◌, refl, arith, true, replicate}
use pcom.Bytes.{patch, slice}
use pcom.Checksum.{htons}
use pcom.Scan.{same_text}
use pcom.Ping.{Host, relevant_packet, traceroute}
use pcom.Ping.Trace.{Arrives, answer, Hops, target, hop, traceroute-Hops}

abbrev mac : List ℕ
mac = 2 ∷ 0 ∷ 0 ∷ 0 ∷ 0 ∷ 1 ∷ []

abbrev host : Host
host = record { mac = mac; ip = 16777226; gateway_mac = 2 ∷ 0 ∷ 0 ∷ 0 ∷ 0 ∷ 9 ∷ []; pid = 7 }

-- An ICMP message of the given type, up to its type.
abbrev frame : ℕ → List ℕ
frame = λ type.
    mac ++ (replicate 6 0 ++ (8 ∷ 0 ∷ (replicate 9 0 ++ (1 ∷ (replicate 10 0 ++ (type ∷ []))))))

abbrev buffer : List ℕ
buffer = replicate 40 0

first : Arrives host buffer (frame 11 ∷ []) (patch buffer 0 (frame 11))
unfolding relevant_packet patch slice same_text htons
first = answer refl

second :
    Arrives host
      (patch buffer 0 (frame 11))
      (frame 0 ∷ [])
      (patch (patch buffer 0 (frame 11)) 0 (frame 0))
unfolding relevant_packet patch slice same_text htons
second = answer refl

two-Hops : Hops host 2 buffer (frame 11 ∷ frame 0 ∷ []) ((pos 2, 0) ∷ (pos 3, 0) ∷ [])
unfolding patch
two-Hops = hop first refl (target second refl)

traceroute-Hops_example :
    ((traceroute 5 host 9 2 [] buffer (frame 11 ∷ frame 0 ∷ [])).shown
      ≡ (pos 2, 0) ∷ (pos 3, 0) ∷ [])
    × ((traceroute 5 host 9 2 [] buffer (frame 11 ∷ frame 0 ∷ [])).ended ≡ true)
traceroute-Hops_example = traceroute-Hops host 9 5 [] [] two-Hops (omega arith) (omega arith)
