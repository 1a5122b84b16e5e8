-- ===== src/Tests/Packets.antt =====
-- Packets at an interface with the address 10.0.0.1, for the network 192.168.1.0/24.
use pcom.Prelude.{ℕ, List, [], ◌∷◌, refl, arith}
use pcom.Bytes.{patch, slice}
use pcom.Checksum.{htons}
use pcom.Routes.{Quad}
use pcom.Frames.{Packet}
use pcom.Router.{header_sum, clear_check}
use pcom.Router.Ipv4.{IsAccepted}

abbrev pub own_mac : List ℕ
own_mac = 2 ∷ 0 ∷ 0 ∷ 0 ∷ 0 ∷ 1 ∷ []

abbrev pub next_mac : List ℕ
next_mac = 2 ∷ 0 ∷ 0 ∷ 0 ∷ 0 ∷ 7 ∷ []

abbrev pub quad : Quad
quad = record { group3 = 10; group2 = 0; group1 = 0; group0 = 1 }

abbrev pub good : List ℕ
good =
    2 ∷ 0 ∷ 0 ∷ 0 ∷ 0 ∷ 1 ∷ 2 ∷ 0 ∷ 0 ∷ 0 ∷ 0 ∷ 9 ∷ 8 ∷ 0 ∷ 69 ∷ 0 ∷ 0 ∷ 28 ∷ 0 ∷ 1 ∷ 0 ∷ 0 ∷ 64
    ∷ 17 ∷ 175 ∷ 29 ∷ 10 ∷ 0 ∷ 0 ∷ 9 ∷ 192 ∷ 168 ∷ 1 ∷ 2 ∷ 1 ∷ 0 ∷ 0 ∷ 0 ∷ 0 ∷ 0 ∷ 0 ∷ 0 ∷ []

abbrev pub bad : List ℕ
bad =
    2 ∷ 0 ∷ 0 ∷ 0 ∷ 0 ∷ 1 ∷ 2 ∷ 0 ∷ 0 ∷ 0 ∷ 0 ∷ 9 ∷ 8 ∷ 0 ∷ 69 ∷ 0 ∷ 0 ∷ 28 ∷ 0 ∷ 1 ∷ 0 ∷ 0 ∷ 64
    ∷ 17 ∷ 175 ∷ 28 ∷ 10 ∷ 0 ∷ 0 ∷ 9 ∷ 192 ∷ 168 ∷ 1 ∷ 2 ∷ 1 ∷ 0 ∷ 0 ∷ 0 ∷ 0 ∷ 0 ∷ 0 ∷ 0 ∷ []

abbrev pub old : List ℕ
old =
    2 ∷ 0 ∷ 0 ∷ 0 ∷ 0 ∷ 1 ∷ 2 ∷ 0 ∷ 0 ∷ 0 ∷ 0 ∷ 9 ∷ 8 ∷ 0 ∷ 69 ∷ 0 ∷ 0 ∷ 28 ∷ 0 ∷ 1 ∷ 0 ∷ 0 ∷ 1 ∷ 17
    ∷ 238 ∷ 29 ∷ 10 ∷ 0 ∷ 0 ∷ 9 ∷ 192 ∷ 168 ∷ 1 ∷ 2 ∷ 1 ∷ 0 ∷ 0 ∷ 0 ∷ 0 ∷ 0 ∷ 0 ∷ 0 ∷ []

abbrev pub lost : List ℕ
lost =
    2 ∷ 0 ∷ 0 ∷ 0 ∷ 0 ∷ 1 ∷ 2 ∷ 0 ∷ 0 ∷ 0 ∷ 0 ∷ 9 ∷ 8 ∷ 0 ∷ 69 ∷ 0 ∷ 0 ∷ 28 ∷ 0 ∷ 1 ∷ 0 ∷ 0 ∷ 64
    ∷ 17 ∷ 96 ∷ 184 ∷ 10 ∷ 0 ∷ 0 ∷ 9 ∷ 8 ∷ 8 ∷ 8 ∷ 8 ∷ 1 ∷ 0 ∷ 0 ∷ 0 ∷ 0 ∷ 0 ∷ 0 ∷ 0 ∷ []

abbrev pub echo : List ℕ
echo =
    2 ∷ 0 ∷ 0 ∷ 0 ∷ 0 ∷ 1 ∷ 2 ∷ 0 ∷ 0 ∷ 0 ∷ 0 ∷ 9 ∷ 8 ∷ 0 ∷ 69 ∷ 0 ∷ 0 ∷ 28 ∷ 0 ∷ 1 ∷ 0 ∷ 0 ∷ 64 ∷ 1
    ∷ 102 ∷ 215 ∷ 10 ∷ 0 ∷ 0 ∷ 9 ∷ 10 ∷ 0 ∷ 0 ∷ 1 ∷ 8 ∷ 0 ∷ 0 ∷ 0 ∷ 0 ∷ 0 ∷ 0 ∷ 0 ∷ []

abbrev pub arp_ask : List ℕ
arp_ask =
    2 ∷ 0 ∷ 0 ∷ 0 ∷ 0 ∷ 1 ∷ 2 ∷ 0 ∷ 0 ∷ 0 ∷ 0 ∷ 9 ∷ 8 ∷ 6 ∷ 0 ∷ 1 ∷ 8 ∷ 0 ∷ 6 ∷ 4 ∷ 0 ∷ 1 ∷ 2 ∷ 0
    ∷ 0 ∷ 0 ∷ 0 ∷ 7 ∷ 10 ∷ 0 ∷ 0 ∷ 9 ∷ 0 ∷ 0 ∷ 0 ∷ 0 ∷ 0 ∷ 0 ∷ 10 ∷ 0 ∷ 0 ∷ 1 ∷ []

abbrev pub arp_answer : List ℕ
arp_answer =
    2 ∷ 0 ∷ 0 ∷ 0 ∷ 0 ∷ 1 ∷ 2 ∷ 0 ∷ 0 ∷ 0 ∷ 0 ∷ 9 ∷ 8 ∷ 6 ∷ 0 ∷ 1 ∷ 8 ∷ 0 ∷ 6 ∷ 4 ∷ 0 ∷ 2 ∷ 2 ∷ 0
    ∷ 0 ∷ 0 ∷ 0 ∷ 7 ∷ 192 ∷ 168 ∷ 1 ∷ 2 ∷ 0 ∷ 0 ∷ 0 ∷ 0 ∷ 0 ∷ 0 ∷ 10 ∷ 0 ∷ 0 ∷ 1 ∷ []

abbrev pub arp_stranger : List ℕ
arp_stranger =
    2 ∷ 0 ∷ 0 ∷ 0 ∷ 0 ∷ 1 ∷ 2 ∷ 0 ∷ 0 ∷ 0 ∷ 0 ∷ 9 ∷ 8 ∷ 6 ∷ 0 ∷ 1 ∷ 8 ∷ 0 ∷ 6 ∷ 4 ∷ 0 ∷ 2 ∷ 2 ∷ 0
    ∷ 0 ∷ 0 ∷ 0 ∷ 7 ∷ 192 ∷ 168 ∷ 1 ∷ 3 ∷ 0 ∷ 0 ∷ 0 ∷ 0 ∷ 0 ∷ 0 ∷ 10 ∷ 0 ∷ 0 ∷ 1 ∷ []

abbrev pub packet : List ℕ → Packet
packet = λ p. record { len = 42; payload = p; interface = 0 }

pub good-IsAccepted : IsAccepted good
unfolding header_sum clear_check patch slice htons pcom.Checksum.ip_checksum
good-IsAccepted = record {
  payload = record { holds = omega arith; bytes = omega arith };
  ipv4 = refl;
  checked = refl;
}

pub old-IsAccepted : IsAccepted old
unfolding header_sum clear_check patch slice htons pcom.Checksum.ip_checksum
old-IsAccepted = record {
  payload = record { holds = omega arith; bytes = omega arith };
  ipv4 = refl;
  checked = refl;
}

pub lost-IsAccepted : IsAccepted lost
unfolding header_sum clear_check patch slice htons pcom.Checksum.ip_checksum
lost-IsAccepted = record {
  payload = record { holds = omega arith; bytes = omega arith };
  ipv4 = refl;
  checked = refl;
}

pub echo-IsAccepted : IsAccepted echo
unfolding header_sum clear_check patch slice htons pcom.Checksum.ip_checksum
echo-IsAccepted = record {
  payload = record { holds = omega arith; bytes = omega arith };
  ipv4 = refl;
  checked = refl;
}
