-- ===== src/Frames/Icmp.antt =====
-- What `send_icmp` and `send_icmp_error` put on the wire: one frame with headers that verify.
use pcom.Prelude.{ℕ, ◌^◌, ◌<◌, List, [], ◌∷◌, ◌≡◌, refl, arith, length}
use pcom.Bytes.{load8, load16, load32, patch, slice}
use pcom.Checksum.{htons, ip_checksum, icmp_checksum}
use pcom.Checksum.Rfc.{AllBytes}
use pcom.Checksum.Header.{ip_checksum-patch}
use pcom.Frames.{
  Frame, icmp_iphdr, icmp_icmphdr, checked_iphdr, checked_icmphdr, build_ethhdr, send_icmp,
  send_icmp_error, ethertype_ip,
}

icmp_iphdr-AllBytes : (daddr saddr : ℕ) → AllBytes (icmp_iphdr daddr saddr)
unfolding icmp_iphdr htons
icmp_iphdr-AllBytes daddr saddr = omega arith

pub checked_iphdr-verifies :
    (offset daddr saddr : ℕ) → offset < 4 → ip_checksum offset (checked_iphdr daddr saddr) ≡ 0
unfolding checked_iphdr icmp_iphdr htons
checked_iphdr-verifies offset daddr saddr o =
    ip_checksum-patch 0 offset (icmp_iphdr daddr saddr) (omega arith) o
      (icmp_iphdr-AllBytes daddr saddr) (omega arith) (omega arith) refl

pub checked_icmphdr-verifies :
    (type code id seq : ℕ) → icmp_checksum (checked_icmphdr type code id seq) 8 ≡ 0
unfolding checked_icmphdr icmp_checksum icmp_icmphdr patch
checked_icmphdr-verifies type code id seq = omega arith

-- The six bytes of a hardware address.
pub six_bytes :
    (mac : List ℕ) → length mac ≡ 6 → (a b c d e f : ℕ) × (mac ≡ a ∷ b ∷ c ∷ d ∷ e ∷ f ∷ [])
six_bytes [] h = absurd (omega arith)
six_bytes (a ∷ []) h = absurd (omega arith)
six_bytes (a ∷ b ∷ []) h = absurd (omega arith)
six_bytes (a ∷ b ∷ c ∷ []) h = absurd (omega arith)
six_bytes (a ∷ b ∷ c ∷ d ∷ []) h = absurd (omega arith)
six_bytes (a ∷ b ∷ c ∷ d ∷ e ∷ []) h = absurd (omega arith)
six_bytes (a ∷ b ∷ c ∷ d ∷ e ∷ f ∷ []) h = (a, b, c, d, e, f, refl)
six_bytes (a ∷ b ∷ c ∷ d ∷ e ∷ f ∷ g ∷ mac) h = absurd (omega arith)

-- One message to `to` from `from`: addresses, type, and both checksums right.
pub record IsMessage (daddr saddr : ℕ) (sha dha : List ℕ) (type code interface : ℕ) (frame : Frame)
    : Type 0 where
  pub interface_is : frame.interface ≡ interface
  pub length_is : length frame.bytes ≡ 42
  pub dhost : slice frame.bytes 0 6 ≡ dha
  pub shost : slice frame.bytes 6 6 ≡ sha
  pub is_ip : load16 frame.bytes 12 ≡ htons ethertype_ip
  pub protocol : load8 frame.bytes 23 ≡ 1
  pub destination : load32 frame.bytes 30 ≡ daddr
  pub source : load32 frame.bytes 26 ≡ saddr
  pub header : (offset : ℕ) → offset < 4 → ip_checksum offset (slice frame.bytes 14 20) ≡ 0
  pub type_is : load8 frame.bytes 34 ≡ type
  pub code_is : load8 frame.bytes 35 ≡ code
  pub message : icmp_checksum (slice frame.bytes 34 8) 8 ≡ 0

pub send_icmp-IsMessage :
    (daddr saddr : ℕ) (sha dha : List ℕ) (type code interface id seq : ℕ)
    → daddr < 2 ^ 32
    → saddr < 2 ^ 32
    → length sha ≡ 6
    → length dha ≡ 6
    → type < 256
    → code < 256
    → IsMessage daddr saddr sha dha type code interface
        (send_icmp daddr saddr sha dha type code interface id seq)
unfolding send_icmp slice patch build_ethhdr checked_iphdr checked_icmphdr icmp_iphdr icmp_icmphdr
    htons
send_icmp-IsMessage daddr saddr sha dha type code interface id seq hd hs ls ld ht hc =
    let (s0, s1, s2, s3, s4, s5, es) = six_bytes sha ls in
    let (d0, d1, d2, d3, d4, d5, ed) = six_bytes dha ld in
    rw (es, ed)
      (record {
        interface_is = refl;
        length_is = refl;
        dhost = refl;
        shost = refl;
        is_ip = refl;
        protocol = refl;
        destination = omega arith;
        source = omega arith;
        header = λ offset o. checked_iphdr-verifies offset daddr saddr o;
        type_is = omega arith;
        code_is = omega arith;
        message = checked_icmphdr-verifies type code id seq;
      })

-- The two functions build the same message, but for the identifier and the sequence number.
pub send_icmp_error-eq :
    (daddr saddr : ℕ) (sha dha : List ℕ) (type code interface : ℕ)
    → send_icmp_error daddr saddr sha dha type code interface
      ≡ send_icmp daddr saddr sha dha type code interface 0 0
unfolding send_icmp send_icmp_error
send_icmp_error-eq daddr saddr sha dha type code interface = refl

pub send_icmp_error-IsMessage :
    (daddr saddr : ℕ) (sha dha : List ℕ) (type code interface : ℕ)
    → daddr < 2 ^ 32
    → saddr < 2 ^ 32
    → length sha ≡ 6
    → length dha ≡ 6
    → type < 256
    → code < 256
    → IsMessage daddr saddr sha dha type code interface
        (send_icmp_error daddr saddr sha dha type code interface)
send_icmp_error-IsMessage daddr saddr sha dha type code interface hd hs ls ld ht hc =
    rw (send_icmp_error-eq daddr saddr sha dha type code interface)
      (send_icmp-IsMessage daddr saddr sha dha type code interface 0 0 hd hs ls ld ht hc)
