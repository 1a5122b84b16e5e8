-- ===== src/Frames/Arp.antt =====
-- What `send_arp` puts on the wire.
use pcom.Prelude.{ℕ, ◌^◌, ◌<◌, List, ◌++◌, ◌≡◌, refl, arith, length}
use pcom.Bytes.{load16, load32, le16, slice, slice-add}
use pcom.Checksum.{htons}
use pcom.Frames.{Frame, send_arp, ethertype_arp}
use pcom.Frames.Icmp.{six_bytes}

-- An ARP frame from `saddr` at `sha` to `daddr` at `dha`, in both headers.
pub record IsArp (daddr saddr : ℕ) (sha dha : List ℕ) (op interface : ℕ) (frame : Frame)
    : Type 0 where
  pub interface_is : frame.interface ≡ interface
  pub length_is : length frame.bytes ≡ 42
  pub dhost : slice frame.bytes 0 6 ≡ dha
  pub shost : slice frame.bytes 6 6 ≡ sha
  pub is_arp : load16 frame.bytes 12 ≡ htons ethertype_arp
  pub op_is : load16 frame.bytes 20 ≡ op
  pub sender_mac : slice frame.bytes 22 6 ≡ sha
  pub sender : load32 frame.bytes 28 ≡ saddr
  pub target_mac : slice frame.bytes 32 6 ≡ dha
  pub target : load32 frame.bytes 38 ≡ daddr

-- `eth_hdr` given by its three parts.
send_arp_parts :
    (daddr saddr : ℕ) (sha dha : List ℕ) (interface op : ℕ)
    → daddr < 2 ^ 32
    → saddr < 2 ^ 32
    → op < 2 ^ 16
    → length sha ≡ 6
    → length dha ≡ 6
    → IsArp daddr saddr sha dha op interface
        (send_arp daddr saddr (dha ++ (sha ++ le16 (htons ethertype_arp))) interface op)
unfolding send_arp slice htons
send_arp_parts daddr saddr sha dha interface op hd hs ho ls ld =
    let (s0, s1, s2, s3, s4, s5, es) = six_bytes sha ls in
    let (d0, d1, d2, d3, d4, d5, ed) = six_bytes dha ld in
    rw (es, ed)
      (record {
        interface_is = refl;
        length_is = refl;
        dhost = refl;
        shost = refl;
        is_arp = refl;
        op_is = omega arith;
        sender_mac = refl;
        sender = omega arith;
        target_mac = refl;
        target = omega arith;
      })

pub send_arp-IsArp :
    (daddr saddr : ℕ) (sha dha p : List ℕ) (interface op : ℕ)
    → daddr < 2 ^ 32
    → saddr < 2 ^ 32
    → op < 2 ^ 16
    → length sha ≡ 6
    → length dha ≡ 6
    → slice p 0 6 ≡ dha
    → slice p 6 6 ≡ sha
    → slice p 12 2 ≡ le16 (htons ethertype_arp)
    → IsArp daddr saddr sha dha op interface (send_arp daddr saddr (slice p 0 14) interface op)
send_arp-IsArp daddr saddr sha dha p interface op hd hs ho ls ld e0 e6 e12 =
    rw (slice-add p 0 6 8, slice-add p 6 6 2, e0, e6, e12)
      (send_arp_parts daddr saddr sha dha interface op hd hs ho ls ld)
