-- ===== src/Frames.antt =====
-- The frames that Teme/Tema1/skel.c builds and sends: `send_packet`, `send_icmp`, `send_icmp_error`
-- and `send_arp`, with the header layouts on a little-endian host.
pub mod Icmp
pub mod Arp
use pcom.Prelude.{
  ℕ, Option, none, some, ◌==◌, if◌then◌else◌, ◌%◌, ◌^◌, ◌*◌, ◌+◌, List, [], ◌∷◌, ◌++◌, take,
}
use pcom.Bytes.{load8, load16, le16, le32, patch, slice}
use pcom.Checksum.{htons, ip_checksum, icmp_checksum}

-- `packet`
pub record Packet : Type 0 where
  pub len : ℕ
  pub payload : List ℕ
  pub interface : ℕ

-- What `write` is given: the interface and the bytes.
pub record Frame : Type 0 where
  pub interface : ℕ
  pub bytes : List ℕ

-- `send_packet`
unfoldable pub send_packet : ℕ → Packet → Frame
send_packet interface m = record { interface = interface; bytes = take m.len m.payload }

abbrev pub ethertype_arp : ℕ
ethertype_arp = 0x0806

abbrev pub ethertype_ip : ℕ
ethertype_ip = 0x0800

-- `build_ethhdr`
unfoldable pub build_ethhdr : (sha dha : List ℕ) → ℕ → List ℕ
build_ethhdr sha dha type = dha ++ (sha ++ le16 type)

-- The `struct iphdr` of an ICMP message, its `check` still 0: version 4, five words, no options.
unfoldable pub icmp_iphdr : (daddr saddr : ℕ) → List ℕ
icmp_iphdr daddr saddr =
    0x45
    ∷ 0
    ∷ (le16 (htons 28)
        ++ (le16 (htons 1) ++ (le16 0 ++ (64 ∷ 1 ∷ (le16 0 ++ (le32 saddr ++ le32 daddr))))))

-- The `struct icmphdr`, its `checksum` still 0.
unfoldable pub icmp_icmphdr : (type code id seq : ℕ) → List ℕ
icmp_icmphdr type code id seq = type % 256 ∷ code % 256 ∷ (le16 0 ++ (le16 id ++ le16 seq))

-- `ip_hdr.check = ip_checksum(&ip_hdr, …)` on the stack, where the header is aligned.
unfoldable pub checked_iphdr : (daddr saddr : ℕ) → List ℕ
checked_iphdr daddr saddr =
    let header = icmp_iphdr daddr saddr in patch header 10 (le16 (ip_checksum 0 header))

unfoldable pub checked_icmphdr : (type code id seq : ℕ) → List ℕ
checked_icmphdr type code id seq =
    let header = icmp_icmphdr type code id seq in patch header 2 (le16 (icmp_checksum header 8))

-- `send_icmp`; `id` and `seq` are cut to 16 bits by the header's fields.
unfoldable pub send_icmp :
    (daddr saddr : ℕ) (sha dha : List ℕ) (type code interface id seq : ℕ) → Frame
send_icmp daddr saddr sha dha type code interface id seq = record {
  interface = interface;
  bytes =
      build_ethhdr sha dha (htons ethertype_ip)
      ++ (checked_iphdr daddr saddr ++ checked_icmphdr type code id seq);
}

-- `send_icmp_error`, whose `un` member is zero by the initialiser.
unfoldable pub send_icmp_error :
    (daddr saddr : ℕ) (sha dha : List ℕ) (type code interface : ℕ) → Frame
send_icmp_error daddr saddr sha dha type code interface = record {
  interface = interface;
  bytes =
      build_ethhdr sha dha (htons ethertype_ip)
      ++ (checked_iphdr daddr saddr ++ checked_icmphdr type code 0 0);
}

-- `send_arp`, where `eth_hdr` is the 14 bytes of the Ethernet header.
unfoldable pub send_arp : (daddr saddr : ℕ) (eth_hdr : List ℕ) (interface arp_op : ℕ) → Frame
send_arp daddr saddr eth_hdr interface arp_op = record {
  interface = interface;
  bytes =
      eth_hdr
      ++ (le16 (htons 1)
          ++ (le16 (htons 2048)
              ++ (6
                  ∷ 4
                  ∷ (le16 arp_op
                      ++ (slice eth_hdr 6 6
                          ++ (le32 saddr ++ (slice eth_hdr 0 6 ++ le32 daddr)))))));
}

-- `parse_arp`: the offset of the ARP header, behind the Ethernet header.
unfoldable pub parse_arp : List ℕ → Option ℕ
parse_arp buffer = if load16 buffer 12 == htons ethertype_arp then some 14 else none

-- `parse_icmp`: the offset of the ICMP header, behind an IP header without options.
unfoldable pub parse_icmp : List ℕ → Option ℕ
parse_icmp buffer =
    if load16 buffer 12 == htons ethertype_ip
    then (if load8 buffer 23 == 1 then some 34 else none)
    else none
