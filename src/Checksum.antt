-- ===== src/Checksum.antt =====
-- The Internet checksum routines of Teme/Tema1/skel.c, over the bytes of the header.
pub mod Fold
pub mod Blocks
pub mod Rfc
pub mod Store
pub mod Header
use mathlib.Core.WellFounded.{Acc}
use pcom.Prelude.{
  ℕ, zero, suc, ◌+◌, ◌-◌, ◌*◌, ◌/◌, ◌%◌, ◌^◌, ◌<◌, List, [], ◌∷◌, ◌++◌, min, arith, dec_lt, dite,
  ◌==◌, if◌then◌else◌, length, get_or, take, drop, replicate, lt_wf,
}

-- `htons` of a little-endian host: the two bytes change places.
unfoldable pub htons : ℕ → ℕ
htons x = x % 256 * 256 + x / 256

-- `memcpy(&word, data, 4)` into a zeroed word, then `ntohl(word)`.
unfoldable pub load_be : List ℕ → ℕ
load_be bs = get_or bs 0 0 * 2 ^ 24 + get_or bs 1 0 * 2 ^ 16 + get_or bs 2 0 * 2 ^ 8 + get_or bs 3 0

-- `acc += ntohl(word)` on a `uint64_t`.
unfoldable pub accumulate : ℕ → List ℕ → ℕ
unfolding load_be
accumulate acc bs = (acc + load_be bs) % 2 ^ 64

-- The complete 32-bit blocks, then the partial block at the end.
unfoldable pub sum_blocks : ℕ → List ℕ → ℕ
sum_blocks acc (a ∷ b ∷ c ∷ d ∷ rest) = sum_blocks (accumulate acc (a ∷ b ∷ c ∷ d ∷ [])) rest
sum_blocks acc [] = acc
sum_blocks acc (a ∷ []) = accumulate acc (a ∷ [])
sum_blocks acc (a ∷ b ∷ []) = accumulate acc (a ∷ b ∷ [])
sum_blocks acc (a ∷ b ∷ c ∷ []) = accumulate acc (a ∷ b ∷ c ∷ [])

-- The partial block at the start, where `offset` is the address modulo 4.
unfoldable pub sum_aligned : ℕ → List ℕ → ℕ
sum_aligned offset bytes =
    if offset == 0
    then sum_blocks 0xffff bytes
    else (let count = min (4 - offset) (length bytes) in
        sum_blocks (accumulate 0xffff (replicate offset 0 ++ take count bytes)) (drop count bytes))

-- `while (acc >> 16) acc = (acc & 0xffff) + (acc >> 16);`
unfoldable pub fold_carries : (acc : ℕ) → Acc ◌<◌ acc → ℕ
fold_carries acc (Acc.intro _ smaller) =
    dite (dec_lt 0xffff acc)
      (λ h. fold_carries (acc % 2 ^ 16 + acc / 2 ^ 16) (smaller _ (omega arith))) (λ _. acc)

-- The deferred carries: one fold of the upper half, then the loop.
unfoldable pub deferred_carries : ℕ → ℕ
unfolding fold_carries lt_wf dec_lt
deferred_carries acc =
    let folded = acc % 2 ^ 32 + acc / 2 ^ 32 in fold_carries folded (lt_wf.apply folded)

-- `((acc & 0xff00) >> 8) | ((acc & 0x00ff) << 8)`
unfoldable pub swap_bytes : ℕ → ℕ
swap_bytes acc = acc / 256 % 256 + acc % 256 * 256

-- `ip_checksum(vdata, length)` for `length` bytes at an address that is `offset` modulo 4. The
-- complement is that of a `uint64_t`, cut to 16 bits by the argument of `htons`.
unfoldable pub ip_checksum : ℕ → List ℕ → ℕ
unfolding sum_aligned sum_blocks accumulate deferred_carries swap_bytes htons
ip_checksum offset bytes =
    let acc = deferred_carries (sum_aligned offset bytes) in
    let acc' = if offset % 2 == 1 then swap_bytes acc else acc in
    htons ((2 ^ 64 - 1 - acc') % 2 ^ 16)

-- `*(unsigned short *) buffer` on a little-endian host.
unfoldable pub load_le : List ℕ → ℕ
load_le bs = get_or bs 0 0 + get_or bs 1 0 * 256

-- The loop of `icmp_checksum`; an odd `size` reads one byte past it, as the source does.
unfoldable pub icmp_sum : ℕ → ℕ → List ℕ → ℕ
unfolding load_le
icmp_sum cksum zero bytes = cksum
icmp_sum cksum (suc zero) bytes = (cksum + load_le bytes) % 2 ^ 64
icmp_sum cksum (suc (suc size)) bytes =
    icmp_sum ((cksum + load_le bytes) % 2 ^ 64) size (drop 2 bytes)

-- `icmp_checksum(buffer, size)`
unfoldable pub icmp_checksum : List ℕ → ℕ → ℕ
unfolding icmp_sum
icmp_checksum bytes size =
    let cksum = icmp_sum 0 size bytes in
    let once = (cksum / 2 ^ 16 + cksum % 2 ^ 16) % 2 ^ 64 in
    let twice = (once + once / 2 ^ 16) % 2 ^ 64 in (2 ^ 64 - 1 - twice) % 2 ^ 16
