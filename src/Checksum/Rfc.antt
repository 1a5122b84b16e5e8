-- ===== src/Checksum/Rfc.antt =====
-- The ones' complement checksum of RFC 1071, which the routines are compared with.
use pcom.Prelude.{zero, suc, ℕ, ◌+◌, ◌-◌, ◌*◌, ◌%◌, ◌<◌, List, [], ◌∷◌, ◌≡◌, arith, All}

-- The sum of the 16-bit big-endian words, an odd last byte padded by zero.
unfoldable pub be_sum : List ℕ → ℕ
be_sum [] = 0
be_sum (a ∷ []) = a * 256
be_sum (a ∷ b ∷ rest) = a * 256 + b + be_sum rest

-- A sum that carries end-around into 16 bits: only nothing but zeros sums up to zero.
unfoldable pub end_around : ℕ → ℕ
end_around zero = 0
end_around (suc s) = s % 65535 + 1

unfoldable pub rfc_checksum : List ℕ → ℕ
unfolding be_sum end_around
rfc_checksum bytes = 0xffff - end_around (be_sum bytes)

-- The same with 0xffff also for nothing but zeros, as the routines have it.
unfoldable pub carried : ℕ → ℕ
carried s = (s + 65534) % 65535 + 1

unfoldable pub folded_checksum : List ℕ → ℕ
unfolding be_sum carried
folded_checksum bytes = 0xffff - carried (be_sum bytes)

folded_sum : (s : ℕ) → 0 < s → 0xffff - carried s ≡ 0xffff - end_around s
unfolding carried end_around
folded_sum zero h = absurd (omega arith)
folded_sum (suc s) h = omega arith

pub folded_checksum-eq-rfc :
    (bytes : List ℕ) → 0 < be_sum bytes → folded_checksum bytes ≡ rfc_checksum bytes
unfolding folded_checksum rfc_checksum
folded_checksum-eq-rfc bytes h = folded_sum (be_sum bytes) h

abbrev pub AllBytes : List ℕ → Type 0
AllBytes = All (λ b. b < 256)

-- One byte in front turns every word round: 2 ^ 16 is 1 modulo 65535.
pub be_sum-shift : (x : ℕ) (xs : List ℕ) → (256 * be_sum (x ∷ xs)) % 65535 ≡ (x + be_sum xs) % 65535
unfolding be_sum
be_sum-shift x [] = omega arith
be_sum-shift x (y ∷ []) = omega arith
be_sum-shift x (y ∷ z ∷ rest) = omega (arith, be_sum-shift z rest)
