-- ===== src/Hwaddr/Laws.antt =====
-- Parsing a hardware address: round trip, range of the result, and no read behind the string.
use pcom.Prelude.{
  ℕ, zero, suc, ◌+◌, ◌-◌, ◌/◌, ◌%◌, ◌<◌, List, [], ◌∷◌, ◌++◌, ◌≡◌, ◌≢◌, ◌⊎◌, inl, inr, refl, ap,
  arith, some, ltb, if◌then◌else◌, length, All, Option-cases,
}
use pcom.Hwaddr.{
  Parsed, ok, bad, overrun, ◌>>=◌, hex2num, next_digit, hex2byte, separator, hwaddr_loop,
  hwaddr_aton,
}

-- The printed form of an address: lower-case digits, the bytes separated by colons.
abbrev hex_digit : ℕ → ℕ
hex_digit d = if ltb d 10 then b'0' + d else b'a' + (d - 10)

abbrev pub print_hwaddr : List ℕ → List ℕ
print_hwaddr [] = []
print_hwaddr (b ∷ []) = hex_digit (b / 16) ∷ hex_digit (b % 16) ∷ []
print_hwaddr (b ∷ c ∷ mac) = hex_digit (b / 16) ∷ hex_digit (b % 16) ∷ b':' ∷ print_hwaddr (c ∷ mac)

hex2num-hex_digit : (d : ℕ) → d < 16 → hex2num (hex_digit d) ≡ some d
unfolding hex2num
hex2num-hex_digit d h = ground arith

next_digit-hex_digit :
    (d : ℕ) (rest : List ℕ) → d < 16 → next_digit (hex_digit d ∷ rest) ≡ ok (d, rest)
unfolding next_digit
next_digit-hex_digit d rest h = ground (arith, hex2num-hex_digit d h)

hex2byte-print :
    (b : ℕ) (rest : List ℕ)
    → b < 256
    → hex2byte (hex_digit (b / 16) ∷ hex_digit (b % 16) ∷ rest) ≡ ok (b, rest)
unfolding hex2byte
hex2byte-print b rest h =
    rw
      (next_digit-hex_digit (b / 16) _ (omega arith), next_digit-hex_digit (b % 16) _ (omega arith))
      (ap (λ (n : ℕ). ok (n, rest)) (omega arith))

hwaddr_loop-print :
    (mac rest : List ℕ)
    → All (λ b. b < 256) mac
    → hwaddr_loop (length mac) (print_hwaddr mac ++ rest) ≡ ok mac
unfolding hwaddr_loop separator
hwaddr_loop-print [] rest h = refl
hwaddr_loop-print (b ∷ []) rest h = rw (hex2byte-print b rest h.0)
hwaddr_loop-print (b ∷ c ∷ mac) rest h =
    rw (hex2byte-print b _ h.0) (rw (hwaddr_loop-print (c ∷ mac) rest h.1, hwaddr_loop) refl)

-- Whatever follows it, the printed form of a hardware address is read back.
pub hwaddr_aton-print :
    (mac rest : List ℕ)
    → length mac ≡ 6
    → All (λ b. b < 256) mac
    → hwaddr_aton (print_hwaddr mac ++ rest) ≡ ok mac
unfolding hwaddr_aton
hwaddr_aton-print mac rest l h = rw (← l) (hwaddr_loop-print mac rest h)

-- The parser did not leave the string, and what it returned satisfies `P`.
abbrev pub Outcome {ℓ} : {A : Type ℓ} → (A → Type 0) → Parsed A → Type 0
Outcome P (ok a) = P a
Outcome P bad = Unit
Outcome P overrun = ⊥

bind {ℓ κ} :
    {A : Type ℓ} {B : Type κ} (P : A → Type 0) (Q : B → Type 0) (m : Parsed A) (f : A → Parsed B)
    → Outcome P m
    → ((a : A) → P a → Outcome Q (f a))
    → Outcome Q (m >>= f)
bind P Q (ok a) f h k = k a h
bind P Q bad f h k = tt
bind P Q overrun f h k = absurd h

-- The bytes hold the terminating zero of a C string.
abbrev pub HasNul : List ℕ → Type 0
HasNul [] = ⊥
HasNul (c ∷ txt) = (c ≡ 0) ⊎ HasNul txt

-- A number below `n`, and a string that still ends.
abbrev Below : ℕ → ℕ × List ℕ → Type 0
Below n (d, rest) = (d < n) × HasNul rest

hex2num-lt : (c d : ℕ) → hex2num c ≡ some d → (d < 16) × (c ≢ 0)
unfolding hex2num
hex2num-lt c d e = ground arith

next_digit-Outcome : (txt : List ℕ) → HasNul txt → Outcome (Below 16) (next_digit txt)
unfolding next_digit
next_digit-Outcome [] h = h
next_digit-Outcome (c ∷ txt) h = elim (Option-cases (hex2num c)) [
  | inl e ↦ rw (e, Outcome, next_digit) tt
  | inr (d, e) ↦ rw (e, Outcome, next_digit) (ground (arith, hex2num-lt c d e))
]

hex2byte-Outcome : (txt : List ℕ) → HasNul txt → Outcome (Below 256) (hex2byte txt)
unfolding hex2byte
hex2byte-Outcome txt h =
    bind (Below 16) (Below 256) (next_digit txt) _ (next_digit-Outcome txt h) λ (a, txt1) p.
      bind (Below 16) (Below 256) (next_digit txt1) _ (next_digit-Outcome txt1 p.1)
        λ (b, txt2) q. (omega arith, q.1)

separator-Outcome : (left : ℕ) (txt : List ℕ) → HasNul txt → Outcome HasNul (separator left txt)
unfolding separator
separator-Outcome zero txt h = h
separator-Outcome (suc left) [] h = h
separator-Outcome (suc left) (c ∷ txt) h = ground arith

abbrev pub IsHwaddr : ℕ → List ℕ → Type 0
IsHwaddr n mac = (length mac ≡ n) × All (λ b. b < 256) mac

hwaddr_loop-Outcome :
    (left : ℕ) (txt : List ℕ) → HasNul txt → Outcome (IsHwaddr left) (hwaddr_loop left txt)
unfolding hwaddr_loop
hwaddr_loop-Outcome zero txt h = (refl, tt)
hwaddr_loop-Outcome (suc left) txt h =
    bind (Below 256) (IsHwaddr (suc left)) (hex2byte txt) _ (hex2byte-Outcome txt h) λ (b, txt1) p.
      bind HasNul (IsHwaddr (suc left)) (separator left txt1) _ (separator-Outcome left txt1 p.1)
        λ txt2 q.
          bind (IsHwaddr left) (IsHwaddr (suc left)) (hwaddr_loop left txt2) _
            (hwaddr_loop-Outcome left txt2 q) λ mac r. (ap suc r.0, (p.0, r.1))

-- On a terminated string `hwaddr_aton` reads nothing behind it, and what it accepts is six bytes.
pub hwaddr_aton-Outcome : (txt : List ℕ) → HasNul txt → Outcome (IsHwaddr 6) (hwaddr_aton txt)
unfolding hwaddr_aton
hwaddr_aton-Outcome txt h = hwaddr_loop-Outcome 6 txt h
