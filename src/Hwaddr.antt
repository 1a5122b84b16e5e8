-- ===== src/Hwaddr.antt =====
-- `hex2num`, `hex2byte` and `hwaddr_aton` of Teme/Tema1/skel.c. A C string is the list of its
-- bytes with the terminating zero; what lies behind the list is out of the string's memory.
pub mod Laws
use pcom.Prelude.{
  ℕ, zero, suc, ◌+◌, ◌-◌, ◌*◌, List, [], ◌∷◌, Bool, ◌&&◌, Option, none, some, leb, ◌==◌,
  if◌then◌else◌,
}

-- `bad` is the return value -1, `overrun` a read behind the string.
pub data Parsed {ℓ} (A : Type ℓ) : Type ℓ where
  ok : A → Parsed A
  bad overrun : Parsed A

infixl 5 ◌>>=◌
abbrev pub ◌>>=◌ {ℓ κ} : {A : Type ℓ} {B : Type κ} → Parsed A → (A → Parsed B) → Parsed B
ok a >>= f = f a
bad >>= f = bad
overrun >>= f = overrun

unfoldable pub hex2num : ℕ → Option ℕ
hex2num c =
    if leb b'0' c && leb c b'9'
    then some (c - b'0')
    else if leb b'a' c && leb c b'f'
    then some (c - b'a' + 10)
    else if leb b'A' c && leb c b'F'
    then some (c - b'A' + 10)
    else none

-- `hex2num(*txt++)`
unfoldable pub next_digit : List ℕ → Parsed (ℕ × List ℕ)
unfolding hex2num
next_digit [] = overrun
next_digit (c ∷ txt) = elim (hex2num c) [ some d ↦ ok (d, txt) | none ↦ bad ]

-- `(a << 4) | b` of two digits is a sum.
unfoldable pub hex2byte : List ℕ → Parsed (ℕ × List ℕ)
hex2byte txt = do (a, txt1) ← next_digit txt; (b, txt2) ← next_digit txt1; ok (a * 16 + b, txt2)

-- `if (i < 5 && *txt++ != ':') return -1;`, with `left` rounds after this one.
unfoldable pub separator : ℕ → List ℕ → Parsed (List ℕ)
separator zero txt = ok txt
separator (suc left) [] = overrun
separator (suc left) (c ∷ txt) = if c == b':' then ok txt else bad

-- The loop over `i`, with the rounds that are left; the bytes are those stored through `addr`.
unfoldable pub hwaddr_loop : ℕ → List ℕ → Parsed (List ℕ)
hwaddr_loop zero txt = ok []
hwaddr_loop (suc left) txt = do
  (byte, txt1) ← hex2byte txt
  txt2 ← separator left txt1
  rest ← hwaddr_loop left txt2
  ok (byte ∷ rest)

unfoldable pub hwaddr_aton : List ℕ → Parsed (List ℕ)
hwaddr_aton txt = hwaddr_loop 6 txt
