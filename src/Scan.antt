-- ===== src/Scan.antt =====
-- What `sscanf` does with `%s` and `%d`, and the equality of strings.
use mathlib.Core.Path.{ap₂}
use pcom.Prelude.{
  ℕ, ◌+◌, ◌-◌, ◌*◌, List, [], ◌∷◌, Option, none, some, Bool, true, false, ℤ, pos, neg_ℤ, leb, ◌==◌,
  ◌&&◌, ◌||◌, if◌then◌else◌, ◌≡◌, refl, arith, ==→eq,
}
use pcom.Assoc.{IsTest}

-- `a == b` of two strings.
unfoldable pub same_text : (a b : List ℕ) → Bool
same_text [] [] = true
same_text [] (d ∷ b) = false
same_text (c ∷ a) [] = false
same_text (c ∷ a) (d ∷ b) = (c == d) && same_text a b

same_text_refl : (a : List ℕ) → same_text a a ≡ true
unfolding same_text
same_text_refl [] = refl
same_text_refl (c ∷ a) = ground (arith, same_text_refl a)

same_text→eq : (a b : List ℕ) → same_text a b ≡ true → a ≡ b
unfolding same_text
same_text→eq [] [] h = refl
same_text→eq [] (d ∷ b) h = absurd (ground arith)
same_text→eq (c ∷ a) [] h = absurd (ground arith)
same_text→eq (c ∷ a) (d ∷ b) h =
    ap₂ ◌∷◌ (==→eq c d (ground arith)) (same_text→eq a b (ground arith))

pub same_text-IsTest : IsTest same_text
same_text-IsTest = record { same_refl = same_text_refl; same→eq = same_text→eq }

-- The text of an array up to its first NUL.
unfoldable pub c_text : List ℕ → List ℕ
c_text [] = []
c_text (c ∷ cs) = let rest = c_text cs in if c == 0 then [] else c ∷ rest

-- `isspace`
unfoldable pub is_space : ℕ → Bool
is_space c = (c == 32) || (leb 9 c && leb c 13)

unfoldable pub skip_spaces : List ℕ → List ℕ
skip_spaces [] = []
skip_spaces (c ∷ cs) = let rest = skip_spaces cs in if is_space c then rest else c ∷ cs

-- The characters up to the next space, and what follows.
unfoldable pub split_word : List ℕ → List ℕ × List ℕ
split_word [] = ([], [])
split_word (c ∷ cs) =
    let rest = split_word cs in if is_space c then ([], c ∷ cs) else (c ∷ rest.0, rest.1)

unfoldable pub word_or_end : List ℕ × List ℕ → Option (List ℕ × List ℕ)
word_or_end ([], rest) = none
word_or_end (c ∷ word, rest) = some (c ∷ word, rest)

-- `%s`: the word and what follows it, or the end of the input.
unfoldable pub scan_word : List ℕ → Option (List ℕ × List ℕ)
scan_word text = word_or_end (split_word (skip_spaces text))

-- The digits at the start, as a number behind `acc`.
unfoldable pub scan_digits : (acc : ℕ) → List ℕ → ℕ × List ℕ
scan_digits acc [] = (acc, [])
scan_digits acc (c ∷ cs) =
    let rest = scan_digits (acc * 10 + (c - 48)) cs in
    if leb 48 c && leb c 57 then rest else (acc, c ∷ cs)

unfoldable pub scan_unsigned : List ℕ → Option (ℕ × List ℕ)
scan_unsigned [] = none
scan_unsigned (c ∷ cs) = if leb 48 c && leb c 57 then some (scan_digits 0 (c ∷ cs)) else none

unfoldable pub signed : Bool → Option (ℕ × List ℕ) → Option (ℤ × List ℕ)
signed negative none = none
signed true (some (n, rest)) = some (neg_ℤ (pos n), rest)
signed false (some (n, rest)) = some (pos n, rest)

unfoldable pub scan_signed : List ℕ → Option (ℤ × List ℕ)
scan_signed [] = none
scan_signed (c ∷ cs) =
    if c == 45
    then signed true (scan_unsigned cs)
    else if c == 43
    then signed false (scan_unsigned cs)
    else signed false (scan_unsigned (c ∷ cs))

-- `%d`: the number and what follows it, where the input has one.
unfoldable pub scan_int : List ℕ → Option (ℤ × List ℕ)
scan_int text = scan_signed (skip_spaces text)
