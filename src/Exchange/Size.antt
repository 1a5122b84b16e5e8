-- ===== src/Exchange/Size.antt =====
-- The size that the receiver reads from the announcement, and what follows from it.
use pcom.Prelude.{
  ℕ, ◌+◌, ◌*◌, ◌/◌, ◌%◌, ◌≤◌, ◌<◌, dec_lt, List, [], ◌∷◌, ◌++◌, some, ◌≡◌, refl, ap, arith, pos,
}
use pcom.Text.{bytes_of}
use pcom.Scan.{
  scan_word, split_word, word_or_end, is_space, skip_spaces, scan_int, scan_signed, scan_unsigned,
  signed, scan_digits,
}
use pcom.Client.Messages.{digits, decimal}
use pcom.Exchange.{announce, scan_number, scan_size_from, scan_size}

-- `%d` of one and of two digits.
scan_one : (a : ℕ) → a < 10 → scan_int (32 ∷ (48 + a) ∷ []) ≡ some (pos a, [])
unfolding scan_int skip_spaces is_space scan_signed scan_unsigned signed scan_digits
scan_one a h = ground arith

scan_two :
    (a b : ℕ)
    → a < 10
    → b < 10
    → scan_int (32 ∷ (48 + a) ∷ (48 + b) ∷ []) ≡ some (pos (a * 10 + b), [])
unfolding scan_int skip_spaces is_space scan_signed scan_unsigned signed scan_digits
scan_two a b h k = ground arith

-- The digits of a number below 1000.
digits_one : (n : ℕ) → n < 10 → decimal (pos n) ≡ (48 + n) ∷ []
unfolding decimal digits
digits_one n h = ground arith

digits_two : (n : ℕ) → 10 ≤ n → n < 100 → decimal (pos n) ≡ (48 + n / 10) ∷ (48 + n % 10) ∷ []
unfolding decimal digits
digits_two n h k = ground arith

digits_three :
    (n : ℕ)
    → 100 ≤ n
    → n < 1000
    → decimal (pos n) ≡ (48 + n / 10 / 10) ∷ (48 + n / 10 % 10) ∷ (48 + n % 10) ∷ []
unfolding decimal digits
digits_three n h k = ground arith

-- The name is read as it stands, and the number behind it.
scan_announced :
    (digits : List ℕ)
    → scan_size (bytes_of "send.txt " ++ digits) ≡ scan_number (scan_int (32 ∷ digits))
unfolding scan_size scan_size_from scan_word split_word word_or_end is_space skip_spaces
scan_announced digits = refl

-- A size of one or two digits is read back.
pub scan_size-announce : (size : ℕ) → size < 100 → scan_size (announce size) ≡ some (pos size)
unfolding announce scan_number
scan_size-announce size h = elim (dec_lt size 10) [
  | yes k ↦ rw (digits_one size k, scan_announced, scan_one size k) refl
  | no k ↦
      rw
        (
          digits_two size (omega arith) h,
          scan_announced,
          scan_two (size / 10) (size % 10) (ground arith) (ground arith),
        )
        (ap (λ n. some (pos n)) (ground arith))
]

-- Of a size of three digits the last one is lost.
pub scan_size_cut :
    (size : ℕ) → 100 ≤ size → size < 1000 → scan_size (announce size) ≡ some (pos (size / 10))
unfolding announce scan_number
scan_size_cut size h k =
    rw
      (
        digits_three size h k,
        scan_announced,
        scan_two (size / 10 / 10) (size / 10 % 10) (ground arith) (ground arith),
      )
      (ap (λ n. some (pos n)) (ground arith))
