-- ===== src/Transfer/Whole.antt =====
-- A file arrives whole, as long as the server's buffer never begins with the closing word by chance.
use pcom.Prelude.{
  ap, take, zero, suc, ℕ, ◌≤◌, List, [], ◌∷◌, ◌++◌, true, false, ◌≡◌, refl, arith, length,
}
use pcom.Bytes.{patch, length-patch}
use pcom.Text.{bytes_of, starts_with}
use pcom.Transfer.{send_file, receive_file}

-- Pieces of a file that are not empty and fit in the buffer, none of which leaves it with the closing
-- word at its start.
pub data ArePieces : (buf : List ℕ) → (chunks : List (List ℕ)) → Type 0 where
  pieces_nil : {buf : List ℕ} → ArePieces buf []
  pieces_cons :
      {buf chunk : List ℕ} {chunks : List (List ℕ)} {c : ℕ}
      → length (c ∷ chunk) ≤ length buf
      → starts_with (bytes_of "DONE") (patch buf 0 (c ∷ chunk)) ≡ false
      → ArePieces (patch buf 0 (c ∷ chunk)) chunks
      → ArePieces buf ((c ∷ chunk) ∷ chunks)

-- The pieces one after the other.
abbrev pub whole : List (List ℕ) → List ℕ
whole [] = []
whole (chunk ∷ chunks) = chunk ++ whole chunks

take_fits : (n : ℕ) (xs : List ℕ) → length xs ≤ n → take n xs ≡ xs
take_fits zero [] h = refl
take_fits (suc n) [] h = refl
take_fits zero (x ∷ xs) h = absurd (omega arith)
take_fits (suc n) (x ∷ xs) h = ap (λ ys. x ∷ ys) (take_fits n xs (omega arith))

five :
    (buf : List ℕ)
    → 5 ≤ length buf
    → starts_with (bytes_of "DONE") (patch buf 0 (bytes_of "DONE" ++ (0 ∷ []))) ≡ true
unfolding patch starts_with
five [] h = absurd (omega arith)
five (a ∷ []) h = absurd (omega arith)
five (a ∷ b ∷ []) h = absurd (omega arith)
five (a ∷ b ∷ c ∷ []) h = absurd (omega arith)
five (a ∷ b ∷ c ∷ d ∷ []) h = absurd (omega arith)
five (a ∷ b ∷ c ∷ d ∷ e ∷ buf) h = refl

-- Where no datagram is lost or overtaken, a buffer of at least five bytes receives every file whose
-- pieces fit in it and do not make it begin with the closing word: the server writes exactly the file
-- and ends.
pub receive_file-send_file :
    {buf : List ℕ} {chunks : List (List ℕ)}
    → ArePieces buf chunks
    → 5 ≤ length buf
    → receive_file buf (send_file chunks) ≡ record { file = whole chunks; closed = true }
unfolding receive_file send_file
receive_file-send_file (pieces_nil {buf = buf}) h =
    rw (take_fits (length buf) (bytes_of "DONE" ++ (0 ∷ [])) h, five buf h) refl
receive_file-send_file (pieces_cons {buf = buf} {chunk = chunk} {chunks = chunks} {c = c} f n p) h =
    rw
      (
        take_fits (length buf) (c ∷ chunk) f,
        n,
        receive_file-send_file p (omega (arith, length-patch buf 0 (c ∷ chunk))),
      )
      refl
