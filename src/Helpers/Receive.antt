-- ===== src/Helpers/Receive.antt =====
-- What is received is what was read, in order and without a gap.
use pcom.Prelude.{ℕ, List, [], ◌∷◌, ◌++◌, ◌≡◌, Option, some}
use pcom.Buffer.{Buffer}
use pcom.Helpers.{Received, response}

-- The stream ends, and no read before its end fails.
pub data Ends : List (Option (List ℕ)) → Type 0 where
  eof : {reads : List (Option (List ℕ))} → Ends (some [] ∷ reads)
  before :
      {c : ℕ} {chunk : List ℕ} {reads : List (Option (List ℕ))}
      → Ends reads
      → Ends (some (c ∷ chunk) ∷ reads)

-- The same, and a second read at the end gives the end again.
pub data Closes : List (Option (List ℕ)) → Type 0 where
  here : {reads : List (Option (List ℕ))} → Closes (some [] ∷ (some [] ∷ reads))
  later :
      {c : ℕ} {chunk : List ℕ} {reads : List (Option (List ℕ))}
      → Closes reads
      → Closes (some (c ∷ chunk) ∷ reads)

-- `got` is what some first of the reads gave, one after the other.
pub data IsRead : List (Option (List ℕ)) → List ℕ → Type 0 where
  stop : {reads : List (Option (List ℕ))} → IsRead reads []
  more :
      {chunk got : List ℕ} {reads : List (Option (List ℕ))}
      → IsRead reads got
      → IsRead (some chunk ∷ reads) (chunk ++ got)

-- The answer is what the buffer holds, then what some of the reads give, then a NUL.
pub record Answers (reads : List (Option (List ℕ))) (held : List ℕ) (r : Received) : Type 0 where
  pub got : List ℕ
  pub read : IsRead reads got
  pub is_response : r ≡ response ((held ++ got) ++ (0 ∷ []))
