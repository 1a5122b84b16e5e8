-- ===== src/Tests/Transfers.antt =====
-- A file of two pieces, and one that breaks off.
use pcom.Prelude.{ℕ, List, [], ◌∷◌, ◌≡◌, refl, arith, true, replicate}
use pcom.Bytes.{patch}
use pcom.Text.{bytes_of, starts_with}
use pcom.Transfer.{send_file, receive_file}
use pcom.Transfer.Whole.{ArePieces, pieces_nil, pieces_cons, receive_file-send_file}

abbrev chunks : List (List ℕ)
chunks = bytes_of "hello " ∷ bytes_of "world" ∷ []

chunks-ArePieces : ArePieces (replicate 20 0) chunks
unfolding patch starts_with
chunks-ArePieces = pieces_cons (omega arith) refl (pieces_cons (omega arith) refl pieces_nil)

receive_file-send_file_example :
    receive_file (replicate 20 0) (send_file chunks)
    ≡ record { file = bytes_of "hello world"; closed = true }
receive_file-send_file_example = receive_file-send_file chunks-ArePieces (omega arith)

-- The end of the second piece is still in the buffer when the last one, "DO", comes in.
broken_off :
    receive_file (replicate 20 0) (send_file (bytes_of "AWNEST" ∷ bytes_of "DO" ∷ []))
    ≡ record { file = bytes_of "AWNEST"; closed = true }
unfolding receive_file send_file patch starts_with
broken_off = refl
