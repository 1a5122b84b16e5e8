-- ===== src/Exchange.antt =====
-- The file exchange of laboratory 2: Lab02/send.c announces the size of the file `send.txt` and sends
-- it in messages, and Lab02/recv.c reads that many bytes.
pub mod Size
pub mod Whole
use pcom.Prelude.{
  ℕ, List, [], ◌∷◌, suc, ◌++◌, Option, none, some, Bool, true, false, if◌then◌else◌, ℤ, pos, negsuc,
  ◌+ℤ◌, neg_ℤ, ◌==◌, take, length,
}
use pcom.Text.{bytes_of}
use pcom.Scan.{scan_word, scan_int}
use pcom.Client.Messages.{decimal}

-- `snprintf(t.payload, 12, "%s %d", SEND_FILE_NAME, inputFileSize)`: at most eleven characters.
unfoldable pub announce : (size : ℕ) → List ℕ
announce size = take 11 (bytes_of "send.txt " ++ decimal (pos size))

-- `while ((bufferSize = read(inputFile, t.payload, MAX_LEN - 1)))` over the results of `read`: `none`
-- is a failure, after which the sender reads on, and an empty result ends the loop.
unfoldable pub send_pieces : (reads : List (Option (List ℕ))) → List (List ℕ)
send_pieces [] = []
send_pieces (none ∷ reads) = send_pieces reads
send_pieces (some [] ∷ reads) = []
send_pieces (some (c ∷ piece) ∷ reads) = (c ∷ piece) ∷ send_pieces reads

-- The messages of the sender, which only prints what becomes of the replies.
unfoldable pub send_messages : (size : ℕ) → (reads : List (Option (List ℕ))) → List (List ℕ)
send_messages size reads = announce size ∷ send_pieces reads

-- What the receiver has written and how often it has sent `ACK`, and whether it came to its end.
pub record Received : Type 0 where
  pub file : List ℕ
  pub acks : ℕ
  pub ended : Bool

abbrev pub acknowledged : List ℕ → Received → Received
acknowledged piece rest = record {
  file = piece ++ rest.file;
  acks = suc rest.acks;
  ended = rest.ended;
}

unfoldable pub is_zero : ℤ → Bool
is_zero (pos n) = n == 0
is_zero (negsuc n) = false

-- `while (outputFileSize)`, where the messages that are left are the pieces.
unfoldable pub receive_pieces : (output_file_size : ℤ) → (pieces : List (List ℕ)) → Received
receive_pieces output_file_size [] = record {
  file = [];
  acks = 0;
  ended = is_zero output_file_size;
}
receive_pieces output_file_size (piece ∷ pieces) =
    let rest = receive_pieces (output_file_size +ℤ neg_ℤ (pos (length piece))) pieces in
    if is_zero output_file_size
    then record { file = []; acks = 0; ended = true }
    else acknowledged piece rest

-- `sscanf(r.payload, "%s %d", inputFileName, &outputFileSize)`: `none` leaves the size unwritten.
unfoldable pub scan_number : Option (ℤ × List ℕ) → Option ℤ
scan_number none = none
scan_number (some (size, rest)) = some size

unfoldable pub scan_size_from : Option (List ℕ × List ℕ) → Option ℤ
scan_size_from none = none
scan_size_from (some (name, rest)) = scan_number (scan_int rest)

unfoldable pub scan_size : (payload : List ℕ) → Option ℤ
scan_size payload = scan_size_from (scan_word payload)

unfoldable pub receive_sized : Option ℤ → (pieces : List (List ℕ)) → Option Received
receive_sized none pieces = none
receive_sized (some size) pieces = some (acknowledged [] (receive_pieces size pieces))

-- The receiver; `none` is a size that was not written, or no message at all.
unfoldable pub receive_messages : List (List ℕ) → Option Received
receive_messages [] = none
receive_messages (header ∷ pieces) = receive_sized (scan_size header) pieces
