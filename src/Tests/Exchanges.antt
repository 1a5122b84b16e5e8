-- ===== src/Tests/Exchanges.antt =====
-- A file of eleven bytes in two messages, and one of a hundred bytes.
use pcom.Prelude.{
  pos, ℕ, List, [], ◌∷◌, Option, none, some, ◌≡◌, arith, true, false, replicate, length,
}
use pcom.Text.{bytes_of}
use pcom.Exchange.{announce, scan_size, send_messages, receive_messages}
use pcom.Exchange.Whole.{
  ReadsOf, end_of_file, failed, piece_then, receive_messages-send_messages, receive_messages_waits,
}

abbrev content : List ℕ
content = bytes_of "hello world"

abbrev reads : List (Option (List ℕ))
reads = some (bytes_of "hello ") ∷ none ∷ some (bytes_of "world") ∷ some [] ∷ []

reads-ReadsOf : ReadsOf content reads
reads-ReadsOf = piece_then (failed (piece_then end_of_file))

receive_messages-send_messages_example :
    receive_messages (send_messages 11 reads)
    ≡ some (record { file = content; acks = length (send_messages 11 reads); ended = true })
receive_messages-send_messages_example = receive_messages-send_messages reads-ReadsOf (omega arith)

receive_messages_waits_example :
    (scan_size (announce 100) ≡ some (pos 10))
    × (receive_messages (send_messages 100 (some (replicate 100 65) ∷ some [] ∷ []))
        ≡ some (record { file = replicate 100 65; acks = 2; ended = false }))
receive_messages_waits_example =
    receive_messages_waits 65 (replicate 99 65) (omega arith) (omega arith)
