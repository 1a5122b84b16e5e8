-- ===== src/Exchange/Whole.antt =====
-- What the receiver has at its end, from the size that was announced.
use pcom.Prelude.{
  ℕ, zero, suc, ◌+◌, ◌/◌, ◌≤◌, ◌<◌, List, [], ◌∷◌, ◌++◌, Option, none, some, true, false, ◌≡◌, refl,
  arith, pos, ◌+ℤ◌, neg_ℤ, length, append-nil, length-append,
}
use pcom.Exchange.{
  announce, scan_size, send_pieces, send_messages, is_zero, receive_pieces, receive_sized,
  receive_messages,
}
use pcom.Exchange.Size.{scan_size-announce, scan_size_cut}

-- What `read` gives of a file: its pieces, which are not empty, in between failures, and at last an
-- empty one.
pub data ReadsOf : (content : List ℕ) → (reads : List (Option (List ℕ))) → Type 0 where
  end_of_file : {reads : List (Option (List ℕ))} → ReadsOf [] (some [] ∷ reads)
  failed :
      {content : List ℕ} {reads : List (Option (List ℕ))}
      → ReadsOf content reads
      → ReadsOf content (none ∷ reads)
  piece_then :
      {c : ℕ} {piece content : List ℕ} {reads : List (Option (List ℕ))}
      → ReadsOf content reads
      → ReadsOf ((c ∷ piece) ++ content) (some (c ∷ piece) ∷ reads)

subtract : (n size : ℕ) → pos (suc n + size) +ℤ neg_ℤ (pos (suc n)) ≡ pos size
subtract n size = ground arith

more_left : (n size : ℕ) → is_zero (pos (suc n + size)) ≡ false
unfolding is_zero
more_left n size = ground arith

receive_pieces-all :
    {content : List ℕ} {reads : List (Option (List ℕ))}
    → ReadsOf content reads
    → receive_pieces (pos (length content)) (send_pieces reads)
      ≡ record { file = content; acks = length (send_pieces reads); ended = true }
unfolding receive_pieces send_pieces is_zero
receive_pieces-all end_of_file = refl
receive_pieces-all (failed p) = receive_pieces-all p
receive_pieces-all (piece_then {c = c} {piece = piece} {content = content} p) =
    rw
      (
        length-append (c ∷ piece) content,
        more_left (length piece) (length content),
        subtract (length piece) (length content),
        receive_pieces-all p,
      )
      refl

-- A file of less than 100 bytes arrives whole: the receiver reads the size that was announced, writes
-- all pieces in order, and ends with one acknowledgement for each message.
pub receive_messages-send_messages :
    {content : List ℕ} {reads : List (Option (List ℕ))}
    → ReadsOf content reads
    → length content < 100
    → receive_messages (send_messages (length content) reads)
      ≡ some (record {
        file = content;
        acks = length (send_messages (length content) reads);
        ended = true;
      })
unfolding receive_messages send_messages receive_sized
receive_messages-send_messages {content = content} {reads = reads} p h =
    rw (scan_size-announce (length content) h, receive_pieces-all p) refl

-- A tenth less the whole.
not_zero : (n : ℕ) → 1 ≤ n → is_zero (pos (n / 10) +ℤ neg_ℤ (pos n)) ≡ false
unfolding is_zero
not_zero zero h = absurd (omega arith)
not_zero (suc n) h = ground arith

tenth : (n : ℕ) → 100 ≤ n → is_zero (pos (n / 10)) ≡ false
unfolding is_zero
tenth n h = ground arith

-- A file of 100 to 999 bytes is announced with a tenth of its size; where one `read` gives it all, it is
-- written, but the receiver does not end: it waits for more messages.
pub receive_messages_waits :
    (c : ℕ) (piece : List ℕ)
    → 100 ≤ length (c ∷ piece)
    → length (c ∷ piece) < 1000
    → (scan_size (announce (length (c ∷ piece))) ≡ some (pos (length (c ∷ piece) / 10)))
      × (receive_messages (send_messages (length (c ∷ piece)) (some (c ∷ piece) ∷ some [] ∷ []))
          ≡ some (record { file = c ∷ piece; acks = 2; ended = false }))
unfolding receive_messages send_messages send_pieces receive_sized receive_pieces
receive_messages_waits c piece h k = (
  scan_size_cut (length (c ∷ piece)) h k,
  (rw
      (
        scan_size_cut (length (c ∷ piece)) h k,
        tenth (length (c ∷ piece)) h,
        not_zero (length (c ∷ piece)) (omega arith),
        append-nil piece,
      )
      refl),
)
