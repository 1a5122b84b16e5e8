-- ===== src/Subscriber.antt =====
-- The subscriber of Teme/Tema2/subscriber.cpp: what it makes of the server's bytes and of a line of
-- its input.
pub mod Framing
use pcom.Prelude.{
  ℕ, zero, suc, ◌+◌, ◌-◌, List, [], ◌∷◌, ◌++◌, Option, none, some, length, Bool, true, false, ltb,
  ◌==◌, ◌&&◌, if◌then◌else◌,
}
use pcom.Text.{bytes_of, starts_with}
use pcom.Scan.{c_text}

-- The loop over `recv(sockTCP, &buf[bufPtr], 1, 0)`, with `room` bytes of `buf` left: the bytes read
-- into `buf`, and the rest of the stream. The stream is over where the server has closed it.
unfoldable pub receive_line : (buf_ptr room : ℕ) → (stream : List ℕ) → List ℕ × List ℕ
receive_line buf_ptr zero stream = ([], stream)
receive_line buf_ptr (suc room) [] = ([], [])
receive_line buf_ptr (suc room) (c ∷ stream) =
    let rest = receive_line (buf_ptr + 1) room stream in
    if ltb 0 buf_ptr && (c == 10) then (c ∷ [], stream) else (c ∷ rest.0, rest.1)

-- `MAX_LEN`
abbrev pub max_len : ℕ
max_len = 1600

-- What a round does: it ends the loop after a word to the user, prints, or sends a command and tells
-- the user. `overread` is `printf` of an array without a NUL.
pub data Step : Type 0 where
  ends : (told : List ℕ) → Step
  prints : (text : List ℕ) → Step
  sends : (command told : List ℕ) → Step
  idle : Step
  overread : Step

-- The branch of the socket, on the bytes in `buf`.
unfoldable pub show : (buf : List ℕ) → Step
show buf =
    if starts_with (bytes_of ";ID_EXISTS;") buf
    then ends (bytes_of "ID already exists\n")
    else if starts_with (bytes_of ";EXIT;") buf
    then ends []
    else if ltb (length (c_text buf)) max_len
    then prints (c_text buf)
    else overread

-- The branch of the standard input, on the line in `buf`.
unfoldable pub obey : (buf : List ℕ) → Step
obey buf =
    if starts_with (bytes_of "subscribe") buf
    then sends buf (bytes_of "Subscribed to topic.\n")
    else if starts_with (bytes_of "unsubscribe") buf
    then sends buf (bytes_of "Unsubscribed from topic.\n")
    else if starts_with (bytes_of "exit") buf
    then ends []
    else idle

unfoldable pub put_before : (text : List ℕ) → Option (List (List ℕ)) → Option (List (List ℕ))
put_before text none = none
put_before text (some shown) = some (text ∷ shown)

unfoldable pub and_print : Step → Option (List (List ℕ)) → Option (List (List ℕ))
and_print (ends told) shown = some []
and_print (prints text) shown = put_before text shown
and_print (sends command told) shown = shown
and_print idle shown = shown
and_print overread shown = none

-- `rounds` rounds of the loop in which the socket has something to read: the texts printed, or `none`
-- after a read behind `buf`.
unfoldable pub listen : (rounds : ℕ) → (stream : List ℕ) → Option (List (List ℕ))
listen zero stream = some []
listen (suc rounds) stream =
    let line = receive_line 0 max_len stream in
    let shown = listen rounds line.1 in and_print (show line.0) shown
