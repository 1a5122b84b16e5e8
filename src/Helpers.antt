-- ===== src/Helpers.antt =====
-- The exchange with the server of Teme/Tema3/helpers.c: a message is written whole, an answer read
-- up to the length that its header gives. The socket is the list of what its calls return.
pub mod Send
pub mod Receive
use pcom.Prelude.{
  ℕ, suc, ◌+◌, ◌-◌, ◌%◌, ◌^◌, List, [], ◌∷◌, ◌++◌, Option, none, some, Bool, true, false, ltb, ◌==◌,
  if◌then◌else◌, ℤ, pos, negsuc, length, take, drop, min,
}
use pcom.Text.{bytes_of, strstr}
use pcom.Buffer.{Buffer, bytes, buffer_init, buffer_add, buffer_find, buffer_find_insensitive}

-- `compute_message`
unfoldable pub compute_message : (message line : List ℕ) → List ℕ
compute_message message line = (message ++ line) ++ (13 ∷ 10 ∷ [])

-- `delivered` holds the bytes that the socket took; `died` is the exit of `error`; `waiting` is a
-- call of `write` that has not returned.
pub data Sent : Type 0 where
  delivered : List ℕ → Sent
  died waiting : Sent

-- The `do` loop: each answer is what `write` returns, `none` for a negative number. It takes no
-- more than it is given.
unfoldable pub send_loop : List (Option ℕ) → (message : List ℕ) → (sent : ℕ) → Sent
send_loop [] message sent = waiting
send_loop (none ∷ answers) message sent = died
send_loop (some answer ∷ answers) message sent =
    let bytes = min answer (length message - sent) in
    let rest = send_loop answers message (sent + bytes) in
    if bytes == 0
    then delivered (take sent message)
    else if ltb (sent + bytes) (length message)
    then rest
    else delivered (take (sent + bytes) message)

-- `send_to_server`
unfoldable pub send_to_server : List (Option ℕ) → List ℕ → Sent
send_to_server answers message = send_loop answers message 0

-- What `receive_from_server` returns; `read_failed` is the exit of `error`, `blocked` a call of
-- `read` that has not returned.
pub data Received : Type 0 where
  response : List ℕ → Received
  read_failed blocked : Received

-- `buffer_add(&buffer, "", 1); return buffer.data;`
unfoldable pub finish : Buffer → Received
finish b = response (bytes (buffer_add b (0 ∷ [])))

-- `while (buffer.size < total)`: each of `reads` is what `read` gives, `none` for an error and the
-- empty list at the end of the stream.
unfoldable pub drain : (total : ℕ) → List (Option (List ℕ)) → Buffer → Received
drain total [] b = if ltb b.size total then blocked else finish b
drain total (none ∷ reads) b = if ltb b.size total then read_failed else finish b
drain total (some [] ∷ reads) b = finish b
drain total (some (c ∷ chunk) ∷ reads) b =
    let rest = drain total reads (buffer_add b (c ∷ chunk)) in
    if ltb b.size total then rest else finish b

-- An `int` as a `size_t`.
unfoldable pub size_t : ℤ → ℕ
size_t (pos n) = n % 2 ^ 64
size_t (negsuc n) = 2 ^ 64 - 1 - n % 2 ^ 64

abbrev pub header_terminator : List ℕ
header_terminator = 13 ∷ 10 ∷ 13 ∷ 10 ∷ []

abbrev pub content_length_name : List ℕ
content_length_name = bytes_of "Content-Length: "

-- `strtol` and `tolower` are the C library's; the number is the `int` that it is stored in.
module _ (strtol : List ℕ → ℤ) (tolower : ℕ → ℕ) where
  -- `size_t total = content_length + (size_t) header_end;` and the second loop.
  unfoldable pub read_rest :
      (content_length header_end : ℤ) → List (Option (List ℕ)) → Buffer → Received
  read_rest content_length header_end reads b =
      drain ((size_t content_length + size_t header_end) % 2 ^ 64) reads b

  -- The header's end is found: `found` is what the search for the length returned.
  unfoldable pub read_length :
      (header_end found : ℤ) → List (Option (List ℕ)) → Buffer → Received → Received
  read_length header_end (negsuc n) reads b again = again
  read_length header_end (pos start) reads b again =
      read_rest (strtol (drop (start + length content_length_name) (bytes b))) header_end reads b

  -- After a chunk: has the header ended? `again` is the next round of the first loop, for the
  -- value of `header_end` that it starts with.
  unfoldable pub read_header : ℤ → List (Option (List ℕ)) → Buffer → (ℤ → Received) → Received
  read_header (negsuc n) reads b again = again (negsuc n)
  read_header (pos end) reads b again =
      let header_end = pos (end + length header_terminator) in
      read_length header_end (buffer_find_insensitive tolower b content_length_name) reads b
        (again header_end)

  -- The first loop.
  unfoldable pub await : List (Option (List ℕ)) → (header_end : ℤ) → Buffer → Received
  await [] header_end b = blocked
  await (none ∷ reads) header_end b = read_failed
  await (some [] ∷ reads) header_end b = read_rest (pos 0) header_end reads b
  await (some (c ∷ chunk) ∷ reads) header_end b =
      let b' = buffer_add b (c ∷ chunk) in
      read_header (buffer_find b' header_terminator) reads b' (λ end. await reads end b')

  -- `receive_from_server`
  unfoldable pub receive_from_server : List (Option (List ℕ)) → Received
  receive_from_server reads = await reads (pos 0) buffer_init

-- `basic_extract_json_response`
unfoldable pub basic_extract_json_response : List ℕ → Option (List ℕ)
basic_extract_json_response str = elim (strstr str (bytes_of "{\"")) [
  | none ↦ none
  | some i ↦ some (drop i str)
]
