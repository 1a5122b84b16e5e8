-- ===== src/Transfer.antt =====
-- The file transfer of laboratory 6: Lab06/client.c sends a file in datagrams, and Lab06/server.c
-- writes what it receives until a datagram says that all is done.
pub mod Whole
use pcom.Prelude.{ℕ, List, [], ◌∷◌, ◌++◌, Bool, true, false, if◌then◌else◌, take, length}
use pcom.Bytes.{patch}
use pcom.Text.{bytes_of, starts_with}

-- The loop of the client over the results of `read`, the last of which is 0, and the closing word
-- with its NUL: the datagrams, in order.
unfoldable pub send_file : (chunks : List (List ℕ)) → List (List ℕ)
send_file [] = (bytes_of "DONE" ++ (0 ∷ [])) ∷ []
send_file ([] ∷ chunks) = (bytes_of "DONE" ++ (0 ∷ [])) ∷ []
send_file ((c ∷ chunk) ∷ chunks) = (c ∷ chunk) ∷ send_file chunks

-- What the server has written to the file, and whether it has seen the closing word.
pub record Received : Type 0 where
  pub file : List ℕ
  pub closed : Bool

abbrev pub written : List ℕ → Received → Received
written bytes rest = record rest { file = bytes ++ rest.file }

-- The loop of the server over the datagrams that arrive: of each, `recvfrom` gives what fits into
-- `buf`, which keeps the bytes of earlier ones behind it.
unfoldable pub receive_file : (buf : List ℕ) → (datagrams : List (List ℕ)) → Received
receive_file buf [] = record { file = []; closed = false }
receive_file buf (datagram ∷ datagrams) =
    let bytes = take (length buf) datagram in
    let buf' = patch buf 0 bytes in
    let rest = receive_file buf' datagrams in
    if starts_with (bytes_of "DONE") buf'
    then record { file = []; closed = true }
    else written bytes rest
