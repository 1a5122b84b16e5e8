-- ===== src/Relay.antt =====
-- The server of laboratory 8 (Lab08/server.c): a message that begins with the number of a socket is
-- sent on to it. `clients` is `read_fds` without the socket that listens.
pub mod Letters
use pcom.Prelude.{
  ℕ, ◌-◌, List, [], ◌∷◌, ◌++◌, Bool, true, false, if◌then◌else◌, leb, ◌==◌, ◌&&◌, ◌||◌, not,
}
use pcom.Scan.{c_text}

-- What `select` reports: `accept` gives a socket, or `recv` gives a text, which is empty when the
-- client has closed.
pub data Event : Type 0 where
  connection : (newsockfd : ℕ) → Event
  received : (i : ℕ) → (buffer : List ℕ) → Event

-- A call of `send`.
pub record Sent : Type 0 where
  pub client_no : ℕ
  pub text : List ℕ

-- The server goes on, or a call has failed and `DIE` has ended it; with what was sent.
pub data Outcome : Type 0 where
  next : (clients : List ℕ) → (sent : List Sent) → Outcome
  died : (sent : List Sent) → Outcome

unfoldable pub is_open : (clients : List ℕ) → ℕ → Bool
is_open [] i = false
is_open (c ∷ clients) i = (c == i) || is_open clients i

-- `FD_CLR`
unfoldable pub fd_clr : ℕ → List ℕ → List ℕ
fd_clr i [] = []
fd_clr i (c ∷ clients) = let rest = fd_clr i clients in if c == i then rest else c ∷ rest

-- The text behind the number and the character after it, `buffer + 2`.
unfoldable pub behind_number : List ℕ → List ℕ
behind_number [] = []
behind_number (c ∷ []) = []
behind_number (c ∷ d ∷ text) = c_text text

-- The message of a client. `send` fails where the number is no open connection.
unfoldable pub relay : (clients : List ℕ) → (first : ℕ) → (buffer : List ℕ) → Outcome
relay clients first buffer =
    if leb 52 first && leb first 57
    then (if is_open clients (first - 48)
        then next clients (record { client_no = first - 48; text = behind_number buffer } ∷ [])
        else died [])
    else next clients []

unfoldable pub handle : (clients : List ℕ) → Event → Outcome
handle clients (connection newsockfd) = next (clients ++ (newsockfd ∷ [])) []
handle clients (received i []) = next (fd_clr i clients) []
handle clients (received i (c ∷ buffer)) = relay clients c (c ∷ buffer)

abbrev pub sent_before : List Sent → Outcome → Outcome
sent_before sent (next clients more) = next clients (sent ++ more)
sent_before sent (died more) = died (sent ++ more)

-- The loop of `main`.
unfoldable pub run : (clients : List ℕ) → (events : List Event) → Outcome
run clients [] = next clients []
run clients (event ∷ events) = elim (handle clients event) [
  | next clients' sent ↦ sent_before sent (run clients' events)
  | died sent ↦ died sent
]
