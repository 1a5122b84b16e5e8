-- ===== src/Client/Loop.antt =====
-- The `while` loop of Teme/Tema3/client.c: which command a line is, and what it reads and does.
use pcom.Prelude.{ℕ, zero, suc, ◌++◌, List, [], ◌∷◌, Bool, true, false, ◌&&◌, if◌then◌else◌, ℤ}
use pcom.Text.{bytes_of, starts_with, strip_newline}
use pcom.Client
use pcom.Client.{Session, Notice, unknown_command, Round, next, leave, undefined}

-- A command with the texts that it reads, where it reads them at all.
pub data Command : Type 0 where
  exit_command enter_command list_command logout_command unknown : Command
  register_command login_command : (name pass : List ℕ) → Command
  get_command delete_command : (id : List ℕ) → Command
  add_command : (title author genre publisher page_count : List ℕ) → Command
  starved : Command

-- The `strncmp` chain, in its order.
pub data Word : Type 0 where
  exit register login enter_library get_books get_book add_book delete_book logout other : Word

unfoldable pub word_of : List ℕ → Word
word_of input =
    if starts_with (bytes_of "exit") input
    then exit
    else if starts_with (bytes_of "register") input
    then register
    else if starts_with (bytes_of "login") input
    then login
    else if starts_with (bytes_of "enter_library") input
    then enter_library
    else if starts_with (bytes_of "get_books") input
    then get_books
    else if starts_with (bytes_of "get_book") input
    then get_book
    else if starts_with (bytes_of "add_book") input
    then add_book
    else if starts_with (bytes_of "delete_book") input
    then delete_book
    else if starts_with (bytes_of "logout") input
    then logout
    else other

-- The texts that `fgets` reads after the command; `starved` is an array read before it was written,
-- when the input ends. A session that is refused reads none.
unfoldable pub read_command : (allowed : Bool) → Word → List (List ℕ) → Command × List (List ℕ)
read_command allowed exit lines = (exit_command, lines)
read_command allowed register (name ∷ (pass ∷ lines)) =
    (register_command (strip_newline name) (strip_newline pass), lines)
read_command allowed register lines = (starved, [])
read_command allowed login (name ∷ (pass ∷ lines)) =
    (login_command (strip_newline name) (strip_newline pass), lines)
read_command allowed login lines = (starved, [])
read_command allowed enter_library lines = (enter_command, lines)
read_command allowed get_books lines = (list_command, lines)
read_command true get_book (id ∷ lines) = (get_command (strip_newline id), lines)
read_command true get_book [] = (starved, [])
read_command false get_book lines = (get_command [], lines)
read_command true add_book (title ∷ (author ∷ (genre ∷ (publisher ∷ (page_count ∷ lines))))) = (
  add_command (strip_newline title) (strip_newline author) (strip_newline genre)
      (strip_newline publisher) (strip_newline page_count),
  lines,
)
read_command true add_book lines = (starved, [])
read_command false add_book lines = (add_command [] [] [] [] [], lines)
read_command true delete_book (id ∷ lines) = (delete_command (strip_newline id), lines)
read_command true delete_book [] = (starved, [])
read_command false delete_book lines = (delete_command [], lines)
read_command allowed logout lines = (logout_command, lines)
read_command allowed other lines = (unknown, lines)

-- The requests and notices of a first part put before those of the rest.
unfoldable pub glue : List (List ℕ) → List Notice → Round → Round
glue sent notices (next s sent' notices') = next s (sent ++ sent') (notices ++ notices')
glue sent notices leave = leave
glue sent notices undefined = undefined

-- A round and what follows it.
unfoldable pub follow : Round → (Session → Round) → Round
follow (next s sent notices) rest = glue sent notices (rest s)
follow leave rest = leave
follow undefined rest = undefined

module _ (atoi : List ℕ → ℤ) (server : List ℕ → List ℕ) where
  -- The branch of a command.
  unfoldable pub perform : Session → Command → Round
  perform s exit_command = leave
  perform s (register_command name pass) = pcom.Client.register server s name pass
  perform s (login_command name pass) = pcom.Client.login server s name pass
  perform s enter_command = pcom.Client.enter_library server s
  perform s list_command = pcom.Client.get_books server s
  perform s (get_command id) = pcom.Client.get_book server s id
  perform s (add_command title author genre publisher page_count) =
      pcom.Client.add_book atoi server s title author genre publisher page_count
  perform s (delete_command id) = pcom.Client.delete_book server s id
  perform s logout_command = pcom.Client.logout server s
  perform s unknown = next s [] (unknown_command ∷ [])
  perform s starved = undefined

  -- What a run leaves: the session, all requests sent and all that was printed. It stops where the
  -- lines end; fuel bounds the rounds, and as many as lines are enough.
  unfoldable pub run_client : ℕ → Session → List (List ℕ) → Round
  run_client zero s lines = next s [] []
  run_client (suc fuel) s [] = next s [] []
  run_client (suc fuel) s (input ∷ lines) =
      let (command, rest) = read_command (s.logged_in && s.jwt_access) (word_of input) lines in
      follow (perform s command) (λ s'. run_client fuel s' rest)
