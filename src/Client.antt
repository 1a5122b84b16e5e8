-- ===== src/Client.antt =====
-- The session of the library client, Teme/Tema3/client.c: one round of its loop for each command.
-- What the client prints is a `Notice`; the server is a function from requests to answers.
pub mod Messages
pub mod Loop
pub mod Access
pub mod Length
pub mod Run
pub mod Overflow
use pcom.Prelude.{
  ℕ, zero, suc, ◌+◌, ◌-◌, List, [], ◌∷◌, ◌++◌, Option, none, some, Bool, true, false, ltb, leb,
  ◌&&◌, not, if◌then◌else◌, ℤ, length, take, drop,
}
use pcom.Text.{bytes_of, starts_with, strstr, strip_newline}
use pcom.Client.Messages.{
  credentials_message, access_message, books_message, book_message, add_message, delete_message,
  logout_message,
}

-- The variables of `main` that outlive a round. A text is `none` while its array holds no string:
-- before the first copy into it, or after a `strncpy` that found no room for the NUL.
pub record Session : Type 0 where
  pub cookie : Option (List ℕ)
  pub jwt : Option (List ℕ)
  pub jwt_access : Bool
  pub logged_in : Bool

pub data Notice : Type 0 where
  name_taken registered bad_credentials logged not_connected no_library unknown_error entered :
      Notice
  no_such_book deleted bad_data added logged_out unknown_command : Notice
  listing : Option (List ℕ) → Notice

-- A round: the session after it, the requests sent and what was printed; or `return 0`; or
-- undefined behaviour.
pub data Round : Type 0 where
  next : Session → List (List ℕ) → List Notice → Round
  leave undefined : Round

-- `strncpy(to, text, size)` and the array it leaves.
unfoldable pub strncpy : ℕ → List ℕ → Option (List ℕ)
strncpy size text = if ltb (length text) size then some text else none

-- The string at offset `from` once a NUL stands at offset `cut`.
unfoldable pub string_at : List ℕ → (cut from : ℕ) → List ℕ
string_at text cut from =
    if leb from cut then take (cut - from) (drop from text) else drop from text

-- `sprintf` into `message[500]`, and the exchange; `then_do` is what follows.
unfoldable pub talk : (server : List ℕ → List ℕ) → List ℕ → (List ℕ → Round) → Round
talk server message then_do =
    if ltb (length message) 500 then then_do (server message) else undefined

-- `strstr(response, "error")`
unfoldable pub has_error : List ℕ → Bool
has_error response = elim (strstr response (bytes_of "error")) [ none ↦ false | some i ↦ true ]

unfoldable pub register : (List ℕ → List ℕ) → Session → (name pass : List ℕ) → Round
register server s name pass =
    let message = credentials_message (bytes_of "register") name pass in
    talk server message λ response.
      next s (message ∷ []) ((if has_error response then name_taken else registered) ∷ [])

-- The cookie runs from its name, at `start`, to 20 characters before `Date:`, at `end`.
unfoldable pub take_cookie :
    Session → (message response : List ℕ) → (start : ℕ) → (end : Option ℕ) → Round
take_cookie s message response start none = undefined
take_cookie s message response start (some end) =
    if ltb end 20
    then undefined
    else next
        (record s { cookie = strncpy 200 (string_at response (end - 20) start); logged_in = true })
        (message ∷ []) (logged ∷ [])

-- Without a cookie the round ends, and prints nothing.
unfoldable pub find_cookie : Session → (message response : List ℕ) → (start : Option ℕ) → Round
find_cookie s message response none = next s (message ∷ []) []
find_cookie s message response (some start) =
    take_cookie s message response start (strstr response (bytes_of "Date:"))

unfoldable pub login : (List ℕ → List ℕ) → Session → (name pass : List ℕ) → Round
login server s name pass =
    let message = credentials_message (bytes_of "login") name pass in
    talk server message λ response.
      if has_error response
      then next s (message ∷ []) (bad_credentials ∷ [])
      else find_cookie s message response (strstr response (bytes_of "connect.sid"))

-- The token runs from ten characters behind the start of its name, at `start`, to `"}`, at `end`.
unfoldable pub take_token :
    Session → (message response : List ℕ) → (end : ℕ) → (start : Option ℕ) → Round
take_token s message response end none = undefined
take_token s message response end (some start) =
    next (record s { jwt = strncpy 300 (string_at response end (start + 10)); jwt_access = true })
      (message ∷ []) (entered ∷ [])

unfoldable pub find_token : Session → (message response : List ℕ) → (end : Option ℕ) → Round
find_token s message response none = undefined
find_token s message response (some end) =
    take_token s message response end (strstr (take end response) (bytes_of "{\"token\":"))

-- `sprintf` reads an array of the session.
unfoldable pub with_text : Option (List ℕ) → (List ℕ → Round) → Round
with_text none then_do = undefined
with_text (some text) then_do = then_do text

unfoldable pub enter_library : (List ℕ → List ℕ) → Session → Round
enter_library server s =
    if not s.logged_in
    then next s [] (not_connected ∷ [])
    else with_text s.cookie λ cookie.
      let message = access_message cookie in
      talk server message λ response.
        if has_error response
        then next s (message ∷ []) (unknown_error ∷ [])
        else find_token s message response (strstr response (bytes_of "\"}"))

-- `if (loggedIn != 1 || jwtAccess != 1) { … continue; }`
unfoldable pub guarded : Session → Notice → Round → Round
guarded s refusal allowed =
    if s.logged_in && s.jwt_access then allowed else next s [] (refusal ∷ [])

-- A request of the session and the two notices that its answer can have.
unfoldable pub ask :
    (List ℕ → List ℕ) → Session → (List ℕ → List ℕ → List ℕ) → Notice → (List ℕ → Notice) → Round
ask server s request failure success = with_text s.jwt λ jwt. with_text s.cookie λ cookie.
    let message = request jwt cookie in
    talk server message λ response.
      next s (message ∷ []) ((if has_error response then failure else success response) ∷ [])

-- `printf("%s\n", strstr(response, "[{\""))`
unfoldable pub json_listing : List ℕ → Notice
json_listing response =
    listing
      (elim (strstr response (bytes_of "[{\"")) [ none ↦ none | some i ↦ some (drop i response) ])

unfoldable pub get_books : (List ℕ → List ℕ) → Session → Round
get_books server s = guarded s no_library (ask server s books_message unknown_error json_listing)

unfoldable pub get_book : (List ℕ → List ℕ) → Session → (id : List ℕ) → Round
get_book server s id =
    guarded s no_library (ask server s (book_message id) no_such_book json_listing)

-- `payload[500]` is written before `message[500]`, which holds it.
unfoldable pub add_book :
    (atoi : List ℕ → ℤ)
    → (List ℕ → List ℕ)
    → Session
    → (title author genre publisher page_count : List ℕ) → Round
add_book atoi server s title author genre publisher page_count =
    guarded s no_library (
      ask server s (add_message atoi title author genre publisher page_count) bad_data (λ r. added))

unfoldable pub delete_book : (List ℕ → List ℕ) → Session → (id : List ℕ) → Round
delete_book server s id =
    guarded s no_library (ask server s (delete_message id) no_such_book (λ r. deleted))

-- The flags are cleared whatever the answer is.
unfoldable pub forget : Round → Round
forget (next s sent notices) =
    next (record s { jwt_access = false; logged_in = false }) sent notices
forget leave = leave
forget undefined = undefined

unfoldable pub logout : (List ℕ → List ℕ) → Session → Round
logout server s =
    if s.logged_in && s.jwt_access
    then forget (ask server s logout_message unknown_error (λ r. logged_out))
    else next s [] (not_connected ∷ [])
