-- ===== src/Tests/Texts.antt =====
-- The theorems on buffers, requests and dialogues at concrete texts.
use pcom.Prelude.{
  replicate, ℕ, List, [], ◌∷◌, ◌++◌, ◌≡◌, inl, refl, arith, Option, none, some, true, false, pos,
  length, ℕ_discrete,
}
use pcom.Text.{bytes_of, starts_with, strstr, strip_newline}
use pcom.Buffer.{Buffer, buffer_find, buffer_find_insensitive}
use pcom.Buffer.Find.{First, buffer_find-First, buffer_find_insensitive-First}
use pcom.Helpers.{compute_message}
use pcom.Client.{Session, Notice, not_connected, logged, entered, Round, next, undefined}
use pcom.Client.Messages.{
  access_message, crlf, decimal, credentials_body, credentials_message, book_body, announced,
}
use pcom.Client.Loop.{get_command, word_of, read_command, follow, glue, perform, run_client}
use pcom.Client.Access.{IsSession, gets, perform-refused}
use pcom.Client
use pcom.Client.Run.{run_client-IsSession}
use pcom.Client.Overflow.{register_lem}
use pcom.Http.{body_data_buffer, cookie_lines, add_lines, compute_post_request}
use pcom.Http.Length.{announcing}
use pcom.Mail.{Read, byte, eof, Line, line, read_line, commands, send_commands}
use pcom.Mail.ReadLine.{IsLine, read_line-IsLine}
use pcom.Mail.Dialogue
use pcom.Mail.Dialogue.{send_commands-Sent}

abbrev greeting : Buffer
greeting = record { block = some (bytes_of "a\r\nbc"); size = 5 }

buffer_find-First_example :
    First (λ c. c) (bytes_of "a\r\nbc") (bytes_of "b") 5 0 (buffer_find greeting (bytes_of "b"))
buffer_find-First_example = buffer_find-First greeting (bytes_of "b")

-- The upper-case letter B is read as the lower-case one.
abbrev lower : ℕ → ℕ
lower c = elim (ℕ_discrete c 66) [ yes e ↦ 98 | no n ↦ c ]

buffer_find_insensitive-First_example :
    First lower
      (bytes_of "a\r\nbc")
      (bytes_of "B")
      5
      0
      (buffer_find_insensitive lower greeting (bytes_of "B"))
buffer_find_insensitive-First_example = buffer_find_insensitive-First lower greeting (bytes_of "B")

abbrev reads : List (Option (List ℕ))
reads =
    some (bytes_of "Content-Length: 2\r\n\r")
    ∷ (some (bytes_of "\nhi") ∷ (some [] ∷ (some [] ∷ [])))

forty_two : length (decimal (pos 42)) ≡ length (bytes_of "42")
unfolding decimal pcom.Client.Messages.digits
forty_two = refl

abbrev fresh : Session
fresh = record { cookie = none; jwt = none; jwt_access = false; logged_in = false }

fresh-IsSession : IsSession fresh
fresh-IsSession = record { access = λ e. e }

perform-refused_example :
    (refusal : Notice) × (perform (λ text. pos 1) (λ message. []) fresh (get_command (bytes_of "7"))
      ≡ next fresh [] (refusal ∷ []))
perform-refused_example =
    perform-refused (λ text. pos 1) (λ message. []) fresh (get_command (bytes_of "7")) (inl refl)
      (gets (bytes_of "7"))

abbrev typed : List (List ℕ)
typed =
    bytes_of "enter_library\n"
    ∷ bytes_of "login\n"
    ∷ bytes_of "a\n"
    ∷ bytes_of "b\n"
    ∷ bytes_of "enter_library\n"
    ∷ []

-- A server that gives a cookie and a token in each answer.
abbrev generous : List ℕ → List ℕ
generous message =
    bytes_of "connect.sid=xyz; Path=/; HttpOnly\r\nDate: 1\r\n\r\n{\"token\":\"abc\"}"

abbrev entered_session : Session
entered_session = record {
  cookie = some (bytes_of "connect.sid=xyz");
  jwt = some (bytes_of "abc");
  jwt_access = true;
  logged_in = true;
}

typed_entered :
    run_client (λ text. pos 1) generous 5 fresh typed
    ≡ next entered_session
        (credentials_message (bytes_of "login") (bytes_of "a") (bytes_of "b")
          ∷ (access_message (bytes_of "connect.sid=xyz") ∷ []))
        (not_connected ∷ (logged ∷ (entered ∷ [])))
unfolding run_client word_of read_command perform follow glue pcom.Client.login
    pcom.Client.enter_library pcom.Client.talk pcom.Client.find_cookie pcom.Client.take_cookie
    pcom.Client.find_token pcom.Client.take_token pcom.Client.with_text pcom.Client.has_error
    pcom.Client.strncpy pcom.Client.string_at credentials_message credentials_body access_message
    decimal pcom.Client.Messages.digits strip_newline starts_with strstr
typed_entered = refl

run_client-IsSession_example : IsSession entered_session
run_client-IsSession_example =
    run_client-IsSession (λ text. pos 1) generous 5 fresh typed fresh-IsSession typed_entered

register_lem_example :
    pcom.Client.register (λ message. []) fresh (replicate 199 97) (replicate 199 98) ≡ undefined
register_lem_example =
    register_lem (λ message. []) fresh (replicate 199 97) (replicate 199 98) (omega arith)
      (omega arith)

abbrev fields : List (List ℕ)
fields = bytes_of "a=1" ∷ (bytes_of "b=2" ∷ [])

abbrev posted : List ℕ
posted =
    compute_message
      (compute_message
        (add_lines []
          (announcing (bytes_of "h") (bytes_of "/u") (bytes_of "t") 7 ++ cookie_lines none))
        [])
      (bytes_of "a=1&b=2")

post_built :
    compute_post_request (bytes_of "h") (bytes_of "/u") (bytes_of "t") fields none ≡ some posted
unfolding compute_post_request pcom.Http.post_lines pcom.Http.build pcom.Http.lines_fit
    body_data_buffer cookie_lines add_lines compute_message decimal pcom.Client.Messages.digits
    pcom.Http.content_len
post_built = refl

read_line-IsLine_example : IsLine 3 (read_line 3 (byte 50 ∷ (byte 53 ∷ (byte 48 ∷ []))))
read_line-IsLine_example = read_line-IsLine 3 (byte 50 ∷ (byte 53 ∷ (byte 48 ∷ []))) (omega arith)

send_commands-Sent_example :
    pcom.Mail.Dialogue.Sent
      (commands (bytes_of "f") (bytes_of "hi"))
      (byte 53 ∷ (byte 10 ∷ []))
      ((send_commands (commands (bytes_of "f") (bytes_of "hi")) (byte 53 ∷ (byte 10 ∷ []))).0)
      ((send_commands (commands (bytes_of "f") (bytes_of "hi")) (byte 53 ∷ (byte 10 ∷ []))).1)
send_commands-Sent_example =
    send_commands-Sent (commands (bytes_of "f") (bytes_of "hi")) (byte 53 ∷ (byte 10 ∷ []))
