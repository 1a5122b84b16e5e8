-- ===== src/Mail.antt =====
-- The mail client of Lab11/send_mail.c: reading a line, a command with its expected answer, and the
-- dialogue. The socket is the list of what its reads of one byte return.
pub mod ReadLine
pub mod Dialogue
use pcom.Prelude.{
  ℕ, zero, suc, ◌+◌, ◌-◌, List, [], ◌∷◌, ◌++◌, Option, none, some, Bool, true, false, ltb, ◌==◌,
  if◌then◌else◌, length, take,
}
use pcom.Text.{bytes_of, starts_with}

-- What `read(sockd, &c, 1)` returns: a byte, the end, `EINTR` or another error.
pub data Read : Type 0 where
  byte : ℕ → Read
  eof interrupted broken : Read

-- What `read_line` returns: a line with the number `n`, 0 with the buffer as it was, or -1; and
-- the reads that are left. `blocked` has not returned.
pub data Line : Type 0 where
  line : (text : List ℕ) → (n : ℕ) → List Read → Line
  closed : List Read → Line
  failed blocked : Line

-- The `for` loop at `n` with `rest` rounds left; `text` is what stands before `buffer`.
unfoldable pub read_loop : (rest n : ℕ) → (text : List ℕ) → List Read → Line
read_loop zero n text reads = line text n reads
read_loop (suc rest) n text [] = blocked
read_loop (suc rest) n text (byte c ∷ reads) =
    let go = read_loop rest (n + 1) (text ++ (c ∷ [])) reads in
    if c == 10 then line (text ++ (c ∷ [])) n reads else go
read_loop (suc rest) n text (eof ∷ reads) = if n == 1 then closed reads else line text n reads
read_loop (suc rest) n text (interrupted ∷ reads) = read_loop rest (n + 1) text reads
read_loop (suc rest) n text (broken ∷ reads) = failed

-- `read_line`
unfoldable pub read_line : (maxlen : ℕ) → List Read → Line
read_line maxlen reads = read_loop (maxlen - 1) 1 [] reads

-- What a command ends in: the reads left, the exit on an unexpected answer, or `recvbuf[-1] = 0`
-- after an error.
pub data Answer : Type 0 where
  accepted : List Read → Answer
  refused undefined waiting : Answer

abbrev pub max_len : ℕ
max_len = 500

-- `strstr(recvbuf, expected) != recvbuf`; an array whose first byte is 0 starts with nothing.
unfoldable pub check_answer : (expected : List ℕ) → Line → Answer
check_answer expected (line text n reads) =
    if starts_with expected (take n text) then accepted reads else refused
check_answer expected (closed reads) = if starts_with expected [] then accepted reads else refused
check_answer expected failed = undefined
check_answer expected blocked = waiting

-- `send_command`, behind its two `write`s.
unfoldable pub send_command : (expected : List ℕ) → List Read → Answer
send_command expected reads = check_answer expected (read_line (max_len - 1) reads)

-- A command and the start of the answer that it expects.
pub record Command : Type 0 where
  pub sendbuf : List ℕ
  pub expected : List ℕ

-- What was written to the socket, and how the program ended.
pub data End : Type 0 where
  finished rejected crashed pending : End

-- The calls of `send_command` one after the other.
unfoldable pub send_commands : List Command → List Read → List (List ℕ) × End
send_commands [] reads = ([], finished)
send_commands (c ∷ commands) reads =
    let wire = c.sendbuf ++ (13 ∷ 10 ∷ []) in
    elim (send_command c.expected reads) [
      | accepted reads' ↦ (let rest = send_commands commands reads' in (wire ∷ rest.0, rest.1))
      | refused ↦ (wire ∷ [], rejected)
      | undefined ↦ (wire ∷ [], crashed)
      | waiting ↦ (wire ∷ [], pending)
    ]

-- The text of the mail, with the name and the first bytes of the attached file.
unfoldable pub mail_text : (name content : List ℕ) → List ℕ
mail_text name content =
    bytes_of
      "MIME-Version: 1.0\nFrom: Student <student@upb.ro>\nTo: Profesor <profesor@upb.ro>\nSubject: Tema\nContent-Type: multipart/mixed; boundary=abc\n--abc\nContent-Type: text/plain\nAtasez tema.\n--abc\nContent-Type: text/plain\nContent-Disposition: attachment; filename=\""
    ++ (name ++ (bytes_of "\"\n\n" ++ (content ++ bytes_of "\n--abc\r\n.")))

-- The commands of `main`.
unfoldable pub commands : (name content : List ℕ) → List Command
commands name content =
    record { sendbuf = bytes_of "HELO localhost"; expected = bytes_of "250" }
    ∷ record { sendbuf = bytes_of "MAIL FROM: <student@upb.ro>"; expected = bytes_of "250" }
    ∷ record { sendbuf = bytes_of "RCPT TO: <profesor@upb.ro>"; expected = bytes_of "250" }
    ∷ record { sendbuf = bytes_of "DATA"; expected = bytes_of "354" }
    ∷ record { sendbuf = mail_text name content; expected = bytes_of "250" }
    ∷ record { sendbuf = bytes_of "QUIT"; expected = bytes_of "221" }
    ∷ []

-- The greeting is read and not looked at; `none` is a text that does not fit in `sendbuf`.
unfoldable pub after_greeting : List Command → Line → List (List ℕ) × End
after_greeting commands (line text n reads) = send_commands commands reads
after_greeting commands (closed reads) = send_commands commands reads
after_greeting commands failed = ([], crashed)
after_greeting commands blocked = ([], pending)

-- `main`, behind `connect`; the file has the bytes `file`.
unfoldable pub main : (name file : List ℕ) → List Read → Option (List (List ℕ) × End)
main name file reads =
    if ltb (length (mail_text name (take max_len file))) max_len
    then some (after_greeting (commands name (take max_len file)) (read_line (max_len - 1) reads))
    else none
