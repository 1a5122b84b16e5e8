-- ===== src/Accounts/Client.antt =====
-- The client of Partial/client.cpp: what it sends for a line of its input, and what it shows of an
-- answer; and what the server makes of its requests.
use pcom.Prelude.{
  ℕ, List, [], ◌∷◌, ◌++◌, Option, none, some, Bool, true, false, if◌then◌else◌, ◌≡◌, ◌≢◌, refl, sym,
  ap, arith, ℤ, pos, negsuc, ◌==◌, Bool-cases, inl, inr,
}
use pcom.Text.{bytes_of, starts_with, strip_newline}
use pcom.Scan.{same_text, scan_word, scan_int}
use pcom.Assoc.{find}
use pcom.Client.Messages.{decimal}
use pcom.Accounts.{
  User, Users, next, fit, after_junk, scan_id, sum_or_zero, show_user, show_sum, serve,
}
use pcom.Accounts.Requests.{IsId, scan_id-show_sum}

-- What the client does on a line: it sends a request and goes on, sends one and leaves, or tells the
-- user something.
pub data Step : Type 0 where
  sends : (text : List ℕ) → Step
  leaves : (text : List ℕ) → Step
  tells : (text : List ℕ) → Step
  undefined_read : Step

unfoldable pub is_zero : ℤ → Bool
is_zero (pos n) = n == 0
is_zero (negsuc n) = false

-- The tests of `send_to`, where the third word is `sumx`.
unfoldable pub send_sum : (me buf id : List ℕ) → Option (List ℕ × List ℕ) → Step
send_sum me buf id none = undefined_read
send_sum me buf id (some (sumx, rest)) =
    if same_text id me
    then tells (bytes_of "Nu iti poti trimite bani tie\n")
    else if is_zero (sum_or_zero (scan_int sumx))
    then tells (bytes_of "sum is not a number\n")
    else sends buf

-- The command `send_to` of the client `me`.
unfoldable pub send_to : (me buf : List ℕ) → Option (List ℕ × List ℕ) → Step
send_to me buf none = undefined_read
send_to me buf (some (id, rest)) = send_sum me buf id (fit (scan_word rest))

-- The command `get`.
unfoldable pub get : (me buf : List ℕ) → Option (List ℕ × List ℕ) → Step
get me buf none = undefined_read
get me buf (some (sumx, rest)) =
    if is_zero (sum_or_zero (scan_int sumx))
    then tells (bytes_of "sum is not a number\n")
    else sends (buf ++ (bytes_of " " ++ me))

-- The branch of the standard input, where `me` is `argv[1]`.
unfoldable pub obey : (me line : List ℕ) → Step
obey me line =
    let buf = strip_newline line in
    if starts_with (bytes_of "send_to") buf
    then send_to me buf (scan_id buf)
    else if starts_with (bytes_of "show_sum") buf
    then sends (bytes_of "show_sum " ++ me)
    else if starts_with (bytes_of "get") buf
    then get me buf (scan_id buf)
    else if starts_with (bytes_of "exit") buf
    then leaves (bytes_of "exit " ++ me)
    else tells (bytes_of "Comanda nu exista\n")

-- The number behind the first word of an answer, 0 where there is none.
unfoldable pub sum_of : Option (List ℕ) → ℤ
sum_of none = pos 0
sum_of (some rest) = sum_or_zero (scan_int rest)

unfoldable pub answer_sum : (buf : List ℕ) → ℤ
answer_sum buf = sum_of (after_junk (scan_word buf))

-- What is shown of an answer: the end of the loop, a text, or nothing.
pub data Shown : Type 0 where
  ended : (text : List ℕ) → Shown
  shown : (text : List ℕ) → Shown
  nothing : Shown

-- The branch of the socket.
unfoldable pub show : (buf : List ℕ) → Shown
show buf =
    if starts_with (bytes_of ";USER_EXISTS;") buf
    then ended (bytes_of "Exista deja un user conectat cu acest ID\n")
    else if starts_with (bytes_of ";MONEY_SENT;") buf
    then shown (bytes_of "Banii au fost trimisi cu success\n")
    else if starts_with (bytes_of ";MONEY_NOSENT;") buf
    then shown (bytes_of "Nu exista userul pentru care ai vrut sa trimiti banii\n")
    else if starts_with (bytes_of ";SHOW_SUM") buf
    then shown (bytes_of "Suma din cont este: " ++ (decimal (answer_sum buf) ++ bytes_of "\n"))
    else if starts_with (bytes_of ";GET_ERROR;") buf
    then shown (bytes_of "Suma de bani din cont este prea mica\n")
    else if starts_with (bytes_of ";GET_MONEY") buf
    then shown (bytes_of "Ai primit suma: " ++ (decimal (answer_sum buf) ++ bytes_of "\n"))
    else if starts_with (bytes_of ";EXIT;") buf
    then ended []
    else nothing

-- What stands in the third word of a IsTransfer-words that was sent.
pub record IsTransfer (me buf : List ℕ) : Type 0 where
  pub to : List ℕ
  pub sumx : List ℕ
  pub rest : List ℕ
  pub left : List ℕ
  pub read_id : scan_id buf ≡ some (to, rest)
  pub other : same_text to me ≡ false
  pub read_sum : fit (scan_word rest) ≡ some (sumx, left)
  pub not_zero : is_zero (sum_or_zero (scan_int sumx)) ≡ false

abbrev text_of : Step → List ℕ
text_of (sends text) = text
text_of (leaves text) = text
text_of (tells text) = []
text_of undefined_read = []

tells-ne_sends : {text told : List ℕ} → tells told ≢ sends text
tells-ne_sends e = absurd (ground arith)

undefined_read-ne_sends : {text : List ℕ} → undefined_read ≢ sends text
undefined_read-ne_sends e = absurd (ground arith)

IsTransfer-sum :
    (me buf id rest text : List ℕ) (o : Option (List ℕ × List ℕ))
    → scan_id buf ≡ some (id, rest)
    → fit (scan_word rest) ≡ o
    → send_sum me buf id o ≡ sends text
    → (text ≡ buf) × IsTransfer me buf
unfolding send_sum
IsTransfer-sum me buf id rest text none i w e = absurd (undefined_read-ne_sends e)
IsTransfer-sum me buf id rest text (some (sumx, left)) i w e = elim (Bool-cases (same_text id me)) [
  | inl t ↦ absurd (tells-ne_sends (rw t at e))
  | inr f ↦ elim (Bool-cases (is_zero (sum_or_zero (scan_int sumx)))) [
    | inl t ↦ absurd (tells-ne_sends (rw (f, t) at e))
    | inr g ↦ (
      sym (ap text_of (rw (f, g) at e)),
      record {
        to = id;
        sumx = sumx;
        rest = rest;
        left = left;
        read_id = i;
        other = f;
        read_sum = w;
        not_zero = g;
      },
    )
  ]
]

IsTransfer-words :
    (me buf text : List ℕ) (o : Option (List ℕ × List ℕ))
    → scan_id buf ≡ o
    → send_to me buf o ≡ sends text
    → (text ≡ buf) × IsTransfer me buf
unfolding send_to
IsTransfer-words me buf text none i e = absurd (undefined_read-ne_sends e)
IsTransfer-words me buf text (some (id, rest)) i e =
    IsTransfer-sum me buf id rest text (fit (scan_word rest)) i refl e

-- A line that begins with `send_to` is sent, without its line break, only where it names another
-- client than the sender and a sum that is not 0.
pub obey-send_to :
    (me line text : List ℕ)
    → starts_with (bytes_of "send_to") (strip_newline line) ≡ true
    → obey me line ≡ sends text
    → (text ≡ strip_newline line) × IsTransfer me (strip_newline line)
unfolding obey
obey-send_to me line text command sent =
    IsTransfer-words me (strip_newline line) text (scan_id (strip_newline line)) refl
      (rw command at sent)

-- For the line `show_sum`, the server's answer to what the client sends is its own balance.
pub serve-show_sum :
    (me : List ℕ) (users : Users) {user : User}
    → IsId me
    → find same_text users me ≡ some user
    → (text : List ℕ) × (obey me (bytes_of "show_sum\n") ≡ sends text)
      × (serve users text ≡ next users ((bytes_of ";SHOW_SUM " ++ decimal user.money) ∷ []))
unfolding obey strip_newline starts_with
serve-show_sum me users {user} i h = (
  bytes_of "show_sum " ++ me,
  refl,
  unfold serve starts_with show_sum show_user in rw (scan_id-show_sum me i, h) refl,
)
