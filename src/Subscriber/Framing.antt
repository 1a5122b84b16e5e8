-- ===== src/Subscriber/Framing.antt =====
-- The subscriber finds the server's messages again in the stream of bytes.
use pcom.Prelude.{
  ℕ, zero, suc, ◌+◌, ◌<◌, List, [], ◌∷◌, ◌++◌, some, ltb, length-append, append_assoc, Bool, true,
  false, ◌==◌, if◌then◌else◌, ◌≡◌, refl, arith, length, Bool-cases, inl, inr,
}
use pcom.Text.{bytes_of, starts_with}
use pcom.Scan.{c_text}
use pcom.Broker.{Action, send, send_stored}
use pcom.Subscriber.{receive_line, max_len, prints, show, and_print, put_before, listen}

-- Bytes among which there is neither a NUL nor a line break.
unfoldable pub is_plain : List ℕ → Bool
is_plain [] = true
is_plain (c ∷ cs) =
    let rest = is_plain cs in if c == 0 then false else if c == 10 then false else rest

-- A message as the server makes it: plain text of at least one byte, which fits into `buf` with a line
-- break and a NUL; it is none of the two words by which the server ends the connection.
pub record IsMessage (text : List ℕ) : Type 0 where
  pub plain : is_plain text ≡ true
  pub some_text : 0 < length text
  pub fits : length text + 1 < max_len
  pub no_refusal : starts_with (bytes_of ";ID_EXISTS;") (text ++ (10 ∷ [])) ≡ false
  pub no_exit : starts_with (bytes_of ";EXIT;") (text ++ (10 ∷ [])) ≡ false

is_plain_cons :
    (c : ℕ) (text : List ℕ)
    → is_plain (c ∷ text) ≡ true
    → ((c == 0) ≡ false) × ((c == 10) ≡ false) × (is_plain text ≡ true)
unfolding is_plain
is_plain_cons c text p = elim (Bool-cases (c == 0)) [
  | inl t ↦ absurd (ground arith)
  | inr f ↦ elim (Bool-cases (c == 10)) [
    | inl t ↦ absurd (ground arith)
    | inr g ↦ (f, g, ground arith)
  ]
]

receive_line-plain :
    (text : List ℕ) (buf_ptr room : ℕ) (more : List ℕ)
    → is_plain text ≡ true
    → 0 < buf_ptr + length text
    → length text < room
    → receive_line buf_ptr room (text ++ (10 ∷ more)) ≡ (text ++ (10 ∷ []), more)
unfolding receive_line
receive_line-plain [] buf_ptr zero more p s r = absurd (omega arith)
receive_line-plain [] buf_ptr (suc room) more p s r = ground arith
receive_line-plain (c ∷ text) buf_ptr zero more p s r = absurd (omega arith)
receive_line-plain (c ∷ text) buf_ptr (suc room) more p s r =
    let plain = is_plain_cons c text p in
    rw
      (plain.1, receive_line-plain text (buf_ptr + 1) room more plain.2 (omega arith) (omega arith))
      (ground arith)

c_text-plain :
    (text : List ℕ) → is_plain text ≡ true → c_text (text ++ (10 ∷ [])) ≡ text ++ (10 ∷ [])
unfolding c_text
c_text-plain [] p = refl
c_text-plain (c ∷ text) p =
    let plain = is_plain_cons c text p in rw (plain.0, c_text-plain text plain.2) refl

-- The messages as they are sent.
abbrev pub lines : List (List ℕ) → List (List ℕ)
lines [] = []
lines (text ∷ texts) = (text ++ (10 ∷ [])) ∷ lines texts

pub data AreMessages : List (List ℕ) → Type 0 where
  messages_nil : AreMessages []
  messages_cons :
      {text : List ℕ} {texts : List (List ℕ)}
      → IsMessage text
      → AreMessages texts
      → AreMessages (text ∷ texts)

-- The bytes of a socket, in order.
unfoldable pub bytes_sent : List Action → List ℕ
bytes_sent [] = []
bytes_sent (send fd text ∷ actions) = text ++ bytes_sent actions
bytes_sent (Action.close fd ∷ actions) = bytes_sent actions

fits_lem :
    (text : List ℕ) → length text + 1 < max_len → ltb (length (text ++ (10 ∷ []))) max_len ≡ true
fits_lem text h = ground (arith, length-append text (10 ∷ []))

show-message :
    (text : List ℕ) → IsMessage text → show (text ++ (10 ∷ [])) ≡ prints (text ++ (10 ∷ []))
unfolding show
show-message text m =
    rw (m.no_refusal, m.no_exit, c_text-plain text m.plain, fits_lem text m.fits) refl

-- What the server sends to a client that has come back, line after line on one socket, the
-- subscriber reads from the stream line by line: it prints exactly the messages, in order, one in a
-- round, whatever follows them.
pub listen-send_stored :
    (fd : ℕ) {texts : List (List ℕ)} (more : List ℕ)
    → AreMessages texts
    → listen (length texts) (bytes_sent (send_stored fd (lines texts)) ++ more) ≡ some (lines texts)
unfolding listen send_stored bytes_sent and_print put_before
listen-send_stored fd more messages_nil = refl
listen-send_stored fd more (messages_cons {text = text} {texts = texts} m ms) =
    let rest = bytes_sent (send_stored fd (lines texts)) ++ more in
    rw
      (
        append_assoc (text ++ (10 ∷ [])) (bytes_sent (send_stored fd (lines texts))) more,
        append_assoc text (10 ∷ []) rest,
        receive_line-plain text 0 max_len rest m.plain (omega (arith, m.some_text))
            (omega (arith, m.fits)),
        show-message text m,
        listen-send_stored fd more ms,
      )
      refl
