-- ===== src/Client/Overflow.antt =====
-- Whether the request to register fits in `message[500]` of Teme/Tema3/client.c.
use pcom.Prelude.{
  ℕ, ◌+◌, ◌≤◌, ◌<◌, List, [], ◌∷◌, ◌++◌, ◌≡◌, refl, arith, true, false, if◌then◌else◌, ltb, pos,
  length, length-append, dec_lt,
}
use pcom.Text.{bytes_of}
use pcom.Client.{Session, name_taken, registered, next, undefined, has_error, talk, register}
use pcom.Client.Messages.{crlf, host, digits, decimal, credentials_body, credentials_message}
use pcom.Client.Length.{length-credentials_body}

digits_of_three : (n : ℕ) → 100 ≤ n → n < 1000 → length (decimal (pos n)) ≡ 3
unfolding decimal digits
digits_of_three n h k = ground arith

digits_at_most : (n : ℕ) → n < 1000 → length (decimal (pos n)) ≤ 3
unfolding decimal digits
digits_at_most n k = ground arith

length-register_message :
    (name pass : List ℕ)
    → length (credentials_message (bytes_of "register") name pass)
      ≡ 146 + length (decimal (pos (29 + length pass + length name))) + length name + length pass
unfolding credentials_message
length-register_message name pass =
    let number = decimal (pos (29 + length pass + length name)) in
    let head =
      bytes_of "Content-Type: application/json\r\nContent-Length: " ++ (number ++ (crlf ++ crlf)) in
    let before = bytes_of "POST /api/v1/tema/auth/" ++ (bytes_of "register" ++ (host ++ head)) in
    omega (
      arith,
      length-append before (credentials_body name pass ++ crlf),
      length-append (credentials_body name pass) crlf,
      length-credentials_body name pass,
      length-append number (crlf ++ crlf),
    )

-- For a name and a password of at most 199 characters, as they are read: where they have fewer than 351
-- characters together, the request to register is sent, and the answer decides what is printed; where
-- they have more, it is written behind its array.
pub register_lem :
    (server : List ℕ → List ℕ) (s : Session) (name pass : List ℕ)
    → length name < 200
    → length pass < 200
    → register server s name pass ≡ (
        let message = credentials_message (bytes_of "register") name pass in
        if ltb (length name + length pass) 351
        then next s
            (message ∷ [])
            ((if has_error (server message) then name_taken else registered) ∷ [])
        else undefined)
unfolding register talk
register_lem server s name pass h k = elim (dec_lt (length name + length pass) 351) [
  | yes u ↦
      (let t : ltb (length (credentials_message (bytes_of "register") name pass)) 500 ≡ true =
          ground (
            arith,
            length-register_message name pass,
            digits_at_most (29 + length pass + length name) (omega arith),
          ) in
        let t' : ltb (length name + length pass) 351 ≡ true = ground arith in rw (t, t') refl)
  | no o ↦
      (let f : ltb (length (credentials_message (bytes_of "register") name pass)) 500 ≡ false =
          ground (
            arith,
            length-register_message name pass,
            digits_of_three (29 + length pass + length name) (omega arith) (omega arith),
          ) in
        let f' : ltb (length name + length pass) 351 ≡ false = ground arith in rw (f, f') refl)
]
