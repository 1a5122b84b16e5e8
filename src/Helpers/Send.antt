-- ===== src/Helpers/Send.antt =====
-- A message is written whole, whatever the sizes of the partial writes.
use pcom.Prelude.{
  ℕ, zero, suc, ◌+◌, ◌-◌, ◌<◌, ◌≤◌, List, [], ◌∷◌, ◌≡◌, refl, ap, arith, Option, none, some, ltb,
  length, take, min, All, Bool-cases, inl, inr,
}
use pcom.Helpers.{delivered, send_loop, send_to_server}

take-all : (n : ℕ) (xs : List ℕ) → length xs ≤ n → take n xs ≡ xs
take-all zero [] h = refl
take-all zero (x ∷ xs) h = absurd (omega arith)
take-all (suc n) [] h = refl
take-all (suc n) (x ∷ xs) h = ap (λ ys. x ∷ ys) (take-all n xs (omega arith))

-- A `write` that took something.
pub data Progress : Option ℕ → Type 0 where
  wrote : (n : ℕ) → 0 < n → Progress (some n)

send_loop-all :
    (answers : List (Option ℕ)) (message : List ℕ) (sent : ℕ)
    → All Progress answers
    → sent < length message
    → length message ≤ sent + length answers
    → send_loop answers message sent ≡ delivered message
unfolding send_loop
send_loop-all [] message sent h lt room = absurd (omega arith)
send_loop-all (none ∷ answers) message sent (p, h) lt room = elim p [ ]
send_loop-all (some n ∷ answers) message sent (wrote _ more, h) lt room =
    elim (Bool-cases (ltb (sent + min n (length message - sent)) (length message))) [
      | inl t ↦ ground (
        arith,
        send_loop-all answers message (sent + min n (length message - sent)) h (ground arith)
            (omega arith),
      )
      | inr f ↦
          ground (arith, take-all (sent + min n (length message - sent)) message (ground arith))
    ]

-- Where `write` never fails and always takes something, a message that is not empty is delivered
-- whole after at most one call for each byte.
pub send_to_server-all :
    (answers : List (Option ℕ)) (message : List ℕ)
    → All Progress answers
    → 0 < length message
    → length message ≤ length answers
    → send_to_server answers message ≡ delivered message
unfolding send_to_server
send_to_server-all answers message h some_byte room =
    send_loop-all answers message 0 h some_byte (omega arith)
