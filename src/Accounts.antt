-- ===== src/Accounts.antt =====
-- The account server of Partial/server.cpp: one call of `serve` for each datagram.
pub mod Balance
pub mod Requests
pub mod Client
use pcom.Prelude.{
  ℕ, List, [], ◌∷◌, ◌++◌, Option, none, some, Bool, true, false, if◌then◌else◌, ℤ, pos, ◌+ℤ◌, neg_ℤ,
  lt_ℤ, is_int, length, ltb,
}
use pcom.Text.{bytes_of, starts_with}
use pcom.Scan.{same_text, scan_word, scan_int}
use pcom.Assoc.{find, assign}
use pcom.Client.Messages.{decimal}

-- `user`
pub record User : Type 0 where
  pub money : ℤ
  pub is_connected : Bool

-- `users`
abbrev pub Users : Type 0
Users = List (List ℕ × User)

-- A round: the accounts and the texts sent back to the client, or undefined behaviour: a read of a
-- variable that `sscanf` has not written, a word behind its array, an account that `end()` stands
-- for, or a number outside of `int`.
pub data Turn : Type 0 where
  next : Users → List (List ℕ) → Turn
  undefined : Turn

-- `%s` into an array of 50 bytes.
unfoldable pub fit : Option (List ℕ × List ℕ) → Option (List ℕ × List ℕ)
fit none = none
fit (some (word, rest)) = if ltb (length word) 50 then some (word, rest) else none

-- `%s %s`: what follows `junk`, and `id` with what follows it.
unfoldable pub after_junk : Option (List ℕ × List ℕ) → Option (List ℕ)
after_junk none = none
after_junk (some (junk, rest)) = some rest

unfoldable pub scan_id_from : Option (List ℕ) → Option (List ℕ × List ℕ)
scan_id_from none = none
scan_id_from (some rest) = fit (scan_word rest)

unfoldable pub scan_id : List ℕ → Option (List ℕ × List ℕ)
scan_id buf = scan_id_from (after_junk (fit (scan_word buf)))

-- The command `CONNECT`.
unfoldable pub connect_user : Users → (id : List ℕ) → Option User → Turn
connect_user users id none =
    next (assign same_text users id (record { money = pos 0; is_connected = true })) []
connect_user users id (some user) =
    if user.is_connected
    then next users (bytes_of ";USER_EXISTS;\n" ∷ [])
    else next (assign same_text users id (record { money = user.money; is_connected = true })) []

unfoldable pub connect : Users → Option (List ℕ × List ℕ) → Turn
connect users none = undefined
connect users (some (id, rest)) = connect_user users id (find same_text users id)

-- `int sum = 0;`, written by `%d` where there is a number.
unfoldable pub sum_or_zero : Option (ℤ × List ℕ) → ℤ
sum_or_zero none = pos 0
sum_or_zero (some (sum, rest)) = sum

-- The account's money changed by `sum`.
unfoldable pub change : Users → (id : List ℕ) → User → (sum : ℤ) → (reply : List ℕ) → Turn
change users id user sum reply =
    if is_int (user.money +ℤ sum)
    then next
        (assign same_text users id
          (record { money = user.money +ℤ sum; is_connected = user.is_connected }))
        (reply ∷ [])
    else undefined

-- The command `send_to`.
unfoldable pub send_to_user : Users → (id : List ℕ) (sum : ℤ) → Option User → Turn
send_to_user users id sum none = next users (bytes_of ";MONEY_NOSENT;\n" ∷ [])
send_to_user users id sum (some user) = change users id user sum (bytes_of ";MONEY_SENT;\n")

unfoldable pub send_to : Users → Option (List ℕ × List ℕ) → Turn
send_to users none = undefined
send_to users (some (id, rest)) =
    let sum = sum_or_zero (scan_int rest) in
    if is_int sum then send_to_user users id sum (find same_text users id) else undefined

-- The command `show_sum`.
unfoldable pub show_user : Users → Option User → Turn
show_user users none = undefined
show_user users (some user) = next users ((bytes_of ";SHOW_SUM " ++ decimal user.money) ∷ [])

unfoldable pub show_sum : Users → Option (List ℕ × List ℕ) → Turn
show_sum users none = undefined
show_sum users (some (id, rest)) = show_user users (find same_text users id)

-- The command `get`.
unfoldable pub get_user : Users → (id : List ℕ) (sum : ℤ) → Option User → Turn
get_user users id sum none = undefined
get_user users id sum (some user) =
    if lt_ℤ user.money sum
    then next users (bytes_of ";GET_ERROR;\n" ∷ [])
    else change users id user (neg_ℤ sum) (bytes_of ";GET_MONEY " ++ decimal sum)

unfoldable pub get_id : Users → (sum : ℤ) → Option (List ℕ × List ℕ) → Turn
get_id users sum none = undefined
get_id users sum (some (id, rest)) = get_user users id sum (find same_text users id)

unfoldable pub get_sum : Users → Option (ℤ × List ℕ) → Turn
get_sum users none = undefined
get_sum users (some (sum, rest)) =
    if is_int sum then get_id users sum (fit (scan_word rest)) else undefined

unfoldable pub get : Users → Option (List ℕ) → Turn
get users none = undefined
get users (some rest) = get_sum users (scan_int rest)

-- The command `exit`.
unfoldable pub exit_user : Users → (id : List ℕ) → Option User → Turn
exit_user users id none = undefined
exit_user users id (some user) =
    next (assign same_text users id (record { money = user.money; is_connected = false })) []

unfoldable pub exit : Users → Option (List ℕ × List ℕ) → Turn
exit users none = undefined
exit users (some (id, rest)) = exit_user users id (find same_text users id)

-- The branch of a datagram `buf`.
unfoldable pub serve : Users → (buf : List ℕ) → Turn
serve users buf =
    if starts_with (bytes_of "CONNECT") buf
    then connect users (scan_id buf)
    else if starts_with (bytes_of "send_to") buf
    then send_to users (scan_id buf)
    else if starts_with (bytes_of "show_sum") buf
    then show_sum users (scan_id buf)
    else if starts_with (bytes_of "get") buf
    then get users (after_junk (fit (scan_word buf)))
    else if starts_with (bytes_of "exit") buf
    then exit users (scan_id buf)
    else next users []

unfoldable pub and_then : (replies : List (List ℕ)) → Turn → Turn
and_then replies (next users more) = next users (replies ++ more)
and_then replies undefined = undefined

unfoldable pub go_on : (rest : Users → Turn) → Turn → Turn
go_on rest (next users replies) = and_then replies (rest users)
go_on rest undefined = undefined

-- The loop over the datagrams.
unfoldable pub run : Users → List (List ℕ) → Turn
run users [] = next users []
run users (buf ∷ bufs) = go_on (λ users'. run users' bufs) (serve users buf)
