-- ===== src/Accounts/Balance.antt =====
-- What the datagrams do to the accounts: no balance falls below zero, and an account is changed by
-- the datagrams that name it only.
use mathlib.Core.Path.{subst}
use pcom.Prelude.{
  ℕ, zero, suc, List, [], ◌∷◌, Option, none, some, Bool, true, false, not, if◌then◌else◌, ◌≡◌, sym,
  arith, ℤ, pos, negsuc, ◌+ℤ◌, neg_ℤ, lt_ℤ, is_int, Bool-cases, inl, inr, if_intro,
}
use pcom.Text.{bytes_of, starts_with}
use pcom.Scan.{same_text, same_text-IsTest, scan_int}
use pcom.Assoc.{find, assign, find-assign}
use pcom.Accounts.{
  User, Users, Turn, next, undefined, scan_id, connect_user, connect, sum_or_zero, change,
  send_to_user, send_to, show_user, show_sum, get_user, get_id, get_sum, get, exit_user, exit,
  serve, and_then, go_on, run,
}

-- `0 <= a`
abbrev pub is_positive : ℤ → Bool
is_positive a = not (lt_ℤ a (pos 0))

-- Does a datagram ask for no negative sum to be sent?
unfoldable pub asks_fairly_from : Option (List ℕ × List ℕ) → Bool
asks_fairly_from none = true
asks_fairly_from (some (id, rest)) = is_positive (sum_or_zero (scan_int rest))

unfoldable pub asks_fairly : (buf : List ℕ) → Bool
asks_fairly buf =
    if starts_with (bytes_of "send_to") buf then asks_fairly_from (scan_id buf) else true

-- An account that is there has no debt.
pub data NoDebt : Option User → Type 0 where
  no_account : NoDebt none
  no_debt : {user : User} → is_positive user.money ≡ true → NoDebt (some user)

abbrev pub AllPaid : Users → Type 0
AllPaid users = (id : List ℕ) → NoDebt (find same_text users id)

add_positive : (a b : ℤ) → is_positive a ≡ true → is_positive b ≡ true → is_positive (a +ℤ b) ≡ true
add_positive (pos a) (pos b) h k = ground arith
add_positive (pos a) (negsuc b) h k = absurd (ground arith)
add_positive (negsuc a) b h k = absurd (ground arith)

-- What is taken is not more than what there is.
take_positive :
    (a b : ℤ) → is_positive a ≡ true → lt_ℤ a b ≡ false → is_positive (a +ℤ neg_ℤ b) ≡ true
take_positive (pos a) (pos zero) h k = ground arith
take_positive (pos a) (pos (suc b)) h k = ground arith
take_positive (pos a) (negsuc b) h k = ground arith
take_positive (negsuc a) b h k = absurd (ground arith)

-- What holds of the next accounts, if there are any.
pub data Holds (P : Users → Type 0) : Turn → Type 0 where
  holds_next : {users : Users} {replies : List (List ℕ)} → P users → Holds P (next users replies)
  holds_undefined : Holds P undefined

module _ (users : Users) (paid : AllPaid users) where
  same : {replies : List (List ℕ)} → Holds AllPaid (next users replies)
  same = holds_next paid

  assign-AllPaid :
      (id : List ℕ) (user : User)
      → is_positive user.money ≡ true
      → AllPaid (assign same_text users id user)
  assign-AllPaid id user h other =
      subst NoDebt (sym (find-assign same_text same_text-IsTest users id user other)) (
        if_intro NoDebt (same_text id other) (some user) (find same_text users other) (no_debt h)
          (paid other))

  change-AllPaid :
      (id : List ℕ) (user : User) (sum : ℤ) (reply : List ℕ)
      → is_positive (user.money +ℤ sum) ≡ true
      → Holds AllPaid (change users id user sum reply)
  unfolding change
  change-AllPaid id user sum reply h =
      if_intro (Holds AllPaid) (is_int (user.money +ℤ sum)) _ _ (holds_next (assign-AllPaid id _ h))
        holds_undefined

  connect-AllPaid :
      (id : List ℕ) (o : Option User) → NoDebt o → Holds AllPaid (connect_user users id o)
  unfolding connect_user
  connect-AllPaid id none d = holds_next (assign-AllPaid id _ (ground arith))
  connect-AllPaid id (some user) (no_debt h) =
      if_intro (Holds AllPaid) user.is_connected _ _ same (holds_next (assign-AllPaid id _ h))

  send_to-AllPaid :
      (id : List ℕ) (sum : ℤ) (o : Option User)
      → is_positive sum ≡ true
      → NoDebt o
      → Holds AllPaid (send_to_user users id sum o)
  unfolding send_to_user
  send_to-AllPaid id sum none h d = same
  send_to-AllPaid id sum (some user) h (no_debt g) =
      change-AllPaid id user sum _ (add_positive user.money sum g h)

  show-AllPaid : (o : Option User) → Holds AllPaid (show_user users o)
  unfolding show_user
  show-AllPaid none = holds_undefined
  show-AllPaid (some user) = same

  get-AllPaid :
      (id : List ℕ) (sum : ℤ) (o : Option User) → NoDebt o → Holds AllPaid (get_user users id sum o)
  unfolding get_user
  get-AllPaid id sum none d = holds_undefined
  get-AllPaid id sum (some user) (no_debt g) = elim (Bool-cases (lt_ℤ user.money sum)) [
    | inl t ↦ rw t same
    | inr f ↦ rw f (change-AllPaid id user (neg_ℤ sum) _ (take_positive user.money sum g f))
  ]

  exit-AllPaid : (id : List ℕ) (o : Option User) → NoDebt o → Holds AllPaid (exit_user users id o)
  unfolding exit_user
  exit-AllPaid id none d = holds_undefined
  exit-AllPaid id (some user) (no_debt h) = holds_next (assign-AllPaid id _ h)

  connect_scanned : (o : Option (List ℕ × List ℕ)) → Holds AllPaid (connect users o)
  unfolding connect
  connect_scanned none = holds_undefined
  connect_scanned (some (id, rest)) = connect-AllPaid id _ (paid id)

  send_to_scanned :
      (o : Option (List ℕ × List ℕ)) → asks_fairly_from o ≡ true → Holds AllPaid (send_to users o)
  unfolding send_to asks_fairly_from
  send_to_scanned none h = holds_undefined
  send_to_scanned (some (id, rest)) h =
      if_intro (Holds AllPaid) (is_int (sum_or_zero (scan_int rest))) _ _
        (send_to-AllPaid id _ _ h (paid id)) holds_undefined

  show_scanned : (o : Option (List ℕ × List ℕ)) → Holds AllPaid (show_sum users o)
  unfolding show_sum
  show_scanned none = holds_undefined
  show_scanned (some (id, rest)) = show-AllPaid _

  get_id_scanned : (sum : ℤ) (o : Option (List ℕ × List ℕ)) → Holds AllPaid (get_id users sum o)
  unfolding get_id
  get_id_scanned sum none = holds_undefined
  get_id_scanned sum (some (id, rest)) = get-AllPaid id sum _ (paid id)

  get_sum_scanned : (o : Option (ℤ × List ℕ)) → Holds AllPaid (get_sum users o)
  unfolding get_sum
  get_sum_scanned none = holds_undefined
  get_sum_scanned (some (sum, rest)) =
      if_intro (Holds AllPaid) (is_int sum) _ _ (get_id_scanned sum _) holds_undefined

  get_scanned : (o : Option (List ℕ)) → Holds AllPaid (get users o)
  unfolding get
  get_scanned none = holds_undefined
  get_scanned (some rest) = get_sum_scanned _

  exit_scanned : (o : Option (List ℕ × List ℕ)) → Holds AllPaid (exit users o)
  unfolding exit
  exit_scanned none = holds_undefined
  exit_scanned (some (id, rest)) = exit-AllPaid id _ (paid id)

  serve-AllPaid : (buf : List ℕ) → asks_fairly buf ≡ true → Holds AllPaid (serve users buf)
  unfolding serve asks_fairly
  serve-AllPaid buf h =
      if_intro (Holds AllPaid) (starts_with (bytes_of "CONNECT") buf) _ _ (connect_scanned _)
        (elim (Bool-cases (starts_with (bytes_of "send_to") buf)) [
          | inl t ↦ rw t (send_to_scanned (scan_id buf) (rw t at h))
          | inr f ↦ rw f (
              if_intro (Holds AllPaid) (starts_with (bytes_of "show_sum") buf) _ _ (show_scanned _)
                (if_intro (Holds AllPaid) (starts_with (bytes_of "get") buf) _ _ (get_scanned _) (
                  if_intro (Holds AllPaid) (starts_with (bytes_of "exit") buf) _ _ (exit_scanned _)
                    same)))
        ])

unfoldable pub all_ask_fairly : List (List ℕ) → Bool
all_ask_fairly [] = true
all_ask_fairly (buf ∷ bufs) =
    let rest = all_ask_fairly bufs in if asks_fairly buf then rest else false

Holds-and_then :
    (P : Users → Type 0) (replies : List (List ℕ)) (turn : Turn)
    → Holds P turn
    → Holds P (and_then replies turn)
unfolding and_then
Holds-and_then P replies (next users more) (holds_next h) = holds_next h
Holds-and_then P replies undefined h = holds_undefined

Holds-go_on :
    (P : Users → Type 0) (rest : Users → Turn) (turn : Turn)
    → ((users : Users) → P users → Holds P (rest users))
    → Holds P turn
    → Holds P (go_on rest turn)
unfolding go_on
Holds-go_on P rest (next users replies) step (holds_next h) =
    Holds-and_then P replies (rest users) (step users h)
Holds-go_on P rest undefined step h = holds_undefined

run_from-AllPaid :
    (bufs : List (List ℕ)) (users : Users)
    → all_ask_fairly bufs ≡ true
    → AllPaid users
    → Holds AllPaid (run users bufs)
unfolding run all_ask_fairly
run_from-AllPaid [] users fair paid = holds_next paid
run_from-AllPaid (buf ∷ bufs) users fair paid =
    Holds-go_on AllPaid (λ users'. run users' bufs) (serve users buf)
      (λ users' paid'. run_from-AllPaid bufs users' (ground arith) paid')
      (serve-AllPaid users paid buf (ground arith))

-- After any datagrams to a new server of which none asks it to send a negative sum, as long as
-- nothing undefined has happened, no account has a balance below zero.
pub run-AllPaid : (bufs : List (List ℕ)) → all_ask_fairly bufs ≡ true → Holds AllPaid (run [] bufs)
unfolding find
run-AllPaid bufs fair = run_from-AllPaid bufs [] fair (λ id. no_account)
