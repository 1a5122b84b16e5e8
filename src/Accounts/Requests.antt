-- ===== src/Accounts/Requests.antt =====
-- What the commands answer: an account outlives its client's connection, a transfer credits the
-- receiver, and a withdrawal is refused above the balance.
use pcom.Prelude.{
  ℕ, zero, suc, ◌-◌, ◌^◌, ◌<◌, List, [], ◌∷◌, ◌++◌, Option, some, Bool, true, false, if◌then◌else◌,
  ◌≡◌, refl, ap, ◌∙◌, arith, ℤ, pos, ◌+ℤ◌, neg_ℤ, is_int, length, ltb, Bool-cases, inl, inr,
}
use pcom.Text.{bytes_of, starts_with}
use pcom.Scan.{
  same_text, same_text-IsTest, is_space, skip_spaces, split_word, word_or_end, scan_word, scan_int,
}
use pcom.Client.Messages.{decimal}
use pcom.Assoc.{find, assign, find-assign}
use pcom.Accounts.{
  User, Users, next, fit, after_junk, scan_id_from, scan_id, connect_user, connect, sum_or_zero,
  change, send_to_user, send_to, get_user, exit_user, exit, serve, and_then, go_on, run,
}

-- A text without spaces.
unfoldable pub no_spaces : List ℕ → Bool
no_spaces [] = true
no_spaces (c ∷ cs) = let rest = no_spaces cs in if is_space c then false else rest

-- A name that `%s` reads whole into 50 bytes.
pub record IsId (id : List ℕ) : Type 0 where
  pub solid : no_spaces id ≡ true
  pub some_text : 0 < length id
  pub short : length id < 50

split_word-solid : (id : List ℕ) → no_spaces id ≡ true → split_word id ≡ (id, [])
unfolding split_word no_spaces
split_word-solid [] h = refl
split_word-solid (c ∷ cs) h = elim (Bool-cases (is_space c)) [
  | inl t ↦ absurd (ground arith)
  | inr f ↦ rw (f, split_word-solid cs (ground arith)) refl
]

skip_spaces-one : (cs : List ℕ) → skip_spaces (32 ∷ cs) ≡ skip_spaces cs
unfolding skip_spaces is_space
skip_spaces-one cs = refl

skip_spaces-solid : (id : List ℕ) → no_spaces id ≡ true → skip_spaces id ≡ id
unfolding skip_spaces no_spaces
skip_spaces-solid [] h = refl
skip_spaces-solid (c ∷ cs) h = elim (Bool-cases (is_space c)) [
  | inl t ↦ absurd (ground arith)
  | inr f ↦ rw f refl
]

found_word : (id rest : List ℕ) → 0 < length id → word_or_end (id, rest) ≡ some (id, rest)
unfolding word_or_end
found_word [] rest h = absurd (omega arith)
found_word (c ∷ cs) rest h = refl

scan_word-solid : (id : List ℕ) → IsId id → scan_word (32 ∷ id) ≡ some (id, [])
unfolding scan_word
scan_word-solid id i =
    rw (skip_spaces-one id, skip_spaces-solid id i.solid, split_word-solid id i.solid)
      (found_word id [] i.some_text)

fit-IsId : (id : List ℕ) → IsId id → fit (some (id, [])) ≡ some (id, [])
unfolding fit
fit-IsId id i = ground (arith, i.short)

-- `exit <id>` and `CONNECT <id>`, as Partial/client.cpp makes them.
abbrev pub exit_text : List ℕ → List ℕ
exit_text id = bytes_of "exit " ++ id

abbrev pub connect_text : List ℕ → List ℕ
connect_text id = bytes_of "CONNECT " ++ id

scan_id-exit : (id : List ℕ) → IsId id → scan_id (exit_text id) ≡ some (id, [])
scan_id-exit id i = scanned ∙ rw (scan_word-solid id i) (fit-IsId id i)
  where
    scanned : scan_id (exit_text id) ≡ fit (scan_word (32 ∷ id))
    scanned =
        unfold scan_id scan_id_from after_junk fit scan_word skip_spaces is_space split_word
          word_or_end in
        refl

scan_id-connect : (id : List ℕ) → IsId id → scan_id (connect_text id) ≡ some (id, [])
scan_id-connect id i = scanned ∙ rw (scan_word-solid id i) (fit-IsId id i)
  where
    scanned : scan_id (connect_text id) ≡ fit (scan_word (32 ∷ id))
    scanned =
        unfold scan_id scan_id_from after_junk fit scan_word skip_spaces is_space split_word
          word_or_end in
        refl

pub scan_id-show_sum :
    (id : List ℕ) → IsId id → scan_id (bytes_of "show_sum " ++ id) ≡ some (id, [])
scan_id-show_sum id i = scanned ∙ rw (scan_word-solid id i) (fit-IsId id i)
  where
    scanned : scan_id (bytes_of "show_sum " ++ id) ≡ fit (scan_word (32 ∷ id))
    scanned =
        unfold scan_id scan_id_from after_junk fit scan_word skip_spaces is_space split_word
          word_or_end in
        refl

serve-exit :
    (users : Users) (id : List ℕ)
    → IsId id
    → serve users (exit_text id) ≡ exit_user users id (find same_text users id)
unfolding serve starts_with exit
serve-exit users id i = rw (scan_id-exit id i) refl

serve-connect :
    (users : Users) (id : List ℕ)
    → IsId id
    → serve users (connect_text id) ≡ connect_user users id (find same_text users id)
unfolding serve starts_with connect
serve-connect users id i = rw (scan_id-connect id i) refl

-- The account after its client has left or come.
abbrev pub put : Users → (id : List ℕ) → ℤ → Bool → Users
put users id money is_connected =
    assign same_text users id (record { money = money; is_connected = is_connected })

find-put :
    (users : Users) (id : List ℕ) (money : ℤ) (b : Bool)
    → find same_text (put users id money b) id ≡ some (record { money = money; is_connected = b })
find-put users id money b =
    find-assign same_text same_text-IsTest users id (record { money = money; is_connected = b }) id
    ∙ rw (same_text-IsTest.same_refl id) refl

-- A client that leaves and connects again finds its money: the account is connected with the same
-- balance, no other account has changed, and no answer is sent. A second `CONNECT` under the name
-- is answered with `;USER_EXISTS;` and changes no account.
pub run_reconnect :
    (users : Users) (id : List ℕ) {user : User}
    → IsId id
    → find same_text users id ≡ some user
    → (users' : Users) × (run users (exit_text id ∷ connect_text id ∷ connect_text id ∷ [])
        ≡ next users' (bytes_of ";USER_EXISTS;\n" ∷ []))
      × ((other : List ℕ)
          → find same_text users' other ≡ (
              if same_text id other
              then some (record { money = user.money; is_connected = true })
              else find same_text users other))
run_reconnect users id {user} i h = (
  put (put users id user.money false) id user.money true,
  unfold run go_on and_then exit_user connect_user in
      rw
        (
          serve-exit users id i,
          h,
          serve-connect (put users id user.money false) id i,
          find-put users id user.money false,
          serve-connect (put (put users id user.money false) id user.money true) id i,
          find-put (put users id user.money false) id user.money true,
        )
        refl,
  λ other.
      find-assign same_text same_text-IsTest (put users id user.money false) id _ other
      ∙ ap
          (λ e.
            if same_text id other
            then some (record { money = user.money; is_connected = true })
            else e)
          (find-assign same_text same_text-IsTest users id
            (record { money = user.money; is_connected = false }) other)
      ∙ if_twice (same_text id other) _ _ _,
)
  where
    if_twice :
        (b : Bool) (x y z : Option User)
        → (if b then x else if b then y else z) ≡ (if b then x else z)
    if_twice true x y z = refl
    if_twice false x y z = refl

-- A `send_to` with a number, for a name that has an account and with a sum that fits: the account is
-- credited with the sum and `;MONEY_SENT;` is answered. No other account changes, so that nobody is
-- debited.
pub serve_credit :
    (users : Users) (id rest : List ℕ) (sum : ℤ) (text : List ℕ) {user : User}
    → scan_id (bytes_of "send_to" ++ text) ≡ some (id, rest)
    → sum_or_zero (scan_int rest) ≡ sum
    → find same_text users id ≡ some user
    → is_int sum ≡ true
    → is_int (user.money +ℤ sum) ≡ true
    → (users' : Users) × (serve users (bytes_of "send_to" ++ text)
        ≡ next users' (bytes_of ";MONEY_SENT;\n" ∷ []))
      × ((other : List ℕ)
          → find same_text users' other ≡ (
              if same_text id other
              then some (record { money = user.money +ℤ sum; is_connected = user.is_connected })
              else find same_text users other))
serve_credit users id rest sum text {user} scanned number there fits sums = (
  put users id (user.money +ℤ sum) user.is_connected,
  unfold serve starts_with send_to send_to_user change in
      rw (scanned, number, fits, there, sums) refl,
  λ other. find-assign same_text same_text-IsTest users id _ other,
)

-- A `get` for a name that has an account and with a sum that is not negative: above the balance it
-- is answered with `;GET_ERROR;` and changes no account; otherwise, where the balance fits into an
-- `int`, the account is debited with the sum, which is never more than it holds.
pub get_user_outcome :
    (users : Users) (id : List ℕ) (sum balance : ℕ) (b : Bool)
    → balance < 2 ^ 31
    → get_user users id (pos sum) (some (record { money = pos balance; is_connected = b })) ≡ (
        if ltb balance sum
        then next users (bytes_of ";GET_ERROR;\n" ∷ [])
        else next
            (put users id (pos (balance - sum)) b)
            ((bytes_of ";GET_MONEY " ++ decimal (pos sum)) ∷ []))
get_user_outcome users id sum balance b h = elim (Bool-cases (ltb balance sum)) [
  | inl t ↦ unfold get_user in rw t refl
  | inr f ↦ unfold get_user change in rw (f, debit sum f) (ground arith)
]
  where
    debit :
        (sum : ℕ) → ltb balance sum ≡ false → pos balance +ℤ neg_ℤ (pos sum) ≡ pos (balance - sum)
    debit zero f = ground arith
    debit (suc n) f = ground arith
