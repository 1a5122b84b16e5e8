-- ===== src/Client/Access.antt =====
-- What a session can hold, and what it sends.
use pcom.Prelude.{
  ℕ, ◌<◌, ◌≤◌, List, [], ◌∷◌, ◌≡◌, ◌⊎◌, inl, inr, refl, arith, Option, none, some, true, false,
  ◌&&◌, not, ltb, if◌then◌else◌, Bool-cases, ℤ, length, All,
}
use pcom.Text.{bytes_of, strstr}
use pcom.Client.{
  Session, Notice, not_connected, no_library, unknown_error, Round, next, leave, undefined, talk,
  has_error, register, login, take_cookie, find_cookie, take_token, find_token, with_text,
  enter_library, guarded, ask, get_books, get_book, add_book, delete_book, forget, logout,
}
use pcom.Client.Messages.{access_message}
use pcom.Client.Loop.{
  Command, exit_command, register_command, login_command, enter_command, list_command, get_command,
  add_command, delete_command, logout_command, unknown, starved, perform,
}

-- Access to the library is held only by a session that has logged in.
pub record IsSession (s : Session) : Type 0 where
  pub access : s.jwt_access ≡ true → s.logged_in ≡ true

closed :
    (s : Session)
    → (s.logged_in ≡ false) ⊎ (s.jwt_access ≡ false)
    → (s.logged_in && s.jwt_access) ≡ false
closed s (inl l) = rw l refl
closed s (inr a) = elim (Bool-cases s.logged_in) [ inl t ↦ rw (t, a) refl | inr f ↦ rw f refl ]

-- A round that keeps `IsSession`, and sends at most one request, which fits in its array.
abbrev pub IsSafe : Round → Type 0
IsSafe (next s sent notices) =
    IsSession s × All (λ message. length message < 500) sent × (length sent ≤ 1)
IsSafe leave = Unit
IsSafe undefined = Unit

module _ (server : List ℕ → List ℕ) (s : Session) (v : IsSession s) where
  talk-IsSafe :
      (message : List ℕ) (then_do : List ℕ → Round)
      → (length message < 500 → (response : List ℕ) → IsSafe (then_do response))
      → IsSafe (talk server message then_do)
  unfolding talk
  talk-IsSafe message then_do h = elim (Bool-cases (ltb (length message) 500)) [
    | inl t ↦ rw t (h (ground arith) (server message))
    | inr f ↦ rw f tt
  ]

  take_cookie-IsSafe :
      (message response : List ℕ) (start : ℕ) (end : Option ℕ)
      → length message < 500
      → IsSafe (take_cookie s message response start end)
  unfolding take_cookie
  take_cookie-IsSafe message response start none h = tt
  take_cookie-IsSafe message response start (some end) h = elim (Bool-cases (ltb end 20)) [
    | inl t ↦ rw t tt
    | inr f ↦ rw f (record { access = λ a. refl }, (h, tt), omega arith)
  ]

  find_cookie-IsSafe :
      (message response : List ℕ) (start : Option ℕ)
      → length message < 500
      → IsSafe (find_cookie s message response start)
  unfolding find_cookie
  find_cookie-IsSafe message response none h = (v, (h, tt), omega arith)
  find_cookie-IsSafe message response (some start) h = take_cookie-IsSafe message response start _ h

  take_token-IsSafe :
      (message response : List ℕ) (end : ℕ) (start : Option ℕ)
      → s.logged_in ≡ true
      → length message < 500
      → IsSafe (take_token s message response end start)
  unfolding take_token
  take_token-IsSafe message response end none l h = tt
  take_token-IsSafe message response end (some start) l h =
      (record { access = λ a. l }, (h, tt), omega arith)

  find_token-IsSafe :
      (message response : List ℕ) (end : Option ℕ)
      → s.logged_in ≡ true
      → length message < 500
      → IsSafe (find_token s message response end)
  unfolding find_token
  find_token-IsSafe message response none l h = tt
  find_token-IsSafe message response (some end) l h = take_token-IsSafe message response end _ l h

  with_text-IsSafe :
      (text : Option (List ℕ)) (then_do : List ℕ → Round)
      → ((t : List ℕ) → IsSafe (then_do t))
      → IsSafe (with_text text then_do)
  unfolding with_text
  with_text-IsSafe none then_do h = tt
  with_text-IsSafe (some t) then_do h = h t

  ask-IsSafe :
      (request : List ℕ → List ℕ → List ℕ) (failure : Notice) (success : List ℕ → Notice)
      → IsSafe (ask server s request failure success)
  unfolding ask
  ask-IsSafe request failure success = with_text-IsSafe s.jwt _ λ jwt.
      with_text-IsSafe s.cookie _
        λ cookie. talk-IsSafe (request jwt cookie) _ λ h response. (v, (h, tt), omega arith)

  guarded-IsSafe :
      (refusal : Notice) (allowed : Round) → IsSafe allowed → IsSafe (guarded s refusal allowed)
  unfolding guarded
  guarded-IsSafe refusal allowed h = elim (Bool-cases (s.logged_in && s.jwt_access)) [
    | inl t ↦ rw t h
    | inr f ↦ rw f (v, tt, omega arith)
  ]

  forget-IsSafe : (round : Round) → IsSafe round → IsSafe (forget round)
  unfolding forget
  forget-IsSafe (next s' sent notices) (w, h, n) =
      (record { access = λ a. absurd (ground arith) }, h, n)
  forget-IsSafe leave h = tt
  forget-IsSafe undefined h = tt

  login-IsSafe : (name pass : List ℕ) → IsSafe (login server s name pass)
  unfolding login
  login-IsSafe name pass = talk-IsSafe _ _ λ h response. elim (Bool-cases (has_error response)) [
    | inl t ↦ rw t (v, (h, tt), omega arith)
    | inr f ↦ rw f (find_cookie-IsSafe _ response _ h)
  ]

  enter_library-IsSafe : IsSafe (enter_library server s)
  unfolding enter_library
  enter_library-IsSafe = elim (Bool-cases (not s.logged_in)) [
    | inl f ↦ rw f (v, tt, omega arith)
    | inr l ↦
        rw l
          (with_text-IsSafe s.cookie _ λ cookie. talk-IsSafe _ _ (answered cookie (ground arith)))
  ]
    where
      answered :
          (cookie : List ℕ)
          → s.logged_in ≡ true
          → length (access_message cookie) < 500
          → (response : List ℕ)
          → IsSafe (
              if has_error response
              then next s (access_message cookie ∷ []) (unknown_error ∷ [])
              else find_token s (access_message cookie) response (strstr response (bytes_of "\"}")))
      answered cookie l h response = elim (Bool-cases (has_error response)) [
        | inl t ↦ rw t (v, (h, tt), omega arith)
        | inr f ↦ rw f (find_token-IsSafe _ response _ l h)
      ]

  logout-IsSafe : IsSafe (logout server s)
  unfolding logout
  logout-IsSafe = elim (Bool-cases (s.logged_in && s.jwt_access)) [
    | inl t ↦ rw t (forget-IsSafe _ (ask-IsSafe _ _ _))
    | inr f ↦ rw f (v, tt, omega arith)
  ]

  -- Every command of a session in which access implies a log-in leaves such a session, and sends at
  -- most one request, shorter than the 500 bytes of its array.
  pub perform-IsSafe :
      (atoi : List ℕ → ℤ) (command : Command) → IsSafe (perform atoi server s command)
  unfolding perform register get_books get_book add_book delete_book
  perform-IsSafe atoi exit_command = tt
  perform-IsSafe atoi (register_command name pass) =
      talk-IsSafe _ _ λ h response. (v, (h, tt), omega arith)
  perform-IsSafe atoi (login_command name pass) = login-IsSafe name pass
  perform-IsSafe atoi enter_command = enter_library-IsSafe
  perform-IsSafe atoi list_command = guarded-IsSafe _ _ (ask-IsSafe _ _ _)
  perform-IsSafe atoi (get_command id) = guarded-IsSafe _ _ (ask-IsSafe _ _ _)
  perform-IsSafe atoi (add_command title author genre publisher page_count) =
      guarded-IsSafe _ _ (ask-IsSafe _ _ _)
  perform-IsSafe atoi (delete_command id) = guarded-IsSafe _ _ (ask-IsSafe _ _ _)
  perform-IsSafe atoi logout_command = logout-IsSafe
  perform-IsSafe atoi unknown = (v, tt, omega arith)
  perform-IsSafe atoi starved = tt

-- The commands that need access to the library.
pub data NeedsAccess : Command → Type 0 where
  lists : NeedsAccess list_command
  gets : (id : List ℕ) → NeedsAccess (get_command id)
  adds :
      (title author genre publisher page_count : List ℕ)
      → NeedsAccess (add_command title author genre publisher page_count)
  deletes : (id : List ℕ) → NeedsAccess (delete_command id)
  logs_out : NeedsAccess logout_command

-- Without a log-in or without access, a command that needs access sends nothing, leaves the session
-- as it is, and prints one refusal, whatever the server would answer.
pub perform-refused :
    (atoi : List ℕ → ℤ) (server : List ℕ → List ℕ) (s : Session) (command : Command)
    → (s.logged_in ≡ false) ⊎ (s.jwt_access ≡ false)
    → NeedsAccess command
    → (refusal : Notice) × (perform atoi server s command ≡ next s [] (refusal ∷ []))
unfolding perform get_books get_book add_book delete_book logout guarded
perform-refused atoi server s _ h lists = (no_library, rw (closed s h) refl)
perform-refused atoi server s _ h (gets id) = (no_library, rw (closed s h) refl)
perform-refused atoi server s _ h (adds title author genre publisher page_count) =
    (no_library, rw (closed s h) refl)
perform-refused atoi server s _ h (deletes id) = (no_library, rw (closed s h) refl)
perform-refused atoi server s _ h logs_out = (not_connected, rw (closed s h) refl)
