-- ===== src/Relay/Letters.antt =====
-- Who gets which message, and what a message for nobody does.
use pcom.Prelude.{
  ℕ, ◌+◌, ◌≤◌, List, [], ◌∷◌, ◌++◌, true, false, leb, ◌&&◌, ◌≡◌, refl, arith, append-nil, sym, ap,
  ◌∙◌, ◌-◌,
}
use pcom.Scan.{c_text}
use pcom.Relay.{
  Event, connection, received, Sent, Outcome, next, died, is_open, fd_clr, behind_number, relay,
  handle, sent_before, run,
}

-- The messages of a run, from the open connections `clients` to the open connections `clients'`: each is
-- for an open connection of 4 to 9, or names no socket.
pub data Spoken
    : (clients : List ℕ)
      → (events : List Event) → (letters : List Sent) → (clients' : List ℕ) → Type 0 where
  silence : {clients : List ℕ} → Spoken clients [] [] clients
  joins :
      {i : ℕ} {clients clients' : List ℕ} {events : List Event} {letters : List Sent}
      → Spoken (clients ++ (i ∷ [])) events letters clients'
      → Spoken clients (connection i ∷ events) letters clients'
  leaves :
      {i : ℕ} {clients clients' : List ℕ} {events : List Event} {letters : List Sent}
      → Spoken (fd_clr i clients) events letters clients'
      → Spoken clients (received i [] ∷ events) letters clients'
  writes :
      {i client_no space : ℕ} {text : List ℕ} {clients clients' : List ℕ} {events : List Event}
      {letters : List Sent}
      → 4 ≤ client_no
      → client_no ≤ 9
      → is_open clients client_no ≡ true
      → Spoken clients events letters clients'
      → Spoken clients
          (received i ((48 + client_no) ∷ space ∷ text) ∷ events)
          (record { client_no = client_no; text = c_text text } ∷ letters)
          clients'
  babbles :
      {i c : ℕ} {text : List ℕ} {clients clients' : List ℕ} {events : List Event}
      {letters : List Sent}
      → leb 52 c && leb c 57 ≡ false
      → Spoken clients events letters clients'
      → Spoken clients (received i (c ∷ text) ∷ events) letters clients'

is_number : (n : ℕ) → 4 ≤ n → n ≤ 9 → leb 52 (48 + n) && leb (48 + n) 57 ≡ true
is_number n h k = ground arith

number_back : (n : ℕ) → 48 + n - 48 ≡ n
number_back n = omega arith

relay_open :
    (clients : List ℕ)
    → (i client_no space : ℕ) → (text : List ℕ) → 4 ≤ client_no
    → client_no ≤ 9
    → is_open clients client_no ≡ true
    → handle clients (received i ((48 + client_no) ∷ space ∷ text))
      ≡ next clients (record { client_no = client_no; text = c_text text } ∷ [])
unfolding handle relay behind_number
relay_open clients i client_no space text h k o =
    rw (is_number client_no h k, number_back client_no, o) refl

relay_closed :
    (clients : List ℕ)
    → (i client_no : ℕ) → (text : List ℕ) → 4 ≤ client_no
    → client_no ≤ 9
    → is_open clients client_no ≡ false
    → handle clients (received i ((48 + client_no) ∷ text)) ≡ died []
unfolding handle relay
relay_closed clients i client_no text h k o =
    rw (is_number client_no h k, number_back client_no, o) refl

relay_none :
    (clients : List ℕ)
    → (i c : ℕ) → (text : List ℕ) → leb 52 c && leb c 57 ≡ false
    → handle clients (received i (c ∷ text)) ≡ next clients []
unfolding handle relay
relay_none clients i c text h = rw h refl

sent_before_nil : (o : Outcome) → sent_before [] o ≡ o
sent_before_nil (next clients sent) = refl
sent_before_nil (died sent) = refl

sent_before_cons :
    (s : Sent)
    → (sent : List Sent) → (o : Outcome)
    → sent_before (s ∷ []) (sent_before sent o) ≡ sent_before (s ∷ sent) o
sent_before_cons s sent (next clients more) = refl
sent_before_cons s sent (died more) = refl

run_next :
    (clients : List ℕ)
    → (event : Event) → (events : List Event) → {clients' : List ℕ} {sent : List Sent}
    → handle clients event ≡ next clients' sent
    → run clients (event ∷ events) ≡ sent_before sent (run clients' events)
unfolding run
run_next clients event events h = rw (run, h) refl

run_died :
    (clients : List ℕ)
    → (event : Event) → (events : List Event) → handle clients event ≡ died []
    → run clients (event ∷ events) ≡ died []
unfolding run
run_died clients event events h = rw (run, h) refl

-- What is said first does not change what comes after it.
run_then :
    {clients clients' : List ℕ} {events : List Event} {letters : List Sent}
    → Spoken clients events letters clients'
    → (after : List Event)
    → run clients (events ++ after) ≡ sent_before letters (run clients' after)
unfolding run handle
run_then (silence {clients = clients}) after = sym (sent_before_nil (run clients after))
run_then (joins p) after = rw (run_then p after, sent_before_nil) refl
run_then (leaves p) after = rw (run_then p after, sent_before_nil) refl
run_then
      (writes {i = i} {client_no = n} {space = space} {text = text} {clients = clients}
        {events = events} h k o p)
      after =
    run_next clients (received i ((48 + n) ∷ space ∷ text)) (events ++ after)
      (relay_open clients i n space text h k o)
    ∙ rw (run_then p after, sent_before_cons) refl
run_then (babbles {i = i} {c = c} {text = text} {clients = clients} {events = events} h p) after =
    run_next clients (received i (c ∷ text)) (events ++ after) (relay_none clients i c text h)
    ∙ rw (run_then p after, sent_before_nil) refl

-- Where every message that names a socket names an open one, each is sent, without its number and up
-- to its NUL, to that client and to nobody else, in the order in which they came, and the server goes on.
pub run-Spoken :
    {clients clients' : List ℕ} {events : List Event} {letters : List Sent}
    → Spoken clients events letters clients'
    → run clients events ≡ next clients' letters
unfolding run
run-Spoken {clients' = clients'} {events = events} {letters = letters} p =
    ap (run _) (sym (append-nil events)) ∙ run_then p [] ∙ ap (next clients') (append-nil letters)

-- The first message for a number that is no open connection ends the server for all clients, whatever
-- would come after it.
pub run_dies :
    {clients clients' : List ℕ} {events : List Event} {letters : List Sent}
    → Spoken clients events letters clients'
    → (i client_no : ℕ) → (text : List ℕ) → (after : List Event) → 4 ≤ client_no
    → client_no ≤ 9
    → is_open clients' client_no ≡ false
    → run clients (events ++ (received i ((48 + client_no) ∷ text) ∷ after)) ≡ died letters
run_dies {clients' = clients'} {letters = letters} p i client_no text after h k o =
    run_then p (received i ((48 + client_no) ∷ text) ∷ after)
    ∙ ap (sent_before letters) (
        run_died clients' (received i ((48 + client_no) ∷ text)) after
          (relay_closed clients' i client_no text h k o))
    ∙ ap died (append-nil letters)
