-- ===== src/Link/Order.antt =====
-- The link keeps the order of its messages, and its buffer is bounded.
use pcom.Prelude.{
  ℕ, List, [], ◌∷◌, ◌++◌, append_assoc, ◌≡◌, refl, sym, ap, ◌∙◌, ltb, leb, ◌&&◌, Bool-cases, inl,
  inr,
}
use pcom.Link.{
  Msg, MsgInFlight, Config, Stage, looking, decided, settled, sleeping, waiting_cond, aborted,
  State, deliver, look, load_message, load, schedule,
}

abbrev pub messages : List MsgInFlight → List Msg
messages [] = []
messages (mif ∷ in_flight) = mif.m ∷ messages in_flight

-- The messages that the link holds, the oldest first.
abbrev pub held : State → List Msg
held st = messages st.in_flight ++ st.buffer

messages-append : (xs ys : List MsgInFlight) → messages (xs ++ ys) ≡ messages xs ++ messages ys
messages-append [] ys = refl
messages-append (x ∷ xs) ys = ap (λ zs. x.m ∷ zs) (messages-append xs ys)

deliver-messages :
    (crt_time : ℕ) (in_flight : List MsgInFlight)
    → (deliver crt_time in_flight).0 ++ messages ((deliver crt_time in_flight).1)
      ≡ messages in_flight
unfolding deliver
deliver-messages crt_time [] = refl
deliver-messages crt_time (mif ∷ in_flight) = elim (Bool-cases (ltb crt_time mif.finish_time)) [
  | inl t ↦ rw t refl
  | inr f ↦ rw f (ap (λ zs. mif.m ∷ zs) (deliver-messages crt_time in_flight))
]

load_message-held :
    (cfg : Config) (crt_time : ℕ) (st : State) (buffer : List Msg)
    → st.buffer ≡ buffer
    → held (load_message cfg crt_time st) ≡ held st
unfolding load_message
load_message-held cfg crt_time st [] e = rw e refl
load_message-held cfg crt_time st (m ∷ buffer) e = rw e (
    ap (λ zs. zs ++ buffer) (messages-append st.in_flight _)
    ∙ append_assoc (messages st.in_flight) (m ∷ []) buffer)

-- A step of the scheduler sends the oldest messages that the link holds and keeps the others, in
-- their order: none is lost, doubled or overtaken.
pub schedule-held :
    (cfg : Config) (now : ℕ) (stage : Stage) (st : State)
    → (schedule cfg now stage st).1 ++ held ((schedule cfg now stage st).0) ≡ held st
unfolding schedule look load
schedule-held cfg now looking st =
    sym (append_assoc _ (messages ((deliver now st.in_flight).1)) st.buffer)
    ∙ ap (λ zs. zs ++ st.buffer) (deliver-messages now st.in_flight)
schedule-held cfg now (decided stuff crt_time) st =
    elim (Bool-cases (stuff && leb st.idle_time crt_time)) [
      | inl t ↦ rw t (load_message-held cfg crt_time st st.buffer refl)
      | inr f ↦ rw f refl
    ]
schedule-held cfg now (settled crt_time) st = refl
schedule-held cfg now (sleeping wait_time) st = refl
schedule-held cfg now waiting_cond st = refl
schedule-held cfg now aborted st = refl
