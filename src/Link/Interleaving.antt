-- ===== src/Link/Interleaving.antt =====
-- Both threads of the link in any interleaving: order and bound of what they hold.
use pcom.Prelude.{
  ℕ, ◌≤◌, List, [], ◌∷◌, ◌++◌, append_assoc, append-nil, ◌≡◌, refl, sym, ap, ◌∙◌, arith, some, leb,
  ◌&&◌, Bool-cases, inl, inr, length, length-append,
}
use pcom.Link.{
  Msg, Config, Draws, Stage, looking, decided, settled, sleeping, waiting_cond, aborted, State,
  enqueue_message, run_forwarding, look, load_message, load, schedule, buffer_size,
}
use pcom.Link.Order.{messages, held, schedule-held}
use pcom.Link.Forwarding.{
  Arrival, Accepts, arrival, Forwarded, dropped, queued, run_forwarding-Forwarded,
}

-- The accepted messages of all that came in, in order.
pub data AcceptsAll (cfg : Config) : List Arrival → List Msg → Type 0 where
  accepts_nil : AcceptsAll cfg [] []
  accepts_cons :
      {a : Arrival} {arrivals : List Arrival} {some_of accepted : List Msg}
      → Accepts cfg a some_of
      → AcceptsAll cfg arrivals accepted
      → AcceptsAll cfg (a ∷ arrivals) (some_of ++ accepted)

load_message-buffer :
    (cfg : Config) (crt_time : ℕ) (st : State) (buffer : List Msg)
    → st.buffer ≡ buffer
    → length ((load_message cfg crt_time st).buffer) ≤ length st.buffer
unfolding load_message
load_message-buffer cfg crt_time st [] e = rw e (omega arith)
load_message-buffer cfg crt_time st (m ∷ buffer) e = rw e (omega arith)

-- The scheduler only takes from the buffer.
schedule-buffer :
    (cfg : Config) (now : ℕ) (stage : Stage) (st : State)
    → length ((schedule cfg now stage st).0.buffer) ≤ length st.buffer
unfolding schedule look load
schedule-buffer cfg now looking st = omega arith
schedule-buffer cfg now (decided stuff crt_time) st =
    elim (Bool-cases (stuff && leb st.idle_time crt_time)) [
      | inl t ↦ rw t (load_message-buffer cfg crt_time st st.buffer refl)
      | inr f ↦ rw f (omega arith)
    ]
schedule-buffer cfg now (settled crt_time) st = omega arith
schedule-buffer cfg now (sleeping wait_time) st = omega arith
schedule-buffer cfg now waiting_cond st = omega arith
schedule-buffer cfg now aborted st = omega arith

-- Runs of the two threads in any interleaving: from a state, the messages that come in, those that
-- are sent, and the state reached.
pub data Steps (cfg : Config) : State → List Arrival → List Msg → State → Type 0 where
  finish : {st : State} → Steps cfg st [] [] st
  advance :
      {st st' : State} {arrivals : List Arrival} {sent : List Msg} (now : ℕ)
      → Steps cfg ((schedule cfg now st.stage st).0) arrivals sent st'
      → Steps cfg st arrivals ((schedule cfg now st.stage st).1 ++ sent) st'
  arrive :
      {st mid st' : State} {arrivals : List Arrival} {sent : List Msg} (d : Draws) (m : Msg)
      → run_forwarding cfg d m st ≡ some mid
      → Steps cfg mid arrivals sent st'
      → Steps cfg st (arrival st d m ∷ arrivals) sent st'

-- The accepted messages, with what becomes of them.
pub record Conserves (cfg : Config) (st : State) (arrivals : List Arrival) (sent : List Msg)
    (st' : State) : Type 0 where
  pub accepted : List Msg
  pub accepts : AcceptsAll cfg arrivals accepted
  pub in_order : sent ++ held st' ≡ held st ++ accepted
  pub bounded : length st.buffer ≤ buffer_size → length st'.buffer ≤ buffer_size

Conserves-arrive :
    {cfg : Config} {st mid st' : State} {arrivals : List Arrival} {sent : List Msg} (d : Draws)
    (m : Msg)
    → Forwarded cfg d m st mid
    → Conserves cfg mid arrivals sent st'
    → Conserves cfg st (arrival st d m ∷ arrivals) sent st'
unfolding enqueue_message
Conserves-arrive d m (dropped a) c = record {
  accepted = c.accepted;
  accepts = accepts_cons a c.accepts;
  in_order = c.in_order;
  bounded = c.bounded;
}
Conserves-arrive {st = st} {sent = sent} d m (queued m' a room) c = record {
  accepted = m' ∷ c.accepted;
  accepts = accepts_cons a c.accepts;
  in_order =
      c.in_order
      ∙ ap (λ zs. zs ++ c.accepted) (sym (append_assoc (messages st.in_flight) st.buffer (m' ∷ [])))
      ∙ append_assoc (held st) (m' ∷ []) c.accepted;
  bounded = λ h. c.bounded (omega (arith, length-append st.buffer (m' ∷ [])));
}

-- In any interleaving of the threads, what was sent, followed by what the link holds, is what it
-- held at first followed by the accepted messages in the order of their arrival; a message is not
-- accepted only where the buffer was full or its draw below the rate of loss, and else it is as it came
-- or, where the other draw was below the rate of corruption, has one byte overwritten; and the buffer
-- stays within its 1000 places.
pub Steps-Conserves :
    (cfg : Config) {st st' : State} {arrivals : List Arrival} {sent : List Msg}
    → Steps cfg st arrivals sent st'
    → Conserves cfg st arrivals sent st'
Steps-Conserves cfg finish = record {
  accepted = [];
  accepts = accepts_nil;
  in_order = sym (append-nil _);
  bounded = λ h. h;
}
Steps-Conserves cfg {st} {st'} (advance {sent} now steps) =
    let c = Steps-Conserves cfg steps in
    record {
      accepted = c.accepted;
      accepts = c.accepts;
      in_order =
          append_assoc ((schedule cfg now st.stage st).1) sent (held st')
          ∙ ap (λ zs. (schedule cfg now st.stage st).1 ++ zs) c.in_order
          ∙ sym (
              append_assoc ((schedule cfg now st.stage st).1)
                (held ((schedule cfg now st.stage st).0)) c.accepted)
          ∙ ap (λ zs. zs ++ c.accepted) (schedule-held cfg now st.stage st);
      bounded = λ h. c.bounded (omega (arith, schedule-buffer cfg now st.stage st));
    }
Steps-Conserves cfg (arrive d m e steps) =
    Conserves-arrive d m (run_forwarding-Forwarded cfg d m _ e) (Steps-Conserves cfg steps)
