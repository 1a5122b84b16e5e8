-- ===== src/Link/Race.antt =====
-- What the scheduler does when it has nothing to load.
use pcom.Prelude.{ℕ, ◌≤◌, ◌<◌, List, [], ◌∷◌, ◌≡◌, arith}
use pcom.Link.{
  Msg, MsgInFlight, Config, settled, sleeping, aborted, waiting_cond, State, enqueue_message,
  wait_time_send, rest_stage, schedule,
}

module _ (cfg : Config) (now crt_time : ℕ) (st : State) (idle : st.idle_time ≤ crt_time) where
  -- A scheduler with an idle link and nothing in flight waits on the condition if no message came
  -- in since it looked; if one did, its `assert` fails and the program aborts.
  pub schedule-settled :
      (m : Msg)
      → st.in_flight ≡ []
      → st.buffer ≡ []
      → ((schedule cfg now (settled crt_time) st).0.stage ≡ waiting_cond)
        × ((schedule cfg now (settled crt_time) (enqueue_message m st)).0.stage ≡ aborted)
  unfolding schedule rest_stage enqueue_message wait_time_send
  schedule-settled m none_in_flight empty =
      (rw (none_in_flight, empty) (ground arith), rw (none_in_flight, empty) (ground arith))

  -- With an idle link and a message in flight that is not due, the scheduler sleeps for no time at
  -- all: it turns in its loop until the message is due.
  pub schedule-busy :
      (mif : MsgInFlight) (in_flight : List MsgInFlight)
      → st.in_flight ≡ mif ∷ in_flight
      → crt_time < mif.finish_time
      → (schedule cfg now (settled crt_time) st).0.stage ≡ sleeping 0
  unfolding schedule rest_stage wait_time_send
  schedule-busy mif in_flight e late = rw e (ground arith)
