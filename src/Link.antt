-- ===== src/Link.antt =====
-- The link emulator of Lab02/link_emulator/link.c: two peers, a bounded buffer between the thread
-- that receives and the thread that schedules, and the messages in flight. Both queues are lists,
-- the oldest element first. The threads are interleaved by `Event`s, one for each critical section.
pub mod Params
pub mod Argument
pub mod Order
pub mod Forwarding
pub mod Interleaving
pub mod Timing
pub mod Race
use pcom.Prelude.{
  ℕ, zero, suc, ◌+◌, ◌-◌, ◌%◌, List, [], ◌∷◌, ◌++◌, Option, none, some, Bool, true, false, ltb, leb,
  ◌==◌, ◌&&◌, ◌||◌, if◌then◌else◌, length, min,
}
use pcom.Bytes.{patch}

-- `msg`
pub record Msg : Type 0 where
  pub len : ℕ
  pub payload : List ℕ

-- `msg_in_flight`
pub record MsgInFlight : Type 0 where
  pub m : Msg
  pub finish_time : ℕ

-- One side of the link: whether a peer is known, and its address.
pub record Side : Type 0 where
  pub link_up : Bool
  pub remote_addr : ℕ

-- What `receive_message1` returns, and the datagrams that it left; `waiting` has not returned.
pub data Received : Type 0 where
  message : Side → Msg → List (Option (ℕ × Msg)) → Received
  failed waiting : Received

-- `receive_message1`: the first datagram only tells who the peer is. `none` is an error of
-- `recvfrom`.
unfoldable pub receive_message1 : Side → List (Option (ℕ × Msg)) → Received
receive_message1 side [] = waiting
receive_message1 side (none ∷ arrivals) = failed
receive_message1 side (some (sender, m) ∷ arrivals) =
    let again = receive_message1 (record { link_up = true; remote_addr = sender }) arrivals in
    if side.link_up then message side m arrivals else again

-- `receive_message2` is the same code for the other side.
unfoldable pub receive_message2 : Side → List (Option (ℕ × Msg)) → Received
receive_message2 = receive_message1

-- The parameters of the emulator, in microseconds and per cent.
pub record Config : Type 0 where
  pub serialization_delay : ℕ
  pub delay : ℕ
  pub loss : ℕ
  pub corrupt : ℕ

abbrev pub buffer_size : ℕ
buffer_size = 1000

-- What the calls of `rand` return for one message, where they are made.
pub record Draws : Type 0 where
  pub loss_draw : ℕ
  pub corrupt_draw : ℕ
  pub place : ℕ
  pub value : ℕ

-- Where the scheduler stands in its loop. `decided` is behind the first critical section, `settled`
-- behind the second; `aborted` is a failed `assert`.
pub data Stage : Type 0 where
  looking : Stage
  decided : (stuff : Bool) (crt_time : ℕ) → Stage
  settled : (crt_time : ℕ) → Stage
  sleeping : (wait_time : ℕ) → Stage
  waiting_cond aborted : Stage

pub record State : Type 0 where
  pub buffer : List Msg
  pub in_flight : List MsgInFlight
  pub idle_time : ℕ
  pub stage : Stage

unfoldable pub boot : State
boot = record { buffer = []; in_flight = []; idle_time = 0; stage = looking }

-- `m->payload[rand()%m->len] = rand()%128;`; `none` is a division by 0 or a write behind the
-- payload.
unfoldable pub corrupt_message : Draws → Msg → Option Msg
corrupt_message d m =
    if (m.len == 0) || leb (length m.payload) (d.place % m.len)
    then none
    else some (record m { payload = patch m.payload (d.place % m.len) (d.value % 128 ∷ []) })

-- A signal wakes a scheduler that waits on the condition.
unfoldable pub wake : Stage → Stage
wake waiting_cond = looking
wake stage = stage

unfoldable pub enqueue_message : Msg → State → State
enqueue_message m st = record st { buffer = st.buffer ++ (m ∷ []); stage = wake st.stage }

unfoldable pub enqueue_corrupted : Option Msg → State → Option State
enqueue_corrupted none st = none
enqueue_corrupted (some m) st = some (enqueue_message m st)

-- A round of `run_forwarding` for the message `m`. No other thread adds to `buffer`.
unfoldable pub run_forwarding : Config → Draws → Msg → State → Option State
run_forwarding cfg d m st =
    if leb buffer_size (length st.buffer) || ltb (d.loss_draw % 100) cfg.loss
    then some st
    else if ltb (d.corrupt_draw % 100) cfg.corrupt
    then enqueue_corrupted (corrupt_message d m) st
    else some (enqueue_message m st)

-- `while (in_flight->size>0)`: what is sent at `crt_time`, and what stays in flight.
unfoldable pub deliver : ℕ → List MsgInFlight → List Msg × List MsgInFlight
deliver crt_time [] = ([], [])
deliver crt_time (mif ∷ in_flight) =
    let rest = deliver crt_time in_flight in
    if ltb crt_time mif.finish_time then ([], mif ∷ in_flight) else (mif.m ∷ rest.0, rest.1)

-- The top of the loop at `now`, to the end of the first critical section; the messages sent.
unfoldable pub look : (now : ℕ) → State → State × List Msg
look now st =
    let sent = deliver now st.in_flight in
    (record st { in_flight = sent.1; stage = decided (ltb 0 (length st.buffer)) now }, sent.0)

-- `mif->m = dequeue(buffer)` and the two `assert`s behind it.
unfoldable pub load_message : Config → ℕ → State → State
load_message cfg crt_time st = elim st.buffer [
  | [] ↦ record st { stage = aborted }
  | m ∷ buffer ↦ record {
    buffer = buffer;
    in_flight =
        st.in_flight
        ++ (record { m = m; finish_time = crt_time + cfg.serialization_delay + cfg.delay } ∷ []);
    idle_time = crt_time + cfg.serialization_delay;
    stage = settled crt_time;
  }
]

-- `if (stuff && crt_time>=idle_time)`
unfoldable pub load : Config → Bool → ℕ → State → State
load cfg stuff crt_time st =
    if stuff && leb st.idle_time crt_time
    then load_message cfg crt_time st
    else record st { stage = settled crt_time }

-- `wait_time_send`, 0 where it is not positive.
unfoldable pub wait_time_send : ℕ → List MsgInFlight → ℕ
wait_time_send crt_time [] = 0
wait_time_send crt_time (mif ∷ in_flight) = mif.finish_time - crt_time

-- `usleep` until something can be done, or wait on the condition.
unfoldable pub rest_stage : ℕ → State → Stage
rest_stage crt_time st =
    let idle = st.idle_time - crt_time in
    let send = wait_time_send crt_time st.in_flight in
    if ltb 0 idle || ltb 0 send
    then sleeping (if ltb 0 send && ltb send idle then send else idle)
    else if ltb 0 (length st.buffer)
    then aborted
    else waiting_cond

-- What happens next: a message comes in, or the scheduler goes on to the end of its next critical
-- section, at the time that `now` gives if it reads the clock.
pub data Event : Type 0 where
  arrive : Draws → Msg → Event
  advance : (now : ℕ) → Event

-- A step of the scheduler.
unfoldable pub schedule : Config → ℕ → Stage → State → State × List Msg
schedule cfg now looking st = look now st
schedule cfg now (decided stuff crt_time) st = (load cfg stuff crt_time st, [])
schedule cfg now (settled crt_time) st = (record st { stage = rest_stage crt_time st }, [])
schedule cfg now (sleeping wait_time) st = (record st { stage = looking }, [])
schedule cfg now waiting_cond st = (st, [])
schedule cfg now aborted st = (st, [])
