-- ===== src/Link/Timing.antt =====
-- When the link sends: never before a message's time, and at most one message for each
-- `serialization_delay`.
use pcom.Prelude.{
  ℕ, ◌+◌, ◌≤◌, ◌<◌, List, [], ◌∷◌, ◌++◌, ◌≡◌, refl, ap, arith, ltb, leb, ◌&&◌, Bool-cases, inl, inr,
  All,
}
use pcom.Link.{
  Msg, MsgInFlight, Config, Stage, looking, decided, settled, sleeping, waiting_cond, aborted,
  State, deliver, look, load_message, load, schedule,
}
use pcom.Link.Order.{messages}

-- Times at least `gap` apart, in order, none after `last`.
abbrev pub IsSpaced : (gap last : ℕ) → List MsgInFlight → Type 0
IsSpaced gap last [] = Unit
IsSpaced gap last (mif ∷ in_flight) =
    (mif.finish_time ≤ last)
    × All (λ other. mif.finish_time + gap ≤ other.finish_time) in_flight
    × IsSpaced gap last in_flight

All-snoc :
    (P : MsgInFlight → Type 0) (xs : List MsgInFlight) (y : MsgInFlight)
    → All P xs
    → P y
    → All P (xs ++ (y ∷ []))
All-snoc P [] y h p = (p, tt)
All-snoc P (x ∷ xs) y (h, hs) p = (h, All-snoc P xs y hs p)

-- A later message behind the others.
IsSpaced-snoc :
    (gap last : ℕ) (in_flight : List MsgInFlight) (mif : MsgInFlight)
    → IsSpaced gap last in_flight
    → last + gap ≤ mif.finish_time
    → IsSpaced gap mif.finish_time (in_flight ++ (mif ∷ []))
IsSpaced-snoc gap last [] mif s h = (omega arith, tt, tt)
IsSpaced-snoc gap last (x ∷ in_flight) mif (b, gaps, s) h = (
  omega arith,
  All-snoc (λ other. x.finish_time + gap ≤ other.finish_time) in_flight mif gaps (omega arith),
  IsSpaced-snoc gap last in_flight mif s h,
)

-- What `deliver` does: the messages that are due leave, the others are all later.
pub record IsDelivered (crt_time : ℕ) (in_flight : List MsgInFlight) : Type 0 where
  pub due : List MsgInFlight
  pub late : List MsgInFlight
  pub parts : in_flight ≡ due ++ late
  pub are_due : All (λ mif. mif.finish_time ≤ crt_time) due
  pub are_late : All (λ mif. crt_time < mif.finish_time) late
  pub delivers : deliver crt_time in_flight ≡ (messages due, late)

all_late :
    (crt_time time gap : ℕ) (in_flight : List MsgInFlight)
    → crt_time < time
    → All (λ other. time + gap ≤ other.finish_time) in_flight
    → All (λ mif. crt_time < mif.finish_time) in_flight
all_late crt_time time gap [] h s = tt
all_late crt_time time gap (mif ∷ in_flight) h (g, s) =
    (omega arith, all_late crt_time time gap in_flight h s)

-- Of messages in flight at increasing times, exactly those whose time has come are sent.
pub deliver-IsDelivered :
    (gap last crt_time : ℕ) (in_flight : List MsgInFlight)
    → IsSpaced gap last in_flight
    → IsDelivered crt_time in_flight
unfolding deliver
deliver-IsDelivered gap last crt_time [] s = record {
  due = [];
  late = [];
  parts = refl;
  are_due = tt;
  are_late = tt;
  delivers = refl;
}
deliver-IsDelivered gap last crt_time (mif ∷ in_flight) (b, gaps, s) =
    elim (Bool-cases (ltb crt_time mif.finish_time)) [
      | inl t ↦ record {
        due = [];
        late = mif ∷ in_flight;
        parts = refl;
        are_due = tt;
        are_late =
            (ground arith, all_late crt_time mif.finish_time gap in_flight (ground arith) gaps);
        delivers = rw t refl;
      }
      | inr f ↦
          (let d = deliver-IsDelivered gap last crt_time in_flight s in
            record {
              due = mif ∷ d.due;
              late = d.late;
              parts = ap (λ xs. mif ∷ xs) d.parts;
              are_due = (ground arith, d.are_due);
              are_late = d.are_late;
              delivers = rw (f, d.delivers) refl;
            })
    ]

IsSpaced-drop :
    (gap last crt_time : ℕ) (in_flight : List MsgInFlight)
    → IsSpaced gap last in_flight
    → IsSpaced gap last ((deliver crt_time in_flight).1)
unfolding deliver
IsSpaced-drop gap last crt_time [] s = tt
IsSpaced-drop gap last crt_time (mif ∷ in_flight) (b, gaps, s) =
    elim (Bool-cases (ltb crt_time mif.finish_time)) [
      | inl t ↦ rw t (b, gaps, s)
      | inr f ↦ rw f (IsSpaced-drop gap last crt_time in_flight s)
    ]

-- The messages in flight are spaced, and none is later than the time that the link is idle again
-- plus the delay.
abbrev pub IsTimed : Config → State → Type 0
IsTimed cfg st = IsSpaced cfg.serialization_delay (st.idle_time + cfg.delay) st.in_flight

load_message-IsTimed :
    (cfg : Config) (crt_time : ℕ) (st : State) (buffer : List Msg)
    → st.buffer ≡ buffer
    → st.idle_time ≤ crt_time
    → IsTimed cfg st
    → IsTimed cfg (load_message cfg crt_time st)
unfolding load_message
load_message-IsTimed cfg crt_time st [] e h s = rw e s
load_message-IsTimed cfg crt_time st (m ∷ buffer) e h s = rw e (
    IsSpaced-snoc cfg.serialization_delay (st.idle_time + cfg.delay) st.in_flight
      (record { m = m; finish_time = crt_time + cfg.serialization_delay + cfg.delay }) s
      (omega arith))

-- Every step of the scheduler keeps the messages in flight a `serialization_delay` apart, whatever
-- the clock reads.
pub schedule-IsTimed :
    (cfg : Config) (now : ℕ) (stage : Stage) (st : State)
    → IsTimed cfg st
    → IsTimed cfg ((schedule cfg now stage st).0)
unfolding schedule look load
schedule-IsTimed cfg now looking st s = IsSpaced-drop _ _ now st.in_flight s
schedule-IsTimed cfg now (decided stuff crt_time) st s =
    elim (Bool-cases (stuff && leb st.idle_time crt_time)) [
      | inl t ↦ rw t (load_message-IsTimed cfg crt_time st st.buffer refl (ground arith) s)
      | inr f ↦ rw f s
    ]
schedule-IsTimed cfg now (settled crt_time) st s = s
schedule-IsTimed cfg now (sleeping wait_time) st s = s
schedule-IsTimed cfg now waiting_cond st s = s
schedule-IsTimed cfg now aborted st s = s
