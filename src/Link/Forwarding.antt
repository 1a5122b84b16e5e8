-- ===== src/Link/Forwarding.antt =====
-- What a round of `run_forwarding` accepts of a message.
use pcom.Prelude.{
  false, ==→ne, ℕ, ◌%◌, ◌==◌, ◌≤◌, ◌<◌, List, [], ◌∷◌, ◌≡◌, refl, arith, Option, none, some, ltb,
  leb, Bool-cases, inl, inr, length,
}
use mathlib.Core.Option.{some-injective, none-ne-some}
use pcom.Bytes.{patch}
use pcom.Link.{
  Msg, Config, Draws, State, corrupt_message, enqueue_message, enqueue_corrupted, run_forwarding,
  buffer_size,
}

-- A message that comes in, with the random numbers drawn for it and the number of messages that wait
-- in the buffer at that time.
pub record Arrival : Type 0 where
  pub waiting : ℕ
  pub draws : Draws
  pub m : Msg

-- The message, with one byte of the text overwritten by one below 128.
pub data IsCorrupted (m : Msg) : Msg → Type 0 where
  one_byte :
      (place value : ℕ)
      → place < m.len
      → place < length m.payload
      → value < 128
      → IsCorrupted m (record { len = m.len; payload = patch m.payload place (value ∷ []) })

-- What is accepted of a message: nothing where the buffer is full or the draw is below the loss rate,
-- else the message as it came or, where the draw is below that rate, corrupted.
pub data Accepts (cfg : Config) (a : Arrival) : List Msg → Type 0 where
  no_room : buffer_size ≤ a.waiting → Accepts cfg a []
  lost : a.draws.loss_draw % 100 < cfg.loss → Accepts cfg a []
  intact :
      a.waiting < buffer_size
      → cfg.loss ≤ a.draws.loss_draw % 100
      → cfg.corrupt ≤ a.draws.corrupt_draw % 100
      → Accepts cfg a (a.m ∷ [])
  corrupted :
      (m' : Msg)
      → a.waiting < buffer_size
      → cfg.loss ≤ a.draws.loss_draw % 100
      → a.draws.corrupt_draw % 100 < cfg.corrupt
      → IsCorrupted a.m m'
      → Accepts cfg a (m' ∷ [])

-- The arrival of a message in a state.
abbrev pub arrival : State → Draws → Msg → Arrival
arrival st d m = record { waiting = length st.buffer; draws = d; m = m }

-- What a round of `run_forwarding` does with a message: it drops it, or puts what it accepts behind
-- the others.
pub data Forwarded (cfg : Config) (d : Draws) (m : Msg) (st : State) : State → Type 0 where
  dropped : Accepts cfg (arrival st d m) [] → Forwarded cfg d m st st
  queued :
      (m' : Msg)
      → Accepts cfg (arrival st d m) (m' ∷ [])
      → length st.buffer < buffer_size
      → Forwarded cfg d m st (enqueue_message m' st)

mod_lt : (a n : ℕ) → (n == 0) ≡ false → a % n < n
mod_lt a n h = omega (arith, ==→ne _ _ h)

corrupt_message-IsCorrupted :
    (d : Draws) (m m' : Msg) → corrupt_message d m ≡ some m' → IsCorrupted m m'
unfolding corrupt_message
corrupt_message-IsCorrupted d m m' e = elim (Bool-cases (m.len == 0)) [
  | inl t ↦ absurd (none-ne-some _ (rw t at e))
  | inr f ↦ (elim (Bool-cases (leb (length m.payload) (d.place % m.len))) [
    | inl t ↦ absurd (none-ne-some _ (rw (f, t) at e))
    | inr g ↦
        (rw (← some-injective _ _ (rw (f, g) at e)) (
          one_byte (d.place % m.len) (d.value % 128) (mod_lt d.place m.len f) (ground arith)
            (omega arith)))
  ])
]

pub run_forwarding-Forwarded :
    (cfg : Config) (d : Draws) (m : Msg) (st : State) {st' : State}
    → run_forwarding cfg d m st ≡ some st'
    → Forwarded cfg d m st st'
unfolding run_forwarding enqueue_corrupted
run_forwarding-Forwarded cfg d m st {st'} e =
    elim (Bool-cases (leb buffer_size (length st.buffer))) [
      | inl t ↦ (rw (← some-injective _ _ (rw t at e)) (dropped (no_room (ground arith))))
      | inr f ↦ (elim (Bool-cases (ltb (d.loss_draw % 100) cfg.loss)) [
        | inl t ↦ (rw (← some-injective _ _ (rw (f, t) at e)) (dropped (lost (ground arith))))
        | inr g ↦ (elim (Bool-cases (ltb (d.corrupt_draw % 100) cfg.corrupt)) [
          | inr h ↦
              (rw (← some-injective _ _ (rw (f, g, h) at e))
                (queued m (intact (ground arith) (ground arith) (ground arith)) (ground arith)))
          | inl t ↦
              changed (corrupt_message d m) refl (ground arith) (ground arith) (ground arith)
                (rw (f, g, t) at e)
        ])
      ])
    ]
  where
    changed :
        (made : Option Msg)
        → corrupt_message d m ≡ made
        → length st.buffer < buffer_size
        → cfg.loss ≤ d.loss_draw % 100
        → d.corrupt_draw % 100 < cfg.corrupt
        → enqueue_corrupted made st ≡ some st'
        → Forwarded cfg d m st st'
    changed none h room kept hit e' = absurd (none-ne-some _ e')
    changed (some m') h room kept hit e' =
        rw (← some-injective _ _ e')
          (queued m' (corrupted m' room kept hit (corrupt_message-IsCorrupted d m m' h)) room)
