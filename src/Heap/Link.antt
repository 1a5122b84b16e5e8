-- ===== src/Heap/Link.antt =====
-- The queue of Lab02/link_emulator/queue.c: its cells are linked from the oldest, at `last`, to the
-- newest, at `first`, by `prev`.
use pcom.Prelude.{ℕ, ◌+◌, ◌-◌, Option, none, some, ◌==◌, if◌then◌else◌}
use pcom.Heap.{Cell, Heap, malloc, load, free, store_next}

-- `queue`
pub record LinkQueue : Type 0 where
  pub size : ℕ
  pub first : Option ℕ
  pub last : Option ℕ

-- `create_queue`
unfoldable pub create_queue : LinkQueue
create_queue = record { size = 0; first = none; last = none }

-- `enqueue`; `none` is a failed `assert` or a fault.
unfoldable pub enqueue : Heap → LinkQueue → ℕ → Option (Heap × LinkQueue)
enqueue heap q m =
    let made = malloc heap (record { element = m; next = none }) in
    elim q.first [
      | none ↦ (elim q.last [
        | some p ↦ none
        | none ↦
            some (made.0, record { size = q.size + 1; first = some made.1; last = some made.1 })
      ])
      | some newest ↦ (elim (store_next made.0 newest (some made.1)) [
        | none ↦ none
        | some heap' ↦ some (heap', record q { size = q.size + 1; first = some made.1 })
      ])
    ]

-- What `dequeue` returns: a message, `NULL`, or a failed `assert` or a fault.
pub data Dequeued : Type 0 where
  taken : ℕ → Heap → LinkQueue → Dequeued
  empty failed : Dequeued

-- `dequeue` of a queue that is not empty, with its oldest cell.
unfoldable pub take_last : Heap → LinkQueue → (newest oldest : ℕ) → Cell → Dequeued
take_last heap q newest oldest c =
    if newest == oldest
    then elim c.next [
      | some p ↦ failed
      | none ↦
          taken c.element (free heap oldest)
            (record { size = q.size - 1; first = none; last = none })
    ]
    else taken c.element (free heap oldest) (record q { size = q.size - 1; last = c.next })

-- `dequeue`
unfoldable pub dequeue : Heap → LinkQueue → Dequeued
dequeue heap q = elim q.first [
  | none ↦ (if q.size == 0 then empty else failed)
  | some newest ↦ (elim q.last [
    | none ↦ failed
    | some oldest ↦ (elim (load heap (some oldest)) [
      | none ↦ failed
      | some c ↦ take_last heap q newest oldest c
    ])
  ])
]
