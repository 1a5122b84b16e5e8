-- ===== src/Heap.antt =====
-- The linked queues of Teme/Tema1/queue.c (with list.c) and Lab02/link_emulator/queue.c, in one
-- heap of cells: a pointer is an address, and `none` is `NULL`.
pub mod Chain
pub mod Fifo
pub mod LinkFifo
pub mod Link
use pcom.Prelude.{
  ℕ, zero, suc, ◌+◌, ◌-◌, List, [], ◌∷◌, ◌++◌, Option, none, some, Bool, true, false, ◌==◌,
  if◌then◌else◌, length, set, get_elem?,
}

-- `struct cell` of list.h, and `struct q` of the other queue.h: `element` is also `crt`, `next` is
-- also `prev`.
pub record Cell : Type 0 where
  pub element : ℕ
  pub next : Option ℕ

-- The memory: `none` at an address that was freed.
abbrev pub Heap : Type 0
Heap = List (Option Cell)

-- `malloc` of a cell, with what is then stored in it.
unfoldable pub malloc : Heap → Cell → Heap × ℕ
malloc heap c = (heap ++ (some c ∷ []), length heap)

-- Reading through a pointer; `none` is a fault.
unfoldable pub load : Heap → Option ℕ → Option Cell
load heap none = none
load heap (some p) = elim (get_elem? heap p) [ none ↦ none | some cell ↦ cell ]

unfoldable pub free : Heap → ℕ → Heap
free heap p = set heap p none

-- `p->next = next`, a fault where `p` is no cell.
unfoldable pub store_next : Heap → ℕ → Option ℕ → Option Heap
store_next heap p next = elim (load heap (some p)) [
  | none ↦ none
  | some c ↦ some (set heap p (some (record c { next = next })))
]

-- `struct queue` of Teme/Tema1/queue.c. A `tail` is only read when `head` is not `NULL`.
pub record Queue : Type 0 where
  pub head : Option ℕ
  pub tail : Option ℕ

-- `cons`
unfoldable pub cons : Heap → ℕ → Option ℕ → Heap × ℕ
cons heap element l = malloc heap (record { element = element; next = l })

-- `cdr_and_free`
unfoldable pub cdr_and_free : Heap → Option ℕ → Option (Heap × Option ℕ)
cdr_and_free heap none = none
cdr_and_free heap (some l) = elim (load heap (some l)) [
  | none ↦ none
  | some c ↦ some (free heap l, c.next)
]

-- `queue_create`
unfoldable pub queue_create : Queue
queue_create = record { head = none; tail = none }

-- `queue_empty`
unfoldable pub queue_empty : Queue → Bool
queue_empty q = elim q.head [ none ↦ true | some p ↦ false ]

-- `queue_enq`
unfoldable pub queue_enq : Heap → Queue → ℕ → Option (Heap × Queue)
queue_enq heap q element = elim q.head [
  | none ↦
      (let made = cons heap element none in
        some (made.0, record { head = some made.1; tail = some made.1 }))
  | some first ↦ (elim q.tail [
    | none ↦ none
    | some last ↦
        (let made = cons heap element none in
          elim (store_next made.0 last (some made.1)) [
            | none ↦ none
            | some heap' ↦ some (heap', record q { tail = some made.1 })
          ])
  ])
]

-- `queue_deq`; `none` is the failed `assert` or a fault.
unfoldable pub queue_deq : Heap → Queue → Option (ℕ × Heap × Queue)
queue_deq heap q = elim (load heap q.head) [
  | none ↦ none
  | some c ↦ (elim (cdr_and_free heap q.head) [
    | none ↦ none
    | some (heap', rest) ↦ some (c.element, heap', record q { head = rest })
  ])
]
