-- ===== src/Heap/Fifo.antt =====
-- The queue of Teme/Tema1/queue.c implements a list: whatever is put in and taken out, the cells of
-- the heap and the list give the same.
use pcom.Prelude.{ℕ, List, [], ◌∷◌, ◌++◌, Option, none, some, ◌≡◌, refl, ap, arith, length}
use pcom.Heap.{
  Heap, malloc, load, free, Queue, cons, cdr_and_free, queue_create, queue_enq, queue_deq,
}
use pcom.Heap.Chain.{
  load-HasCell, IsChain, chain_one, chain_more, get_elem?-append_end, store_next-IsChain,
  free-IsChain,
}

-- The queue holds these elements, the oldest first.
pub data IsFifo (heap : Heap) : Queue → List ℕ → Type 0 where
  fifo_empty : {tail : Option ℕ} → IsFifo heap (record { head = none; tail = tail }) []
  fifo_chain :
      {p last element : ℕ} {elements : List ℕ}
      → IsChain heap p last (element ∷ elements)
      → IsFifo heap (record { head = some p; tail = some last }) (element ∷ elements)

-- An operation of the queue.
pub data Op : Type 0 where
  enq : ℕ → Op
  deq : Op

-- What the operations take out, where none of them faults.
abbrev pub taken : ℕ → Option (List ℕ) → Option (List ℕ)
taken element none = none
taken element (some rest) = some (element ∷ rest)

unfoldable pub run_deq :
    ((heap : Heap) → Queue → Option (List ℕ)) → Option (ℕ × Heap × Queue) → Option (List ℕ)
run_deq rest none = none
run_deq rest (some (element, heap, q)) = taken element (rest heap q)

unfoldable pub run_enq :
    ((heap : Heap) → Queue → Option (List ℕ)) → Option (Heap × Queue) → Option (List ℕ)
run_enq rest none = none
run_enq rest (some (heap, q)) = rest heap q

-- The operations on the cells; `none` is a fault.
unfoldable pub run_queue : List Op → Heap → Queue → Option (List ℕ)
run_queue [] heap q = some []
run_queue (enq element ∷ ops) heap q = run_enq (run_queue ops) (queue_enq heap q element)
run_queue (deq ∷ ops) heap q = run_deq (run_queue ops) (queue_deq heap q)

-- The same on a list; taking from the empty one is a fault.
unfoldable pub run_list : List Op → List ℕ → Option (List ℕ)
run_list [] elements = some []
run_list (enq element ∷ ops) elements = run_list ops (elements ++ (element ∷ []))
run_list (deq ∷ ops) [] = none
run_list (deq ∷ ops) (element ∷ elements) = taken element (run_list ops elements)

-- An element that is put in stands last.
queue_enq-IsFifo :
    (heap : Heap) (q : Queue) (element : ℕ) {elements : List ℕ}
    → IsFifo heap q elements
    → (heap' : Heap) × (q' : Queue) × (queue_enq heap q element ≡ some (heap', q'))
      × IsFifo heap' q' (elements ++ (element ∷ []))
unfolding queue_enq cons malloc
queue_enq-IsFifo heap _ element fifo_empty =
    (_, _, refl, fifo_chain (chain_one (get_elem?-append_end heap _)))
queue_enq-IsFifo heap _ element (fifo_chain {p = p} c) =
    let stored = store_next-IsChain heap c element in
    (
      stored.0,
      record { head = some p; tail = some (length heap) },
      ground (arith, stored.1),
      fifo_chain stored.2,
    )

chain-IsFifo :
    (heap : Heap) {p last : ℕ} {elements : List ℕ}
    → IsChain heap p last elements
    → IsFifo heap (record { head = some p; tail = some last }) elements
chain-IsFifo heap (chain_one h) = fifo_chain (chain_one h)
chain-IsFifo heap (chain_more h l c) = fifo_chain (chain_more h l c)

-- The element that is taken out is the first.
queue_deq-IsFifo :
    (heap : Heap) (q : Queue) (element : ℕ) {elements : List ℕ}
    → IsFifo heap q (element ∷ elements)
    → (heap' : Heap) × (q' : Queue) × (queue_deq heap q ≡ some (element, heap', q'))
      × IsFifo heap' q' elements
unfolding queue_deq cdr_and_free
queue_deq-IsFifo heap _ element (fifo_chain (chain_one {p = p} h)) = (
  free heap p,
  record { head = none; tail = some p },
  ground (arith, load-HasCell heap p element none h),
  fifo_empty,
)
queue_deq-IsFifo heap _ element
      (fifo_chain (chain_more {p = p} {rest = rest} {last = last} h l c)) =
    (
      free heap p,
      record { head = some rest; tail = some last },
      ground (arith, load-HasCell heap p element (some rest) h),
      chain-IsFifo (free heap p) (free-IsChain heap l c),
    )

run_queue-IsFifo :
    (ops : List Op) (heap : Heap) (q : Queue) (elements : List ℕ)
    → IsFifo heap q elements
    → run_queue ops heap q ≡ run_list ops elements
unfolding run_queue run_list run_enq run_deq
run_queue-IsFifo [] heap q elements f = refl
run_queue-IsFifo (enq element ∷ ops) heap q elements f =
    let e = queue_enq-IsFifo heap q element f in
    rw e.2 (run_queue-IsFifo ops e.0 e.1 (elements ++ (element ∷ [])) e.3)
run_queue-IsFifo (deq ∷ ops) heap _ [] fifo_empty = unfold queue_deq load in refl
run_queue-IsFifo (deq ∷ ops) heap q (element ∷ elements) f =
    let d = queue_deq-IsFifo heap q element f in
    rw d.2 (ap (taken element) (run_queue-IsFifo ops d.0 d.1 elements d.3))

-- A new queue does what a list does: any sequence of operations takes out the elements that were
-- put in, in the order in which they were put in, and faults exactly where the list is empty.
pub run_queue-run_list :
    (heap : Heap) (ops : List Op) → run_queue ops heap queue_create ≡ run_list ops []
unfolding queue_create
run_queue-run_list heap ops = run_queue-IsFifo ops heap queue_create [] fifo_empty
