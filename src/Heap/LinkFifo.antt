-- ===== src/Heap/LinkFifo.antt =====
-- The queue of Lab02/link_emulator/queue.c implements a list, and none of its assertions fails.
use pcom.Prelude.{
  ℕ, ◌+◌, ◌-◌, List, [], ◌∷◌, ◌++◌, Option, none, some, ◌≡◌, refl, ap, arith, length, length-append,
  eq→==, ne→==,
}
use pcom.Heap.{Heap, malloc, free}
use pcom.Heap.Chain.{
  load-HasCell, IsChain, chain_one, chain_more, get_elem?-append_end, store_next-IsChain,
  free-IsChain, IsChain-ordered,
}
use pcom.Heap.Fifo.{Op, enq, deq}
use pcom.Heap.Link.{LinkQueue, create_queue, enqueue, Dequeued, empty, failed, take_last, dequeue}
use pcom.Heap.Link

-- The queue holds these elements, the oldest first.
pub data IsLinkFifo (heap : Heap) : LinkQueue → List ℕ → Type 0 where
  link_empty : IsLinkFifo heap (record { size = 0; first = none; last = none }) []
  link_chain :
      {oldest newest size element : ℕ} {elements : List ℕ}
      → size ≡ length (element ∷ elements)
      → IsChain heap oldest newest (element ∷ elements)
      → IsLinkFifo heap
          (record { size = size; first = some newest; last = some oldest })
          (element ∷ elements)

abbrev pub answered : Option ℕ → Option (List (Option ℕ)) → Option (List (Option ℕ))
answered answer none = none
answered answer (some rest) = some (answer ∷ rest)

unfoldable pub run_dequeue :
    (rest : Heap → LinkQueue → Option (List (Option ℕ)))
    → Heap
    → LinkQueue
    → Dequeued
    → Option (List (Option ℕ))
run_dequeue rest heap q (Link.taken m heap' q') = answered (some m) (rest heap' q')
run_dequeue rest heap q empty = answered none (rest heap q)
run_dequeue rest heap q failed = none

unfoldable pub run_enqueue :
    (rest : Heap → LinkQueue → Option (List (Option ℕ)))
    → Option (Heap × LinkQueue)
    → Option (List (Option ℕ))
run_enqueue rest none = none
run_enqueue rest (some (heap, q)) = rest heap q

-- The operations on the cells, with what each `dequeue` returns; `none` is a failed assertion or a
-- fault.
unfoldable pub run_link : List Op → Heap → LinkQueue → Option (List (Option ℕ))
run_link [] heap q = some []
run_link (enq m ∷ ops) heap q = run_enqueue (run_link ops) (enqueue heap q m)
run_link (deq ∷ ops) heap q = run_dequeue (run_link ops) heap q (dequeue heap q)

-- The same on a list; the empty one gives `NULL`.
unfoldable pub run_fifo : List Op → List ℕ → List (Option ℕ)
run_fifo [] elements = []
run_fifo (enq m ∷ ops) elements = run_fifo ops (elements ++ (m ∷ []))
run_fifo (deq ∷ ops) [] = none ∷ run_fifo ops []
run_fifo (deq ∷ ops) (m ∷ elements) = some m ∷ run_fifo ops elements

enqueue-IsLinkFifo :
    (heap : Heap) (q : LinkQueue) (m : ℕ) {elements : List ℕ}
    → IsLinkFifo heap q elements
    → (heap' : Heap) × (q' : LinkQueue) × (enqueue heap q m ≡ some (heap', q'))
      × IsLinkFifo heap' q' (elements ++ (m ∷ []))
unfolding enqueue malloc
enqueue-IsLinkFifo heap _ m link_empty =
    (_, _, refl, link_chain refl (chain_one (get_elem?-append_end heap _)))
enqueue-IsLinkFifo heap _ m
      (link_chain {oldest = oldest} {size = size} {element = element} {elements = elements} n c) =
    let stored = store_next-IsChain heap c m in
    (
      stored.0,
      record { size = size + 1; first = some (length heap); last = some oldest },
      ground (arith, stored.1),
      link_chain (omega (arith, length-append (element ∷ elements) (m ∷ []))) stored.2,
    )

chain-IsLinkFifo :
    (heap : Heap) {oldest newest size : ℕ} {elements : List ℕ}
    → size ≡ length elements
    → IsChain heap oldest newest elements
    → IsLinkFifo heap (record { size = size; first = some newest; last = some oldest }) elements
chain-IsLinkFifo heap n (chain_one h) = link_chain n (chain_one h)
chain-IsLinkFifo heap n (chain_more h l c) = link_chain n (chain_more h l c)

dequeue-IsLinkFifo :
    (heap : Heap) (q : LinkQueue) (m : ℕ) {elements : List ℕ}
    → IsLinkFifo heap q (m ∷ elements)
    → (heap' : Heap) × (q' : LinkQueue) × (dequeue heap q ≡ Link.taken m heap' q')
      × IsLinkFifo heap' q' elements
unfolding dequeue take_last
dequeue-IsLinkFifo heap _ m (link_chain {size = size} n (chain_one {p = p} h)) = (
  free heap p,
  record { size = size - 1; first = none; last = none },
  ground (arith, load-HasCell heap p m none h, eq→== p p refl),
  (let z : size - 1 ≡ 0 = omega arith in rw z link_empty),
)
dequeue-IsLinkFifo heap _ m
      (link_chain {newest = newest} {size = size} n (chain_more {p = p} {rest = rest} h l c)) =
    (
      free heap p,
      record { size = size - 1; first = some newest; last = some rest },
      ground (
        arith,
        load-HasCell heap p m (some rest) h,
        ne→== newest p (omega (arith, IsChain-ordered heap c)),
      ),
      chain-IsLinkFifo (free heap p) (omega arith) (free-IsChain heap l c),
    )

run_link-IsLinkFifo :
    (ops : List Op) (heap : Heap) (q : LinkQueue) (elements : List ℕ)
    → IsLinkFifo heap q elements
    → run_link ops heap q ≡ some (run_fifo ops elements)
unfolding run_link run_fifo run_enqueue run_dequeue dequeue
run_link-IsLinkFifo [] heap q elements f = refl
run_link-IsLinkFifo (enq m ∷ ops) heap q elements f =
    let e = enqueue-IsLinkFifo heap q m f in
    rw e.2 (run_link-IsLinkFifo ops e.0 e.1 (elements ++ (m ∷ [])) e.3)
run_link-IsLinkFifo (deq ∷ ops) heap _ [] link_empty =
    ap (answered none)
      (run_link-IsLinkFifo ops heap (record { size = 0; first = none; last = none }) [] link_empty)
run_link-IsLinkFifo (deq ∷ ops) heap q (m ∷ elements) f =
    let d = dequeue-IsLinkFifo heap q m f in
    rw d.2 (ap (answered (some m)) (run_link-IsLinkFifo ops d.0 d.1 elements d.3))

-- A new queue does what a list does: in any sequence of operations no assertion fails, and each
-- `dequeue` returns the oldest element that is still there, or `NULL` where there is none.
pub run_link-run_fifo :
    (heap : Heap) (ops : List Op) → run_link ops heap create_queue ≡ some (run_fifo ops [])
unfolding create_queue
run_link-run_fifo heap ops = run_link-IsLinkFifo ops heap create_queue [] link_empty
