-- ===== src/Tests/Queues.antt =====
-- The two queues at a short sequence of operations.
use pcom.Prelude.{List, [], ◌∷◌, some, ◌≡◌}
use pcom.Heap.{queue_create}
use pcom.Heap.Link.{create_queue}
use pcom.Heap.Fifo.{Op, enq, deq, run_queue, run_list, run_queue-run_list}
use pcom.Heap.LinkFifo.{run_link, run_fifo, run_link-run_fifo}

abbrev ops : List Op
ops = enq 4 ∷ enq 5 ∷ deq ∷ enq 6 ∷ deq ∷ deq ∷ deq ∷ []

run_queue-run_list_example : run_queue ops [] queue_create ≡ run_list ops []
run_queue-run_list_example = run_queue-run_list [] ops

run_link-run_fifo_example : run_link ops [] create_queue ≡ some (run_fifo ops [])
run_link-run_fifo_example = run_link-run_fifo [] ops
