-- ===== src/Cq/Tests.antt =====
-- A completion queue with one spare event.
use libfabric_provider_dpa.Prelude.{◌≡◌, ◌+◌, refl, length, List, [], ◌∷◌, ◌++◌, none, some}
use libfabric_provider_dpa.Fabric.{too_small}
use libfabric_provider_dpa.Cq.{
  dpa_cq_open, Cq, CqErrEntry, events, queue_of, blank_entry, wait_none, opened,
}
use libfabric_provider_dpa.Cq.Close.{dpa_cq_close, allocated, dpa_cq_close-run}
use libfabric_provider_dpa.Cq.Fifo.{Op, add, read, Trace, run, added, run_fifo}

abbrev open_queue : Cq
open_queue = opened (record { attr_size = 1; attr_wait_obj = wait_none })

abbrev done : CqErrEntry
done = record blank_entry { op_context = 5 }

abbrev failed : CqErrEntry
failed = record blank_entry { op_context = 6; error = some too_small }

abbrev script : List Op
script = add done none ∷ add failed none ∷ read events 4 ∷ add done (some 3) ∷ []

abbrev start : Trace
start = record { queue = open_queue; got = λ w. [] }

run_fifo_example :
    (run script start).got events ++ queue_of events (run script start).queue
    ≡ [] ++ ([] ++ added events script)
run_fifo_example = run_fifo events script start

-- The second insertion finds no event free.
dpa_cq_close-run_example :
    length (dpa_cq_close (run script start).queue) ≡ 1 + allocated script start
unfolding dpa_cq_open
dpa_cq_close-run_example =
    dpa_cq_close-run (record { attr_size = 1; attr_wait_obj = wait_none }) open_queue script
      (λ w. []) refl
