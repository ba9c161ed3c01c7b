-- ===== src/Cq/Fifo.antt =====
-- Any sequence of insertions and reads on one completion queue: two FIFOs, told apart by the error.
use libfabric_provider_dpa.Prelude.{
  ℕ, ◌+◌, ◌≡◌, ◌∙◌, refl, sym, ap, ap₂, List, [], ◌∷◌, ◌++◌, Option, some, none, arith, length,
  take, drop, length-append, take-append-drop, length-take, length-drop,
}
use mathlib.Core.List.{append-nil, append_assoc}
use libfabric_provider_dpa.Cq.{
  Cq, CqEvent, CqErrEntry, Which, events, errors, queue_of, cq_add_src, cq_read_priv,
}
use libfabric_provider_dpa.Cq.Read.{after_read, cq_read_priv_lem}

-- What a client or the provider does to the queue.
pub data Op : Type 0 where
  add : CqErrEntry → Option ℕ → Op
  read : Which → ℕ → Op

-- The queue after the calls, with the events read from each list in order.
pub record Trace : Type 0 where
  pub queue : Cq
  pub got : Which → List CqEvent

abbrev keep : Which → List CqEvent → (Which → List CqEvent) → Which → List CqEvent
keep events out got events = got events ++ out
keep events out got errors = got errors
keep errors out got events = got events
keep errors out got errors = got errors ++ out

unfoldable pub reading : Which → ℕ → Trace → Trace
reading w count t =
    let (ret, out, cq) = cq_read_priv w count t.queue in
    record { queue = cq; got = keep w out t.got }

unfoldable pub run : List Op → Trace → Trace
unfolding reading
run [] t = t
run (add entry src ∷ ops) t = run ops (record t { queue = cq_add_src entry src t.queue })
run (read w count ∷ ops) t = run ops (reading w count t)

-- The list that an entry belongs to, and the events that the calls add to a list.
abbrev pub kind : CqErrEntry → Which
kind entry = elim entry.error [ none ↦ events | some e ↦ errors ]

abbrev pub only : Which → Which → CqEvent → List CqEvent
only events events e = e ∷ []
only errors errors e = e ∷ []
only _ _ e = []

unfoldable pub added : Which → List Op → List CqEvent
added w [] = []
added w (add entry src ∷ ops) =
    only w (kind entry) (record { entry = entry; src_addr = src }) ++ added w ops
added w (read v count ∷ ops) = added w ops

-- `cq_add_src` puts the event at the end of the list that its error selects, and leaves the other.
pub queue_of-cq_add_src :
    (w : Which) (entry : CqErrEntry) (src : Option ℕ) (cq : Cq)
    → queue_of w (cq_add_src entry src cq)
      ≡ queue_of w cq ++ only w (kind entry) (record { entry = entry; src_addr = src })
unfolding cq_add_src
queue_of-cq_add_src events entry src cq = ground (arith, append-nil cq.event_queue)
queue_of-cq_add_src errors entry src cq = ground (arith, append-nil cq.error_queue)

queue_of-after_read :
    (w v : Which) (count : ℕ) (cq : Cq) (got : Which → List CqEvent)
    → keep v (take count (queue_of v cq)) got w ++ queue_of w (after_read v count cq)
      ≡ got w ++ queue_of w cq
queue_of-after_read events events count cq got =
    append_assoc (got events) (take count cq.event_queue) (drop count cq.event_queue)
    ∙ ap (λ xs. got events ++ xs) (take-append-drop count cq.event_queue)
queue_of-after_read events errors count cq got = refl
queue_of-after_read errors events count cq got = refl
queue_of-after_read errors errors count cq got =
    append_assoc (got errors) (take count cq.error_queue) (drop count cq.error_queue)
    ∙ ap (λ xs. got errors ++ xs) (take-append-drop count cq.error_queue)

kept_by_reading :
    (w v : Which) (count : ℕ) (t : Trace)
    → (reading v count t).got w ++ queue_of w (reading v count t).queue
      ≡ t.got w ++ queue_of w t.queue
unfolding reading
kept_by_reading w v count t =
    ap₂ (λ (out : List CqEvent) (cq : Cq). keep v out t.got w ++ queue_of w cq)
      (cq_read_priv_lem v count t.queue).1 (cq_read_priv_lem v count t.queue).2
    ∙ queue_of-after_read w v count t.queue t.got

-- Over any sequence of insertions and reads, the events that were read from a list, followed by
-- those that it still holds, are the events that it held at the start followed by the ones added to
-- it: no event is lost, duplicated, reordered or put in the wrong list.
pub run_fifo :
    (w : Which) (ops : List Op) (t : Trace)
    → let t' = run ops t in
      t'.got w ++ queue_of w t'.queue ≡ t.got w ++ (queue_of w t.queue ++ added w ops)
unfolding run added
run_fifo w [] t = rw append-nil
run_fifo w (add entry src ∷ ops) t =
    run_fifo w ops (record t { queue = cq_add_src entry src t.queue })
    ∙ rw (queue_of-cq_add_src w entry src t.queue) (
        ap (λ xs. t.got w ++ xs)
          (append_assoc (queue_of w t.queue)
            (only w (kind entry) (record { entry = entry; src_addr = src })) (added w ops)))
run_fifo w (read v count ∷ ops) t =
    run_fifo w ops (reading v count t)
    ∙ sym (
        append_assoc ((reading v count t).got w) (queue_of w (reading v count t).queue)
          (added w ops))
    ∙ ap (λ xs. xs ++ added w ops) (kept_by_reading w v count t)
    ∙ append_assoc (t.got w) (queue_of w t.queue) (added w ops)

-- The number of event buffers that a queue owns.
abbrev pub buffers : Cq → ℕ
buffers cq = length cq.event_queue + length cq.error_queue + length cq.free_list

buffers-after_read :
    (w : Which) (count : ℕ) (cq : Cq) → buffers (after_read w count cq) ≡ buffers cq
buffers-after_read events count cq = omega (
  arith,
  length-append cq.free_list (take count cq.event_queue),
  length-take count cq.event_queue,
  length-drop count cq.event_queue,
)
buffers-after_read errors count cq = omega (
  arith,
  length-append cq.free_list (take count cq.error_queue),
  length-take count cq.error_queue,
  length-drop count cq.error_queue,
)

pub buffers-cq_add_src :
    (entry : CqErrEntry) (src : Option ℕ) (cq : Cq)
    → buffers (cq_add_src entry src cq) ≡ buffers cq + elim cq.free_list [ [] ↦ 1 | e ∷ es ↦ 0 ]
unfolding cq_add_src
buffers-cq_add_src entry src cq = ground (
  arith,
  length-append cq.event_queue (record { entry = entry; src_addr = src } ∷ []),
  length-append cq.error_queue (record { entry = entry; src_addr = src } ∷ []),
)

-- Reading recycles: it neither frees nor allocates event buffers. Inserting allocates one buffer
-- when the free list is empty, and none otherwise.
pub buffers_recycled :
    (cq : Cq) (w : Which) (count : ℕ) (entry : CqErrEntry) (src : Option ℕ)
    → (buffers (cq_read_priv w count cq).2 ≡ buffers cq)
      × (buffers (cq_add_src entry src cq) ≡ buffers cq + elim cq.free_list [ [] ↦ 1 | e ∷ es ↦ 0 ])
buffers_recycled cq w count entry src = (
  ap (λ (c : Cq). buffers c) (cq_read_priv_lem w count cq).2 ∙ buffers-after_read w count cq,
  buffers-cq_add_src entry src cq,
)
