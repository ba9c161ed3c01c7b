-- ===== src/Cq/Close.antt =====
-- src/dpa_cq.c: the size of an entry, the provider's own operations, and closing a queue, which frees
-- the events of its three lists.
use libfabric_provider_dpa.Prelude.{
  ℕ, ◌+◌, ◌≡◌, ◌∙◌, sym, ap, Option, Bool, List, [], ◌∷◌, ◌++◌, none, some, arith, if◌then◌else◌,
  length, length-append, length-replicate,
}
use mathlib.Core.Option.{some-injective, none-ne-some}
use libfabric_provider_dpa.Fabric.{Ret, ok, err, success, no_data}
use libfabric_provider_dpa.Cq.{
  Cq, CqAttr, CqEvent, Which, WaitObj, blank_entry, blank_event, wait_none, wait_unspec, wait_other,
  cq_add_src, opened, dpa_cq_open,
}
use libfabric_provider_dpa.Cq.Fifo.{
  Op, add, read, Trace, run, reading, buffers, buffers-cq_add_src, buffers_recycled,
}

-- The values of `fi_cq_format`.
pub data CqFormat : Type 0 where
  format_unspec format_context format_msg format_data format_tagged : CqFormat

-- The sizes of libfabric's structs for entries.
pub record EntrySizes : Type 0 where
  pub cq_entry : ℕ
  pub cq_msg_entry : ℕ
  pub cq_data_entry : ℕ
  pub cq_tagged_entry : ℕ

unfoldable pub format_size : EntrySizes → CqFormat → ℕ
format_size s format_context = s.cq_entry
format_size s format_data = s.cq_data_entry
format_size s format_tagged = s.cq_tagged_entry
format_size s format_unspec = s.cq_msg_entry
format_size s format_msg = s.cq_msg_entry

-- `dpa_cq_ops_open`, by whether the name is FI_DPA_CQ_OPS_OPEN.
unfoldable pub dpa_cq_ops_open : Bool → Ret
dpa_cq_ops_open is_name = if is_name then success else err no_data

-- `free_cq` on each list: the events that are freed, in order.
unfoldable pub dpa_cq_close : Cq → List CqEvent
dpa_cq_close cq = cq.event_queue ++ (cq.error_queue ++ cq.free_list)

-- The events that a run allocates: those for which the free list is empty.
unfoldable pub allocated : List Op → Trace → ℕ
unfolding reading
allocated [] t = 0
allocated (add entry src ∷ ops) t =
    elim t.queue.free_list [ [] ↦ 1 | e ∷ es ↦ 0 ]
    + allocated ops (record t { queue = cq_add_src entry src t.queue })
allocated (read w count ∷ ops) t = allocated ops (reading w count t)

length-dpa_cq_close : (cq : Cq) → length (dpa_cq_close cq) ≡ buffers cq
unfolding dpa_cq_close
length-dpa_cq_close cq = omega (
  arith,
  length-append cq.event_queue (cq.error_queue ++ cq.free_list),
  length-append cq.error_queue cq.free_list,
)

buffers-reading :
    (w : Which) (count : ℕ) (t : Trace) → buffers (reading w count t).queue ≡ buffers t.queue
unfolding reading
buffers-reading w count t = (buffers_recycled t.queue w count blank_entry none).0

buffers-run :
    (ops : List Op) (t : Trace) → buffers (run ops t).queue ≡ buffers t.queue + allocated ops t
unfolding run allocated reading
buffers-run [] t = omega arith
buffers-run (add entry src ∷ ops) t = omega (
  arith,
  buffers-run ops (record t { queue = cq_add_src entry src t.queue }),
  buffers-cq_add_src entry src t.queue,
)
buffers-run (read w count ∷ ops) t =
    omega (arith, buffers-run ops (reading w count t), buffers-reading w count t)

-- What `dpa_cq_open` answers, by the wait object.
abbrev by_wait : CqAttr → WaitObj → Ret × Option Cq
by_wait a wait_none = (ok 0, some (opened a))
by_wait a wait_unspec = (ok 0, some (opened a))
by_wait a wait_other = (err no_data, none)

opened_cases : (a : CqAttr) (cq : Cq) (w : WaitObj) → by_wait a w ≡ (ok 0, some cq) → cq ≡ opened a
opened_cases a cq wait_none e = sym (some-injective _ _ (ap (λ t. t.1) e))
opened_cases a cq wait_unspec e = sym (some-injective _ _ (ap (λ t. t.1) e))
opened_cases a cq wait_other e = absurd (none-ne-some cq (ap (λ t. t.1) e))

buffers-opened :
    (a : CqAttr) (cq : Cq) → dpa_cq_open (some a) ≡ (ok 0, some cq) → buffers cq ≡ a.attr_size
unfolding dpa_cq_open
buffers-opened a cq e =
    ap buffers (opened_cases a cq a.attr_wait_obj e)
    ∙ omega (arith, length-replicate a.attr_size blank_event)

-- A completion queue that is opened and closed after any sequence of insertions and reads frees
-- exactly the events that were allocated: as many as its attributes ask for, and one for each
-- insertion that found no event free. The attributes accept the wait object.
pub dpa_cq_close-run :
    (a : CqAttr) (cq : Cq) (ops : List Op) (got : Which → List CqEvent)
    → dpa_cq_open (some a) ≡ (ok 0, some cq)
    → let t : Trace = record { queue = cq; got = got } in
      length (dpa_cq_close (run ops t).queue) ≡ a.attr_size + allocated ops t
dpa_cq_close-run a cq ops got is_opened =
    let t : Trace = record { queue = cq; got = got } in
    length-dpa_cq_close (run ops t).queue
    ∙ buffers-run ops t
    ∙ ap (λ n. n + allocated ops t) (buffers-opened a cq is_opened)
