-- ===== src/Cq.antt =====
-- src/dpa_cq.c and src/dpa_cq.h: completion queues. The three lists are `slist`s, given by the
-- entries that they hold (the modules below Slist relate the two); an entry is named by what its
-- `dpa_cq_event` stores. Allocation is taken to succeed.
pub mod Read
pub mod Data
pub mod Fifo
pub mod Close
mod Tests
use libfabric_provider_dpa.Prelude.{
  ℕ, zero, suc, ◌+◌, ◌-◌, Bool, true, false, ◌||◌, List, [], ◌∷◌, ◌++◌, Option, none, some, ◌==◌,
  if◌then◌else◌, length, replicate,
}
use libfabric_provider_dpa.Fabric.{Errno, Ret, ok, err, again, no_data}

-- The flags that the provider stores in a completion.
pub data CompFlags : Type 0 where
  zeroed msg_recv msg_send rma_read rma_write : CompFlags
  interrupt_flags : ℕ → CompFlags

-- `fi_cq_err_entry`: `error` is none for FI_SUCCESS; `buf` is an address.
pub record CqErrEntry : Type 0 where
  pub op_context : ℕ
  pub flags : CompFlags
  pub len : ℕ
  pub buf : ℕ
  pub comp_data : ℕ
  pub error : Option Errno
  pub olen : ℕ

-- `src_addr` is none for FI_ADDR_NOTAVAIL.
pub record CqEvent : Type 0 where
  pub entry : CqErrEntry
  pub src_addr : Option ℕ

-- FI_WAIT_NONE, FI_WAIT_UNSPEC and the rest.
pub data WaitObj : Type 0 where
  wait_none wait_unspec wait_other : WaitObj

-- `has_progress` is `progress.func != NULL`; `interrupt` is the id and event flags of an interrupt
-- whose handle is set; `signalled` counts the calls of `fastlock_signal`.
pub record Cq : Type 0 where
  pub event_queue : List CqEvent
  pub error_queue : List CqEvent
  pub free_list : List CqEvent
  pub has_progress : Bool
  pub interrupt : Option (ℕ × ℕ)
  pub wait_obj : WaitObj
  pub signalled : ℕ

-- What `calloc` gives.
abbrev pub blank_entry : CqErrEntry
blank_entry = record {
  op_context = 0;
  flags = zeroed;
  len = 0;
  buf = 0;
  comp_data = 0;
  error = none;
  olen = 0;
}

abbrev pub blank_event : CqEvent
blank_event = record { entry = blank_entry; src_addr = some 0 }

pub record CqAttr : Type 0 where
  pub attr_size : ℕ
  pub attr_wait_obj : WaitObj

-- The queue that `dpa_cq_open` makes once the attributes are accepted.
abbrev pub opened : CqAttr → Cq
opened a = record {
  event_queue = [];
  error_queue = [];
  free_list = replicate a.attr_size blank_event;
  has_progress = false;
  interrupt = none;
  wait_obj = a.attr_wait_obj;
  signalled = 0;
}

unfoldable pub dpa_cq_open : Option CqAttr → Ret × Option Cq
dpa_cq_open none = (err no_data, none)
dpa_cq_open (some a) = elim a.attr_wait_obj [
  | wait_other ↦ (err no_data, none)
  | _ ↦ (ok 0, some (opened a))
]

-- `get_empty_event`: from the free list, or a new one.
unfoldable pub get_empty_event : Cq → CqEvent × Cq
get_empty_event cq = elim cq.free_list [
  | [] ↦ (blank_event, cq)
  | e ∷ rest ↦ (e, record cq { free_list = rest })
]

unfoldable pub cq_signal : Cq → Cq
cq_signal cq = elim cq.has_progress [
  | true ↦ cq
  | false ↦ elim cq.interrupt [ some i ↦ cq | none ↦ record cq { signalled = cq.signalled + 1 } ]
]

unfoldable pub cq_add_src : CqErrEntry → Option ℕ → Cq → Cq
unfolding get_empty_event cq_signal
cq_add_src entry src_addr cq =
    let (empty, cq1) = get_empty_event cq in
    let event : CqEvent = record empty { entry = entry; src_addr = src_addr } in
    let cq2 : Cq = elim entry.error [
      | some e ↦ record cq1 { error_queue = cq1.error_queue ++ (event ∷ []) }
      | none ↦ record cq1 { event_queue = cq1.event_queue ++ (event ∷ []) }
    ] in
    cq_signal cq2

unfoldable pub cq_add : CqErrEntry → Cq → Cq
unfolding cq_add_src
cq_add entry cq = cq_add_src entry none cq

-- Which list `cq_read_priv` is given.
pub data Which : Type 0 where
  events errors : Which

abbrev pub queue_of : Which → Cq → List CqEvent
queue_of events cq = cq.event_queue
queue_of errors cq = cq.error_queue

abbrev pub set_queue : Which → List CqEvent → Cq → Cq
set_queue events q cq = record cq { event_queue = q }
set_queue errors q cq = record cq { error_queue = q }

-- The loop of `cq_read_priv`: `count` rounds left. The events that are read, in the order of the
-- buffer; the buffer itself gets the first `entry_size` bytes of the entry of each, and `src_addr`
-- goes to an array of its own.
unfoldable pub read_loop : ℕ → Which → Cq → List CqEvent × Cq
read_loop zero w cq = ([], cq)
read_loop (suc count) w cq = elim (queue_of w cq) [
  | [] ↦ ([], cq)
  | head ∷ rest ↦
      let taken : Cq = set_queue w rest cq in
      let more = read_loop count w (record taken { free_list = taken.free_list ++ (head ∷ []) }) in
      (head ∷ more.0, more.1)
]

unfoldable pub cq_read_priv : Which → ℕ → Cq → Ret × List CqEvent × Cq
unfolding read_loop
cq_read_priv w count cq =
    let (got, cq') = read_loop count w cq in
    (elim got [ [] ↦ err again | e ∷ es ↦ ok (suc (length es)) ], got, cq')

unfoldable pub dpa_cq_readerr : Cq → Ret × List CqEvent × Cq
unfolding cq_read_priv
dpa_cq_readerr cq = cq_read_priv errors 1 cq

-- A timeout is a number that this code only compares with 0; a negative one, for no limit, is
-- any number but 0. What other code does to the queue: `progress` is the queue's progress function, with its timeout
-- and the timeout that remains; `wait_interrupt` is DPAlib's wait, true on DPA_ERR_OK; `wait` is
-- what other threads do to the queue until this one is woken.
pub record Environment : Type 0 where
  pub progress : ℕ → Cq → ℕ × Cq
  pub wait_interrupt : ℕ → Cq → Bool
  pub wait : ℕ → Cq → Cq

module _ (env : Environment) where
  unfoldable pub wait_cq_interrupt : ℕ → Cq → Cq
  unfolding cq_add
  wait_cq_interrupt timeout cq = elim cq.interrupt [
    | none ↦ cq
    | some (id, flags) ↦ elim (env.wait_interrupt timeout cq) [
      | false ↦ cq
      | true ↦ cq_add (record blank_entry { flags = interrupt_flags flags; comp_data = id }) cq
    ]
  ]

  unfoldable pub make_cq_progress : ℕ → Cq → Cq
  unfolding wait_cq_interrupt
  make_cq_progress timeout cq =
      let (left, cq1) : ℕ × Cq = elim cq.has_progress [
        | true ↦ env.progress timeout cq
        | false ↦ (timeout, cq)
      ] in
      wait_cq_interrupt left cq1

  unfoldable pub dpa_cq_sreadfrom : ℕ → ℕ → Cq → Ret × List CqEvent × Cq
  unfolding make_cq_progress cq_read_priv
  dpa_cq_sreadfrom count timeout cq =
      let cq1 = make_cq_progress 0 cq in
      let first = cq_read_priv events count cq1 in
      let cq2 = first.2 in
      let waited : Cq = elim cq2.has_progress [
        | true ↦ make_cq_progress timeout cq2
        | false ↦ elim cq2.interrupt [
          | some i ↦ make_cq_progress timeout cq2
          | none ↦ env.wait timeout cq2
        ]
      ] in
      let second = cq_read_priv events count waited in
      elim first.0 [ err again ↦ if timeout == 0 then first else second | _ ↦ first ]
