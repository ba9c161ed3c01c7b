-- ===== src/Eq.antt =====
-- src/dpa_eq.c and src/dpa_eq.h: event queues. The lists are pointers (module Slist);
-- `events` is what memory holds at each event.
pub mod Events
pub mod Close
pub mod Lists
pub mod Open
pub mod Refine
pub mod Taking
mod Tests
use libfabric_provider_dpa.Prelude.{
  ℕ, zero, suc, ◌+◌, ◌-◌, ◌*◌, ◌/◌, ◌%◌, Bool, true, false, not, ◌&&◌, List, [], ◌∷◌, ◌++◌, Option,
  none, some, ◌==◌, if◌then◌else◌, min, length, take,
}
use libfabric_provider_dpa.Fabric.{Errno, Ret, ok, err, again, avail}
use libfabric_provider_dpa.Slist.{
  Ptr, Heap, Slist, slist_empty, slist_insert_tail, slist_remove_head,
}

-- `dpa_eq_event`: the bytes of `entry` and their number, `entry_size`.
pub record EqEvent : Type 0 where
  pub event : ℕ
  pub entry : List ℕ
  pub error : ℕ
  pub entry_size : ℕ

pub record Eq : Type 0 where
  pub event_queue : Slist
  pub error_queue : Slist
  pub free_list : Slist
  pub next : Heap
  pub events : Ptr → EqEvent
  pub has_progress : Bool
  pub signalled : ℕ

-- Which of the two queues is read.
pub data Source : Type 0 where
  event_source error_source : Source

abbrev pub queue_of : Source → Eq → Slist
queue_of event_source eq = eq.event_queue
queue_of error_source eq = eq.error_queue

abbrev pub set_queue : Source → Slist → Eq → Eq
set_queue event_source q eq = record eq { event_queue = q }
set_queue error_source q eq = record eq { error_queue = q }

-- FI_PEEK, bit 19 of the flags in libfabric's fabric.h.
abbrev pub fi_peek : ℕ
fi_peek = 524288

-- `uint8_t peek = flags & FI_PEEK`, which keeps the low 8 bits only.
unfoldable pub peek_of : ℕ → ℕ
peek_of flags = flags / fi_peek % 2 * fi_peek % 256

unfoldable pub get_head : Source → Bool → Eq → Ptr × Eq
unfolding slist_remove_head
get_head s true eq = ((queue_of s eq).head, eq)
get_head s false eq =
    let (entry, q) = slist_remove_head eq.next (queue_of s eq) in (entry, set_queue s q eq)

abbrev pub recycle_if : Bool → Ptr → Eq → Eq
recycle_if false head eq = eq
recycle_if true head eq =
    let (h, l) = slist_insert_tail head eq.next eq.free_list in
    record eq { next = h; free_list = l }

-- `eq_read_priv`: what it returns, the event number with the bytes it copies, and the queue.
unfoldable pub eq_read_priv : Source → ℕ → ℕ → Eq → Ret × Option (ℕ × List ℕ) × Eq
unfolding get_head slist_insert_tail peek_of
eq_read_priv s len flags eq =
    let peek = not (peek_of flags == 0) in
    let (head, eq1) = get_head s peek eq in
    let e = eq1.events head in
    let copy_size = min e.entry_size len in
    if head == 0
    then (err again, none, eq1)
    else (ok copy_size, some (e.event, take copy_size e.entry), recycle_if peek head eq1)

unfoldable pub read_or_err : ℕ → ℕ → Eq → Ret × Option (ℕ × List ℕ) × Eq
unfolding eq_read_priv slist_empty
read_or_err len flags eq =
    if slist_empty eq.error_queue
    then eq_read_priv event_source len flags eq
    else (err avail, none, eq)

-- What the progress function, or the other threads while this one waits, make of the queue, given
-- the time.
pub record Others : Type 0 where
  pub progress : ℕ → Eq → Eq
  pub wait : ℕ → Eq → Eq

abbrev pub make_queue_progress : Others → ℕ → Eq → Eq
make_queue_progress others timeout eq = if eq.has_progress then others.progress timeout eq else eq

abbrev pub or_again :
    Ret × Option (ℕ × List ℕ) × Eq
    → (Eq → Ret × Option (ℕ × List ℕ) × Eq)
    → Ret × Option (ℕ × List ℕ) × Eq
or_again (err again, out, eq) retry = retry eq
or_again (r, out, eq) retry = (r, out, eq)

unfoldable pub dpa_eq_sread : Others → ℕ → ℕ → ℕ → Eq → Ret × Option (ℕ × List ℕ) × Eq
unfolding read_or_err eq_read_priv
dpa_eq_sread others len timeout flags eq =
    let first = read_or_err len flags (make_queue_progress others 0 eq) in
    let second = or_again first (λ eq1.
      eq_read_priv event_source len flags
        (if eq1.has_progress then others.progress timeout eq1 else others.wait timeout eq1)) in
    if timeout == 0 then first else second

unfoldable pub dpa_eq_read : Others → ℕ → ℕ → Eq → Ret × Option (ℕ × List ℕ) × Eq
unfolding dpa_eq_sread
dpa_eq_read others len flags eq = dpa_eq_sread others len 0 flags eq

-- `err_size` is sizeof(struct fi_eq_err_entry).
unfoldable pub dpa_eq_readerr : ℕ → ℕ → Eq → Ret × Option (ℕ × List ℕ) × Eq
unfolding eq_read_priv
dpa_eq_readerr err_size flags eq = eq_read_priv error_source err_size flags eq

-- `get_empty_event`: from the free list, or `fresh`, what `calloc` answers.
unfoldable pub get_empty_event : Ptr → Eq → Ptr × Eq
unfolding slist_remove_head
get_empty_event fresh eq =
    let (entry, l) = slist_remove_head eq.next eq.free_list in
    (if entry == 0 then fresh else entry, record eq { free_list = l })

unfoldable pub eq_signal : Eq → Eq
eq_signal eq = if eq.has_progress then eq else record eq { signalled = eq.signalled + 1 }

abbrev pub set_event : (Ptr → EqEvent) → Ptr → EqEvent → Ptr → EqEvent
set_event f p e a = if a == p then e else f a

-- `eq_add` with a queue, to events or to errors; `entry_max` is sizeof(event->entry).
unfoldable pub eq_add : ℕ → Ptr → ℕ → List ℕ → ℕ → Eq → Ret × Eq
unfolding get_empty_event eq_signal slist_insert_tail
eq_add entry_max fresh event_num buf error eq =
    let (p, eq1) = get_empty_event fresh eq in
    let copy_size = min (length buf) entry_max in
    let e : EqEvent = record {
      event = event_num;
      entry = take copy_size buf;
      error = error;
      entry_size = copy_size;
    } in
    let s : Source = if error == 0 then event_source else error_source in
    let (h, q) = slist_insert_tail p eq1.next (queue_of s eq1) in
    (
      ok copy_size,
      eq_signal (set_queue s q (record eq1 { next = h; events = set_event eq1.events p e })),
    )
