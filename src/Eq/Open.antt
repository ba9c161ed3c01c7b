-- ===== src/Eq/Open.antt =====
-- src/dpa_eq.c: opening an event queue, and writing to it. `fresh` are the answers of `calloc` for
-- the events of the free list, 0 where there is no memory.
use libfabric_provider_dpa.Prelude.{
  ◌≡◌, ◌≢◌, ◌∙◌, ap, sym, subst, refl, arith, ◌++◌, false, List, [], ◌∷◌, Option, none, some, ◌==◌,
  if◌then◌else◌,
}
use libfabric_provider_dpa.Fabric.{Ret, err, success, no_data, no_mem}
use libfabric_provider_dpa.Cq.{WaitObj, wait_none, wait_unspec, wait_other}
use libfabric_provider_dpa.Slist.{Ptr, Heap, slist_init, slist_insert_tail}
use libfabric_provider_dpa.Slist.Chain.{has, IsSlist}
use libfabric_provider_dpa.Slist.Insert.{slist_insert_tail-append}
use libfabric_provider_dpa.Eq.{EqEvent, Eq}
use mathlib.Core.List.{append-nil, append_assoc}

-- The queue before the loop, over the memory `next` and `events`.
abbrev empty_queue : Heap → (Ptr → EqEvent) → Eq
empty_queue next events = record {
  event_queue = slist_init;
  error_queue = slist_init;
  free_list = slist_init;
  next = next;
  events = events;
  has_progress = false;
  signalled = 0;
}

abbrev pub cleared : (Ptr → EqEvent) → Ptr → Ptr → EqEvent
cleared events p a =
    if a == p then record { event = 0; entry = []; error = 0; entry_size = 0 } else events a

-- The loop that fills the free list.
unfoldable pub add_free : List Ptr → Eq → Ret × Option Eq
unfolding slist_insert_tail
add_free [] eq = (success, some eq)
add_free (event ∷ fresh) eq =
    let (h, l) = slist_insert_tail event eq.next eq.free_list in
    let more =
      add_free fresh (record eq { next = h; free_list = l; events = cleared eq.events event }) in
    if event == 0 then (err no_mem, none) else more

-- `dpa_eq_open`: `attr` is none for NULL, and holds the wait object.
unfoldable pub dpa_eq_open : Option WaitObj → List Ptr → Heap → (Ptr → EqEvent) → Ret × Option Eq
unfolding add_free slist_init
dpa_eq_open none fresh next events = (err no_data, none)
dpa_eq_open (some wait_none) fresh next events = add_free fresh (empty_queue next events)
dpa_eq_open (some wait_unspec) fresh next events = add_free fresh (empty_queue next events)
dpa_eq_open (some wait_other) fresh next events = (err no_data, none)

-- Addresses that are not NULL, not in the list, and different from each other.
pub AreNew : List Ptr → List Ptr → Type 0
AreNew [] xs = Unit {0}
AreNew (p ∷ ps) xs = (p ≢ 0) × (has p xs ≡ false) × AreNew ps (xs ++ (p ∷ []))

add_free-IsSlist :
    (fresh xs : List Ptr) (eq : Eq)
    → IsSlist eq.next eq.free_list xs
    → AreNew fresh xs
    → (eq' : Eq) × (add_free fresh eq ≡ (success, some eq'))
      × IsSlist eq'.next eq'.free_list (xs ++ fresh)
      × (eq'.event_queue ≡ eq.event_queue)
      × (eq'.error_queue ≡ eq.error_queue)
unfolding add_free AreNew
add_free-IsSlist [] xs eq s new =
    (eq, refl, subst (IsSlist eq.next eq.free_list) (sym (append-nil xs)) s, refl, refl)
add_free-IsSlist (p ∷ ps) xs eq s (ne, out, new) =
    let not_0 : (p == 0) ≡ false = ground arith in
    let inserted = (slist_insert_tail-append p eq.next eq.free_list xs s ne out).0 in
    let (h, l) = slist_insert_tail p eq.next eq.free_list in
    let eq1 : Eq = record eq { next = h; free_list = l; events = cleared eq.events p } in
    let (eq', done, list, events, errors) = add_free-IsSlist ps (xs ++ (p ∷ [])) eq1 inserted new in
    (
      eq',
      ap (λ b. if b then (err no_mem, none) else add_free ps eq1) not_0 ∙ done,
      subst (IsSlist eq'.next eq'.free_list) (append_assoc xs (p ∷ []) ps) list,
      events,
      errors,
    )

-- With memory for all events, and a wait object that is FI_WAIT_NONE, an event queue opens with all
-- of them in its free list, in order.
pub dpa_eq_open_lem :
    (fresh : List Ptr) (next : Heap) (events : Ptr → EqEvent)
    → AreNew fresh []
    → (eq : Eq) × (dpa_eq_open (some wait_none) fresh next events ≡ (success, some eq))
      × IsSlist eq.next eq.free_list fresh
      × (eq.event_queue ≡ slist_init)
      × (eq.error_queue ≡ slist_init)
unfolding dpa_eq_open slist_init
dpa_eq_open_lem fresh next events new =
    add_free-IsSlist fresh [] (empty_queue next events) (record { chain = refl; tail = refl }) new
