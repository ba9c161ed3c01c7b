-- ===== src/Eq/Refine.antt =====
-- An event queue as two queues of events: what adding does to them.
use libfabric_provider_dpa.Prelude.{
  ℕ, ◌+◌, ◌≡◌, ◌∙◌, refl, sym, ap, ap₂, subst, true, false, Bool, List, [], ◌∷◌, ◌++◌, map, arith,
  ◌==◌, min, take, length, if◌then◌else◌,
}
use libfabric_provider_dpa.Slist.{Ptr, slist_insert_tail}
use libfabric_provider_dpa.Slist.Chain.{has}
use libfabric_provider_dpa.Slist.Insert.{slist_insert_tail-append}
use libfabric_provider_dpa.Eq.{
  EqEvent, Eq, Source, event_source, error_source, queue_of, set_queue, get_empty_event, eq_signal,
  set_event, eq_add,
}
use libfabric_provider_dpa.Eq.Lists.{
  AreApart-sym, AreApart-append, IsEq, apart_kept, taken, IsNew, get_empty_event-Took,
}

insert_event-IsEq :
    (eq : Eq) (p : Ptr) (events : Ptr → EqEvent) (es errs free : List Ptr)
    → IsEq eq es errs free
    → IsNew p es errs free
    → let (h, q) = slist_insert_tail p eq.next eq.event_queue in
      IsEq (record eq { event_queue = q; next = h; events = events }) (es ++ (p ∷ [])) errs free
insert_event-IsEq eq p events es errs free i n = record {
  event_list =
      (slist_insert_tail-append p eq.next eq.event_queue es i.event_list n.not_null n.not_event).0;
  error_list =
      apart_kept p eq.next eq.event_queue eq.error_queue es errs i.event_list i.error_list
        n.not_null n.not_event n.not_error (AreApart-sym es errs i.apart_errors);
  free_entries =
      apart_kept p eq.next eq.event_queue eq.free_list es free i.event_list i.free_entries
        n.not_null n.not_event n.not_free (AreApart-sym es free i.apart_free);
  apart_errors = AreApart-append es errs p i.apart_errors n.not_error;
  apart_free = AreApart-append es free p i.apart_free n.not_free;
  errors_apart = i.errors_apart;
}

insert_error-IsEq :
    (eq : Eq) (p : Ptr) (events : Ptr → EqEvent) (es errs free : List Ptr)
    → IsEq eq es errs free
    → IsNew p es errs free
    → let (h, q) = slist_insert_tail p eq.next eq.error_queue in
      IsEq (record eq { error_queue = q; next = h; events = events }) es (errs ++ (p ∷ [])) free
insert_error-IsEq eq p events es errs free i n = record {
  event_list =
      apart_kept p eq.next eq.error_queue eq.event_queue errs es i.error_list i.event_list
        n.not_null n.not_error n.not_event i.apart_errors;
  error_list =
      (slist_insert_tail-append p eq.next eq.error_queue errs i.error_list n.not_null
        n.not_error).0;
  free_entries =
      apart_kept p eq.next eq.error_queue eq.free_list errs free i.error_list i.free_entries
        n.not_null n.not_error n.not_free (AreApart-sym errs free i.errors_apart);
  apart_errors =
      AreApart-sym (errs ++ (p ∷ [])) es
        (AreApart-append errs es p (AreApart-sym es errs i.apart_errors) n.not_event);
  apart_free = i.apart_free;
  errors_apart = AreApart-append errs free p i.errors_apart n.not_free;
}

signal_if-IsEq :
    (b : Bool) (eq : Eq) (es errs free : List Ptr)
    → IsEq eq es errs free
    → IsEq (if b then eq else record eq { signalled = eq.signalled + 1 }) es errs free
signal_if-IsEq true eq es errs free i = i
signal_if-IsEq false eq es errs free i = record {
  event_list = i.event_list;
  error_list = i.error_list;
  free_entries = i.free_entries;
  apart_errors = i.apart_errors;
  apart_free = i.apart_free;
  errors_apart = i.errors_apart;
}

signal_if-events :
    (b : Bool) (eq : Eq)
    → (if b then eq else record eq { signalled = eq.signalled + 1 }).events ≡ eq.events
signal_if-events true eq = refl
signal_if-events false eq = refl

map-set_event :
    (f : Ptr → EqEvent) (p : Ptr) (e : EqEvent) (xs : List Ptr)
    → has p xs ≡ false
    → map (set_event f p e) xs ≡ map f xs
map-set_event f p e [] out = refl
map-set_event f p e (x ∷ xs) out =
    let other : (x == p) ≡ false = ground arith in
    ap₂ (λ y ys. y ∷ ys) (ap (λ b. if b then e else f x) other)
      (map-set_event f p e xs (ground arith))

map-set_event_last :
    (f : Ptr → EqEvent) (p : Ptr) (e : EqEvent) (xs : List Ptr)
    → has p xs ≡ false
    → map (set_event f p e) (xs ++ (p ∷ [])) ≡ map f xs ++ (e ∷ [])
map-set_event_last f p e [] out =
    let same : (p == p) ≡ true = ground arith in ap (λ b. (if b then e else f p) ∷ []) same
map-set_event_last f p e (x ∷ xs) out =
    let other : (x == p) ≡ false = ground arith in
    ap₂ (λ y ys. y ∷ ys) (ap (λ b. if b then e else f x) other)
      (map-set_event_last f p e xs (ground arith))

-- The queue that `eq_add` adds to, as lists.
abbrev pub put {ℓ} : {A : Type ℓ} → Source → A → List A → List A → List A × List A
put event_source x xs ys = (xs ++ (x ∷ []), ys)
put error_source x xs ys = (xs, ys ++ (x ∷ []))

abbrev pub source_of : ℕ → Source
source_of error = if error == 0 then event_source else error_source

-- The event that `eq_add` stores.
abbrev pub stored : ℕ → ℕ → List ℕ → ℕ → EqEvent
stored entry_max num buf error = record {
  event = num;
  entry = take (min (length buf) entry_max) buf;
  error = error;
  entry_size = min (length buf) entry_max;
}

-- The events and errors that a queue holds, oldest first.
pub record HoldsEvents (eq : Eq) (events errors : List EqEvent) : Type 0 where
  pub es : List Ptr
  pub errs : List Ptr
  pub free : List Ptr
  pub lists : IsEq eq es errs free
  pub are_events : map eq.events es ≡ events
  pub are_errors : map eq.events errs ≡ errors

abbrev insert_at : Source → EqEvent → Ptr → Eq → Eq
insert_at s e p eq =
    let (h, q) = slist_insert_tail p eq.next (queue_of s eq) in
    set_queue s q (record eq { next = h; events = set_event eq.events p e })

insert_at-HoldsEvents :
    (s : Source) (e : EqEvent) (p : Ptr) (eq : Eq) (es errs free : List Ptr)
    (events errors : List EqEvent)
    → IsEq eq es errs free
    → map eq.events es ≡ events
    → map eq.events errs ≡ errors
    → IsNew p es errs free
    → HoldsEvents (insert_at s e p eq) (put s e events errors).0 (put s e events errors).1
insert_at-HoldsEvents event_source e p eq es errs free events errors i m m' n = record {
  es = es ++ (p ∷ []);
  errs = errs;
  free = free;
  lists = insert_event-IsEq eq p (set_event eq.events p e) es errs free i n;
  are_events = map-set_event_last eq.events p e es n.not_event ∙ ap (λ evs. evs ++ (e ∷ [])) m;
  are_errors = map-set_event eq.events p e errs n.not_error ∙ m';
}
insert_at-HoldsEvents error_source e p eq es errs free events errors i m m' n = record {
  es = es;
  errs = errs ++ (p ∷ []);
  free = free;
  lists = insert_error-IsEq eq p (set_event eq.events p e) es errs free i n;
  are_events = map-set_event eq.events p e es n.not_event ∙ m;
  are_errors = map-set_event_last eq.events p e errs n.not_error ∙ ap (λ evs. evs ++ (e ∷ [])) m';
}

eq_signal-HoldsEvents :
    (eq : Eq) (events errors : List EqEvent)
    → HoldsEvents eq events errors
    → HoldsEvents (eq_signal eq) events errors
unfolding eq_signal
eq_signal-HoldsEvents eq events errors q = record {
  es = q.es;
  errs = q.errs;
  free = q.free;
  lists = signal_if-IsEq eq.has_progress eq q.es q.errs q.free q.lists;
  are_events = ap (λ f. map f q.es) (signal_if-events eq.has_progress eq) ∙ q.are_events;
  are_errors = ap (λ f. map f q.errs) (signal_if-events eq.has_progress eq) ∙ q.are_errors;
}

-- `eq_add` refines appending to a list: an event goes behind the events, an error behind the
-- errors, with as many bytes as an entry has room for; the other list is as it was. `fresh`, the
-- memory that `calloc` answers, is none of the entries of the queue.
pub eq_add-HoldsEvents :
    (entry_max : ℕ) (fresh : Ptr) (num : ℕ) (buf : List ℕ) (error : ℕ) (eq : Eq)
    (events errors : List EqEvent) (q : HoldsEvents eq events errors)
    → IsNew fresh q.es q.errs q.free
    → let (events', errors') =
        put (source_of error) (stored entry_max num buf error) events errors in
      HoldsEvents (eq_add entry_max fresh num buf error eq).1 events' errors'
unfolding eq_add get_empty_event
eq_add-HoldsEvents entry_max fresh num buf error eq events errors q new =
    let t = get_empty_event-Took fresh eq q.es q.errs q.free q.lists new in
    let (events', errors') = put (source_of error) (stored entry_max num buf error) events errors in
    eq_signal-HoldsEvents _ events' errors' (
      subst
        (λ p.
          HoldsEvents
            (insert_at (source_of error) (stored entry_max num buf error) p
              (get_empty_event fresh eq).1)
            events' errors')
        (sym t.item)
        (insert_at-HoldsEvents (source_of error) (stored entry_max num buf error)
          (taken fresh q.free).0 (get_empty_event fresh eq).1 q.es q.errs (taken fresh q.free).1
          events errors t.lists q.are_events q.are_errors t.new))
