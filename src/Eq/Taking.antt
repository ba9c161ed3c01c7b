-- ===== src/Eq/Taking.antt =====
-- What reading does to the two queues of events.
use libfabric_provider_dpa.Prelude.{
  ℕ, ◌≡◌, ◌≢◌, ◌∙◌, refl, sym, ap, subst, false, List, [], ◌∷◌, map, some, arith, ◌==◌, min, take,
}
use libfabric_provider_dpa.Fabric.{ok}
use libfabric_provider_dpa.Slist.{Ptr, slist_remove_head}
use libfabric_provider_dpa.Slist.Remove.{slist_remove_head-tail}
use libfabric_provider_dpa.Eq.{
  EqEvent, Eq, Source, event_source, error_source, queue_of, set_queue, get_head, eq_read_priv,
}
use libfabric_provider_dpa.Eq.Events.{eq_read_priv-takes}
use libfabric_provider_dpa.Eq.Lists.{AreApart, behind, IsEq}
use libfabric_provider_dpa.Eq.Refine.{HoldsEvents}

-- The two lists of a queue, from the one that is read and the other one.
abbrev pub ordered {ℓ} : {A : Type ℓ} → Source → A → A → A × A
ordered event_source xs ys = (xs, ys)
ordered error_source xs ys = (ys, xs)

-- What a read answers, by the entry that it takes.
pub read_lem :
    (s : Source) (len flags : ℕ) (eq : Eq) (p : Ptr)
    → (slist_remove_head eq.next (queue_of s eq)).0 ≡ p
    → p ≢ 0
    → let copied = min (eq.events p).entry_size len in
      eq_read_priv s len flags eq ≡ (
        ok copied,
        some ((eq.events p).event, take copied (eq.events p).entry),
        set_queue s (slist_remove_head eq.next (queue_of s eq)).1 eq,
      )
unfolding get_head
read_lem event_source len flags eq p head ne =
    let not_0 : (p == 0) ≡ false = ground (arith, ne) in
    eq_read_priv-takes event_source len flags eq ∙ rw (head, not_0) refl
read_lem error_source len flags eq p head ne =
    let not_0 : (p == 0) ≡ false = ground (arith, ne) in
    eq_read_priv-takes error_source len flags eq ∙ rw (head, not_0) refl

abbrev first {ℓ} : {A : Type ℓ} → A → List A → A
first d [] = d
first d (x ∷ xs) = x

abbrev rest_of {ℓ} : {A : Type ℓ} → List A → List A
rest_of [] = []
rest_of (x ∷ xs) = xs

AreApart-behind : (p : Ptr) (xs ys : List Ptr) → AreApart (p ∷ xs) ys → AreApart xs ys
AreApart-behind p xs ys apart a h = apart a (ground (arith, h))

read_event :
    (len : ℕ) (eq : Eq) (e : EqEvent) (rest errors : List EqEvent) (es errs free : List Ptr)
    → IsEq eq es errs free
    → map eq.events es ≡ e ∷ rest
    → map eq.events errs ≡ errors
    → (p : Ptr) × (p ≢ 0)
      × ((slist_remove_head eq.next eq.event_queue).0 ≡ p)
      × (eq.events p ≡ e)
      × HoldsEvents
          (set_queue event_source (slist_remove_head eq.next eq.event_queue).1 eq)
          rest
          errors
read_event len eq e rest errors [] errs free i m m' = absurd (ground (arith, m))
read_event len eq e rest errors (p ∷ xs) errs free i m m' =
    let t = slist_remove_head-tail eq.next eq.event_queue (p ∷ xs) i.event_list in
    (
      p,
      i.event_list.chain.1,
      t.0,
      ap (first e) m,
      record {
        es = xs;
        errs = errs;
        free = free;
        lists = record {
          event_list = t.1;
          error_list = i.error_list;
          free_entries = i.free_entries;
          apart_errors = AreApart-behind p xs errs i.apart_errors;
          apart_free = AreApart-behind p xs free i.apart_free;
          errors_apart = i.errors_apart;
        };
        are_events = ap rest_of m;
        are_errors = m';
      },
    )

read_error :
    (len : ℕ) (eq : Eq) (e : EqEvent) (rest events : List EqEvent) (es errs free : List Ptr)
    → IsEq eq es errs free
    → map eq.events es ≡ events
    → map eq.events errs ≡ e ∷ rest
    → (p : Ptr) × (p ≢ 0)
      × ((slist_remove_head eq.next eq.error_queue).0 ≡ p)
      × (eq.events p ≡ e)
      × HoldsEvents
          (set_queue error_source (slist_remove_head eq.next eq.error_queue).1 eq)
          events
          rest
read_error len eq e rest events es [] free i m m' = absurd (ground (arith, m'))
read_error len eq e rest events es (p ∷ xs) free i m m' =
    let t = slist_remove_head-tail eq.next eq.error_queue (p ∷ xs) i.error_list in
    (
      p,
      i.error_list.chain.1,
      t.0,
      ap (first e) m',
      record {
        es = es;
        errs = xs;
        free = free;
        lists = record {
          event_list = i.event_list;
          error_list = t.1;
          free_entries = i.free_entries;
          apart_errors = λ a h. behind a p xs (i.apart_errors a h);
          apart_free = i.apart_free;
          errors_apart = AreApart-behind p xs free i.errors_apart;
        };
        are_events = m;
        are_errors = ap rest_of m';
      },
    )

read_any :
    (s : Source) (len : ℕ) (eq : Eq) (e : EqEvent) (rest other : List EqEvent)
    → HoldsEvents eq (ordered s (e ∷ rest) other).0 (ordered s (e ∷ rest) other).1
    → (p : Ptr) × (p ≢ 0)
      × ((slist_remove_head eq.next (queue_of s eq)).0 ≡ p)
      × (eq.events p ≡ e)
      × HoldsEvents
          (set_queue s (slist_remove_head eq.next (queue_of s eq)).1 eq)
          (ordered s rest other).0
          (ordered s rest other).1
read_any event_source len eq e rest other q =
    read_event len eq e rest other q.es q.errs q.free q.lists q.are_events q.are_errors
read_any error_source len eq e rest other q =
    read_error len eq e rest other q.es q.errs q.free q.lists q.are_events q.are_errors

-- Reading from either list of a queue, with any flags, FI_PEEK too, refines taking the oldest: it
-- returns that event's number with as many of its bytes as there is room for, and leaves the others
-- of that list and the whole other list.
pub eq_read_priv-HoldsEvents :
    (s : Source) (len flags : ℕ) (eq : Eq) (e : EqEvent) (rest other : List EqEvent)
    → HoldsEvents eq (ordered s (e ∷ rest) other).0 (ordered s (e ∷ rest) other).1
    → let r = eq_read_priv s len flags eq in
      let copied = min e.entry_size len in
      let (events, errors) = ordered s rest other in
      (r.0 ≡ ok copied)
      × (r.1 ≡ some (e.event, take copied e.entry))
      × HoldsEvents r.2 events errors
eq_read_priv-HoldsEvents s len flags eq e rest other q =
    let (p, ne, head, same, left) = read_any s len eq e rest other q in
    let answer = read_lem s len flags eq p head ne in
    (
      ap (λ t. t.0) answer ∙ ap (λ (x : EqEvent). ok (min x.entry_size len)) same,
      ap (λ t. t.1) answer
          ∙ ap (λ (x : EqEvent). some (x.event, take (min x.entry_size len) x.entry)) same,
      subst (λ r. HoldsEvents r (ordered s rest other).0 (ordered s rest other).1)
          (sym (ap (λ t. t.2) answer)) left,
    )
