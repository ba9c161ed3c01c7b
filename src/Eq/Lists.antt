-- ===== src/Eq/Lists.antt =====
-- The three lists of an event queue, which share no entry, and taking an entry from the free one.
use libfabric_provider_dpa.Prelude.{
  ℕ, ◌≡◌, ◌≢◌, ◌∙◌, ap, true, false, Bool, List, [], ◌∷◌, ◌++◌, arith, ◌==◌, Bool-cases, inl, inr,
  if◌then◌else◌,
}
use libfabric_provider_dpa.Slist.{Ptr, Heap, Slist, slist_insert_tail}
use libfabric_provider_dpa.Slist.Chain.{has, Chain-frame, IsSlist}
use libfabric_provider_dpa.Slist.Insert.{has-append, slist_insert_tail-append}
use libfabric_provider_dpa.Slist.Remove.{slist_remove_head-tail}
use libfabric_provider_dpa.Eq.{Eq, get_empty_event}

-- No entry is in both lists.
abbrev pub AreApart : List Ptr → List Ptr → Type 0
AreApart xs ys = (a : Ptr) → has a xs ≡ true → has a ys ≡ false

-- The three lists of an event queue are lists of different entries.
pub record IsEq (eq : Eq) (es errs free : List Ptr) : Type 0 where
  pub event_list : IsSlist eq.next eq.event_queue es
  pub error_list : IsSlist eq.next eq.error_queue errs
  pub free_entries : IsSlist eq.next eq.free_list free
  pub apart_errors : AreApart es errs
  pub apart_free : AreApart es free
  pub errors_apart : AreApart errs free

clash : (b : Bool) → b ≡ true → b ≡ false → ⊥
clash b t f = ground arith

same_number : (a b : ℕ) → (a == b) ≡ true → a ≡ b
same_number a b h = ground arith

-- A list apart from the one that gets a new entry stays as it is.
pub apart_kept :
    (item : Ptr) (h : Heap) (l m : Slist) (xs ys : List Ptr)
    → IsSlist h l xs
    → IsSlist h m ys
    → item ≢ 0
    → has item xs ≡ false
    → has item ys ≡ false
    → AreApart ys xs
    → IsSlist (slist_insert_tail item h l).0 m ys
apart_kept item h l m xs ys s t ne out out' apart = record {
  chain = Chain-frame h _ m.head ys t.chain (λ a i.
      (slist_insert_tail-append item h l xs s ne out).1 a (apart a i)
        (λ e. clash (has a ys) i (ap (λ x. has x ys) e ∙ out')));
  tail = t.tail;
}

pub AreApart-sym : (xs ys : List Ptr) → AreApart xs ys → AreApart ys xs
AreApart-sym xs ys apart a i = elim (Bool-cases (has a xs)) [
  | inl t ↦ absurd (clash (has a ys) i (apart a t))
  | inr f ↦ f
]

pub behind : (a p : Ptr) (ps : List Ptr) → has a (p ∷ ps) ≡ false → has a ps ≡ false
behind a p ps h = ground arith

pub AreApart-append :
    (xs ys : List Ptr) (p : Ptr) → AreApart xs ys → has p ys ≡ false → AreApart (xs ++ (p ∷ [])) ys
AreApart-append xs ys p apart out a i = elim (Bool-cases (a == p)) [
  | inl here ↦ ap (λ x. has x ys) (same_number a p here) ∙ out
  | inr other ↦ apart a (ground (arith, has-append a xs (p ∷ []), i, other))
]

-- The memory that an insertion takes: the first free event, or else what `calloc` answers.
abbrev pub taken : Ptr → List Ptr → Ptr × List Ptr
taken fresh [] = (fresh, [])
taken fresh (p ∷ free) = (p, free)

-- An entry that is in none of the lists.
pub record IsNew (p : Ptr) (es errs free : List Ptr) : Type 0 where
  pub not_null : p ≢ 0
  pub not_event : has p es ≡ false
  pub not_error : has p errs ≡ false
  pub not_free : has p free ≡ false

-- Taking an event from the free list.
pub record Took (fresh : Ptr) (eq : Eq) (es errs free : List Ptr) : Type 0 where
  pub item : (get_empty_event fresh eq).0 ≡ (taken fresh free).0
  pub lists : IsEq (get_empty_event fresh eq).1 es errs (taken fresh free).1
  pub new : IsNew (taken fresh free).0 es errs (taken fresh free).1

pub get_empty_event-Took :
    (fresh : Ptr) (eq : Eq) (es errs free : List Ptr)
    → IsEq eq es errs free
    → IsNew fresh es errs free
    → Took fresh eq es errs free
unfolding get_empty_event
get_empty_event-Took fresh eq es errs [] i n =
    let t = slist_remove_head-tail eq.next eq.free_list [] i.free_entries in
    record {
      item = ap (λ p. if p == 0 then fresh else p) t.0;
      lists = record {
        event_list = i.event_list;
        error_list = i.error_list;
        free_entries = t.1;
        apart_errors = i.apart_errors;
        apart_free = i.apart_free;
        errors_apart = i.errors_apart;
      };
      new = n;
    }
get_empty_event-Took fresh eq es errs (p ∷ free) i n =
    let t = slist_remove_head-tail eq.next eq.free_list (p ∷ free) i.free_entries in
    let chain = i.free_entries.chain in
    let not_0 : (p == 0) ≡ false = ground (arith, chain.1) in
    let here : has p (p ∷ free) ≡ true = ground arith in
    record {
      item = ap (λ q. if q == 0 then fresh else q) t.0 ∙ ap (λ b. if b then fresh else p) not_0;
      lists = record {
        event_list = i.event_list;
        error_list = i.error_list;
        free_entries = t.1;
        apart_errors = i.apart_errors;
        apart_free = λ a h. behind a p free (i.apart_free a h);
        errors_apart = λ a h. behind a p free (i.errors_apart a h);
      };
      new = record {
        not_null = chain.1;
        not_event = AreApart-sym es (p ∷ free) i.apart_free p here;
        not_error = AreApart-sym errs (p ∷ free) i.errors_apart p here;
        not_free = chain.2;
      };
    }
