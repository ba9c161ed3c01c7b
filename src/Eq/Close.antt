-- ===== src/Eq/Close.antt =====
-- src/dpa_eq.c: writing to an event queue, and closing one, which destroys its three lists: what is freed.
use libfabric_provider_dpa.Prelude.{
  ℕ, ◌+◌, ◌<◌, ◌≡◌, ◌≢◌, ◌∙◌, refl, sym, ap, ap₂, ◌||◌, true, false, List, [], ◌∷◌, ◌++◌, Option,
  none, some, arith, length,
}
use libfabric_provider_dpa.Fabric.{Ret}
use libfabric_provider_dpa.Slist.{Ptr, Heap, Slist, slist_remove_head, slist_destroy}
use libfabric_provider_dpa.Slist.Chain.{has, Chain, last_or}
use libfabric_provider_dpa.Slist.Insert.{has-append}
use libfabric_provider_dpa.Slist.Destroy.{slist_destroy-frees}
use libfabric_provider_dpa.Eq.{Eq, event_source, set_queue, eq_read_priv, eq_add}
use libfabric_provider_dpa.Eq.Lists.{IsEq}
use libfabric_provider_dpa.Eq.Taking.{read_lem}
use libfabric_provider_dpa.Slist.Remove.{slist_remove_head-tail}

-- `dpa_eq_write`; `entry_max` is sizeof(event->entry), and `fresh` what `calloc` answers.
unfoldable pub dpa_eq_write : ℕ → Ptr → ℕ → List ℕ → Eq → Ret × Eq
unfolding eq_add
dpa_eq_write entry_max fresh event buf eq = eq_add entry_max fresh event buf 0 eq

abbrev pub and_more : Option (List Ptr) → Option (List Ptr) → Option (List Ptr)
and_more (some ps) (some qs) = some (ps ++ qs)
and_more (some ps) none = none
and_more none qs = none

-- `dpa_eq_close`: what is freed before the queue itself; each list is walked on fuel.
unfoldable pub dpa_eq_close : ℕ → Eq → Option (List Ptr)
dpa_eq_close fuel eq =
    and_more (slist_destroy fuel eq.next eq.event_queue) (
      and_more (slist_destroy fuel eq.next eq.error_queue)
        (slist_destroy fuel eq.next eq.free_list))

-- What destroying a list of the entries frees: `free(NULL)` if there is none.
abbrev pub freed : List Ptr → List Ptr
freed [] = 0 ∷ []
freed (x ∷ xs) = x ∷ xs

-- Destroying a list reads only its head.
destroy-head :
    (fuel : ℕ) (h : Heap) (l : Slist) (t : Ptr)
    → slist_destroy fuel h (record l { tail = t }) ≡ slist_destroy fuel h l
unfolding slist_destroy
destroy-head fuel h l t = refl

destroy-Chain :
    (fuel : ℕ) (h : Heap) (l : Slist) (xs : List Ptr)
    → Chain h l.head xs
    → length xs < fuel
    → slist_destroy fuel h l ≡ some (freed xs)
destroy-Chain fuel h l [] c lt =
    sym (destroy-head fuel h l 0)
    ∙ slist_destroy-frees fuel h (record l { tail = 0 }) [] (record { chain = c; tail = refl }) lt
destroy-Chain fuel h l (x ∷ xs) c lt =
    sym (destroy-head fuel h l (last_or x xs))
    ∙ slist_destroy-frees fuel h (record l { tail = last_or x xs }) (x ∷ xs)
        (record { chain = c; tail = refl }) lt

-- Closing an event queue whose lists are chains of events ends, and frees each of them once.
pub dpa_eq_close-frees :
    (fuel : ℕ) (eq : Eq) (es errs free : List Ptr)
    → Chain eq.next eq.event_queue.head es
    → Chain eq.next eq.error_queue.head errs
    → Chain eq.next eq.free_list.head free
    → length es + length errs + length free < fuel
    → dpa_eq_close fuel eq ≡ some (freed es ++ (freed errs ++ freed free))
unfolding dpa_eq_close
dpa_eq_close-frees fuel eq es errs free c1 c2 c3 lt =
    rw
      (
        destroy-Chain fuel eq.next eq.event_queue es c1 (omega (arith, lt)),
        destroy-Chain fuel eq.next eq.error_queue errs c2 (omega (arith, lt)),
        destroy-Chain fuel eq.next eq.free_list free c3 (omega (arith, lt)),
      )
      refl

has-freed : (x : Ptr) (xs : List Ptr) → x ≢ 0 → has x xs ≡ false → has x (freed xs) ≡ false
has-freed x [] ne out = ground (arith, ne)
has-freed x (y ∷ ys) ne out = out

-- After a read with any flags, FI_PEEK too, of the oldest of the events `x ∷ xs`, closing the queue
-- ends and frees the events behind `x`, the errors and the free entries, once each and in this
-- order, with `free(NULL)` for an empty list. `x`, which is none of these, is never freed.
pub dpa_eq_close-eq_read_priv :
    (fuel len flags : ℕ) (eq : Eq) (x : Ptr) (xs errs free : List Ptr)
    → IsEq eq (x ∷ xs) errs free
    → has x xs ≡ false
    → length xs + length errs + length free < fuel
    → (dpa_eq_close fuel (eq_read_priv event_source len flags eq).2
        ≡ some (freed xs ++ (freed errs ++ freed free)))
      × (has x (freed xs ++ (freed errs ++ freed free)) ≡ false)
dpa_eq_close-eq_read_priv fuel len flags eq x xs errs free i alone lt =
    let t = slist_remove_head-tail eq.next eq.event_queue (x ∷ xs) i.event_list in
    let read = read_lem event_source len flags eq x t.0 i.event_list.chain.1 in
    let itself : has x (x ∷ xs) ≡ true = ground arith in
    let ne = i.event_list.chain.1 in
    (
      ap (λ r. dpa_eq_close fuel r.2) read
          ∙ dpa_eq_close-frees fuel
              (set_queue event_source (slist_remove_head eq.next eq.event_queue).1 eq) xs errs free
              t.1.chain i.error_list.chain i.free_entries.chain lt,
      has-append x (freed xs) (freed errs ++ freed free)
          ∙ ap₂ (λ a b. a || b) (has-freed x xs ne alone)
              (has-append x (freed errs) (freed free)
                ∙ ap₂ (λ a b. a || b) (has-freed x errs ne (i.apart_errors x itself))
                    (has-freed x free ne (i.apart_free x itself))),
    )
