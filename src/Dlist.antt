-- ===== src/Dlist.antt =====
-- src/list.h: the doubly linked lists, as pointers. A list is a ring through the entry in `dlist`;
-- the heap gives each entry's `next` and `prev`. The operations are the `_unsafe` ones; the others
-- take the list's lock round them.
pub mod Undo
pub mod Search
mod Tests
use libfabric_provider_dpa.Prelude.{
  ℕ, zero, suc, Bool, true, false, not, List, [], ◌∷◌, Option, none, some, ◌==◌, if◌then◌else◌,
}
use libfabric_provider_dpa.Slist.{Ptr, set_next}

-- The fields of every `dlist_entry`.
pub record Heap : Type 0 where
  pub next : Ptr → Ptr
  pub prev : Ptr → Ptr

-- a->next = p and a->prev = p
abbrev pub link_next : Heap → Ptr → Ptr → Heap
link_next h a p = record h { next = set_next h.next a p }

abbrev pub link_prev : Heap → Ptr → Ptr → Heap
link_prev h a p = record h { prev = set_next h.prev a p }

unfoldable pub dlist_init : Ptr → Heap → Heap
dlist_init list h = link_prev (link_next h list list) list list

unfoldable pub dlist_empty : Ptr → Heap → Bool
dlist_empty list h = h.next list == list

unfoldable pub dlist_insert_after : Ptr → Ptr → Heap → Heap
dlist_insert_after item entry h =
    let h1 = link_next h item (h.next entry) in
    let h2 = link_prev h1 item entry in
    let h3 = link_prev h2 (h2.next entry) item in link_next h3 entry item

unfoldable pub dlist_insert_before : Ptr → Ptr → Heap → Heap
unfolding dlist_insert_after
dlist_insert_before item entry h = dlist_insert_after item (h.prev entry) h

unfoldable pub dlist_remove : Ptr → Heap → Heap
dlist_remove item h =
    let h1 = link_next h (h.prev item) (h.next item) in link_prev h1 (h1.next item) (h1.prev item)

-- The loop of `dlist_remove_first_match`, on fuel; the answer 0 is NULL. `none`: out of fuel.
unfoldable pub match_loop : ℕ → Ptr → (Ptr → Bool) → Ptr → Heap → Option (Ptr × Heap)
unfolding dlist_remove
match_loop zero start matches item h = none
match_loop (suc fuel) start matches item h =
    let later = match_loop fuel start matches (h.next item) h in
    if item == start
    then some (0, h)
    else if matches item
    then some (item, dlist_remove item h)
    else later

unfoldable pub dlist_remove_first_match : ℕ → Ptr → (Ptr → Bool) → Heap → Option (Ptr × Heap)
unfolding match_loop
dlist_remove_first_match fuel start matches h = match_loop fuel start matches (h.next start) h

-- The loop of `dlist_destroy`, which goes on while the entry is NULL: the entries it frees.
unfoldable pub destroy_loop : ℕ → Ptr → Heap → Option (List Ptr)
destroy_loop zero e h = none
destroy_loop (suc fuel) e h =
    let rest = destroy_loop fuel (h.next e) h in
    if not (e == 0) then some [] else elim rest [ none ↦ none | some es ↦ some (e ∷ es) ]

unfoldable pub dlist_destroy : ℕ → Ptr → Heap → Option (List Ptr)
unfolding destroy_loop
dlist_destroy fuel list h = destroy_loop fuel (h.next list) h
