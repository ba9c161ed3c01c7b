-- ===== src/Slist.antt =====
-- src/list.h: the singly linked lists that carry every queue of the provider, as pointers. An
-- entry is its address, 0 is NULL, and the heap gives each entry's `next`. The operations are the
-- `_unsafe` ones; the others take the list's lock round them.
pub mod Chain
pub mod Insert
pub mod Remove
pub mod Threads
pub mod Held
pub mod Interleaved
pub mod Match
pub mod Destroy
mod Tests
use libfabric_provider_dpa.Prelude.{
  ℕ, zero, suc, Bool, true, false, List, [], ◌∷◌, Option, none, some, ◌==◌, if◌then◌else◌, length,
}

abbrev pub Ptr : Type 0
Ptr = ℕ

-- The `next` field of every `slist_entry`.
abbrev pub Heap : Type 0
Heap = Ptr → Ptr

pub record Slist : Type 0 where
  pub head : Ptr
  pub tail : Ptr

-- entry->next = p
abbrev pub set_next : Heap → Ptr → Ptr → Heap
set_next h entry p a = if a == entry then p else h a

unfoldable pub slist_init : Slist
slist_init = record { head = 0; tail = 0 }

unfoldable pub slist_empty : Slist → Bool
slist_empty l = l.head == 0

unfoldable pub slist_insert_head : Ptr → Heap → Slist → Heap × Slist
unfolding slist_empty
slist_insert_head item h l =
    if slist_empty l
    then (set_next h item 0, record { head = item; tail = item })
    else (set_next h item l.head, record l { head = item })

unfoldable pub slist_insert_tail : Ptr → Heap → Slist → Heap × Slist
unfolding slist_empty
slist_insert_tail item h l =
    if slist_empty l
    then (set_next h item 0, record { head = item; tail = item })
    else (set_next (set_next h l.tail item) item 0, record l { tail = item })

-- The entry that was the head, or 0.
unfoldable pub slist_remove_head : Heap → Slist → Ptr × Slist
unfolding slist_init
slist_remove_head h l =
    if l.head == l.tail then (l.head, slist_init) else (l.head, record l { head = h l.head })

-- The loop of `slist_remove_first_match`, on fuel, with `prev` and `item`. `none`: out of fuel.
remove_match_loop : ℕ → (Ptr → Bool) → Ptr → Ptr → Heap → Slist → Option (Ptr × Heap × Slist)
remove_match_loop zero matches prev item h l = none
remove_match_loop (suc fuel) matches prev item h l =
    let next = remove_match_loop fuel matches item (h item) h l in
    let h' = if prev == 0 then h else set_next h prev (h item) in
    let l1 : Slist = if prev == 0 then record l { head = h item } else l in
    let l2 : Slist = if h' item == 0 then record l1 { tail = prev } else l1 in
    if item == 0 then some (0, h, l) else if matches item then some (item, h', l2) else next

pub slist_remove_first_match : ℕ → (Ptr → Bool) → Heap → Slist → Option (Ptr × Heap × Slist)
unfolding remove_match_loop
slist_remove_first_match fuel matches h l = remove_match_loop fuel matches 0 l.head h l

-- The loop of `slist_destroy`: the entries whose elements it frees, in order. The last `free` is
-- of `prev`, which is NULL for an empty list.
destroy_loop : ℕ → Ptr → Ptr → Heap → Option (List Ptr)
destroy_loop zero prev e h = none
destroy_loop (suc fuel) prev e h =
    let rest = destroy_loop fuel e (h e) h in
    if e == 0
    then some (prev ∷ [])
    else elim rest [ none ↦ none | some freed ↦ some (if prev == 0 then freed else prev ∷ freed) ]

unfoldable pub slist_destroy : ℕ → Heap → Slist → Option (List Ptr)
unfolding destroy_loop
slist_destroy fuel h l = destroy_loop fuel 0 l.head h
