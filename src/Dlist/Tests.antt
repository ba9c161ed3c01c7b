-- ===== src/Dlist/Tests.antt =====
-- A list with one entry, into which another is inserted.
use libfabric_provider_dpa.Prelude.{◌≡◌, refl, [], some, arith, ◌==◌, if◌then◌else◌}
use libfabric_provider_dpa.Dlist.{
  Heap, dlist_insert_after, dlist_insert_before, dlist_remove, dlist_destroy,
}
use libfabric_provider_dpa.Dlist.Undo.{dlist_remove-dlist_insert}

abbrev empty : Heap
empty = record { next = λ a. 0; prev = λ a. 0 }

-- The list at 1 with the entry 2.
abbrev single : Heap
single = record {
  next = λ a. if a == 2 then 1 else if a == 1 then 2 else 0;
  prev = λ a. if a == 2 then 1 else if a == 1 then 2 else 0;
}

-- Freeing a list that has an entry frees nothing.
frees_none : dlist_destroy 5 1 single ≡ some []
unfolding dlist_destroy
frees_none = refl

dlist_remove-dlist_insert_example :
    let after = dlist_remove 3 (dlist_insert_after 3 2 single) in
    let before = dlist_remove 3 (dlist_insert_before 3 2 single) in
    (after.next 1 ≡ 2) × (after.prev 1 ≡ 2) × ((before.next 1 ≡ 2) × (before.prev 1 ≡ 2))
dlist_remove-dlist_insert_example =
    dlist_remove-dlist_insert 3 2 1 single (record { from_next = refl; from_prev = refl })
      (λ e. ground arith) (λ e. ground arith) (λ e. ground arith) (λ e. ground arith)
