-- ===== src/Dlist/Undo.antt =====
-- Removing what was inserted.
use libfabric_provider_dpa.Prelude.{◌≡◌, ◌≢◌, ◌∙◌, ap, arith}
use libfabric_provider_dpa.Slist.{Ptr}
use libfabric_provider_dpa.Dlist.{Heap, dlist_insert_after, dlist_insert_before, dlist_remove}

-- `a` lies between two entries that point back at it.
pub record IsLinked (h : Heap) (a : Ptr) : Type 0 where
  pub from_next : h.prev (h.next a) ≡ a
  pub from_prev : h.next (h.prev a) ≡ a

after_undone :
    (item entry a : Ptr) (h : Heap)
    → h.prev (h.next entry) ≡ entry
    → item ≢ entry
    → item ≢ h.next entry
    → a ≢ item
    → let h' = dlist_remove item (dlist_insert_after item entry h) in
      (h'.next a ≡ h.next a) × (h'.prev a ≡ h.prev a)
unfolding dlist_insert_after dlist_remove
after_undone item entry a h linked ne ne' other = ground arith

-- Whether an item is inserted after an entry or before it, between two entries of a list that point
-- at each other and are not the item: removing it gives every other entry back the pointers that it
-- had.
pub dlist_remove-dlist_insert :
    (item entry a : Ptr) (h : Heap)
    → IsLinked h entry
    → item ≢ entry
    → item ≢ h.next entry
    → item ≢ h.prev entry
    → a ≢ item
    → let after = dlist_remove item (dlist_insert_after item entry h) in
      let before = dlist_remove item (dlist_insert_before item entry h) in
      (after.next a ≡ h.next a)
      × (after.prev a ≡ h.prev a)
      × ((before.next a ≡ h.next a) × (before.prev a ≡ h.prev a))
unfolding dlist_insert_before
dlist_remove-dlist_insert item entry a h linked ne ne_next ne_prev other =
    let (after_next, after_prev) = after_undone item entry a h linked.from_next ne ne_next other in
    (
      after_next,
      after_prev,
      after_undone item (h.prev entry) a h (ap h.prev linked.from_prev) ne_prev
          (λ e. ne (e ∙ linked.from_prev)) other,
    )
