-- ===== src/Slist/Insert.antt =====
-- Insertion at either end.
use libfabric_provider_dpa.Prelude.{
  ◌≡◌, ◌≢◌, refl, true, false, ◌||◌, List, [], ◌∷◌, ◌++◌, arith, ◌==◌, subst, sym, ==_refl,
}
use libfabric_provider_dpa.Slist.{Ptr, Heap, Slist, set_next, slist_insert_head, slist_insert_tail}
use libfabric_provider_dpa.Slist.Chain.{has, Chain, last_or, IsSlist, Chain-set_next}

pub has-last_or : (y : Ptr) (ys : List Ptr) → has (last_or y ys) (y ∷ ys) ≡ true
has-last_or y [] = ground arith
has-last_or y (z ∷ zs) = ground (arith, has-last_or z zs)

pub has-append : (a : Ptr) (xs ys : List Ptr) → has a (xs ++ ys) ≡ (has a xs || has a ys)
has-append a [] ys = refl
has-append a (x ∷ xs) ys = ground (arith, has-append a xs ys)

last_or-append : (d x : Ptr) (xs : List Ptr) → last_or d (xs ++ (x ∷ [])) ≡ x
last_or-append d x [] = refl
last_or-append d x (y ∷ ys) = last_or-append y x ys

-- Linking a new entry behind the last one.
Chain-snoc :
    (h : Heap) (p x y : Ptr) (ys : List Ptr)
    → Chain h p (y ∷ ys)
    → has x (y ∷ ys) ≡ false
    → x ≢ 0
    → Chain (set_next (set_next h (last_or y ys) x) x 0) p ((y ∷ ys) ++ (x ∷ []))
Chain-snoc h p x y [] c out ne = ground arith
Chain-snoc h p x y (z ∷ zs) c out ne = (
  c.0,
  c.1,
  ground (arith, c.2, has-append y (z ∷ zs) (x ∷ [])),
  rw kept (Chain-snoc h (h y) x z zs c.3 (ground arith) ne),
)
  where
    kept : set_next (set_next h (last_or z zs) x) x 0 y ≡ h y
    kept = ground (arith, c.2, has-last_or z zs)

-- `slist_insert_tail` puts an entry that is not in the list behind all the others, and changes the
-- `next` of no entry but that one and the old tail.
pub slist_insert_tail-append :
    (item : Ptr) (h : Heap) (l : Slist) (xs : List Ptr)
    → IsSlist h l xs
    → item ≢ 0
    → has item xs ≡ false
    → let (h', l') = slist_insert_tail item h l in
      IsSlist h' l' (xs ++ (item ∷ [])) × ((a : Ptr) → has a xs ≡ false → a ≢ item → h' a ≡ h a)
unfolding slist_insert_tail
slist_insert_tail-append item h l [] s ne out =
    let e : (l.head == 0) ≡ true = ground arith in
    rw e (record { chain = ground arith; tail = refl }, λ a i n. ground arith)
slist_insert_tail-append item h l (y ∷ ys) s ne out =
    let e : (l.head == 0) ≡ false = ground arith in
    rw e (
      record {
        chain =
            subst
              (λ t. Chain (set_next (set_next h t item) item 0) l.head ((y ∷ ys) ++ (item ∷ [])))
              (sym s.tail) (Chain-snoc h l.head item y ys s.chain out ne);
        tail = sym (last_or-append 0 item (y ∷ ys));
      },
      λ a i n. ground (arith, has-last_or y ys, s.tail),
    )

-- `slist_insert_head` puts an entry that is not in the list before all the others, and changes the
-- `next` of no other entry.
pub slist_insert_head-cons :
    (item : Ptr) (h : Heap) (l : Slist) (xs : List Ptr)
    → IsSlist h l xs
    → item ≢ 0
    → has item xs ≡ false
    → let (h', l') = slist_insert_head item h l in
      IsSlist h' l' (item ∷ xs) × ((a : Ptr) → a ≢ item → h' a ≡ h a)
unfolding slist_insert_head
slist_insert_head-cons item h l [] s ne out =
    let e : (l.head == 0) ≡ true = ground arith in
    rw e (record { chain = ground arith; tail = refl }, λ a n. ground arith)
slist_insert_head-cons item h l (y ∷ ys) s ne out =
    let e : (l.head == 0) ≡ false = ground arith in
    rw e (
      record {
        chain = (
          refl,
          ne,
          out,
          rw (==_refl item) (Chain-set_next h l.head item l.head (y ∷ ys) s.chain out),
        );
        tail = s.tail;
      },
      λ a n. ground arith,
    )

-- Inserting an entry that is not in the list at its head and then another one at its tail leaves
-- the list with the first in front of and the second behind the entries that were there.
pub insert_both_ends :
    (first last : Ptr) (h : Heap) (l : Slist) (xs : List Ptr)
    → IsSlist h l xs
    → first ≢ 0
    → last ≢ 0
    → has first xs ≡ false
    → has last (first ∷ xs) ≡ false
    → let (h1, l1) = slist_insert_head first h l in
      let (h2, l2) = slist_insert_tail last h1 l1 in IsSlist h2 l2 ((first ∷ xs) ++ (last ∷ []))
insert_both_ends first last h l xs s f_ne l_ne f_out l_out =
    (slist_insert_tail-append last _ _ (first ∷ xs)
      (slist_insert_head-cons first h l xs s f_ne f_out).0 l_ne l_out).0
