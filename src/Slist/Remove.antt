-- ===== src/Slist/Remove.antt =====
-- Removal of the head, and of the first entry that matches.
use libfabric_provider_dpa.Prelude.{◌≡◌, refl, true, false, List, [], ◌∷◌, arith, subst, sym, ◌==◌}
use libfabric_provider_dpa.Slist.{Ptr, Heap, Slist, slist_remove_head}
use libfabric_provider_dpa.Slist.Chain.{Chain, IsSlist}
use libfabric_provider_dpa.Slist.Insert.{has-last_or}

abbrev pub head_or_null : List Ptr → Ptr
head_or_null [] = 0
head_or_null (x ∷ xs) = x

abbrev pub tail : List Ptr → List Ptr
tail [] = []
tail (x ∷ xs) = xs

-- `slist_remove_head` returns the first entry, or NULL on an empty list, and leaves the others.
pub slist_remove_head-tail :
    (h : Heap) (l : Slist) (xs : List Ptr)
    → IsSlist h l xs
    → let (item, l') = slist_remove_head h l in (item ≡ head_or_null xs) × IsSlist h l' (tail xs)
unfolding slist_remove_head
slist_remove_head-tail h l [] s =
    let e : (l.head == l.tail) ≡ true = ground arith in
    rw e (s.chain, record { chain = refl; tail = refl })
slist_remove_head-tail h l (x ∷ []) s =
    let e : (l.head == l.tail) ≡ true = ground arith in
    rw e (s.chain.0, record { chain = refl; tail = refl })
slist_remove_head-tail h l (x ∷ y ∷ ys) s =
    let e : (l.head == l.tail) ≡ false = ground (arith, s.tail, has-last_or y ys) in
    rw e (
      s.chain.0,
      record {
        chain = subst (λ p. Chain h (h p) (y ∷ ys)) (sym s.chain.0) s.chain.3;
        tail = s.tail;
      },
    )
