-- ===== src/Slist/Match.antt =====
-- `slist_remove_first_match`: the loop ends, and takes out exactly the first entry that matches.
use libfabric_provider_dpa.Prelude.{
  ℕ, zero, suc, ◌<◌, ◌≡◌, ◌≢◌, ◌∙◌, refl, sym, Bool, true, false, List, [], ◌∷◌, ◌++◌, Option, some,
  inl, inr, arith, ◌==◌, if◌then◌else◌, length, Bool-cases, ==_refl,
}
use mathlib.Core.List.{append-nil, append_assoc}
use libfabric_provider_dpa.Slist.{
  Ptr, Heap, Slist, set_next, remove_match_loop, slist_remove_first_match,
}
use libfabric_provider_dpa.Slist.Chain.{has, Chain, last_or, IsSlist, Chain-set_next}
use libfabric_provider_dpa.Slist.Insert.{has-last_or, has-append}

-- The first entry of a list that matches, or NULL; and the list without it.
unfoldable pub find_first : (Ptr → Bool) → List Ptr → Ptr
find_first matches [] = 0
find_first matches (x ∷ xs) = if matches x then x else find_first matches xs

unfoldable pub erase_first : (Ptr → Bool) → List Ptr → List Ptr
erase_first matches [] = []
erase_first matches (x ∷ xs) = if matches x then xs else x ∷ erase_first matches xs

-- What a run of the loop returns, with the list that holds afterwards.
pub record Removed (h : Heap) (r : Option (Ptr × Heap × Slist)) (item : Ptr) (xs : List Ptr)
    : Type 0 where
  pub heap : Heap
  pub list : Slist
  pub returns : r ≡ some (item, heap, list)
  pub holds : IsSlist heap list xs

-- Taking `x` out from behind the last entry of a chain.
Chain-relink :
    (h : Heap) (p x y : Ptr) (ys bs : List Ptr)
    → Chain h p ((y ∷ ys) ++ (x ∷ bs))
    → Chain (set_next h (last_or y ys) (h x)) p ((y ∷ ys) ++ bs)
Chain-relink h p x y [] bs c = (
  c.0,
  c.1,
  ground (arith, c.2),
  rw (==_refl y) (Chain-set_next h (h x) y (h x) bs c.3.3 (ground (arith, c.2))),
)
Chain-relink h p x y (z ∷ zs) bs c = (
  c.0,
  c.1,
  ground (arith, c.2, has-append y (z ∷ zs) (x ∷ bs), has-append y (z ∷ zs) bs),
  rw kept (Chain-relink h (h y) x z zs bs c.3),
)
  where
    kept : set_next h (last_or z zs) (h x) y ≡ h y
    kept = ground (arith, c.2, has-append y (z ∷ zs) (x ∷ bs), has-last_or z zs)

last_or-append_cons : (d x : Ptr) (ds bs : List Ptr) → last_or d (ds ++ (x ∷ bs)) ≡ last_or x bs
last_or-append_cons d x [] bs = refl
last_or-append_cons d x (a ∷ ds) bs = last_or-append_cons a x ds bs

Chain-from :
    (h : Heap) (p x : Ptr) (ds bs : List Ptr)
    → Chain h p (ds ++ (x ∷ bs))
    → (x ≢ 0) × (has x bs ≡ false) × Chain h (h x) bs
Chain-from h p x [] bs c = (c.1, c.2, c.3)
Chain-from h p x (a ∷ ds) bs c = Chain-from h (h a) x ds bs c.3

-- The entry before a match is neither NULL nor the match.
Chain-last :
    (h : Heap) (p x d : Ptr) (ds bs : List Ptr)
    → Chain h p ((d ∷ ds) ++ (x ∷ bs))
    → (last_or d ds ≢ 0) × (last_or d ds ≢ x)
Chain-last h p x d [] bs c = (c.1, ground (arith, c.2))
Chain-last h p x d (e ∷ ds) bs c = Chain-last h (h d) x e ds bs c.3

module _ (matches : Ptr → Bool) (h : Heap) (l : Slist) where
  relinked :
      (x d : Ptr) (ds bs : List Ptr)
      → IsSlist h l ((d ∷ ds) ++ (x ∷ bs))
      → Chain (set_next h (last_or d ds) (h x)) l.head ((d ∷ ds) ++ bs)
      → IsSlist
          (set_next h (last_or d ds) (h x))
          (if h x == 0 then record l { tail = last_or d ds } else l)
          ((d ∷ ds) ++ bs)
  relinked x d ds [] s c =
      let e : (h x == 0) ≡ true = ground (arith, Chain-from h l.head x (d ∷ ds) [] s.chain) in
      rw e (record { chain = c; tail = rw append-nil })
  relinked x d ds (b ∷ bs) s c =
      let e : (h x == 0) ≡ false =
        ground (arith, Chain-from h l.head x (d ∷ ds) (b ∷ bs) s.chain) in
      rw e (record {
        chain = c;
        tail = s.tail ∙ last_or-append_cons d x ds (b ∷ bs) ∙ sym (last_or-append_cons d b ds bs);
      })

  -- The match is behind the entries `ds`, of which the last is `prev`.
  unlinked :
      (x : Ptr) (ds bs : List Ptr)
      → IsSlist h l (ds ++ (x ∷ bs))
      → let prev = last_or 0 ds in
        let h' = if prev == 0 then h else set_next h prev (h x) in
        let l1 : Slist = if prev == 0 then record l { head = h x } else l in
        IsSlist h' (if h' x == 0 then record l1 { tail = prev } else l1) (ds ++ bs)
  unlinked x [] [] s =
      let e : (h x == 0) ≡ true = ground (arith, s.chain) in
      rw e (record { chain = ground (arith, s.chain); tail = refl })
  unlinked x [] (b ∷ bs) s =
      let e : (h x == 0) ≡ false = ground (arith, s.chain) in
      rw e (record { chain = s.chain.3; tail = s.tail })
  unlinked x (d ∷ ds) bs s =
      let apart = Chain-last h l.head x d ds bs s.chain in
      let e : (last_or d ds == 0) ≡ false = ground (arith, apart) in
      let k : (x == last_or d ds) ≡ false = ground (arith, apart) in
      rw (e, k) (relinked x d ds bs s (Chain-relink h l.head x d ds bs s.chain))

  regroup :
      (fuel : ℕ) (x : Ptr) (ds : List Ptr) (found : Ptr) (left : List Ptr)
      → Removed h
          (remove_match_loop fuel matches (last_or 0 (ds ++ (x ∷ []))) (h x) h l)
          found
          ((ds ++ (x ∷ [])) ++ left)
      → Removed h (remove_match_loop fuel matches x (h x) h l) found (ds ++ (x ∷ left))
  regroup fuel x ds found left r =
      rw (last_or-append_cons 0 x ds [], append_assoc ds (x ∷ []) left) at r

  loop_lem :
      (fuel : ℕ) (item : Ptr) (ds xs : List Ptr)
      → IsSlist h l (ds ++ xs)
      → Chain h item xs
      → length xs < fuel
      → Removed h
          (remove_match_loop fuel matches (last_or 0 ds) item h l)
          (find_first matches xs)
          (ds ++ erase_first matches xs)
  unfolding remove_match_loop find_first erase_first
  loop_lem zero item ds xs s c f = absurd (omega arith)
  loop_lem (suc fuel) item ds [] s c f =
      let e : (item == 0) ≡ true = ground arith in
      rw e (record { heap = h; list = l; returns = refl; holds = s })
  loop_lem (suc fuel) item ds (x ∷ xs) s c f =
      let e : (x == 0) ≡ false = ground arith in
      rw c.0 (elim (Bool-cases (matches x)) [
        | inl m ↦
            rw (e, m) (record { heap = _; list = _; returns = refl; holds = unlinked x ds xs s })
        | inr m ↦
            rw (e, m)
              (regroup fuel x ds (find_first matches xs) (erase_first matches xs) (
                loop_lem fuel (h x) (ds ++ (x ∷ [])) xs (rw (append_assoc ds (x ∷ []) xs) s) c.3
                  (omega arith)))
      ])

-- `slist_remove_first_match` ends within one round more than the list has entries. It returns the
-- first entry that matches, or NULL if none does, and leaves the list without that entry.
pub slist_remove_first_match-erase :
    (fuel : ℕ) (matches : Ptr → Bool) (h : Heap) (l : Slist) (xs : List Ptr)
    → IsSlist h l xs
    → length xs < fuel
    → Removed h
        (slist_remove_first_match fuel matches h l)
        (find_first matches xs)
        (erase_first matches xs)
unfolding slist_remove_first_match
slist_remove_first_match-erase fuel matches h l xs s f =
    loop_lem matches h l fuel l.head [] xs s s.chain f
