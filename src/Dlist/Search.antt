-- ===== src/Dlist/Search.antt =====
-- Looking for the first entry that matches, and destroying a list.
use libfabric_provider_dpa.Prelude.{
  ℕ, zero, suc, ◌<◌, ◌≡◌, ◌≢◌, ◌∙◌, refl, ap, inl, inr, Bool, List, [], ◌∷◌, some, ==_iff,
  Bool-cases, if◌then◌else◌, length, arith,
}
use libfabric_provider_dpa.Slist.{Ptr}
use libfabric_provider_dpa.Dlist.{Heap, dlist_remove, dlist_remove_first_match, match_loop}

-- The `next` pointers lead from `a` through the entries `xs`, none of which is `list`, to `list`.
pub Leads : Heap → Ptr → Ptr → List Ptr → Type 0
Leads h list a [] = a ≡ list
Leads h list a (x ∷ xs) = (a ≡ x) × (x ≢ list) × Leads h list (h.next x) xs

-- The first entry that matches, 0 if none does.
abbrev pub first_match : (Ptr → Bool) → List Ptr → Ptr
first_match matches [] = 0
first_match matches (x ∷ xs) = if matches x then x else first_match matches xs

-- What the search answers with the list's entries.
abbrev pub removed : (Ptr → Bool) → List Ptr → Heap → Ptr × Heap
removed matches [] h = (0, h)
removed matches (x ∷ xs) h = if matches x then (x, dlist_remove x h) else removed matches xs h

match_loop_lem :
    (fuel : ℕ) (list a : Ptr) (matches : Ptr → Bool) (xs : List Ptr) (h : Heap)
    → Leads h list a xs
    → length xs < fuel
    → match_loop fuel list matches a h ≡ some (removed matches xs h)
unfolding Leads match_loop
match_loop_lem zero list a matches xs h leads lt = absurd (omega arith)
match_loop_lem (suc fuel) list a matches [] h leads lt = rw ((==_iff a list).1 leads) refl
match_loop_lem (suc fuel) list a matches (x ∷ xs) h (e, ne, leads) lt =
    let later = match_loop_lem fuel list (h.next x) matches xs h leads (omega arith) in
    ap (λ b. match_loop (suc fuel) list matches b h) e
    ∙ elim (Bool-cases (matches x)) [ inl here ↦ ground arith | inr not_here ↦ ground arith ]

-- With fuel for each entry of the list, the search returns: it answers the first entry that
-- matches, and takes that one out of the list, or NULL, and leaves the list as it was.
pub dlist_remove_first_match_lem :
    (fuel : ℕ) (list : Ptr) (matches : Ptr → Bool) (xs : List Ptr) (h : Heap)
    → Leads h list (h.next list) xs
    → length xs < fuel
    → dlist_remove_first_match fuel list matches h ≡ some (removed matches xs h)
unfolding dlist_remove_first_match
dlist_remove_first_match_lem fuel list matches xs h leads lt =
    match_loop_lem fuel list (h.next list) matches xs h leads lt
