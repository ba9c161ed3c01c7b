-- ===== src/Slist/Chain.antt =====
-- Which list of entries a pointer list stands for.
use libfabric_provider_dpa.Prelude.{◌≡◌, ◌≢◌, Bool, true, false, ◌||◌, List, [], ◌∷◌, arith, ◌==◌}
use libfabric_provider_dpa.Slist.{Ptr, Heap, Slist, set_next}

abbrev pub has : Ptr → List Ptr → Bool
has a [] = false
has a (x ∷ xs) = (a == x) || has a xs

-- From `p` the `next` fields lead through the distinct entries `xs` to NULL.
abbrev pub Chain : Heap → Ptr → List Ptr → Type 0
Chain h p [] = p ≡ 0
Chain h p (x ∷ xs) = (p ≡ x) × (x ≢ 0) × (has x xs ≡ false) × Chain h (h x) xs

abbrev pub last_or : Ptr → List Ptr → Ptr
last_or d [] = d
last_or d (x ∷ xs) = last_or x xs

-- The list `l` in the heap `h` holds the entries `xs`; the tail of an empty list is NULL.
pub record IsSlist (h : Heap) (l : Slist) (xs : List Ptr) : Type 0 where
  pub chain : Chain h l.head xs
  pub tail : l.tail ≡ last_or 0 xs

-- Writes to entries outside a chain keep it.
pub Chain-frame :
    (h g : Heap) (p : Ptr) (xs : List Ptr)
    → Chain h p xs
    → ((a : Ptr) → has a xs ≡ true → g a ≡ h a)
    → Chain g p xs
Chain-frame h g p [] c same = c
Chain-frame h g p (x ∷ xs) c same = (
  c.0,
  c.1,
  c.2,
  rw (same x (ground arith)) (Chain-frame h g (h x) xs c.3 (λ a i. same a (ground arith))),
)

pub Chain-set_next :
    (h : Heap) (p e q : Ptr) (xs : List Ptr)
    → Chain h p xs
    → has e xs ≡ false
    → Chain (set_next h e q) p xs
Chain-set_next h p e q xs c out = Chain-frame h (set_next h e q) p xs c (λ a i. ground arith)
