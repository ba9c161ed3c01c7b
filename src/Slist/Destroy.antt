-- ===== src/Slist/Destroy.antt =====
-- `slist_destroy` frees every element once.
use libfabric_provider_dpa.Prelude.{ℕ, zero, suc, ◌<◌, ◌≡◌, ◌≢◌, List, [], ◌∷◌, some, arith, length}
use libfabric_provider_dpa.Slist.{Ptr, Heap, Slist, destroy_loop, slist_destroy}
use libfabric_provider_dpa.Slist.Chain.{Chain, IsSlist}

destroy_loop_lem :
    (fuel : ℕ) (prev e : Ptr) (h : Heap) (xs : List Ptr)
    → Chain h e xs
    → prev ≢ 0
    → length xs < fuel
    → destroy_loop fuel prev e h ≡ some (prev ∷ xs)
unfolding destroy_loop
destroy_loop_lem zero prev e h xs c ne f = absurd (omega arith)
destroy_loop_lem (suc fuel) prev e h [] c ne f = ground arith
destroy_loop_lem (suc fuel) prev e h (x ∷ xs) c ne f =
    ground (arith, destroy_loop_lem fuel x (h x) h xs c.3 c.1 (omega arith), c)

-- `slist_destroy` ends within one round more than the list has entries. It frees exactly the
-- entries of the list, each once and in order; on an empty list its only call is `free(NULL)`.
pub slist_destroy-frees :
    (fuel : ℕ) (h : Heap) (l : Slist) (xs : List Ptr)
    → IsSlist h l xs
    → length xs < fuel
    → slist_destroy fuel h l ≡ some (elim xs [ [] ↦ 0 ∷ [] | x ∷ rest ↦ x ∷ rest ])
unfolding slist_destroy destroy_loop
slist_destroy-frees zero h l xs s f = absurd (omega arith)
slist_destroy-frees (suc fuel) h l [] s f = ground arith
slist_destroy-frees (suc fuel) h l (x ∷ xs) s f =
    ground (arith, destroy_loop_lem fuel x (h x) h xs s.chain.3 s.chain.1 (omega arith), s.chain)
