-- ===== src/Hash/Destroy.antt =====
-- What destroying a hash map frees.
use libfabric_provider_dpa.Prelude.{
  ℕ, zero, suc, ◌+◌, ◌<◌, ◌≤◌, ◌≡◌, ◌≢◌, ◌∙◌, refl, sym, ap, ap₂, subst, inl, inr, true, List, [],
  ◌∷◌, ◌++◌, arith, ◌==◌, Bool-cases,
}
use mathlib.Core.List.{Perm, append_assoc, append-nil, perm_middle}
use mathlib.Core.List.Perm
use libfabric_provider_dpa.Hash.{
  HashMap, uint_hash, hash_create, hash_put, hash_destroy, set_bucket, buckets_from,
}

module _ {V : Type 0} where
  set_bucket-same : (f : ℕ → List V) (k : ℕ) (vs : List V) → set_bucket f k vs k ≡ vs
  set_bucket-same f k vs = ground arith

  set_bucket-other : (f : ℕ → List V) (k i : ℕ) (vs : List V) → i ≢ k → set_bucket f k vs i ≡ f i
  set_bucket-other f k i vs ne = ground arith

  -- A bucket in front of those that are freed.
  buckets_from-behind :
      (f : ℕ → List V) (k i n : ℕ) (vs : List V)
      → k < i
      → buckets_from (set_bucket f k vs) i n ≡ buckets_from f i n
  buckets_from-behind f k i zero vs lt = refl
  buckets_from-behind f k i (suc n) vs lt =
      ap₂ (λ us ws. us ++ ws) (set_bucket-other f k i vs (omega arith))
        (buckets_from-behind f k (suc i) n vs (omega arith))

  buckets_from-one_more :
      (f : ℕ → List V) (k i n : ℕ) (v : V)
      → i ≤ k
      → k < i + n
      → Perm (buckets_from (set_bucket f k (f k ++ (v ∷ []))) i n) (v ∷ buckets_from f i n)
  buckets_from-one_more f k i zero v le lt = absurd (omega arith)
  buckets_from-one_more f k i (suc n) v le lt = elim (Bool-cases (i == k)) [
    | inl here ↦
        subst (λ us. Perm us (v ∷ (f i ++ buckets_from f (suc i) n)))
          (sym (
            ap₂ (λ us ws. us ++ ws) (new_bucket here)
              (buckets_from-behind f k (suc i) n (f k ++ (v ∷ [])) (ground arith))
            ∙ append_assoc (f i) (v ∷ []) (buckets_from f (suc i) n)))
          (perm_middle (f i) (buckets_from f (suc i) n))
    | inr other ↦
        subst
          (λ us.
            Perm (us ++ buckets_from (set_bucket f k (f k ++ (v ∷ []))) (suc i) n)
              (v ∷ (f i ++ buckets_from f (suc i) n)))
          (sym (set_bucket-other f k i (f k ++ (v ∷ [])) (ground arith)))
          (Perm.trans
            (Perm.append_left (f i)
              (buckets_from-one_more f k (suc i) n v (ground arith) (omega (arith, lt))))
            (perm_middle (f i) (buckets_from f (suc i) n)))
  ]
    where
      new_bucket : (i == k) ≡ true → set_bucket f k (f k ++ (v ∷ [])) i ≡ f i ++ (v ∷ [])
      new_bucket here =
          let e : i ≡ k = ground arith in
          subst (λ j. set_bucket f k (f k ++ (v ∷ [])) j ≡ f j ++ (v ∷ [])) (sym e)
            (set_bucket-same f k _)

  -- Values put one after the other.
  abbrev pub put_all : List V → HashMap V → HashMap V
  put_all [] m = m
  put_all (v ∷ vs) m = put_all vs (hash_put v m)

  hash_destroy-hash_put :
      (m : HashMap V) (v : V)
      → m.hash_func (m.key_of v) < m.map_size
      → Perm (hash_destroy (hash_put v m)) (v ∷ hash_destroy m)
  unfolding hash_destroy hash_put
  hash_destroy-hash_put m v lt =
      buckets_from-one_more m.entries (m.hash_func (m.key_of v)) 0 m.map_size v (omega arith)
        (omega (arith, lt))

  below :
      (size : ℕ) (m : HashMap V) (v : V)
      → 0 < size
      → m.map_size ≡ size
      → m.hash_func ≡ uint_hash size
      → m.hash_func (m.key_of v) < m.map_size
  below size m v pos same hashes =
      subst (λ f. f (m.key_of v) < m.map_size) (sym hashes) (omega (arith, same, pos))

  put_all-Perm :
      (size : ℕ) (key_of : V → ℕ) (vs : List V) (m : HashMap V)
      → 0 < size
      → m.map_size ≡ size
      → m.hash_func ≡ uint_hash size
      → Perm (hash_destroy (put_all vs m)) (vs ++ hash_destroy m)
  unfolding hash_put
  put_all-Perm size key_of [] m pos same hashes = Perm.rfl
  put_all-Perm size key_of (v ∷ vs) m pos same hashes =
      Perm.trans (put_all-Perm size key_of vs (hash_put v m) pos same hashes) (
        Perm.trans
          (Perm.append_left vs (hash_destroy-hash_put m v (below size m v pos same hashes)))
          (perm_middle vs (hash_destroy m)))

  buckets_from-empty : (i n : ℕ) → buckets_from {V = V} (λ j. []) i n ≡ []
  buckets_from-empty i zero = refl
  buckets_from-empty i (suc n) = buckets_from-empty (suc i) n

  -- Destroying a hash map of at least one bucket that was made and filled with values frees one
  -- entry for each value that was put, with the copy of it, and no other entry.
  pub hash_destroy-hash_create :
      (key_of : V → ℕ) (size : ℕ) (vs : List V)
      → 0 < size
      → Perm (hash_destroy (put_all vs (hash_create key_of size))) vs
  unfolding hash_create hash_destroy
  hash_destroy-hash_create key_of size vs pos =
      subst (Perm _) (ap (λ us. vs ++ us) (buckets_from-empty 0 size) ∙ append-nil vs)
        (put_all-Perm size key_of vs (hash_create key_of size) pos refl refl)
