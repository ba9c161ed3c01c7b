-- ===== src/Hash/Tests.antt =====
-- A map of eight buckets whose values are their own keys.
use libfabric_provider_dpa.Prelude.{ℕ, ◌≡◌, refl, none, some}
use libfabric_provider_dpa.Hash.{HashMap, hash_create, hash_put, hash_get}
use libfabric_provider_dpa.Hash.Lookup.{hash_get-hash_put}

abbrev empty : HashMap ℕ
empty = hash_create (λ v. v) 8

-- 3 and 11 share a bucket.
abbrev both : HashMap ℕ
both = hash_put 11 (hash_put 3 empty)

finds : (hash_get 11 both ≡ some 11) × (hash_get 4 both ≡ none)
unfolding hash_get hash_put hash_create
finds = (refl, refl)

hash_get-hash_put_example : hash_get 11 (hash_put 11 (hash_put 3 empty)) ≡ some 11
unfolding hash_get hash_put hash_create
hash_get-hash_put_example = hash_get-hash_put (hash_put 3 empty) 11 11
