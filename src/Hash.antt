-- ===== src/Hash.antt =====
-- src/hash.h: hash maps with chains of values. A bucket is an `slist`, given by the values that it
-- holds; the key of a value is the field that `key_offset` names. A map with a hash function of its
-- own takes it in place of `uint_hash`.
pub mod Destroy
pub mod Lookup
mod Tests
use libfabric_provider_dpa.Prelude.{
  ℕ, zero, suc, ◌+◌, ◌%◌, Bool, true, false, List, [], ◌∷◌, ◌++◌, Option, none, some, ◌==◌,
  if◌then◌else◌,
}

pub record HashMap (V : Type 0) : Type 0 where
  pub key_of : V → ℕ
  pub map_size : ℕ
  pub hash_func : ℕ → ℕ
  pub entries : ℕ → List V

-- `uint_hash`
abbrev pub uint_hash : ℕ → ℕ → ℕ
uint_hash map_size key = key % map_size

unfoldable pub hash_create : {V : Type 0} → (V → ℕ) → ℕ → HashMap V
hash_create key_of size = record {
  key_of = key_of;
  map_size = size;
  hash_func = uint_hash size;
  entries = λ i. [];
}

abbrev pub set_bucket : {V : Type 0} → (ℕ → List V) → ℕ → List V → ℕ → List V
set_bucket f i vs j = if j == i then vs else f j

unfoldable pub hash_put : {V : Type 0} → V → HashMap V → HashMap V
hash_put v m =
    let hash = m.hash_func (m.key_of v) in
    record m { entries = set_bucket m.entries hash (m.entries hash ++ (v ∷ [])) }

-- The loop of `hash_get`.
abbrev pub find_key : {V : Type 0} → (V → ℕ) → ℕ → List V → Option V
find_key key_of key [] = none
find_key key_of key (v ∷ vs) =
    let rest = find_key key_of key vs in if key_of v == key then some v else rest

unfoldable pub hash_get : {V : Type 0} → ℕ → HashMap V → Option V
hash_get key m = find_key m.key_of key (m.entries (m.hash_func key))

-- What `slist_remove_first_match` leaves of a bucket.
abbrev pub drop_key : {V : Type 0} → (V → ℕ) → ℕ → List V → List V
drop_key key_of key [] = []
drop_key key_of key (v ∷ vs) =
    let rest = drop_key key_of key vs in if key_of v == key then vs else v ∷ rest

unfoldable pub hash_remove : {V : Type 0} → ℕ → HashMap V → HashMap V
hash_remove key m =
    let hash = m.hash_func key in
    record m { entries = set_bucket m.entries hash (drop_key m.key_of key (m.entries hash)) }

-- `hash_destroy` with `no_destroyer`: the entries of all buckets that are freed, by the copies of
-- values that they hold, in order. What the copies point to is left alone.
abbrev pub buckets_from : {V : Type 0} → (ℕ → List V) → ℕ → ℕ → List V
buckets_from f i zero = []
buckets_from f i (suc n) = f i ++ buckets_from f (suc i) n

unfoldable pub hash_destroy : {V : Type 0} → HashMap V → List V
hash_destroy m = buckets_from m.entries 0 m.map_size
