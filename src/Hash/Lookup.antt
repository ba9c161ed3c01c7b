-- ===== src/Hash/Lookup.antt =====
-- What a hash map finds after values were put and removed.
use libfabric_provider_dpa.Prelude.{
  ℕ, ◌≡◌, ◌≢◌, ◌∙◌, refl, sym, ap, inl, inr, Bool, true, false, List, [], ◌∷◌, ◌++◌, Option, none,
  some, arith, ◌==◌, Bool-cases,
}
use libfabric_provider_dpa.Hash.{HashMap, hash_put, hash_get, hash_remove, find_key, drop_key}

same_number : (a b : ℕ) → (a == b) ≡ true → a ≡ b
same_number a b h = ground arith

differ : (a b : ℕ) → a ≡ b → (a == b) ≡ false → ⊥
differ a b e f = ground arith

module _ {V : Type 0} where
  -- The value that is found for a key after `v` was put: the one that was found before, or else
  -- `v` if the key is its own.
  abbrev pub or_new : Option V → V → Bool → Option V
  or_new none v true = some v
  or_new none v false = none
  or_new (some w) v own = some w

  find_key-append :
      (key_of : V → ℕ) (key : ℕ) (vs : List V) (v : V)
      → find_key key_of key (vs ++ (v ∷ [])) ≡ or_new (find_key key_of key vs) v (key_of v == key)
  find_key-append key_of key [] v = ground arith
  find_key-append key_of key (w ∷ vs) v =
      let ih = find_key-append key_of key vs v in
      elim (Bool-cases (key_of w == key)) [ inl t ↦ rw t refl | inr f ↦ rw f ih ]

  find_key-drop_other :
      (key_of : V → ℕ) (key gone : ℕ) (vs : List V)
      → key ≢ gone
      → find_key key_of key (drop_key key_of gone vs) ≡ find_key key_of key vs
  find_key-drop_other key_of key gone [] ne = refl
  find_key-drop_other key_of key gone (w ∷ vs) ne =
      let ih = find_key-drop_other key_of key gone vs ne in
      elim (Bool-cases (key_of w == gone)) [
        | inl t ↦ let no : (key_of w == key) ≡ false = ground arith in rw (t, no) refl
        | inr f ↦ rw (f, ih) refl
      ]

  same_hash :
      (m : HashMap V) (v : V) (key : ℕ)
      → (m.key_of v == key) ≡ true
      → m.hash_func key ≡ m.hash_func (m.key_of v)
  same_hash m v key own = ap m.hash_func (sym (same_number (m.key_of v) key own))

  or_new-not_own : (o : Option V) (v : V) → or_new o v false ≡ o
  or_new-not_own none v = refl
  or_new-not_own (some w) v = refl

  -- After a value is put, a key that was found before still finds the same value; the value's own
  -- key, if it was not found before, finds the value; and no other key is found that was not.
  pub hash_get-hash_put :
      (m : HashMap V) (v : V) (key : ℕ)
      → hash_get key (hash_put v m) ≡ or_new (hash_get key m) v (m.key_of v == key)
  unfolding hash_get hash_put
  hash_get-hash_put m v key = elim (Bool-cases (m.hash_func key == m.hash_func (m.key_of v))) [
    | inl t ↦ rw t (
        find_key-append m.key_of key (m.entries (m.hash_func (m.key_of v))) v
        ∙ ap (λ h. or_new (find_key m.key_of key (m.entries h)) v (m.key_of v == key))
            (sym (same_number _ _ t)))
    | inr f ↦ elim (Bool-cases (m.key_of v == key)) [
      | inl own ↦ absurd (differ _ _ (same_hash m v key own) f)
      | inr other ↦ rw (f, other) (sym (or_new-not_own (hash_get key m) v))
    ]
  ]

  -- Removing one key changes what is found for no other.
  pub hash_get-hash_remove :
      (m : HashMap V) (key gone : ℕ)
      → key ≢ gone
      → hash_get key (hash_remove gone m) ≡ hash_get key m
  unfolding hash_get hash_remove
  hash_get-hash_remove m key gone ne = elim (Bool-cases (m.hash_func key == m.hash_func gone)) [
    | inl t ↦ rw t (
        find_key-drop_other m.key_of key gone (m.entries (m.hash_func gone)) ne
        ∙ ap (λ h. find_key m.key_of key (m.entries h)) (sym (same_number _ _ t)))
    | inr f ↦ rw f refl
  ]
