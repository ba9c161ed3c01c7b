-- ===== src/Av/Table.antt =====
-- The table of an address vector: room for what is inserted, and lookups by address.
use libfabric_provider_dpa.Prelude.{
  ℕ, zero, suc, ◌+◌, ◌*◌, ◌≤◌, ◌<◌, ◌≡◌, refl, ap, inl, inr, true, false, List, [], ◌∷◌, ◌++◌, sym,
  subst, ◌∙◌, Option, none, some, arith, leb, ◌⊎◌, length,
}
use mathlib.Core.Option.{some-injective, none-ne-some}
use libfabric_provider_dpa.Av.{Addr, Array, Av, array_request_size, fi_addrs, store_entries}

mul_le : (v n : ℕ) → v ≤ 8 → v * n ≤ 8 * n
mul_le v zero h = omega arith
mul_le v (suc n) h = omega (arith, mul_le v n h)

mul_mono : (v a b : ℕ) → a ≤ b → v * a ≤ v * b
mul_mono zero a b h = omega arith
mul_mono (suc v) a b h = omega (arith, mul_mono v a b h)

leb_cases : (a b : ℕ) → (leb a b ≡ true × (a ≤ b)) ⊎ (leb a b ≡ false × (b < a))
leb_cases a b = ground arith

-- Asked for room for `n` elements of at most 8 bytes, an array whose block has room for its own
-- count gets a block with room for `n` elements, or there is no memory and the answer is none.
array_request_size_lem :
    (n : ℕ) (realloc : Option ℕ) (a b : Array)
    → a.value_size ≤ 8
    → a.value_size * a.array_count ≤ a.allocated
    → array_request_size n realloc a ≡ some b
    → a.value_size * n ≤ b.allocated
unfolding array_request_size
array_request_size_lem n realloc a b small room e = elim (leb_cases n a.array_count) [
  | inl (t, le) ↦
      let same : a ≡ b = some-injective _ _ (sym (rw t refl) ∙ e) in
      subst (λ c. a.value_size * n ≤ c.allocated) same
        (omega (arith, mul_mono a.value_size n a.array_count le, room))
  | inr (f, lt) ↦ grow realloc (sym (rw f refl) ∙ e)
]
  where
    grow :
        (r : Option ℕ)
        → elim r [
          | none ↦ none
          | some p ↦ some (record a { address = p; allocated = (2 * a.array_count + n) * 8 })
        ]
          ≡ some b
        → a.value_size * n ≤ b.allocated
    grow none q = absurd (none-ne-some b q)
    grow (some p) q =
        subst (λ c. a.value_size * n ≤ c.allocated) (some-injective _ _ q)
          (omega (arith, mul_le a.value_size n small))

pub entries-length :
    (old : List Addr) (addrs : List Addr) → store_entries old (length old) addrs ≡ old ++ addrs
entries-length [] addrs = refl
entries-length (x ∷ old) addrs = ap (λ xs. x ∷ xs) (entries-length old addrs)

pub length-fi_addrs :
    (av : Av) (i : ℕ) (addrs : List Addr) → length (fi_addrs av i addrs) ≡ length addrs
length-fi_addrs av i [] = refl
length-fi_addrs av i (a ∷ addrs) = omega (arith, length-fi_addrs av (suc i) addrs)
