-- ===== src/Buffers/Distinct.antt =====
-- Message buffers are never given twice.
use libfabric_provider_dpa.Prelude.{
  ℕ, zero, suc, ◌<◌, ◌≡◌, ◌≢◌, ◌⊎◌, ◌∙◌, refl, sym, ap, inl, inr, subst, List, [], ◌∷◌, arith,
  length, get_or,
}
use libfabric_provider_dpa.Buffers.{
  Segment, Assign, CardSegments, Found, found, no_buffer, out_of_bounds, running, get_empty_buffer,
  set_size, reserve_buffer,
}
use libfabric_provider_dpa.Buffers.Free.{
  AreClean, size_at, count_at, id_at, GoodFind, get_empty_buffer-GoodFind,
}

-- NUM_SEGMENTS.
abbrev pub num_segments : ℕ
num_segments = 1024

-- Buffers looked for and reserved one after the other, as `alloc_msg_buffer` does it for each
-- endpoint, until there are `n` or one is not found.
abbrev give_found :
    (List Segment → Assign → List (ℕ × ℕ)) → Found × List Segment × Assign → List (ℕ × ℕ)
give_found more (found i j, segments, a) = (i, j) ∷ more (reserve_buffer a i j segments) a
give_found more (no_buffer, segments, a) = []
give_found more (out_of_bounds, segments, a) = []
give_found more (running, segments, a) = []

unfoldable pub give_buffers : CardSegments → ℕ → ℕ → List Segment → Assign → List (ℕ × ℕ)
unfolding get_empty_buffer reserve_buffer
give_buffers card fuel zero segments a = []
give_buffers card fuel (suc n) segments a =
    give_found (give_buffers card fuel n) (get_empty_buffer card fuel num_segments 0 segments a)

-- None of the buffers is in use in `segments`.
pub AreFree : List (ℕ × ℕ) → List Segment → Type 0
AreFree [] segments = Unit {0}
AreFree ((i, j) ∷ given) segments = (size_at segments i j ≡ 0) × AreFree given segments

-- No two of the buffers are the same.
pub AreNot : ℕ → ℕ → List (ℕ × ℕ) → Type 0
AreNot i j [] = Unit {0}
AreNot i j ((p, q) ∷ given) = ((i ≡ p) → (j ≡ q) → ⊥) × AreNot i j given

pub AreDistinct : List (ℕ × ℕ) → Type 0
AreDistinct [] = Unit {0}
AreDistinct ((i, j) ∷ given) = AreNot i j given × AreDistinct given

get_or-set_size :
    (sizes : List ℕ) (j n : ℕ) → j < length sizes → get_or (set_size sizes j n) j 0 ≡ n
get_or-set_size [] j n lt = absurd (omega arith)
get_or-set_size (x ∷ sizes) zero n lt = refl
get_or-set_size (x ∷ sizes) (suc j) n lt = get_or-set_size sizes j n (omega arith)

get_or-set_size_other :
    (sizes : List ℕ) (j n q : ℕ) → (q ≡ j) ⊎ (get_or (set_size sizes j n) q 0 ≡ get_or sizes q 0)
get_or-set_size_other [] j n q = inr refl
get_or-set_size_other (x ∷ sizes) zero n zero = inl refl
get_or-set_size_other (x ∷ sizes) zero n (suc q) = inr refl
get_or-set_size_other (x ∷ sizes) (suc j) n zero = inr refl
get_or-set_size_other (x ∷ sizes) (suc j) n (suc q) = elim (get_or-set_size_other sizes j n q) [
  | inl e ↦ inl (ap suc e)
  | inr e ↦ inr e
]

size_at-reserve_buffer :
    (a : Assign) (i j : ℕ) (segments : List Segment)
    → j < count_at segments i
    → size_at (reserve_buffer a i j segments) i j ≡ a.aligned_size
unfolding reserve_buffer
size_at-reserve_buffer a i j [] lt = absurd (omega arith)
size_at-reserve_buffer a zero j (s ∷ segments) lt = get_or-set_size s.sizes j a.aligned_size lt
size_at-reserve_buffer a (suc i) j (s ∷ segments) lt = size_at-reserve_buffer a i j segments lt

size_at-reserve_other :
    (a : Assign) (i j p q : ℕ) (segments : List Segment)
    → (p ≡ i) × (q ≡ j) ⊎ (size_at (reserve_buffer a i j segments) p q ≡ size_at segments p q)
unfolding reserve_buffer
size_at-reserve_other a zero j p q [] = inr refl
size_at-reserve_other a (suc i) j p q [] = inr refl
size_at-reserve_other a zero j zero q (s ∷ segments) =
    elim (get_or-set_size_other s.sizes j a.aligned_size q) [
      | inl e ↦ inl (refl, e)
      | inr e ↦ inr e
    ]
size_at-reserve_other a zero j (suc p) q (s ∷ segments) = inr refl
size_at-reserve_other a (suc i) j zero q (s ∷ segments) = inr refl
size_at-reserve_other a (suc i) j (suc p) q (s ∷ segments) =
    elim (size_at-reserve_other a i j p q segments) [
      | inl (e, e') ↦ inl (ap suc e, e')
      | inr e ↦ inr e
    ]

reserve_buffer-AreClean :
    (a : Assign) (i j : ℕ) (segments : List Segment)
    → id_at segments i ≢ 0
    → AreClean segments
    → AreClean (reserve_buffer a i j segments)
unfolding reserve_buffer
reserve_buffer-AreClean a zero j [] made clean = tt
reserve_buffer-AreClean a (suc i) j [] made clean = tt
reserve_buffer-AreClean a zero j (s ∷ segments) made (clean, cleans) =
    (λ e. absurd (made e), cleans)
reserve_buffer-AreClean a (suc i) j (s ∷ segments) made (clean, cleans) =
    (clean, reserve_buffer-AreClean a i j segments made cleans)

-- Of buffers that are free after `i j` was reserved, none is `i j`, and all were free before.
AreFree-reserve_buffer :
    (a : Assign) (i j : ℕ) (segments before : List Segment) (given : List (ℕ × ℕ))
    → 0 < a.aligned_size
    → j < count_at segments i
    → size_at before i j ≡ 0
    → ((p q : ℕ) → size_at segments p q ≡ size_at before p q)
    → AreFree given (reserve_buffer a i j segments)
    → AreNot i j given × AreFree given before
unfolding AreFree AreNot
AreFree-reserve_buffer a i j segments before [] pos lt z same free = (tt, tt)
AreFree-reserve_buffer a i j segments before ((p, q) ∷ given) pos lt z same (free, frees) =
    let (nots, frees') = AreFree-reserve_buffer a i j segments before given pos lt z same frees in
    let here = size_at-reserve_buffer a i j segments lt in
    let clash : (i ≡ p) → (j ≡ q) → ⊥ = λ e e'.
      let z' =
        subst (λ x. size_at (reserve_buffer a i j segments) i x ≡ 0) (sym e')
          (subst (λ x. size_at (reserve_buffer a i j segments) x q ≡ 0) (sym e) free) in
      omega (arith, here, z', pos) in
    elim (size_at-reserve_other a i j p q segments) [
      | inl (e, e') ↦ absurd (clash (sym e) (sym e'))
      | inr e ↦ ((clash, nots), (sym (e ∙ same p q) ∙ free, frees'))
    ]

Good : List (ℕ × ℕ) → List Segment → Type 0
Good given before = AreDistinct given × AreFree given before

give_found-Good :
    (card : CardSegments) (fuel n : ℕ) (before : List Segment) (a0 : Assign)
    (out : Found × List Segment × Assign)
    → 0 < a0.aligned_size
    → GoodFind 0 before a0 out
    → ((segments : List Segment) (a : Assign)
        → AreClean segments
        → 0 < a.aligned_size
        → Good (give_buffers card fuel n segments a) segments)
    → Good (give_found (give_buffers card fuel n) out) before
unfolding AreDistinct AreFree Good
give_found-Good card fuel n before a0 (found i j, segments, a) pos
      ((same, cleans, size), (k, e, z, lt, id)) later =
    let at_i : k ≡ i = omega arith in
    let pos' : 0 < a.aligned_size = omega arith in
    let lt' = subst (λ x. j < count_at segments x) at_i lt in
    let (distinct, frees) =
      later (reserve_buffer a i j segments) a
        (reserve_buffer-AreClean a i j segments (subst (λ x. id_at segments x ≢ 0) at_i id) cleans)
        pos' in
    let z' : size_at before i j ≡ 0 =
      sym (same i j) ∙ subst (λ x. size_at segments x j ≡ 0) at_i z in
    let (nots, frees') = AreFree-reserve_buffer a i j segments before _ pos' lt' z' same frees in
    ((nots, distinct), (z', frees'))
give_found-Good card fuel n before a0 (no_buffer, segments, a) pos good later = (tt, tt)
give_found-Good card fuel n before a0 (out_of_bounds, segments, a) pos good later = (tt, tt)
give_found-Good card fuel n before a0 (running, segments, a) pos good later = (tt, tt)

-- Let buffers be looked for and reserved one after the other, for `n` endpoints, with segments of
-- which those that are not made hold no buffer in use, and buffers of a size above 0. Then
-- no buffer is given twice, and none that is given was in use before.
pub give_buffers-AreDistinct :
    (card : CardSegments) (fuel n : ℕ) (segments : List Segment) (a : Assign)
    → AreClean segments
    → 0 < a.aligned_size
    → AreDistinct (give_buffers card fuel n segments a)
      × AreFree (give_buffers card fuel n segments a) segments
unfolding give_buffers Good AreDistinct AreFree
give_buffers-AreDistinct card fuel zero segments a cleans pos = (tt, tt)
give_buffers-AreDistinct card fuel (suc n) segments a cleans pos =
    give_found-Good card fuel n segments a _ pos
      (get_empty_buffer-GoodFind card fuel num_segments 0 segments a cleans)
      (give_buffers-AreDistinct card fuel n)
