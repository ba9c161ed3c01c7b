-- ===== src/Buffers/Free.antt =====
-- Looking for a message buffer: what it changes, and that the buffer found is free.
use libfabric_provider_dpa.Prelude.{
  ℕ, zero, suc, ◌+◌, ◌<◌, ◌≡◌, ◌≢◌, ◌⊎◌, ◌∙◌, refl, sym, ap, inl, inr, List, [], ◌∷◌, Option, none,
  some, arith, ltb, ◌==◌, ==_iff, Bool-cases, length, get_or, get_or-replicate,
}
use libfabric_provider_dpa.Segments.{DpaError, dpa_ok, segment_id_used, dpa_failed, LocalSegment}
use libfabric_provider_dpa.Buffers.{
  Segment, Assign, CardSegments, Found, found, no_buffer, out_of_bounds, running, made_segment,
  create_data_segment, create_loop, first_free, free_in, here_or_later, at_segment,
  get_empty_buffer,
}

-- The size of buffer `j` of segment `i`, 0 if there is none.
abbrev pub size_at : List Segment → ℕ → ℕ → ℕ
size_at [] i j = 0
size_at (s ∷ segments) zero j = get_or s.sizes j 0
size_at (s ∷ segments) (suc i) j = size_at segments i j

-- A segment that is not made yet has no buffer in use.
abbrev pub IsClean : Segment → Type 0
IsClean s = s.info.segment_id ≡ 0 → (j : ℕ) → get_or s.sizes j 0 ≡ 0

abbrev pub AreClean : List Segment → Type 0
AreClean [] = Unit {0}
AreClean (s ∷ segments) = IsClean s × AreClean segments

-- The sizes are those of before, and the segment is still clean.
Kept : Segment × Assign → Segment → Assign → Type 0
Kept (s', a') s a =
    ((j : ℕ) → get_or s'.sizes j 0 ≡ get_or s.sizes j 0)
    × IsClean s'
    × (a'.aligned_size ≡ a.aligned_size)

made_segment-Kept :
    (a : Assign) (e : DpaError) (info released : LocalSegment) (s : Segment)
    → s.info.segment_id ≡ 0
    → IsClean s
    → Kept (made_segment a (e, info) released s) s a
unfolding Kept
made_segment-Kept a dpa_ok info released s new clean = (
  λ j. get_or-replicate a.buffers_per_segment 0 j ∙ sym (clean new j),
  λ e j. get_or-replicate a.buffers_per_segment 0 j,
  refl,
)
made_segment-Kept a segment_id_used info released s new clean =
    (λ j. refl, λ e j. clean new j, refl)
made_segment-Kept a dpa_failed info released s new clean = (λ j. refl, λ e j. clean new j, refl)

-- The loop that makes a segment goes on for ever, or ends with one that is made.
Made : Option (Segment × Assign) → Segment → Assign → Type 0
Made none s a = Unit {0}
Made (some (s', a')) s a = Kept (s', a') s a × (s'.info.segment_id ≢ 0)

Made-trans :
    (o : Option (Segment × Assign)) (s1 s : Segment) (a1 a : Assign)
    → Kept (s1, a1) s a
    → Made o s1 a1
    → Made o s a
unfolding Made Kept
Made-trans none s1 s a1 a kept made = tt
Made-trans (some (s', a')) s1 s a1 a (same, clean, size) ((same', clean', size'), id) =
    ((λ j. same' j ∙ same j, clean', size' ∙ size), id)

create_loop-Made :
    (card : CardSegments) (fuel : ℕ) (s : Segment) (a : Assign)
    → IsClean s
    → Made (create_loop card fuel s a) s a
unfolding create_loop create_data_segment Made Kept
create_loop-Made card zero s a clean = tt
create_loop-Made card (suc fuel) s a clean = elim (Bool-cases (s.info.segment_id == 0)) [
  | inr made ↦ rw made ((λ j. refl, clean, refl), λ e. ground arith)
  | inl new ↦
      let kept = made_segment-Kept a _ _ _ s ((==_iff _ _).0 new) clean in
      let (s1, a1) = create_data_segment card a s in
      rw new (Made-trans _ s1 s a1 a kept (create_loop-Made card fuel s1 a1 kept.1))
]

-- How many buffers segment `i` has.
abbrev pub count_at : List Segment → ℕ → ℕ
count_at [] i = 0
count_at (s ∷ segments) zero = length s.sizes
count_at (s ∷ segments) (suc i) = count_at segments i

-- The id of segment `i`.
abbrev pub id_at : List Segment → ℕ → ℕ
id_at [] i = 0
id_at (s ∷ segments) zero = s.info.segment_id
id_at (s ∷ segments) (suc i) = id_at segments i

-- A free buffer of the segment.
IsFreeIn : Segment → Option ℕ → Type 0
IsFreeIn s none = Unit {0}
IsFreeIn s (some j) = (get_or s.sizes j 0 ≡ 0) × (j < length s.sizes)

first_free-IsFree :
    (j : ℕ) (sizes : List ℕ)
    → (first_free j sizes ≡ none)
      ⊎ ((m : ℕ) × (first_free j sizes ≡ some (j + m))
          × (get_or sizes m 0 ≡ 0)
          × (m < length sizes))
first_free-IsFree j [] = inl refl
first_free-IsFree j (zero ∷ sizes) = inr (0, ap some (omega arith), refl, omega arith)
first_free-IsFree j (suc n ∷ sizes) = elim (first_free-IsFree (suc j) sizes) [
  | inl e ↦ inl e
  | inr (m, e, z, lt) ↦ inr (suc m, e ∙ ap some (omega arith), z, omega arith)
]

zero_plus : (m : ℕ) → some (0 + m) ≡ some m
zero_plus m = ap some (omega arith)

free_in-IsFreeIn : (a : Assign) (s : Segment) → IsFreeIn s (free_in a s)
unfolding free_in IsFreeIn
free_in-IsFreeIn a s = elim (Bool-cases (ltb s.bufcount a.buffers_per_segment)) [
  | inl room ↦ elim (first_free-IsFree 0 s.sizes) [
    | inl e ↦ rw (room, e) tt
    | inr (m, e, z, lt) ↦ rw (room, e ∙ zero_plus m) (z, lt)
  ]
  | inr full ↦ rw full tt
]

-- The sizes of all buffers are those of before, and the segments are still clean.
abbrev pub AllKept : List Segment × Assign → List Segment → Assign → Type 0
AllKept (segments', a') segments a =
    ((p q : ℕ) → size_at segments' p q ≡ size_at segments p q)
    × AreClean segments'
    × (a'.aligned_size ≡ a.aligned_size)

-- The buffer found is free, and its segment is made.
abbrev pub IsFree : ℕ → List Segment → Found → Type 0
IsFree i segments (found p j) =
    (k : ℕ) × (p ≡ i + k)
    × (size_at segments k j ≡ 0)
    × (j < count_at segments k)
    × (id_at segments k ≢ 0)
IsFree i segments no_buffer = Unit {0}
IsFree i segments out_of_bounds = Unit {0}
IsFree i segments running = Unit {0}

abbrev pub GoodFind : ℕ → List Segment → Assign → Found × List Segment × Assign → Type 0
GoodFind i segments a (r, segments', a') = AllKept (segments', a') segments a × IsFree i segments' r

IsFree-later :
    (i : ℕ) (s : Segment) (segments : List Segment) (r : Found)
    → IsFree (suc i) segments r
    → IsFree i (s ∷ segments) r
IsFree-later i s segments (found p j) (k, e, z, lt, id) = (suc k, omega arith, z, lt, id)
IsFree-later i s segments no_buffer free = tt
IsFree-later i s segments out_of_bounds free = tt
IsFree-later i s segments running free = tt

cons-same :
    (s' s : Segment) (segments' segments : List Segment)
    → ((j : ℕ) → get_or s'.sizes j 0 ≡ get_or s.sizes j 0)
    → ((p q : ℕ) → size_at segments' p q ≡ size_at segments p q)
    → (p q : ℕ) → size_at (s' ∷ segments') p q ≡ size_at (s ∷ segments) p q
cons-same s' s segments' segments same rest zero q = same q
cons-same s' s segments' segments same rest (suc p) q = rest p q

here_or_later-GoodFind :
    (i : ℕ) (s s0 : Segment) (a a0 : Assign) (segments : List Segment) (free : Option ℕ)
    (later : Found × List Segment × Assign)
    → Kept (s, a) s0 a0
    → AreClean segments
    → IsFreeIn s free
    → s.info.segment_id ≢ 0
    → GoodFind (suc i) segments a later
    → GoodFind i (s0 ∷ segments) a0 (here_or_later i s a segments free later)
unfolding Kept IsFreeIn
here_or_later-GoodFind i s s0 a a0 segments (some j) later (same, clean, size) cleans free id good =
    (
      (cons-same s s0 segments segments same (λ p q. refl), (clean, cleans), size),
      (0, omega arith, free.0, free.1, id),
    )
here_or_later-GoodFind i s s0 a a0 segments none (r, segments', a') (same, clean, size) cleans free
      id ((same', cleans', size'), free') =
    (
      (cons-same s s0 segments' segments same same', (clean, cleans'), size' ∙ size),
      IsFree-later i s segments' r free',
    )

at_segment-GoodFind :
    (i : ℕ) (s : Segment) (segments : List Segment) (made : Option (Segment × Assign))
    (later : Assign → Found × List Segment × Assign) (a : Assign)
    → Made made s a
    → AreClean (s ∷ segments)
    → ((a' : Assign) → GoodFind (suc i) segments a' (later a'))
    → GoodFind i (s ∷ segments) a (at_segment i s segments made later a)
unfolding Made
at_segment-GoodFind i s segments none later a good cleans goods =
    (((λ p q. refl), cleans, refl), tt)
at_segment-GoodFind i s segments (some (s', a')) later a good cleans goods =
    here_or_later-GoodFind i s' s a' a segments (free_in a' s') (later a') good.0 cleans.1
      (free_in-IsFreeIn a' s') good.1 (goods a')

-- Looking for a buffer changes no size, and the one found is free.
pub get_empty_buffer-GoodFind :
    (card : CardSegments) (fuel rounds i : ℕ) (segments : List Segment) (a : Assign)
    → AreClean segments
    → GoodFind i segments a (get_empty_buffer card fuel rounds i segments a)
unfolding get_empty_buffer
get_empty_buffer-GoodFind card fuel zero i segments a cleans = (((λ p q. refl), cleans, refl), tt)
get_empty_buffer-GoodFind card fuel (suc rounds) i [] a cleans = (((λ p q. refl), cleans, refl), tt)
get_empty_buffer-GoodFind card fuel (suc rounds) i (s ∷ segments) a cleans =
    at_segment-GoodFind i s segments (create_loop card fuel s a) _ a
      (create_loop-Made card fuel s a cleans.0) cleans
      λ a'. get_empty_buffer-GoodFind card fuel rounds (suc i) segments a' cleans.1
