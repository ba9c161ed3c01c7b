-- ===== src/Provider/Teardown.antt =====
-- Setting the provider up, registering memory regions, and ending it.
use libfabric_provider_dpa.Prelude.{
  ℕ, suc, ◌*◌, ◌≢◌, ◌∙◌, arith, ◌==◌, if◌then◌else◌, ◌<◌, ◌≡◌, refl, ap, Bool, true, false, List,
  [], ◌∷◌, none, some,
}
use mathlib.Core.List.{Perm}
use libfabric_provider_dpa.Hash.{HashMap, hash_create, hash_destroy}
use libfabric_provider_dpa.Hash.Destroy.{put_all, hash_destroy-hash_create}
use libfabric_provider_dpa.Mr.{Mr}
use libfabric_provider_dpa.Buffers.{
  Segment, Assign, CardSegments, Found, found, no_buffer, out_of_bounds, running, get_empty_buffer,
  reserve_buffer, set_size, release_segment, dpa_cm_fini,
}
use libfabric_provider_dpa.Segments.{SegmentCalls, LocalSegment, dpa_destroy_segment}
use libfabric_provider_dpa.Segments.Balance.{IsReleased, Releases}
use libfabric_provider_dpa.Provider.{
  num_segments, assign_of, Environment, Library, Provider, fi_ext_ini, dpa_mr_init, dpa_cm_init,
  dpa_mr_fini, fi_dpa_fini,
}
use libfabric_provider_dpa.Provider.Setup.{
  Makes, ready_segment, new_segment, next_id, first_state, overridden,
}

-- The regions put into the map, as `dpa_mr_reg` does it.
abbrev pub with_regions : List Mr → Provider → Provider
with_regions mrs p = elim p.mr_map [
  | none ↦ p
  | some map ↦ record p { mr_map = some (put_all mrs map) }
]

ne_false : (a : ℕ) → a ≢ 0 → (a == 0) ≡ false
ne_false a ne = ground arith

-- What the buffer that an endpoint has got leaves: it is reserved, and its segment is made.
abbrev taken : Assign → Found × List Segment × Assign → List Segment
taken a (found i j, segments, a') = reserve_buffer a i j segments
taken a (no_buffer, segments, a') = segments
taken a (out_of_bounds, segments, a') = segments
taken a (running, segments, a') = segments

abbrev given : Provider → Found × List Segment × Assign → Provider
given p r = record p { segments = some (taken (assign_of p) r); current_id = r.2.current_id }

abbrev pub with_buffer : CardSegments → ℕ → Provider → Provider
with_buffer card fuel p = elim p.segments [
  | none ↦ p
  | some segments ↦
      given p (get_empty_buffer card fuel (num_segments p.constants) 0 segments (assign_of p))
]

fini_one :
    (card : CardSegments) (p : Provider) (map : HashMap Mr) (s : Segment)
    → let q : Provider = record p { mr_map = some map; segments = some (s ∷ []) } in
      fi_dpa_fini card q
      ≡ some (hash_destroy map, release_segment card s ∷ [], record q { running = false })
unfolding fi_dpa_fini dpa_mr_fini dpa_cm_fini
fini_one card p map s = refl

released_made :
    (card : CardSegments) (s : Segment)
    → s.info.segment_id ≢ 0
    → release_segment card s ≡ (dpa_destroy_segment (card s.info.segment_id) s.info).1
unfolding release_segment
released_made card s made =
    ap (λ b. if b then s.info else (dpa_destroy_segment (card s.info.segment_id) s.info).1)
      (ne_false s.info.segment_id made)

-- Releasing a segment that is ready gives all handles back.
ready-Releases :
    (calls : SegmentCalls) (id size : ℕ) (info : LocalSegment)
    → Releases calls
    → IsReleased info
    → let left = (dpa_destroy_segment calls (ready_segment id size info)).1 in
      IsReleased left × (left.bad_calls ≡ info.bad_calls)
unfolding dpa_destroy_segment
ready-Releases calls id size info r n = ground arith

module _ (atoi : List ℕ → ℕ) (strcasecmp : List ℕ → List ℕ → Bool) where
  abbrev set_up : Environment → Segment → Provider → ℕ → Provider
  set_up env fresh p node =
      let c = overridden atoi strcasecmp env p.constants in
      record {
        running = true;
        local_node = node;
        constants = c;
        mr_map = some (hash_create (λ mr. mr.segment_info.segment_id) c.mr_map_size);
        current_id = c.min_msg_segmid;
        segments = some (fresh ∷ []);
      }

  fi_ext_ini-sets_up :
      (lib : Library) (env : Environment) (fresh : Segment) (p : Provider) (node : ℕ)
      → lib.initializes ≡ true
      → lib.node_of (overridden atoi strcasecmp env p.constants).local_adapter_no ≡ some node
      → fi_ext_ini atoi strcasecmp lib env fresh p ≡ (true, set_up env fresh p node)
  unfolding fi_ext_ini dpa_mr_init dpa_cm_init
  fi_ext_ini-sets_up lib env fresh p node starts number = rw (starts, number) refl

  with_buffer-set_up :
      (env : Environment) (fresh : Segment) (p : Provider) (card : CardSegments)
      (fuel node rounds n : ℕ)
      → let c = overridden atoi strcasecmp env p.constants in
        let q = set_up env fresh p node in
        fresh.info.segment_id ≡ 0
        → c.min_msg_segmid ≢ 0
        → c.buffers_per_segment ≡ suc n
        → num_segments c ≡ suc rounds
        → Makes (card c.min_msg_segmid)
        → with_buffer card (suc (suc fuel)) q
          ≡ given q (found 0 0, new_segment (assign_of q) fresh ∷ [], next_id (assign_of q))
  with_buffer-set_up env fresh p card fuel node rounds n new used some_buffers some_ids m =
      let q = set_up env fresh p node in
      ap (λ k. given q (get_empty_buffer card (suc (suc fuel)) k 0 (fresh ∷ []) (assign_of q)))
        some_ids
      ∙ ap (given q) (first_state card fuel rounds n fresh [] (assign_of q) new used some_buffers m)

  -- Let both calls of DPAlib succeed when the provider is set up, the map of regions have at least
  -- one bucket, the array of segments start with an element that is cleared and has no handles, the
  -- lowest id not be 0, with room for at least one buffer and at least one id, and let the calls
  -- that make and release its segment succeed. Then after one endpoint has got its buffer and
  -- memory regions were put into the map, ending the provider frees exactly one entry of the map
  -- for each region that was put, holding the copy of it; it gives back all handles of the segment
  -- that was made for the buffer, with no call that lacks one; and it stops DPAlib.
  pub fi_dpa_fini-fi_ext_ini :
      (lib : Library) (env : Environment) (fresh : Segment) (p : Provider) (card : CardSegments)
      (fuel node rounds n : ℕ) (mrs : List Mr)
      → let c = overridden atoi strcasecmp env p.constants in
        let p1 = (fi_ext_ini atoi strcasecmp lib env fresh p).1 in
        lib.initializes ≡ true
        → lib.node_of c.local_adapter_no ≡ some node
        → 0 < c.mr_map_size
        → fresh.info.segment_id ≡ 0
        → IsReleased fresh.info
        → c.min_msg_segmid ≢ 0
        → c.buffers_per_segment ≡ suc n
        → num_segments c ≡ suc rounds
        → Makes (card c.min_msg_segmid)
        → Releases (card c.min_msg_segmid)
        → (copies : List Mr) × (left : LocalSegment) × (final : Provider) × (fi_dpa_fini card
              (with_regions mrs (with_buffer card (suc (suc fuel)) p1))
            ≡ some (copies, left ∷ [], final))
          × Perm copies mrs
          × IsReleased left
          × (left.bad_calls ≡ fresh.info.bad_calls)
          × (final.running ≡ false)
  unfolding reserve_buffer
  fi_dpa_fini-fi_ext_ini lib env fresh p card fuel node rounds n mrs starts number some_buckets new
        none_held used some_buffers some_ids m r =
      let c = overridden atoi strcasecmp env p.constants in
      let map : HashMap Mr = hash_create (λ mr. mr.segment_info.segment_id) c.mr_map_size in
      let q = set_up env fresh p node in
      let made = new_segment (assign_of q) fresh in
      let taken1 : Segment = record made {
        sizes = set_size made.sizes 0 (assign_of q).aligned_size;
      } in
      let q1 = with_regions mrs (given q (found 0 0, made ∷ [], next_id (assign_of q))) in
      let released =
        ready-Releases (card c.min_msg_segmid) c.min_msg_segmid
          ((assign_of q).aligned_size * (assign_of q).buffers_per_segment) fresh.info r none_held in
      (
        hash_destroy (put_all mrs map),
        (dpa_destroy_segment (card c.min_msg_segmid) made.info).1,
        record q1 { running = false },
        ap (λ t. fi_dpa_fini card (with_regions mrs (with_buffer card (suc (suc fuel)) t.1)))
              (fi_ext_ini-sets_up lib env fresh p node starts number)
            ∙ ap (λ t. fi_dpa_fini card (with_regions mrs t))
                (with_buffer-set_up env fresh p card fuel node rounds n new used some_buffers
                  some_ids m)
            ∙ fini_one card q1 (put_all mrs map) taken1
            ∙ ap
                (λ (left : LocalSegment).
                  some (hash_destroy (put_all mrs map), left ∷ [], record q1 { running = false }))
                (released_made card taken1 used),
        hash_destroy-hash_create (λ (mr : Mr). mr.segment_info.segment_id) c.mr_map_size mrs
            some_buckets,
        released.0,
        released.1,
        refl,
      )
