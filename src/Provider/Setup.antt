-- ===== src/Provider/Setup.antt =====
-- What the provider is ready for once it is set up.
use libfabric_provider_dpa.Prelude.{
  ℕ, suc, ◌+◌, ◌*◌, ◌%◌, ◌^◌, ◌<◌, ◌≤◌, ◌≡◌, ◌≢◌, ◌∙◌, refl, ap, Bool, true, false, List, [], ◌∷◌,
  Option, none, some, arith, replicate, if◌then◌else◌, ==_iff, ◌==◌,
}
use libfabric_provider_dpa.Segments.{
  dpa_ok, SegmentCalls, LocalSegment, dpa_alloc_segment, dpa_destroy_segment,
}
use libfabric_provider_dpa.Buffers.{
  made_segment, create_again, at_segment, here_or_later, Segment, Assign, BufferInfo, CardSegments,
  Found, found, create_data_segment, create_loop, free_in, get_empty_buffer, buffer_info,
}
use libfabric_provider_dpa.Provider.{
  Constants, Environment, Library, Provider, aligned_buffer_size, num_segments, assign_of,
  env_override_int, fi_ext_ini, dpa_mr_init, dpa_cm_init,
}

-- The first buffer that an endpoint of this process gets: where it lies, none if there is none.
abbrev pub placed : Assign → Found × List Segment × Assign → Option BufferInfo
placed a (found i j, segments, a') = buffer_info a segments i j
placed a (r, segments, a') = none

-- The card makes the segment of an id: every call succeeds.
pub record Makes (calls : SegmentCalls) : Type 0 where
  pub opens : calls.opening ≡ dpa_ok
  pub creates : calls.creating ≡ dpa_ok
  pub prepares : calls.preparing ≡ dpa_ok
  pub maps : calls.mapping ≡ dpa_ok
  pub enables : calls.enabling ≡ dpa_ok

abbrev pub ready_segment : ℕ → ℕ → LocalSegment → LocalSegment
ready_segment id size info = record info {
  segment_id = id;
  size = size;
  has_sd = true;
  has_segment = true;
  has_map = true;
  zeroed = true;
  available = true;
}

alloc-Makes :
    (calls : SegmentCalls) (id size : ℕ) (info : LocalSegment)
    → Makes calls
    → dpa_alloc_segment calls id size true info ≡ (dpa_ok, ready_segment id size info)
unfolding dpa_alloc_segment
alloc-Makes calls id size info m = rw (m.opens, m.creates, m.prepares, m.maps, m.enables) refl

abbrev pub new_segment : Assign → Segment → Segment
new_segment a s = record {
  info = ready_segment a.current_id (a.aligned_size * a.buffers_per_segment) s.info;
  bufcount = 0;
  sizes = replicate a.buffers_per_segment 0;
}

abbrev pub next_id : Assign → Assign
next_id a = record a { current_id = (a.current_id + 1) % 2 ^ 32 }

create_data_segment_lem :
    (card : CardSegments) (s : Segment) (a : Assign)
    → Makes (card a.current_id)
    → create_data_segment card a s ≡ (new_segment a s, next_id a)
unfolding create_data_segment
create_data_segment_lem card s a m =
    ap (λ t. made_segment a t (dpa_destroy_segment (card a.current_id) t.1).1 s)
      (alloc-Makes (card a.current_id) a.current_id (a.aligned_size * a.buffers_per_segment) s.info
        m)

-- The loop ends in its second round.
loop_once :
    (card : CardSegments) (fuel : ℕ) (s : Segment) (a : Assign)
    → s.info.segment_id ≡ 0
    → a.current_id ≢ 0
    → Makes (card a.current_id)
    → create_loop card (suc (suc fuel)) s a ≡ some (new_segment a s, next_id a)
unfolding create_loop
loop_once card fuel s a new used m =
    ap
      (λ b.
        if b
        then create_again (create_loop card (suc fuel)) (create_data_segment card a s)
        else some (s, a))
      ((==_iff _ _).1 new)
    ∙ ap (create_again (create_loop card (suc fuel))) (create_data_segment_lem card s a m)
    ∙ ap
        (λ b.
          if b
          then create_again (create_loop card fuel)
              (create_data_segment card (next_id a) (new_segment a s))
          else some (new_segment a s, next_id a))
        taken
  where
    taken : (a.current_id == 0) ≡ false
    taken = ground arith

free_first :
    (a : Assign) (s : Segment) (n : ℕ)
    → a.buffers_per_segment ≡ suc n
    → free_in (next_id a) (new_segment a s) ≡ some 0
unfolding free_in
free_first a s n some_buffers = rw some_buffers (ground arith)

-- The first buffer is buffer 0 of segment 0, which is made for it.
pub first_state :
    (card : CardSegments) (fuel rounds n : ℕ) (s : Segment) (segments : List Segment) (a : Assign)
    → s.info.segment_id ≡ 0
    → a.current_id ≢ 0
    → a.buffers_per_segment ≡ suc n
    → Makes (card a.current_id)
    → get_empty_buffer card (suc (suc fuel)) (suc rounds) 0 (s ∷ segments) a
      ≡ (found 0 0, new_segment a s ∷ segments, next_id a)
unfolding get_empty_buffer
first_state card fuel rounds n s segments a new used some_buffers m =
    ap (λ t. at_segment 0 s segments t (get_empty_buffer card (suc (suc fuel)) rounds 1 segments) a)
      (loop_once card fuel s a new used m)
    ∙ ap
        (λ t.
          here_or_later 0 (new_segment a s) (next_id a) segments t
            (get_empty_buffer card (suc (suc fuel)) rounds 1 segments (next_id a)))
        (free_first a s n some_buffers)

first_found :
    (card : CardSegments) (fuel rounds n : ℕ) (s : Segment) (segments : List Segment) (a : Assign)
    → s.info.segment_id ≡ 0
    → a.current_id ≢ 0
    → a.buffers_per_segment ≡ suc n
    → Makes (card a.current_id)
    → placed a (get_empty_buffer card (suc (suc fuel)) (suc rounds) 0 (s ∷ segments) a)
      ≡ some (record { in_segment = a.current_id; at_offset = 0; buffer_size = a.aligned_size })
unfolding buffer_info
first_found card fuel rounds n s segments a new used some_buffers m =
    ap (placed a) (first_state card fuel rounds n s segments a new used some_buffers m)
    ∙ ap
        (λ o.
          some (record { in_segment = a.current_id; at_offset = o; buffer_size = a.aligned_size }))
        (omega arith)

module _ (atoi : List ℕ → ℕ) (strcasecmp : List ℕ → List ℕ → Bool) where
  -- What an endpoint that asks first gets from a provider that has been set up.
  abbrev pub first_buffer : CardSegments → ℕ → Bool × Provider → Option BufferInfo
  first_buffer card fuel (false, p) = none
  first_buffer card fuel (true, p) = elim p.segments [
    | none ↦ none
    | some segments ↦
        placed (assign_of p)
          (get_empty_buffer card fuel (num_segments p.constants) 0 segments (assign_of p))
  ]

  -- The constants that the environment leaves.
  abbrev pub overridden : Environment → Constants → Constants
  overridden env c = record {
    local_adapter_no = env_override_int atoi strcasecmp env.adapter_var c.local_adapter_no;
    mr_map_size = env_override_int atoi strcasecmp env.map_size_var c.mr_map_size;
    buffer_size = env_override_int atoi strcasecmp env.buffer_size_var c.buffer_size;
    buffers_per_segment =
        env_override_int atoi strcasecmp env.per_segment_var c.buffers_per_segment;
    min_msg_segmid = env_override_int atoi strcasecmp env.min_segmid_var c.min_msg_segmid;
    max_msg_segmid = env_override_int atoi strcasecmp env.max_segmid_var c.max_msg_segmid;
    max_concur_conn = env_override_int atoi strcasecmp env.concur_conn_var c.max_concur_conn;
  }

  -- Let both calls of DPAlib succeed when the provider is set up, the array of segments start with
  -- a cleared element, and the card make the segment of the lowest id, which is not 0, with room
  -- for at least one buffer and at least one id. Then the first endpoint finds, after two rounds of
  -- the loop that makes the segment, the buffer at offset 0 of the segment with that id.
  -- So two nodes with the same constants and environment find the same place. Its size is in words, at
  -- most BUFFER_SIZE and at most 7 bytes smaller.
  pub fi_ext_ini-first_buffer :
      (lib : Library) (env : Environment) (fresh : Segment) (p : Provider) (card : CardSegments)
      (fuel node rounds n : ℕ)
      → let c = overridden env p.constants in
        lib.initializes ≡ true
        → lib.node_of c.local_adapter_no ≡ some node
        → fresh.info.segment_id ≡ 0
        → c.min_msg_segmid ≢ 0
        → c.buffers_per_segment ≡ suc n
        → num_segments c ≡ suc rounds
        → Makes (card c.min_msg_segmid)
        → (first_buffer card (suc (suc fuel)) (fi_ext_ini atoi strcasecmp lib env fresh p)
            ≡ some (record {
              in_segment = c.min_msg_segmid;
              at_offset = 0;
              buffer_size = aligned_buffer_size c;
            }))
          × (aligned_buffer_size c % 8 ≡ 0)
          × (aligned_buffer_size c ≤ c.buffer_size)
          × (c.buffer_size < aligned_buffer_size c + 8)
  unfolding fi_ext_ini dpa_mr_init dpa_cm_init aligned_buffer_size
  fi_ext_ini-first_buffer lib env fresh p card fuel node rounds n starts number new used
        some_buffers some_ids m =
      let c = overridden env p.constants in
      (
        rw (starts, number, some_ids)
            (first_found card fuel rounds n fresh [] _ new used some_buffers m),
        omega arith,
        omega arith,
        omega arith,
      )
