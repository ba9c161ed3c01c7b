-- ===== src/Buffers.antt =====
-- src/dpa_msg_cm.c: the message buffers, cut out of local segments. `segments` is the array
-- `local_segments_info`, and `assign` is `assign_data` with the constants of the file.
pub mod Distinct
pub mod Free
mod Tests
use libfabric_provider_dpa.Prelude.{
  ℕ, zero, suc, ◌+◌, ◌*◌, ◌%◌, ◌^◌, Bool, true, false, ◌&&◌, List, [], ◌∷◌, Option, none, some, ltb,
  ◌==◌, if◌then◌else◌, length, replicate,
}
use libfabric_provider_dpa.Segments.{
  DpaError, dpa_ok, segment_id_used, dpa_failed, SegmentCalls, LocalSegment, dpa_alloc_segment,
  dpa_destroy_segment,
}

-- `msg_local_segment_info`: a segment with the sizes of its buffers; its id is 0 until it is made.
pub record Segment : Type 0 where
  pub info : LocalSegment
  pub bufcount : ℕ
  pub sizes : List ℕ

-- BUFFERS_PER_SEGMENT, ALIGNED_BUFFER_SIZE and `assign_data.currentSegmentId`.
pub record Assign : Type 0 where
  pub buffers_per_segment : ℕ
  pub aligned_size : ℕ
  pub current_id : ℕ

-- `local_buffer_info`, by the segment's id, the offset in it and the size.
pub record BufferInfo : Type 0 where
  pub in_segment : ℕ
  pub at_offset : ℕ
  pub buffer_size : ℕ

-- What the card answers when a segment of an id is made.
abbrev pub CardSegments : Type 0
CardSegments = ℕ → SegmentCalls

-- What is released is a copy: the element keeps the handles that `dpa_alloc_segment` has left, and
-- only its id is cleared. The calls without a handle are counted on.
abbrev pub still_none : Assign → LocalSegment → LocalSegment → Segment → Segment × Assign
still_none a info released s =
    (record s { info = record info { segment_id = 0; bad_calls = released.bad_calls } }, a)

abbrev pub made_segment :
    Assign → DpaError × LocalSegment → LocalSegment → Segment → Segment × Assign
made_segment a (dpa_ok, info) released s = (
  record { info = info; bufcount = 0; sizes = replicate a.buffers_per_segment 0 },
  record a { current_id = (a.current_id + 1) % 2 ^ 32 },
)
made_segment a (segment_id_used, info) released s = still_none a info released s
made_segment a (dpa_failed, info) released s = still_none a info released s

-- `create_data_segment`: after a failure the id is 0.
unfoldable pub create_data_segment : CardSegments → Assign → Segment → Segment × Assign
unfolding dpa_alloc_segment dpa_destroy_segment
create_data_segment card a s =
    let calls = card a.current_id in
    let made =
      dpa_alloc_segment calls a.current_id (a.aligned_size * a.buffers_per_segment) true s.info in
    made_segment a made (dpa_destroy_segment calls made.1).1 s

-- The loop round it, on fuel; none when the fuel runs out.
abbrev pub create_again :
    (Segment → Assign → Option (Segment × Assign)) → Segment × Assign → Option (Segment × Assign)
create_again loop (s, a) = loop s a

unfoldable pub create_loop : CardSegments → ℕ → Segment → Assign → Option (Segment × Assign)
unfolding create_data_segment
create_loop card zero s a = none
create_loop card (suc fuel) s a =
    let made = create_again (create_loop card fuel) (create_data_segment card a s) in
    if s.info.segment_id == 0 then made else some (s, a)

-- The first buffer of size 0, counted from `j`.
abbrev pub first_free : ℕ → List ℕ → Option ℕ
first_free j [] = none
first_free j (zero ∷ sizes) = some j
first_free j (suc n ∷ sizes) = first_free (suc j) sizes

unfoldable pub free_in : Assign → Segment → Option ℕ
free_in a s = if ltb s.bufcount a.buffers_per_segment then first_free 0 s.sizes else none

-- What `get_empty_buffer` comes to: a buffer, by the number of its segment and its own; NULL when
-- the rounds are over; a read behind the end of the array; or a loop that is still running.
pub data Found : Type 0 where
  found : ℕ → ℕ → Found
  no_buffer out_of_bounds running : Found

abbrev pub here_or_later :
    ℕ
    → Segment
    → Assign
    → List Segment
    → Option ℕ
    → Found × List Segment × Assign
    → Found × List Segment × Assign
here_or_later i s a segments (some j) later = (found i j, s ∷ segments, a)
here_or_later i s a segments none (r, segments', a') = (r, s ∷ segments', a')

abbrev pub at_segment :
    ℕ
    → Segment
    → List Segment
    → Option (Segment × Assign)
    → (Assign → Found × List Segment × Assign)
    → Assign
    → Found × List Segment × Assign
at_segment i s segments none later a = (running, s ∷ segments, a)
at_segment i s segments (some (s', a')) later a =
    here_or_later i s' a' segments (free_in a' s') (later a')

-- `get_empty_buffer`: `rounds` of NUM_SEGMENTS are left, and `i` have been made.
unfoldable pub get_empty_buffer :
    CardSegments → ℕ → ℕ → ℕ → List Segment → Assign → Found × List Segment × Assign
unfolding create_loop free_in
get_empty_buffer card fuel zero i segments a = (no_buffer, segments, a)
get_empty_buffer card fuel (suc rounds) i [] a = (out_of_bounds, [], a)
get_empty_buffer card fuel (suc rounds) i (s ∷ segments) a =
    at_segment i s segments (create_loop card fuel s a)
      (get_empty_buffer card fuel rounds (suc i) segments) a

abbrev pub set_size : List ℕ → ℕ → ℕ → List ℕ
set_size [] j n = []
set_size (x ∷ sizes) zero n = n ∷ sizes
set_size (x ∷ sizes) (suc j) n = x ∷ set_size sizes j n

-- `empty_buffer->size = ALIGNED_BUFFER_SIZE`, for buffer `j` of segment `i`.
unfoldable pub reserve_buffer : Assign → ℕ → ℕ → List Segment → List Segment
reserve_buffer a i j [] = []
reserve_buffer a zero j (s ∷ segments) =
    record s { sizes = set_size s.sizes j a.aligned_size } ∷ segments
reserve_buffer a (suc i) j (s ∷ segments) = s ∷ reserve_buffer a i j segments

abbrev pub nth_segment : List Segment → ℕ → Option Segment
nth_segment [] i = none
nth_segment (s ∷ segments) zero = some s
nth_segment (s ∷ segments) (suc i) = nth_segment segments i

-- The buffer's place for the peer: segment id and offset.
unfoldable pub buffer_info : Assign → List Segment → ℕ → ℕ → Option BufferInfo
buffer_info a segments i j = elim (nth_segment segments i) [
  | none ↦ none
  | some s ↦ some (record {
    in_segment = s.info.segment_id;
    at_offset = j * a.aligned_size;
    buffer_size = a.aligned_size;
  })
]

-- `dpa_cm_fini`: every segment that is made is released, on a copy of what the array holds.
unfoldable pub release_segment : CardSegments → Segment → LocalSegment
unfolding dpa_destroy_segment
release_segment card s =
    if s.info.segment_id == 0
    then s.info
    else (dpa_destroy_segment (card s.info.segment_id) s.info).1

unfoldable pub dpa_cm_fini : CardSegments → List Segment → List LocalSegment
unfolding release_segment
dpa_cm_fini card [] = []
dpa_cm_fini card (s ∷ segments) = release_segment card s ∷ dpa_cm_fini card segments
