-- ===== src/Connect/Setup.antt =====
-- What setting up a connection does to the two sides.
use libfabric_provider_dpa.Prelude.{
  ◌∙◌, ==_iff, if◌then◌else◌, ◌*◌, ◌≢◌, ℕ, zero, suc, ◌≡◌, refl, ap, true, none, some,
}
use libfabric_provider_dpa.Segments.{
  LocalSegment, DpaError, dpa_ok, segment_id_used, dpa_failed, dpa_alloc_segment,
  dpa_destroy_segment,
}
use libfabric_provider_dpa.Buffers.{
  still_none, Segment, Assign, CardSegments, create_loop, create_again, create_data_segment,
  made_segment,
}

made_segment-fails :
    (a : Assign) (made : DpaError × LocalSegment) (released : LocalSegment) (s : Segment)
    → made.0 ≢ dpa_ok
    → made_segment a made released s ≡ still_none a made.1 released s
made_segment-fails a (dpa_ok, info) released s fails = absurd (fails refl)
made_segment-fails a (segment_id_used, info) released s fails = refl
made_segment-fails a (dpa_failed, info) released s fails = refl

-- When the next segment cannot be made, whatever memory holds before, the loop that makes it does
-- not end: whatever the fuel, it runs out, as a failure leaves the id to try next as it was.
pub create_loop-spins :
    (card : CardSegments) (fuel : ℕ) (s : Segment) (a : Assign)
    → s.info.segment_id ≡ 0
    → ((info : LocalSegment)
        → (dpa_alloc_segment
            (card a.current_id)
            a.current_id
            (a.aligned_size * a.buffers_per_segment)
            true
            info).0
          ≢ dpa_ok)
    → create_loop card fuel s a ≡ none
unfolding create_loop create_data_segment
create_loop-spins card zero s a new fails = refl
create_loop-spins card (suc fuel) s a new fails =
    let calls = card a.current_id in
    let made =
      dpa_alloc_segment calls a.current_id (a.aligned_size * a.buffers_per_segment) true s.info in
    let released = (dpa_destroy_segment calls made.1).1 in
    let next = create_again (create_loop card fuel) (made_segment a made released s) in
    ap (λ b. if b then next else some (s, a)) ((==_iff _ _).1 new)
    ∙ ap (create_again (create_loop card fuel))
        (made_segment-fails a made released s (fails s.info))
    ∙ create_loop-spins card fuel _ a refl fails
