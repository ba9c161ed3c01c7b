-- ===== src/Segments/Balance.antt =====
-- What making a segment takes and what releasing it gives back.
use libfabric_provider_dpa.Prelude.{ℕ, ◌<◌, ◌≡◌, ◌⊎◌, Bool, true, false, arith}
use libfabric_provider_dpa.Segments.{
  dpa_ok, SegmentCalls, LocalSegment, dpa_alloc_segment, dpa_destroy_segment,
}

-- Nothing is held, and no call was made without its handle.
pub record IsReleased (info : LocalSegment) : Type 0 where
  pub device : info.has_sd ≡ false
  pub segment : info.has_segment ≡ false
  pub map : info.has_map ≡ false
  pub disabled : info.available ≡ false

-- The calls that undo the others succeed.
pub record Releases (calls : SegmentCalls) : Type 0 where
  pub disables : calls.disabling ≡ dpa_ok
  pub unmaps : calls.unmapping ≡ dpa_ok
  pub removes : calls.removing ≡ dpa_ok
  pub closes : calls.closing ≡ dpa_ok

pub segment_id-dpa_alloc_segment :
    (calls : SegmentCalls) (id size : ℕ) (initialize : Bool) (info : LocalSegment)
    → (dpa_alloc_segment calls id size initialize info).1.segment_id ≡ id
unfolding dpa_alloc_segment
segment_id-dpa_alloc_segment calls id size initialize info = ground arith

pub dpa_destroy_segment-dpa_alloc_segment :
    (calls : SegmentCalls) (id size : ℕ) (initialize : Bool) (info : LocalSegment)
    → Releases calls
    → IsReleased info
    → let (e, made) = dpa_alloc_segment calls id size initialize info in
      let (e', left) = dpa_destroy_segment calls made in
      (e' ≡ dpa_ok)
      × IsReleased left
      × ((made.has_map ≡ true) × (left.bad_calls ≡ info.bad_calls)
          ⊎ (made.has_map ≡ false) × (info.bad_calls < left.bad_calls))
unfolding dpa_alloc_segment dpa_destroy_segment
dpa_destroy_segment-dpa_alloc_segment calls id size initialize info r n = ground arith
