-- ===== src/Segments.antt =====
-- src/dpa_segments.h: making and releasing a local memory segment. Each call of DPAlib either
-- gives a handle or fails; what the calls answer is the record `SegmentCalls`. A handle is given by
-- whether it is set, and `bad_calls` counts the calls that were made with a handle that is not.
pub mod Balance
mod Tests
use libfabric_provider_dpa.Prelude.{ℕ, ◌+◌, Bool, true, false, ◌&&◌, if◌then◌else◌}

-- DPA_ERR_OK, DPA_ERR_SEGMENTID_USED and the other errors.
pub data DpaError : Type 0 where
  dpa_ok segment_id_used dpa_failed : DpaError

abbrev pub is_ok : DpaError → Bool
is_ok dpa_ok = true
is_ok segment_id_used = false
is_ok dpa_failed = false

-- The answers of DPAOpen, DPACreateSegment, DPAPrepareSegment, DPAMapLocalSegment and
-- DPASetSegmentAvailable, and then those of the calls that undo them.
pub record SegmentCalls : Type 0 where
  pub opening : DpaError
  pub creating : DpaError
  pub preparing : DpaError
  pub mapping : DpaError
  pub enabling : DpaError
  pub disabling : DpaError
  pub unmapping : DpaError
  pub removing : DpaError
  pub closing : DpaError

-- `local_segment_info`; `zeroed` says whether the initializer has cleared the memory.
pub record LocalSegment : Type 0 where
  pub segment_id : ℕ
  pub size : ℕ
  pub has_sd : Bool
  pub has_segment : Bool
  pub has_map : Bool
  pub available : Bool
  pub zeroed : Bool
  pub bad_calls : ℕ

-- A call that fails ends the chain.
abbrev pub and_then :
    DpaError → LocalSegment → (LocalSegment → DpaError × LocalSegment) → DpaError × LocalSegment
and_then dpa_ok info next = next info
and_then segment_id_used info next = (segment_id_used, info)
and_then dpa_failed info next = (dpa_failed, info)

-- `set` on success, and `info` as it is on failure.
abbrev pub on_ok : DpaError → LocalSegment → LocalSegment → LocalSegment
on_ok dpa_ok set info = set
on_ok segment_id_used set info = info
on_ok dpa_failed set info = info

-- `dpa_alloc_segment`; `initialize` says whether `zero_segment_initializer` is given.
unfoldable pub dpa_alloc_segment :
    SegmentCalls → ℕ → ℕ → Bool → LocalSegment → DpaError × LocalSegment
dpa_alloc_segment calls id size initialize info0 =
    let info : LocalSegment = record info0 { segment_id = id; size = size } in
    and_then calls.opening (on_ok calls.opening (record info { has_sd = true }) info) λ info1.
      and_then calls.creating (on_ok calls.creating (record info1 { has_segment = true }) info1)
        λ info2. and_then calls.preparing info2 λ info3.
          and_then calls.mapping (on_ok calls.mapping (record info3 { has_map = true }) info3)
            λ info4.
              let info5 : LocalSegment =
                if initialize then record info4 { zeroed = true } else info4 in
              (calls.enabling, on_ok calls.enabling (record info5 { available = true }) info5)

-- A call with the handle `set`: it has its effect if it succeeds, and counts if there is none.
abbrev pub with_handle : Bool → DpaError → LocalSegment → LocalSegment → LocalSegment
with_handle true e done info = on_ok e done info
with_handle false e done info = record info { bad_calls = info.bad_calls + 1 }

-- `dpa_destroy_segment`: all four calls are made, and the answer is that of the last.
unfoldable pub dpa_destroy_segment : SegmentCalls → LocalSegment → DpaError × LocalSegment
dpa_destroy_segment calls info =
    let info1 =
      with_handle info.has_segment calls.disabling (record info { available = false }) info in
    let info2 =
      with_handle info1.has_map calls.unmapping (record info1 { has_map = false }) info1 in
    let info3 =
      with_handle info2.has_segment calls.removing (record info2 { has_segment = false }) info2 in
    (calls.closing, with_handle info3.has_sd calls.closing (record info3 { has_sd = false }) info3)
