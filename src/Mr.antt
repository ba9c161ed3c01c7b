-- ===== src/Mr.antt =====
-- src/dpa_mr.c: memory regions, registered under a key in the map `mr_map`, each with a local
-- segment.
pub mod Register
mod Tests
use libfabric_provider_dpa.Prelude.{
  ℕ, ◌%◌, ◌^◌, Bool, true, false, Option, none, some, ◌==◌, if◌then◌else◌,
}
use libfabric_provider_dpa.Fabric.{
  Errno, Ret, ok, err, success, no_data, bad_flags, key_rejected, no_key, other,
}
use libfabric_provider_dpa.Hash.{HashMap, hash_put, hash_remove}
use libfabric_provider_dpa.Segments.{
  DpaError, dpa_ok, segment_id_used, dpa_failed, SegmentCalls, LocalSegment, dpa_alloc_segment,
  dpa_destroy_segment,
}

-- `dpa_fid_mr`: the key is `segment_info.segmentId`.
pub record Mr : Type 0 where
  pub segment_info : LocalSegment
  pub buf : ℕ
  pub len : ℕ
  pub access : ℕ
  pub flags : ℕ

-- The end of `dpa_mr_reg`, by what `dpa_alloc_segment` answers and leaves in the local variable
-- `info`.
abbrev pub registered :
    DpaError × LocalSegment → Mr → HashMap Mr → Ret × Option Mr × HashMap Mr × LocalSegment
registered (dpa_ok, info) mr map =
    let new : Mr = record mr { segment_info = info } in (success, some new, hash_put new map, info)
registered (segment_id_used, info) mr map = (err no_key, none, map, info)
registered (dpa_failed, info) mr map = (err other, none, map, info)

-- `dpa_mr_reg` on an object of the class FI_CLASS_DOMAIN, or another one, and a domain with the mode
-- FI_MR_BASIC, or another one. A key has 32 bits. `info` is the local variable, and the last result
-- what it holds at the end.
unfoldable pub dpa_mr_reg :
    Bool
    → Bool
    → SegmentCalls
    → LocalSegment
    → Mr
    → ℕ
    → HashMap Mr
    → Ret × Option Mr × HashMap Mr × LocalSegment
unfolding hash_put dpa_alloc_segment
dpa_mr_reg is_domain mr_basic calls info mr requested_key map =
    let id = requested_key % 2 ^ 32 in
    if is_domain
    then if mr_basic
      then (err bad_flags, none, map, info)
      else if id == requested_key
      then registered (dpa_alloc_segment calls id mr.len false info) mr map
      else (err key_rejected, none, map, info)
    else (err no_data, none, map, info)

-- `dpa_mr_close`: the map, and the segment once it is released.
unfoldable pub dpa_mr_close : SegmentCalls → Mr → HashMap Mr → HashMap Mr × LocalSegment
unfolding hash_remove dpa_destroy_segment
dpa_mr_close calls mr map =
    (hash_remove mr.segment_info.segment_id map, (dpa_destroy_segment calls mr.segment_info).1)
