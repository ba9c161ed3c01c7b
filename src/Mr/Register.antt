-- ===== src/Mr/Register.antt =====
-- What registering a memory region does to the regions that are registered, and what closing it
-- gives back.
use libfabric_provider_dpa.Prelude.{
  ℕ, ◌%◌, ◌^◌, ◌<◌, ◌≡◌, ◌∙◌, sym, subst, refl, true, false, some, none, arith, ◌==◌, ==_refl,
}
use libfabric_provider_dpa.Fabric.{err, success, other}
use libfabric_provider_dpa.Hash.{HashMap, hash_get, hash_put}
use libfabric_provider_dpa.Hash.Lookup.{or_new, hash_get-hash_put}
use libfabric_provider_dpa.Segments.{
  DpaError, dpa_ok, segment_id_used, dpa_failed, SegmentCalls, LocalSegment, dpa_alloc_segment,
  dpa_destroy_segment,
}
use libfabric_provider_dpa.Segments.Balance.{
  IsReleased, Releases, dpa_destroy_segment-dpa_alloc_segment, segment_id-dpa_alloc_segment,
}
use libfabric_provider_dpa.Mr.{Mr, registered, dpa_mr_reg, dpa_mr_close}

registered_lem :
    (r : DpaError × LocalSegment) (mr : Mr) (map : HashMap Mr)
    → r.0 ≡ dpa_ok
    → let new : Mr = record mr { segment_info = r.1 } in
      registered r mr map ≡ (success, some new, hash_put new map, r.1)
registered_lem (dpa_ok, info) mr map e = refl
registered_lem (segment_id_used, info) mr map e = absurd cc
registered_lem (dpa_failed, info) mr map e = absurd cc

-- Under a key below 2^32, in a domain without the basic mode, registering makes the segment.
dpa_mr_reg_lem :
    (calls : SegmentCalls) (info : LocalSegment) (mr : Mr) (key : ℕ) (map : HashMap Mr)
    → key < 2 ^ 32
    → dpa_mr_reg true false calls info mr key map
      ≡ registered (dpa_alloc_segment calls key mr.len false info) mr map
unfolding dpa_mr_reg
dpa_mr_reg_lem calls info mr key map small = rw (low, ==_refl key) refl
  where
    low : key % 2 ^ 32 ≡ key
    low = omega arith

-- Registering a region in a domain that does not use the basic mode, under a key below 2^32 whose
-- segment can be allocated, succeeds with the region under that key, and afterwards every key finds
-- the region that it found before, or else the new one if the key is its own.
pub dpa_mr_reg-finds :
    (calls : SegmentCalls) (info : LocalSegment) (mr : Mr) (requested_key key : ℕ)
    (map : HashMap Mr)
    → requested_key < 2 ^ 32
    → (dpa_alloc_segment calls requested_key mr.len false info).0 ≡ dpa_ok
    → let made = (dpa_alloc_segment calls requested_key mr.len false info).1 in
      let new : Mr = record mr { segment_info = made } in
      let (ret, out, map', left) = dpa_mr_reg true false calls info mr requested_key map in
      (ret ≡ success)
      × (out ≡ some new)
      × (made.segment_id ≡ requested_key)
      × (hash_get key map' ≡ or_new (hash_get key map) new (map.key_of new == key))
dpa_mr_reg-finds calls info mr requested_key key map small can =
    rw
      (
        dpa_mr_reg_lem calls info mr requested_key map small,
        registered_lem (dpa_alloc_segment calls requested_key mr.len false info) mr map can,
      )
      (
        refl,
        refl,
        segment_id-dpa_alloc_segment calls requested_key mr.len false info,
        hash_get-hash_put map _ key,
      )

registered-info :
    (r : DpaError × LocalSegment) (mr new : Mr) (map map' : HashMap Mr) (left : LocalSegment)
    → registered r mr map ≡ (success, some new, map', left)
    → r.1 ≡ new.segment_info
registered-info (dpa_ok, info) mr new map map' left e = ground arith
registered-info (segment_id_used, info) mr new map map' left e = ground arith
registered-info (dpa_failed, info) mr new map map' left e = ground arith

-- Closing a region right after it was registered, with a segment made from nothing and calls that
-- release: nothing of the segment is held any longer.
pub dpa_mr_close-dpa_mr_reg :
    (calls : SegmentCalls) (info : LocalSegment) (mr new : Mr) (key : ℕ) (map map' : HashMap Mr)
    (left : LocalSegment)
    → key < 2 ^ 32
    → Releases calls
    → IsReleased info
    → dpa_mr_reg true false calls info mr key map ≡ (success, some new, map', left)
    → IsReleased (dpa_mr_close calls new map').1
unfolding dpa_mr_close
dpa_mr_close-dpa_mr_reg calls info mr new key map map' left small releases none_held e =
    let made = dpa_alloc_segment calls key mr.len false info in
    let same =
      registered-info made mr new map map' left
        (sym (dpa_mr_reg_lem calls info mr key map small) ∙ e) in
    subst (λ i. IsReleased (dpa_destroy_segment calls i).1) same
      (dpa_destroy_segment-dpa_alloc_segment calls key mr.len false info releases none_held).1

-- If the segment is made but cannot be mapped, registering fails, and the segment and its device
-- are still held, by a local variable that is gone.
pub dpa_mr_reg-leaks :
    (calls : SegmentCalls) (info : LocalSegment) (mr : Mr) (key : ℕ) (map : HashMap Mr)
    → key < 2 ^ 32
    → calls.opening ≡ dpa_ok
    → calls.creating ≡ dpa_ok
    → calls.preparing ≡ dpa_ok
    → calls.mapping ≡ dpa_failed
    → let (ret, out, map', left) = dpa_mr_reg true false calls info mr key map in
      (ret ≡ err other)
      × (out ≡ none)
      × (map' ≡ map)
      × (left.has_sd ≡ true)
      × (left.has_segment ≡ true)
unfolding dpa_alloc_segment
dpa_mr_reg-leaks calls info mr key map small o c p m =
    rw (dpa_mr_reg_lem calls info mr key map small, dpa_alloc_segment, o, c, p, m)
      (refl, refl, refl, refl, refl)
