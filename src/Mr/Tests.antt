-- ===== src/Mr/Tests.antt =====
-- A map of regions with nothing registered.
use libfabric_provider_dpa.Prelude.{◌≡◌, refl, true, false, some, arith}
use libfabric_provider_dpa.Fabric.{success}
use libfabric_provider_dpa.Hash.{HashMap, hash_create, hash_get}
use libfabric_provider_dpa.Segments.{dpa_alloc_segment}
use libfabric_provider_dpa.Cm.Samples.{all_ok, nothing_held}
use libfabric_provider_dpa.Mr.{Mr, dpa_mr_reg}
use libfabric_provider_dpa.Mr.Register.{dpa_mr_reg-finds}

abbrev empty : HashMap Mr
empty = hash_create (λ r. r.segment_info.segment_id) 251

abbrev region : Mr
region = record { segment_info = nothing_held; buf = 4096; len = 64; access = 0; flags = 0 }

dpa_mr_reg-finds_example :
    let made = (dpa_alloc_segment all_ok 300 64 false nothing_held).1 in
    let new : Mr = record region { segment_info = made } in
    let (ret, out, map', left) = dpa_mr_reg true false all_ok nothing_held region 300 empty in
    (ret ≡ success) × (out ≡ some new) × (made.segment_id ≡ 300) × (hash_get 300 map' ≡ some new)
unfolding hash_get hash_create dpa_alloc_segment
dpa_mr_reg-finds_example =
    dpa_mr_reg-finds all_ok nothing_held region 300 300 empty (omega arith) refl
