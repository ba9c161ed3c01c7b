-- ===== src/Buffers/Tests.antt =====
-- Three buffers of segments with two each.
use libfabric_provider_dpa.Prelude.{◌≡◌, refl, [], ◌∷◌, arith}
use libfabric_provider_dpa.Buffers.{
  create_data_segment, create_loop, free_in, get_empty_buffer, reserve_buffer,
}
use libfabric_provider_dpa.Buffers.Distinct.{
  give_buffers, AreDistinct, AreFree, give_buffers-AreDistinct,
}
use libfabric_provider_dpa.Segments.{dpa_alloc_segment, dpa_destroy_segment}
use libfabric_provider_dpa.Cm.Samples.{all_ok, new_segment, assign}

two_and_one :
    give_buffers (λ id. all_ok) 3 3 (new_segment ∷ new_segment ∷ []) assign
    ≡ (0, 0) ∷ (0, 1) ∷ (1, 0) ∷ []
unfolding give_buffers create_data_segment create_loop free_in get_empty_buffer reserve_buffer
    dpa_alloc_segment dpa_destroy_segment
two_and_one = refl

give_buffers-AreDistinct_example :
    AreDistinct (give_buffers (λ id. all_ok) 3 3 (new_segment ∷ new_segment ∷ []) assign)
    × AreFree
        (give_buffers (λ id. all_ok) 3 3 (new_segment ∷ new_segment ∷ []) assign)
        (new_segment ∷ new_segment ∷ [])
give_buffers-AreDistinct_example =
    give_buffers-AreDistinct (λ id. all_ok) 3 3 (new_segment ∷ new_segment ∷ []) assign
      (λ e j. refl, (λ e j. refl, tt)) (omega arith)
