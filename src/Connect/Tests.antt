-- ===== src/Connect/Tests.antt =====
-- Runs of `create_loop` and of `progress_ep_eq`.
use libfabric_provider_dpa.Prelude.{◌≡◌, refl, none, arith}
use libfabric_provider_dpa.Segments.{dpa_alloc_segment}
use libfabric_provider_dpa.Buffers.{create_loop}
use libfabric_provider_dpa.Connect.Setup.{create_loop-spins}
use libfabric_provider_dpa.Cm.Samples.{id_used, new_segment, assign}

create_loop-spins_example : create_loop (λ id. id_used) 40 new_segment assign ≡ none
unfolding dpa_alloc_segment
create_loop-spins_example =
    create_loop-spins (λ id. id_used) 40 new_segment assign refl λ info e. ground arith
