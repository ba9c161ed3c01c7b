-- ===== src/Provider/Tests.antt =====
-- A provider that is set up with one variable in the environment.
use libfabric_provider_dpa.Prelude.{
  ℕ, ◌%◌, ◌<◌, ◌+◌, ◌≤◌, ◌≡◌, ◌*◌, ◌-◌, ◌==◌, ◌&&◌, refl, Bool, true, false, List, [], ◌∷◌, none,
  some, arith,
}
use mathlib.Core.List.{Perm}
use libfabric_provider_dpa.Mr.{Mr}
use libfabric_provider_dpa.Segments.{LocalSegment}
use libfabric_provider_dpa.Segments.Balance.{IsReleased}
use libfabric_provider_dpa.Cm.Samples.{all_ok, nothing_held, new_segment}
use libfabric_provider_dpa.Provider.{
  defaults, Environment, Library, Provider, aligned_buffer_size, num_segments, env_override_int,
  fi_ext_ini, fi_dpa_fini,
}
use libfabric_provider_dpa.Provider.Setup.{first_buffer, fi_ext_ini-first_buffer}
use libfabric_provider_dpa.Provider.Teardown.{with_regions, with_buffer, fi_dpa_fini-fi_ext_ini}

-- BUFFER_SIZE is 100 in the environment; the other constants keep their values.
abbrev environment : Environment
environment = record {
  adapter_var = none;
  map_size_var = none;
  buffer_size_var = some (49 ∷ 48 ∷ 48 ∷ []);
  per_segment_var = none;
  min_segmid_var = none;
  max_segmid_var = none;
  concur_conn_var = none;
}

-- Digits, read as `atoi` reads them, and strings compared as they stand.
abbrev digits : ℕ → List ℕ → ℕ
digits n [] = n
digits n (c ∷ s) = digits (n * 10 + (c - 48)) s

abbrev same : List ℕ → List ℕ → Bool
same [] [] = true
same [] (d ∷ t) = false
same (c ∷ s) [] = false
same (c ∷ s) (d ∷ t) = (c == d) && same s t

abbrev library : Library
library = record { initializes = true; node_of = λ adapter. some 4 }

abbrev unset : Provider
unset = record {
  running = false;
  local_node = 0;
  constants = defaults;
  mr_map = none;
  current_id = 0;
  segments = none;
}

abbrev region : Mr
region = record {
  segment_info = record nothing_held { segment_id = 9 };
  buf = 100;
  len = 8;
  access = 0;
  flags = 0;
}

fi_ext_ini-first_buffer_example :
    (first_buffer
        (digits 0)
        same
        (λ id. all_ok)
        2
        (fi_ext_ini (digits 0) same library environment new_segment unset)
      ≡ some (record { in_segment = 2147483648; at_offset = 0; buffer_size = 96 }))
    × (96 % 8 ≡ 0)
    × (96 ≤ 100)
    × (100 < 96 + 8)
unfolding env_override_int aligned_buffer_size num_segments
fi_ext_ini-first_buffer_example =
    fi_ext_ini-first_buffer (digits 0) same library environment new_segment unset (λ id. all_ok) 0 4
      1023 15 refl refl refl (omega arith) refl refl
      (record { opens = refl; creates = refl; prepares = refl; maps = refl; enables = refl })

fi_dpa_fini-fi_ext_ini_example :
    (copies : List Mr) × (left : LocalSegment) × (final : Provider) × (fi_dpa_fini
        (λ id. all_ok)
        (with_regions (region ∷ []) (
          with_buffer
            (λ id. all_ok)
            2
            (fi_ext_ini (digits 0) same library environment new_segment unset).1))
      ≡ some (copies, left ∷ [], final))
    × Perm copies (region ∷ [])
    × IsReleased left
    × (left.bad_calls ≡ 0)
    × (final.running ≡ false)
unfolding env_override_int num_segments
fi_dpa_fini-fi_ext_ini_example =
    fi_dpa_fini-fi_ext_ini (digits 0) same library environment new_segment unset (λ id. all_ok) 0 4
      1023 15 (region ∷ []) refl refl (omega arith) refl
      (record { device = refl; segment = refl; map = refl; disabled = refl }) (omega arith) refl
      refl (record { opens = refl; creates = refl; prepares = refl; maps = refl; enables = refl })
      (record { disables = refl; unmaps = refl; removes = refl; closes = refl })
