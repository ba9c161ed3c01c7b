-- ===== src/Rma/Tests.antt =====
-- Segments of the peer, and vectors of concrete bytes.
use libfabric_provider_dpa.Prelude.{ℕ, ◌+◌, ◌≡◌, refl, true, List, [], ◌∷◌, some, arith}
use libfabric_provider_dpa.Prelude.Bytes.{Mem, store_bytes}
use libfabric_provider_dpa.Av.{Addr}
use libfabric_provider_dpa.Ring.{Buffer}
use libfabric_provider_dpa.Rma.{write_loop}
use libfabric_provider_dpa.RemoteCache.{Dpalib, MrCache, cache_connect, signal_interrupt}
use libfabric_provider_dpa.Rma.Copy.{write_loop_lem}
use libfabric_provider_dpa.Rma.Cache.{signal_interrupt-stale}

abbrev remote : Mem
remote a = a + 100

abbrev vectors : List (ℕ × Buffer)
vectors =
    (1, record { buf = 1 ∷ 2 ∷ []; len = 2 }) ∷ (9, record { buf = 3 ∷ 4 ∷ 5 ∷ []; len = 3 }) ∷ []

write_loop_lem_example :
    ((write_loop 10 4 0 vectors remote).0 ≡ 4)
    × ((write_loop 10 4 0 vectors remote).1 12 ≡ store_bytes remote 10 (1 ∷ 2 ∷ 3 ∷ 4 ∷ []) 12)
write_loop_lem_example =
    write_loop_lem 10 4 0 vectors remote 12 (refl, (refl, tt)) (omega arith) (omega arith)

-- A card on which every call succeeds.
abbrev card : Dpalib
card = record {
  opens = true;
  connects = λ a. true;
  segment_size = λ a. 64;
  maps = λ a. true;
  sequences = λ a. true;
  starts = 0;
  interrupts = λ i. true;
}

abbrev target : Addr
target = record { node_id = 4; connect_id = 7 }

abbrev mapped : MrCache
mapped = record {
  target = record { node_id = 8; connect_id = 7 };
  has_sd = true;
  has_segment = true;
  has_map = true;
  has_base = true;
  cache_len = 64;
  interrupt = some (8, 3);
  triggered = [];
}

signal_interrupt-stale_example :
    (signal_interrupt card 3 (cache_connect card target mapped).1).triggered ≡ (8, 3) ∷ []
signal_interrupt-stale_example = signal_interrupt-stale card 3 8 target mapped (omega arith) refl
