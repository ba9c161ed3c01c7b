-- ===== src/Peer/Tests.antt =====
-- Shutting down twice.
use libfabric_provider_dpa.Prelude.{◌≡◌, refl, true, false, ◌++◌}
use libfabric_provider_dpa.Connect.{CmEp}
use libfabric_provider_dpa.Cm.{dpa_shutdown}
use libfabric_provider_dpa.Cm.Samples.{card, active}
use libfabric_provider_dpa.Peer.Release.{holds, dpa_shutdown-dpa_shutdown}

abbrev connected : CmEp
connected = record active { has_sequence = true; has_map = true; has_segment = true }

dpa_shutdown-dpa_shutdown_example :
    let (r1, ep1) = dpa_shutdown card connected in
    let (r2, ep2) = dpa_shutdown card ep1 in
    (r2 ≡ r1)
    × (ep1.connected ≡ false)
    × (ep1.released ≡ connected.released ++ holds connected)
    × (ep2.released ≡ ep1.released ++ holds connected)
dpa_shutdown-dpa_shutdown_example = dpa_shutdown-dpa_shutdown card connected refl
