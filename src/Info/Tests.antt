-- ===== src/Info/Tests.antt =====
-- Queries: one without hints, and one for datagrams that asks for messages.
use libfabric_provider_dpa.Prelude.{◌≡◌, ◌⊎◌, refl, true, false, none, some}
use libfabric_provider_dpa.Fabric.{err, success, no_data}
use libfabric_provider_dpa.Caps.{ep_msg_cap, includes, is_zero, check_ep_caps}
use libfabric_provider_dpa.Info.{Names, Info, src_addr, dpa_getinfo}
use libfabric_provider_dpa.Requirements.{Query}
use libfabric_provider_dpa.Info.Answer.{dpa_getinfo-opens}

abbrev names : Names
names = record { node_id = λ s. none; atoi = λ s. 6 }

abbrev plain : Query
plain = record { version = 65539; node = none; service = none; source = false; hints = none }

dpa_getinfo-opens_example :
    (dpa_getinfo 65528 4 names plain ≡ some (err no_data, none))
    ⊎ ((info : Info) × (dpa_getinfo 65528 4 names plain ≡ some (success, some info))
        × (includes ep_msg_cap (check_ep_caps info.info_caps) ≡ true)
        × (is_zero (check_ep_caps info.info_caps) ≡ false))
unfolding src_addr
dpa_getinfo-opens_example =
    dpa_getinfo-opens 65528 4 names plain (record { node_id = 0; connect_id = 0 }) refl
