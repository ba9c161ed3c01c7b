-- ===== src/Domain.antt =====
-- src/dpa_domain.c: opening a domain. Allocation is taken to succeed.
pub mod Locking
use libfabric_provider_dpa.Prelude.{
  ℕ, Bool, true, false, not, ◌&&◌, Option, none, some, if◌then◌else◌,
}
use libfabric_provider_dpa.Fabric.{Errno, Ret, ok, err, success, no_data}
use libfabric_provider_dpa.Info.{early}
use libfabric_provider_dpa.Requirements.{thread_completion, DomainAttr}
use libfabric_provider_dpa.Endpoint.{Domain}

abbrev default_domain : ℕ → Domain
default_domain fabric = record {
  fabric = fabric;
  threading = thread_completion;
  data_progress_manual = true;
}

-- `dpa_domain_open`: `info` is none for NULL, and holds `domain_attr`, none for NULL.
unfoldable pub dpa_domain_open : ℕ → Option (Option DomainAttr) → Ret × Option Domain
dpa_domain_open fabric none = (err no_data, none)
dpa_domain_open fabric (some none) = (success, some (default_domain fabric))
dpa_domain_open fabric (some (some attr)) = if attr.mr_basic then (err no_data, none) else (
  success,
  some (record {
    fabric = fabric;
    threading = if early attr.threading then attr.threading else thread_completion;
    data_progress_manual = not attr.data_progress_auto;
  }),
)
