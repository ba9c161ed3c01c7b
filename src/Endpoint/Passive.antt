-- ===== src/Endpoint/Passive.antt =====
-- src/dpa_ep.c: opening and closing passive endpoints, closing endpoints, and control.
use libfabric_provider_dpa.Prelude.{
  ℕ, ◌≡◌, refl, Bool, true, false, Option, none, some, ◌==◌, if◌then◌else◌, arith,
}
use libfabric_provider_dpa.Fabric.{Ret, err, success, inval, no_sys}
use libfabric_provider_dpa.Av.{Addr, addr_size}
use libfabric_provider_dpa.Caps.{Caps, check_ep_caps, is_zero}
use libfabric_provider_dpa.Endpoint.{Progress, no_progress}

-- The fields of `fi_info` that `dpa_passive_ep_open` reads.
pub record PassiveInfo : Type 0 where
  pub passive_caps : Caps
  pub src_addr : Option Addr
  pub src_addrlen : ℕ

-- `dpa_fid_pep`; `eq` names its event queue.
pub record PassiveEp : Type 0 where
  pub pep_fabric : ℕ
  pub pep_info : PassiveInfo
  pub pep_eq : Option ℕ
  pub interrupt_id : ℕ

-- The value of `!n` in C.
abbrev pub c_not : ℕ → ℕ
c_not n = if n == 0 then 1 else 0

abbrev pub open_passive : ℕ → PassiveInfo → Option Addr → Ret × Option PassiveEp
open_passive fabric info none = (err inval, none)
open_passive fabric info (some src_addr) =
    if c_not info.src_addrlen == addr_size
    then (err inval, none)
    else if is_zero (check_ep_caps info.passive_caps)
    then (err inval, none)
    else (
      success,
      some (record {
        pep_fabric = fabric;
        pep_info = info;
        pep_eq = none;
        interrupt_id = src_addr.connect_id;
      }),
    )

unfoldable pub dpa_passive_ep_open : ℕ → Option PassiveInfo → Ret × Option PassiveEp
unfolding check_ep_caps is_zero
dpa_passive_ep_open fabric none = (err inval, none)
dpa_passive_ep_open fabric (some info) = open_passive fabric info info.src_addr

-- `dpa_pep_close`: what becomes of the progress function of its event queue.
unfoldable pub dpa_pep_close : PassiveEp → Progress → Progress
dpa_pep_close pep old = elim pep.pep_eq [ none ↦ old | some eq ↦ no_progress ]

-- `dpa_ep_control`; `enable` says whether the command is FI_ENABLE.
unfoldable pub dpa_ep_control : Bool → Ret
dpa_ep_control true = success
dpa_ep_control false = err no_sys

c_not-addr_size : (n : ℕ) → (c_not n == addr_size) ≡ false
c_not-addr_size n = ground arith

open_passive-any_length :
    (fabric len : ℕ) (info : PassiveInfo) (a : Option Addr)
    → (open_passive fabric info a).0 ≡ (open_passive fabric (record info { src_addrlen = len }) a).0
open_passive-any_length fabric len info none = refl
open_passive-any_length fabric len info (some a) =
    ground (arith, c_not-addr_size info.src_addrlen, c_not-addr_size len)

-- The length of the source address makes no difference: an address of any length is read whole.
dpa_passive_ep_open-any_length :
    (fabric len : ℕ) (info : PassiveInfo)
    → (dpa_passive_ep_open fabric (some info)).0
      ≡ (dpa_passive_ep_open fabric (some (record info { src_addrlen = len }))).0
unfolding dpa_passive_ep_open
dpa_passive_ep_open-any_length fabric len info =
    open_passive-any_length fabric len info info.src_addr
