-- ===== src/Info.antt =====
-- src/dpa_info.c: what the provider answers to a query. The name lookup of DPAlib and `atoi` are
-- parameters.
pub mod Answer
mod Tests
use libfabric_provider_dpa.Prelude.{
  ℕ, ◌-◌, ◌^◌, Bool, true, false, not, ◌&&◌, ◌||◌, List, [], ◌∷◌, Option, none, some, ltb, ◌==◌,
  if◌then◌else◌,
}
use libfabric_provider_dpa.Fabric.{Errno, Ret, ok, err, success, no_data}
use libfabric_provider_dpa.Av.{Addr, addr_size}
use libfabric_provider_dpa.Caps.{Caps, no_caps, ep_msg_cap, ep_rdm_cap, includes, is_zero}
use libfabric_provider_dpa.Requirements.{
  EpType, Threading, Proto, EpAttr, DomainAttr, Hints, Query, str_eq, dpa_name, dpa_fi_version,
  dpa_proto_version, max_order_size, max_ctx_cnt, too_many, dpa_verify_ep_attr, dpa_verify_ctx_attr,
  dpa_verify_attr, type_of, caps_of_type, caps_within, get_ep_caps, bad_src, has_one, bad_dest,
  bad_name, bad_domain, bad_caps, refuses, dpa_verify_requirements, ep_unspec, ep_msg, ep_rdm,
  ep_dgram, ep_other, thread_unspec, thread_safe, thread_fid, thread_domain, thread_completion,
  thread_endpoint, proto_dpa, proto_unspec, proto_other,
}

-- The fields of the answer that the provider computes.
pub record Info : Type 0 where
  pub info_caps : Caps
  pub info_type : EpType
  pub info_threading : Threading
  pub info_data_auto : Bool
  pub info_src : Addr
  pub info_dest : Option Addr

-- What the two lookups of names answer.
pub record Names : Type 0 where
  pub node_id : List ℕ → Option ℕ
  pub atoi : List ℕ → ℕ

abbrev pub service_id : Names → Option (List ℕ) → ℕ
service_id names none = 0
service_id names (some s) = names.atoi s

-- `resolvename`: none for NULL.
unfoldable pub resolvename : Names → Option (List ℕ) → Option (List ℕ) → Option Addr
resolvename names none service =
    some (record { node_id = 0; connect_id = service_id names service })
resolvename names (some node) service = elim (names.node_id node) [
  | none ↦ none
  | some id ↦ some (record { node_id = id; connect_id = service_id names service })
]

abbrev pub whole_addr : Option (Addr × ℕ) → Option Addr
whole_addr none = none
whole_addr (some (a, len)) = if len == addr_size then some a else none

abbrev pub dest_of_hints : Option Hints → Option Addr
dest_of_hints none = none
dest_of_hints (some h) = whole_addr h.dest_addr

abbrev pub src_of_hints : Option Hints → Option Addr
src_of_hints none = none
src_of_hints (some h) = whole_addr h.src_addr

abbrev pub or_zero : Option Addr → Option Addr
or_zero none = some (record { node_id = 0; connect_id = 0 })
or_zero (some a) = some a

-- The address that `dpa_getinfo` answers as destination; and as source, none for NULL.
unfoldable pub dest_addr : Names → Query → Option Addr
unfolding resolvename
dest_addr names q =
    if has_one q.node && has_one q.service && not q.source
    then resolvename names q.node q.service
    else dest_of_hints q.hints

unfoldable pub src_addr : Names → Query → Option Addr
unfolding resolvename
src_addr names q =
    if has_one q.service && q.source
    then resolvename names q.node q.service
    else or_zero (src_of_hints q.hints)

abbrev pub early : Threading → Bool
early thread_unspec = false
early thread_safe = true
early thread_fid = true
early thread_domain = true
early thread_completion = false
early thread_endpoint = false

abbrev pub threading_of : Option DomainAttr → Threading
threading_of none = thread_completion
threading_of (some a) = if early a.threading then a.threading else thread_completion

abbrev pub data_auto_of : Option DomainAttr → Bool
data_auto_of none = false
data_auto_of (some a) = a.data_progress_auto

abbrev pub domain_hints : Option Hints → Option DomainAttr
domain_hints none = none
domain_hints (some h) = h.domain_attr

abbrev pub type_or_msg : EpType → EpType
type_or_msg ep_unspec = ep_msg
type_or_msg ep_msg = ep_msg
type_or_msg ep_rdm = ep_rdm
type_or_msg ep_dgram = ep_dgram
type_or_msg ep_other = ep_other

abbrev pub hinted_type : Option Hints → EpType
hinted_type none = ep_unspec
hinted_type (some h) = type_of h.ep_attr

abbrev pub or_none : Option Caps → Caps
or_none none = no_caps
or_none (some caps) = caps

abbrev pub answer : ℕ → Names → Query → Ret → Option Addr → Option (Ret × Option Info)
answer local_node names q (err e) src = some (err e, none)
answer local_node names q (ok n) none = none
answer local_node names q (ok n) (some src) = some (
  success,
  some (record {
    info_caps = or_none (get_ep_caps q.hints);
    info_type = type_or_msg (hinted_type q.hints);
    info_threading = threading_of (domain_hints q.hints);
    info_data_auto = data_auto_of (domain_hints q.hints);
    info_src = record src { node_id = local_node };
    info_dest = dest_addr names q;
  }),
)

-- `dpa_getinfo`: none if it stores through the NULL of a failed lookup. Allocation is taken to
-- succeed.
unfoldable pub dpa_getinfo : ℕ → ℕ → Names → Query → Option (Ret × Option Info)
unfolding dpa_verify_requirements get_ep_caps src_addr dest_addr
dpa_getinfo max_size local_node names q =
    answer local_node names q (dpa_verify_requirements max_size local_node q) (src_addr names q)
