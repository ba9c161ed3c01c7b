-- ===== src/Requirements.antt =====
-- src/dpa_info.c: which queries the provider refuses. Strings are lists of character codes.
use libfabric_provider_dpa.Prelude.{
  ℕ, ◌-◌, ◌^◌, Bool, true, false, not, ◌&&◌, ◌||◌, List, [], ◌∷◌, Option, none, some, ltb, ◌==◌,
  if◌then◌else◌,
}
use libfabric_provider_dpa.Fabric.{Ret, err, success, no_data}
use libfabric_provider_dpa.Av.{Addr, addr_size}
use libfabric_provider_dpa.Caps.{Caps, ep_msg_cap, ep_rdm_cap, includes, is_zero}

pub data EpType : Type 0 where
  ep_unspec ep_msg ep_rdm ep_dgram ep_other : EpType

-- `enum fi_threading`, in libfabric's order; the first four stand before FI_THREAD_COMPLETION.
pub data Threading : Type 0 where
  thread_unspec thread_safe thread_fid thread_domain thread_completion thread_endpoint : Threading

-- FI_PROTO_DPA, FI_PROTO_UNSPEC and the rest.
pub data Proto : Type 0 where
  proto_dpa proto_unspec proto_other : Proto

-- `fi_ep_attr`: a count of contexts is none for FI_SHARED_CONTEXT.
pub record EpAttr : Type 0 where
  pub type : EpType
  pub protocol : Proto
  pub protocol_version : ℕ
  pub max_msg_size : ℕ
  pub max_order_raw_size : ℕ
  pub max_order_war_size : ℕ
  pub max_order_waw_size : ℕ
  pub tx_ctx_cnt : Option ℕ
  pub rx_ctx_cnt : Option ℕ

pub record DomainAttr : Type 0 where
  pub threading : Threading
  pub data_progress_auto : Bool
  pub mr_basic : Bool

-- The fields of `fi_info` that the provider reads in hints; an address comes with its length.
pub record Hints : Type 0 where
  pub caps : Caps
  pub src_addr : Option (Addr × ℕ)
  pub dest_addr : Option (Addr × ℕ)
  pub addr_format_unspec : Bool
  pub ep_attr : Option EpAttr
  pub tx_caps : Option Caps
  pub rx_caps : Option Caps
  pub prov_name : Option (List ℕ)
  pub fabric_name : Option (List ℕ)
  pub domain_attr : Option DomainAttr

-- `node`, `service`, and whether FI_SOURCE is among the flags.
pub record Query : Type 0 where
  pub version : ℕ
  pub node : Option (List ℕ)
  pub service : Option (List ℕ)
  pub source : Bool
  pub hints : Option Hints

abbrev pub str_eq : List ℕ → List ℕ → Bool
str_eq [] [] = true
str_eq [] (y ∷ ys) = false
str_eq (x ∷ xs) [] = false
str_eq (x ∷ xs) (y ∷ ys) = (x == y) && str_eq xs ys

-- DPA_PROVIDER_NAME and DPA_FABRIC_NAME
abbrev pub dpa_name : List ℕ
dpa_name = 100 ∷ 112 ∷ 97 ∷ []

-- DPA_FI_VERSION, `FI_VERSION(1, 3)`
abbrev pub dpa_fi_version : ℕ
dpa_fi_version = 65539

-- DPA_PROTO_VERSION, DPA_MAX_ORDER_SIZE and DPA_MAX_CTX_CNT
abbrev pub dpa_proto_version : ℕ
dpa_proto_version = 1

abbrev pub max_order_size : ℕ
max_order_size = 2 ^ 64 - 1

abbrev pub max_ctx_cnt : ℕ
max_ctx_cnt = 1

abbrev pub too_many : Option ℕ → Bool
too_many none = true
too_many (some n) = ltb max_ctx_cnt n

-- `dpa_verify_ep_attr`: whether it fails. `max_size` is DPA_MAX_MSG_SIZE.
unfoldable pub dpa_verify_ep_attr : ℕ → Option EpAttr → Bool
dpa_verify_ep_attr max_size none = false
dpa_verify_ep_attr max_size (some a) =
    other_proto a.protocol
    || ltb dpa_proto_version a.protocol_version
    || ltb max_size a.max_msg_size
    || ltb max_order_size a.max_order_raw_size
    || ltb max_order_size a.max_order_war_size
    || ltb max_order_size a.max_order_waw_size
    || too_many a.tx_ctx_cnt
    || too_many a.rx_ctx_cnt
  where
    other_proto : Proto → Bool
    other_proto proto_other = true
    other_proto proto_dpa = false
    other_proto proto_unspec = false

-- `dpa_verify_tx_attr` and `dpa_verify_rx_attr`: whether they fail.
unfoldable pub dpa_verify_ctx_attr : Option Caps → Bool
unfolding includes
dpa_verify_ctx_attr none = false
dpa_verify_ctx_attr (some caps) = not (includes ep_msg_cap caps)

unfoldable pub dpa_verify_attr : ℕ → Hints → Bool
unfolding dpa_verify_ep_attr dpa_verify_ctx_attr
dpa_verify_attr max_size h =
    dpa_verify_ep_attr max_size h.ep_attr
    || dpa_verify_ctx_attr h.tx_caps
    || dpa_verify_ctx_attr h.rx_caps

abbrev pub type_of : Option EpAttr → EpType
type_of none = ep_unspec
type_of (some a) = a.type

abbrev pub caps_of_type : EpType → Option Caps
caps_of_type ep_unspec = some ep_msg_cap
caps_of_type ep_msg = some ep_msg_cap
caps_of_type ep_rdm = some ep_rdm_cap
caps_of_type ep_dgram = some ep_rdm_cap
caps_of_type ep_other = none

abbrev pub caps_within : Caps → Option Caps → Option Caps
caps_within asked none = none
caps_within asked (some caps) =
    if includes caps asked then some (if is_zero asked then caps else asked) else none

-- `get_ep_caps`: none for -FI_ENODATA.
unfoldable pub get_ep_caps : Option Hints → Option Caps
unfolding includes is_zero
get_ep_caps none = some ep_msg_cap
get_ep_caps (some h) = caps_within h.caps (caps_of_type (type_of h.ep_attr))

-- The tests of `dpa_verify_requirements` on addresses.
abbrev pub bad_src : ℕ → Bool → Option (Addr × ℕ) → Bool
bad_src local_node source none = false
bad_src local_node source (some (a, len)) =
    not source && (not (len == addr_size) || not (a.node_id == local_node))

abbrev pub has_one : Option (List ℕ) → Bool
has_one none = false
has_one (some s) = true

abbrev pub bad_dest : Query → Option (Addr × ℕ) → Bool
bad_dest q none = false
bad_dest q (some (a, len)) =
    ((not (has_one q.node) && not (has_one q.service)) || q.source) && not (len == addr_size)

abbrev pub bad_name : Option (List ℕ) → Bool
bad_name none = false
bad_name (some s) = not (str_eq s dpa_name)

abbrev pub bad_domain : Option DomainAttr → Bool
bad_domain none = false
bad_domain (some a) = a.mr_basic

abbrev pub bad_caps : Hints → Option Caps → Bool
bad_caps h none = true
bad_caps h (some caps) = not (includes caps h.caps)

-- The tests on hints, given what `get_ep_caps` answers.
abbrev pub refuses : ℕ → ℕ → Query → Hints → Option Caps → Bool
refuses max_size local_node q h caps =
    bad_src local_node q.source h.src_addr
    || bad_dest q h.dest_addr
    || bad_caps h caps
    || dpa_verify_attr max_size h
    || not h.addr_format_unspec
    || bad_name h.prov_name
    || bad_name h.fabric_name
    || bad_domain h.domain_attr

-- `dpa_verify_requirements`: every refusal is -FI_ENODATA.
unfoldable pub dpa_verify_requirements : ℕ → ℕ → Query → Ret
unfolding get_ep_caps dpa_verify_attr includes
dpa_verify_requirements max_size local_node q =
    if ltb dpa_fi_version q.version then err no_data else verify q.hints
  where
    verify : Option Hints → Ret
    verify none = success
    verify (some h) =
        if refuses max_size local_node q h (get_ep_caps (some h)) then err no_data else success
