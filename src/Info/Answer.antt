-- ===== src/Info/Answer.antt =====
-- What `dpa_getinfo` answers can be used to open an endpoint.
use libfabric_provider_dpa.Prelude.{
  ℕ, ◌≡◌, ◌⊎◌, refl, ap₂, inl, inr, true, false, Option, none, some, arith, Bool-cases,
  Option-cases, ltb, subst,
}
use libfabric_provider_dpa.Fabric.{err, success, no_data}
use libfabric_provider_dpa.Av.{Addr}
use libfabric_provider_dpa.Caps.{
  Caps, ep_msg_cap, ep_rdm_cap, includes, is_zero, check_ep_caps, with_msg, with_rma,
}
use libfabric_provider_dpa.Info.{Info, Names, dpa_getinfo, src_addr, answer, or_none}
use libfabric_provider_dpa.Requirements.{
  EpType, Hints, Query, caps_of_type, caps_within, type_of, get_ep_caps, dpa_verify_requirements,
  refuses, dpa_fi_version,
}

no_other : (a : Caps) → includes ep_msg_cap a ≡ true → a.other_bits ≡ false
unfolding includes
no_other a h = ground arith

within_msg : (a : Caps) → includes ep_rdm_cap a ≡ true → includes ep_msg_cap a ≡ true
unfolding includes
within_msg a h = ground arith

is_zero-with_msg : (a : Caps) → is_zero a ≡ false → is_zero (with_msg a) ≡ false
unfolding is_zero
is_zero-with_msg a h = ground arith

is_zero-with_rma : (a : Caps) → is_zero a ≡ false → is_zero (with_rma a) ≡ false
unfolding is_zero
is_zero-with_rma a h = ground arith

includes-with_msg :
    (a : Caps) → includes ep_msg_cap a ≡ true → includes ep_msg_cap (with_msg a) ≡ true
unfolding includes
includes-with_msg a h = ground arith

includes-with_rma :
    (a : Caps) → includes ep_msg_cap a ≡ true → includes ep_msg_cap (with_rma a) ≡ true
unfolding includes
includes-with_rma a h = ground arith

-- Capabilities that are among the provider's, and not none, pass the check of `dpa_ep_open`.
abbrev IsUsable : Option Caps → Type 0
IsUsable none = Unit {0}
IsUsable (some a) = (includes ep_msg_cap a ≡ true) × (is_zero a ≡ false)

check_ep_caps-passes :
    (a : Caps)
    → (includes ep_msg_cap a ≡ true) × (is_zero a ≡ false)
    → (includes ep_msg_cap (check_ep_caps a) ≡ true) × (is_zero (check_ep_caps a) ≡ false)
unfolding check_ep_caps
check_ep_caps-passes a (within, some_cap) = rw within (
  includes-with_rma (with_msg a) (includes-with_msg a within),
  is_zero-with_rma (with_msg a) (is_zero-with_msg a some_cap),
)

caps_within-IsUsable :
    (asked caps : Caps)
    → (includes ep_msg_cap caps ≡ true) × (is_zero caps ≡ false)
    → (includes caps asked ≡ true → includes ep_msg_cap asked ≡ true)
    → IsUsable (caps_within asked (some caps))
caps_within-IsUsable asked caps good trans = elim (Bool-cases (includes caps asked)) [
  | inr f ↦ rw f tt
  | inl t ↦ elim (Bool-cases (is_zero asked)) [
    | inl z ↦ rw (t, z) good
    | inr nz ↦ rw (t, nz) (trans t, nz)
  ]
]

of_type-IsUsable : (asked : Caps) (type : EpType) → IsUsable (caps_within asked (caps_of_type type))
unfolding includes is_zero
of_type-IsUsable asked EpType.ep_unspec =
    caps_within-IsUsable asked ep_msg_cap (refl, refl) (λ h. h)
of_type-IsUsable asked EpType.ep_msg = caps_within-IsUsable asked ep_msg_cap (refl, refl) (λ h. h)
of_type-IsUsable asked EpType.ep_rdm =
    caps_within-IsUsable asked ep_rdm_cap (refl, refl) (within_msg asked)
of_type-IsUsable asked EpType.ep_dgram =
    caps_within-IsUsable asked ep_rdm_cap (refl, refl) (within_msg asked)
of_type-IsUsable asked EpType.ep_other = tt

get_ep_caps-IsUsable : (hints : Option Hints) → IsUsable (get_ep_caps hints)
unfolding get_ep_caps includes is_zero
get_ep_caps-IsUsable none = (refl, refl)
get_ep_caps-IsUsable (some h) = of_type-IsUsable h.caps (type_of h.ep_attr)

caps_none : get_ep_caps none ≡ some ep_msg_cap
unfolding get_ep_caps
caps_none = refl

refuses-none :
    (max_size local_node : ℕ) (q : Query) (h : Hints) → refuses max_size local_node q h none ≡ true
refuses-none max_size local_node q h = ground arith

requirements_lem :
    (max_size local_node : ℕ) (q : Query) (hints : Option Hints)
    → q.hints ≡ hints
    → (dpa_verify_requirements max_size local_node q ≡ err no_data)
      ⊎ (dpa_verify_requirements max_size local_node q ≡ success)
        × ((c : Caps) × (get_ep_caps hints ≡ some c))
unfolding dpa_verify_requirements
requirements_lem max_size local_node q none e = elim (Bool-cases (ltb dpa_fi_version q.version)) [
  | inl t ↦ inl (rw t refl)
  | inr f ↦ inr (rw (f, e) refl, (ep_msg_cap, caps_none))
]
requirements_lem max_size local_node q (some h) e =
    elim (Bool-cases (ltb dpa_fi_version q.version)) [
      | inl t ↦ inl (rw t refl)
      | inr f ↦ elim (Option-cases (get_ep_caps (some h))) [
        | inl no_c ↦ inl (rw (f, e, no_c, refuses-none max_size local_node q h) refl)
        | inr (c, has_c) ↦ elim (Bool-cases (refuses max_size local_node q h (some c))) [
          | inl t ↦ inl (rw (f, e, has_c, t) refl)
          | inr g ↦ inr (rw (f, e, has_c, g) refl, (c, has_c))
        ]
      ]
    ]

-- For every query whose source address can be found, `dpa_getinfo` either refuses with -FI_ENODATA
-- and no answer, or succeeds with capabilities that the check of `dpa_ep_open` accepts: what the
-- check makes of them is not empty and lies within the provider's capabilities.
pub dpa_getinfo-opens :
    (max_size local_node : ℕ) (names : Names) (q : Query) (src : Addr)
    → src_addr names q ≡ some src
    → (dpa_getinfo max_size local_node names q ≡ some (err no_data, none))
      ⊎ ((info : Info) × (dpa_getinfo max_size local_node names q ≡ some (success, some info))
          × (includes ep_msg_cap (check_ep_caps info.info_caps) ≡ true)
          × (is_zero (check_ep_caps info.info_caps) ≡ false))
unfolding dpa_getinfo
dpa_getinfo-opens max_size local_node names q src found =
    elim (requirements_lem max_size local_node q q.hints refl) [
      | inl refused ↦ inl (rw refused refl)
      | inr (accepted, (c, has_c)) ↦
          let passes =
            check_ep_caps-passes (or_none (get_ep_caps q.hints))
              (rw has_c (subst IsUsable has_c (get_ep_caps-IsUsable q.hints))) in
          inr (_, ap₂ (answer local_node names q) accepted found, passes.0, passes.1)
    ]
