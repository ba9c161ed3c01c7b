-- ===== src/Domain/Locking.antt =====
-- Which endpoints of a domain take locks.
use libfabric_provider_dpa.Prelude.{
  ℕ, ◌≡◌, ◌∙◌, refl, Bool, true, false, not, Option, none, some, arith, if◌then◌else◌,
}
use libfabric_provider_dpa.Fabric.{success}
use libfabric_provider_dpa.Info.{early, threading_of}
use libfabric_provider_dpa.Requirements.{
  Threading, thread_unspec, thread_safe, thread_fid, thread_domain, thread_completion,
  thread_endpoint, DomainAttr,
}
use libfabric_provider_dpa.Av.{Addr}
use libfabric_provider_dpa.Endpoint.{Domain, Endpoint, OpenInfo, dpa_ep_open, open_at, before_fid}
use libfabric_provider_dpa.Domain.{dpa_domain_open}

-- FI_THREAD_SAFE.
abbrev is_safe : Threading → Bool
is_safe thread_unspec = false
is_safe thread_safe = true
is_safe thread_fid = false
is_safe thread_domain = false
is_safe thread_completion = false
is_safe thread_endpoint = false

before_fid-early :
    (t : Threading) → before_fid (if early t then t else thread_completion) ≡ is_safe t
before_fid-early thread_unspec = refl
before_fid-early thread_safe = refl
before_fid-early thread_fid = refl
before_fid-early thread_domain = refl
before_fid-early thread_completion = refl
before_fid-early thread_endpoint = refl

open_at-lock_needed :
    (id : ℕ) (dom : Domain) (info : OpenInfo) (dest : Option (Addr × ℕ)) (ep : Endpoint)
    → open_at id dom info dest ≡ (success, some ep)
    → ep.lock_needed ≡ before_fid dom.threading
open_at-lock_needed id dom info none ep e = ground arith
open_at-lock_needed id dom info (some (dest, len)) ep e = ground arith

lock_needed-dpa_ep_open :
    (id : ℕ) (dom : Domain) (info : OpenInfo) (ep : Endpoint)
    → dpa_ep_open id dom (some info) ≡ (success, some ep)
    → ep.lock_needed ≡ before_fid dom.threading
unfolding dpa_ep_open
lock_needed-dpa_ep_open id dom info ep e = open_at-lock_needed id dom info info.info_dest ep e

-- A domain that is opened without the basic mode for memory regions has the threading that
-- `dpa_getinfo` answers for the same attributes, and the endpoints opened in it take locks
-- exactly when FI_THREAD_SAFE was asked for.
dpa_ep_open-dpa_domain_open :
    (fabric id : ℕ) (attr : DomainAttr) (info : OpenInfo)
    → attr.mr_basic ≡ false
    → (dom : Domain) × (dpa_domain_open fabric (some (some attr)) ≡ (success, some dom))
      × (dom.threading ≡ threading_of (some attr))
      × ((ep : Endpoint)
          → dpa_ep_open id dom (some info) ≡ (success, some ep)
          → ep.lock_needed ≡ is_safe attr.threading)
unfolding dpa_domain_open
dpa_ep_open-dpa_domain_open fabric id attr info scalable =
    let threading = if early attr.threading then attr.threading else thread_completion in
    let dom : Domain = record {
      fabric = fabric;
      threading = threading;
      data_progress_manual = not attr.data_progress_auto;
    } in
    (
      dom,
      ground arith,
      refl,
      λ ep e. lock_needed-dpa_ep_open id dom info ep e ∙ before_fid-early attr.threading,
    )
