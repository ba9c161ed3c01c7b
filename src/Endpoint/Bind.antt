-- ===== src/Endpoint/Bind.antt =====
-- Binding objects to an endpoint.
use libfabric_provider_dpa.Prelude.{ℕ, ◌≡◌, true, false, Option, some, arith, if◌then◌else◌}
use libfabric_provider_dpa.Fabric.{Errno, err, success}
use libfabric_provider_dpa.Endpoint.{
  Domain, Endpoint, BindFlags, Fid, Progress, cq_fid, dpa_ep_bind,
}

-- A call of `dpa_ep_bind` that fails changes neither the endpoint nor the object that was to be
-- bound, whatever the reason.
pub dpa_ep_bind-fails :
    (dom : Domain) (flags : BindFlags) (fid : Option Fid) (old : Progress) (ep : Endpoint)
    (e : Errno)
    → (dpa_ep_bind dom flags fid old ep).0 ≡ err e
    → dpa_ep_bind dom flags fid old ep ≡ (err e, old, ep)
unfolding dpa_ep_bind
dpa_ep_bind-fails dom flags fid old ep e h = ground arith

-- Binding a completion queue of the endpoint's domain for sends, before the endpoint is connected,
-- succeeds: the queue then gets the completions of sends, remote reads and remote writes, and
-- those of receives if the flags name them; otherwise these go where they went before.
pub dpa_ep_bind-cq :
    (dom : Domain) (flags : BindFlags) (id : ℕ) (old : Progress) (ep : Endpoint)
    → ep.connected ≡ false
    → flags.to_send ≡ true
    → let r = dpa_ep_bind dom flags (some (cq_fid id ep.domain)) old ep in
      (r.0 ≡ success)
      × (r.2.send_cq ≡ some id)
      × (r.2.read_cq ≡ some id)
      × (r.2.write_cq ≡ some id)
      × (r.2.recv_cq ≡ (if flags.to_recv then some id else ep.recv_cq))
unfolding dpa_ep_bind
dpa_ep_bind-cq dom flags id old ep c s = ground arith
