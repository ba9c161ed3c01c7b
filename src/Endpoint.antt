-- ===== src/Endpoint.antt =====
-- src/dpa_ep.c: opening endpoints, binding queues, counters and vectors to them, and their name.
-- Objects are named by numbers. Allocation is taken to succeed.
pub mod Bind
pub mod Passive
mod Tests
use libfabric_provider_dpa.Prelude.{
  ℕ, ◌-◌, Bool, true, false, not, ◌&&◌, ◌||◌, List, [], ◌∷◌, Option, none, some, ltb, ◌==◌,
  if◌then◌else◌, min,
}
use libfabric_provider_dpa.Fabric.{Errno, Ret, ok, err, success, inval, is_conn, no_sys, too_small}
use libfabric_provider_dpa.Av.{Addr, addr_size}
use libfabric_provider_dpa.Caps.{Caps, check_ep_caps, is_zero}
use libfabric_provider_dpa.Requirements.{
  Threading, thread_unspec, thread_safe, thread_fid, thread_domain, thread_completion,
  thread_endpoint,
}

-- What an operation of the tables of `dpa_ep_open` is: the provider's, or the one of enosys.c.
pub data Slot : Type 0 where
  provided unsupported : Slot

-- `fi_ops_msg`: recv, recvv and recvmsg go together, and so do send, sendv and sendmsg.
pub record MsgOps : Type 0 where
  pub recv_slot : Slot
  pub send_slot : Slot

-- `fi_ops_rma`: the same for the reads and for the writes.
pub record RmaOps : Type 0 where
  pub read_slot : Slot
  pub write_slot : Slot

-- `dpa_fid_domain`, as far as endpoints use it; `fabric` names the fabric.
pub record Domain : Type 0 where
  pub fabric : ℕ
  pub threading : Threading
  pub data_progress_manual : Bool

-- Whose queues a queue's progress function serves.
pub data Progress : Type 0 where
  no_progress sendrecv_queues recv_queue send_queue : Progress

-- `dpa_fid_ep`, as far as `dpa_ep_open` and `dpa_ep_bind` set it, with the progress functions of
-- the queues and counters bound to it.
pub record Endpoint : Type 0 where
  pub domain : ℕ
  pub caps : Caps
  pub peer_addr : Addr
  pub pep : Option ℕ
  pub connected : Bool
  pub lock_needed : Bool
  pub msg_ops : Option MsgOps
  pub rma_ops : Option RmaOps
  pub eq : Option ℕ
  pub av : Option ℕ
  pub mr : Option ℕ
  pub send_cq : Option ℕ
  pub recv_cq : Option ℕ
  pub read_cq : Option ℕ
  pub write_cq : Option ℕ
  pub send_cntr : Option ℕ
  pub recv_cntr : Option ℕ
  pub read_cntr : Option ℕ
  pub write_cntr : Option ℕ

-- `threading < FI_THREAD_FID`
abbrev pub before_fid : Threading → Bool
before_fid thread_unspec = true
before_fid thread_safe = true
before_fid thread_fid = false
before_fid thread_domain = false
before_fid thread_completion = false
before_fid thread_endpoint = false

abbrev pub slot : Bool → Slot
slot true = provided
slot false = unsupported

abbrev pub msg_table : Caps → Option MsgOps
msg_table caps =
    if caps.msg
    then some (record { recv_slot = slot caps.recv; send_slot = slot caps.send })
    else none

abbrev pub rma_table : Caps → Option RmaOps
rma_table caps =
    if caps.rma
    then some (record { read_slot = slot caps.read; write_slot = slot caps.write })
    else none

-- The fields of `fi_info` that `dpa_ep_open` reads; `handle` names a passive endpoint.
pub record OpenInfo : Type 0 where
  pub info_caps : Caps
  pub info_dest : Option (Addr × ℕ)
  pub handle : Option ℕ

abbrev pub open_at : ℕ → Domain → OpenInfo → Option (Addr × ℕ) → Ret × Option Endpoint
open_at id dom info none = (err inval, none)
open_at id dom info (some (dest, len)) =
    let caps = check_ep_caps info.info_caps in
    if not (len == addr_size)
    then (err inval, none)
    else if is_zero caps
    then (err inval, none)
    else (
      success,
      some (record {
        domain = id;
        caps = caps;
        peer_addr = dest;
        pep = info.handle;
        connected = false;
        lock_needed = before_fid dom.threading;
        msg_ops = msg_table caps;
        rma_ops = rma_table caps;
        eq = none;
        av = none;
        mr = none;
        send_cq = none;
        recv_cq = none;
        read_cq = none;
        write_cq = none;
        send_cntr = none;
        recv_cntr = none;
        read_cntr = none;
        write_cntr = none;
      }),
    )

-- `dpa_ep_open` in the domain `id`; no info is NULL.
unfoldable pub dpa_ep_open : ℕ → Domain → Option OpenInfo → Ret × Option Endpoint
unfolding check_ep_caps is_zero
dpa_ep_open id dom none = (err inval, none)
dpa_ep_open id dom (some info) = open_at id dom info info.info_dest

-- The flags of `dpa_ep_bind`.
pub record BindFlags : Type 0 where
  pub to_send : Bool
  pub to_recv : Bool
  pub to_read : Bool
  pub to_write : Bool

-- What can be bound: the class of `bfid`, its name, and its domain or fabric.
pub data Fid : Type 0 where
  eq_fid : ℕ → ℕ → Fid
  cq_fid cntr_fid av_fid mr_fid : ℕ → ℕ → Fid
  stx_fid other_fid : Fid

-- `bind_progress`: what becomes of `progress->func`.
unfoldable pub bind_progress : Domain → BindFlags → Progress → Progress
bind_progress dom flags old =
    if not dom.data_progress_manual
    then old
    else if flags.to_recv && flags.to_send
    then sendrecv_queues
    else if flags.to_recv
    then recv_queue
    else if flags.to_send
    then send_queue
    else old

abbrev pub set_if {ℓ} : {A : Type ℓ} → Bool → A → Option A → Option A
set_if true a old = some a
set_if false a old = old

abbrev pub bind_cq : BindFlags → ℕ → Endpoint → Endpoint
bind_cq flags cq ep = record ep {
  send_cq = set_if flags.to_send cq ep.send_cq;
  read_cq = set_if (flags.to_send || flags.to_read) cq ep.read_cq;
  write_cq = set_if (flags.to_send || flags.to_write) cq ep.write_cq;
  recv_cq = set_if flags.to_recv cq ep.recv_cq;
}

abbrev pub bind_cntr : BindFlags → ℕ → Endpoint → Endpoint
bind_cntr flags cntr ep = record ep {
  send_cntr = set_if flags.to_send cntr ep.send_cntr;
  read_cntr = set_if (flags.to_send || flags.to_read) cntr ep.read_cntr;
  write_cntr = set_if (flags.to_send || flags.to_write) cntr ep.write_cntr;
  recv_cntr = set_if flags.to_recv cntr ep.recv_cntr;
}

-- CHECK_DOMAIN
abbrev pub in_domain :
    ℕ → Endpoint → Ret × Progress × Endpoint → Progress → Ret × Progress × Endpoint
in_domain id ep bound old = if ep.domain == id then bound else (err inval, old, ep)

abbrev pub bind_fid : Domain → BindFlags → Fid → Progress → Endpoint → Ret × Progress × Endpoint
bind_fid dom flags (eq_fid id fabric) old ep =
    if dom.fabric == fabric
    then (success, old, record ep { eq = some id })
    else (err inval, old, ep)
bind_fid dom flags (cq_fid id d) old ep =
    in_domain d ep (success, bind_progress dom flags old, bind_cq flags id ep) old
bind_fid dom flags (cntr_fid id d) old ep =
    in_domain d ep (success, bind_progress dom flags old, bind_cntr flags id ep) old
bind_fid dom flags (av_fid id d) old ep =
    in_domain d ep (success, old, record ep { av = some id }) old
bind_fid dom flags (mr_fid id d) old ep =
    in_domain d ep (success, old, record ep { mr = some id }) old
bind_fid dom flags stx_fid old ep = (err no_sys, old, ep)
bind_fid dom flags other_fid old ep = (err no_sys, old, ep)

-- `dpa_ep_bind`; `old` is the progress function of the object that is bound, which a queue or a
-- counter has.
unfoldable pub dpa_ep_bind :
    Domain → BindFlags → Option Fid → Progress → Endpoint → Ret × Progress × Endpoint
unfolding bind_progress
dpa_ep_bind dom flags none old ep = (err inval, old, ep)
dpa_ep_bind dom flags (some fid) old ep =
    if ep.connected then (err is_conn, old, ep) else bind_fid dom flags fid old ep

-- `dpa_pep_bind`: the event queue afterwards.
unfoldable pub dpa_pep_bind : ℕ → Option Fid → Option ℕ → Ret × Option ℕ
dpa_pep_bind fabric none eq = (err inval, eq)
dpa_pep_bind fabric (some (eq_fid id f)) eq =
    if fabric == f then (success, some id) else (err inval, eq)
dpa_pep_bind fabric (some (cq_fid id d)) eq = (err no_sys, eq)
dpa_pep_bind fabric (some (cntr_fid id d)) eq = (err no_sys, eq)
dpa_pep_bind fabric (some (av_fid id d)) eq = (err no_sys, eq)
dpa_pep_bind fabric (some (mr_fid id d)) eq = (err no_sys, eq)
dpa_pep_bind fabric (some stx_fid) eq = (err no_sys, eq)
dpa_pep_bind fabric (some other_fid) eq = (err no_sys, eq)

-- `dpa_getname`: the result, how many bytes of the address are copied out, and the address;
-- `pep_id` is the interrupt of the passive endpoint, if there is one.
unfoldable pub dpa_getname : ℕ → Option ℕ → ℕ → Ret × ℕ × Addr
dpa_getname local_node pep_id addrlen =
    let copy_size = min addrlen addr_size in
    (
      if ltb copy_size addr_size then err too_small else success,
      copy_size,
      record { node_id = local_node; connect_id = elim pep_id [ none ↦ 0 | some id ↦ id ] },
    )
