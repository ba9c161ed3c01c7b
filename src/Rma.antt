-- ===== src/Rma.antt =====
-- src/dpa_rma.c: remote memory access. An endpoint keeps the remote segment it used last mapped
-- (module RemoteCache); reads and writes copy between the segment and the vectors of the user.
pub mod Copy
pub mod Cache
mod Tests
use libfabric_provider_dpa.Prelude.{
  ℕ, zero, suc, ◌+◌, ◌-◌, ◌%◌, ◌^◌, Bool, true, false, not, ◌&&◌, List, [], ◌∷◌, ◌++◌, Option, none,
  some, ltb, ◌==◌, if◌then◌else◌, length, take, min, add64, sub64,
}
use libfabric_provider_dpa.Prelude.Bytes.{Mem, store_bytes, load_bytes}
use libfabric_provider_dpa.Fabric.{Errno, Ret, ok, err, success, inval, too_small, remote_io}
use libfabric_provider_dpa.Av.{Addr, Av, dpa_av_lookup}
use libfabric_provider_dpa.Ring.{Buffer}
use libfabric_provider_dpa.Cq.{Cq, CqErrEntry, CompFlags, rma_read, rma_write, cq_add_src}
use libfabric_provider_dpa.Cntr.{Cntr, dpa_cntr_inc}
use libfabric_provider_dpa.RemoteCache.{
  Dpalib, MrCache, no_addr, cache_disconnect_interrupt, cache_disconnect, connect_steps, addr_eq,
  cache_connect, cache_connect_interrupt, signal_interrupt,
}

-- The fields of `dpa_fid_ep` that remote memory access uses. The completion queues and counters are
-- named by numbers, and `mem` is the memory of the remote segments, each from its first byte.
pub record RmaEp : Type 0 where
  pub connected : Bool
  pub peer_node : ℕ
  pub av : Av
  pub last_remote_mr : MrCache
  pub read_cq : Option ℕ
  pub write_cq : Option ℕ
  pub read_cntr : Option ℕ
  pub write_cntr : Option ℕ
  pub cqs : ℕ → Cq
  pub cntrs : ℕ → Cntr
  pub mem : Addr → Mem
  pub flushed : ℕ

-- `fi_msg_rma`: `rma_addr` and `rma_key` are those of its first `fi_rma_iov`, and the count is 0
-- where that is NULL. A vector is the address of the
-- user's buffer and the buffer.
pub record FiMsgRma : Type 0 where
  pub iovs : List (ℕ × Buffer)
  pub rma_iov_count : ℕ
  pub peer : ℕ
  pub rma_addr : ℕ
  pub rma_key : ℕ
  pub msg_context : ℕ
  pub msg_data : ℕ

-- `acquire_target`: the target, or the error. `deref` is what memory holds at an address.
unfoldable pub acquire_target : Dpalib → (ℕ → Addr) → FiMsgRma → RmaEp → Option Errno × Addr × RmaEp
unfolding cache_connect dpa_av_lookup
acquire_target dpa deref msg ep =
    let node =
      if ep.connected then ep.peer_node else (looked_up (dpa_av_lookup deref msg.peer ep.av)) in
    let target : Addr = record { node_id = node; connect_id = msg.rma_key % 2 ^ 32 } in
    let (done, cache) = cache_connect dpa target ep.last_remote_mr in
    if target.connect_id == msg.rma_key
    then if done
      then (none, target, record ep { last_remote_mr = cache })
      else (some remote_io, target, record ep { last_remote_mr = cache })
    else (some inval, target, ep)
  where
    looked_up : Ret × Option Addr → ℕ
    looked_up (r, none) = 0
    looked_up (r, some a) = a.node_id

-- The loop of `dpa_readmsg`: `room` is `top - base`, an unsigned number. It answers `copied` and
-- what it has left in the user's buffers.
unfoldable pub read_loop : Mem → ℕ → ℕ → ℕ → List (ℕ × Buffer) → ℕ × List (ℕ × List ℕ)
read_loop mem base room copied [] = (copied, [])
read_loop mem base room copied ((at, iov) ∷ iovs) =
    let copy = min (sub64 room copied) iov.len in
    let (total, rest) = read_loop mem base room (copied + copy) iovs in
    if ltb copied room
    then (total, (at, load_bytes mem (base + copied) copy) ∷ rest)
    else (copied, [])

-- The loop of `dpa_writemsg`.
unfoldable pub write_loop : ℕ → ℕ → ℕ → List (ℕ × Buffer) → Mem → ℕ × Mem
write_loop base room copied [] mem = (copied, mem)
write_loop base room copied ((at, iov) ∷ iovs) mem =
    let copy = min (sub64 room copied) iov.len in
    let result =
      write_loop base room (copied + copy) iovs
        (store_bytes mem (base + copied) (take copy iov.buf)) in
    if ltb copied room then result else (copied, mem)

unfoldable pub total_len : ℕ → List (ℕ × Buffer) → ℕ
total_len n [] = n
total_len n ((at, iov) ∷ iovs) = total_len (add64 n iov.len) iovs

abbrev pub signal_if : Bool → Dpalib → ℕ → RmaEp → RmaEp
signal_if false dpa comp_data ep = ep
signal_if true dpa comp_data ep = record ep {
  last_remote_mr = signal_interrupt dpa comp_data ep.last_remote_mr;
}

abbrev pub update {ℓ} : {A : Type ℓ} → (ℕ → A) → ℕ → A → ℕ → A
update f k v i = if i == k then v else f i

abbrev pub complete : Option ℕ → CqErrEntry → Option ℕ → RmaEp → RmaEp
complete none entry src ep = ep
complete (some id) entry src ep = record ep {
  cqs = update ep.cqs id (cq_add_src entry src (ep.cqs id));
}

abbrev pub count : Option ℕ → RmaEp → RmaEp
count none ep = ep
count (some id) ep = record ep { cntrs = update ep.cntrs id (dpa_cntr_inc (ep.cntrs id)) }

-- The source address of a completion.
abbrev pub source : FiMsgRma → RmaEp → Option ℕ
source msg ep = some (if ep.connected then 0 else msg.peer)

abbrev pub first_base : List (ℕ × Buffer) → ℕ
first_base [] = 0
first_base ((at, iov) ∷ []) = at
first_base (x ∷ y ∷ iovs) = 0

abbrev pub read_completion : FiMsgRma → ℕ → CqErrEntry
read_completion msg copied = record {
  op_context = msg.msg_context;
  flags = rma_read;
  len = copied;
  buf = first_base msg.iovs;
  comp_data = msg.msg_data;
  error = none;
  olen = 0;
}

abbrev pub write_completion : FiMsgRma → ℕ → ℕ → CqErrEntry
write_completion msg copied total = record {
  op_context = msg.msg_context;
  flags = rma_write;
  len = copied;
  buf = 0;
  comp_data = msg.msg_data;
  error = if total == copied then none else some too_small;
  olen = sub64 total copied;
}

-- The part of `dpa_readmsg` behind `acquire_target`; `remote_cq_data` is FI_REMOTE_CQ_DATA.
unfoldable pub read_from : Dpalib → FiMsgRma → Bool → Addr → RmaEp → List (ℕ × List ℕ) × RmaEp
unfolding read_loop signal_interrupt
read_from dpa msg remote_cq_data target ep =
    let room = sub64 ep.last_remote_mr.cache_len msg.rma_addr in
    let (copied, filled) = read_loop (ep.mem target) msg.rma_addr room 0 msg.iovs in
    let ep1 = complete ep.read_cq (read_completion msg copied) (source msg ep) ep in
    (filled, signal_if remote_cq_data dpa msg.msg_data (count ep.read_cntr ep1))

-- `dpa_readmsg`: what it returns, and what it has left in the user's buffers; none is NULL.
unfoldable pub dpa_readmsg :
    Dpalib → (ℕ → Addr) → Option FiMsgRma → Bool → RmaEp → Ret × List (ℕ × List ℕ) × RmaEp
unfolding acquire_target read_from
dpa_readmsg dpa deref none remote_cq_data ep = (err inval, [], ep)
dpa_readmsg dpa deref (some msg) remote_cq_data ep =
    if msg.rma_iov_count == 1
    then acquired (acquire_target dpa deref msg ep)
    else (err inval, [], ep)
  where
    acquired : Option Errno × Addr × RmaEp → Ret × List (ℕ × List ℕ) × RmaEp
    acquired (some e, target, ep1) = (err e, [], ep1)
    acquired (none, target, ep1) =
        let (filled, ep2) = read_from dpa msg remote_cq_data target ep1 in (success, filled, ep2)

abbrev pub set_mem : (Addr → Mem) → Addr → Mem → Addr → Mem
set_mem f target mem a = if addr_eq a target then mem else f a

-- The part of `dpa_writemsg` behind `acquire_target`; `more` is FI_MORE.
unfoldable pub write_to : Dpalib → FiMsgRma → Bool → Bool → Addr → RmaEp → RmaEp
unfolding write_loop total_len signal_interrupt
write_to dpa msg remote_cq_data more target ep =
    let room = sub64 ep.last_remote_mr.cache_len msg.rma_addr in
    let (copied, mem) = write_loop msg.rma_addr room 0 msg.iovs (ep.mem target) in
    let total = total_len 0 msg.iovs in
    let ep1 : RmaEp = record ep { mem = set_mem ep.mem target mem } in
    let ep2 = complete ep1.write_cq (write_completion msg copied total) (source msg ep1) ep1 in
    let ep3 = count ep2.write_cntr ep2 in
    if remote_cq_data
    then signal_if true dpa msg.msg_data ep3
    else if more
    then ep3
    else record ep3 { flushed = ep3.flushed + 1 }

unfoldable pub dpa_writemsg :
    Dpalib → (ℕ → Addr) → Option FiMsgRma → Bool → Bool → RmaEp → Ret × RmaEp
unfolding acquire_target write_to
dpa_writemsg dpa deref none remote_cq_data more ep = (err inval, ep)
dpa_writemsg dpa deref (some msg) remote_cq_data more ep =
    if msg.rma_iov_count == 1 then acquired (acquire_target dpa deref msg ep) else (err inval, ep)
  where
    acquired : Option Errno × Addr × RmaEp → Ret × RmaEp
    acquired (some e, target, ep1) = (err e, ep1)
    acquired (none, target, ep1) = (success, write_to dpa msg remote_cq_data more target ep1)

-- `dpa_read`, `dpa_write` and `dpa_writedata`: one vector, and no data or the data given.
abbrev pub one_vector : ℕ × Buffer → ℕ → ℕ → ℕ → ℕ → ℕ → FiMsgRma
one_vector iov peer comp_data addr key context = record {
  iovs = iov ∷ [];
  rma_iov_count = 1;
  peer = peer;
  rma_addr = addr;
  rma_key = key;
  msg_context = context;
  msg_data = comp_data;
}

unfoldable pub dpa_read :
    Dpalib → (ℕ → Addr) → ℕ × Buffer → ℕ → ℕ → ℕ → ℕ → RmaEp → Ret × List (ℕ × List ℕ) × RmaEp
unfolding dpa_readmsg
dpa_read dpa deref iov src_addr addr key context ep =
    dpa_readmsg dpa deref (some (one_vector iov src_addr 0 addr key context)) false ep

unfoldable pub dpa_write : Dpalib → (ℕ → Addr) → ℕ × Buffer → ℕ → ℕ → ℕ → ℕ → RmaEp → Ret × RmaEp
unfolding dpa_writemsg
dpa_write dpa deref iov dest_addr addr key context ep =
    dpa_writemsg dpa deref (some (one_vector iov dest_addr 0 addr key context)) false false ep

unfoldable pub dpa_writedata :
    Dpalib → (ℕ → Addr) → ℕ × Buffer → ℕ → ℕ → ℕ → ℕ → ℕ → RmaEp → Ret × RmaEp
unfolding dpa_writemsg
dpa_writedata dpa deref iov comp_data dest_addr addr key context ep =
    dpa_writemsg dpa deref (some (one_vector iov dest_addr comp_data addr key context)) true false
      ep
