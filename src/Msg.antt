-- ===== src/Msg.antt =====
-- src/dpa_msg.c and src/dpa_msg.h: sending and receiving messages on an endpoint, with the queues
-- of requests that wait, the completions, and the locks of the two queues. The message buffer that
-- the endpoint shares with its peer is the `Link` beside it (module Ring).
pub mod Send
pub mod Recv
pub mod Queues
pub mod Post
pub mod Locks
pub mod Calls
pub mod Kept
pub mod Keeps
pub mod Delivery
pub mod Entries
pub mod Blocks
pub mod Rounds
pub mod Eventually
pub mod Vectors
pub mod Complete
pub mod Completions
pub mod Samples
mod Tests
use libfabric_provider_dpa.Prelude.{
  ℕ, zero, suc, ◌+◌, ◌-◌, Bool, true, false, ◌&&◌, List, [], ◌∷◌, ◌++◌, Option, none, some, ltb,
  ◌==◌, if◌then◌else◌, length, add64,
}
use libfabric_provider_dpa.Prelude.Bytes.{load64}
use libfabric_provider_dpa.Fabric.{Errno, Ret, ok, err, success, again, inval, too_small}
use libfabric_provider_dpa.Cq.{Cq, CqErrEntry, CompFlags, blank_entry, cq_add}
use libfabric_provider_dpa.Cq.CompFlags.{msg_recv, msg_send}
use libfabric_provider_dpa.Cntr.{Cntr, dpa_cntr_inc, dpa_cntr_err_inc}
use libfabric_provider_dpa.Ring.{
  Link, Buffer, buffer_word, recv_read_ptr, read_msg, write_msg, remote_space,
}

-- `msg_queue_entry`, without its `ep`; `buf_addr` is the address that `buffer.buf` stands at.
pub record MsgQueueEntry : Type 0 where
  pub buffer : Buffer
  pub buf_addr : ℕ
  pub flags : ℕ
  pub context : ℕ

-- The fields of `dpa_fid_ep` that messages use. Completion queues and counters are named by
-- numbers, as two fields may point at one object. The free lists are given by their lengths, and
-- `batches` is the length of `free_entries_ptrs`. `filled` lists what receives have left in the
-- users' buffers: address and bytes, oldest first.
pub record Ep : Type 0 where
  pub connected : Bool
  pub lock_needed : Bool
  pub send_queue : List MsgQueueEntry
  pub recv_queue : List MsgQueueEntry
  pub send_free : ℕ
  pub recv_free : ℕ
  pub batches : ℕ
  pub send_locked : Bool
  pub recv_locked : Bool
  pub send_cq : Option ℕ
  pub recv_cq : Option ℕ
  pub send_cntr : Option ℕ
  pub recv_cntr : Option ℕ
  pub cqs : ℕ → Cq
  pub cntrs : ℕ → Cntr
  pub filled : List (ℕ × List ℕ)

abbrev pub update {ℓ} : {A : Type ℓ} → (ℕ → A) → ℕ → A → ℕ → A
update f k v i = if i == k then v else f i

abbrev pub complete : Option ℕ → CqErrEntry → Ep → Ep
complete none entry ep = ep
complete (some id) entry ep = record ep { cqs = update ep.cqs id (cq_add entry (ep.cqs id)) }

abbrev pub count : Option ℕ → (Cntr → Cntr) → Ep → Ep
count none inc ep = ep
count (some id) inc ep = record ep { cntrs = update ep.cntrs id (inc (ep.cntrs id)) }

-- The completion of a receive of `copied` bytes of a message of `msg_size`.
abbrev pub recv_completion : MsgQueueEntry → ℕ → ℕ → CqErrEntry
recv_completion entry copied msg_size = record {
  op_context = entry.context;
  flags = msg_recv;
  len = copied;
  buf = entry.buf_addr;
  comp_data = 0;
  error = if ltb copied msg_size then some too_small else none;
  olen = msg_size - copied;
}

abbrev pub send_completion : MsgQueueEntry → CqErrEntry
send_completion entry = record blank_entry { op_context = entry.context; flags = msg_send }

-- What `try_recv` does to the endpoint once `read_msg` has filled the buffer with `bytes`.
unfoldable pub received : MsgQueueEntry → List ℕ → ℕ → Ep → Ep
received entry bytes msg_size ep =
    count ep.recv_cntr (if ltb (length bytes) msg_size then dpa_cntr_err_inc else dpa_cntr_inc) (
      complete ep.recv_cq (recv_completion entry (length bytes) msg_size)
        (record ep { filled = ep.filled ++ ((entry.buf_addr, bytes) ∷ []) }))

unfoldable pub try_recv : MsgQueueEntry → Ep → Link → Ret × Ep × Link
unfolding recv_read_ptr
try_recv entry ep l =
    let msg_size = load64 l.mem (recv_read_ptr l.recv) in
    let (bytes, l') = read_msg entry.buffer.len l in
    if msg_size == 0 then (err again, ep, l) else (success, received entry bytes msg_size ep, l')

unfoldable pub sent : MsgQueueEntry → Ep → Ep
sent entry ep = count ep.send_cntr dpa_cntr_inc (complete ep.send_cq (send_completion entry) ep)

unfoldable pub try_send : MsgQueueEntry → Ep → Link → Ret × Ep × Link
try_send entry ep l =
    let needed_space = add64 entry.buffer.len buffer_word in
    if ltb (remote_space l) needed_space
    then (err again, ep, l)
    else (success, sent entry ep, write_msg entry.buffer l)

-- MSG_QUEUE_ENTRIES_BATCH_SIZE
abbrev pub batch_size : ℕ
batch_size = 512

-- `create_msg_queue_entries` and `get_free_entry`: the free entries left after one is taken, and
-- the number of batches.
unfoldable pub get_free_entry : ℕ → ℕ → ℕ × ℕ
get_free_entry zero batches = (batch_size - 1, batches + 1)
get_free_entry (suc free) batches = (free, batches)

-- Which of the two queues of an endpoint.
pub data Side : Type 0 where
  sending receiving : Side

abbrev pub queue : Side → Ep → List MsgQueueEntry
queue sending ep = ep.send_queue
queue receiving ep = ep.recv_queue

abbrev pub set_queue : Side → List MsgQueueEntry → Ep → Ep
set_queue sending q ep = record ep { send_queue = q }
set_queue receiving q ep = record ep { recv_queue = q }

-- `lock_if_needed`: `none` when the lock is held, as the caller then waits for it.
unfoldable pub lock_if_needed : Side → Ep → Option Ep
lock_if_needed sending ep =
    if ep.lock_needed
    then if ep.send_locked then none else some (record ep { send_locked = true })
    else some ep
lock_if_needed receiving ep =
    if ep.lock_needed
    then if ep.recv_locked then none else some (record ep { recv_locked = true })
    else some ep

unfoldable pub unlock_if_needed : Side → Ep → Ep
unlock_if_needed sending ep = if ep.lock_needed then record ep { send_locked = false } else ep
unlock_if_needed receiving ep = if ep.lock_needed then record ep { recv_locked = false } else ep

unfoldable pub dpa_msg_enqueue : Side → MsgQueueEntry → Ep → Ep
unfolding get_free_entry unlock_if_needed
dpa_msg_enqueue sending msg ep =
    let (free, batches) = get_free_entry ep.send_free ep.batches in
    unlock_if_needed sending
      (record ep { send_queue = ep.send_queue ++ (msg ∷ []); send_free = free; batches = batches })
dpa_msg_enqueue receiving msg ep =
    let (free, batches) = get_free_entry ep.recv_free ep.batches in
    unlock_if_needed receiving
      (record ep { recv_queue = ep.recv_queue ++ (msg ∷ []); recv_free = free; batches = batches })

abbrev pub is_empty : List MsgQueueEntry → Bool
is_empty [] = true
is_empty (e ∷ es) = false

-- The part of `_dpa_recv` and `_dpa_send` under the lock: `ready` says whether to try at once, and
-- the lock is released only where the request is enqueued.
abbrev pub post : Side → MsgQueueEntry → Bool → Ret × Ep × Link → Ep → Link → Ret × Ep × Link
post side entry false tried ep l = (success, dpa_msg_enqueue side entry ep, l)
post side entry true (ok n, ep', l') ep l = (success, ep', l')
post side entry true (err again, ep', l') ep l = (success, dpa_msg_enqueue side entry ep', l')
post side entry true (err e, ep', l') ep l = (success, ep', l')

unfoldable pub dpa_recv : MsgQueueEntry → Ep → Link → Option (Ret × Ep × Link)
unfolding lock_if_needed try_recv dpa_msg_enqueue
dpa_recv entry ep l = elim (lock_if_needed receiving ep) [
  | none ↦ none
  | some ep1 ↦
      some (
        post receiving entry (is_empty ep1.recv_queue && ep1.connected) (try_recv entry ep1 l) ep1
          l)
]

unfoldable pub dpa_send : MsgQueueEntry → Ep → Link → Option (Ret × Ep × Link)
unfolding lock_if_needed try_send dpa_msg_enqueue
dpa_send request ep l =
    let entry : MsgQueueEntry = record request { flags = 0 } in
    elim (lock_if_needed sending ep) [
      | none ↦ none
      | some ep1 ↦ some (post sending entry (is_empty ep1.send_queue) (try_send entry ep1 l) ep1 l)
    ]

-- The loop of `process_recv_queue` over the requests that wait: a request that is done goes to the
-- free entries, and `loop` is the rest of the rounds.
abbrev pub recv_next : (Ep → Link → Ep × Link) → List MsgQueueEntry → Ret × Ep × Link → Ep × Link
recv_next loop rest (ok n, ep, l) =
    loop (record ep { recv_queue = rest; recv_free = ep.recv_free + 1 }) l
recv_next loop rest (err e, ep, l) = (ep, l)

unfoldable pub recv_loop : List MsgQueueEntry → Ep → Link → Ep × Link
recv_loop [] ep l = (ep, l)
recv_loop (head ∷ rest) ep l = recv_next (recv_loop rest) rest (try_recv head ep l)

-- The loop of `process_send_queue`.
abbrev pub send_next : (Ep → Link → Ep × Link) → List MsgQueueEntry → Ret × Ep × Link → Ep × Link
send_next loop rest (ok n, ep, l) =
    loop (record ep { send_queue = rest; send_free = ep.send_free + 1 }) l
send_next loop rest (err e, ep, l) = (ep, l)

unfoldable pub send_loop : List MsgQueueEntry → Ep → Link → Ep × Link
send_loop [] ep l = (ep, l)
send_loop (head ∷ rest) ep l = send_next (send_loop rest) rest (try_send head ep l)

abbrev pub process_queue :
    Side → (List MsgQueueEntry → Ep → Link → Ep × Link) → Bool → Ep → Link → Option (Ep × Link)
process_queue side loop locked ep l =
    if ep.connected
    then if locked
      then some (finish ep)
      else if is_empty (queue side ep)
      then some (ep, l)
      else elim (lock_if_needed side ep) [ none ↦ none | some ep1 ↦ some (finish ep1) ]
    else some (if locked then unlock_if_needed side ep else ep, l)
  where
    finish : Ep → Ep × Link
    finish ep1 = let (ep2, l2) = loop (queue side ep1) ep1 l in (unlock_if_needed side ep2, l2)

unfoldable pub process_recv_queue : Bool → Ep → Link → Option (Ep × Link)
unfolding recv_loop lock_if_needed unlock_if_needed
process_recv_queue locked ep l = process_queue receiving recv_loop locked ep l

unfoldable pub process_send_queue : Bool → Ep → Link → Option (Ep × Link)
unfolding send_loop lock_if_needed unlock_if_needed
process_send_queue locked ep l = process_queue sending send_loop locked ep l
