-- ===== src/Msg/Recv.antt =====
-- `try_recv` on a message buffer that holds a queue of messages.
use libfabric_provider_dpa.Prelude.{
  ℕ, ◌+◌, ◌%◌, ◌<◌, ◌≤◌, ◌≡◌, ◌∙◌, sym, ap, false, List, [], ◌∷◌, arith, ◌==◌, length, take-length,
  sub64,
}
use libfabric_provider_dpa.Prelude.Bytes.{load64, load64-le_bytes, le_bytes-zero}
use libfabric_provider_dpa.Fabric.{err, success, again}
use libfabric_provider_dpa.Ring.{Link, read_msg}
use libfabric_provider_dpa.Ring.View.{image, Holds}
use libfabric_provider_dpa.Ring.Write.{slot_bounds, wrap_low}
use libfabric_provider_dpa.Ring.Read.{msg_size_lem, same_buffer, read_msg-delivers}
use libfabric_provider_dpa.Ring.Dequeue.{read_msg-Holds}
use libfabric_provider_dpa.Msg.{MsgQueueEntry, Ep, try_recv, received}

-- A message of no bytes at the head of the queue, or no message, reads as size 0.
size_of_none : (l : Link) → Holds l [] → load64 l.mem (l.recv.read % l.send.size) ≡ 0
unfolding image
size_of_none l holds = load64-le_bytes 0 l.mem _ (omega arith) λ j h.
    ap l.mem (sym (wrap_low _ l.send.size (omega (arith, slot))))
    ∙ holds.view j (omega (arith, slot))
    ∙ sym (le_bytes-zero 8 j)
  where
    slot : (l.recv.read % l.send.size + 8 ≤ l.send.size) × ((l.recv.read % l.send.size) % 8 ≡ 0)
    slot = slot_bounds l.recv.read holds.size holds.range.read_aligned holds.range.read_lt

-- With no message in the buffer `try_recv` answers -FI_EAGAIN and changes nothing.
pub try_recv-none :
    (entry : MsgQueueEntry) (ep : Ep) (l : Link)
    → Holds l []
    → try_recv entry ep l ≡ (err again, ep, l)
unfolding try_recv
try_recv-none entry ep l holds = rw (size, size_of_none l holds)
  where
    size : sub64 l.recv.buffer_size 8 ≡ l.send.size
    size = omega (arith, holds.same_size, holds.size)

-- A message of no bytes looks like no message: `try_recv` answers -FI_EAGAIN and changes nothing,
-- however many messages wait behind it.
pub try_recv-empty :
    (entry : MsgQueueEntry) (ep : Ep) (l : Link) (q : List (List ℕ))
    → Holds l ([] ∷ q)
    → try_recv entry ep l ≡ (err again, ep, l)
unfolding try_recv
try_recv-empty entry ep l q holds = rw (same_buffer l [] q 0 holds, msg_size_lem l [] q 0 holds)

-- `try_recv` into a buffer that is large enough delivers the oldest message whole, completes the
-- request without an error, and leaves the buffer holding the messages behind it.
pub try_recv-message :
    (entry : MsgQueueEntry) (ep : Ep) (l : Link) (m : List ℕ) (q : List (List ℕ))
    → Holds l (m ∷ q)
    → 0 < length m
    → length m ≤ entry.buffer.len
    → let l' = (read_msg entry.buffer.len l).1 in
      (try_recv entry ep l ≡ (success, received entry m (length m) ep, l')) × Holds l' q
unfolding try_recv
try_recv-message entry ep l m q holds some_bytes fits = (
  rw (
    same_buffer l m q entry.buffer.len holds,
    msg_size_lem l m q entry.buffer.len holds,
    not_empty,
    read_msg-delivers l m q entry.buffer.len holds,
    take-length entry.buffer.len m fits,
  ),
  read_msg-Holds l m q entry.buffer.len holds fits,
)
  where
    not_empty : (length m == 0) ≡ false
    not_empty = ground arith
