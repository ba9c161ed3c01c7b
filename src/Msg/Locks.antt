-- ===== src/Msg/Locks.antt =====
-- The locks of an endpoint whose domain needs them, around requests that are served at once.
use libfabric_provider_dpa.Prelude.{
  inl, inr, ◌&&◌, ℕ, ◌+◌, ◌^◌, ◌<◌, ◌≤◌, ◌≡◌, ◌∙◌, refl, ap, Bool, true, false, List, [], ◌∷◌, none,
  some, arith, length,
}
use libfabric_provider_dpa.Fabric.{success}
use libfabric_provider_dpa.Ring.{Link, read_msg}
use libfabric_provider_dpa.Ring.View.{Holds}
use libfabric_provider_dpa.Msg.{
  MsgQueueEntry, Ep, sending, receiving, dpa_send, dpa_recv, lock_if_needed, is_empty, received,
  sent,
}
use libfabric_provider_dpa.Msg.Queues.{received-fields, sent-fields}
use libfabric_provider_dpa.Msg.Send.{try_send_lem}
use libfabric_provider_dpa.Ring.View.{image}
use libfabric_provider_dpa.Ring.{write_msg}
use libfabric_provider_dpa.Msg.Recv.{try_recv-message}

held :
    (ep : Ep) → ep.lock_needed ≡ true → ep.recv_locked ≡ true → lock_if_needed receiving ep ≡ none
unfolding lock_if_needed
held ep n r = ground arith

taken :
    (ep : Ep)
    → ep.lock_needed ≡ true
    → ep.recv_locked ≡ false
    → lock_if_needed receiving ep ≡ some (record ep { recv_locked = true })
unfolding lock_if_needed
taken ep n r = ground arith

held_send :
    (ep : Ep) → ep.lock_needed ≡ true → ep.send_locked ≡ true → lock_if_needed sending ep ≡ none
unfolding lock_if_needed
held_send ep n r = ground arith

taken_send :
    (ep : Ep)
    → ep.lock_needed ≡ true
    → ep.send_locked ≡ false
    → lock_if_needed sending ep ≡ some (record ep { send_locked = true })
unfolding lock_if_needed
taken_send ep n r = ground arith

at_once : (q : List MsgQueueEntry) (b : Bool) → q ≡ [] → b ≡ true → (is_empty q && b) ≡ true
at_once q b e on = rw (e, on) refl

-- A receive on a connected endpoint whose domain needs locks, with no receive that waits, an open
-- lock and a message in the buffer that fits: it succeeds and returns with the lock still held, so
-- that every further receive on the endpoint waits for the lock for ever.
pub dpa_recv-leaks :
    (entry next : MsgQueueEntry) (ep : Ep) (l l' : Link) (m : List ℕ) (q : List (List ℕ))
    → ep.lock_needed ≡ true
    → ep.recv_locked ≡ false
    → ep.recv_queue ≡ []
    → ep.connected ≡ true
    → Holds l (m ∷ q)
    → 0 < length m
    → length m ≤ entry.buffer.len
    → let after = received entry m (length m) (record ep { recv_locked = true }) in
      (dpa_recv entry ep l ≡ some (success, after, (read_msg entry.buffer.len l).1))
      × (dpa_recv next after l' ≡ none)
unfolding dpa_recv
dpa_recv-leaks entry next ep l l' m q needed unlocked none_waits on holds some_bytes fits =
    let ep1 : Ep = record ep { recv_locked = true } in
    let t = try_recv-message entry ep1 l m q holds some_bytes fits in
    let f = received-fields entry m (length m) ep1 in
    (
      rw (dpa_recv, taken ep needed unlocked, at_once ep.recv_queue ep.connected none_waits on, t.0)
          refl,
      rw (dpa_recv, held (received entry m (length m) ep1) (f.1 ∙ needed) f.2) refl,
    )

-- The same for a send: on an endpoint whose domain needs locks, with no send that waits, an open
-- lock and room for the message, it succeeds and returns with the lock still held, so that every
-- further send on the endpoint waits for the lock for ever.
pub dpa_send-leaks :
    (request next : MsgQueueEntry) (ep : Ep) (l l' : Link) (q : List (List ℕ))
    → ep.lock_needed ≡ true
    → ep.send_locked ≡ false
    → ep.send_queue ≡ []
    → Holds l q
    → request.buffer.len ≡ length request.buffer.buf
    → request.buffer.len < 2 ^ 63
    → 8 + request.buffer.len + length (image q) ≤ l.send.size
    → let after = sent (record request { flags = 0 }) (record ep { send_locked = true }) in
      (dpa_send request ep l ≡ some (success, after, write_msg request.buffer l))
      × (dpa_send next after l' ≡ none)
unfolding dpa_send
dpa_send-leaks request next ep l l' q needed unlocked none_waits holds len small room =
    let ep1 : Ep = record ep { send_locked = true } in
    let entry : MsgQueueEntry = record request { flags = 0 } in
    let f = sent-fields entry ep1 in
    (
      elim (try_send_lem entry ep1 l q holds len small) [
        | inl (fits, done, holds') ↦
            rw (dpa_send, taken_send ep needed unlocked, ap is_empty none_waits, done) refl
        | inr (full, refused) ↦ absurd (omega arith)
      ],
      rw (dpa_send, held_send (sent entry ep1) (f.1 ∙ needed) f.2) refl,
    )
