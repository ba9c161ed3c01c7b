-- ===== src/Msg/Entries.antt =====
-- The queue entries of one endpoint: each one waits in a queue or is free.
use libfabric_provider_dpa.Prelude.{
  ℕ, ◌+◌, ◌*◌, ◌≡◌, ◌∙◌, refl, ap, inl, inr, Bool, true, false, List, [], ◌∷◌, arith, length,
  length-append,
}
use libfabric_provider_dpa.Ring.{Link, write_msg}
use libfabric_provider_dpa.Msg.{
  MsgQueueEntry, Ep, batch_size, get_free_entry, sending, receiving, post, sent, received, try_send,
  try_recv, send_loop, recv_loop, dpa_msg_enqueue, unlock_if_needed,
}
use libfabric_provider_dpa.Msg.Queues.{sent-fields, received-fields}
use libfabric_provider_dpa.Msg.Kept.{try_send-cases, try_recv-cases}

-- Every entry waits in a queue or is free.
pub record Accounted (ep : Ep) : Type 0 where
  pub no_lock : ep.lock_needed ≡ false
  pub total :
      batch_size * ep.batches
      ≡ ep.send_free + ep.recv_free + (length ep.send_queue + length ep.recv_queue)

sent-counts :
    (e : MsgQueueEntry) (ep : Ep)
    → ((sent e ep).send_free ≡ ep.send_free)
      × ((sent e ep).recv_free ≡ ep.recv_free)
      × ((sent e ep).batches ≡ ep.batches)
      × ((sent e ep).recv_queue ≡ ep.recv_queue)
unfolding sent
sent-counts e ep = ground arith

received-counts :
    (e : MsgQueueEntry) (bytes : List ℕ) (size : ℕ) (ep : Ep)
    → ((received e bytes size ep).send_free ≡ ep.send_free)
      × ((received e bytes size ep).recv_free ≡ ep.recv_free)
      × ((received e bytes size ep).batches ≡ ep.batches)
      × ((received e bytes size ep).send_queue ≡ ep.send_queue)
unfolding received
received-counts e bytes size ep = ground arith

sent-Accounted : (e : MsgQueueEntry) (ep : Ep) → Accounted ep → Accounted (sent e ep)
sent-Accounted e ep a =
    let c = sent-counts e ep in
    let f = sent-fields e ep in
    record { no_lock = f.1 ∙ a.no_lock; total = rw (c.0, c.1, c.2, c.3, f.0) a.total }

received-Accounted :
    (e : MsgQueueEntry) (bytes : List ℕ) (size : ℕ) (ep : Ep)
    → Accounted ep
    → Accounted (received e bytes size ep)
received-Accounted e bytes size ep a =
    let c = received-counts e bytes size ep in
    let f = received-fields e bytes size ep in
    record { no_lock = f.1 ∙ a.no_lock; total = rw (c.0, c.1, c.2, c.3, f.0) a.total }

enqueue_send-Accounted :
    (e : MsgQueueEntry) (ep : Ep) → Accounted ep → Accounted (dpa_msg_enqueue sending e ep)
unfolding dpa_msg_enqueue get_free_entry unlock_if_needed
enqueue_send-Accounted e ep a = record {
  no_lock = ground (arith, a.no_lock);
  total = ground (arith, a.total, length-append ep.send_queue (e ∷ []));
}

enqueue_recv-Accounted :
    (e : MsgQueueEntry) (ep : Ep) → Accounted ep → Accounted (dpa_msg_enqueue receiving e ep)
unfolding dpa_msg_enqueue get_free_entry unlock_if_needed
enqueue_recv-Accounted e ep a = record {
  no_lock = ground (arith, a.no_lock);
  total = ground (arith, a.total, length-append ep.recv_queue (e ∷ []));
}

pub send_loop-Accounted :
    (q : List MsgQueueEntry) (ep : Ep) (l : Link)
    → ep.send_queue ≡ q
    → Accounted ep
    → Accounted (send_loop q ep l).0
unfolding send_loop
send_loop-Accounted [] ep l e a = a
send_loop-Accounted (x ∷ rest) ep l e a = elim (try_send-cases x ep l) [
  | inl refused ↦ rw refused a
  | inr done ↦
      let s = sent-Accounted x ep a in
      let queued = (sent-fields x ep).0 ∙ e in
      rw done (
        send_loop-Accounted rest
          (record (sent x ep) { send_queue = rest; send_free = (sent x ep).send_free + 1 })
          (write_msg x.buffer l) refl
          (record { no_lock = s.no_lock; total = omega (arith, s.total, ap length queued) }))
]

pub recv_loop-Accounted :
    (q : List MsgQueueEntry) (ep : Ep) (l : Link)
    → ep.recv_queue ≡ q
    → Accounted ep
    → Accounted (recv_loop q ep l).0
unfolding recv_loop
recv_loop-Accounted [] ep l e a = a
recv_loop-Accounted (x ∷ rest) ep l e a = elim (try_recv-cases x ep l) [
  | inl refused ↦ rw refused a
  | inr (bytes, size, l', done, same) ↦
      let ep' = received x bytes size ep in
      let r = received-Accounted x bytes size ep a in
      let queued = (received-fields x bytes size ep).0 ∙ e in
      rw done (
        recv_loop-Accounted rest (record ep' { recv_queue = rest; recv_free = ep'.recv_free + 1 })
          l' refl
          (record { no_lock = r.no_lock; total = omega (arith, r.total, ap length queued) }))
]

pub post_send-Accounted :
    (e : MsgQueueEntry) (ready : Bool) (ep : Ep) (l : Link)
    → Accounted ep
    → Accounted (post sending e ready (try_send e ep l) ep l).1
post_send-Accounted e false ep l a = enqueue_send-Accounted e ep a
post_send-Accounted e true ep l a = elim (try_send-cases e ep l) [
  | inl refused ↦ rw refused (enqueue_send-Accounted e ep a)
  | inr done ↦ rw done (sent-Accounted e ep a)
]

pub post_recv-Accounted :
    (e : MsgQueueEntry) (ready : Bool) (ep : Ep) (l : Link)
    → Accounted ep
    → Accounted (post receiving e ready (try_recv e ep l) ep l).1
post_recv-Accounted e false ep l a = enqueue_recv-Accounted e ep a
post_recv-Accounted e true ep l a = elim (try_recv-cases e ep l) [
  | inl refused ↦ rw refused (enqueue_recv-Accounted e ep a)
  | inr (bytes, size, l', done, same) ↦ rw done (received-Accounted e bytes size ep a)
]
