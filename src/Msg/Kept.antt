-- ===== src/Msg/Kept.antt =====
-- What the loops over the queues of requests leave as it was: that the endpoint is connected, the
-- size of the message buffer, and the number of receives that were posted.
use libfabric_provider_dpa.Prelude.{
  ℕ, ◌+◌, ◌≡◌, ◌∙◌, ◌⊎◌, inl, inr, Bool-cases, ltb, ◌==◌, ◌++◌, add64, length-append, refl, List,
  [], ◌∷◌, arith, length,
}
use libfabric_provider_dpa.Fabric.{err, success, again}
use libfabric_provider_dpa.Ring.{
  Link, buffer_word, recv_read_ptr, remote_space, write_msg, read_msg,
}
use libfabric_provider_dpa.Prelude.Bytes.{load64}
use libfabric_provider_dpa.Msg.{
  MsgQueueEntry, Ep, sent, received, try_send, try_recv, send_loop, recv_loop,
}
use libfabric_provider_dpa.Msg.Queues.{sent-fields, received-fields}

-- The receives that have been done, and those that wait.
abbrev pub receives : Ep → ℕ
receives ep = length ep.filled + length ep.recv_queue

-- Either nothing has been received and nothing changes, or the request is done.
pub try_recv-cases :
    (e : MsgQueueEntry) (ep : Ep) (l : Link)
    → (try_recv e ep l ≡ (err again, ep, l))
      ⊎ (bytes : List ℕ) × (size : ℕ) × (l' : Link) × (try_recv e ep l
          ≡ (success, received e bytes size ep, l'))
        × (l'.send.size ≡ l.send.size)
unfolding try_recv read_msg
try_recv-cases e ep l = elim (Bool-cases (load64 l.mem (recv_read_ptr l.recv) == 0)) [
  | inl none ↦ inl (rw none refl)
  | inr some ↦ inr (
    (read_msg e.buffer.len l).0,
    load64 l.mem (recv_read_ptr l.recv),
    (read_msg e.buffer.len l).1,
    rw some refl,
    refl,
  )
]

pub try_send-cases :
    (e : MsgQueueEntry) (ep : Ep) (l : Link)
    → (try_send e ep l ≡ (err again, ep, l))
      ⊎ (try_send e ep l ≡ (success, sent e ep, write_msg e.buffer l))
unfolding try_send
try_send-cases e ep l = elim (Bool-cases (ltb (remote_space l) (add64 e.buffer.len buffer_word))) [
  | inl full ↦ inl (rw full refl)
  | inr room ↦ inr (rw room refl)
]

one_moved :
    (fs : List (ℕ × List ℕ)) (q : List MsgQueueEntry) (x : MsgQueueEntry) (xs : List MsgQueueEntry)
    (bytes : List ℕ) (fs' : List (ℕ × List ℕ))
    → q ≡ x ∷ xs
    → fs' ≡ fs ++ ((x.buf_addr, bytes) ∷ [])
    → length fs' + length xs ≡ length fs + length q
one_moved fs q x xs bytes fs' e f =
    rw (e, f, length-append fs ((x.buf_addr, bytes) ∷ [])) (omega arith)

pub send_loop-Kept :
    (rest : List MsgQueueEntry) (ep : Ep) (l : Link)
    → ((send_loop rest ep l).0.connected ≡ ep.connected)
      × ((send_loop rest ep l).1.send.size ≡ l.send.size)
      × ((send_loop rest ep l).0.lock_needed ≡ ep.lock_needed)
unfolding send_loop write_msg
send_loop-Kept [] ep l = (refl, refl, refl)
send_loop-Kept (x ∷ xs) ep l = elim (try_send-cases x ep l) [
  | inl refused ↦ rw refused (refl, refl, refl)
  | inr done ↦
      let next =
        send_loop-Kept xs
          (record (sent x ep) { send_queue = xs; send_free = (sent x ep).send_free + 1 })
          (write_msg x.buffer l) in
      rw done (next.0 ∙ (sent-fields x ep).3, next.1, next.2 ∙ (sent-fields x ep).1)
]

pub recv_loop-Kept :
    (rest : List MsgQueueEntry) (ep : Ep) (l : Link)
    → ep.recv_queue ≡ rest
    → ((recv_loop rest ep l).0.connected ≡ ep.connected)
      × ((recv_loop rest ep l).1.send.size ≡ l.send.size)
      × (receives (recv_loop rest ep l).0 ≡ receives ep)
      × ((recv_loop rest ep l).0.lock_needed ≡ ep.lock_needed)
unfolding recv_loop
recv_loop-Kept [] ep l e = (refl, refl, refl, refl)
recv_loop-Kept (x ∷ xs) ep l e = elim (try_recv-cases x ep l) [
  | inl refused ↦ rw refused (refl, refl, refl, refl)
  | inr (bytes, size, l', done, same) ↦
      let ep' = received x bytes size ep in
      let next =
        recv_loop-Kept xs (record ep' { recv_queue = xs; recv_free = ep'.recv_free + 1 }) l' refl in
      rw done (
        next.0 ∙ (received-fields x bytes size ep).3,
        next.1 ∙ same,
        next.2
            ∙ one_moved ep.filled ep.recv_queue x xs bytes ep'.filled e
                (received-fields x bytes size ep).4,
        next.3 ∙ (received-fields x bytes size ep).1,
      )
]
