-- ===== src/Msg/Keeps.antt =====
-- What a call of the two endpoints leaves as it was, and how many receives it posts.
use libfabric_provider_dpa.Prelude.{
  ℕ, ◌+◌, ◌≡◌, ◌∙◌, inl, inr, refl, ap, Bool, true, false, ◌&&◌, [], ◌∷◌, ◌++◌, some, arith,
  length-append,
}
use libfabric_provider_dpa.Fabric.{Ret, success}
use libfabric_provider_dpa.Ring.{Link, write_msg}
use libfabric_provider_dpa.Msg.{
  MsgQueueEntry, Ep, sending, receiving, post, dpa_send, dpa_recv, dpa_msg_enqueue, is_empty, sent,
  try_send, try_recv, send_loop, recv_loop, process_send_queue, process_recv_queue,
}
use libfabric_provider_dpa.Msg.Queues.{sent-fields, received-fields}
use libfabric_provider_dpa.Msg.Post.{lock-free}
use libfabric_provider_dpa.Msg.Kept.{
  receives, try_send-cases, try_recv-cases, send_loop-Kept, recv_loop-Kept,
}
use libfabric_provider_dpa.Msg.Calls.{
  System, Op, post_send, post_recv, progress_send, progress_recv, posted_send, posted_recv,
  ran_send, ran_recv, call, process_queue_lem,
}

-- What posting `n` receives does.
record Posts (n : ℕ) (ep : Ep) (l : Link) (t : Ret × Ep × Link) : Type 0 where
  on : t.1.connected ≡ ep.connected
  size : t.2.send.size ≡ l.send.size
  posted : receives t.1 ≡ receives ep + n

enqueue_recv-fields :
    (e : MsgQueueEntry) (ep : Ep)
    → ((dpa_msg_enqueue receiving e ep).connected ≡ ep.connected)
      × ((dpa_msg_enqueue receiving e ep).filled ≡ ep.filled)
      × ((dpa_msg_enqueue receiving e ep).recv_queue ≡ ep.recv_queue ++ (e ∷ []))
unfolding dpa_msg_enqueue
enqueue_recv-fields e ep = ground arith

enqueue_recv-Posts :
    (e : MsgQueueEntry) (ep : Ep) (l : Link)
    → Posts 1 ep l (success, dpa_msg_enqueue receiving e ep, l)
enqueue_recv-Posts e ep l =
    let fields = enqueue_recv-fields e ep in
    record {
      on = fields.0;
      size = refl;
      posted = rw (fields.1, fields.2, length-append ep.recv_queue (e ∷ [])) (omega arith);
    }

post_recv-Posts :
    (e : MsgQueueEntry) (ready : Bool) (ep : Ep) (l : Link)
    → Posts 1 ep l (post receiving e ready (try_recv e ep l) ep l)
post_recv-Posts e false ep l = enqueue_recv-Posts e ep l
post_recv-Posts e true ep l = elim (try_recv-cases e ep l) [
  | inl refused ↦ rw refused (enqueue_recv-Posts e ep l)
  | inr (bytes, size, l', done, same) ↦
      let fields = received-fields e bytes size ep in
      rw done (record {
        on = fields.3;
        size = same;
        posted =
            rw (fields.4, fields.0, length-append ep.filled ((e.buf_addr, bytes) ∷ []))
              (omega arith);
      })
]

enqueue_send-Posts :
    (e : MsgQueueEntry) (ep : Ep) (l : Link)
    → Posts 0 ep l (success, dpa_msg_enqueue sending e ep, l)
unfolding dpa_msg_enqueue
enqueue_send-Posts e ep l = record { on = ground arith; size = refl; posted = ground arith }

post_send-Posts :
    (e : MsgQueueEntry) (ready : Bool) (ep : Ep) (l : Link)
    → Posts 0 ep l (post sending e ready (try_send e ep l) ep l)
unfolding sent write_msg
post_send-Posts e false ep l = enqueue_send-Posts e ep l
post_send-Posts e true ep l = elim (try_send-cases e ep l) [
  | inl refused ↦ rw refused (enqueue_send-Posts e ep l)
  | inr done ↦ rw done (record { on = (sent-fields e ep).3; size = refl; posted = ground arith })
]

pub dpa_send-free :
    (e : MsgQueueEntry) (ep : Ep) (l : Link)
    → ep.lock_needed ≡ false
    → let entry : MsgQueueEntry = record e { flags = 0 } in
      dpa_send e ep l
      ≡ some (post sending entry (is_empty ep.send_queue) (try_send entry ep l) ep l)
unfolding dpa_send
dpa_send-free e ep l free = rw (dpa_send, lock-free sending ep free) refl

pub dpa_recv-free :
    (e : MsgQueueEntry) (ep : Ep) (l : Link)
    → ep.lock_needed ≡ false
    → dpa_recv e ep l
      ≡ some (post receiving e (is_empty ep.recv_queue && ep.connected) (try_recv e ep l) ep l)
unfolding dpa_recv
dpa_recv-free e ep l free = rw (dpa_recv, lock-free receiving ep free) refl

-- What a call on two endpoints that need no locks leaves as it was; `n` receives are posted.
pub record Keeps (n : ℕ) (sys final : System) : Type 0 where
  pub sends_on : final.sender.connected ≡ sys.sender.connected
  pub receives_on : final.receiver.connected ≡ sys.receiver.connected
  pub size : final.link.send.size ≡ sys.link.send.size
  pub posted : receives final.receiver ≡ receives sys.receiver + n

-- The receives that a call posts.
abbrev pub receives_of : Op → ℕ
receives_of (post_send e) = 0
receives_of (post_recv e) = 1
receives_of progress_send = 0
receives_of progress_recv = 0

pub call-Keeps :
    (op : Op) (sys : System)
    → sys.sender.lock_needed ≡ false
    → sys.receiver.lock_needed ≡ false
    → (final : System) × (call op sys ≡ some final) × Keeps (receives_of op) sys final
unfolding call process_send_queue process_recv_queue
call-Keeps (post_send e) sys free_s free_r =
    let entry : MsgQueueEntry = record e { flags = 0 } in
    let ready = is_empty sys.sender.send_queue in
    let t = post sending entry ready (try_send entry sys.sender sys.link) sys.sender sys.link in
    let p = post_send-Posts entry ready sys.sender sys.link in
    (
      record sys { sender = t.1; link = t.2 },
      ap (posted_send sys) (dpa_send-free e sys.sender sys.link free_s),
      record { sends_on = p.on; receives_on = refl; size = p.size; posted = omega arith },
    )
call-Keeps (post_recv e) sys free_s free_r =
    let ready = is_empty sys.receiver.recv_queue && sys.receiver.connected in
    let t = post receiving e ready (try_recv e sys.receiver sys.link) sys.receiver sys.link in
    let p = post_recv-Posts e ready sys.receiver sys.link in
    (
      record sys { receiver = t.1; link = t.2 },
      ap (posted_recv sys) (dpa_recv-free e sys.receiver sys.link free_r),
      record { sends_on = refl; receives_on = p.on; size = p.size; posted = p.posted },
    )
call-Keeps progress_send sys free_s free_r =
    let kept = send_loop-Kept sys.sender.send_queue sys.sender sys.link in
    let p =
      process_queue_lem sending send_loop sys.sender sys.link
        (λ ep l. (ep.connected ≡ sys.sender.connected) × (l.send.size ≡ sys.link.send.size))
        sys.sender.connected sys.sender.send_queue refl refl free_s (kept.2 ∙ free_s)
        (kept.0, kept.1) (λ e. (refl, refl)) (λ e. (refl, refl)) in
    (
      record sys { sender = p.ep; link = p.link },
      ap (ran_send sys) p.returns,
      record { sends_on = p.state.0; receives_on = refl; size = p.state.1; posted = omega arith },
    )
call-Keeps progress_recv sys free_s free_r =
    let kept = recv_loop-Kept sys.receiver.recv_queue sys.receiver sys.link refl in
    let p =
      process_queue_lem receiving recv_loop sys.receiver sys.link
        (λ ep l.
          (ep.connected ≡ sys.receiver.connected)
          × (l.send.size ≡ sys.link.send.size)
          × (receives ep ≡ receives sys.receiver))
        sys.receiver.connected sys.receiver.recv_queue refl refl free_r (kept.3 ∙ free_r)
        (kept.0, kept.1, kept.2) (λ e. (refl, refl, refl)) (λ e. (refl, refl, refl)) in
    (
      record sys { receiver = p.ep; link = p.link },
      ap (ran_recv sys) p.returns,
      record {
        sends_on = refl;
        receives_on = p.state.0;
        size = p.state.1;
        posted = omega (arith, p.state.2);
      },
    )
