-- ===== src/Msg/Complete.antt =====
-- A single send, and the completion that it adds to the queue of events.
use libfabric_provider_dpa.Prelude.{
  ℕ, ◌≡◌, ◌∙◌, ◌⊎◌, inl, inr, refl, sym, ap, subst, List, [], ◌∷◌, ◌++◌, Option, none, some, ltb,
  ==_iff, Bool-cases, if◌then◌else◌, add64,
}
use libfabric_provider_dpa.Fabric.{err, success, again}
use libfabric_provider_dpa.Cq.{Cq, CqEvent, cq_add, events}
use libfabric_provider_dpa.Cq.Fifo.{queue_of-cq_add_src}
use libfabric_provider_dpa.Cntr.{dpa_cntr_inc}
use libfabric_provider_dpa.Ring.{Link, buffer_word, remote_space, write_msg}
use libfabric_provider_dpa.Msg.{MsgQueueEntry, Ep, try_send, sent, send_completion, complete, count}

-- The contexts of the completions in the queue of events of completion queue `id`.
abbrev pub event_contexts : List CqEvent → List ℕ
event_contexts [] = []
event_contexts (e ∷ es) = e.entry.op_context ∷ event_contexts es

abbrev pub completed : ℕ → Ep → List ℕ
completed id ep = event_contexts (ep.cqs id).event_queue

abbrev pub contexts : List MsgQueueEntry → List ℕ
contexts [] = []
contexts (e ∷ es) = e.context ∷ contexts es

event_contexts-append :
    (es : List CqEvent) (e : CqEvent)
    → event_contexts (es ++ (e ∷ [])) ≡ event_contexts es ++ (e.entry.op_context ∷ [])
event_contexts-append [] e = refl
event_contexts-append (x ∷ es) e = ap (λ cs. x.entry.op_context ∷ cs) (event_contexts-append es e)

pub contexts-append :
    (es : List MsgQueueEntry) (e : MsgQueueEntry)
    → contexts (es ++ (e ∷ [])) ≡ contexts es ++ (e.context ∷ [])
contexts-append [] e = refl
contexts-append (x ∷ es) e = ap (λ cs. x.context ∷ cs) (contexts-append es e)

-- A send that is done adds its completion at the end.
pub record Done (e : MsgQueueEntry) (id : ℕ) (ep ep' : Ep) : Type 0 where
  pub cq_kept : ep'.send_cq ≡ ep.send_cq
  pub lock_kept : ep'.lock_needed ≡ ep.lock_needed
  pub queue_kept : ep'.send_queue ≡ ep.send_queue
  pub one_more : completed id ep' ≡ completed id ep ++ (e.context ∷ [])

completed-cq_add :
    (e : MsgQueueEntry) (cq : Cq)
    → event_contexts (cq_add (send_completion e) cq).event_queue
      ≡ event_contexts cq.event_queue ++ (e.context ∷ [])
unfolding cq_add
completed-cq_add e cq =
    ap event_contexts (queue_of-cq_add_src events (send_completion e) none cq)
    ∙ event_contexts-append cq.event_queue _

complete-Done :
    (e : MsgQueueEntry) (id : ℕ) (ep : Ep)
    → Done e id ep (complete (some id) (send_completion e) ep)
complete-Done e id ep = record {
  cq_kept = refl;
  lock_kept = refl;
  queue_kept = refl;
  one_more =
      ap
        (λ b.
          event_contexts
            (if b then cq_add (send_completion e) (ep.cqs id) else ep.cqs id).event_queue)
        ((==_iff id id).1 refl)
      ∙ completed-cq_add e (ep.cqs id);
}

count-Done :
    (e : MsgQueueEntry) (id : ℕ) (ep ep' : Ep) (cntr : Option ℕ)
    → Done e id ep ep'
    → Done e id ep (count cntr dpa_cntr_inc ep')
count-Done e id ep ep' none d = d
count-Done e id ep ep' (some c) d = record {
  cq_kept = d.cq_kept;
  lock_kept = d.lock_kept;
  queue_kept = d.queue_kept;
  one_more = d.one_more;
}

sent-Done : (e : MsgQueueEntry) (id : ℕ) (ep : Ep) → ep.send_cq ≡ some id → Done e id ep (sent e ep)
unfolding sent
sent-Done e id ep q =
    subst (λ o. Done e id ep (count ep.send_cntr dpa_cntr_inc (complete o (send_completion e) ep)))
      (sym q)
      (count-Done e id ep (complete (some id) (send_completion e) ep) ep.send_cntr
        (complete-Done e id ep))

pub try_send-Done :
    (e : MsgQueueEntry) (id : ℕ) (ep : Ep) (l : Link)
    → ep.send_cq ≡ some id
    → (try_send e ep l ≡ (err again, ep, l))
      ⊎ ((ep' : Ep) × (l' : Link) × (try_send e ep l ≡ (success, ep', l')) × Done e id ep ep')
unfolding try_send
try_send-Done e id ep l q =
    elim (Bool-cases (ltb (remote_space l) (add64 e.buffer.len buffer_word))) [
      | inl full ↦ inl (rw full refl)
      | inr room ↦ inr (sent e ep, write_msg e.buffer l, rw room refl, sent-Done e id ep q)
    ]
