-- ===== src/Msg/Completions.antt =====
-- The completions of the sends of an endpoint, whatever its peer does to the message buffer.
use libfabric_provider_dpa.Prelude.{
  ℕ, ◌+◌, ◌≡◌, ◌∙◌, ◌⊎◌, inl, inr, refl, sym, ap, subst, true, false, List, [], ◌∷◌, ◌++◌, Option,
  none, some, arith,
}
use mathlib.Core.List.{append-nil, append_assoc}
use libfabric_provider_dpa.Fabric.{Ret, err, success, again}
use libfabric_provider_dpa.Ring.{Link}
use libfabric_provider_dpa.Msg.{
  MsgQueueEntry, Ep, sending, dpa_send, dpa_msg_enqueue, post, is_empty, process_send_queue,
  send_loop, send_next, try_send,
}
use libfabric_provider_dpa.Msg.Post.{lock-free}
use libfabric_provider_dpa.Msg.Calls.{Ran, process_queue_lem}
use libfabric_provider_dpa.Msg.Complete.{
  completed, contexts, event_contexts, contexts-append, Done, try_send-Done,
}

-- Sends complete in queue `id`, no lock is needed, and the contexts of the sends completed and then
-- those of the sends that wait are `all`.
pub record Accounts (id : ℕ) (all : List ℕ) (ep : Ep) : Type 0 where
  pub to_cq : ep.send_cq ≡ some id
  pub no_lock : ep.lock_needed ≡ false
  pub total : completed id ep ++ contexts ep.send_queue ≡ all

send_next-Accounts :
    (e : MsgQueueEntry) (rest : List MsgQueueEntry) (id : ℕ) (all : List ℕ) (ep : Ep) (l : Link)
    (tried : Ret × Ep × Link)
    → ep.send_queue ≡ e ∷ rest
    → Accounts id all ep
    → (tried ≡ (err again, ep, l))
      ⊎ ((ep' : Ep) × (l' : Link) × (tried ≡ (success, ep', l')) × Done e id ep ep')
    → ((ep' : Ep) (l' : Link)
        → ep'.send_queue ≡ rest
        → Accounts id all ep'
        → Accounts id all (send_loop rest ep' l').0)
    → Accounts id all (send_next (send_loop rest) rest tried).0
send_next-Accounts e rest id all ep l tried q a (inl stays) later =
    subst (λ t. Accounts id all (send_next (send_loop rest) rest t).0) (sym stays) a
send_next-Accounts e rest id all ep l tried q a (inr (ep', l', done, d)) later =
    subst (λ t. Accounts id all (send_next (send_loop rest) rest t).0) (sym done)
      (later (record ep' { send_queue = rest; send_free = ep'.send_free + 1 }) l' refl
        (record {
          to_cq = d.cq_kept ∙ a.to_cq;
          no_lock = d.lock_kept ∙ a.no_lock;
          total =
              ap (λ cs. cs ++ contexts rest) d.one_more
              ∙ append_assoc (completed id ep) (e.context ∷ []) (contexts rest)
              ∙ ap (λ q. completed id ep ++ contexts q) (sym q)
              ∙ a.total;
        }))

send_loop-Accounts :
    (q : List MsgQueueEntry) (id : ℕ) (all : List ℕ) (ep : Ep) (l : Link)
    → ep.send_queue ≡ q
    → Accounts id all ep
    → Accounts id all (send_loop q ep l).0
unfolding send_loop
send_loop-Accounts [] id all ep l e a = a
send_loop-Accounts (x ∷ rest) id all ep l e a =
    send_next-Accounts x rest id all ep l (try_send x ep l) e a (try_send-Done x id ep l a.to_cq)
      (λ ep' l'. send_loop-Accounts rest id all ep' l')

process_send_queue-Accounts :
    (id : ℕ) (all : List ℕ) (ep : Ep) (l : Link)
    → Accounts id all ep
    → Ran (process_send_queue false ep l) (λ ep' l'. Accounts id all ep')
unfolding process_send_queue
process_send_queue-Accounts id all ep l a =
    let done = send_loop-Accounts ep.send_queue id all ep l refl a in
    process_queue_lem sending send_loop ep l (λ ep' l'. Accounts id all ep') ep.connected
      ep.send_queue refl refl a.no_lock done.no_lock done (λ e. a) (λ e. a)

enqueue-Accounts :
    (e : MsgQueueEntry) (id : ℕ) (all : List ℕ) (ep : Ep)
    → Accounts id all ep
    → Accounts id (all ++ (e.context ∷ [])) (dpa_msg_enqueue sending e ep)
unfolding dpa_msg_enqueue
enqueue-Accounts e id all ep a =
    let ep' : Ep = dpa_msg_enqueue sending e ep in
    let queued : ep'.send_queue ≡ ep.send_queue ++ (e ∷ []) = ground (arith, a.no_lock) in
    let same : ep'.cqs ≡ ep.cqs = ground (arith, a.no_lock) in
    record {
      to_cq = ground (arith, a.to_cq, a.no_lock);
      no_lock = ground (arith, a.no_lock);
      total =
          ap (λ c. event_contexts (c id).event_queue ++ contexts ep'.send_queue) same
          ∙ ap (λ q. completed id ep ++ contexts q) queued
          ∙ ap (λ cs. completed id ep ++ cs) (contexts-append ep.send_queue e)
          ∙ sym (append_assoc (completed id ep) (contexts ep.send_queue) (e.context ∷ []))
          ∙ ap (λ cs. cs ++ (e.context ∷ [])) a.total;
    }

-- What a call of `dpa_send` leaves.
pub record Returned (r : Option (Ret × Ep × Link)) (P : Ep → Type 0) : Type 0 where
  pub ret : Ret
  pub ep : Ep
  pub link : Link
  pub returns : r ≡ some (ret, ep, link)
  pub state : P ep

post-Accounts :
    (e : MsgQueueEntry) (id : ℕ) (all : List ℕ) (ep : Ep) (l : Link) (q : List MsgQueueEntry)
    (tried : Ret × Ep × Link)
    → ep.send_queue ≡ q
    → Accounts id all ep
    → (tried ≡ (err again, ep, l))
      ⊎ ((ep' : Ep) × (l' : Link) × (tried ≡ (success, ep', l')) × Done e id ep ep')
    → Returned
        (some (post sending e (is_empty q) tried ep l))
        (Accounts id (all ++ (e.context ∷ [])))
post-Accounts e id all ep l (x ∷ q) tried waits a outcome = record {
  ret = success;
  ep = dpa_msg_enqueue sending e ep;
  link = l;
  returns = refl;
  state = enqueue-Accounts e id all ep a;
}
post-Accounts e id all ep l [] tried waits a (inl stays) = record {
  ret = success;
  ep = dpa_msg_enqueue sending e ep;
  link = l;
  returns = ap (λ t. some (post sending e true t ep l)) stays;
  state = enqueue-Accounts e id all ep a;
}
post-Accounts e id all ep l [] tried waits a (inr (ep', l', done, d)) = record {
  ret = success;
  ep = ep';
  link = l';
  returns = ap (λ t. some (post sending e true t ep l)) done;
  state = record {
    to_cq = d.cq_kept ∙ a.to_cq;
    no_lock = d.lock_kept ∙ a.no_lock;
    total =
        ap (λ q. completed id ep' ++ contexts q) (d.queue_kept ∙ waits)
        ∙ append-nil (completed id ep')
        ∙ d.one_more
        ∙ ap (λ cs. cs ++ (e.context ∷ []))
            (sym (append-nil (completed id ep))
              ∙ ap (λ q. completed id ep ++ contexts q) (sym waits)
              ∙ a.total);
  };
}

dpa_send-Accounts :
    (request : MsgQueueEntry) (id : ℕ) (all : List ℕ) (ep : Ep) (l : Link)
    → Accounts id all ep
    → Returned (dpa_send request ep l) (Accounts id (all ++ (request.context ∷ [])))
unfolding dpa_send
dpa_send-Accounts request id all ep l a =
    let e : MsgQueueEntry = record request { flags = 0 } in
    rw (dpa_send, lock-free sending ep a.no_lock)
      (post-Accounts e id all ep l ep.send_queue (try_send e ep l) refl a
        (try_send-Done e id ep l a.to_cq))

-- The calls that send, each with the message buffer that it finds.
pub data SendCall : Type 0 where
  send : MsgQueueEntry → Link → SendCall
  progress : Link → SendCall

abbrev sent_then : (Ep → Option Ep) → Option (Ret × Ep × Link) → Option Ep
sent_then more none = none
sent_then more (some (r, ep, l)) = more ep

abbrev ran_then : (Ep → Option Ep) → Option (Ep × Link) → Option Ep
ran_then more none = none
ran_then more (some (ep, l)) = more ep

unfoldable pub send_calls : List SendCall → Ep → Option Ep
unfolding dpa_send process_send_queue
send_calls [] ep = some ep
send_calls (send e l ∷ ops) ep = sent_then (send_calls ops) (dpa_send e ep l)
send_calls (progress l ∷ ops) ep = ran_then (send_calls ops) (process_send_queue false ep l)

abbrev pub contexts_sent : List SendCall → List ℕ
contexts_sent [] = []
contexts_sent (send e l ∷ ops) = e.context ∷ contexts_sent ops
contexts_sent (progress l ∷ ops) = contexts_sent ops

-- On an endpoint that needs no lock and has a completion queue for sends, any run of sends and of
-- progress calls, each with the message buffer in any state, comes to an end, and afterwards
-- the contexts of the completions followed by those of the sends that wait are the ones of
-- before followed by those of the sends of the run, in order: each send completes once at most, in
-- the order of the calls, and is in the queue until it does.
pub send_calls-Accounts :
    (ops : List SendCall) (id : ℕ) (all : List ℕ) (ep : Ep)
    → Accounts id all ep
    → (ep' : Ep) × (send_calls ops ep ≡ some ep') × Accounts id (all ++ contexts_sent ops) ep'
unfolding send_calls
send_calls-Accounts [] id all ep a =
    (ep, refl, subst (λ cs. Accounts id cs ep) (sym (append-nil all)) a)
send_calls-Accounts (send e l ∷ ops) id all ep a =
    let p = dpa_send-Accounts e id all ep l a in
    let (ep', ends, a') = send_calls-Accounts ops id (all ++ (e.context ∷ [])) p.ep p.state in
    (
      ep',
      ap (sent_then (send_calls ops)) p.returns ∙ ends,
      subst (λ cs. Accounts id cs ep') (append_assoc all (e.context ∷ []) (contexts_sent ops)) a',
    )
send_calls-Accounts (progress l ∷ ops) id all ep a =
    let p = process_send_queue-Accounts id all ep l a in
    let (ep', ends, a') = send_calls-Accounts ops id all p.ep p.state in
    (ep', ap (ran_then (send_calls ops)) p.returns ∙ ends, a')
