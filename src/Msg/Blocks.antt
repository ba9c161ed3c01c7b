-- ===== src/Msg/Blocks.antt =====
-- The calls on one endpoint, and `dpa_ep_close` of src/dpa_ep.c, which frees the blocks that the
-- queue entries lie in.
use libfabric_provider_dpa.Prelude.{
  ℕ, ◌+◌, ◌*◌, ◌≡◌, refl, ap, Bool, true, false, ◌&&◌, List, [], ◌∷◌, Option, none, some, length,
}
use libfabric_provider_dpa.Fabric.{Ret}
use libfabric_provider_dpa.Ring.{Link}
use libfabric_provider_dpa.Msg.{
  MsgQueueEntry, Ep, batch_size, sending, receiving, post, is_empty, try_send, try_recv, send_loop,
  recv_loop, dpa_send, dpa_recv, process_send_queue, process_recv_queue,
}
use libfabric_provider_dpa.Msg.Calls.{Ran, process_queue_lem}
use libfabric_provider_dpa.Msg.Keeps.{dpa_send-free, dpa_recv-free}
use libfabric_provider_dpa.Msg.Entries.{
  Accounted, send_loop-Accounted, recv_loop-Accounted, post_send-Accounted, post_recv-Accounted,
}

-- `dpa_ep_close`: the blocks that it frees, by whether the endpoint has the operations of messages.
unfoldable pub dpa_ep_close : Bool → Ep → ℕ
dpa_ep_close has_msg ep = elim has_msg [ true ↦ ep.batches | false ↦ 0 ]

-- The calls on one endpoint, each with the message buffer that it finds.
pub data EpCall : Type 0 where
  sends receives : MsgQueueEntry → Link → EpCall
  send_progress recv_progress : Link → EpCall

abbrev posted_ep : Option (Ret × Ep × Link) → Option Ep
posted_ep none = none
posted_ep (some (r, ep, l)) = some ep

abbrev ran_ep : Option (Ep × Link) → Option Ep
ran_ep none = none
ran_ep (some (ep, l)) = some ep

unfoldable pub ep_call : EpCall → Ep → Option Ep
unfolding dpa_send dpa_recv process_send_queue process_recv_queue
ep_call (sends e l) ep = posted_ep (dpa_send e ep l)
ep_call (receives e l) ep = posted_ep (dpa_recv e ep l)
ep_call (send_progress l) ep = ran_ep (process_send_queue false ep l)
ep_call (recv_progress l) ep = ran_ep (process_recv_queue false ep l)

unfoldable pub ep_calls : List EpCall → Ep → Option Ep
unfolding ep_call
ep_calls [] ep = some ep
ep_calls (c ∷ cs) ep = elim (ep_call c ep) [ none ↦ none | some ep' ↦ ep_calls cs ep' ]

-- A call that comes to an end.
record Left (r : Option Ep) : Type 0 where
  final : Ep
  returns : r ≡ some final
  state : Accounted final

process_send-Accounted :
    (ep : Ep) (l : Link)
    → Accounted ep
    → Ran (process_send_queue false ep l) (λ ep' l'. Accounted ep')
unfolding process_send_queue
process_send-Accounted ep l a =
    let done = send_loop-Accounted ep.send_queue ep l refl a in
    process_queue_lem sending send_loop ep l (λ ep' l'. Accounted ep') ep.connected ep.send_queue
      refl refl a.no_lock done.no_lock done (λ e. a) (λ e. a)

process_recv-Accounted :
    (ep : Ep) (l : Link)
    → Accounted ep
    → Ran (process_recv_queue false ep l) (λ ep' l'. Accounted ep')
unfolding process_recv_queue
process_recv-Accounted ep l a =
    let done = recv_loop-Accounted ep.recv_queue ep l refl a in
    process_queue_lem receiving recv_loop ep l (λ ep' l'. Accounted ep') ep.connected ep.recv_queue
      refl refl a.no_lock done.no_lock done (λ e. a) (λ e. a)

ep_call-Left : (c : EpCall) (ep : Ep) → Accounted ep → Left (ep_call c ep)
unfolding ep_call
ep_call-Left (sends e l) ep a =
    let entry : MsgQueueEntry = record e { flags = 0 } in
    let ready = is_empty ep.send_queue in
    record {
      final = (post sending entry ready (try_send entry ep l) ep l).1;
      returns = ap posted_ep (dpa_send-free e ep l a.no_lock);
      state = post_send-Accounted entry ready ep l a;
    }
ep_call-Left (receives e l) ep a =
    let ready = is_empty ep.recv_queue && ep.connected in
    record {
      final = (post receiving e ready (try_recv e ep l) ep l).1;
      returns = ap posted_ep (dpa_recv-free e ep l a.no_lock);
      state = post_recv-Accounted e ready ep l a;
    }
ep_call-Left (send_progress l) ep a =
    let p = process_send-Accounted ep l a in
    record { final = p.ep; returns = ap ran_ep p.returns; state = p.state }
ep_call-Left (recv_progress l) ep a =
    let p = process_recv-Accounted ep l a in
    record { final = p.ep; returns = ap ran_ep p.returns; state = p.state }

-- Any run of sends, receives and progress calls on an endpoint that needs no lock, with the
-- message buffers in any state at each call, comes to an end and loses no queue entry: closing the
-- endpoint frees as many blocks as hold the entries that wait and those that are free.
pub dpa_ep_close-ep_calls :
    (cs : List EpCall) (ep : Ep)
    → Accounted ep
    → (final : Ep) × (ep_calls cs ep ≡ some final)
      × (batch_size * dpa_ep_close true final
          ≡ final.send_free + final.recv_free + (length final.send_queue + length final.recv_queue))
unfolding ep_calls dpa_ep_close
dpa_ep_close-ep_calls [] ep a = (ep, refl, a.total)
dpa_ep_close-ep_calls (c ∷ cs) ep a =
    let first = ep_call-Left c ep a in
    let rest = dpa_ep_close-ep_calls cs first.final first.state in
    (rest.0, rw (ep_calls, first.returns) rest.1, rest.2)
