-- ===== src/Msg/Post.antt =====
-- Posting a request on an endpoint that needs no lock: it is served at once, or it waits.
use libfabric_provider_dpa.Prelude.{
  ℕ, ◌^◌, ◌<◌, ◌≡◌, ◌∙◌, inl, inr, refl, sym, ap, subst, Bool, true, false, ◌&&◌, List, [], ◌∷◌,
  ◌++◌, Option, some, arith, length, if◌then◌else◌,
}
use mathlib.Core.List.{append-nil, append_assoc}
use libfabric_provider_dpa.Fabric.{Ret, success}
use libfabric_provider_dpa.Ring.{Link, write_msg, read_msg}
use libfabric_provider_dpa.Ring.View.{Holds}
use libfabric_provider_dpa.Msg.{
  MsgQueueEntry, Ep, Side, sending, receiving, try_send, try_recv, sent, received, dpa_send,
  dpa_recv, dpa_msg_enqueue, lock_if_needed, is_empty, post, unlock_if_needed,
}
use libfabric_provider_dpa.Msg.Send.{try_send_lem}
use libfabric_provider_dpa.Msg.Recv.{try_recv-none, try_recv-message}
use libfabric_provider_dpa.Msg.Queues.{
  All, All-append, bytes_of, bytes_of-append, delivered, delivered-append, sent-fields,
  received-fields, IsMessage, IsRequest, IsLarge, Sending, Receiving,
}

pub lock-free : (side : Side) (ep : Ep) → ep.lock_needed ≡ false → lock_if_needed side ep ≡ some ep
unfolding lock_if_needed
lock-free sending ep h = rw (h, if◌then◌else◌) refl
lock-free receiving ep h = ground arith

pub unlock-free : (side : Side) (ep : Ep) → ep.lock_needed ≡ false → unlock_if_needed side ep ≡ ep
unfolding unlock_if_needed
unlock-free sending ep h = ground arith
unlock-free receiving ep h = ground arith

enqueued_send :
    (e : MsgQueueEntry) (ep : Ep)
    → ep.lock_needed ≡ false
    → ((dpa_msg_enqueue sending e ep).send_queue ≡ ep.send_queue ++ (e ∷ []))
      × ((dpa_msg_enqueue sending e ep).lock_needed ≡ false)
unfolding dpa_msg_enqueue
enqueued_send e ep h = ground arith

enqueued_recv :
    (e : MsgQueueEntry) (ep : Ep)
    → ep.lock_needed ≡ false
    → ((dpa_msg_enqueue receiving e ep).recv_queue ≡ ep.recv_queue ++ (e ∷ []))
      × ((dpa_msg_enqueue receiving e ep).lock_needed ≡ false)
      × ((dpa_msg_enqueue receiving e ep).filled ≡ ep.filled)
unfolding dpa_msg_enqueue
enqueued_recv e ep h = ground arith

module _ (cap : ℕ) (cap_small : cap < 2 ^ 63) where
  -- What a call of `dpa_send` returns, and the stream afterwards.
  pub record Posted (r : Option (Ret × Ep × Link)) (P : Ep → Link → Type 0) : Type 0 where
    pub ep : Ep
    pub link : Link
    pub returns : r ≡ some (success, ep, link)
    pub state : P ep link

  enqueue-Sending :
      (e : MsgQueueEntry) (ep : Ep) (l : Link) (stream : List (List ℕ))
      → IsRequest cap cap_small e
      → Sending cap cap_small ep l stream
      → Sending cap cap_small (dpa_msg_enqueue sending e ep) l (stream ++ (e.buffer.buf ∷ []))
  enqueue-Sending e ep l stream good s = record {
    flight = s.flight;
    holds = s.holds;
    order =
        ap (λ es. s.flight ++ bytes_of es) (enqueued_send e ep s.no_lock).0
        ∙ ap (λ ms. s.flight ++ ms) (bytes_of-append ep.send_queue e)
        ∙ sym (append_assoc s.flight (bytes_of ep.send_queue) (e.buffer.buf ∷ []))
        ∙ ap (λ ms. ms ++ (e.buffer.buf ∷ [])) s.order;
    messages = s.messages;
    requests =
        rw (enqueued_send e ep s.no_lock).0
          (All-append (IsRequest cap cap_small) ep.send_queue e s.requests good);
    no_lock = (enqueued_send e ep s.no_lock).1;
  }

  -- What `_dpa_send` does after the lock, for an endpoint with no lock.
  post_send-Sending :
      (e : MsgQueueEntry) (ep : Ep) (l : Link) (stream : List (List ℕ)) (q : List MsgQueueEntry)
      → ep.send_queue ≡ q
      → IsRequest cap cap_small e
      → Sending cap cap_small ep l stream
      → Posted
          (some (post sending e (is_empty q) (try_send e ep l) ep l))
          (λ ep' l'. Sending cap cap_small ep' l' (stream ++ (e.buffer.buf ∷ [])))
  post_send-Sending e ep l stream (x ∷ xs) queued good s = record {
    ep = dpa_msg_enqueue sending e ep;
    link = l;
    returns = refl;
    state = enqueue-Sending e ep l stream good s;
  }
  post_send-Sending e ep l stream [] queued good s =
      elim (try_send_lem e ep l s.flight s.holds good.0
        (omega (arith, good.1.1, good.0, cap_small))) [
          | inr (full, refused) ↦ record {
            ep = dpa_msg_enqueue sending e ep;
            link = l;
            returns = ap (λ t. some (post sending e true t ep l)) refused;
            state = enqueue-Sending e ep l stream good s;
          }
          | inl (room, done, holds) ↦ record {
            ep = sent e ep;
            link = write_msg e.buffer l;
            returns = ap (λ t. some (post sending e true t ep l)) done;
            state = record {
              flight = s.flight ++ (e.buffer.buf ∷ []);
              holds = holds;
              order =
                  ap (λ es. (s.flight ++ (e.buffer.buf ∷ [])) ++ bytes_of es)
                    ((sent-fields e ep).0 ∙ queued)
                  ∙ append-nil (s.flight ++ (e.buffer.buf ∷ []))
                  ∙ ap (λ ms. ms ++ (e.buffer.buf ∷ []))
                      (sym (append-nil s.flight)
                        ∙ ap (λ es. s.flight ++ bytes_of es) (sym queued)
                        ∙ s.order);
              messages =
                  All-append (IsMessage cap cap_small) s.flight e.buffer.buf s.messages good.1;
              requests = rw ((sent-fields e ep).0, queued) tt;
              no_lock = (sent-fields e ep).1 ∙ s.no_lock;
            };
          }
        ]

  pub dpa_send-Sending :
      (request : MsgQueueEntry) (ep : Ep) (l : Link) (stream : List (List ℕ))
      → IsRequest cap cap_small request
      → Sending cap cap_small ep l stream
      → Posted
          (dpa_send request ep l)
          (λ ep' l'. Sending cap cap_small ep' l' (stream ++ (request.buffer.buf ∷ [])))
  unfolding dpa_send
  dpa_send-Sending request ep l stream good s =
      rw (dpa_send, lock-free sending ep s.no_lock)
        (post_send-Sending (record request { flags = 0 }) ep l stream ep.send_queue refl good s)

  enqueue-Receiving :
      (e : MsgQueueEntry) (ep : Ep) (l : Link) (stream : List (List ℕ))
      → IsLarge cap cap_small e
      → Receiving cap cap_small ep l stream
      → Receiving cap cap_small (dpa_msg_enqueue receiving e ep) l stream
  enqueue-Receiving e ep l stream large r = record {
    flight = r.flight;
    holds = r.holds;
    order = ap (λ fs. delivered fs ++ r.flight) (enqueued_recv e ep r.no_lock).2 ∙ r.order;
    messages = r.messages;
    buffers =
        rw (enqueued_recv e ep r.no_lock).0
          (All-append (IsLarge cap cap_small) ep.recv_queue e r.buffers large);
    no_lock = (enqueued_recv e ep r.no_lock).1;
  }

  post_recv-Receiving :
      (e : MsgQueueEntry) (ep : Ep) (l : Link) (stream : List (List ℕ)) (at_once : Bool)
      → IsLarge cap cap_small e
      → (r : Receiving cap cap_small ep l stream) (flight : List (List ℕ)) → r.flight ≡ flight
      → Posted
          (some (post receiving e at_once (try_recv e ep l) ep l))
          (λ ep' l'. Receiving cap cap_small ep' l' stream)
  post_recv-Receiving e ep l stream false large r flight f = record {
    ep = dpa_msg_enqueue receiving e ep;
    link = l;
    returns = refl;
    state = enqueue-Receiving e ep l stream large r;
  }
  post_recv-Receiving e ep l stream true large r [] f = record {
    ep = dpa_msg_enqueue receiving e ep;
    link = l;
    returns =
        ap (λ t. some (post receiving e true t ep l))
          (try_recv-none e ep l (subst (Holds l) f r.holds));
    state = enqueue-Receiving e ep l stream large r;
  }
  post_recv-Receiving e ep l stream true large r (m ∷ q) f =
      let messages : All (IsMessage cap cap_small) (m ∷ q) =
        subst (All (IsMessage cap cap_small)) f r.messages in
      let t =
        try_recv-message e ep l m q (subst (Holds l) f r.holds) messages.0.0
          (omega (arith, messages.0.1, large)) in
      record {
        ep = received e m (length m) ep;
        link = (read_msg e.buffer.len l).1;
        returns = ap (λ t. some (post receiving e true t ep l)) t.0;
        state = record {
          flight = q;
          holds = t.1;
          order =
              ap (λ fs. delivered fs ++ q) (received-fields e m (length m) ep).4
              ∙ ap (λ ms. ms ++ q) (delivered-append ep.filled e.buf_addr m)
              ∙ append_assoc (delivered ep.filled) (m ∷ []) q
              ∙ ap (λ ms. delivered ep.filled ++ ms) (sym f)
              ∙ r.order;
          messages = messages.1;
          buffers = rw (received-fields e m (length m) ep).0 r.buffers;
          no_lock = (received-fields e m (length m) ep).1 ∙ r.no_lock;
        };
      }

  pub dpa_recv-Receiving :
      (entry : MsgQueueEntry) (ep : Ep) (l : Link) (stream : List (List ℕ))
      → IsLarge cap cap_small entry
      → Receiving cap cap_small ep l stream
      → Posted (dpa_recv entry ep l) (λ ep' l'. Receiving cap cap_small ep' l' stream)
  unfolding dpa_recv
  dpa_recv-Receiving entry ep l stream large r =
      rw (dpa_recv, lock-free receiving ep r.no_lock)
        (post_recv-Receiving entry ep l stream (is_empty ep.recv_queue && ep.connected) large r
          r.flight refl)
