-- ===== src/Msg/Delivery.antt =====
-- Two connected endpoints and the message buffer between them: what any run of their operations
-- delivers.
use libfabric_provider_dpa.Prelude.{
  ℕ, ◌^◌, ◌<◌, ◌≡◌, ◌∙◌, inl, refl, sym, ap, subst, true, false, List, [], ◌∷◌, ◌++◌, Option, some,
  arith,
}
use mathlib.Core.List.{append-nil, append_assoc}
use libfabric_provider_dpa.Ring.{Link}
use libfabric_provider_dpa.Msg.{
  Ep, sending, receiving, process_send_queue, process_recv_queue, send_loop, recv_loop,
}
use libfabric_provider_dpa.Msg.Queues.{
  All, bytes_of, delivered, IsRequest, IsLarge, Sending, Receiving, Drained, send_loop-Filled,
  recv_loop-Drained,
}
use libfabric_provider_dpa.Msg.Post.{dpa_send-Sending, dpa_recv-Receiving}
use libfabric_provider_dpa.Msg.Calls.{
  Ran, process_queue_lem, Op, System, posted_send, posted_recv, ran_send, ran_recv, call, calls,
  posted, post_send, post_recv, progress_send, progress_recv,
}

module _ (cap : ℕ) (cap_small : cap < 2 ^ 63) where
  -- The requests of a call: messages of 1 to `cap` bytes, and buffers that have room for each.
  abbrev pub IsFair : Op → Type 0
  IsFair (post_send e) = IsRequest cap cap_small e
  IsFair (post_recv e) = IsLarge cap cap_small e
  IsFair progress_send = Unit {0}
  IsFair progress_recv = Unit {0}

  -- What is delivered, then what lies in the message buffer, then what waits, is `all`.
  pub record InOrder (sys : System) (all : List (List ℕ)) : Type 0 where
    pub stream : List (List ℕ)
    pub sends : Sending cap cap_small sys.sender sys.link stream
    pub buffers : All (IsLarge cap cap_small) sys.receiver.recv_queue
    pub no_lock : sys.receiver.lock_needed ≡ false
    pub total : delivered sys.receiver.filled ++ stream ≡ all

  pub receiver_of :
      (sys : System) (all : List (List ℕ)) (o : InOrder sys all)
      → Receiving cap cap_small sys.receiver sys.link
          (delivered sys.receiver.filled ++ o.sends.flight)
  receiver_of sys all o = record {
    flight = o.sends.flight;
    holds = o.sends.holds;
    order = refl;
    messages = o.sends.messages;
    buffers = o.buffers;
    no_lock = o.no_lock;
  }

  -- After the receiver's part of a call the order is as before.
  pub receiver_moved :
      (sys : System) (all : List (List ℕ)) (o : InOrder sys all) (ep : Ep) (l : Link)
      → Receiving cap cap_small ep l (delivered sys.receiver.filled ++ o.sends.flight)
      → InOrder (record sys { receiver = ep; link = l }) all
  receiver_moved sys all o ep l r = record {
    stream = r.flight ++ bytes_of sys.sender.send_queue;
    sends = record {
      flight = r.flight;
      holds = r.holds;
      order = refl;
      messages = r.messages;
      requests = o.sends.requests;
      no_lock = o.sends.no_lock;
    };
    buffers = r.buffers;
    no_lock = r.no_lock;
    total =
        sym (append_assoc (delivered ep.filled) r.flight (bytes_of sys.sender.send_queue))
        ∙ ap (λ ms. ms ++ bytes_of sys.sender.send_queue) r.order
        ∙ append_assoc (delivered sys.receiver.filled) o.sends.flight
            (bytes_of sys.sender.send_queue)
        ∙ ap (λ ms. delivered sys.receiver.filled ++ ms) o.sends.order
        ∙ o.total;
  }

  sender_moved :
      (sys : System) (all more : List (List ℕ)) (o : InOrder sys all) (ep : Ep) (l : Link)
      → Sending cap cap_small ep l (o.stream ++ more)
      → InOrder (record sys { sender = ep; link = l }) (all ++ more)
  sender_moved sys all more o ep l s = record {
    stream = o.stream ++ more;
    sends = s;
    buffers = o.buffers;
    no_lock = o.no_lock;
    total =
        sym (append_assoc (delivered sys.receiver.filled) o.stream more)
        ∙ ap (λ ms. ms ++ more) o.total;
  }

  -- A run that comes to an end, in a system in order.
  pub record Ended (r : Option System) (all : List (List ℕ)) : Type 0 where
    pub final : System
    pub returns : r ≡ some final
    pub in_order : InOrder final all

  process_send_queue-Sending :
      (ep : Ep) (l : Link) (stream : List (List ℕ))
      → Sending cap cap_small ep l stream
      → Ran (process_send_queue false ep l) (λ ep' l'. Sending cap cap_small ep' l' stream)
  unfolding process_send_queue
  process_send_queue-Sending ep l stream s =
      let done = (send_loop-Filled cap cap_small ep.send_queue ep l stream refl s).state in
      process_queue_lem sending send_loop ep l (λ ep' l'. Sending cap cap_small ep' l' stream)
        ep.connected ep.send_queue refl refl s.no_lock done.no_lock done (λ e. s) (λ e. s)

  process_recv_queue-Receiving :
      (ep : Ep) (l : Link) (stream : List (List ℕ))
      → Receiving cap cap_small ep l stream
      → Ran (process_recv_queue false ep l) (λ ep' l'. Receiving cap cap_small ep' l' stream)
  unfolding process_recv_queue
  process_recv_queue-Receiving ep l stream r =
      let done = recv_loop-Drained cap cap_small ep.recv_queue ep l stream refl r in
      process_queue_lem receiving recv_loop ep l (λ ep' l'. Receiving cap cap_small ep' l' stream)
        ep.connected ep.recv_queue refl refl r.no_lock done.state.no_lock done.state (λ e. r)
        (λ e. r)

  pub call-InOrder :
      (op : Op) (sys : System) (all : List (List ℕ))
      → IsFair op
      → InOrder sys all
      → Ended (call op sys) (all ++ posted (op ∷ []))
  unfolding call
  call-InOrder (post_send e) sys all fair o =
      let p = dpa_send-Sending cap cap_small e sys.sender sys.link o.stream fair o.sends in
      record {
        final = record sys { sender = p.ep; link = p.link };
        returns = ap (posted_send sys) p.returns;
        in_order = sender_moved sys all (e.buffer.buf ∷ []) o p.ep p.link p.state;
      }
  call-InOrder (post_recv e) sys all fair o =
      let p =
        dpa_recv-Receiving cap cap_small e sys.receiver sys.link _ fair (receiver_of sys all o) in
      record {
        final = record sys { receiver = p.ep; link = p.link };
        returns = ap (posted_recv sys) p.returns;
        in_order =
            subst (InOrder _) (sym (append-nil all)) (receiver_moved sys all o p.ep p.link p.state);
      }
  call-InOrder progress_send sys all fair o =
      let p = process_send_queue-Sending sys.sender sys.link o.stream o.sends in
      record {
        final = record sys { sender = p.ep; link = p.link };
        returns = ap (ran_send sys) p.returns;
        in_order =
            sender_moved sys all [] o p.ep p.link
              (subst (Sending cap cap_small p.ep p.link) (sym (append-nil o.stream)) p.state);
      }
  call-InOrder progress_recv sys all fair o =
      let p = process_recv_queue-Receiving sys.receiver sys.link _ (receiver_of sys all o) in
      record {
        final = record sys { receiver = p.ep; link = p.link };
        returns = ap (ran_recv sys) p.returns;
        in_order =
            subst (InOrder _) (sym (append-nil all)) (receiver_moved sys all o p.ep p.link p.state);
      }

  pub posted-cons : (op : Op) (ops : List Op) → posted (op ∷ []) ++ posted ops ≡ posted (op ∷ ops)
  posted-cons (post_send e) ops = refl
  posted-cons (post_recv e) ops = refl
  posted-cons progress_send ops = refl
  posted-cons progress_recv ops = refl

  -- Any run of calls on a system in order comes to an end, never held up by a lock, and leaves the
  -- system in order: the messages delivered, then those in the message buffer, then those that
  -- wait to be sent are all the messages posted before and during the run, in the order in which
  -- they were posted. The messages are of 1 to `cap` bytes, and the receive buffers have room for
  -- `cap` bytes; the two endpoints need no locks.
  pub calls-InOrder :
      (ops : List Op) (sys : System) (all : List (List ℕ))
      → All IsFair ops
      → InOrder sys all
      → Ended (calls ops sys) (all ++ posted ops)
  unfolding calls
  calls-InOrder [] sys all fair o = record {
    final = sys;
    returns = refl;
    in_order = subst (InOrder sys) (sym (append-nil all)) o;
  }
  calls-InOrder (op ∷ ops) sys all fair o =
      let first = call-InOrder op sys all fair.0 o in
      let rest = calls-InOrder ops first.final (all ++ posted (op ∷ [])) fair.1 first.in_order in
      record {
        final = rest.final;
        returns = rw (calls, first.returns) rest.returns;
        in_order =
            subst (InOrder rest.final)
              (append_assoc all (posted (op ∷ [])) (posted ops)
                ∙ ap (λ ms. all ++ ms) (posted-cons op ops))
              rest.in_order;
      }

  -- When a connected receiver that needs no lock makes progress, the call returns, and either no
  -- receive waits any longer or the message buffer is empty; the messages delivered and then those
  -- in the buffer are the same as before.
  pub process_recv_queue-Drained :
      (ep : Ep) (l : Link) (stream : List (List ℕ))
      → ep.connected ≡ true
      → Receiving cap cap_small ep l stream
      → Ran (process_recv_queue false ep l) (λ ep' l'. Drained cap cap_small ep' l' stream)
  unfolding process_recv_queue
  process_recv_queue-Drained ep l stream on r =
      let done = recv_loop-Drained cap cap_small ep.recv_queue ep l stream refl r in
      process_queue_lem receiving recv_loop ep l (λ ep' l'. Drained cap cap_small ep' l' stream)
        true ep.recv_queue on refl r.no_lock done.state.no_lock done
        (λ e. record { state = r; idle = inl e }) (λ e. absurd (ground arith))
