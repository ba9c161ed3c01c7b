-- ===== src/Msg/Rounds.antt =====
-- Two connected endpoints that make progress in turn: each round delivers a message if there is one.
use libfabric_provider_dpa.Prelude.{
  ℕ, zero, suc, ◌+◌, ◌^◌, ◌<◌, ◌≤◌, ◌≡◌, ◌∙◌, inl, inr, refl, sym, ap, true, false, List, [], ◌∷◌,
  ◌++◌, some, arith, length, length-append,
}
use mathlib.Core.List.{append-nil}
use libfabric_provider_dpa.Ring.{Link}
use libfabric_provider_dpa.Ring.View.{image}
use libfabric_provider_dpa.Msg.{
  Ep, sending, receiving, process_send_queue, process_recv_queue, send_loop, recv_loop,
}
use libfabric_provider_dpa.Msg.Queues.{
  bytes_of, delivered, Sending, Receiving, Filled, Drained, send_loop-Filled, recv_loop-Drained,
}
use libfabric_provider_dpa.Msg.Kept.{receives, send_loop-Kept, recv_loop-Kept}
use libfabric_provider_dpa.Msg.Calls.{
  Ran, process_queue_lem, Op, System, ran_send, ran_recv, call, calls, progress_send, progress_recv,
}
use libfabric_provider_dpa.Msg.Delivery.{InOrder, receiver_of, receiver_moved}

length-delivered : (fs : List (ℕ × List ℕ)) → length (delivered fs) ≡ length fs
length-delivered [] = refl
length-delivered ((a, b) ∷ fs) = ap suc (length-delivered fs)

-- What `delivered` and the lists behind it add up to.
length-order :
    (fs : List (ℕ × List ℕ)) (ms all : List (List ℕ))
    → delivered fs ++ ms ≡ all
    → length fs + length ms ≡ length all
length-order fs ms all e =
    omega (arith, length-append (delivered fs) ms, length-delivered fs, ap length e)

none_left :
    (fs : List (ℕ × List ℕ)) (stream all : List (List ℕ))
    → delivered fs ++ stream ≡ all
    → length all ≤ length fs
    → delivered fs ≡ all
none_left fs [] all e few = sym (append-nil (delivered fs)) ∙ e
none_left fs (m ∷ ms) all e few = absurd (omega (arith, few, length-order fs (m ∷ ms) all e))

some_flight :
    (size cap : ℕ) (q : List (List ℕ))
    → 8 + cap ≤ size
    → size < 8 + cap + length (image q)
    → 0 < length q
unfolding image
some_flight size cap [] room full = absurd (omega (arith, room, full))
some_flight size cap (m ∷ q) room full = omega arith

-- One turn of each side.
abbrev pub rounds : ℕ → List Op
rounds zero = []
rounds (suc n) = progress_send ∷ progress_recv ∷ rounds n

module _ (cap : ℕ) (cap_small : cap < 2 ^ 63) where
  -- Both sides are connected, and the message buffer has room for one message of `cap` bytes.
  pub record Ready (sys : System) (all : List (List ℕ)) : Type 0 where
    pub in_order : InOrder cap cap_small sys all
    pub sends_on : sys.sender.connected ≡ true
    pub receives_on : sys.receiver.connected ≡ true
    pub room : 8 + cap ≤ sys.link.send.size

  -- And as many receives have been posted as messages.
  pub record Flowing (sys : System) (all : List (List ℕ)) : Type 0 where
    pub ready : Ready sys all
    pub enough : length all ≤ receives sys.receiver

  pub record Pushed (n : ℕ) (ep : Ep) (l : Link) (stream : List (List ℕ)) : Type 0 where
    pub filled : Filled cap cap_small ep l stream
    pub on : ep.connected ≡ true
    pub size : l.send.size ≡ n

  process_send_queue-Pushed :
      (ep : Ep) (l : Link) (stream : List (List ℕ))
      → ep.connected ≡ true
      → Sending cap cap_small ep l stream
      → Ran (process_send_queue false ep l) (λ ep' l'. Pushed l.send.size ep' l' stream)
  unfolding process_send_queue
  process_send_queue-Pushed ep l stream on s =
      let done = send_loop-Filled cap cap_small ep.send_queue ep l stream refl s in
      let kept = send_loop-Kept ep.send_queue ep l in
      process_queue_lem sending send_loop ep l (λ ep' l'. Pushed l.send.size ep' l' stream) true
        ep.send_queue on refl s.no_lock done.state.no_lock
        (record { filled = done; on = kept.0 ∙ on; size = kept.1 })
        (λ e. record { filled = record { state = s; idle = inl e }; on = on; size = refl })
        (λ e. absurd (ground arith))

  pub record Pulled (n m : ℕ) (ep : Ep) (l : Link) (stream : List (List ℕ)) : Type 0 where
    pub drained : Drained cap cap_small ep l stream
    pub on : ep.connected ≡ true
    pub size : l.send.size ≡ n
    pub posted : receives ep ≡ m

  process_recv_queue-Pulled :
      (ep : Ep) (l : Link) (stream : List (List ℕ))
      → ep.connected ≡ true
      → Receiving cap cap_small ep l stream
      → Ran
          (process_recv_queue false ep l)
          (λ ep' l'. Pulled l.send.size (receives ep) ep' l' stream)
  unfolding process_recv_queue
  process_recv_queue-Pulled ep l stream on r =
      let done = recv_loop-Drained cap cap_small ep.recv_queue ep l stream refl r in
      let kept = recv_loop-Kept ep.recv_queue ep l refl in
      process_queue_lem receiving recv_loop ep l
        (λ ep' l'. Pulled l.send.size (receives ep) ep' l' stream) true ep.recv_queue on refl
        r.no_lock done.state.no_lock
        (record { drained = done; on = kept.0 ∙ on; size = kept.1; posted = kept.2 })
        (λ e. record {
          drained = record { state = r; idle = inl e };
          on = on;
          size = refl;
          posted = refl;
        })
        (λ e. absurd (ground arith))

  -- What a turn of each side does: no message is left, or one more has arrived.
  arrived :
      (fs fs' : List (ℕ × List ℕ)) (ep : Ep) (l : Link) (stream all flight : List (List ℕ)) (n : ℕ)
      → delivered fs ++ stream ≡ all
      → (s : Filled cap cap_small ep l stream) → 8 + cap ≤ l.send.size
      → delivered fs' ++ flight ≡ delivered fs ++ s.state.flight
      → flight ≡ []
      → length all ≤ length fs + suc n
      → length all ≤ length fs' + n
  arrived fs fs' ep l stream all flight n total s room order none left =
      let before = length-order fs stream all total in
      let pushed = length-append s.state.flight (bytes_of ep.send_queue) in
      let whole = ap length s.state.order in
      let after = length-order fs' flight (delivered fs ++ s.state.flight) order in
      let moved = length-append (delivered fs) s.state.flight in
      let count = length-delivered fs in
      let empty = ap length none in
      elim s.idle [
        | inl all_sent ↦ omega (
          arith,
          before,
          pushed,
          whole,
          after,
          moved,
          count,
          empty,
          left,
          ap (λ q. length (bytes_of q)) all_sent,
        )
        | inr full ↦ omega (
          arith,
          before,
          pushed,
          whole,
          after,
          moved,
          count,
          empty,
          left,
          some_flight l.send.size cap s.state.flight room full,
        )
      ]

  pub calls-cons :
      (op : Op) (ops : List Op) (sys next : System)
      → call op sys ≡ some next
      → calls (op ∷ ops) sys ≡ calls ops next
  unfolding calls
  calls-cons op ops sys next e = rw (calls, e) refl

  pub record Round (sys : System) (all : List (List ℕ)) (n : ℕ) : Type 0 where
    pub final : System
    pub returns :
        (ops : List Op) → calls (progress_send ∷ progress_recv ∷ ops) sys ≡ calls ops final
    pub flowing : Flowing final all
    pub left : length all ≤ length final.receiver.filled + n

  round :
      (sys : System) (all : List (List ℕ)) (n : ℕ)
      → Flowing sys all
      → length all ≤ length sys.receiver.filled + suc n
      → Round sys all n
  unfolding call
  round sys all n f left =
      let o = f.ready.in_order in
      let s = process_send_queue-Pushed sys.sender sys.link o.stream f.ready.sends_on o.sends in
      let mid : System = record sys { sender = s.ep; link = s.link } in
      let o1 : InOrder cap cap_small mid all = record {
        stream = o.stream;
        sends = s.state.filled.state;
        buffers = o.buffers;
        no_lock = o.no_lock;
        total = o.total;
      } in
      let r =
        process_recv_queue-Pulled mid.receiver mid.link _ f.ready.receives_on
          (receiver_of cap cap_small mid all o1) in
      let drained = r.state.drained in
      let room : 8 + cap ≤ s.link.send.size = omega (arith, f.ready.room, s.state.size) in
      record {
        final = record mid { receiver = r.ep; link = r.link };
        returns = λ ops.
            calls-cons progress_send (progress_recv ∷ ops) sys mid (ap (ran_send sys) s.returns)
            ∙ calls-cons progress_recv ops mid _ (ap (ran_recv mid) r.returns);
        flowing = record {
          ready = record {
            in_order = receiver_moved cap cap_small mid all o1 r.ep r.link drained.state;
            sends_on = s.state.on;
            receives_on = r.state.on;
            room = omega (arith, room, r.state.size);
          };
          enough = omega (arith, f.enough, r.state.posted);
        };
        left = elim drained.idle [
          | inl no_receive ↦ omega (arith, f.enough, r.state.posted, ap length no_receive)
          | inr no_message ↦
              arrived sys.receiver.filled r.ep.filled s.ep s.link o.stream all drained.state.flight
                n o.total s.state.filled room drained.state.order no_message left
        ];
      }

  -- After as many rounds as there are messages that have not arrived, all have.
  pub rounds-deliver :
      (n : ℕ) (sys : System) (all : List (List ℕ))
      → Flowing sys all
      → length all ≤ length sys.receiver.filled + n
      → (final : System) × (calls (rounds n) sys ≡ some final)
        × (delivered final.receiver.filled ≡ all)
  unfolding calls
  rounds-deliver zero sys all f left = (
    sys,
    refl,
    none_left sys.receiver.filled f.ready.in_order.stream all f.ready.in_order.total
        (omega (arith, left)),
  )
  rounds-deliver (suc n) sys all f left =
      let first = round sys all n f left in
      let rest = rounds-deliver n first.final all first.flowing first.left in
      (rest.0, first.returns (rounds n) ∙ rest.1, rest.2)
