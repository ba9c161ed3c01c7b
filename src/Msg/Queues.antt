-- ===== src/Msg/Queues.antt =====
-- The queues of requests of one endpoint, and what its operations do to the stream of messages.
use libfabric_provider_dpa.Prelude.{
  ℕ, ◌+◌, ◌^◌, ◌<◌, ◌≤◌, ◌≡◌, ◌⊎◌, ◌∙◌, inl, inr, refl, sym, ap, subst, false, List, [], ◌∷◌, ◌++◌,
  arith, length,
}
use mathlib.Core.List.{append_assoc}
use libfabric_provider_dpa.Ring.{Link, write_msg}
use libfabric_provider_dpa.Ring.View.{image, Holds}
use libfabric_provider_dpa.Fabric.{Ret}
use libfabric_provider_dpa.Msg.{
  MsgQueueEntry, Ep, sent, received, send_next, recv_next, send_loop, recv_loop,
}
use libfabric_provider_dpa.Msg.Send.{try_send_lem}
use libfabric_provider_dpa.Msg.Recv.{try_recv-none, try_recv-message}

abbrev pub All {ℓ} : {A : Type ℓ} → (A → Type 0) → List A → Type 0
All P [] = Unit {0}
All P (x ∷ xs) = P x × All P xs

pub All-append {ℓ} :
    {A : Type ℓ} (P : A → Type 0) (xs : List A) (y : A) → All P xs → P y → All P (xs ++ (y ∷ []))
All-append P [] y h p = (p, tt)
All-append P (x ∷ xs) y h p = (h.0, All-append P xs y h.1 p)

-- The bytes of the requests that wait to be sent, and of what has been delivered.
abbrev pub bytes_of : List MsgQueueEntry → List (List ℕ)
bytes_of [] = []
bytes_of (e ∷ es) = e.buffer.buf ∷ bytes_of es

abbrev pub delivered : List (ℕ × List ℕ) → List (List ℕ)
delivered [] = []
delivered ((addr, bytes) ∷ rest) = bytes ∷ delivered rest

pub bytes_of-append :
    (es : List MsgQueueEntry) (e : MsgQueueEntry)
    → bytes_of (es ++ (e ∷ [])) ≡ bytes_of es ++ (e.buffer.buf ∷ [])
bytes_of-append [] e = refl
bytes_of-append (x ∷ xs) e = ap (λ ys. x.buffer.buf ∷ ys) (bytes_of-append xs e)

pub delivered-append :
    (fs : List (ℕ × List ℕ)) (addr : ℕ) (bytes : List ℕ)
    → delivered (fs ++ ((addr, bytes) ∷ [])) ≡ delivered fs ++ (bytes ∷ [])
delivered-append [] addr bytes = refl
delivered-append ((a, b) ∷ fs) addr bytes = ap (λ ys. b ∷ ys) (delivered-append fs addr bytes)

pub sent-fields :
    (e : MsgQueueEntry) (ep : Ep)
    → ((sent e ep).send_queue ≡ ep.send_queue)
      × ((sent e ep).lock_needed ≡ ep.lock_needed)
      × ((sent e ep).send_locked ≡ ep.send_locked)
      × ((sent e ep).connected ≡ ep.connected)
unfolding sent
sent-fields e ep = ground arith

pub received-fields :
    (e : MsgQueueEntry) (bytes : List ℕ) (size : ℕ) (ep : Ep)
    → ((received e bytes size ep).recv_queue ≡ ep.recv_queue)
      × ((received e bytes size ep).lock_needed ≡ ep.lock_needed)
      × ((received e bytes size ep).recv_locked ≡ ep.recv_locked)
      × ((received e bytes size ep).connected ≡ ep.connected)
      × ((received e bytes size ep).filled ≡ ep.filled ++ ((e.buf_addr, bytes) ∷ []))
unfolding received
received-fields e bytes size ep = ground arith

-- `cap` bounds the messages of the program, from above, and the receive buffers from below.
module _ (cap : ℕ) (cap_small : cap < 2 ^ 63) where
  abbrev pub IsMessage : List ℕ → Type 0
  IsMessage m = (0 < length m) × (length m ≤ cap)

  abbrev pub IsRequest : MsgQueueEntry → Type 0
  IsRequest e = (e.buffer.len ≡ length e.buffer.buf) × IsMessage e.buffer.buf

  abbrev pub IsLarge : MsgQueueEntry → Type 0
  IsLarge e = cap ≤ e.buffer.len

  -- The sending endpoint: what lies in the message buffer, then what its requests wait to send.
  pub record Sending (ep : Ep) (l : Link) (stream : List (List ℕ)) : Type 0 where
    pub flight : List (List ℕ)
    pub holds : Holds l flight
    pub order : flight ++ bytes_of ep.send_queue ≡ stream
    pub messages : All IsMessage flight
    pub requests : All IsRequest ep.send_queue
    pub no_lock : ep.lock_needed ≡ false

  -- The receiving endpoint: what it has delivered, then what lies in the message buffer.
  pub record Receiving (ep : Ep) (l : Link) (stream : List (List ℕ)) : Type 0 where
    pub flight : List (List ℕ)
    pub holds : Holds l flight
    pub order : delivered ep.filled ++ flight ≡ stream
    pub messages : All IsMessage flight
    pub buffers : All IsLarge ep.recv_queue
    pub no_lock : ep.lock_needed ≡ false

  -- A sending endpoint whose loop has stopped: no request waits, or the message buffer has no room
  -- for a message of `cap` bytes.
  pub record Filled (ep : Ep) (l : Link) (stream : List (List ℕ)) : Type 0 where
    pub state : Sending ep l stream
    pub idle : (ep.send_queue ≡ []) ⊎ (l.send.size < 8 + cap + length (image state.flight))

  abbrev After : List MsgQueueEntry → List (List ℕ) → Ret × Ep × Link → Type 0
  After xs stream t =
      Filled (send_next (send_loop xs) xs t).0 (send_next (send_loop xs) xs t).1 stream

  pub send_loop-Filled :
      (rest : List MsgQueueEntry) (ep : Ep) (l : Link) (stream : List (List ℕ))
      → ep.send_queue ≡ rest
      → Sending ep l stream
      → Filled (send_loop rest ep l).0 (send_loop rest ep l).1 stream
  unfolding send_loop
  send_loop-Filled [] ep l stream e s = record { state = s; idle = inl e }
  send_loop-Filled (x ∷ xs) ep l stream e s =
      let reqs : All IsRequest (x ∷ xs) = subst (All IsRequest) e s.requests in
      elim (try_send_lem x ep l s.flight s.holds reqs.0.0
        (omega (arith, reqs.0.1.1, reqs.0.0, cap_small))) [
          | inr (full, refused) ↦
              subst (After xs stream) (sym refused)
                (record { state = s; idle = inr (omega (arith, full, reqs.0.1.1, reqs.0.0)) })
          | inl (room, done, holds) ↦ subst (After xs stream) (sym done) (
              send_loop-Filled xs
                (record (sent x ep) { send_queue = xs; send_free = (sent x ep).send_free + 1 })
                (write_msg x.buffer l) stream refl
                (record {
                  flight = s.flight ++ (x.buffer.buf ∷ []);
                  holds = holds;
                  order =
                      append_assoc s.flight (x.buffer.buf ∷ []) (bytes_of xs)
                      ∙ ap (λ es. s.flight ++ bytes_of es) (sym e)
                      ∙ s.order;
                  messages = All-append IsMessage s.flight x.buffer.buf s.messages reqs.0.1;
                  requests = reqs.1;
                  no_lock = (sent-fields x ep).1 ∙ s.no_lock;
                }))
        ]

  -- A receiving endpoint whose loop has stopped: no request waits, or no message does.
  pub record Drained (ep : Ep) (l : Link) (stream : List (List ℕ)) : Type 0 where
    pub state : Receiving ep l stream
    pub idle : (ep.recv_queue ≡ []) ⊎ (state.flight ≡ [])

  -- One round, with `done` for the rounds behind it.
  recv_case :
      (x : MsgQueueEntry) (xs : List MsgQueueEntry) (ep : Ep) (l : Link) (stream : List (List ℕ))
      → ep.recv_queue ≡ x ∷ xs
      → (r : Receiving ep l stream) (flight : List (List ℕ)) → r.flight ≡ flight
      → ((ep' : Ep) (l' : Link) (all : List (List ℕ))
          → ep'.recv_queue ≡ xs
          → Receiving ep' l' all
          → Drained (recv_loop xs ep' l').0 (recv_loop xs ep' l').1 all)
      → Drained (recv_loop (x ∷ xs) ep l).0 (recv_loop (x ∷ xs) ep l).1 stream
  unfolding recv_loop
  recv_case x xs ep l stream e r [] none_left next =
      subst
        (λ t. Drained (recv_next (recv_loop xs) xs t).0 (recv_next (recv_loop xs) xs t).1 stream)
        (sym (try_recv-none x ep l (subst (Holds l) none_left r.holds)))
        (record { state = r; idle = inr none_left })
  recv_case x xs ep l stream e r (m ∷ q) f next =
      let messages : All IsMessage (m ∷ q) = subst (All IsMessage) f r.messages in
      let buffers : All IsLarge (x ∷ xs) = subst (All IsLarge) e r.buffers in
      let t =
        try_recv-message x ep l m q (subst (Holds l) f r.holds) messages.0.0
          (omega (arith, messages.0.1, buffers.0)) in
      let ep' = received x m (length m) ep in
      subst
        (λ t. Drained (recv_next (recv_loop xs) xs t).0 (recv_next (recv_loop xs) xs t).1 stream)
        (sym t.0)
        (next (record ep' { recv_queue = xs; recv_free = ep'.recv_free + 1 }) _ stream refl
          (record {
            flight = q;
            holds = t.1;
            order =
                ap (λ fs. delivered fs ++ q) (received-fields x m (length m) ep).4
                ∙ ap (λ ms. ms ++ q) (delivered-append ep.filled x.buf_addr m)
                ∙ append_assoc (delivered ep.filled) (m ∷ []) q
                ∙ ap (λ ms. delivered ep.filled ++ ms) (sym f)
                ∙ r.order;
            messages = messages.1;
            buffers = buffers.1;
            no_lock = (received-fields x m (length m) ep).1 ∙ r.no_lock;
          }))

  pub recv_loop-Drained :
      (rest : List MsgQueueEntry) (ep : Ep) (l : Link) (stream : List (List ℕ))
      → ep.recv_queue ≡ rest
      → Receiving ep l stream
      → Drained (recv_loop rest ep l).0 (recv_loop rest ep l).1 stream
  unfolding recv_loop
  recv_loop-Drained [] ep l stream e r = record { state = r; idle = inl e }
  recv_loop-Drained (x ∷ xs) ep l stream e r =
      recv_case x xs ep l stream e r r.flight refl (recv_loop-Drained xs)
