-- ===== src/Msg/Send.antt =====
-- `try_send` on a message buffer that holds a queue of messages.
use libfabric_provider_dpa.Prelude.{
  ℕ, ◌+◌, ◌^◌, ◌<◌, ◌≤◌, ◌≡◌, ◌⊎◌, inl, inr, List, [], ◌∷◌, ◌++◌, arith, ltb_cases, length, add64,
}
use libfabric_provider_dpa.Fabric.{err, success, again}
use libfabric_provider_dpa.Ring.{Link, buffer_word, write_msg, remote_space}
use libfabric_provider_dpa.Ring.Offset.{remote_space_lem}
use libfabric_provider_dpa.Ring.View.{image, Holds}
use libfabric_provider_dpa.Ring.Enqueue.{write_msg-Holds}
use libfabric_provider_dpa.Msg.{MsgQueueEntry, Ep, try_send, sent}

-- The free space that the sender computes is what the queue leaves of the buffer.
pub space_of_queue :
    (l : Link) (q : List (List ℕ)) → Holds l q → remote_space l + length (image q) ≡ l.send.size
space_of_queue l q holds =
    remote_space_lem l (length (image q)) holds.size (rw holds.reported holds.range)

-- For a request whose length is that of its bytes and below 2^63:
-- `try_send` on a buffer that holds the queue `q` sends exactly when the message and its size word
-- fit the space that `q` leaves. Then it completes the request and the buffer holds `q` followed by
-- the message; otherwise it answers -FI_EAGAIN and changes nothing.
pub try_send_lem :
    (entry : MsgQueueEntry) (ep : Ep) (l : Link) (q : List (List ℕ))
    → Holds l q
    → entry.buffer.len ≡ length entry.buffer.buf
    → entry.buffer.len < 2 ^ 63
    → (8 + entry.buffer.len + length (image q) ≤ l.send.size)
        × (try_send entry ep l ≡ (success, sent entry ep, write_msg entry.buffer l))
        × Holds (write_msg entry.buffer l) (q ++ (entry.buffer.buf ∷ []))
      ⊎ (l.send.size < 8 + entry.buffer.len + length (image q))
        × (try_send entry ep l ≡ (err again, ep, l))
unfolding try_send
try_send_lem entry ep l q holds len small =
    elim (ltb_cases (remote_space l) (add64 entry.buffer.len buffer_word)) [
      | inl (t, lt) ↦ inr (omega (arith, space_of_queue l q holds), rw t)
      | inr (f, le) ↦
          let room : 8 + entry.buffer.len + length (image q) ≤ l.send.size =
            omega (arith, space_of_queue l q holds) in
          inl (room, rw f, write_msg-Holds l q entry.buffer holds len room)
    ]
