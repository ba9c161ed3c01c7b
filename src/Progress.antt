-- ===== src/Progress.antt =====
-- src/dpa_msg.c: the progress functions of the queues of an endpoint, and the vectored calls.
pub mod Turns
mod Tests
use libfabric_provider_dpa.Prelude.{
  ℕ, zero, suc, Bool, true, false, Option, none, some, ◌==◌, if◌then◌else◌,
}
use libfabric_provider_dpa.Fabric.{Ret}
use libfabric_provider_dpa.Ring.{Link, Buffer}
use libfabric_provider_dpa.Msg.{MsgQueueEntry, Ep, process_send_queue, process_recv_queue}
use libfabric_provider_dpa.Msg.Vectors.{FiMsg, dpa_recvmsg, dpa_sendmsg}

-- What `wait_interrupt` answers: DPA_ERR_OK, DPA_ERR_TIMEOUT or another error.
pub data Waited : Type 0 where
  signalled timed_out wait_failed : Waited

-- The time left and the state, once the queue is processed; none if it waits for a lock for ever.
abbrev pub with_time : ℕ → Option (Ep × Link) → Option (ℕ × Ep × Link)
with_time timeout none = none
with_time timeout (some (ep, l)) = some (timeout, ep, l)

abbrev pub after_wait :
    Waited → ℕ → (Bool → Ep → Link → Option (Ep × Link)) → Ep → Link → Option (ℕ × Ep × Link)
after_wait signalled timeout process ep l = with_time timeout (process false ep l)
after_wait timed_out timeout process ep l = with_time 0 (process false ep l)
after_wait wait_failed timeout process ep l = some (0, ep, l)

-- `progress_queue`: `waited` is the answer of the wait, which is made for a timeout other than 0; a
-- negative timeout, for no limit, is any number but 0.
unfoldable pub progress_queue :
    Waited → ℕ → (Bool → Ep → Link → Option (Ep × Link)) → Ep → Link → Option (ℕ × Ep × Link)
progress_queue waited timeout process ep l =
    after_wait (if timeout == 0 then signalled else waited) timeout process ep l

unfoldable pub progress_send_queue : Waited → ℕ → Ep → Link → Option (ℕ × Ep × Link)
unfolding progress_queue
progress_send_queue waited timeout ep l = progress_queue waited timeout process_send_queue ep l

unfoldable pub progress_recv_queue : Waited → ℕ → Ep → Link → Option (ℕ × Ep × Link)
unfolding progress_queue
progress_recv_queue waited timeout ep l = progress_queue waited timeout process_recv_queue ep l

-- The receive queue has the time that the send queue leaves. An endpoint sends into one
-- message buffer and receives from another, so there are two links.
abbrev pub both : Link → Option (ℕ × Ep × Link) → Option (ℕ × Ep × Link × Link)
both outward none = none
both outward (some (timeout, ep, inward)) = some (timeout, ep, outward, inward)

abbrev pub then_recv : Waited → Link → Option (ℕ × Ep × Link) → Option (ℕ × Ep × Link × Link)
then_recv waited inward none = none
then_recv waited inward (some (remaining, ep, outward)) =
    both outward (progress_recv_queue waited remaining ep inward)

unfoldable pub progress_sendrecv_queues :
    Waited → Waited → ℕ → Ep → Link → Link → Option (ℕ × Ep × Link × Link)
unfolding progress_send_queue progress_recv_queue
progress_sendrecv_queues for_send for_recv timeout ep outward inward =
    then_recv for_recv inward (progress_send_queue for_send timeout ep outward)

-- `dpa_sendv` and `dpa_recvv`: `iov` is none for NULL.
abbrev pub vector_msg : Option (ℕ × Buffer) → ℕ → ℕ → FiMsg
vector_msg iov count context = record { iov = iov; iov_count = count; msg_context = context }

unfoldable pub dpa_sendv : Option (ℕ × Buffer) → ℕ → ℕ → Ep → Link → Option (Ret × Ep × Link)
unfolding dpa_sendmsg
dpa_sendv iov count context ep l = dpa_sendmsg (some (vector_msg iov count context)) 0 ep l

unfoldable pub dpa_recvv : Option (ℕ × Buffer) → ℕ → ℕ → Ep → Link → Option (Ret × Ep × Link)
unfolding dpa_recvmsg
dpa_recvv iov count context ep l = dpa_recvmsg (some (vector_msg iov count context)) 0 ep l
