-- ===== src/Progress/Turns.antt =====
-- What a progress call does to both queues of an endpoint.
use libfabric_provider_dpa.Prelude.{
  ℕ, ◌≤◌, ◌≡◌, ◌≢◌, ◌∙◌, refl, ap, Bool, true, false, Option, some, ◌==◌, if◌then◌else◌, arith,
}
use libfabric_provider_dpa.Ring.{Link}
use libfabric_provider_dpa.Msg.{Ep, process_send_queue, process_recv_queue}
use libfabric_provider_dpa.Progress.{
  Waited, signalled, timed_out, wait_failed, with_time, both, then_recv, after_wait, progress_queue,
  progress_sendrecv_queues,
}

after_wait_lem :
    (waited : Waited) (timeout : ℕ) (process : Bool → Ep → Link → Option (Ep × Link)) (ep ep' : Ep)
    (l l' : Link)
    → process false ep l ≡ some (ep', l')
    → waited ≢ wait_failed
    → (left : ℕ) × (left ≤ timeout)
      × (after_wait waited timeout process ep l ≡ some (left, ep', l'))
after_wait_lem signalled timeout process ep ep' l l' e ok =
    (timeout, omega arith, ap (with_time timeout) e)
after_wait_lem timed_out timeout process ep ep' l l' e ok = (0, omega arith, ap (with_time 0) e)
after_wait_lem wait_failed timeout process ep ep' l l' e ok = absurd (ok refl)

not_failed : (b : Bool) (w : Waited) → w ≢ wait_failed → (if b then signalled else w) ≢ wait_failed
not_failed true w ok e = absurd cc
not_failed false w ok e = ok e

progress_queue_lem :
    (waited : Waited) (timeout : ℕ) (process : Bool → Ep → Link → Option (Ep × Link)) (ep ep' : Ep)
    (l l' : Link)
    → process false ep l ≡ some (ep', l')
    → waited ≢ wait_failed
    → (left : ℕ) × (left ≤ timeout)
      × (progress_queue waited timeout process ep l ≡ some (left, ep', l'))
unfolding progress_queue
progress_queue_lem waited timeout process ep ep' l l' e ok =
    after_wait_lem (if timeout == 0 then signalled else waited) timeout process ep ep' l l' e
      (not_failed (timeout == 0) waited ok)

-- Unless a wait fails with an error, a progress call processes the send queue and then the
-- receive queue, and leaves no more time than it was given.
pub progress_sendrecv_queues_lem :
    (for_send for_recv : Waited) (timeout : ℕ) (ep ep1 ep2 : Ep)
    (outward outward1 inward inward1 : Link)
    → process_send_queue false ep outward ≡ some (ep1, outward1)
    → process_recv_queue false ep1 inward ≡ some (ep2, inward1)
    → for_send ≢ wait_failed
    → for_recv ≢ wait_failed
    → (left : ℕ) × (left ≤ timeout)
      × (progress_sendrecv_queues for_send for_recv timeout ep outward inward
          ≡ some (left, ep2, outward1, inward1))
unfolding progress_sendrecv_queues
progress_sendrecv_queues_lem for_send for_recv timeout ep ep1 ep2 outward outward1 inward inward1
      sends recvs sent_ok recv_ok =
    let (left1, le1, e1) =
      progress_queue_lem for_send timeout process_send_queue ep ep1 outward outward1 sends
        sent_ok in
    let (left2, le2, e2) =
      progress_queue_lem for_recv left1 process_recv_queue ep1 ep2 inward inward1 recvs recv_ok in
    (left2, omega arith, ap (then_recv for_recv inward) e1 ∙ ap (both outward1) e2)

-- If waiting for the interrupt fails, nothing is processed and no time is left.
pub progress_queue-fails :
    (timeout : ℕ) (process : Bool → Ep → Link → Option (Ep × Link)) (ep : Ep) (l : Link)
    → timeout ≢ 0
    → progress_queue wait_failed timeout process ep l ≡ some (0, ep, l)
unfolding progress_queue
progress_queue-fails timeout process ep l ne = ground arith
