-- ===== src/Cm.antt =====
-- src/dpa_cm.c: listening, connecting, accepting and shutting down, and the progress functions of
-- the event queues. An answer none is a NULL that is read. `node` is the number of the local node,
-- and `found` what `get_empty_buffer` answers.
pub mod Exchange
pub mod Handshake
pub mod Link
pub mod Samples
pub mod Session
pub mod Steps
mod Tests
use libfabric_provider_dpa.Prelude.{
  ℕ, ◌+◌, Bool, true, false, not, List, [], ◌∷◌, ◌++◌, Option, none, some, if◌then◌else◌,
}
use libfabric_provider_dpa.Fabric.{
  Errno, Ret, ok, err, success, no_eq, addr_in_use, conn_aborted, other,
}
use libfabric_provider_dpa.Av.{Addr}
use libfabric_provider_dpa.Segments.{DpaError, dpa_ok, segment_id_used, dpa_failed}
use libfabric_provider_dpa.Buffers.{BufferInfo}
use libfabric_provider_dpa.Connect.{SegmentData, Card, CmEp, alloc_send_buffer}
use libfabric_provider_dpa.Peer.{
  create_data_interrupt, accept_msg, ctrl_connect_msg, connect_msg, disconnect_msg,
}

-- `dpa_fid_pep`, as far as listening uses it: the number of its interrupt, and that of the one it
-- listens on. `requests` are the addresses in its FI_CONNREQ events.
pub record Pep : Type 0 where
  pub pep_has_eq : Bool
  pub interrupt_id : ℕ
  pub listens_on : Option ℕ
  pub pep_polls : Bool
  pub requests : List Addr

abbrev pub listen_on : Pep → DpaError × ℕ → Ret × Pep
listen_on pep (dpa_ok, id) =
    (success, record pep { interrupt_id = id; listens_on = some id; pep_polls = true })
listen_on pep (segment_id_used, id) = (err addr_in_use, record pep { interrupt_id = id })
listen_on pep (dpa_failed, id) = (err other, record pep { interrupt_id = id })

unfoldable pub dpa_listen : Card → Pep → Ret × Pep
unfolding create_data_interrupt
dpa_listen card pep =
    if not pep.pep_has_eq
    then (err no_eq, pep)
    else listen_on pep (create_data_interrupt card pep.interrupt_id)

-- `dpa_accept` writes to the event queue without a test for NULL.
abbrev pub poll_accepted : Option (Ret × CmEp) → Option (Ret × CmEp)
poll_accepted none = none
poll_accepted (some (ok n, ep)) =
    if ep.has_eq then some (success, record ep { polls = true }) else none
poll_accepted (some (err e, ep)) = some (err conn_aborted, ep)

unfoldable pub dpa_accept : Card → ℕ → Option BufferInfo → CmEp → Option (Ret × CmEp)
unfolding accept_msg
dpa_accept card node found ep = poll_accepted (accept_msg card node found ep)

abbrev pub poll_connecting : Bool × CmEp → Ret × CmEp
poll_connecting (true, ep) = (success, record ep { polls = true })
poll_connecting (false, ep) = (err conn_aborted, ep)

unfoldable pub dpa_connect : Card → ℕ → CmEp → Ret × CmEp
unfolding ctrl_connect_msg
dpa_connect card node ep =
    if not ep.has_eq then (err no_eq, ep) else poll_connecting (ctrl_connect_msg card node ep)

abbrev pub shut : Bool × CmEp → Ret × CmEp
shut (true, ep) = (success, ep)
shut (false, ep) = (err other, ep)

unfoldable pub dpa_shutdown : Card → CmEp → Ret × CmEp
unfolding disconnect_msg
dpa_shutdown card ep = if not ep.caps.msg then (success, ep) else shut (disconnect_msg card ep)

-- `connection_request`: the event FI_CONNREQ with the address of the endpoint that connects.
unfoldable pub connection_request : Pep → SegmentData → Pep
connection_request pep sd = record pep {
  requests = pep.requests ++ (record { node_id = sd.node_id; connect_id = sd.accept_int_id } ∷ []);
}

-- `progress_pep_eq`: `waited` is what `progress_eq` leaves in the data, none for a timeout.
unfoldable pub progress_pep_eq : Option SegmentData → ℕ → Pep → ℕ × Pep
unfolding connection_request
progress_pep_eq none timeout pep = (0, pep)
progress_pep_eq (some sd) timeout pep = (timeout, connection_request pep sd)

-- `progress_ep_eq`, in the same way. The result is the time that is left.
abbrev pub connected_or_not : Card → ℕ → Bool × CmEp → ℕ × CmEp
connected_or_not card timeout (true, ep) = (timeout, ep)
connected_or_not card timeout (false, ep) = (0, (disconnect_msg card ep).1)

abbrev pub remove_interrupt : Card → CmEp → CmEp
remove_interrupt card ep = if card.removes_data then record ep { own_interrupt = none } else ep

abbrev pub allocated_then : Card → ℕ → Option (Bool × SegmentData × CmEp) → Option (ℕ × CmEp)
allocated_then card timeout none = none
allocated_then card timeout (some (done, sd, ep)) =
    some (connected_or_not card timeout (connect_msg card sd (remove_interrupt card ep)))

abbrev pub by_buffer {ℓ} : {A : Type ℓ} → Option BufferInfo → A → A → A
by_buffer none allocated kept = allocated
by_buffer (some b) allocated kept = kept

unfoldable pub progress_ep_eq :
    Card → Option BufferInfo → Option SegmentData → ℕ → CmEp → Option (ℕ × CmEp)
unfolding alloc_send_buffer connect_msg disconnect_msg
progress_ep_eq card found none timeout ep = some (0, ep)
progress_ep_eq card found (some sd) timeout ep =
    let ep1 : CmEp = record ep {
      peer_addr = record ep.peer_addr { connect_id = sd.accept_int_id };
    } in
    allocated_then card timeout
      (by_buffer ep.buffer (alloc_send_buffer card found sd ep1) (some (true, sd, ep1)))
