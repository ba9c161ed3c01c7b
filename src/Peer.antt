-- ===== src/Peer.antt =====
-- src/dpa_msg_cm.c: connecting to the peer's buffer, and what either side sends to set up a
-- connection; giving back what connecting has taken. `node` is the number of the local node.
pub mod Release
mod Tests
use libfabric_provider_dpa.Prelude.{
  ℕ, zero, suc, ◌+◌, ◌-◌, ◌*◌, Bool, true, false, not, ◌&&◌, ◌||◌, List, [], ◌∷◌, ◌++◌, Option,
  none, some, if◌then◌else◌, sub64,
}
use libfabric_provider_dpa.Fabric.{
  Errno, Ret, ok, err, success, no_eq, addr_in_use, conn_aborted, other,
}
use libfabric_provider_dpa.Av.{Addr}
use libfabric_provider_dpa.Caps.{Caps}
use libfabric_provider_dpa.Cq.{WaitObj, wait_none, wait_unspec, wait_other}
use libfabric_provider_dpa.Segments.{DpaError, dpa_ok, segment_id_used, dpa_failed}
use libfabric_provider_dpa.Buffers.{BufferInfo}
use libfabric_provider_dpa.Connect.{
  Handle, map_sequence, remote_map, remote_segment, send_interrupt_to, recv_interrupt_to,
  SegmentData, Card, CmEp, send_connect_data, alloc_send_buffer,
}

-- BUFFER_WORD, the size of `buffer_status` before its data.
abbrev pub status_size : ℕ
status_size = 8

-- The part of `connect_msg` that maps the peer's buffer. For an endpoint that neither sends nor
-- receives, the code answers with a variable that was never set; here that is a success.
abbrev pub map_remote : Card → SegmentData → CmEp → Bool × CmEp
map_remote card sd ep =
    if not (ep.caps.recv || ep.caps.send)
    then (true, ep)
    else if not (card.connects ep.peer_addr.node_id sd.segment_id)
    then (false, ep)
    else if not (card.maps sd.offset sd.size)
    then (false, record ep { has_segment = true })
    else (
      true,
      record ep {
        has_segment = true;
        has_map = true;
        has_sequence = card.makes_sequence;
        write = 0;
        send_size = sub64 sd.size status_size;
        remote_status = some (sd.segment_id, sd.offset, sd.size);
      },
    )

-- Whether the peer's interrupt has to be connected, and then whether it can be.
abbrev pub connect_int : Card → Bool → Option ℕ → Bool × Option ℕ
connect_int card false id = (true, none)
connect_int card true none = (true, none)
connect_int card true (some id) = if card.connects_int id then (true, some id) else (false, none)

abbrev pub connect_ints : Card → SegmentData → Bool × CmEp → Bool × CmEp
connect_ints card sd (false, ep) = (false, ep)
connect_ints card sd (true, ep) =
    let (done1, recv_id) = connect_int card ep.caps.send sd.recv_interrupt in
    let (done2, send_id) = connect_int card ep.caps.recv sd.send_interrupt in
    if not done1
    then (false, ep)
    else if not done2
    then (false, record ep { send_remote_interrupt = recv_id })
    else (
      true,
      record ep {
        send_remote_interrupt = recv_id;
        recv_remote_interrupt = send_id;
        events = ep.events + 1;
        connected = true;
      },
    )

unfoldable pub connect_msg : Card → SegmentData → CmEp → Bool × CmEp
connect_msg card sd ep = connect_ints card sd (map_remote card sd ep)

-- `disconnect_msg`: it gives back what it has, and keeps the handles.
abbrev pub give_back : Handle → Bool → List Handle → List Handle
give_back h true released = released ++ (h ∷ [])
give_back h false released = released

abbrev pub has : Option ℕ → Bool
has none = false
has (some id) = true

abbrev pub gives_back_if : Card → Handle → Bool → Bool
gives_back_if card h true = card.gives_back h
gives_back_if card h false = true

unfoldable pub disconnect_msg : Card → CmEp → Bool × CmEp
disconnect_msg card ep =
    let released1 = give_back map_sequence ep.has_sequence ep.released in
    let released2 = give_back remote_map ep.has_map released1 in
    let released3 = give_back remote_segment ep.has_segment released2 in
    let released4 = give_back send_interrupt_to (has ep.send_remote_interrupt) released3 in
    let released5 = give_back recv_interrupt_to (has ep.recv_remote_interrupt) released4 in
    (
      gives_back_if card remote_map ep.has_map
          && gives_back_if card remote_segment ep.has_segment
          && gives_back_if card send_interrupt_to (has ep.send_remote_interrupt)
          && gives_back_if card recv_interrupt_to (has ep.recv_remote_interrupt),
      record ep { connected = false; released = released5 },
    )

-- `create_data_interrupt`: the answer, and the number that it leaves behind its pointer.
unfoldable pub create_data_interrupt : Card → ℕ → DpaError × ℕ
create_data_interrupt card asked = elim card.opens_data [
  | dpa_ok ↦ card.creates_data asked
  | segment_id_used ↦ (segment_id_used, asked)
  | dpa_failed ↦ (dpa_failed, asked)
]

abbrev pub no_segment : ℕ → SegmentData
no_segment node = record {
  node_id = node;
  accept_int_id = 0;
  segment_id = 0;
  offset = 0;
  size = 0;
  recv_interrupt = none;
  send_interrupt = none;
}

-- `ctrl_connect_msg`, on the node of that number.
abbrev pub send_interrupt_id : Card → ℕ → CmEp → DpaError × ℕ → Bool × CmEp
send_interrupt_id card node ep (dpa_ok, id) =
    send_connect_data card (record (no_segment node) { accept_int_id = id })
      (record ep { own_interrupt = some id })
send_interrupt_id card node ep (segment_id_used, id) = (false, ep)
send_interrupt_id card node ep (dpa_failed, id) = (false, ep)

unfoldable pub ctrl_connect_msg : Card → ℕ → CmEp → Bool × CmEp
unfolding create_data_interrupt send_connect_data
ctrl_connect_msg card node ep =
    send_interrupt_id card node ep (create_data_interrupt card (no_segment node).accept_int_id)

-- `send_msg_accept_data`: the number of the interrupt goes to `ep->connect_data`.
abbrev pub without_data : Option (Bool × SegmentData × CmEp) → Option (Bool × CmEp)
without_data none = none
without_data (some (done, sd, ep)) = some (done, ep)

abbrev pub send_buffer : Card → ℕ → Option BufferInfo → CmEp → DpaError × ℕ → Option (Bool × CmEp)
send_buffer card node found ep (dpa_ok, id) = without_data (
    alloc_send_buffer card found (no_segment node)
      (record ep { own_interrupt = some id; connect_data_id = id }))
send_buffer card node found ep (segment_id_used, id) =
    some (false, record ep { connect_data_id = id })
send_buffer card node found ep (dpa_failed, id) = some (false, record ep { connect_data_id = id })

unfoldable pub send_msg_accept_data : Card → ℕ → Option BufferInfo → CmEp → Option (Bool × CmEp)
unfolding create_data_interrupt alloc_send_buffer
send_msg_accept_data card node found ep =
    send_buffer card node found ep (create_data_interrupt card ep.connect_data_id)

-- `accept_msg`.
abbrev pub aborted_unless : Option (Bool × CmEp) → Option (Ret × CmEp)
aborted_unless none = none
aborted_unless (some (true, ep)) = some (success, ep)
aborted_unless (some (false, ep)) = some (err conn_aborted, ep)

unfoldable pub accept_msg : Card → ℕ → Option BufferInfo → CmEp → Option (Ret × CmEp)
unfolding send_msg_accept_data
accept_msg card node found ep = aborted_unless (send_msg_accept_data card node found ep)
