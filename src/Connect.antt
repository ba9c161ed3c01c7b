-- ===== src/Connect.antt =====
-- src/dpa_msg_cm.c: the data that two endpoints exchange to connect, and the steps of a
-- connection. What the calls of DPAlib answer is the record `Card`. An endpoint here has the fields
-- of `dpa_fid_ep` that connecting uses.
pub mod Setup
mod Tests
use libfabric_provider_dpa.Prelude.{
  ℕ, zero, suc, ◌+◌, ◌-◌, ◌*◌, Bool, true, false, not, ◌&&◌, ◌||◌, List, [], ◌∷◌, ◌++◌, Option,
  none, some, if◌then◌else◌, sub64,
}
use libfabric_provider_dpa.Fabric.{
  Errno, Ret, ok, err, success, no_eq, addr_in_use, conn_aborted, other,
}
use libfabric_provider_dpa.Av.{Addr}
use libfabric_provider_dpa.Caps.{Caps}
use libfabric_provider_dpa.Cq.{WaitObj, wait_none, wait_unspec, wait_other}
use libfabric_provider_dpa.Segments.{DpaError, dpa_ok, segment_id_used, dpa_failed}
use libfabric_provider_dpa.Buffers.{BufferInfo}

-- `segment_data`: an interrupt is none where its `has` field is 0.
pub record SegmentData : Type 0 where
  pub node_id : ℕ
  pub accept_int_id : ℕ
  pub segment_id : ℕ
  pub offset : ℕ
  pub size : ℕ
  pub recv_interrupt : Option ℕ
  pub send_interrupt : Option ℕ

-- What `disconnect_msg` gives back.
pub data Handle : Type 0 where
  map_sequence remote_map remote_segment send_interrupt_to recv_interrupt_to : Handle

-- What the card answers: what DPACreateDataInterrupt does about a number that is asked for, and
-- whether the device for it opens; whether the virtual devices open; the ids of the interrupts it
-- makes; whether a data interrupt of the peer can be connected, triggered and disconnected, a
-- segment connected and mapped, a sequence made, an interrupt connected; and whether a data
-- interrupt is removed and a handle given back.
pub record Card : Type 0 where
  pub opens_data : DpaError
  pub creates_data : ℕ → DpaError × ℕ
  pub opens_recv : Bool
  pub opens_send : Bool
  pub recv_int : Option ℕ
  pub send_int : Option ℕ
  pub data_connects : Bool
  pub data_triggers : Bool
  pub data_disconnects : Bool
  pub connects : ℕ → ℕ → Bool
  pub maps : ℕ → ℕ → Bool
  pub makes_sequence : Bool
  pub connects_int : ℕ → Bool
  pub removes_data : Bool
  pub gives_back : Handle → Bool

-- Queues and counters are given by their wait objects. `remote_status` is the mapped segment, as
-- id, offset and size; `sent_data` is what was sent, with where to; `events` counts the
-- FI_CONNECTED events. `own_interrupt` is the number of `connect_interrupt`, none where there is
-- none; `polls` says that the event queue's progress function is `progress_ep_eq`; `released`
-- lists the handles that were given back.
pub record CmEp : Type 0 where
  pub caps : Caps
  pub data_auto : Bool
  pub peer_addr : Addr
  pub recv_cq : Option WaitObj
  pub send_cq : Option WaitObj
  pub recv_cntr : Option WaitObj
  pub send_cntr : Option WaitObj
  pub buffer : Option BufferInfo
  pub read : ℕ
  pub remote_status : Option (ℕ × ℕ × ℕ)
  pub send_size : ℕ
  pub write : ℕ
  pub recv_remote_interrupt : Option ℕ
  pub send_remote_interrupt : Option ℕ
  pub has_sequence : Bool
  pub has_map : Bool
  pub has_segment : Bool
  pub released : List Handle
  pub has_eq : Bool
  pub polls : Bool
  pub own_interrupt : Option ℕ
  pub connect_data_id : ℕ
  pub sent_data : List (Addr × SegmentData)
  pub connected : Bool
  pub events : ℕ

abbrev pub waits_unspec : Option WaitObj → Bool
waits_unspec none = false
waits_unspec (some wait_none) = false
waits_unspec (some wait_unspec) = true
waits_unspec (some wait_other) = false

unfoldable pub wants_recv_interrupt : CmEp → Bool
wants_recv_interrupt ep = ep.data_auto || waits_unspec ep.recv_cq || waits_unspec ep.recv_cntr

-- `recv && send->wait_obj == FI_WAIT_UNSPEC`: none where `send` is NULL and is read.
abbrev pub reads_wait : Option WaitObj → Option WaitObj → Option Bool
reads_wait none send = some false
reads_wait (some r) none = none
reads_wait (some r) (some s) = some (waits_unspec (some s))

abbrev pub or_then : Option Bool → Option Bool → Option Bool
or_then none next = none
or_then (some true) next = some true
or_then (some false) next = next

unfoldable pub wants_send_interrupt : CmEp → Option Bool
wants_send_interrupt ep =
    or_then (some ep.data_auto)
      (or_then (reads_wait ep.recv_cq ep.send_cq) (reads_wait ep.recv_cntr ep.send_cntr))

-- `alloc_msg_buffer` once `get_empty_buffer` has answered `found`: none for a NULL that is read,
-- otherwise whether it succeeds, the segment data and the endpoint.
abbrev pub reserve : BufferInfo → SegmentData → CmEp → Bool × SegmentData × CmEp
reserve b sd ep = (
  true,
  record sd { segment_id = b.in_segment; offset = b.at_offset; size = b.buffer_size },
  record ep { buffer = some b; read = 0 },
)

abbrev pub set_recv : Card → CmEp → SegmentData → Option SegmentData
set_recv card ep sd =
    if not ep.caps.recv
    then some sd
    else if not card.opens_recv
    then none
    else if wants_recv_interrupt ep
    then elim card.recv_int [
      | none ↦ none
      | some id ↦ some (record sd { recv_interrupt = some id })
    ]
    else some (record sd { recv_interrupt = none })

-- The call that makes the send interrupt is not checked: the field is set all the same.
abbrev pub set_send : Card → SegmentData → Bool → SegmentData
set_send card sd true = record sd {
  send_interrupt = some (elim card.send_int [ none ↦ 0 | some id ↦ id ]);
}
set_send card sd false = record sd { send_interrupt = none }

abbrev pub with_send :
    Card → CmEp → BufferInfo → Option SegmentData → SegmentData → Option (Bool × SegmentData × CmEp)
with_send card ep b none old = some (false, old, ep)
with_send card ep b (some sd) old =
    if not ep.caps.send
    then some (reserve b sd ep)
    else if not card.opens_send
    then some (false, sd, ep)
    else elim (wants_send_interrupt ep) [
      | none ↦ none
      | some wants ↦ some (reserve b (set_send card sd wants) ep)
    ]

unfoldable pub alloc_msg_buffer :
    Card → Option BufferInfo → SegmentData → CmEp → Option (Bool × SegmentData × CmEp)
unfolding wants_recv_interrupt wants_send_interrupt
alloc_msg_buffer card found sd ep =
    if not (ep.caps.recv || ep.caps.send) then some (true, sd, ep) else elim found [
      | none ↦ some (false, sd, ep)
      | some b ↦ with_send card ep b (set_recv card ep sd) sd
    ]

-- `send_connect_data`: what triggering the interrupt answers is overwritten.
unfoldable pub send_connect_data : Card → SegmentData → CmEp → Bool × CmEp
send_connect_data card sd ep =
    if card.data_connects
    then (
      card.data_disconnects,
      if card.data_triggers
          then record ep { sent_data = ep.sent_data ++ ((ep.peer_addr, sd) ∷ []) }
          else ep,
    )
    else (false, ep)

abbrev pub send_allocated :
    Card → Option (Bool × SegmentData × CmEp) → Option (Bool × SegmentData × CmEp)
send_allocated card none = none
send_allocated card (some (false, sd, ep)) = some (false, sd, ep)
send_allocated card (some (true, sd, ep)) =
    let (done, ep1) = send_connect_data card sd ep in some (done, sd, ep1)

-- `alloc_send_buffer`, with the segment data that it leaves behind its pointer.
unfoldable pub alloc_send_buffer :
    Card → Option BufferInfo → SegmentData → CmEp → Option (Bool × SegmentData × CmEp)
unfolding alloc_msg_buffer send_connect_data
alloc_send_buffer card found sd ep = send_allocated card (alloc_msg_buffer card found sd ep)
