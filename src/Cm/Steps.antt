-- ===== src/Cm/Steps.antt =====
-- The single steps of a handshake in which no call fails.
use libfabric_provider_dpa.Prelude.{
  ℕ, ◌+◌, ◌≡◌, refl, Bool, true, [], ◌∷◌, ◌++◌, Option, none, some, arith, Bool-cases, inl, inr,
  if◌then◌else◌, sub64,
}
use libfabric_provider_dpa.Fabric.{success}
use libfabric_provider_dpa.Segments.{dpa_ok}
use libfabric_provider_dpa.Buffers.{BufferInfo}
use libfabric_provider_dpa.Connect.{
  SegmentData, Card, CmEp, alloc_msg_buffer, alloc_send_buffer, send_connect_data,
  wants_recv_interrupt, wants_send_interrupt, set_send,
}
use libfabric_provider_dpa.Peer.{
  status_size, no_segment, create_data_interrupt, accept_msg, ctrl_connect_msg, connect_int,
  connect_msg, send_msg_accept_data,
}
use libfabric_provider_dpa.Cm.{remove_interrupt, dpa_accept, dpa_connect, progress_ep_eq}

-- Every call succeeds; `id` is the number that is given when 0 is asked for.
pub record Works (card : Card) (id : ℕ) : Type 0 where
  pub opens : card.opens_data ≡ dpa_ok
  pub creates : card.creates_data 0 ≡ (dpa_ok, id)
  pub opens_r : card.opens_recv ≡ true
  pub opens_s : card.opens_send ≡ true
  pub makes : (r : ℕ) × (card.recv_int ≡ some r)
  pub connects_data : card.data_connects ≡ true
  pub triggers : card.data_triggers ≡ true
  pub disconnects : card.data_disconnects ≡ true
  pub connects_to : (n i : ℕ) → card.connects n i ≡ true
  pub maps_at : (o n : ℕ) → card.maps o n ≡ true
  pub reaches : (i : ℕ) → card.connects_int i ≡ true

-- An endpoint that sends and receives, with an event queue, before it is connected.
pub record IsFresh (ep : CmEp) : Type 0 where
  pub receives : ep.caps.recv ≡ true
  pub sends : ep.caps.send ≡ true
  pub eq_bound : ep.has_eq ≡ true
  pub no_buffer_yet : ep.buffer ≡ none
  pub reads_no_null : (wants : Bool) × (wants_send_interrupt ep ≡ some wants)

pub dpa_connect_lem :
    (card : Card) (id node : ℕ) (ep : CmEp)
    → Works card id
    → ep.has_eq ≡ true
    → dpa_connect card node ep ≡ (
      success,
      record ep {
        own_interrupt = some id;
        polls = true;
        sent_data =
            ep.sent_data ++ ((ep.peer_addr, record (no_segment node) { accept_int_id = id }) ∷ []);
      },
    )
unfolding dpa_connect ctrl_connect_msg create_data_interrupt send_connect_data
dpa_connect_lem card id node ep w e = ground arith

-- The data that `alloc_send_buffer` leaves and sends, with the interrupts it has made.
abbrev pub with_buffer : SegmentData → BufferInfo → Option ℕ → Option ℕ → SegmentData
with_buffer sd b r s = record sd {
  segment_id = b.in_segment;
  offset = b.at_offset;
  size = b.buffer_size;
  recv_interrupt = r;
  send_interrupt = s;
}

alloc_send_buffer_lem :
    (card : Card) (id : ℕ) (b : BufferInfo) (sd : SegmentData) (ep : CmEp)
    → Works card id
    → IsFresh ep
    → (r : Option ℕ) × (s : Option ℕ) × (alloc_send_buffer card (some b) sd ep
        ≡ some (
          true,
          with_buffer sd b r s,
          record ep {
            buffer = some b;
            read = 0;
            sent_data = ep.sent_data ++ ((ep.peer_addr, with_buffer sd b r s) ∷ []);
          },
        ))
unfolding alloc_send_buffer alloc_msg_buffer send_connect_data
alloc_send_buffer_lem card id b sd ep w f =
    let (wants, reads) = f.reads_no_null in
    (
      if wants_recv_interrupt ep then some w.makes.0 else none,
      (set_send card sd wants).send_interrupt,
      elim (Bool-cases (wants_recv_interrupt ep)) [
        | inl has_int ↦ ground arith
        | inr has_none ↦ ground arith
      ],
    )

-- The endpoint that `connect_msg` leaves, if nothing fails.
abbrev pub connected_ep : Card → SegmentData → CmEp → CmEp
connected_ep card sd ep = record ep {
  has_segment = true;
  has_map = true;
  has_sequence = card.makes_sequence;
  write = 0;
  send_size = sub64 sd.size status_size;
  remote_status = some (sd.segment_id, sd.offset, sd.size);
  send_remote_interrupt = sd.recv_interrupt;
  recv_remote_interrupt = sd.send_interrupt;
  events = ep.events + 1;
  connected = true;
}

connect_int_lem :
    (card : Card) (id : ℕ) (i : Option ℕ) → Works card id → connect_int card true i ≡ (true, i)
connect_int_lem card id none w = refl
connect_int_lem card id (some i) w = rw (w.reaches i) refl

connect_msg_lem :
    (card : Card) (id : ℕ) (sd : SegmentData) (ep : CmEp)
    → Works card id
    → ep.caps.recv ≡ true
    → ep.caps.send ≡ true
    → connect_msg card sd ep ≡ (true, connected_ep card sd ep)
unfolding connect_msg
connect_msg_lem card id sd ep w r s = ground (
  arith,
  w.connects_to ep.peer_addr.node_id sd.segment_id,
  w.maps_at sd.offset sd.size,
  connect_int_lem card id sd.recv_interrupt w,
  connect_int_lem card id sd.send_interrupt w,
)

pub dpa_accept_lem :
    (card : Card) (id node : ℕ) (b : BufferInfo) (ep : CmEp)
    → Works card id
    → IsFresh ep
    → ep.connect_data_id ≡ 0
    → (r : Option ℕ) × (s : Option ℕ) × (dpa_accept card node (some b) ep
        ≡ some (
          success,
          record ep {
            own_interrupt = some id;
            connect_data_id = id;
            buffer = some b;
            read = 0;
            polls = true;
            sent_data = ep.sent_data ++ ((ep.peer_addr, with_buffer (no_segment node) b r s) ∷ []);
          },
        ))
unfolding dpa_accept accept_msg send_msg_accept_data create_data_interrupt
dpa_accept_lem card id node b ep w f asks =
    let ep1 : CmEp = record ep { own_interrupt = some id; connect_data_id = id } in
    let f1 : IsFresh ep1 = record {
      receives = f.receives;
      sends = f.sends;
      eq_bound = f.eq_bound;
      no_buffer_yet = f.no_buffer_yet;
      reads_no_null = f.reads_no_null;
    } in
    let (r, s, e) = alloc_send_buffer_lem card id b (no_segment node) ep1 w f1 in
    (r, s, ground arith)

abbrev pub with_reply : CmEp → SegmentData → CmEp
with_reply ep sd = record ep { peer_addr = record ep.peer_addr { connect_id = sd.accept_int_id } }

pub progress_ep_eq-passive :
    (card : Card) (id timeout : ℕ) (found : Option BufferInfo) (b : BufferInfo) (sd : SegmentData)
    (ep : CmEp)
    → Works card id
    → ep.caps.recv ≡ true
    → ep.caps.send ≡ true
    → ep.buffer ≡ some b
    → progress_ep_eq card found (some sd) timeout ep
      ≡ some (timeout, connected_ep card sd (remove_interrupt card (with_reply ep sd)))
unfolding progress_ep_eq
progress_ep_eq-passive card id timeout found b sd ep w r s has_buffer =
    let ep1 = remove_interrupt card (with_reply ep sd) in
    let connects = connect_msg_lem card id sd ep1 w (ground arith) (ground arith) in ground arith

pub progress_ep_eq-active :
    (card : Card) (id timeout : ℕ) (b : BufferInfo) (sd : SegmentData) (ep : CmEp)
    → Works card id
    → IsFresh ep
    → (r : Option ℕ) × (s : Option ℕ) × (progress_ep_eq card (some b) (some sd) timeout ep
        ≡ some (
          timeout,
          connected_ep card (with_buffer sd b r s) (
              remove_interrupt card (record (with_reply ep sd) {
                buffer = some b;
                read = 0;
                sent_data =
                    ep.sent_data
                    ++ ((
                      record ep.peer_addr { connect_id = sd.accept_int_id },
                      with_buffer sd b r s,
                    )
                        ∷ []);
              })),
        ))
unfolding progress_ep_eq
progress_ep_eq-active card id timeout b sd ep w f =
    let f1 : IsFresh (with_reply ep sd) = record {
      receives = f.receives;
      sends = f.sends;
      eq_bound = f.eq_bound;
      no_buffer_yet = f.no_buffer_yet;
      reads_no_null = f.reads_no_null;
    } in
    let (r, s, e) = alloc_send_buffer_lem card id b sd (with_reply ep sd) w f1 in
    let ep1 : CmEp = remove_interrupt card (record (with_reply ep sd) {
      buffer = some b;
      read = 0;
      sent_data =
          ep.sent_data
          ++ ((record ep.peer_addr { connect_id = sd.accept_int_id }, with_buffer sd b r s) ∷ []);
    }) in
    let connects =
      connect_msg_lem card id (with_buffer sd b r s) ep1 w (ground arith) (ground arith) in
    (r, s, ground arith)
