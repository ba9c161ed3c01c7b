-- ===== src/Cm/Handshake.antt =====
-- What a whole handshake leaves on both sides.
use libfabric_provider_dpa.Prelude.{
  ℕ, ◌+◌, ◌≡◌, ◌≢◌, ◌==◌, Bool-cases, inl, inr, refl, ap, ◌∙◌, true, List, [], ◌∷◌, ◌++◌, Option,
  none, some, arith, sub64,
}
use libfabric_provider_dpa.Fabric.{success}
use libfabric_provider_dpa.Av.{Addr}
use libfabric_provider_dpa.Buffers.{BufferInfo}
use libfabric_provider_dpa.Connect.{SegmentData, CmEp}
use libfabric_provider_dpa.Peer.{no_segment, status_size}
use libfabric_provider_dpa.Cm.{remove_interrupt, Pep, progress_ep_eq}
use libfabric_provider_dpa.Cm.Steps.{
  Works, IsFresh, with_buffer, connected_ep, with_reply, dpa_connect_lem, dpa_accept_lem,
  progress_ep_eq-passive, progress_ep_eq-active,
}
use libfabric_provider_dpa.Cm.Exchange.{
  Nodes, received, handshake, IsFresh-peer, IsFresh-connecting, received-append, received-other,
  remove_interrupt-kept, handshake-steps,
}

-- What a handshake leaves on one side: it is connected, with one more FI_CONNECTED event and its
-- own buffer, and it has mapped the bytes of `mapped` on the peer's node. Both offsets are 0.
pub record IsConnectedTo (before ep : CmEp) (own mapped : BufferInfo) : Type 0 where
  pub is_connected : ep.connected ≡ true
  pub one_event : ep.events ≡ before.events + 1
  pub has_own : ep.buffer ≡ some own
  pub maps_there : ep.remote_status ≡ some (mapped.in_segment, mapped.at_offset, mapped.buffer_size)
  pub room_there : ep.send_size ≡ sub64 mapped.buffer_size status_size
  pub writes_from : ep.write ≡ 0
  pub reads_from : ep.read ≡ 0

-- What the last data of a handshake does on the passive side, whose interrupt has the number `id`:
-- it was sent to number 0, so that it connects the endpoint if `id` is 0, and never arrives
-- otherwise.
pub data Outcome (before ep : CmEp) (id node : ℕ) (own mapped : BufferInfo) : Type 0 where
  reached :
      id ≡ 0
      → IsConnectedTo before ep own mapped
      → ep.peer_addr.node_id ≡ node
      → Outcome before ep id node own mapped
  missed :
      id ≢ 0
      → ep.connected ≡ before.connected
      → ep.events ≡ before.events
      → ep.remote_status ≡ before.remote_status
      → Outcome before ep id node own mapped

-- The end of a handshake on the passive side.
last_step :
    (n : Nodes) (id : ℕ) (before ep : CmEp) (active3 : CmEp) (sent : List (Addr × SegmentData))
    (to : Addr) (d : SegmentData)
    → Works n.passive_card id
    → ep.caps.recv ≡ true
    → ep.caps.send ≡ true
    → ep.buffer ≡ some n.passive_buffer
    → ep.own_interrupt ≡ some id
    → ep.peer_addr.node_id ≡ n.active_node
    → ep.connected ≡ before.connected
    → ep.events ≡ before.events
    → ep.remote_status ≡ before.remote_status
    → ep.read ≡ 0
    → active3.sent_data ≡ sent ++ ((to, d) ∷ [])
    → to.node_id ≡ n.passive_node
    → to.connect_id ≡ 0
    → (reply : Option SegmentData) × (left : ℕ) × (ep' : CmEp) × (received n.passive_node
          ep.own_interrupt active3
        ≡ reply)
      × (progress_ep_eq n.passive_card none reply n.timeout ep ≡ some (left, ep'))
      × Outcome before ep' id n.active_node n.passive_buffer
          (record { in_segment = d.segment_id; at_offset = d.offset; buffer_size = d.size })
unfolding progress_ep_eq
last_step n id before ep active3 sent to d w r s b own peer off ev st rd e on_node to_zero =
    elim (Bool-cases (id == 0)) [
      | inl zero_id ↦ (
        some d,
        n.timeout,
        connected_ep n.passive_card d (remove_interrupt n.passive_card (with_reply ep d)),
        ap (λ o. received n.passive_node o active3) own
            ∙ received-append n.passive_node id active3 sent to d e on_node
                (ground (arith, to_zero)),
        progress_ep_eq-passive n.passive_card id n.timeout none n.passive_buffer d ep w r s b,
        reached (ground arith)
            (record {
              is_connected = refl;
              one_event = ground arith;
              has_own = ground arith;
              maps_there = refl;
              room_there = refl;
              writes_from = refl;
              reads_from = ground arith;
            })
            (ground arith),
      )
      | inr other_id ↦ (
        none,
        0,
        ep,
        ap (λ o. received n.passive_node o active3) own
            ∙ received-other n.passive_node id active3 sent to d e (ground (arith, to_zero)),
        refl,
        missed (ground arith) off ev st,
      )
    ]

-- Let no call fail, on either of two fresh endpoints that send and receive, the passive one with no
-- interrupt number yet, and let the active one connect to the interrupt that its peer listens on.
-- Then a handshake ends with the active side connected, with its own buffer, one event more and
-- both offsets 0; it has mapped, on the passive side's node, the place of its own buffer, not that
-- of the passive side's. Its last data goes to interrupt 0 of the passive node: if that is the
-- passive endpoint's interrupt, the passive side is connected in the same way and has mapped the
-- active side's buffer; if its interrupt has another number, its events, its mapping and whether it
-- is connected stay as before.
pub handshake_lem :
    (n : Nodes) (active_id passive_id i : ℕ) (active passive : CmEp) (pep : Pep)
    → Works n.active_card active_id
    → Works n.passive_card passive_id
    → IsFresh active
    → IsFresh passive
    → passive.connect_data_id ≡ 0
    → active.peer_addr ≡ record { node_id = n.passive_node; connect_id = i }
    → pep.listens_on ≡ some i
    → (a : CmEp) × (p : CmEp) × (handshake n active passive pep ≡ some (a, p))
      × IsConnectedTo active a n.active_buffer n.active_buffer
      × (a.peer_addr ≡ record { node_id = n.passive_node; connect_id = 0 })
      × Outcome passive p passive_id n.active_node n.passive_buffer n.active_buffer
handshake_lem n id id' i active passive pep w w' f f' asks to_pep listens =
    let first = record (no_segment n.active_node) { accept_int_id = id } in
    let sent1 = active.sent_data ++ ((active.peer_addr, first) ∷ []) in
    let f1 = IsFresh-connecting active id sent1 f in
    let active1 : CmEp = record active {
      own_interrupt = some id;
      polls = true;
      sent_data = sent1;
    } in
    let asked : Addr = record { node_id = n.active_node; connect_id = id } in
    let f2 = IsFresh-peer passive asked f' in
    let e1 = dpa_connect_lem n.active_card id n.active_node active w f.eq_bound in
    let (r, s, e2) =
      dpa_accept_lem n.passive_card id' n.passive_node n.passive_buffer
        (record passive { peer_addr = asked }) w' f2 asks in
    let data2 = with_buffer (no_segment n.passive_node) n.passive_buffer r s in
    let (r', s', e3) =
      progress_ep_eq-active n.active_card id n.timeout n.active_buffer data2 active1 w f1 in
    let addr3 : Addr = record active.peer_addr { connect_id = 0 } in
    let data3 = with_buffer data2 n.active_buffer r' s' in
    let replied : CmEp = record (with_reply active1 data2) {
      buffer = some n.active_buffer;
      read = 0;
      sent_data = sent1 ++ ((addr3, data3) ∷ []);
    } in
    let kept3 = remove_interrupt-kept n.active_card replied in
    let active3 = connected_ep n.active_card data3 (remove_interrupt n.active_card replied) in
    let passive2 : CmEp = record passive {
      peer_addr = asked;
      own_interrupt = some id';
      connect_data_id = id';
      buffer = some n.passive_buffer;
      read = 0;
      polls = true;
      sent_data = passive.sent_data ++ ((asked, data2) ∷ []);
    } in
    let on_passive : active.peer_addr.node_id ≡ n.passive_node = ap (λ a. a.node_id) to_pep in
    let (reply, left, passive4, e4, e5, outcome) =
      last_step n id' passive passive2 active3 sent1 addr3 data3 w' f'.receives f'.sends refl refl
        refl refl refl refl refl kept3.0 on_passive refl in
    let arrives1 : received n.passive_node pep.listens_on active1 ≡ some first =
      ap (λ o. received n.passive_node o active1) listens
      ∙ received-append n.passive_node i active1 active.sent_data active.peer_addr first refl
          on_passive (ap (λ a. a.connect_id) to_pep) in
    (
      active3,
      passive4,
      handshake-steps n active active1 active3 passive passive2 passive4 pep first data2 reply
          success success left e1 arrives1 e2
          (received-append n.active_node id passive2 passive.sent_data asked data2 refl refl refl)
          e3 e4 e5,
      record {
        is_connected = refl;
        one_event = ground arith;
        has_own = ground arith;
        maps_there = refl;
        room_there = refl;
        writes_from = refl;
        reads_from = ground arith;
      },
      kept3.1 ∙ ap (λ (a : Addr). record a { connect_id = 0 }) to_pep,
      outcome,
    )
