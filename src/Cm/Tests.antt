-- ===== src/Cm/Tests.antt =====
-- A run of a handshake.
use libfabric_provider_dpa.Prelude.{◌≡◌, refl, true, false, [], some, List, ◌∷◌, ◌++◌, arith}
use libfabric_provider_dpa.Connect.{Card, CmEp, wants_send_interrupt}
use libfabric_provider_dpa.Segments.{dpa_ok}
use libfabric_provider_dpa.Buffers.{BufferInfo}
use libfabric_provider_dpa.Cm.{Pep}
use libfabric_provider_dpa.Cm.Samples.{card, active, own}
use libfabric_provider_dpa.Cm.Steps.{Works, IsFresh}
use libfabric_provider_dpa.Cm.Exchange.{Nodes, handshake}
use libfabric_provider_dpa.Cm.Handshake.{IsConnectedTo, Outcome, handshake_lem}
use libfabric_provider_dpa.Cm.Session.{to_active, one_way, handshake-delivers}
use libfabric_provider_dpa.Ring.Samples.{seven_eight, nine}
use libfabric_provider_dpa.Msg.Samples.{endpoint, request, room}
use libfabric_provider_dpa.Msg.Queues.{delivered}
use libfabric_provider_dpa.Msg.Calls.{Op, System, post_send, post_recv, progress_recv, calls}
use libfabric_provider_dpa.Msg.Rounds.{rounds}

abbrev theirs : BufferInfo
theirs = record { in_segment = 3; at_offset = 0; buffer_size = 128 }

abbrev nodes : Nodes
nodes = record {
  active_card = card;
  passive_card = card;
  active_node = 2;
  passive_node = 4;
  active_buffer = own;
  passive_buffer = theirs;
  timeout = 5;
}

abbrev listening : Pep
listening = record {
  pep_has_eq = true;
  interrupt_id = 9;
  listens_on = some 9;
  pep_polls = true;
  requests = [];
}

abbrev card-Works : Works card 7
card-Works = record {
  opens = refl;
  creates = refl;
  opens_r = refl;
  opens_s = refl;
  makes = (30, refl);
  connects_data = refl;
  triggers = refl;
  disconnects = refl;
  connects_to = λ n i. refl;
  maps_at = λ o n. refl;
  reaches = λ i. refl;
}

active-IsFresh : IsFresh active
unfolding wants_send_interrupt
active-IsFresh = record {
  receives = refl;
  sends = refl;
  eq_bound = refl;
  no_buffer_yet = refl;
  reads_no_null = (false, refl);
}

-- The endpoint that connects to interrupt 9, on which node 4 listens.
abbrev caller : CmEp
caller = record active { peer_addr = record { node_id = 4; connect_id = 9 } }

caller-IsFresh : IsFresh caller
unfolding wants_send_interrupt
caller-IsFresh = record {
  receives = refl;
  sends = refl;
  eq_bound = refl;
  no_buffer_yet = refl;
  reads_no_null = (false, refl);
}

-- The passive endpoint's interrupt gets the number 7, and is missed.
handshake_lem_example :
    (a : CmEp) × (p : CmEp) × (handshake nodes caller active listening ≡ some (a, p))
    × IsConnectedTo caller a own own
    × (a.peer_addr ≡ record { node_id = 4; connect_id = 0 })
    × Outcome active p 7 2 theirs own
handshake_lem_example =
    handshake_lem nodes 7 7 9 caller active listening card-Works card-Works caller-IsFresh
      active-IsFresh refl refl refl

-- A card that gives the interrupt number that is asked for.
abbrev zero_card : Card
zero_card = record card { creates_data = λ i. (dpa_ok, i) }

abbrev zero_card-Works : Works zero_card 0
zero_card-Works = record {
  opens = refl;
  creates = refl;
  opens_r = refl;
  opens_s = refl;
  makes = (30, refl);
  connects_data = refl;
  triggers = refl;
  disconnects = refl;
  connects_to = λ n i. refl;
  maps_at = λ o n. refl;
  reaches = λ i. refl;
}

-- Both nodes have found the first buffer of their first segment.
abbrev alike : Nodes
alike = record nodes { passive_buffer = own; passive_card = zero_card }

abbrev script : List Op
script =
    post_send (request seven_eight)
    ∷ post_recv room
    ∷ progress_recv
    ∷ post_send (request nine)
    ∷ post_recv room
    ∷ []

handshake-delivers_example :
    (a : CmEp) × (p : CmEp) × (handshake alike caller active listening ≡ some (a, p))
    × ((start : System) × (one_way to_active (λ i. 0) 2 4 a p (endpoint false) (endpoint false)
          ≡ some start)
        × ((final : System) × (calls (script ++ rounds 2) start ≡ some final)
            × (delivered final.receiver.filled ≡ (7 ∷ 8 ∷ []) ∷ (9 ∷ []) ∷ [])))
handshake-delivers_example =
    handshake-delivers 16 (omega arith) alike 7 9 caller active listening card-Works zero_card-Works
      caller-IsFresh active-IsFresh refl refl refl refl
      (record { aligned = omega arith; roomy = omega arith; bounded = omega arith }) (omega arith)
      to_active (λ i. 0) (λ i. refl) (endpoint false) (endpoint false)
      (record {
        no_sends = refl;
        sender_free = refl;
        receiver_free = refl;
        nothing_yet = refl;
        buffers = tt;
      })
      script
      (
        (refl, (omega arith, omega arith)),
        (omega arith, (tt, ((refl, (omega arith, omega arith)), (omega arith, tt)))),
      )
      (omega arith)
