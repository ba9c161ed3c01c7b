-- ===== src/Cm/Session.antt =====
-- From a handshake to messages.
use libfabric_provider_dpa.Prelude.{
  ℕ, ◌+◌, ◌^◌, ◌<◌, ◌≤◌, ◌≡◌, refl, ap, subst, false, List, [], ◌++◌, Option, none, some, arith,
  length,
}
use libfabric_provider_dpa.Prelude.Bytes.{Mem}
use libfabric_provider_dpa.Buffers.{BufferInfo}
use libfabric_provider_dpa.Connect.{CmEp}
use libfabric_provider_dpa.Cm.{Pep}
use libfabric_provider_dpa.Cm.Steps.{Works, IsFresh}
use libfabric_provider_dpa.Cm.Exchange.{Nodes, handshake}
use libfabric_provider_dpa.Cm.Handshake.{IsConnectedTo, Outcome, reached, missed, handshake_lem}
use libfabric_provider_dpa.Ring.{Link}
use libfabric_provider_dpa.Msg.{Ep}
use libfabric_provider_dpa.Msg.Queues.{All, IsLarge, bytes_of, delivered}
use libfabric_provider_dpa.Msg.Calls.{System, Op, calls, posted}
use libfabric_provider_dpa.Msg.Delivery.{IsFair}
use libfabric_provider_dpa.Msg.Rounds.{Ready, rounds}
use libfabric_provider_dpa.Msg.Kept.{receives}
use libfabric_provider_dpa.Msg.Eventually.{receives_in, every_message-delivered}
use libfabric_provider_dpa.Cm.Link.{link_of, link_between, link_lem, IsBuffer, connected-Holds}

-- The two directions of a connection.
pub data Direction : Type 0 where
  to_active to_passive : Direction

-- The endpoint's fields that messages use, once the others are as `cm` says.
abbrev pub opened : CmEp → Ep → Ep
opened cm ep = record ep { connected = cm.connected }

abbrev with_link : Ep → Ep → Option Link → Option System
with_link sender receiver none = none
with_link sender receiver (some l) =
    some (record { sender = sender; receiver = receiver; link = l })

-- One direction of a connection between an active endpoint on a node and a passive one.
unfoldable pub one_way : Direction → Mem → ℕ → ℕ → CmEp → CmEp → Ep → Ep → Option System
unfolding link_between
one_way to_active mem active_node passive_node a p sender receiver =
    with_link (opened p sender) (opened a receiver)
      (link_between mem 0 passive_node active_node p a)
one_way to_passive mem active_node passive_node a p sender receiver =
    with_link (opened a sender) (opened p receiver)
      (link_between mem 0 active_node passive_node a p)

abbrev joined : Direction → Mem → CmEp → CmEp → Ep → Ep → System
joined to_active mem a p sender receiver = record {
  sender = opened p sender;
  receiver = opened a receiver;
  link = link_of mem 0 p a;
}
joined to_passive mem a p sender receiver = record {
  sender = opened a sender;
  receiver = opened p receiver;
  link = link_of mem 0 a p;
}

one_way-joined :
    (d : Direction) (mem : Mem) (an pn : ℕ) (a0 a p0 p : CmEp) (b : BufferInfo)
    (sender receiver : Ep)
    → IsConnectedTo a0 a b b
    → IsConnectedTo p0 p b b
    → a.peer_addr.node_id ≡ pn
    → p.peer_addr.node_id ≡ an
    → one_way d mem an pn a p sender receiver ≡ some (joined d mem a p sender receiver)
unfolding one_way
one_way-joined to_active mem an pn a0 a p0 p b sender receiver ta tp there back =
    ap (with_link (opened p sender) (opened a receiver))
      (link_lem mem 0 pn an p0 p a0 a b tp ta back there)
one_way-joined to_passive mem an pn a0 a p0 p b sender receiver ta tp there back =
    ap (with_link (opened a sender) (opened p receiver))
      (link_lem mem 0 an pn a0 a p0 p b ta tp there back)

-- With interrupt number 0 the passive side is connected too.
both_sides :
    (before p : CmEp) (n : Nodes)
    → Outcome before p 0 n.active_node n.passive_buffer n.active_buffer
    → IsConnectedTo before p n.passive_buffer n.active_buffer
      × (p.peer_addr.node_id ≡ n.active_node)
both_sides before p n (reached z to back) = (to, back)
both_sides before p n (missed nz off ev st) = absurd (nz refl)

module _ (cap : ℕ) (cap_small : cap < 2 ^ 63) where
  -- An endpoint that has sent nothing and received nothing; receives may wait already.
  pub record IsIdle (sender receiver : Ep) : Type 0 where
    pub no_sends : sender.send_queue ≡ []
    pub sender_free : sender.lock_needed ≡ false
    pub receiver_free : receiver.lock_needed ≡ false
    pub nothing_yet : receiver.filled ≡ []
    pub buffers : All (IsLarge cap cap_small) receiver.recv_queue

  connected-Ready :
      (mem : Mem) (s0 s r0 r : CmEp) (b : BufferInfo) (sender receiver : Ep)
      → IsBuffer b
      → 16 + cap ≤ b.buffer_size
      → ((i : ℕ) → mem i ≡ 0)
      → IsConnectedTo s0 s b b
      → IsConnectedTo r0 r b b
      → IsIdle sender receiver
      → Ready cap cap_small
          (record {
            sender = opened s sender;
            receiver = opened r receiver;
            link = link_of mem 0 s r;
          })
          []
  connected-Ready mem s0 s r0 r b sender receiver good fits zeroed to from idle = record {
    in_order = record {
      stream = [];
      sends = record {
        flight = [];
        holds = connected-Holds mem s0 s r0 r b b b good zeroed to from;
        order = ap bytes_of idle.no_sends;
        messages = tt;
        requests = rw idle.no_sends tt;
        no_lock = idle.sender_free;
      };
      buffers = idle.buffers;
      no_lock = idle.receiver_free;
      total = ap (λ fs. delivered fs ++ []) idle.nothing_yet;
    };
    sends_on = to.is_connected;
    receives_on = from.is_connected;
    room = omega (arith, to.room_there, fits, good.bounded);
  }

  joined-Ready :
      (d : Direction) (mem : Mem) (a0 a p0 p : CmEp) (b : BufferInfo) (sender receiver : Ep)
      → IsBuffer b
      → 16 + cap ≤ b.buffer_size
      → ((i : ℕ) → mem i ≡ 0)
      → IsConnectedTo a0 a b b
      → IsConnectedTo p0 p b b
      → IsIdle sender receiver
      → Ready cap cap_small (joined d mem a p sender receiver) []
  joined-Ready to_active mem a0 a p0 p b sender receiver good fits zeroed ta tp idle =
      connected-Ready mem p0 p a0 a b sender receiver good fits zeroed tp ta idle
  joined-Ready to_passive mem a0 a p0 p b sender receiver good fits zeroed ta tp idle =
      connected-Ready mem a0 a p0 p b sender receiver good fits zeroed ta tp idle

  receives_of-joined :
      (d : Direction) (mem : Mem) (a p : CmEp) (sender receiver : Ep)
      → receives (joined d mem a p sender receiver).receiver ≡ receives receiver
  receives_of-joined to_active mem a p sender receiver = refl
  receives_of-joined to_passive mem a p sender receiver = refl

  -- From connecting to delivery. Let no call of a handshake of two fresh endpoints fail, where the
  -- active one connects to the interrupt that its peer listens on and the passive endpoint's
  -- interrupt has the number 0, to which the active side sends its answer; let `get_empty_buffer`
  -- have answered the same place on both nodes, with a size in words that has room for a message of
  -- `cap` bytes, and zeroed. Then the handshake ends, each endpoint has mapped the other's own
  -- buffer, and in each direction every message gets through: let the endpoints need no locks and
  -- have sent and received nothing yet; after any run of posts and progress calls with messages of
  -- 1 to `cap` bytes and at least as many receives as messages, all of at least `cap` bytes, and
  -- one round of progress of both sides for each message, all bytes are delivered, in the order of
  -- posting.
  pub handshake-delivers :
      (n : Nodes) (active_id i : ℕ) (active passive : CmEp) (pep : Pep)
      → Works n.active_card active_id
      → Works n.passive_card 0
      → IsFresh active
      → IsFresh passive
      → passive.connect_data_id ≡ 0
      → active.peer_addr ≡ record { node_id = n.passive_node; connect_id = i }
      → pep.listens_on ≡ some i
      → n.passive_buffer ≡ n.active_buffer
      → IsBuffer n.active_buffer
      → 16 + cap ≤ n.active_buffer.buffer_size
      → (d : Direction) (mem : Mem) → ((i : ℕ) → mem i ≡ 0)
      → (sender receiver : Ep) → IsIdle sender receiver
      → (ops : List Op) → All (IsFair cap cap_small) ops
      → length (posted ops) ≤ receives receiver + receives_in ops
      → (a : CmEp) × (p : CmEp) × (handshake n active passive pep ≡ some (a, p))
        × ((start : System) × (one_way d mem n.active_node n.passive_node a p sender receiver
              ≡ some start)
            × ((final : System) × (calls (ops ++ rounds (length (posted ops))) start ≡ some final)
                × (delivered final.receiver.filled ≡ posted ops)))
  handshake-delivers n id i active passive pep w w' f f' asks to_pep listens same good fits d mem
        zeroed sender receiver idle ops fair enough =
      let (a, p, done, ta, to_zero, outcome) =
        handshake_lem n id 0 i active passive pep w w' f f' asks to_pep listens in
      let (tp, back) = both_sides passive p n outcome in
      let tp' = subst (λ b. IsConnectedTo passive p b n.active_buffer) same tp in
      let there : a.peer_addr.node_id ≡ n.passive_node = ap (λ x. x.node_id) to_zero in
      (
        a,
        p,
        done,
        (
          joined d mem a p sender receiver,
          one_way-joined d mem n.active_node n.passive_node active a passive p n.active_buffer
              sender receiver ta tp' there back,
          every_message-delivered cap cap_small ops (joined d mem a p sender receiver) [] fair
              (joined-Ready d mem active a passive p n.active_buffer sender receiver good fits
                zeroed ta tp' idle)
              (omega (arith, enough, receives_of-joined d mem a p sender receiver)),
        ),
      )
