-- ===== src/Cm/Link.antt =====
-- The message buffer between two endpoints that have just connected: what each has mapped, and
-- whether that is the other's own buffer.
use libfabric_provider_dpa.Prelude.{
  ℕ, ◌+◌, ◌%◌, ◌^◌, ◌<◌, ◌≡◌, ◌∙◌, ◌==◌, ◌&&◌, if◌then◌else◌, Bool, true, inl, refl, sym, ap, false,
  [], Option, none, some, arith,
}
use libfabric_provider_dpa.Prelude.Bytes.{Mem}
use libfabric_provider_dpa.Buffers.{BufferInfo}
use libfabric_provider_dpa.Connect.{CmEp}
use libfabric_provider_dpa.Peer.{has}
use libfabric_provider_dpa.Cm.Handshake.{IsConnectedTo}
use libfabric_provider_dpa.Ring.{Link}
use libfabric_provider_dpa.Ring.View.{image, Holds}

abbrev own_size : Option BufferInfo → ℕ
own_size none = 0
own_size (some b) = b.buffer_size

-- A place in the memory of all nodes: the node, the segment, the offset in it and the size.
pub record Place : Type 0 where
  pub on_node : ℕ
  pub in_segment : ℕ
  pub at_offset : ℕ
  pub place_size : ℕ

-- Where an endpoint on a node has its own buffer, and where on its peer's node it has mapped one.
abbrev pub own_place : ℕ → CmEp → Option Place
own_place node ep = elim ep.buffer [
  | none ↦ none
  | some b ↦ some (record {
    on_node = node;
    in_segment = b.in_segment;
    at_offset = b.at_offset;
    place_size = b.buffer_size;
  })
]

abbrev pub mapped_place : CmEp → Option Place
mapped_place ep = elim ep.remote_status [
  | none ↦ none
  | some (segment, offset, size) ↦ some (record {
    on_node = ep.peer_addr.node_id;
    in_segment = segment;
    at_offset = offset;
    place_size = size;
  })
]

abbrev pub same_place : Option Place → Option Place → Bool
same_place none q = false
same_place (some p) none = false
same_place (some p) (some q) =
    p.on_node == q.on_node
    && p.in_segment == q.in_segment
    && p.at_offset == q.at_offset
    && p.place_size == q.place_size

-- The fields of a direction: `mem` is what the receiver's buffer holds, and `status` the word at
-- the start of the sender's buffer, which tells it how far the receiver is.
abbrev pub link_of : Mem → ℕ → CmEp → CmEp → Link
link_of mem status sender receiver = record {
  mem = mem;
  status = status;
  send = record {
    size = sender.send_size;
    write = sender.write;
    remote_interrupt = has sender.send_remote_interrupt;
    triggered = 0;
  };
  recv = record {
    buffer_size = own_size receiver.buffer;
    read = receiver.read;
    remote_interrupt = has receiver.recv_remote_interrupt;
    triggered = 0;
  };
}

-- The direction from an endpoint on one node to another on a second node. There is one only if
-- what the sender writes to is what the receiver reads from, and the word that the receiver writes
-- back is the one that the sender reads: each has mapped the other's own buffer.
unfoldable pub link_between : Mem → ℕ → ℕ → ℕ → CmEp → CmEp → Option Link
link_between mem status from_node to_node sender receiver =
    if same_place (mapped_place sender) (own_place to_node receiver)
      && same_place (mapped_place receiver) (own_place from_node sender)
    then some (link_of mem status sender receiver)
    else none

pub place_lem :
    (node : ℕ) (r0 r s0 s : CmEp) (b other : BufferInfo)
    → IsConnectedTo s0 s other b
    → IsConnectedTo r0 r b other
    → s.peer_addr.node_id ≡ node
    → same_place (mapped_place s) (own_place node r) ≡ true
place_lem node r0 r s0 s b other to from there =
    rw (from.has_own, to.maps_there) (ground (arith, there))

-- The sizes that buffers have: words, with room for a message, and not too large.
pub record IsBuffer (b : BufferInfo) : Type 0 where
  pub aligned : b.buffer_size % 8 ≡ 0
  pub roomy : 8 < b.buffer_size
  pub bounded : b.buffer_size < 2 ^ 61

-- A sender that has mapped the receiver's own buffer, which is zeroed, has an empty queue.
pub connected-Holds :
    (mem : Mem) (s0 s r0 r : CmEp) (b other where_r : BufferInfo)
    → IsBuffer b
    → ((i : ℕ) → mem i ≡ 0)
    → IsConnectedTo s0 s other b
    → IsConnectedTo r0 r b where_r
    → Holds (link_of mem 0 s r) []
unfolding image
connected-Holds mem s0 s r0 r b other where_r good zeroed to from = record {
  size = record {
    aligned = omega (arith, good.aligned, size);
    positive = omega (arith, good.roomy, size);
    bounded = omega (arith, good.bounded, size);
  };
  same_size = own ∙ omega (arith, size, good.roomy);
  reported = sym from.reads_from;
  range = record {
    read_lt = omega (arith, from.reads_from, size, good.roomy);
    write_lt = omega (arith, to.writes_from, size, good.roomy);
    read_aligned = omega (arith, from.reads_from);
    write_aligned = omega (arith, to.writes_from);
    used_le = omega arith;
    used_aligned = omega arith;
    distance = inl (omega (arith, from.reads_from, to.writes_from));
  };
  view = λ i h. zeroed _;
}
  where
    own : own_size r.buffer ≡ b.buffer_size
    own = ap own_size from.has_own

    size : s.send_size + 8 ≡ b.buffer_size
    size = omega (arith, to.room_there, good.roomy, good.bounded)

-- Two endpoints that have mapped each other's buffers have a direction.
pub link_lem :
    (mem : Mem) (status from_node to_node : ℕ) (s0 s r0 r : CmEp) (b : BufferInfo)
    → IsConnectedTo s0 s b b
    → IsConnectedTo r0 r b b
    → s.peer_addr.node_id ≡ to_node
    → r.peer_addr.node_id ≡ from_node
    → link_between mem status from_node to_node s r ≡ some (link_of mem status s r)
unfolding link_between
link_lem mem status from_node to_node s0 s r0 r b to from there back =
    rw
      (
        place_lem to_node r0 r s0 s b b to from there,
        place_lem from_node s0 s r0 r b b from to back,
      )
      refl
