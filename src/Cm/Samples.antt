-- ===== src/Cm/Samples.antt =====
-- Inputs for the tests of connections: a card on which every call succeeds, endpoints, buffers.
use libfabric_provider_dpa.Prelude.{ℕ, ◌+◌, true, false, [], none, some}
use libfabric_provider_dpa.Caps.{ep_msg_cap}
use libfabric_provider_dpa.Segments.{SegmentCalls, dpa_ok, segment_id_used, LocalSegment}
use libfabric_provider_dpa.Buffers.{BufferInfo, Segment, Assign}
use libfabric_provider_dpa.Connect.{Card, SegmentData, CmEp}

abbrev pub card : Card
card = record {
  opens_data = dpa_ok;
  creates_data = λ i. (dpa_ok, i + 7);
  opens_recv = true;
  opens_send = true;
  recv_int = some 30;
  send_int = some 31;
  data_connects = true;
  data_triggers = true;
  data_disconnects = true;
  connects = λ n s. true;
  maps = λ o s. true;
  makes_sequence = true;
  connects_int = λ i. true;
  removes_data = true;
  gives_back = λ h. true;
}

abbrev pub active : CmEp
active = record {
  caps = ep_msg_cap;
  data_auto = false;
  peer_addr = record { node_id = 4; connect_id = 0 };
  recv_cq = none;
  send_cq = none;
  recv_cntr = none;
  send_cntr = none;
  buffer = none;
  read = 0;
  remote_status = none;
  send_size = 0;
  write = 0;
  recv_remote_interrupt = none;
  send_remote_interrupt = none;
  has_sequence = false;
  has_map = false;
  has_segment = false;
  released = [];
  has_eq = true;
  polls = false;
  own_interrupt = none;
  connect_data_id = 0;
  sent_data = [];
  connected = false;
  events = 0;
}

abbrev pub own : BufferInfo
own = record { in_segment = 1; at_offset = 64; buffer_size = 64 }

abbrev pub from_peer : ℕ → ℕ → ℕ → SegmentData
from_peer segment_id offset size = record {
  node_id = 4;
  accept_int_id = 20;
  segment_id = segment_id;
  offset = offset;
  size = size;
  recv_interrupt = none;
  send_interrupt = none;
}

-- A card that makes every segment, and one on which creating a segment fails.
abbrev pub all_ok : SegmentCalls
all_ok = record {
  opening = dpa_ok;
  creating = dpa_ok;
  preparing = dpa_ok;
  mapping = dpa_ok;
  enabling = dpa_ok;
  disabling = dpa_ok;
  unmapping = dpa_ok;
  removing = dpa_ok;
  closing = dpa_ok;
}

abbrev pub id_used : SegmentCalls
id_used = record all_ok { creating = segment_id_used }

abbrev pub nothing_held : LocalSegment
nothing_held = record {
  segment_id = 0;
  size = 0;
  has_sd = false;
  has_segment = false;
  has_map = false;
  available = false;
  zeroed = false;
  bad_calls = 0;
}

abbrev pub new_segment : Segment
new_segment = record { info = nothing_held; bufcount = 0; sizes = [] }

abbrev pub assign : Assign
assign = record { buffers_per_segment = 2; aligned_size = 64; current_id = 1 }
