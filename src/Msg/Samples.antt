-- ===== src/Msg/Samples.antt =====
-- An endpoint and requests for the tests of messages.
use libfabric_provider_dpa.Prelude.{Bool, true, false, [], none, some}
use libfabric_provider_dpa.Cq.{Cq, wait_none}
use libfabric_provider_dpa.Cntr.{Cntr}
use libfabric_provider_dpa.Ring.{Buffer}
use libfabric_provider_dpa.Msg.{MsgQueueEntry, Ep}

abbrev pub no_cq : Cq
no_cq = record {
  event_queue = [];
  error_queue = [];
  free_list = [];
  has_progress = false;
  interrupt = none;
  wait_obj = wait_none;
  signalled = 0;
}

abbrev pub no_cntr : Cntr
no_cntr = record {
  is_safe = false;
  counter = 0;
  errors = 0;
  counter_atomic = 0;
  err_atomic = 0;
  has_progress = false;
  wait_obj = wait_none;
}

abbrev pub endpoint : Bool → Ep
endpoint lock_needed = record {
  connected = true;
  lock_needed = lock_needed;
  send_queue = [];
  recv_queue = [];
  send_free = 512;
  recv_free = 512;
  batches = 2;
  send_locked = false;
  recv_locked = false;
  send_cq = some 0;
  recv_cq = some 0;
  send_cntr = none;
  recv_cntr = some 0;
  cqs = λ i. no_cq;
  cntrs = λ i. no_cntr;
  filled = [];
}

abbrev pub request : Buffer → MsgQueueEntry
request b = record { buffer = b; buf_addr = 1000; flags = 0; context = 1 }

-- A user's buffer of 16 bytes.
abbrev pub room : MsgQueueEntry
room = request (record { buf = []; len = 16 })
