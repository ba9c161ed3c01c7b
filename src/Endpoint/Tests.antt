-- ===== src/Endpoint/Tests.antt =====
-- An endpoint in domain 2, before and after it is connected.
use libfabric_provider_dpa.Prelude.{true, false, Bool, none}
use libfabric_provider_dpa.Caps.{ep_msg_cap}
use libfabric_provider_dpa.Requirements.{thread_domain}
use libfabric_provider_dpa.Endpoint.{Domain, Endpoint, BindFlags}

abbrev domain : Domain
domain = record { fabric = 1; threading = thread_domain; data_progress_manual = true }

abbrev endpoint : Bool → Endpoint
endpoint connected = record {
  domain = 2;
  caps = ep_msg_cap;
  peer_addr = record { node_id = 4; connect_id = 0 };
  pep = none;
  connected = connected;
  lock_needed = false;
  msg_ops = none;
  rma_ops = none;
  eq = none;
  av = none;
  mr = none;
  send_cq = none;
  recv_cq = none;
  read_cq = none;
  write_cq = none;
  send_cntr = none;
  recv_cntr = none;
  read_cntr = none;
  write_cntr = none;
}

abbrev for_sends : BindFlags
for_sends = record { to_send = true; to_recv = false; to_read = false; to_write = false }
