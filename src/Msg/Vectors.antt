-- ===== src/Msg/Vectors.antt =====
-- src/dpa_msg.c: the calls that take a vector of buffers, of which there is one at most.
use libfabric_provider_dpa.Prelude.{
  ℕ, true, false, [], Option, none, some, ltb, ◌==◌, if◌then◌else◌,
}
use libfabric_provider_dpa.Fabric.{Ret, err, inval}
use libfabric_provider_dpa.Ring.{Link, Buffer}
use libfabric_provider_dpa.Msg.{MsgQueueEntry, Ep, dpa_recv, dpa_send}

-- `fi_msg`: `iov` is what `msg_iov` points at, none for NULL.
pub record FiMsg : Type 0 where
  pub iov : Option (ℕ × Buffer)
  pub iov_count : ℕ
  pub msg_context : ℕ

-- The request of an accepted `fi_msg`: its first vector, or an empty buffer if it has none.
unfoldable pub request_of : FiMsg → ℕ → Option MsgQueueEntry
request_of msg flags = elim (ltb 1 msg.iov_count) [
  | true ↦ none
  | false ↦
      if msg.iov_count == 0
      then some (request 0 (record { buf = []; len = 0 }))
      else elim msg.iov [ none ↦ none | some (base, buffer) ↦ some (request base buffer) ]
]
  where
    request : ℕ → Buffer → MsgQueueEntry
    request base buffer = record {
      buffer = buffer;
      buf_addr = base;
      flags = flags;
      context = msg.msg_context;
    }

unfoldable pub dpa_recvmsg : Option FiMsg → ℕ → Ep → Link → Option (Ret × Ep × Link)
unfolding request_of dpa_recv
dpa_recvmsg none flags ep l = some (err inval, ep, l)
dpa_recvmsg (some msg) flags ep l = elim (request_of msg flags) [
  | none ↦ some (err inval, ep, l)
  | some entry ↦ dpa_recv entry ep l
]

unfoldable pub dpa_sendmsg : Option FiMsg → ℕ → Ep → Link → Option (Ret × Ep × Link)
unfolding request_of dpa_send
dpa_sendmsg none flags ep l = some (err inval, ep, l)
dpa_sendmsg (some msg) flags ep l = elim (request_of msg flags) [
  | none ↦ some (err inval, ep, l)
  | some entry ↦ dpa_send entry ep l
]
