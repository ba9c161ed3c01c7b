-- ===== src/Fabric.antt =====
-- Names that the provider takes from libfabric's headers: the error codes, as distinct symbols,
-- and the shape of a C return value that is a count, 0 or a negated error code.
use Prim.Native.Nat.{ℕ}

pub data Errno : Type 0 where
  again inval no_data no_mem too_small timed_out avail other is_conn no_sys : Errno
  no_eq addr_in_use conn_aborted remote_io bad_flags key_rejected no_key : Errno

-- `ok n` is the return value n, `err e` the return value -FI_e.
pub data Ret : Type 0 where
  ok : ℕ → Ret
  err : Errno → Ret

abbrev pub success : Ret
success = ok 0
