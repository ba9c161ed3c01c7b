-- ===== src/Atomic/Tests.antt =====
-- A run of both implementations.
use libfabric_provider_dpa.Prelude.{◌≡◌, some, none, [], ◌∷◌, List, arith}
use libfabric_provider_dpa.Atomic.{
  AtomicOp, op_add, op_set, op_get, op_inc, op_dec, c11_run, lock_run, c11_runs, lock_runs,
}
use libfabric_provider_dpa.Atomic.Agree.{unlocked, c11_runs-lock_runs, c11_dec-adds}

abbrev script : List AtomicOp
script = op_set 5 ∷ op_add 4294967294 ∷ op_get ∷ op_inc ∷ op_get ∷ []

c11_runs-lock_runs_example : lock_runs script (unlocked 9) ≡ some (3 ∷ 4 ∷ [], unlocked 4)
unfolding c11_runs
c11_runs-lock_runs_example =
    c11_runs-lock_runs script 9 (omega arith) (omega arith, (omega arith, (tt, (tt, (tt, tt)))))

c11_dec-adds_example :
    (c11_run op_dec 9 ≡ (some 8, 10)) × (lock_run op_dec (unlocked 9) ≡ some (none, unlocked 8))
c11_dec-adds_example = c11_dec-adds 9 (omega arith)
