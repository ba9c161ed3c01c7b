-- ===== src/Cntr/Agree.antt =====
-- The two tables of operations of a counter count alike.
use libfabric_provider_dpa.Prelude.{ℕ, ◌+◌, ◌%◌, ◌^◌, ◌<◌, ◌≡◌, true, false, List, [], ◌∷◌, arith}
use libfabric_provider_dpa.Cntr.{
  Cntr, dpa_cntr_add, dpa_cntr_set, dpa_cntr_inc, dpa_cntr_err_inc, atomic_add, to_int, value_of,
  errors_of,
}

-- The calls that change a counter.
pub data Op : Type 0 where
  inc err_inc : Op
  add set : ℕ → Op

unfoldable pub step : Op → Cntr → Cntr
unfolding dpa_cntr_inc dpa_cntr_err_inc dpa_cntr_add dpa_cntr_set
step inc c = dpa_cntr_inc c
step err_inc c = dpa_cntr_err_inc c
step (add v) c = dpa_cntr_add v c
step (set v) c = dpa_cntr_set v c

unfoldable pub run : List Op → Cntr → Cntr
unfolding step
run [] c = c
run (op ∷ ops) c = run ops (step op c)

-- A safe and an unsafe counter that have counted the same: the `int`s are the low 32 bits.
pub record Agrees (s u : Cntr) : Type 0 where
  pub safe : s.is_safe ≡ true
  pub unsafe : u.is_safe ≡ false
  pub values : s.counter_atomic ≡ u.counter % 2 ^ 32
  pub errs : s.err_atomic ≡ u.errors % 2 ^ 32

-- Adding any value to an atomic `int` adds it modulo 2^32, whatever its sign.
pub atomic_add_lem : (v value : ℕ) → value < 2 ^ 32 → atomic_add v value ≡ (v + value) % 2 ^ 32
unfolding atomic_add
atomic_add_lem v value h = ground arith

step-Agrees : (op : Op) (s u : Cntr) → Agrees s u → Agrees (step op s) (step op u)
unfolding step
step-Agrees inc s u a = rw (a.safe, a.unsafe) (ground arith)
step-Agrees err_inc s u a = ground arith
step-Agrees (add v) s u a = ground (arith, atomic_add_lem s.counter_atomic (to_int v))
step-Agrees (set v) s u a = ground arith

run-Agrees : (ops : List Op) (s u : Cntr) → Agrees s u → Agrees (run ops s) (run ops u)
unfolding run
run-Agrees [] s u a = a
run-Agrees (op ∷ ops) s u a = run-Agrees ops (step op s) (step op u) (step-Agrees op s u a)

-- After any sequence of increments, error increments, additions and assignments, a counter with
-- atomic fields reads the same as one with plain fields, in its value and in its errors, as long as
-- those fit an `int`.
pub run_reads_alike :
    (ops : List Op) (s u : Cntr)
    → Agrees s u
    → (run ops u).counter < 2 ^ 31
    → (run ops u).errors < 2 ^ 31
    → (value_of (run ops s) ≡ value_of (run ops u))
      × (errors_of (run ops s) ≡ errors_of (run ops u))
unfolding value_of errors_of
run_reads_alike ops s u a small few = ground (arith, run-Agrees ops s u a)
