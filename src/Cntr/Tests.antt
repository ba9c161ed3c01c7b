-- ===== src/Cntr/Tests.antt =====
-- Counters of both kinds.
use libfabric_provider_dpa.Prelude.{
  ℕ, ◌-◌, ◌<◌, ◌≤◌, ◌≡◌, ◌≢◌, ◌⊎◌, inl, refl, true, false, List, [], ◌∷◌, some, arith,
}
use libfabric_provider_dpa.Fabric.{Ret, ok, err, timed_out}
use libfabric_provider_dpa.Cq.{wait_none}
use libfabric_provider_dpa.Cntr.{
  Cntr, value_of, errors_of, dpa_cntr_read, make_queue_progress, dpa_cntr_wait, dpa_cntr_readerr,
  int_to_u64, to_int, dpa_cntr_inc, dpa_cntr_err_inc, dpa_cntr_add, dpa_cntr_set,
}
use libfabric_provider_dpa.Cntr.Agree.{Op, inc, err_inc, add, set, step, run, run_reads_alike}
use libfabric_provider_dpa.Cntr.Wait.{waits_differ, dpa_cntr_wait_lem}

abbrev plain : Cntr
plain = record {
  is_safe = false;
  counter = 0;
  errors = 0;
  counter_atomic = 0;
  err_atomic = 0;
  has_progress = true;
  wait_obj = wait_none;
}

abbrev safe : Cntr
safe = record plain { is_safe = true; has_progress = false }

abbrev script : List Op
script = inc ∷ add 4 ∷ err_inc ∷ set 9 ∷ inc ∷ []

run_reads_alike_example :
    (value_of (run script safe) ≡ value_of (run script plain))
    × (errors_of (run script safe) ≡ errors_of (run script plain))
unfolding run step dpa_cntr_inc dpa_cntr_err_inc dpa_cntr_add dpa_cntr_set
run_reads_alike_example =
    run_reads_alike script safe plain
      (record { safe = refl; unsafe = refl; values = refl; errs = refl }) (omega arith)
      (omega arith)

-- Progress that takes one unit of time and counts nothing.
abbrev idle : ℕ → Cntr → ℕ × Cntr
idle t c = (t - 1, c)

abbrev no_time : ℕ
no_time = 0

waits_differ_example :
    (dpa_cntr_wait idle 5 3 0 (record plain { counter = 7; has_progress = false })
      ≡ some (ok 0, record plain { counter = 7; has_progress = false }))
    × ((no_time ≡ 0)
          × (dpa_cntr_wait idle 5 3 0 (record safe { counter_atomic = 7 })
              ≡ some (err timed_out, record safe { counter_atomic = 7 }))
        ⊎ (no_time ≢ 0)
          × (dpa_cntr_wait idle 5 3 0 (record safe { counter_atomic = 7 })
              ≡ some (ok 0, record safe { counter_atomic = 7 })))
unfolding dpa_cntr_read make_queue_progress value_of
waits_differ_example =
    waits_differ idle 4 3 0 (record plain { counter = 7; has_progress = false })
      (record safe { counter_atomic = 7 }) refl refl refl refl refl (omega arith) (omega arith)
      (omega arith)

-- Progress waits in vain three times, and then the wait times out.
dpa_cntr_wait_lem_example :
    (ret : Ret) × (c' : Cntr) × (dpa_cntr_wait idle 4 2 3 plain ≡ some (ret, c'))
    × ((ret ≡ err timed_out) × (c'.counter < 2)
        ⊎ (ret ≡ ok 0)
          × ((2 ≤ c'.counter) ⊎ (c'.errors ≢ int_to_u64 (to_int (dpa_cntr_readerr idle plain).0))))
unfolding dpa_cntr_read dpa_cntr_readerr make_queue_progress
dpa_cntr_wait_lem_example =
    dpa_cntr_wait_lem idle (λ t c. refl) 3 4 2 3 plain refl (inl refl) (omega arith)
