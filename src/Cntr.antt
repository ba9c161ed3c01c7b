-- ===== src/Cntr.antt =====
-- src/dpa_cntr.c, src/dpa_cntr.h and the atomic integers of src/locks.h: completion counters. The
-- domain's threading selects one of two tables of operations: plain `uint64_t` fields, or atomic
-- `int`s. An `int` is its bit pattern, a number below 2^32.
pub mod Agree
pub mod Wait
mod Tests
use libfabric_provider_dpa.Prelude.{
  ℕ, zero, suc, ◌+◌, ◌-◌, ◌%◌, ◌^◌, Bool, true, false, not, ◌&&◌, Option, none, some, ltb, leb,
  ◌==◌, if◌then◌else◌, add64,
}
use libfabric_provider_dpa.Fabric.{Ret, ok, err, inval, timed_out}
use libfabric_provider_dpa.Cq.{WaitObj, wait_none, wait_unspec, wait_other}

-- `dpa_fid_cntr`. `is_safe` says which table of operations `dpa_cntr_open` has installed.
pub record Cntr : Type 0 where
  pub is_safe : Bool
  pub counter : ℕ
  pub errors : ℕ
  pub counter_atomic : ℕ
  pub err_atomic : ℕ
  pub has_progress : Bool
  pub wait_obj : WaitObj

-- A number stored into an `int`.
abbrev pub to_int : ℕ → ℕ
to_int n = n % 2 ^ 32

-- An `int` widened to `uint64_t`: the sign is extended.
unfoldable pub int_to_u64 : ℕ → ℕ
int_to_u64 v = if ltb v (2 ^ 31) then v else v + (2 ^ 64 - 2 ^ 32)

-- `atomic_add`: a positive value is added, any other is negated and subtracted.
unfoldable pub atomic_add : ℕ → ℕ → ℕ
atomic_add v value =
    if ltb 0 value && ltb value (2 ^ 31)
    then (v + value) % 2 ^ 32
    else (v + 2 ^ 32 - (2 ^ 32 - value) % 2 ^ 32) % 2 ^ 32

unfoldable pub atomic_inc : ℕ → ℕ
atomic_inc v = (v + 1) % 2 ^ 32

abbrev new_cntr : Bool → WaitObj → Cntr
new_cntr is_safe wait_obj = record {
  is_safe = is_safe;
  counter = 0;
  errors = 0;
  counter_atomic = 0;
  err_atomic = 0;
  has_progress = false;
  wait_obj = wait_obj;
}

-- `attr_wait_obj` is none when no attributes are given; `is_safe` is
-- `domain->threading < FI_THREAD_COMPLETION`.
unfoldable pub dpa_cntr_open : Option WaitObj → Bool → Ret × Option Cntr
dpa_cntr_open (some wait_other) is_safe = (err inval, none)
dpa_cntr_open (some wait_none) is_safe = (ok 0, some (new_cntr is_safe wait_none))
dpa_cntr_open (some wait_unspec) is_safe = (ok 0, some (new_cntr is_safe wait_unspec))
dpa_cntr_open none is_safe = (ok 0, some (new_cntr is_safe wait_unspec))

unfoldable pub dpa_cntr_add : ℕ → Cntr → Cntr
unfolding atomic_add
dpa_cntr_add value c = elim c.is_safe [
  | true ↦ record c { counter_atomic = atomic_add c.counter_atomic (to_int value) }
  | false ↦ record c { counter = add64 c.counter value }
]

unfoldable pub dpa_cntr_set : ℕ → Cntr → Cntr
dpa_cntr_set value c = elim c.is_safe [
  | true ↦ record c { counter_atomic = to_int value }
  | false ↦ record c { counter = value }
]

unfoldable pub dpa_cntr_inc : Cntr → Cntr
unfolding atomic_inc
dpa_cntr_inc c = elim c.is_safe [
  | true ↦ record c { counter_atomic = atomic_inc c.counter_atomic }
  | false ↦ record c { counter = add64 c.counter 1 }
]

unfoldable pub dpa_cntr_err_inc : Cntr → Cntr
unfolding atomic_inc
dpa_cntr_err_inc c = elim c.is_safe [
  | true ↦ record c { err_atomic = atomic_inc c.err_atomic }
  | false ↦ record c { errors = add64 c.errors 1 }
]

-- What `read` and `readerr` return once they have made progress.
unfoldable pub value_of : Cntr → ℕ
unfolding int_to_u64
value_of c = elim c.is_safe [ true ↦ int_to_u64 c.counter_atomic | false ↦ c.counter ]

unfoldable pub errors_of : Cntr → ℕ
unfolding int_to_u64
errors_of c = elim c.is_safe [ true ↦ int_to_u64 c.err_atomic | false ↦ c.errors ]

-- The counter's progress function, called with a timeout: the timeout left, and the counter, which
-- it and other threads may have changed.
module _ (progress : ℕ → Cntr → ℕ × Cntr) where
  unfoldable pub make_queue_progress : ℕ → Cntr → ℕ × Cntr
  make_queue_progress timeout c = elim c.has_progress [
    | true ↦ progress timeout c
    | false ↦ (timeout, c)
  ]

  unfoldable pub dpa_cntr_read : Cntr → ℕ × Cntr
  unfolding make_queue_progress value_of
  dpa_cntr_read c = let (left, c') = make_queue_progress 0 c in (value_of c', c')

  unfoldable pub dpa_cntr_readerr : Cntr → ℕ × Cntr
  unfolding make_queue_progress errors_of
  dpa_cntr_readerr c = let (left, c') = make_queue_progress 0 c in (errors_of c', c')

  -- The loop of `dpa_cntr_wait`, on fuel: the timeout left when it stops. The calls in its test
  -- are made from left to right, each only if those before it hold.
  wait_loop : ℕ → ℕ → ℕ → ℕ → Cntr → Option (ℕ × Cntr)
  unfolding dpa_cntr_read dpa_cntr_readerr make_queue_progress
  wait_loop zero threshold first timeout c = none
  wait_loop (suc fuel) threshold first timeout c = elim (timeout == 0) [
    | true ↦ some (timeout, c)
    | false ↦
        let (v, c1) = dpa_cntr_read c in
        let (e, c2) = dpa_cntr_readerr c1 in
        elim (ltb v threshold) [
          | false ↦ some (timeout, c1)
          | true ↦ elim (e == first) [
            | false ↦ some (timeout, c2)
            | true ↦
                let (left, c3) = make_queue_progress timeout c2 in
                wait_loop fuel threshold first left c3
          ]
        ]
  ]

  -- `int err = ops->readerr(...)` keeps the low 32 bits, and the test widens them again.
  unfoldable pub dpa_cntr_wait : ℕ → ℕ → ℕ → Cntr → Option (Ret × Cntr)
  unfolding wait_loop dpa_cntr_readerr int_to_u64
  dpa_cntr_wait fuel threshold timeout c =
      let (e, c1) = dpa_cntr_readerr c in
      elim (wait_loop fuel threshold (int_to_u64 (to_int e)) timeout c1) [
        | none ↦ none
        | some (left, c') ↦
            some (if left == 0 && ltb c'.counter threshold then err timed_out else ok 0, c')
      ]
