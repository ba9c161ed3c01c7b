-- ===== src/Atomic/Agree.antt =====
-- The two implementations of the atomic integers, one beside the other.
use libfabric_provider_dpa.Prelude.{
  ℕ, ◌^◌, ◌<◌, ◌≡◌, refl, sym, ap, false, List, [], ◌∷◌, Option, none, some, arith,
}
use libfabric_provider_dpa.Atomic.{
  AtomicOp, op_add, op_set, op_initialize, op_inc, op_dec, op_get, LockedInt, c11_run, lock_run,
  plus, minus_one, seen, c11_runs, lock_runs,
}
use libfabric_provider_dpa.Cntr.{atomic_add}

-- The arguments are `int`s, and nothing is decremented.
abbrev pub IsInt : AtomicOp → Type 0
IsInt (op_add value) = value < 2 ^ 32
IsInt (op_set value) = value < 2 ^ 32
IsInt (op_initialize value) = value < 2 ^ 32
IsInt op_inc = Unit {0}
IsInt op_dec = ⊥
IsInt op_get = Unit {0}

atomic_add_lem : (v value : ℕ) → v < 2 ^ 32 → value < 2 ^ 32 → atomic_add v value ≡ plus v value
unfolding atomic_add
atomic_add_lem v value hv h = ground arith

abbrev pub unlocked : ℕ → LockedInt
unlocked v = record { locked = false; val = v }

-- One operation, with the value that both leave.
one_step :
    (op : AtomicOp) (v : ℕ)
    → v < 2 ^ 32
    → IsInt op
    → ((c11_run op v).1 < 2 ^ 32)
      × (r : Option ℕ) × (lock_run op (unlocked v) ≡ some (r, unlocked (c11_run op v).1))
      × ((vs : List ℕ) → seen op r vs ≡ seen op (c11_run op v).0 vs)
unfolding c11_run lock_run
one_step (op_add value) v h int =
    let e = atomic_add_lem v value h int in
    (
      omega (arith, e),
      some (plus v value),
      ap (λ n. some (some (plus v value), unlocked n)) (sym e),
      λ vs. refl,
    )
one_step (op_set value) v h int = (int, some value, refl, λ vs. refl)
one_step (op_initialize value) v h int = (int, none, refl, λ vs. refl)
one_step op_inc v h int = (omega arith, none, refl, λ vs. refl)
one_step op_dec v h int = absurd int
one_step op_get v h int = (h, some v, refl, λ vs. refl)

abbrev AllInt : List AtomicOp → Type 0
AllInt [] = Unit {0}
AllInt (op ∷ ops) = IsInt op × AllInt ops

-- From the same `int`, with the lock free, any sequence of additions, increments, reads, settings
-- and initialisations with arguments that are `int`s leaves both implementations with the same
-- value, and their reads return the same values; the one with the lock is never held up and ends
-- with the lock free.
pub c11_runs-lock_runs :
    (ops : List AtomicOp) (v : ℕ)
    → v < 2 ^ 32
    → AllInt ops
    → lock_runs ops (unlocked v) ≡ some ((c11_runs ops v).0, unlocked (c11_runs ops v).1)
unfolding lock_runs c11_runs
c11_runs-lock_runs [] v h ints = refl
c11_runs-lock_runs (op ∷ ops) v h (int, ints) =
    let (h', r, e, same) = one_step op v h int in
    rw (e, c11_runs-lock_runs ops (c11_run op v).1 h' ints)
      (ap (λ vs. some (vs, unlocked (c11_runs ops (c11_run op v).1).1)) (same _))

-- Decrementing an `int` with the standard atomics raises it by one and returns it lowered by one; with a
-- lock it is lowered.
pub c11_dec-adds :
    (v : ℕ)
    → v < 2 ^ 32
    → (c11_run op_dec v ≡ (some (plus v minus_one), plus v 1))
      × (lock_run op_dec (unlocked v) ≡ some (none, unlocked (plus v minus_one)))
unfolding c11_run lock_run
c11_dec-adds v h = (ap (λ n. (some (plus v minus_one), n)) (omega arith), refl)
