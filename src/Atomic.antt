-- ===== src/Atomic.antt =====
-- src/locks.h: the atomic integers, with the standard atomics where HAVE_ATOMICS is set and with a lock
-- otherwise, and the operation that takes a lock round another one. An `int` is its bit pattern,
-- a number below 2^32. What a function returns is none where it ends without a `return`.
pub mod Agree
mod Tests
use libfabric_provider_dpa.Prelude.{
  ℕ, ◌+◌, ◌-◌, ◌%◌, ◌^◌, Bool, true, false, not, ◌&&◌, List, [], ◌∷◌, Option, none, some, ltb,
  if◌then◌else◌,
}
use libfabric_provider_dpa.Cntr.{atomic_add}

-- `(void) 0 < value` for an `int`.
abbrev pub is_positive : ℕ → Bool
is_positive value = ltb 0 value && ltb value (2 ^ 31)

abbrev pub plus : ℕ → ℕ → ℕ
plus v value = (v + value) % 2 ^ 32

-- -1
abbrev pub minus_one : ℕ
minus_one = 2 ^ 32 - 1

-- The operations on one integer.
pub data AtomicOp : Type 0 where
  op_add op_set op_initialize : ℕ → AtomicOp
  op_inc op_dec op_get : AtomicOp

-- With the standard atomics: what is returned, and the new value. `atomic_fetch_add_explicit` and
-- `atomic_fetch_sub_explicit` return the value before, modulo 2^32.
unfoldable pub c11_add : ℕ → ℕ → ℕ × ℕ
unfolding atomic_add
c11_add value v = (if is_positive value then plus v 1 else plus v minus_one, atomic_add v value)

unfoldable pub c11_inc : ℕ → ℕ × ℕ
c11_inc v = (plus v 1, plus v 1)

-- `atomic_fetch_sub_explicit(&atomic->val, -1, ...) - 1`
unfoldable pub c11_dec : ℕ → ℕ × ℕ
c11_dec v = (plus v minus_one, (v + 2 ^ 32 - minus_one) % 2 ^ 32)

unfoldable pub c11_set : ℕ → ℕ → ℕ × ℕ
c11_set value v = (value, value)

unfoldable pub c11_get : ℕ → ℕ × ℕ
c11_get v = (v, v)

unfoldable pub c11_initialize : ℕ → ℕ → ℕ
c11_initialize value v = value

-- With a lock.
pub record LockedInt : Type 0 where
  pub locked : Bool
  pub val : ℕ

-- `fastlock_acquire`, none where the lock is held and the caller waits, and `fastlock_release`.
abbrev pub acquire : LockedInt → Option LockedInt
acquire a = if a.locked then none else some (record a { locked = true })

abbrev pub release : LockedInt → LockedInt
release a = record a { locked = false }

-- THREADSAFE: an operation between the two.
abbrev pub under_lock : (LockedInt → ℕ × LockedInt) → Option LockedInt → Option (ℕ × LockedInt)
under_lock op none = none
under_lock op (some a) = let (r, a') = op a in some (r, release a')

unfoldable pub lock_add : ℕ → LockedInt → Option (ℕ × LockedInt)
lock_add value a =
    under_lock (λ b. (plus b.val value, record b { val = plus b.val value })) (acquire a)

unfoldable pub lock_set : ℕ → LockedInt → Option (ℕ × LockedInt)
lock_set value a = under_lock (λ b. (value, record b { val = value })) (acquire a)

unfoldable pub lock_get : LockedInt → Option (ℕ × LockedInt)
lock_get a = some (a.val, a)

unfoldable pub lock_initialize : ℕ → LockedInt → LockedInt
lock_initialize value a = record { locked = false; val = value }

-- One operation: what it returns, none for nothing, and the integer afterwards. `atomic_inc` and
-- `atomic_dec` with a lock call `atomic_add` and return nothing.
unfoldable pub c11_run : AtomicOp → ℕ → Option ℕ × ℕ
unfolding c11_add c11_inc c11_dec c11_set c11_get c11_initialize
c11_run (op_add value) v = (some (c11_add value v).0, (c11_add value v).1)
c11_run (op_set value) v = (some (c11_set value v).0, (c11_set value v).1)
c11_run (op_initialize value) v = (none, c11_initialize value v)
c11_run op_inc v = (some (c11_inc v).0, (c11_inc v).1)
c11_run op_dec v = (some (c11_dec v).0, (c11_dec v).1)
c11_run op_get v = (some (c11_get v).0, (c11_get v).1)

abbrev pub answers : Option (ℕ × LockedInt) → Option (Option ℕ × LockedInt)
answers none = none
answers (some (r, a)) = some (some r, a)

abbrev pub no_answer : Option (ℕ × LockedInt) → Option (Option ℕ × LockedInt)
no_answer none = none
no_answer (some (r, a)) = some (none, a)

unfoldable pub lock_run : AtomicOp → LockedInt → Option (Option ℕ × LockedInt)
unfolding lock_add lock_set lock_get lock_initialize
lock_run (op_add value) a = answers (lock_add value a)
lock_run (op_set value) a = answers (lock_set value a)
lock_run (op_initialize value) a = some (none, lock_initialize value a)
lock_run op_inc a = no_answer (lock_add 1 a)
lock_run op_dec a = no_answer (lock_add minus_one a)
lock_run op_get a = answers (lock_get a)

-- A sequence of operations, with what the calls of `atomic_get` return.
abbrev pub seen : AtomicOp → Option ℕ → List ℕ → List ℕ
seen op_get (some v) vs = v ∷ vs
seen op r vs = vs

unfoldable pub c11_runs : List AtomicOp → ℕ → List ℕ × ℕ
unfolding c11_run
c11_runs [] v = ([], v)
c11_runs (op ∷ ops) v =
    let (r, v1) = c11_run op v in let (vs, v2) = c11_runs ops v1 in (seen op r vs, v2)

abbrev pub then_run :
    AtomicOp
    → (LockedInt → Option (List ℕ × LockedInt))
    → Option (Option ℕ × LockedInt)
    → Option (List ℕ × LockedInt)
then_run op rest none = none
then_run op rest (some (r, a)) = elim (rest a) [
  | none ↦ none
  | some (vs, a') ↦ some (seen op r vs, a')
]

unfoldable pub lock_runs : List AtomicOp → LockedInt → Option (List ℕ × LockedInt)
unfolding lock_run
lock_runs [] a = some ([], a)
lock_runs (op ∷ ops) a = then_run op (lock_runs ops) (lock_run op a)
