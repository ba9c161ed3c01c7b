-- ===== src/Spin.antt =====
-- src/locks.h: the condition variable over spin locks, `spin_wait`, `spin_signal` and
-- `spin_signal_all`, for any number of threads, interleaved in any order. A step is one access to
-- the shared counters or one operation on a lock; a counter that only the holder of a lock writes
-- is read and written in one step.
pub mod Invariant
pub mod Waiters
mod Tests
use libfabric_provider_dpa.Prelude.{
  ℕ, zero, suc, ◌+◌, ◌%◌, ◌^◌, ◌<◌, ◌≤◌, ◌≡◌, Bool, true, false, Option, none, some, ◌==◌,
  if◌then◌else◌,
}

-- `spinlock_cond` with the lock that waiters hold: `holder` has that lock, `cond_holder` has
-- `cond->lock`.
pub record SpinCond : Type 0 where
  pub locked : ℕ
  pub released : ℕ
  pub holder : Option ℕ
  pub cond_holder : Option ℕ

-- Where a thread is. In `spin_wait` it holds the lock, has read its number, has counted it, spins,
-- and is past the loop; in the others it holds the lock of the condition variable, before and after
-- its writes.
pub data Pc : Type 0 where
  outside holding : Pc
  numbered counted spinning woken : ℕ → Pc
  signalling signalled all_testing all_adding : Pc

-- What thread `i` can do: the shared state and its place, before and after.
pub data Move (i : ℕ) (c : SpinCond) : Pc → SpinCond → Pc → Type 0 where
  acquire : c.holder ≡ none → Move i c outside (record c { holder = some i }) holding
  release : Move i c holding (record c { holder = none }) outside
  read_locked : Move i c holding c (numbered c.locked)
  count :
      (wait : ℕ)
      → Move i c (numbered wait) (record c { locked = (c.locked + 1) % 2 ^ 64 }) (counted wait)
  wait_unlock : (wait : ℕ) → Move i c (counted wait) (record c { holder = none }) (spinning wait)
  spin : (wait : ℕ) → c.released ≤ wait → Move i c (spinning wait) c (spinning wait)
  leave : (wait : ℕ) → wait < c.released → Move i c (spinning wait) c (woken wait)
  relock :
      (wait : ℕ) → c.holder ≡ none → Move i c (woken wait) (record c { holder = some i }) holding
  signal_lock :
      c.cond_holder ≡ none → Move i c outside (record c { cond_holder = some i }) signalling
  signal_add : Move i c signalling (record c { released = (c.released + 1) % 2 ^ 64 }) signalled
  signal_unlock : Move i c signalled (record c { cond_holder = none }) outside
  all_lock : c.cond_holder ≡ none → Move i c outside (record c { cond_holder = some i }) all_testing
  all_more : c.released < c.locked → Move i c all_testing c all_adding
  all_add : Move i c all_adding (record c { released = (c.released + 1) % 2 ^ 64 }) all_testing
  all_unlock :
      c.locked ≤ c.released → Move i c all_testing (record c { cond_holder = none }) outside

pub record System : Type 0 where
  pub cond : SpinCond
  pub pc : ℕ → Pc

abbrev pub place : (ℕ → Pc) → ℕ → Pc → ℕ → Pc
place pc i p j = if j == i then p else pc j

pub data Step (s : System) : System → Type 0 where
  move :
      (i : ℕ) (c : SpinCond) (p : Pc)
      → Move i s.cond (s.pc i) c p
      → Step s (record { cond = c; pc = place s.pc i p })

-- After `fastlock_cond_init`, with the lock free.
abbrev pub init : System
init = record {
  cond = record { locked = 0; released = 0; holder = none; cond_holder = none };
  pc = λ i. outside;
}

-- Runs in which no step is taken with a counter at the end of its 64 bits.
pub data Reach : System → Type 0 where
  start : Reach init
  later :
      {s t : System}
      → Reach s
      → s.cond.locked + 1 < 2 ^ 64
      → s.cond.released + 1 < 2 ^ 64
      → Step s t
      → Reach t
