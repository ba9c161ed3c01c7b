-- ===== src/Spin/Tests.antt =====
-- Thread 0 starts to wait, thread 1 signals, and thread 0 leaves its loop.
use libfabric_provider_dpa.Prelude.{ℕ, ◌+◌, ◌^◌, ◌<◌, refl, none, some, arith}
use libfabric_provider_dpa.Spin.{
  SpinCond, Pc, holding, numbered, counted, spinning, woken, signalling, signalled, Move, acquire,
  read_locked, count, wait_unlock, leave, signal_lock, signal_add, System, place, move, init, Reach,
  start, later,
}
use libfabric_provider_dpa.Spin.Waiters.{Inv, Reach-Inv}

abbrev next : System → ℕ → SpinCond → Pc → System
next s i c p = record { cond = c; pc = place s.pc i p }

abbrev s1 : System
s1 = next init 0 (record init.cond { holder = some 0 }) holding

abbrev s2 : System
s2 = next s1 0 s1.cond (numbered 0)

abbrev s3 : System
s3 = next s2 0 (record s2.cond { locked = 1 }) (counted 0)

abbrev s4 : System
s4 = next s3 0 (record s3.cond { holder = none }) (spinning 0)

abbrev s5 : System
s5 = next s4 1 (record s4.cond { cond_holder = some 1 }) signalling

abbrev s6 : System
s6 = next s5 1 (record s5.cond { released = 1 }) signalled

abbrev s7 : System
s7 = next s6 0 s6.cond (woken 0)

add_move :
    {s : System} {i : ℕ} {c : SpinCond} {p : Pc}
    → Reach s
    → s.cond.locked + 1 < 2 ^ 64
    → s.cond.released + 1 < 2 ^ 64
    → Move i s.cond (s.pc i) c p
    → Reach (next s i c p)
add_move {i = i} {c = c} {p = p} r l e m = later r l e (move i c p m)

s4-Reach : Reach s4
s4-Reach =
    add_move {i = 0}
      (add_move {i = 0}
        (add_move {i = 0} (add_move {i = 0} start (omega arith) (omega arith) (acquire refl))
          (omega arith) (omega arith) read_locked)
        (omega arith) (omega arith) (count 0))
      (omega arith) (omega arith) (wait_unlock 0)

s7-Reach : Reach s7
s7-Reach =
    add_move {i = 0}
      (add_move {i = 1} (add_move {i = 1} s4-Reach (omega arith) (omega arith) (signal_lock refl))
        (omega arith) (omega arith) signal_add)
      (omega arith) (omega arith) (leave 0 (omega arith))

Reach-Inv_example : Inv s7
Reach-Inv_example = Reach-Inv s7 s7-Reach
