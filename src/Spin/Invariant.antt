-- ===== src/Spin/Invariant.antt =====
-- What holds of each thread, and that no step of another one breaks it.
use libfabric_provider_dpa.Prelude.{
  ℕ, ◌+◌, ◌^◌, ◌<◌, ◌≤◌, ◌≡◌, ◌≢◌, refl, sym, ◌∙◌, Option, none, some, arith,
}
use libfabric_provider_dpa.Spin.{
  SpinCond, Pc, outside, holding, numbered, counted, spinning, woken, signalling, signalled,
  all_testing, all_adding, Move, acquire, release, read_locked, count, wait_unlock, spin, leave,
  relock, signal_lock, signal_add, signal_unlock, all_lock, all_more, all_add, all_unlock,
}

-- The lock is held by a thread that is there; a number read is the counter's, a number counted is
-- below it; a thread past the loop has a number that was released.
abbrev pub IsOk : SpinCond → ℕ → Pc → Type 0
IsOk c i outside = Unit {0}
IsOk c i holding = c.holder ≡ some i
IsOk c i (numbered w) = (c.holder ≡ some i) × (w ≡ c.locked)
IsOk c i (counted w) = (c.holder ≡ some i) × (w < c.locked)
IsOk c i (spinning w) = w < c.locked
IsOk c i (woken w) = (w < c.locked) × (w < c.released)
IsOk c i signalling = c.cond_holder ≡ some i
IsOk c i signalled = c.cond_holder ≡ some i
IsOk c i all_testing = c.cond_holder ≡ some i
IsOk c i all_adding = c.cond_holder ≡ some i

-- The number that a thread waits with, once it is counted.
abbrev pub ticket : Pc → Option ℕ
ticket outside = none
ticket holding = none
ticket (numbered w) = none
ticket (counted w) = some w
ticket (spinning w) = some w
ticket (woken w) = some w
ticket signalling = none
ticket signalled = none
ticket all_testing = none
ticket all_adding = none

pub mover-IsOk :
    (i : ℕ) (c : SpinCond) (p : Pc) (c' : SpinCond) (p' : Pc)
    → c.locked + 1 < 2 ^ 64
    → c.released + 1 < 2 ^ 64
    → IsOk c i p
    → Move i c p c' p'
    → IsOk c' i p'
mover-IsOk i c _ _ _ l r k (acquire free) = refl
mover-IsOk i c _ _ _ l r k release = tt
mover-IsOk i c _ _ _ l r k read_locked = (k, refl)
mover-IsOk i c _ _ _ l r k (count w) = (k.0, omega arith)
mover-IsOk i c _ _ _ l r k (wait_unlock w) = k.1
mover-IsOk i c _ _ _ l r k (spin w le) = k
mover-IsOk i c _ _ _ l r k (leave w lt) = (k, lt)
mover-IsOk i c _ _ _ l r k (relock w free) = refl
mover-IsOk i c _ _ _ l r k (signal_lock free) = refl
mover-IsOk i c _ _ _ l r k signal_add = k
mover-IsOk i c _ _ _ l r k signal_unlock = tt
mover-IsOk i c _ _ _ l r k (all_lock free) = refl
mover-IsOk i c _ _ _ l r k (all_more lt) = k
mover-IsOk i c _ _ _ l r k all_add = k
mover-IsOk i c _ _ _ l r k (all_unlock le) = tt

-- What a step of another thread may do to the shared state, as thread `j` sees it.
pub record Keeps (c c' : SpinCond) (j : ℕ) : Type 0 where
  locked_grows : c.locked ≤ c'.locked
  released_grows : c.released ≤ c'.released
  keeps_lock : c.holder ≡ some j → (c'.holder ≡ some j) × (c'.locked ≡ c.locked)
  keeps_cond : c.cond_holder ≡ some j → c'.cond_holder ≡ some j

some-injective : (i j : ℕ) → some i ≡ some j → i ≡ j
some-injective i j e = cc

pub move-Keeps :
    (i j : ℕ) (c : SpinCond) (p : Pc) (c' : SpinCond) (p' : Pc)
    → j ≢ i
    → c.locked + 1 < 2 ^ 64
    → c.released + 1 < 2 ^ 64
    → IsOk c i p
    → Move i c p c' p'
    → Keeps c c' j
move-Keeps i j c _ _ _ ne l r k (acquire free) = ground arith
move-Keeps i j c _ _ _ ne l r k release = ground arith
move-Keeps i j c _ _ _ ne l r k read_locked = ground arith
move-Keeps i j c _ _ _ ne l r k (count w) = ground arith
move-Keeps i j c _ _ _ ne l r k (wait_unlock w) = ground arith
move-Keeps i j c _ _ _ ne l r k (spin w le) = ground arith
move-Keeps i j c _ _ _ ne l r k (leave w lt) = ground arith
move-Keeps i j c _ _ _ ne l r k (relock w free) = ground arith
move-Keeps i j c _ _ _ ne l r k (signal_lock free) = ground arith
move-Keeps i j c _ _ _ ne l r k signal_add = ground arith
move-Keeps i j c _ _ _ ne l r k signal_unlock = ground arith
move-Keeps i j c _ _ _ ne l r k (all_lock free) = ground arith
move-Keeps i j c _ _ _ ne l r k (all_more lt) = ground arith
move-Keeps i j c _ _ _ ne l r k all_add = ground arith
move-Keeps i j c _ _ _ ne l r k (all_unlock le) = ground arith

pub other-IsOk : (c c' : SpinCond) (j : ℕ) (q : Pc) → Keeps c c' j → IsOk c j q → IsOk c' j q
other-IsOk c c' j outside k h = tt
other-IsOk c c' j holding k h = (k.keeps_lock h).0
other-IsOk c c' j (numbered w) k h = let (kept, same) = k.keeps_lock h.0 in (kept, h.1 ∙ sym same)
other-IsOk c c' j (counted w) k h =
    let (kept, same) = k.keeps_lock h.0 in let grows = k.locked_grows in (kept, omega (arith, h.1))
other-IsOk c c' j (spinning w) k h = let grows = k.locked_grows in omega arith
other-IsOk c c' j (woken w) k h =
    let grows = k.locked_grows in
    let grows' = k.released_grows in (omega (arith, h.0), omega (arith, h.1))
other-IsOk c c' j signalling k h = k.keeps_cond h
other-IsOk c c' j signalled k h = k.keeps_cond h
other-IsOk c c' j all_testing k h = k.keeps_cond h
other-IsOk c c' j all_adding k h = k.keeps_cond h
