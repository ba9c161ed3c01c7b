-- ===== src/Slist/Threads.antt =====
-- Threads that insert into one list of src/list.h, each with `slist_insert_tail`: the lock is
-- taken, the entry is linked in with three writes, and the lock is released. A turn of a thread is
-- one of these; threads take turns in any order.
use libfabric_provider_dpa.Prelude.{ℕ, List, [], ◌∷◌, ◌++◌, Option, none, some, ◌==◌, if◌then◌else◌}
use libfabric_provider_dpa.Slist.{Ptr, Heap, Slist, set_next, slist_empty}

-- Where a thread is in `slist_insert_tail`.
pub data Pc : Type 0 where
  outside linking nulling tailing releasing finished : Pc

-- The memory, the list with its lock, none where it is free, where each thread is, and the threads
-- that have released the lock, in order.
pub record Threads : Type 0 where
  pub heap : Heap
  pub list : Slist
  pub lock : Option ℕ
  pub pc : ℕ → Pc
  pub log : List ℕ

abbrev pub set_pc : (ℕ → Pc) → ℕ → Pc → ℕ → Pc
set_pc f i p j = if j == i then p else f j

-- The first write of `slist_insert_tail_unsafe`.
abbrev pub link_in : Ptr → Heap → Slist → Heap × Slist
link_in p h l = if slist_empty l then (h, record l { head = p }) else (set_next h l.tail p, l)

-- What `fastlock_acquire` does where the lock is free; the thread waits where it is not.
abbrev pub try_lock : Option ℕ → ℕ → Threads → Threads
try_lock none i s = record s { lock = some i; pc = set_pc s.pc i linking }
try_lock (some j) i s = s

module _ (item : ℕ → Ptr) where
  abbrev pub turn_at : Pc → ℕ → Threads → Threads
  turn_at outside i s = try_lock s.lock i s
  turn_at linking i s =
      let (h, l) = link_in (item i) s.heap s.list in
      record s { heap = h; list = l; pc = set_pc s.pc i nulling }
  turn_at nulling i s = record s { heap = set_next s.heap (item i) 0; pc = set_pc s.pc i tailing }
  turn_at tailing i s = record s {
    list = record s.list { tail = item i };
    pc = set_pc s.pc i releasing;
  }
  turn_at releasing i s = record s {
    lock = none;
    pc = set_pc s.pc i finished;
    log = s.log ++ (i ∷ []);
  }
  turn_at finished i s = s

  -- The turn of one thread.
  unfoldable pub turn : ℕ → Threads → Threads
  unfolding slist_empty
  turn i s = turn_at (s.pc i) i s

  -- The turns of a schedule, one after another.
  unfoldable pub turns : List ℕ → Threads → Threads
  unfolding turn
  turns [] s = s
  turns (i ∷ is) s = turns is (turn i s)
