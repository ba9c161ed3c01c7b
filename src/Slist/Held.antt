-- ===== src/Slist/Held.antt =====
-- What holds between any two turns of the threads that insert into one list.
use libfabric_provider_dpa.Prelude.{
  ℕ, ◌≡◌, ◌≢◌, ◌∙◌, ◌⊎◌, inl, inr, refl, sym, ap, subst, Bool, true, false, List, [], ◌∷◌, ◌++◌,
  map, none, some, ◌==◌, if◌then◌else◌, arith, Bool-cases,
}
use libfabric_provider_dpa.Slist.{Ptr, Heap, Slist, set_next, slist_empty, slist_insert_tail}
use libfabric_provider_dpa.Slist.Chain.{has, IsSlist}
use libfabric_provider_dpa.Slist.Threads.{
  Pc, outside, linking, nulling, tailing, releasing, finished, Threads, set_pc, link_in,
}

-- The three writes are `slist_insert_tail`.
pub writes_lem :
    (p : Ptr) (h : Heap) (l : Slist)
    → let (h1, l1) = link_in p h l in
      (set_next h1 p 0, record l1 { tail = p }) ≡ slist_insert_tail p h l
unfolding slist_insert_tail slist_empty
writes_lem p h l = elim (Bool-cases (l.head == 0)) [
  | inl none_there ↦ rw none_there refl
  | inr some_there ↦ rw some_there refl
]

-- Before any thread has taken a turn.
abbrev pub none_yet : Heap → Slist → Threads
none_yet h l = record { heap = h; list = l; lock = none; pc = λ j. outside; log = [] }

-- A thread that does not hold the lock.
abbrev pub IsCalm : Pc → Type 0
IsCalm outside = Unit {0}
IsCalm linking = ⊥
IsCalm nulling = ⊥
IsCalm tailing = ⊥
IsCalm releasing = ⊥
IsCalm finished = Unit {0}

abbrev pub is_finished : Pc → Bool
is_finished outside = false
is_finished linking = false
is_finished nulling = false
is_finished tailing = false
is_finished releasing = false
is_finished finished = true

abbrev pub with_tail : Ptr → Slist → Slist
with_tail p l = record l { tail = p }

pub set_pc-same : (f : ℕ → Pc) (i : ℕ) (p : Pc) → set_pc f i p i ≡ p
set_pc-same f i p = ground arith

set_pc-other : (f : ℕ → Pc) (i j : ℕ) (p : Pc) → j ≢ i → set_pc f i p j ≡ f j
set_pc-other f i j p ne = ground arith

pub ne_false : (a b : ℕ) → a ≢ b → (a == b) ≡ false
ne_false a b ne = ground arith

module _ (item : ℕ → Ptr) where
  abbrev pub items : List ℕ → List Ptr
  items is = map item is

  -- The list is that of the threads in the log, and these are the threads that are done.
  pub record IsLog (h : Heap) (l : Slist) (pc : ℕ → Pc) (log : List ℕ) : Type 0 where
    pub list : IsSlist h l (items log)
    pub exact : (j : ℕ) → has (item j) (items log) ≡ is_finished (pc j)

  -- How far the thread that holds the lock is.
  abbrev pub Stage : Pc → Ptr → Heap → Slist → Heap → Slist → Type 0
  Stage outside p h0 l0 h l = ⊥
  Stage linking p h0 l0 h l = (h ≡ h0) × (l ≡ l0)
  Stage nulling p h0 l0 h l = (h ≡ (link_in p h0 l0).0) × (l ≡ (link_in p h0 l0).1)
  Stage tailing p h0 l0 h l = (h ≡ set_next (link_in p h0 l0).0 p 0) × (l ≡ (link_in p h0 l0).1)
  Stage releasing p h0 l0 h l =
      (h ≡ (slist_insert_tail p h0 l0).0) × (l ≡ (slist_insert_tail p h0 l0).1)
  Stage finished p h0 l0 h l = ⊥

  pub record Free (s : Threads) : Type 0 where
    pub unlocked : s.lock ≡ none
    pub calm : (j : ℕ) → IsCalm (s.pc j)
    pub whole : IsLog s.heap s.list s.pc s.log

  -- `h0` and `l0` are the memory and the list when the lock was taken.
  pub record Busy (i : ℕ) (s : Threads) : Type 0 where
    pub h0 : Heap
    pub l0 : Slist
    pub locked : s.lock ≡ some i
    pub calm : (j : ℕ) → j ≢ i → IsCalm (s.pc j)
    pub before : IsLog h0 l0 s.pc s.log
    pub stage : Stage (s.pc i) (item i) h0 l0 s.heap s.list

  abbrev pub Inv : Threads → Type 0
  Inv s = Free s ⊎ (i : ℕ) × Busy i s

  -- Where a thread is after a turn of another one, or after its own to `p`.
  pub set_pc-others :
      (f : ℕ → Pc) (i : ℕ) (p : Pc)
      → ((j : ℕ) → j ≢ i → IsCalm (f j))
      → (j : ℕ) → j ≢ i
      → IsCalm (set_pc f i p j)
  set_pc-others f i p calm j ne = subst IsCalm (sym (set_pc-other f i j p ne)) (calm j ne)

  -- A turn to a place that is not the end does not change who is done.
  pub same_done :
      (f : ℕ → Pc) (i : ℕ) (p : Pc)
      → is_finished (f i) ≡ false
      → is_finished p ≡ false
      → (j : ℕ) → is_finished (f j) ≡ is_finished (set_pc f i p j)
  same_done f i p before after j = elim (Bool-cases (j == i)) [
    | inl here ↦
        ap (λ k. is_finished (f k)) (same_number here)
        ∙ before
        ∙ sym (ap (λ q. is_finished (if q then p else f j)) here ∙ after)
    | inr other ↦ sym (ap (λ q. is_finished (if q then p else f j)) other)
  ]
    where
      same_number : (j == i) ≡ true → j ≡ i
      same_number here = ground arith

  -- A turn inside keeps the log.
  pub step_in :
      (i : ℕ) (s : Threads) (p : Pc) (h : Heap) (l : Slist) (b : Busy i s)
      → is_finished (s.pc i) ≡ false
      → is_finished p ≡ false
      → Stage p (item i) b.h0 b.l0 h l
      → Busy i (record s { heap = h; list = l; pc = set_pc s.pc i p })
  step_in i s p h l b unfinished goes_on stage = record {
    h0 = b.h0;
    l0 = b.l0;
    locked = b.locked;
    calm = set_pc-others s.pc i p b.calm;
    before = record {
      list = b.before.list;
      exact = λ j. b.before.exact j ∙ same_done s.pc i p unfinished goes_on j;
    };
    stage = subst (λ q. Stage q (item i) b.h0 b.l0 h l) (sym (set_pc-same s.pc i p)) stage;
  }

  pub items-append : (is : List ℕ) (i : ℕ) → items (is ++ (i ∷ [])) ≡ items is ++ (item i ∷ [])
  items-append [] i = refl
  items-append (j ∷ js) i = ap (λ ps. item j ∷ ps) (items-append js i)
