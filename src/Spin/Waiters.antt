-- ===== src/Spin/Waiters.antt =====
-- Waiting threads have different numbers, and the lock has one holder, in every reachable state.
use libfabric_provider_dpa.Prelude.{
  ℕ, ◌+◌, ◌^◌, ◌<◌, ◌≡◌, ◌≢◌, ◌⊎◌, ◌∙◌, inl, inr, refl, sym, ap, subst, none, some, ◌==◌, ==_iff,
  Bool-cases, arith,
}
use libfabric_provider_dpa.Spin.{
  SpinCond, Pc, outside, holding, numbered, counted, spinning, woken, signalling, signalled,
  all_testing, all_adding, Move, acquire, release, read_locked, count, wait_unlock, spin, leave,
  relock, signal_lock, signal_add, signal_unlock, all_lock, all_more, all_add, all_unlock, System,
  place, Step, move, Reach, start, later,
}
use libfabric_provider_dpa.Spin.Invariant.{IsOk, ticket, mover-IsOk, move-Keeps, other-IsOk}

pub record Inv (s : System) : Type 0 where
  pub threads : (i : ℕ) → IsOk s.cond i (s.pc i)
  pub distinct : (i j w : ℕ) → ticket (s.pc i) ≡ some w → ticket (s.pc j) ≡ some w → i ≡ j

none-some : (w : ℕ) → none ≡ some w → ⊥
none-some w e = cc

same_number : (x w : ℕ) → some x ≡ some w → x ≡ w
same_number x w e = cc

ticket-below : (c : SpinCond) (i w : ℕ) (p : Pc) → IsOk c i p → ticket p ≡ some w → w < c.locked
ticket-below c i w outside k e = absurd (none-some w e)
ticket-below c i w holding k e = absurd (none-some w e)
ticket-below c i w (numbered x) k e = absurd (none-some w e)
ticket-below c i w (counted x) k e = subst (λ y. y < c.locked) (same_number x w e) k.1
ticket-below c i w (spinning x) k e = subst (λ y. y < c.locked) (same_number x w e) k
ticket-below c i w (woken x) k e = subst (λ y. y < c.locked) (same_number x w e) k.0
ticket-below c i w signalling k e = absurd (none-some w e)
ticket-below c i w signalled k e = absurd (none-some w e)
ticket-below c i w all_testing k e = absurd (none-some w e)
ticket-below c i w all_adding k e = absurd (none-some w e)

-- A step keeps the number of the thread, drops it, or gives it the next one.
move-ticket :
    (i : ℕ) (c : SpinCond) (p : Pc) (c' : SpinCond) (p' : Pc)
    → IsOk c i p
    → Move i c p c' p'
    → (ticket p' ≡ ticket p) ⊎ (ticket p' ≡ none) ⊎ (ticket p' ≡ some c.locked)
move-ticket i c _ _ _ k (acquire free) = inl refl
move-ticket i c _ _ _ k release = inl refl
move-ticket i c _ _ _ k read_locked = inl refl
move-ticket i c _ _ _ k (count w) = inr (inr (ap some k.1))
move-ticket i c _ _ _ k (wait_unlock w) = inl refl
move-ticket i c _ _ _ k (spin w le) = inl refl
move-ticket i c _ _ _ k (leave w lt) = inl refl
move-ticket i c _ _ _ k (relock w free) = inr (inl refl)
move-ticket i c _ _ _ k (signal_lock free) = inl refl
move-ticket i c _ _ _ k signal_add = inl refl
move-ticket i c _ _ _ k signal_unlock = inl refl
move-ticket i c _ _ _ k (all_lock free) = inl refl
move-ticket i c _ _ _ k (all_more lt) = inl refl
move-ticket i c _ _ _ k all_add = inl refl
move-ticket i c _ _ _ k (all_unlock le) = inl refl

place-same : (pc : ℕ → Pc) (i : ℕ) (p : Pc) → place pc i p i ≡ p
place-same pc i p = rw ((==_iff i i).1 refl) refl

place-other : (pc : ℕ → Pc) (i j : ℕ) (p : Pc) → j ≢ i → place pc i p j ≡ pc j
place-other pc i j p ne = ground arith

same_or_other :
    (pc : ℕ → Pc) (i j : ℕ) (p : Pc)
    → ((j ≡ i) × (place pc i p j ≡ p)) ⊎ ((j ≢ i) × (place pc i p j ≡ pc j))
same_or_other pc i j p = elim (Bool-cases (j == i)) [
  | inl e ↦ inl ((==_iff j i).0 e, rw e refl)
  | inr e ↦ inr ((λ same. ground arith), rw e refl)
]

-- The number of the thread that moves differs from that of every other one.
mover-distinct :
    (s : System) (i j w : ℕ) (c : SpinCond) (p : Pc)
    → Inv s
    → Move i s.cond (s.pc i) c p
    → ticket p ≡ some w
    → ticket (s.pc j) ≡ some w
    → i ≡ j
mover-distinct s i j w c p v m e e' = elim (move-ticket i s.cond (s.pc i) c p (v.threads i) m) [
  | inl same ↦ v.distinct i j w (sym same ∙ e) e'
  | inr (inl dropped) ↦ absurd (none-some w (sym dropped ∙ e))
  | inr (inr next) ↦
      let below = ticket-below s.cond j w (s.pc j) (v.threads j) e' in
      let number = same_number s.cond.locked w (sym next ∙ e) in absurd (omega arith)
]

distinct-places :
    (s : System) (i j k w : ℕ) (c : SpinCond) (p : Pc)
    → Inv s
    → Move i s.cond (s.pc i) c p
    → (j ≡ i) × (place s.pc i p j ≡ p) ⊎ (j ≢ i) × (place s.pc i p j ≡ s.pc j)
    → (k ≡ i) × (place s.pc i p k ≡ p) ⊎ (k ≢ i) × (place s.pc i p k ≡ s.pc k)
    → ticket (place s.pc i p j) ≡ some w
    → ticket (place s.pc i p k) ≡ some w
    → j ≡ k
distinct-places s i j k w c p v m (inl (j_i, at_j)) (inl (k_i, at_k)) e e' = j_i ∙ sym k_i
distinct-places s i j k w c p v m (inl (j_i, at_j)) (inr (ne, at_k)) e e' =
    j_i ∙ mover-distinct s i k w c p v m (sym (ap ticket at_j) ∙ e) (sym (ap ticket at_k) ∙ e')
distinct-places s i j k w c p v m (inr (ne, at_j)) (inl (k_i, at_k)) e e' =
    sym (mover-distinct s i j w c p v m (sym (ap ticket at_k) ∙ e') (sym (ap ticket at_j) ∙ e))
    ∙ sym k_i
distinct-places s i j k w c p v m (inr (ne, at_j)) (inr (ne', at_k)) e e' =
    v.distinct j k w (sym (ap ticket at_j) ∙ e) (sym (ap ticket at_k) ∙ e')

Step-Inv :
    (s t : System)
    → s.cond.locked + 1 < 2 ^ 64
    → s.cond.released + 1 < 2 ^ 64
    → Inv s
    → Step s t
    → Inv t
Step-Inv s _ l r v (move i c p m) = record {
  threads = λ j. elim (same_or_other s.pc i j p) [
    | inl (e, here) ↦
        subst (λ q. IsOk c j q) (sym here)
          (subst (λ x. IsOk c x p) (sym e) (mover-IsOk i s.cond (s.pc i) c p l r (v.threads i) m))
    | inr (ne, there) ↦
        subst (λ q. IsOk c j q) (sym there)
          (other-IsOk s.cond c j (s.pc j)
            (move-Keeps i j s.cond (s.pc i) c p ne l r (v.threads i) m) (v.threads j))
  ];
  distinct = λ j k w e e'.
      distinct-places s i j k w c p v m (same_or_other s.pc i j p) (same_or_other s.pc i k p) e e';
}

-- In every state that is reached without a step from a counter at the end of its 64 bits: two
-- threads that wait, or are past the loop but without the lock, have different numbers; all numbers
-- are below `locked`; a thread past the loop has a number below `released`; and a thread
-- between taking and releasing a lock is the one that holds it, so there is one at most.
pub Reach-Inv : (s : System) → Reach s → Inv s
Reach-Inv s start = record { threads = λ i. tt; distinct = λ i j w e e'. absurd (none-some w e) }
Reach-Inv s (later {s = s0} reach l r step) = Step-Inv s0 s l r (Reach-Inv s0 reach) step
