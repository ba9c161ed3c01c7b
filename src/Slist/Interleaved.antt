-- ===== src/Slist/Interleaved.antt =====
-- What any interleaving of threads that insert into one list leaves.
use libfabric_provider_dpa.Prelude.{
  ℕ, ◌≡◌, ◌≢◌, ◌∙◌, inl, inr, refl, sym, ap, ap₂, subst, true, false, ◌||◌, List, [], ◌∷◌, ◌++◌,
  none, ◌==◌, if◌then◌else◌, arith, Bool-cases,
}
use mathlib.Core.Option.{none-ne-some}
use libfabric_provider_dpa.Slist.{Ptr, Heap, Slist, set_next, slist_insert_tail}
use libfabric_provider_dpa.Slist.Chain.{has, IsSlist}
use libfabric_provider_dpa.Slist.Insert.{has-append, slist_insert_tail-append}
use libfabric_provider_dpa.Slist.Threads.{
  Pc, outside, linking, nulling, tailing, releasing, finished, Threads, set_pc, link_in, try_lock,
  turn_at, turn, turns,
}
use libfabric_provider_dpa.Slist.Held.{
  writes_lem, none_yet, IsCalm, is_finished, with_tail, set_pc-same, ne_false, items, Stage, Free,
  Busy, Inv, set_pc-others, same_done, step_in, items-append,
}

module _ (item : ℕ → Ptr) (not_null : (i : ℕ) → item i ≢ 0)
    (distinct : (i j : ℕ) → item i ≡ item j → i ≡ j) where
  released :
      (i : ℕ) (s : Threads) (b : Busy item i s)
      → s.pc i ≡ releasing
      → Stage item releasing (item i) b.h0 b.l0 s.heap s.list
      → Free item (turn_at item releasing i s)
  released i s b here stage = record {
    unlocked = refl;
    calm = λ j. elim (Bool-cases (j == i)) [
      | inl same ↦ subst (λ q. IsCalm (if q then finished else s.pc j)) (sym same) tt
      | inr other ↦
          subst (λ q. IsCalm (if q then finished else s.pc j)) (sym other) (b.calm j (ground arith))
    ];
    whole = record {
      list = subst (IsSlist s.heap s.list) (sym (items-append item s.log i)) (
          subst (λ h. IsSlist h s.list (items item s.log ++ (item i ∷ []))) (sym stage.0)
            (subst
              (λ l.
                IsSlist (slist_insert_tail (item i) b.h0 b.l0).0 l
                  (items item s.log ++ (item i ∷ [])))
              (sym stage.1)
              (slist_insert_tail-append (item i) b.h0 b.l0 (items item s.log) b.before.list
                (not_null i) (b.before.exact i ∙ inside)).0));
      exact = λ j.
          ap (has (item j)) (items-append item s.log i)
          ∙ has-append (item j) (items item s.log) (item i ∷ [])
          ∙ one_more j;
    };
  }
    where
      inside : is_finished (s.pc i) ≡ false
      inside = ap is_finished here

      one_more :
          (j : ℕ)
          → (has (item j) (items item s.log) || has (item j) (item i ∷ []))
            ≡ is_finished (set_pc s.pc i finished j)
      one_more j = elim (Bool-cases (j == i)) [
        | inl same ↦
            let e : j ≡ i = ground arith in
            let there : (item j == item i) ≡ true = ground (arith, ap item e) in
            let done : is_finished (set_pc s.pc i finished j) ≡ true =
              ap (λ q. is_finished (if q then finished else s.pc j)) same in
            ground (arith, there, done)
        | inr other ↦
            let apart : (item j == item i) ≡ false =
              ne_false (item j) (item i) (λ e. ground (arith, other, distinct j i e)) in
            let done : is_finished (set_pc s.pc i finished j) ≡ is_finished (s.pc j) =
              ap (λ q. is_finished (if q then finished else s.pc j)) other in
            ground (arith, b.before.exact j, apart, done)
      ]

  own_turn :
      (i : ℕ) (s : Threads) (p : Pc) (b : Busy item i s)
      → s.pc i ≡ p
      → Stage item p (item i) b.h0 b.l0 s.heap s.list
      → Inv item (turn_at item p i s)
  own_turn i s outside b e st = absurd st
  own_turn i s linking b e st = inr (
    i,
    step_in item i s nulling _ _ b (ap is_finished e) refl (
      ap₂ (λ h l. (link_in (item i) h l).0) st.0 st.1,
      ap₂ (λ h l. (link_in (item i) h l).1) st.0 st.1,
    ),
  )
  own_turn i s nulling b e st = inr (
    i,
    step_in item i s tailing _ _ b (ap is_finished e) refl
        (ap (λ h. set_next h (item i) 0) st.0, st.1),
  )
  own_turn i s tailing b e st =
      let w = writes_lem (item i) b.h0 b.l0 in
      inr (
        i,
        step_in item i s releasing _ _ b (ap is_finished e) refl
            (st.0 ∙ ap (λ t. t.0) w, ap (with_tail (item i)) st.1 ∙ ap (λ t. t.1) w),
      )
  own_turn i s releasing b e st = inl (released i s b e st)
  own_turn i s finished b e st = absurd st

  turn_free :
      (j : ℕ) (s : Threads) (p : Pc) → s.pc j ≡ p → Free item s → Inv item (turn_at item p j s)
  turn_free j s outside e f =
      subst (λ k. Inv item (try_lock k j s)) (sym f.unlocked)
        (inr (
          j,
          record {
            h0 = s.heap;
            l0 = s.list;
            locked = refl;
            calm = set_pc-others item s.pc j linking (λ k ne. f.calm k);
            before = record {
              list = f.whole.list;
              exact =
                  λ k. f.whole.exact k ∙ same_done item s.pc j linking (ap is_finished e) refl k;
            };
            stage =
                subst (λ q. Stage item q (item j) s.heap s.list s.heap s.list)
                  (sym (set_pc-same s.pc j linking)) (refl, refl);
          },
        ))
  turn_free j s linking e f = absurd (subst IsCalm e (f.calm j))
  turn_free j s nulling e f = absurd (subst IsCalm e (f.calm j))
  turn_free j s tailing e f = absurd (subst IsCalm e (f.calm j))
  turn_free j s releasing e f = absurd (subst IsCalm e (f.calm j))
  turn_free j s finished e f = inl f

  turn_other :
      (i j : ℕ) (s : Threads) (p : Pc)
      → s.pc j ≡ p
      → IsCalm p
      → Busy item i s
      → Inv item (turn_at item p j s)
  turn_other i j s outside e calm b =
      subst (λ k. Inv item (try_lock k j s)) (sym b.locked) (inr (i, b))
  turn_other i j s linking e calm b = absurd calm
  turn_other i j s nulling e calm b = absurd calm
  turn_other i j s tailing e calm b = absurd calm
  turn_other i j s releasing e calm b = absurd calm
  turn_other i j s finished e calm b = inr (i, b)

  turn-Inv : (j : ℕ) (s : Threads) → Inv item s → Inv item (turn item j s)
  unfolding turn
  turn-Inv j s (inl f) = turn_free j s (s.pc j) refl f
  turn-Inv j s (inr (i, b)) = elim (Bool-cases (j == i)) [
    | inl here ↦
        subst (λ k. Inv item (turn_at item (s.pc k) k s)) (sym (same_number here))
          (own_turn i s (s.pc i) b refl b.stage)
    | inr other ↦ turn_other i j s (s.pc j) refl (b.calm j (ground arith)) b
  ]
    where
      same_number : (j == i) ≡ true → j ≡ i
      same_number here = ground arith

  turns-Inv : (is : List ℕ) (s : Threads) → Inv item s → Inv item (turns item is s)
  unfolding turns
  turns-Inv [] s inv = inv
  turns-Inv (i ∷ is) s inv = turns-Inv is (turn item i s) (turn-Inv i s inv)

  -- Threads insert different entries into an empty list, in turns of any order: each takes the
  -- lock, makes three writes and releases the lock. Whenever the lock is free, the list is a list
  -- of exactly the entries of the threads that are done, in the order in which they released
  -- the lock: no insertion is lost or seen half way.
  pub turns-IsSlist :
      (h : Heap) (l : Slist) (is : List ℕ)
      → IsSlist h l []
      → let s = turns item is (none_yet h l) in
        s.lock ≡ none
        → IsSlist s.heap s.list (items item s.log)
          × ((j : ℕ) → has (item j) (items item s.log) ≡ is_finished (s.pc j))
  turns-IsSlist h l is empty free =
      elim (turns-Inv is (none_yet h l) (
        inl (record {
          unlocked = refl;
          calm = λ j. tt;
          whole = record { list = empty; exact = λ j. refl };
        }))) [
          | inl f ↦ (f.whole.list, f.whole.exact)
          | inr (i, b) ↦ absurd (none-ne-some i (sym free ∙ b.locked))
        ]
