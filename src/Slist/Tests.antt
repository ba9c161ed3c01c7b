-- ===== src/Slist/Tests.antt =====
-- Lists of concrete entries, and two threads that insert into one.
use libfabric_provider_dpa.Prelude.{ℕ, suc, ◌≡◌, refl, List, [], ◌∷◌, arith, ◌==◌, if◌then◌else◌}
use libfabric_provider_dpa.Slist.{Heap, Slist, slist_empty}
use libfabric_provider_dpa.Slist.Chain.{has, IsSlist}
use libfabric_provider_dpa.Slist.Threads.{turn, turns}
use libfabric_provider_dpa.Slist.Held.{none_yet, items, is_finished}
use libfabric_provider_dpa.Slist.Interleaved.{turns-IsSlist}

-- 5, then 9
abbrev heap : Heap
heap a = if a == 5 then 9 else 0

abbrev two : Slist
two = record { head = 5; tail = 9 }

two-IsSlist : IsSlist heap two (5 ∷ 9 ∷ [])
two-IsSlist = record {
  chain = (refl, omega arith, refl, (refl, omega arith, refl, refl));
  tail = refl;
}

-- Threads 0 and 1 insert the entries 1 and 2; 1 waits for the lock that 0 has.
abbrev turns_of_two : List ℕ
turns_of_two = 0 ∷ 1 ∷ 0 ∷ 0 ∷ 1 ∷ 0 ∷ 0 ∷ 1 ∷ 1 ∷ 1 ∷ 1 ∷ 1 ∷ []

abbrev zeros : Heap
zeros a = 0

abbrev no_entries : Slist
no_entries = record { head = 0; tail = 0 }

turns-IsSlist_example :
    let s = turns suc turns_of_two (none_yet zeros no_entries) in
    IsSlist s.heap s.list (items suc s.log)
    × ((j : ℕ) → has (suc j) (items suc s.log) ≡ is_finished (s.pc j))
unfolding turns turn slist_empty
turns-IsSlist_example =
    turns-IsSlist suc (λ i. omega arith) (λ i j e. omega arith) zeros no_entries turns_of_two
      (record { chain = refl; tail = refl }) refl
