-- ===== src/Av/Inserts.antt =====
-- Inserting into an address vector and looking up what was inserted.
use libfabric_provider_dpa.Prelude.{
  ℕ, suc, ◌+◌, ◌*◌, ◌≡◌, refl, ap, ap₂, inl, inr, List, [], ◌∷◌, ◌++◌, map, sym, subst, ◌∙◌, Option,
  none, some, arith, leb, length, length-append, Bool-cases,
}
use mathlib.Core.Option.{some-injective, none-ne-some}
use mathlib.Core.List.{append-nil, append_assoc}
use libfabric_provider_dpa.Fabric.{Ret, ok, err, no_mem}
use libfabric_provider_dpa.Av.{
  Addr, Array, Av, check_table_size, get_fi_addr, fi_addrs, store_entries, dpa_av_insert,
  dpa_av_lookup, array_request_size, dpa_av_open, array_create,
}
use libfabric_provider_dpa.Av.Table.{entries-length}
use libfabric_provider_dpa.Av.Lookup.{HasAddrs, lookup_in, lookup_from}

-- The addresses of a call that succeeds.
abbrev pub accepted : Ret → List Addr → List Addr
accepted (ok n) addrs = addrs
accepted (err e) addrs = []

-- Insertions, each with what `realloc` answers: the addresses taken, the handles given out for
-- them, and the vector at the end.
unfoldable pub av_inserts : List (List Addr × Option ℕ) → Av → List Addr × List ℕ × Av
av_inserts [] av = ([], [], av)
av_inserts ((addrs, realloc) ∷ calls) av =
    let (ret, fi_addrs1, av1) = dpa_av_insert addrs realloc av in
    let (stored, fi_addrs2, av2) = av_inserts calls av1 in
    (accepted ret addrs ++ stored, fi_addrs1 ++ fi_addrs2, av2)

-- `realloc` finds no memory or leaves the block at `p`.
abbrev pub Stays : ℕ → Option ℕ → Type 0
Stays p none = Unit {0}
Stays p (some q) = q ≡ p

abbrev pub StaysAt : ℕ → List (List Addr × Option ℕ) → Type 0
StaysAt p [] = Unit {0}
StaysAt p ((addrs, r) ∷ calls) = Stays p r × StaysAt p calls

fi_addrs-append :
    (av : Av) (i : ℕ) (old addrs : List Addr)
    → fi_addrs av i (old ++ addrs) ≡ fi_addrs av i old ++ fi_addrs av (i + length old) addrs
fi_addrs-append av i [] addrs = ap (λ k. fi_addrs av k addrs) (omega arith)
fi_addrs-append av i (a ∷ old) addrs =
    ap (λ xs. get_fi_addr av i ∷ xs)
      (fi_addrs-append av (suc i) old addrs
        ∙ ap (λ k. fi_addrs av (suc i) old ++ fi_addrs av k addrs) (omega arith))

-- A handle depends only on the kind of the vector and the place of its table.
fi_addrs-same :
    (av av1 : Av) (i : ℕ) (addrs : List Addr)
    → av1.is_table ≡ av.is_table
    → av1.block.address ≡ av.block.address
    → fi_addrs av1 i addrs ≡ fi_addrs av i addrs
unfolding get_fi_addr
fi_addrs-same av av1 i [] kind place = refl
fi_addrs-same av av1 i (a ∷ addrs) kind place =
    ap₂ (λ x xs. x ∷ xs) (rw (kind, place) refl) (fi_addrs-same av av1 (suc i) addrs kind place)

-- What an insertion that finds memory in place does.
pub record IsInserted (av : Av) (addrs : List Addr) (r : Ret × List ℕ × Av) : Type 0 where
  pub stored : List Addr
  pub taken : accepted r.0 addrs ≡ stored
  pub entries : r.2.entries ≡ av.entries ++ stored
  pub last : length r.2.entries ≡ r.2.last
  pub kind : r.2.is_table ≡ av.is_table
  pub place : r.2.block.address ≡ av.block.address
  pub handles : r.1 ≡ fi_addrs r.2 (length av.entries) stored

entries_lem :
    (av : Av) (addrs : List Addr)
    → length av.entries ≡ av.last
    → store_entries av.entries av.last addrs ≡ av.entries ++ addrs
entries_lem av addrs full =
    subst (λ k. store_entries av.entries k addrs ≡ av.entries ++ addrs) full
      (entries-length av.entries addrs)

inserted :
    (av : Av) (addrs : List Addr) (b : Array)
    → length av.entries ≡ av.last
    → b.address ≡ av.block.address
    → let av1 = record av { block = b } in
      IsInserted av addrs (
        ok (length addrs),
        fi_addrs av1 av.last addrs,
        record av1 {
          entries = store_entries av.entries av.last addrs;
          last = av.last + length addrs;
        },
      )
inserted av addrs b full place = record {
  stored = addrs;
  taken = refl;
  entries = entries_lem av addrs full;
  last =
      ap length (entries_lem av addrs full) ∙ omega (arith, length-append av.entries addrs, full);
  kind = refl;
  place = place;
  handles =
      ap (λ k. fi_addrs (record av { block = b }) k addrs) (sym full)
      ∙ sym (
          fi_addrs-same (record av { block = b })
            (record av {
              block = b;
              entries = store_entries av.entries av.last addrs;
              last = av.last + length addrs;
            })
            (length av.entries) addrs refl refl);
}

refused :
    (av : Av) (addrs : List Addr)
    → length av.entries ≡ av.last
    → IsInserted av addrs (err no_mem, [], av)
refused av addrs full = record {
  stored = [];
  taken = refl;
  entries = sym (append-nil av.entries);
  last = full;
  kind = refl;
  place = refl;
  handles = refl;
}

array_request_size-place :
    (n : ℕ) (r : Option ℕ) (a b : Array)
    → Stays a.address r
    → array_request_size n r a ≡ some b
    → b.address ≡ a.address
unfolding array_request_size
array_request_size-place n r a b stays e = elim (Bool-cases (leb n a.array_count)) [
  | inl t ↦ ap (λ c. c.address) (sym (some-injective a b (sym (rw t refl) ∙ e)))
  | inr f ↦ grown r stays (sym (rw f refl) ∙ e)
]
  where
    grown :
        (r : Option ℕ)
        → Stays a.address r
        → elim r [
          | none ↦ none
          | some p ↦ some (record a { address = p; allocated = (2 * a.array_count + n) * 8 })
        ]
          ≡ some b
        → b.address ≡ a.address
    grown none s q = absurd (none-ne-some b q)
    grown (some p) s q = ap (λ c. c.address) (sym (some-injective _ _ q)) ∙ s

dpa_av_insert-IsInserted :
    (addrs : List Addr) (r : Option ℕ) (av : Av)
    → length av.entries ≡ av.last
    → Stays av.block.address r
    → IsInserted av addrs (dpa_av_insert addrs r av)
unfolding dpa_av_insert check_table_size
dpa_av_insert-IsInserted addrs r av full stays =
    by_size (array_request_size (av.last + length addrs) r av.block) refl
  where
    by_size :
        (m : Option Array)
        → array_request_size (av.last + length addrs) r av.block ≡ m
        → IsInserted av addrs (dpa_av_insert addrs r av)
    by_size none e = rw (dpa_av_insert, check_table_size, e) (refused av addrs full)
    by_size (some b) e =
        rw (dpa_av_insert, check_table_size, e)
          (inserted av addrs b full
            (array_request_size-place (av.last + length addrs) r av.block b stays e))

joined :
    (av av1 av2 : Av) (s1 s2 : List Addr) (h1 h2 : List ℕ)
    → av1.entries ≡ av.entries ++ s1
    → av2.entries ≡ av1.entries ++ s2
    → av2.is_table ≡ av1.is_table
    → av2.block.address ≡ av1.block.address
    → h1 ≡ fi_addrs av1 (length av.entries) s1
    → h2 ≡ fi_addrs av2 (length av1.entries) s2
    → (av2.entries ≡ av.entries ++ (s1 ++ s2))
      × (h1 ++ h2 ≡ fi_addrs av2 (length av.entries) (s1 ++ s2))
joined av av1 av2 s1 s2 h1 h2 e1 e2 kind place g1 g2 = (
  e2 ∙ ap (λ xs. xs ++ s2) e1 ∙ append_assoc av.entries s1 s2,
  ap₂ (λ xs ys. xs ++ ys) (g1 ∙ sym (fi_addrs-same av1 av2 (length av.entries) s1 kind place))
        (g2 ∙ ap (λ k. fi_addrs av2 k s2) (ap length e1 ∙ length-append av.entries s1))
      ∙ sym (fi_addrs-append av2 (length av.entries) s1 s2),
)

av_inserts_lem :
    (calls : List (List Addr × Option ℕ)) (av : Av)
    → length av.entries ≡ av.last
    → StaysAt av.block.address calls
    → let (stored, handles, av1) = av_inserts calls av in
      (av1.entries ≡ av.entries ++ stored)
      × (length av1.entries ≡ av1.last)
      × (av1.is_table ≡ av.is_table)
      × (av1.block.address ≡ av.block.address)
      × (handles ≡ fi_addrs av1 (length av.entries) stored)
unfolding av_inserts
av_inserts_lem [] av full stays = (sym (append-nil av.entries), full, refl, refl, refl)
av_inserts_lem ((addrs, r) ∷ calls) av full stays =
    let first = dpa_av_insert-IsInserted addrs r av full stays.0 in
    let rest =
      av_inserts_lem calls (dpa_av_insert addrs r av).2 first.last
        (subst (λ p. StaysAt p calls) (sym first.place) stays.1) in
    let both =
      joined av (dpa_av_insert addrs r av).2 (av_inserts calls (dpa_av_insert addrs r av).2).2
        (accepted (dpa_av_insert addrs r av).0 addrs)
        (av_inserts calls (dpa_av_insert addrs r av).2).0 (dpa_av_insert addrs r av).1
        (av_inserts calls (dpa_av_insert addrs r av).2).1
        (first.entries ∙ ap (λ xs. av.entries ++ xs) (sym first.taken)) rest.0 rest.2 rest.3
        (first.handles
          ∙ ap (fi_addrs (dpa_av_insert addrs r av).2 (length av.entries)) (sym first.taken))
        rest.4 in
    (both.0, rest.1, rest.2 ∙ first.kind, rest.3 ∙ first.place, both.1)

-- An address vector is opened with its table at `p`, and addresses are inserted by any calls, of
-- which some may find no memory, but none moves the table. Where memory has the table, looking up the handles that they
-- gave out finds the addresses that they took, in order.
pub dpa_av_lookup-av_inserts :
    (p count : ℕ) (mem : ℕ → Addr) (calls : List (List Addr × Option ℕ))
    → StaysAt p calls
    → let (stored, handles, av) = av_inserts calls (dpa_av_open p count) in
      HasAddrs mem p av.entries
      → map (λ f. dpa_av_lookup mem f av) handles ≡ map (λ a. (ok 0, some a)) stored
unfolding dpa_av_open array_create
dpa_av_lookup-av_inserts p count mem calls stays holds =
    let av = (av_inserts calls (dpa_av_open p count)).2 in
    let stored = (av_inserts calls (dpa_av_open p count)).0 in
    let l = av_inserts_lem calls (dpa_av_open p count) refl stays in
    ap (map (lookup_in mem av)) l.4
    ∙ lookup_from mem av [] stored l.0 (omega (arith, l.1, ap length l.0)) (
        subst (λ q. HasAddrs mem q stored) (sym l.3 ∙ omega arith)
          (subst (HasAddrs mem p) l.0 holds))
