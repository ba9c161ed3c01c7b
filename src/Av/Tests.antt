-- ===== src/Av/Tests.antt =====
-- A vector of two addresses into which three are inserted: one call finds no memory, the next
-- grows the table in place.
use libfabric_provider_dpa.Prelude.{
  ℕ, ◌≡◌, refl, List, [], ◌∷◌, map, Option, none, some, ◌==◌, if◌then◌else◌,
}
use libfabric_provider_dpa.Fabric.{ok}
use libfabric_provider_dpa.Av.{
  Addr, dpa_av_open, dpa_av_lookup, dpa_av_insert, check_table_size, array_request_size,
  array_create,
}
use libfabric_provider_dpa.Av.Inserts.{av_inserts, dpa_av_lookup-av_inserts}

abbrev node : ℕ → Addr
node n = record { node_id = n; connect_id = 7 }

abbrev calls : List (List Addr × Option ℕ)
calls = (node 4 ∷ [], none) ∷ (node 0 ∷ node 8 ∷ [], none) ∷ (node 8 ∷ node 12 ∷ [], some 64) ∷ []

-- The table is at 64.
abbrev memory : ℕ → Addr
memory a =
    if a == 64 then node 4 else if a == 72 then node 8 else if a == 80 then node 12 else node 0

dpa_av_lookup-av_inserts_example :
    let (stored, handles, av) = av_inserts calls (dpa_av_open 64 2) in
    map (λ f. dpa_av_lookup memory f av) handles ≡ map (λ a. (ok 0, some a)) stored
unfolding av_inserts dpa_av_open dpa_av_insert check_table_size array_request_size array_create
dpa_av_lookup-av_inserts_example =
    dpa_av_lookup-av_inserts 64 2 memory calls (tt, (tt, (refl, tt))) (refl, (refl, (refl, tt)))
