-- ===== src/RemoteCache.antt =====
-- src/dpa_rma.c and `remote_mr_cache` of src/dpa_ep.h: the remote segment that an endpoint used last,
-- kept mapped, and the interrupt that signals remote data. The library of the network card is the
-- record `Dpalib` of what its calls answer.
use libfabric_provider_dpa.Prelude.{
  ℕ, ◌%◌, ◌^◌, Bool, true, false, not, ◌&&◌, List, [], ◌∷◌, ◌++◌, Option, none, some, ◌==◌,
  if◌then◌else◌,
}
use libfabric_provider_dpa.Av.{Addr}

-- What the calls of DPAlib answer: whether they succeed, and the size of a remote segment.
-- `starts` counts the calls of DPAStartSequence that answer something else before DPA_SEQ_OK.
pub record Dpalib : Type 0 where
  pub opens : Bool
  pub connects : Addr → Bool
  pub segment_size : Addr → ℕ
  pub maps : Addr → Bool
  pub sequences : Addr → Bool
  pub starts : ℕ
  pub interrupts : ℕ → Bool

-- `remote_mr_cache`. The handles are given by whether they are set, `interrupt` by the node
-- that its handle was connected to and the id; `triggered` lists the interrupts on which
-- DPATriggerInterrupt was called, by node and id.
pub record MrCache : Type 0 where
  pub target : Addr
  pub has_sd : Bool
  pub has_segment : Bool
  pub has_map : Bool
  pub has_base : Bool
  pub cache_len : ℕ
  pub interrupt : Option (ℕ × ℕ)
  pub triggered : List (ℕ × ℕ)

abbrev pub no_addr : Addr
no_addr = record { node_id = 0; connect_id = 0 }

unfoldable pub cache_disconnect_interrupt : MrCache → MrCache
cache_disconnect_interrupt c = record c { interrupt = none }

-- `cache_disconnect`: what is set is released, and the target is forgotten.
unfoldable pub cache_disconnect : MrCache → MrCache
cache_disconnect c = record c {
  target = no_addr;
  has_sd = false;
  has_segment = false;
  has_map = false;
  has_base = false;
  cache_len = 0;
}

-- The steps of `cache_connect` up to the label, each with the handles that it sets, and whether
-- all of them succeeded.
abbrev pub connect_steps : Dpalib → Addr → MrCache → Bool × MrCache
connect_steps dpa target c =
    let c1 : MrCache = record c { has_sd = dpa.opens } in
    let c2 : MrCache = record c1 { has_segment = dpa.connects target } in
    let c3 : MrCache = record c2 { cache_len = dpa.segment_size target } in
    let c4 : MrCache = record c3 { has_base = dpa.maps target; has_map = dpa.maps target } in
    if not dpa.opens
    then (false, c1)
    else if not (dpa.connects target)
    then (false, c2)
    else if not (dpa.maps target)
    then (false, c4)
    else if not (dpa.sequences target)
    then (false, c4)
    else (true, c4)

abbrev pub addr_eq : Addr → Addr → Bool
addr_eq a b = (a.node_id == b.node_id) && (a.connect_id == b.connect_id)

unfoldable pub cache_connect : Dpalib → Addr → MrCache → Bool × MrCache
unfolding cache_disconnect
cache_connect dpa target c =
    let c0 = if c.has_segment then cache_disconnect c else c in
    let (done, c1) = connect_steps dpa target c0 in
    if addr_eq target c.target && c.has_base
    then (true, c)
    else if done
    then (true, record c1 { target = target })
    else (false, cache_disconnect c1)

unfoldable pub cache_connect_interrupt : Dpalib → ℕ → MrCache → Bool × MrCache
unfolding cache_disconnect_interrupt
cache_connect_interrupt dpa id c = elim c.interrupt [
  | none ↦ connect c
  | some old ↦ if old.1 == id then (true, c) else connect (cache_disconnect_interrupt c)
]
  where
    connect : MrCache → Bool × MrCache
    connect c1 =
        if dpa.interrupts id
        then (true, record c1 { interrupt = some (c1.target.node_id, id) })
        else (false, c1)

-- A `dpa_intid_t` has 32 bits.
unfoldable pub signal_interrupt : Dpalib → ℕ → MrCache → MrCache
unfolding cache_connect_interrupt
signal_interrupt dpa comp_data c =
    let id = comp_data % 2 ^ 32 in
    let (done, c1) = cache_connect_interrupt dpa id c in
    if id == comp_data then if done then trigger c1.interrupt c1 else c1 else c
  where
    trigger : Option (ℕ × ℕ) → MrCache → MrCache
    trigger none c1 = c1
    trigger (some i) c1 = record c1 { triggered = c1.triggered ++ (i ∷ []) }
