-- ===== src/Rma/Cache.antt =====
-- The segment that an endpoint keeps mapped, and the interrupt that it keeps connected.
use libfabric_provider_dpa.Prelude.{
  ℕ, ◌%◌, ◌^◌, ◌<◌, ◌≡◌, ◌⊎◌, ◌∙◌, refl, sym, ap, inl, inr, true, false, ◌&&◌, [], ◌∷◌, ◌++◌, some,
  arith, ==_refl, Bool-cases,
}
use libfabric_provider_dpa.Av.{Addr}
use libfabric_provider_dpa.RemoteCache.{
  Dpalib, MrCache, no_addr, addr_eq, cache_connect, cache_disconnect, signal_interrupt,
  cache_connect_interrupt,
}

-- A cache that is empty, or has the segment of its target mapped whole.
abbrev pub IsCache : Dpalib → MrCache → Type 0
IsCache dpa c =
    (c.has_base ≡ false)
    ⊎ (c.has_segment ≡ true) × (c.has_base ≡ true) × (c.cache_len ≡ dpa.segment_size c.target)

hit :
    (target : Addr) (c : MrCache)
    → (addr_eq target c.target && c.has_base) ≡ true
    → (target ≡ c.target) × (c.has_base ≡ true)
hit target c t = ground arith

-- `cache_connect` on a cache that is empty or has its target mapped whole: either the target's
-- segment is mapped whole, or the call fails and nothing is mapped.
cache_connect_lem :
    (dpa : Dpalib) (target : Addr) (c : MrCache)
    → IsCache dpa c
    → let (done, c') = cache_connect dpa target c in
      (done ≡ true)
        × (c'.target ≡ target)
        × (c'.has_segment ≡ true)
        × (c'.has_base ≡ true)
        × (c'.cache_len ≡ dpa.segment_size target)
      ⊎ (done ≡ false) × (c'.target ≡ no_addr) × (c'.has_segment ≡ false) × (c'.has_base ≡ false)
unfolding cache_connect cache_disconnect
cache_connect_lem dpa target c ok = elim (Bool-cases (addr_eq target c.target && c.has_base)) [
  | inl t ↦
      let h = hit target c t in
      elim ok [
        | inl off ↦ absurd (ground arith)
        | inr (segment, base, whole) ↦
            rw t (inl (refl, sym h.0, segment, base, whole ∙ ap dpa.segment_size (sym h.0)))
      ]
  | inr f ↦ rw f (ground arith)
]

-- `cache_connect` leaves the connected interrupt alone, also when the segment changes.
connect-interrupt :
    (dpa : Dpalib) (target : Addr) (c : MrCache)
    → ((cache_connect dpa target c).1.interrupt ≡ c.interrupt)
      × ((cache_connect dpa target c).1.triggered ≡ c.triggered)
unfolding cache_connect cache_disconnect
connect-interrupt dpa target c = ground arith

signal-connected :
    (dpa : Dpalib) (id node : ℕ) (c : MrCache)
    → id < 2 ^ 32
    → c.interrupt ≡ some (node, id)
    → (signal_interrupt dpa id c).triggered ≡ c.triggered ++ ((node, id) ∷ [])
unfolding signal_interrupt cache_connect_interrupt
signal-connected dpa id node c small i = rw (low, i, ==_refl id) refl
  where
    low : id % 2 ^ 32 ≡ id
    low = omega arith

-- A cache whose interrupt is connected to `node` keeps it when it moves on to a segment of any
-- other node: a signal with the same id then triggers the interrupt of `node`.
pub signal_interrupt-stale :
    (dpa : Dpalib) (id node : ℕ) (target : Addr) (c : MrCache)
    → id < 2 ^ 32
    → c.interrupt ≡ some (node, id)
    → (signal_interrupt dpa id (cache_connect dpa target c).1).triggered
      ≡ c.triggered ++ ((node, id) ∷ [])
signal_interrupt-stale dpa id node target c small i =
    let k = connect-interrupt dpa target c in
    signal-connected dpa id node (cache_connect dpa target c).1 small (k.0 ∙ i)
    ∙ ap (λ ts. ts ++ ((node, id) ∷ [])) k.1
