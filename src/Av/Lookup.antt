-- ===== src/Av/Lookup.antt =====
-- Looking up the entries of an address vector that memory holds.
use libfabric_provider_dpa.Prelude.{
  ℕ, suc, ◌+◌, ◌*◌, ◌≤◌, ◌≡◌, refl, ap₂, inl, inr, List, [], ◌∷◌, ◌++◌, map, sym, subst, ◌∙◌,
  Option, some, arith, length, length-append, Bool-cases,
}
use mathlib.Core.List.{append_assoc}
use libfabric_provider_dpa.Fabric.{Ret, ok}
use libfabric_provider_dpa.Av.{Addr, Av, addr_size, get_fi_addr, fi_addrs, entry_or, dpa_av_lookup}

-- The memory `mem` has the addresses from `p` on, one after another.
abbrev pub HasAddrs : (ℕ → Addr) → ℕ → List Addr → Type 0
HasAddrs mem p [] = Unit {0}
HasAddrs mem p (a ∷ addrs) = (mem p ≡ a) × HasAddrs mem (p + addr_size) addrs

abbrev pub lookup_in : (ℕ → Addr) → Av → ℕ → Ret × Option Addr
lookup_in mem av fi_addr = dpa_av_lookup mem fi_addr av

abbrev pub found : Addr → Ret × Option Addr
found a = (ok 0, some a)

entry_or-append :
    (old : List Addr) (a : Addr) (addrs : List Addr) (d : Addr)
    → entry_or (old ++ (a ∷ addrs)) (length old) d ≡ a
entry_or-append [] a addrs d = refl
entry_or-append (x ∷ old) a addrs d = entry_or-append old a addrs d

-- One lookup, of the entry behind `old`.
lookup_one :
    (mem : ℕ → Addr) (av : Av) (old : List Addr) (a : Addr) (addrs : List Addr)
    → av.entries ≡ old ++ (a ∷ addrs)
    → length old ≤ av.last
    → mem (av.block.address + length old * addr_size) ≡ a
    → dpa_av_lookup mem (get_fi_addr av (length old)) av ≡ (ok 0, some a)
unfolding dpa_av_lookup get_fi_addr
lookup_one mem av old a addrs e le here = elim (Bool-cases av.is_table) [
  | inl t ↦
      rw (t, e, entry_or-append old a addrs (mem (av.block.address + length old * addr_size)))
        (ground (arith, le))
  | inr f ↦ rw (f, here) refl
]

pub lookup_from :
    (mem : ℕ → Addr) (av : Av) (old addrs : List Addr)
    → av.entries ≡ old ++ addrs
    → length old + length addrs ≤ av.last
    → HasAddrs mem (av.block.address + length old * addr_size) addrs
    → map (lookup_in mem av) (fi_addrs av (length old) addrs) ≡ map found addrs
lookup_from mem av old [] e le holds = refl
lookup_from mem av old (a ∷ addrs) e le holds =
    ap₂ (λ x xs. x ∷ xs) (lookup_one mem av old a addrs e (omega (arith, le)) holds.0)
      (subst (λ k. map (lookup_in mem av) (fi_addrs av k addrs) ≡ map found addrs) more
        (lookup_from mem av (old ++ (a ∷ [])) addrs (e ∙ sym (append_assoc old (a ∷ []) addrs))
          (omega (arith, le, more))
          (subst (λ k. HasAddrs mem (av.block.address + k * addr_size) addrs) (sym more)
            (subst (λ k. HasAddrs mem k addrs) (omega arith) holds.1))))
  where
    more : length (old ++ (a ∷ [])) ≡ suc (length old)
    more = omega (arith, length-append old (a ∷ []))
