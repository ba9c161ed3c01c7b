-- ===== src/Prelude/Bytes.antt =====
-- Byte-addressed memory: `memcpy` in both directions, `memset` to zero, and the little-endian
-- words that a `uint64_t` or `size_t` stands for.
use Prim.Native.Nat.{ℕ, zero, suc, ◌+◌, ◌-◌, ◌*◌, ◌/◌, ◌%◌, ◌^◌, ◌<◌, ◌≤◌}
use mathlib.Core.Logic.{◌⊎◌}
use mathlib.Core.Path.{◌≡◌, refl, ap}
use mathlib.Core.Bool.{◌&&◌}
use mathlib.Core.List.{List, [], ◌∷◌}
use native.Mathlib.Omega.{arith}
use native.Mathlib.Nat.{pow-suc}
use libfabric_provider_dpa.Prelude.Tests.{ltb, leb, if◌then◌else◌}
use libfabric_provider_dpa.Prelude.Lists.{length, get_or}

abbrev pub Mem : Type 0
Mem = ℕ → ℕ

-- memcpy to memory: the list is written from address `a` on.
abbrev pub store_bytes : Mem → ℕ → List ℕ → Mem
store_bytes mem a bs p = if leb a p && ltb (p - a) (length bs) then get_or bs (p - a) 0 else mem p

-- memcpy from memory: the `n` bytes from address `a` on.
abbrev pub load_bytes : Mem → ℕ → ℕ → List ℕ
load_bytes mem a zero = []
load_bytes mem a (suc n) = mem a ∷ load_bytes mem (a + 1) n

-- memset(a, 0, n)
abbrev pub zero_bytes : Mem → ℕ → ℕ → Mem
zero_bytes mem a n p = if leb a p && ltb (p - a) n then 0 else mem p

-- The `k` low bytes of a number, least significant first.
unfoldable pub le_bytes : ℕ → ℕ → List ℕ
le_bytes zero v = []
le_bytes (suc k) v = (v % 256) ∷ le_bytes k (v / 256)

-- The number that `k` bytes from address `a` on stand for.
unfoldable pub load_word : ℕ → Mem → ℕ → ℕ
load_word zero mem a = 0
load_word (suc k) mem a = mem a + 256 * load_word k mem (a + 1)

unfoldable pub load64 : Mem → ℕ → ℕ
unfolding load_word
load64 mem a = load_word 8 mem a

unfoldable pub store64 : Mem → ℕ → ℕ → Mem
store64 mem a v = store_bytes mem a (le_bytes 8 v)

pub length-le_bytes : (k v : ℕ) → length (le_bytes k v) ≡ k
unfolding le_bytes
length-le_bytes zero v = refl
length-le_bytes (suc k) v = ap suc (length-le_bytes k (v / 256))

pub length-load_bytes : (mem : Mem) (a n : ℕ) → length (load_bytes mem a n) ≡ n
length-load_bytes mem a zero = refl
length-load_bytes mem a (suc n) = ap suc (length-load_bytes mem (a + 1) n)

pub get_or-load_bytes :
    (mem : Mem) (a n i : ℕ) → i < n → get_or (load_bytes mem a n) i 0 ≡ mem (a + i)
get_or-load_bytes mem a zero i h = absurd (omega arith)
get_or-load_bytes mem a (suc n) zero h = ap mem (omega arith)
get_or-load_bytes mem a (suc n) (suc i) h =
    rw (get_or-load_bytes mem (a + 1) n i (omega arith)) (ap mem (omega arith))

-- Memory that holds the bytes of a number reads back as that number.
pub load_word-le_bytes :
    (k v : ℕ) (mem : Mem) (a : ℕ)
    → v < 256 ^ k
    → ((j : ℕ) → j < k → mem (a + j) ≡ get_or (le_bytes k v) j 0)
    → load_word k mem a ≡ v
unfolding load_word le_bytes
load_word-le_bytes zero v mem a h same = omega arith
load_word-le_bytes (suc k) v mem a h same = omega (
  arith,
  load_word-le_bytes k (v / 256) mem (a + 1) small
      (λ j p. rw (← same (suc j) (omega arith)) (ap mem (omega arith))),
  first,
)
  where
    small : v / 256 < 256 ^ k
    small = let e : v < 256 ^ k * 256 = rw pow-suc at h in omega arith

    first : mem a ≡ v % 256
    first = rw (← same 0 (omega arith)) (ap mem (omega arith))

pub store64_at :
    (mem : Mem) (a v j : ℕ) → j < 8 → store64 mem a v (a + j) ≡ get_or (le_bytes 8 v) j 0
unfolding store64
store64_at mem a v j h =
    ground (arith, length-le_bytes 8 v, ap (λ i. get_or (le_bytes 8 v) i 0) shift)
  where
    shift : a + j - a ≡ j
    shift = omega arith

pub store64_outside : (mem : Mem) (a v p : ℕ) → (p < a) ⊎ (a + 8 ≤ p) → store64 mem a v p ≡ mem p
unfolding store64
store64_outside mem a v p h = ground (arith, length-le_bytes 8 v)

pub load64-le_bytes :
    (v : ℕ) (mem : Mem) (a : ℕ)
    → v < 2 ^ 64
    → ((j : ℕ) → j < 8 → mem (a + j) ≡ get_or (le_bytes 8 v) j 0)
    → load64 mem a ≡ v
unfolding load64
load64-le_bytes v mem a h same = load_word-le_bytes 8 v mem a h same

pub le_bytes-zero : (k j : ℕ) → get_or (le_bytes k 0) j 0 ≡ 0
unfolding le_bytes
le_bytes-zero zero j = refl
le_bytes-zero (suc k) zero = refl
le_bytes-zero (suc k) (suc j) = le_bytes-zero k j
