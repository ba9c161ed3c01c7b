-- ===== src/Ring/Offset.antt =====
-- The arithmetic of the offsets: what `new_offset` and `remote_space` compute on a buffer whose
-- size is a positive multiple of the word.
use libfabric_provider_dpa.Prelude.{
  ℕ, ◌+◌, ◌-◌, ◌*◌, ◌/◌, ◌%◌, ◌^◌, ◌≤◌, ◌<◌, ◌≡◌, ◌⊎◌, inl, inr, ◌∙◌, arith,
}
use libfabric_provider_dpa.Ring.{Link, new_offset, remote_space}
use native.Mathlib.Decide.{dec_lt}
use native.Mathlib.Nat.{mod-eq_of_lt, mod-eq-sub-mod}

-- The bytes that a message of `n` bytes takes: its size word, and its data up to the next word.
abbrev pub frame_size : ℕ → ℕ
frame_size n = (n + 15) / 8 * 8

-- A buffer size that the arithmetic is meant for.
pub record IsSize (n : ℕ) : Type 0 where
  pub aligned : n % 8 ≡ 0
  pub positive : 0 < n
  pub bounded : n < 2 ^ 61

-- Offsets lie below twice the buffer size, on a word; `used` bytes lie between read and write.
pub record IsRange (n read write used : ℕ) : Type 0 where
  pub read_lt : read < 2 * n
  pub write_lt : write < 2 * n
  pub read_aligned : read % 8 ≡ 0
  pub write_aligned : write % 8 ≡ 0
  pub used_le : used ≤ n
  pub used_aligned : used % 8 ≡ 0
  pub distance : (write ≡ read + used) ⊎ (write + 2 * n ≡ read + used)

-- Reduction of a number below twice the modulus.
pub mod_cases : (a n : ℕ) → a < 2 * n → ((a < n) × (a % n ≡ a)) ⊎ ((n ≤ a) × (a % n ≡ a - n))
mod_cases a n h = elim (dec_lt a n) [
  | yes p ↦ inl (p, mod-eq_of_lt p)
  | no p ↦ inr (
    omega arith,
    mod-eq-sub-mod {n = a} {m = n} (omega arith) ∙ mod-eq_of_lt {n = a - n} {m = n} (omega arith),
  )
]

pub new_offset_lem :
    {n : ℕ} (prev msg_size : ℕ)
    → IsSize n
    → prev < 2 * n
    → prev % 8 ≡ 0
    → frame_size msg_size ≤ n
    → (new_offset prev msg_size n ≡ prev + frame_size msg_size)
        × (prev + frame_size msg_size < 2 * n)
      ⊎ (new_offset prev msg_size n + 2 * n ≡ prev + frame_size msg_size)
        × (2 * n ≤ prev + frame_size msg_size)
unfolding new_offset
new_offset_lem {n} prev msg_size s lt al fits =
    rw aligned
      (rw doubled (grind (arith, mod_cases (prev + frame_size msg_size) (2 * n) (omega arith))))
  where
    doubled : (2 * n) % 2 ^ 64 ≡ 2 * n
    doubled = omega arith

    aligned : (prev + msg_size + 8 + 7) % 2 ^ 64 / 8 * 8 ≡ prev + frame_size msg_size
    aligned = omega arith

-- With `used` bytes between the reported read offset and the write offset, the free space that the
-- sender computes and `used` add up to the size of the buffer, whichever offset has wrapped.
pub remote_space_lem :
    (l : Link) (used : ℕ)
    → IsSize l.send.size
    → IsRange l.send.size l.status l.send.write used
    → remote_space l + used ≡ l.send.size
unfolding remote_space
remote_space_lem l used s r = ground arith
