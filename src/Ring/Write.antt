-- ===== src/Ring/Write.antt =====
-- What `write_msg` leaves in the buffer: behind the write offset the size word and the data, and
-- every other byte as it was.
use libfabric_provider_dpa.Prelude.{
  ℕ, ◌+◌, ◌-◌, ◌*◌, ◌%◌, ◌<◌, ◌≤◌, ◌≡◌, List, arith, ltb, if◌then◌else◌, length, get_or, take, drop,
  min, length-take, length-drop, get_or-take, get_or-drop, ap, ◌⊎◌, inl, inr, ltb_cases, sub64,
  subst, ◌∙◌,
}
use libfabric_provider_dpa.Prelude.Bytes.{Mem, le_bytes, store_bytes, store64_at, store64_outside}
use libfabric_provider_dpa.Ring.{SendInfo, Buffer, Link, write_payload, write_msg}
use libfabric_provider_dpa.Ring.Offset.{IsSize, mod_cases}
use libfabric_provider_dpa.Ring.View.{wrap}

-- The address of the write offset is a word of the buffer.
pub slot_bounds :
    {n : ℕ} (w : ℕ) → IsSize n → w % 8 ≡ 0 → w < 2 * n → (w % n + 8 ≤ n) × ((w % n) % 8 ≡ 0)
slot_bounds {n} w s al lt = grind (arith, mod_cases w n lt)

pub wrap_low : (p n : ℕ) → p < n → wrap n p ≡ p
wrap_low p n h = ground arith

-- The two memcpy as one function of the address, with the buffer's end at `top` bytes from `a`.
module _ (mem : Mem) (a top : ℕ) (buf : List ℕ) where
  abbrev split_copy : Mem
  split_copy =
      let first = store_bytes mem a (take (min (length buf) top) buf) in
      if ltb top (length buf)
      then store_bytes first 0 (take (length buf - top) (drop top buf))
      else first

  split_copy_top :
      (k : ℕ)
      → k < length buf
      → k < top
      → length buf ≤ a + top
      → split_copy (a + k) ≡ get_or buf k 0
  split_copy_top k h t fits = ground (
    arith,
    length-take (min (length buf) top) buf,
    length-take (length buf - top) (drop top buf),
    length-drop top buf,
    get_or-take (min (length buf) top) buf k 0,
    ap (λ i. get_or (take (min (length buf) top) buf) i 0) shift,
  )
    where
      shift : a + k - a ≡ k
      shift = omega arith

  split_copy_rest : (k p : ℕ) → k < length buf → k ≡ top + p → split_copy p ≡ get_or buf k 0
  split_copy_rest k p h e = ground (
    arith,
    length-take (length buf - top) (drop top buf),
    length-drop top buf,
    get_or-take (length buf - top) (drop top buf) p 0,
    get_or-drop top buf p k 0,
    ap (λ i. get_or (take (length buf - top) (drop top buf)) i 0) shift,
  )
    where
      shift : p - 0 ≡ p
      shift = omega arith

  split_copy_outside :
      (p : ℕ)
      → (p < a) ⊎ (a + length buf ≤ p) ⊎ (a + top ≤ p)
      → length buf ≤ top + p
      → split_copy p ≡ mem p
  split_copy_outside p out rest = ground (
    arith,
    length-take (min (length buf) top) buf,
    length-take (length buf - top) (drop top buf),
    length-drop top buf,
  )

module _ (msg : Buffer) (s : SendInfo) (mem : Mem) (good : IsSize s.size)
    (aligned : s.write % 8 ≡ 0) (below : s.write < 2 * s.size) (len : msg.len ≡ length msg.buf)
    (fits : 8 + length msg.buf ≤ s.size) where
  pub write_payload_lem :
      write_payload s msg mem
      ≡ split_copy mem (s.write % s.size + 8) (s.size - (s.write % s.size + 8)) msg.buf
  unfolding write_payload
  write_payload_lem =
      rw (room, len)
        (elim (ltb_cases (s.size - (s.write % s.size + 8)) (length msg.buf)) [
          | inl (t, lt) ↦ rw t (rw (left lt))
          | inr (f, le) ↦ rw f
        ])
    where
      room : sub64 s.size (s.write % s.size + 8) ≡ s.size - (s.write % s.size + 8)
      room = omega (arith, slot_bounds s.write good aligned below)

      left :
          s.size - (s.write % s.size + 8) < length msg.buf
          → sub64 (length msg.buf) (s.size - (s.write % s.size + 8))
            ≡ length msg.buf - (s.size - (s.write % s.size + 8))
      left lt = omega arith

  pub payload_at :
      (j : ℕ)
      → j < length msg.buf
      → write_payload s msg mem (wrap s.size (s.write % s.size + (8 + j))) ≡ get_or msg.buf j 0
  payload_at j h = rw write_payload_lem (elim (ltb_cases (s.write % s.size + (8 + j)) s.size) [
    | inl (t, lt) ↦ rw t (
        subst (λ p. split_copy mem a top msg.buf p ≡ get_or msg.buf j 0) (omega arith)
          (split_copy_top mem a top msg.buf j h (omega arith)
            (omega (arith, slot_bounds s.write good aligned below))))
    | inr (f, le) ↦ rw f (
        split_copy_rest mem a top msg.buf j _ h
          (omega (arith, slot_bounds s.write good aligned below)))
  ])
    where
      a : ℕ
      a = s.write % s.size + 8

      top : ℕ
      top = s.size - (s.write % s.size + 8)

  pub payload_outside :
      (j : ℕ)
      → (j < 8) ⊎ (8 + length msg.buf ≤ j)
      → j < s.size
      → let p : ℕ = wrap s.size (s.write % s.size + j) in write_payload s msg mem p ≡ mem p
  payload_outside j out lt = rw write_payload_lem (
      split_copy_outside mem (s.write % s.size + 8) (s.size - (s.write % s.size + 8)) msg.buf _
        (ground (arith, slot_bounds s.write good aligned below))
        (ground (arith, slot_bounds s.write good aligned below)))

module _ (msg : Buffer) (l : Link) (good : IsSize l.send.size) (aligned : l.send.write % 8 ≡ 0)
    (below : l.send.write < 2 * l.send.size) (len : msg.len ≡ length msg.buf)
    (fits : 8 + length msg.buf ≤ l.send.size) where
  -- The size word of the new message.
  pub written_head :
      (j : ℕ)
      → j < 8
      → (write_msg msg l).mem (wrap l.send.size (l.send.write % l.send.size + j))
        ≡ get_or (le_bytes 8 msg.len) j 0
  unfolding write_msg
  written_head j h =
      rw
        (wrap_low (l.send.write % l.send.size + j) l.send.size
          (omega (arith, slot_bounds l.send.write good aligned below)))
        (store64_at (write_payload l.send msg l.mem) (l.send.write % l.send.size) msg.len j h)

  pub written_data :
      (j : ℕ)
      → j < length msg.buf
      → (write_msg msg l).mem (wrap l.send.size (l.send.write % l.send.size + (8 + j)))
        ≡ get_or msg.buf j 0
  unfolding write_msg
  written_data j h =
      store64_outside _ (l.send.write % l.send.size) msg.len _
        (ground (arith, slot_bounds l.send.write good aligned below))
      ∙ payload_at msg l.send l.mem good aligned below len fits j h

  pub written_outside :
      (j : ℕ)
      → 8 + length msg.buf ≤ j
      → j < l.send.size
      → let p : ℕ = wrap l.send.size (l.send.write % l.send.size + j) in
        (write_msg msg l).mem p ≡ l.mem p
  unfolding write_msg
  written_outside j h lt =
      store64_outside _ (l.send.write % l.send.size) msg.len _
        (ground (arith, slot_bounds l.send.write good aligned below))
      ∙ payload_outside msg l.send l.mem good aligned below len fits j (inr h) lt
