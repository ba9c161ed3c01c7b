-- ===== src/Ring/Read.antt =====
-- What `read_msg` takes from the buffer, whatever the size of the receive buffer: the first bytes
-- of the oldest message, and zeros over the bytes that it has read.
use libfabric_provider_dpa.Prelude.{
  ℕ, ◌+◌, ◌-◌, ◌%◌, ◌<◌, ◌≤◌, ◌≡◌, ◌∙◌, inl, inr, List, ◌∷◌, ◌++◌, arith, ltb, if◌then◌else◌,
  ltb_cases, length, get_or, take, min, length-append, length-take, get_or-take, get_or-append_left,
  get_or-append_right, ext_get_or, ap, sym, subst, sub64,
}
use libfabric_provider_dpa.Prelude.Bytes.{
  Mem, load_bytes, zero_bytes, load64, length-load_bytes, get_or-load_bytes, load64-le_bytes,
}
use libfabric_provider_dpa.Ring.{Link, read_msg}
use libfabric_provider_dpa.Ring.View.{
  frame, image, wrap, Holds, length-frame, get_or-frame_head, get_or-frame_data,
}
use libfabric_provider_dpa.Ring.Write.{slot_bounds, wrap_low}

-- The two memcpy and the two memset, with the slot at `b`, `top` bytes of data before the
-- buffer's end, and `rs` bytes to read.
module _ (mem : Mem) (b top rs : ℕ) where
  abbrev split_bytes : List ℕ
  split_bytes =
      let c = min rs top in
      if ltb c rs
      then load_bytes mem (b + 8) c ++ load_bytes (zero_bytes mem b (8 + c)) 0 (rs - c)
      else load_bytes mem (b + 8) c

  abbrev split_clean : Mem
  split_clean =
      let c = min rs top in
      if ltb c rs
      then zero_bytes (zero_bytes mem b (8 + c)) 0 (rs - c)
      else zero_bytes mem b (8 + c)

  length-split_bytes : length split_bytes ≡ rs
  length-split_bytes = ground (
    arith,
    length-append (load_bytes mem (b + 8) (min rs top))
        (load_bytes (zero_bytes mem b (8 + min rs top)) 0 (rs - min rs top)),
    length-load_bytes mem (b + 8) (min rs top),
    length-load_bytes (zero_bytes mem b (8 + min rs top)) 0 (rs - min rs top),
  )

  get_or-split_bytes :
      (k : ℕ)
      → k < rs
      → rs ≤ b + top
      → get_or split_bytes k 0 ≡ mem (wrap (b + 8 + top) (b + (8 + k)))
  get_or-split_bytes k h fits = elim (ltb_cases k top) [
    | inl (t, lt) ↦ ground (
      arith,
      get_or-append_left (load_bytes mem (b + 8) (min rs top))
          (load_bytes (zero_bytes mem b (8 + min rs top)) 0 (rs - min rs top)) k 0,
      length-load_bytes mem (b + 8) (min rs top),
      get_or-load_bytes mem (b + 8) (min rs top) k,
      address (b + 8 + k) (b + (8 + k)),
    )
    | inr (f, le) ↦ ground (
      arith,
      get_or-append_right (load_bytes mem (b + 8) (min rs top))
          (load_bytes (zero_bytes mem b (8 + min rs top)) 0 (rs - min rs top)) k (k - top) 0,
      length-load_bytes mem (b + 8) (min rs top),
      get_or-load_bytes (zero_bytes mem b (8 + min rs top)) 0 (rs - min rs top) (k - top),
      address (0 + (k - top)) (b + (8 + k) - (b + 8 + top)),
    )
  ]
    where
      address : (p p' : ℕ) → p ≡ p' → mem p ≡ mem p'
      address p p' e = ap mem e

  split_clean_lem :
      (j : ℕ)
      → rs ≤ b + top
      → j < b + 8 + top
      → split_clean (wrap (b + 8 + top) (b + j))
        ≡ (if ltb j (8 + rs) then 0 else mem (wrap (b + 8 + top) (b + j)))
  split_clean_lem j fits h = ground arith

module _ (l : Link) (m : List ℕ) (q : List (List ℕ)) (recv_size : ℕ) (holds : Holds l (m ∷ q)) where
  pub message_fits : 8 + length m ≤ l.send.size
  unfolding image
  message_fits = omega (arith, holds.range, length-append (frame m) (image q), length-frame m)

  slot : (l.recv.read % l.send.size + 8 ≤ l.send.size) × ((l.recv.read % l.send.size) % 8 ≡ 0)
  slot = slot_bounds l.recv.read holds.size holds.range.read_aligned holds.range.read_lt

  pub frame_view :
      (i : ℕ)
      → i < 8 + length m
      → l.mem (wrap l.send.size (l.recv.read % l.send.size + i)) ≡ get_or (frame m) i 0
  unfolding image
  frame_view i h =
      holds.view i (omega (arith, message_fits))
      ∙ get_or-append_left (frame m) (image q) i 0 (omega (arith, length-frame m))

  pub msg_size_lem : load64 l.mem (l.recv.read % l.send.size) ≡ length m
  msg_size_lem = load64-le_bytes (length m) l.mem _ (omega (arith, message_fits, holds.size)) λ j h.
      ap l.mem (sym (wrap_low _ l.send.size (omega (arith, slot))))
      ∙ frame_view j (omega arith)
      ∙ get_or-frame_head m j h

  pub same_buffer : sub64 l.recv.buffer_size 8 ≡ l.send.size
  same_buffer = omega (arith, holds.same_size, holds.size)

  room :
      sub64 l.send.size (l.recv.read % l.send.size + 8)
      ≡ l.send.size - (l.recv.read % l.send.size + 8)
  room = omega (arith, slot, holds.size)

  abbrev read_ptr : ℕ
  read_ptr = l.recv.read % l.send.size

  abbrev buftop : ℕ
  buftop = l.send.size - (l.recv.read % l.send.size + 8)

  read_msg_bytes :
      (read_msg recv_size l).0 ≡ split_bytes l.mem read_ptr buftop (min recv_size (length m))
  unfolding read_msg
  read_msg_bytes = rw (same_buffer, room, msg_size_lem)

  read_msg_mem :
      (read_msg recv_size l).1.mem ≡ split_clean l.mem read_ptr buftop (min recv_size (length m))
  unfolding read_msg
  read_msg_mem = rw (same_buffer, room, msg_size_lem)

  whole : read_ptr + 8 + buftop ≡ l.send.size
  whole = omega (arith, slot)

  delivered :
      (k : ℕ)
      → k < min recv_size (length m)
      → get_or (split_bytes l.mem read_ptr buftop (min recv_size (length m))) k 0
        ≡ get_or (take recv_size m) k 0
  delivered k h =
      get_or-split_bytes l.mem read_ptr buftop (min recv_size (length m)) k h
        (omega (arith, slot, message_fits))
      ∙ ap (λ n. l.mem (wrap n (read_ptr + (8 + k)))) whole
      ∙ frame_view (8 + k) (omega arith)
      ∙ get_or-frame_data m k (omega arith)
      ∙ sym (get_or-take recv_size m k 0 (omega arith))

  -- The user's buffer receives the message, cut at the size of the buffer.
  pub read_msg-delivers : (read_msg recv_size l).0 ≡ take recv_size m
  read_msg-delivers = rw read_msg_bytes (
      ext_get_or _ (take recv_size m) 0
        (omega (
          arith,
          length-split_bytes l.mem read_ptr buftop (min recv_size (length m)),
          length-take recv_size m,
        ))
        λ k h.
          delivered k
            (omega (arith, length-split_bytes l.mem read_ptr buftop (min recv_size (length m)), h)))

  -- Counted from the old read offset, the size word and the bytes read are zero; the rest is kept.
  pub read_msg-cleans :
      (j : ℕ)
      → j < l.send.size
      → let p : ℕ = wrap l.send.size (l.recv.read % l.send.size + j) in
        (read_msg recv_size l).1.mem p
        ≡ (if ltb j (8 + min recv_size (length m)) then 0 else l.mem p)
  read_msg-cleans j h = rw read_msg_mem (
      subst
        (λ n.
          let p : ℕ = wrap n (read_ptr + j) in
          split_clean l.mem read_ptr buftop (min recv_size (length m)) p
          ≡ (if ltb j (8 + min recv_size (length m)) then 0 else l.mem p))
        whole
        (split_clean_lem l.mem read_ptr buftop (min recv_size (length m)) j
          (omega (arith, slot, message_fits)) (omega (arith, whole))))
