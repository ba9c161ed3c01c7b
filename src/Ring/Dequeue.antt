-- ===== src/Ring/Dequeue.antt =====
-- `read_msg` with a receive buffer that is large enough takes the oldest message off the queue;
-- with one that is too small it leaves unread bytes behind in the free part of the buffer.
use libfabric_provider_dpa.Prelude.{
  ℕ, ◌+◌, ◌-◌, ◌%◌, ◌<◌, ◌≤◌, ◌≡◌, ◌≢◌, ◌∙◌, inl, inr, List, ◌∷◌, arith, ltb_cases, le→ltb, length,
  get_or, min, take, length-append, get_or_beyond, get_or-append_left, get_or-append_right, ap, sym,
  subst, refl,
}
use libfabric_provider_dpa.Ring.{Link, read_msg}
use libfabric_provider_dpa.Ring.Offset.{frame_size, IsRange, new_offset_lem}
use libfabric_provider_dpa.Ring.View.{
  frame, image, wrap, Holds, length-frame, get_or-frame_padding, get_or-frame_data,
}
use libfabric_provider_dpa.Ring.Enqueue.{rebase_used, rebase_free}
use libfabric_provider_dpa.Ring.Read.{
  message_fits, frame_view, msg_size_lem, same_buffer, read_msg-delivers, read_msg-cleans,
}

module _ (l : Link) (m : List ℕ) (q : List (List ℕ)) (recv_size : ℕ) (holds : Holds l (m ∷ q)) where
  used_split : length (image (m ∷ q)) ≡ frame_size (length m) + length (image q)
  unfolding image
  used_split = omega (arith, length-append (frame m) (image q), length-frame m)

  -- The read offset moves over the whole frame, also if the message was cut.
  pub consumed :
      IsRange l.send.size l.recv.read (read_msg recv_size l).1.recv.read (frame_size (length m))
  unfolding read_msg
  consumed =
      rw (same_buffer l m q recv_size holds, msg_size_lem l m q recv_size holds)
        (grind (
          arith,
          new_offset_lem l.recv.read (length m) holds.size holds.range.read_lt
              holds.range.read_aligned (omega (arith, used_split, holds.range)),
          used_split,
          holds.range,
        ))

  remaining : IsRange l.send.size (read_msg recv_size l).1.recv.read l.send.write (length (image q))
  remaining = ground (arith, consumed, used_split, holds.range)

module _ (l : Link) (m : List ℕ) (q : List (List ℕ)) (recv_size : ℕ) (holds : Holds l (m ∷ q))
    (large : length m ≤ recv_size) where
  taken_low :
      (i : ℕ)
      → frame_size (length m) + i < l.send.size
      → (read_msg recv_size l).1.mem
          (wrap l.send.size (l.recv.read % l.send.size + (frame_size (length m) + i)))
        ≡ get_or (image q) i 0
  unfolding image
  taken_low i h =
      read_msg-cleans l m q recv_size holds (frame_size (length m) + i) h
      ∙ rw (le→ltb (frame_size (length m) + i) (8 + min recv_size (length m)) (omega arith))
          (holds.view (frame_size (length m) + i) h)
      ∙ get_or-append_right (frame m) (image q) (frame_size (length m) + i) i 0
          (omega (arith, length-frame m))

  taken_high :
      (j : ℕ)
      → j < frame_size (length m)
      → (read_msg recv_size l).1.mem (wrap l.send.size (l.recv.read % l.send.size + j)) ≡ 0
  unfolding image
  taken_high j h =
      read_msg-cleans l m q recv_size holds j below
      ∙ elim (ltb_cases j (8 + min recv_size (length m))) [
        | inl (t, lt) ↦ rw t
        | inr (f, le) ↦ rw f (
            holds.view j below
            ∙ get_or-append_left (frame m) (image q) j 0 (omega (arith, length-frame m))
            ∙ get_or-frame_padding m j (omega arith))
      ]
    where
      below : j < l.send.size
      below = omega (arith, used_split l m q recv_size holds, holds.range)

  taken_view :
      (i : ℕ)
      → i < l.send.size
      → (read_msg recv_size l).1.mem
          (wrap l.send.size ((read_msg recv_size l).1.recv.read % l.send.size + i))
        ≡ get_or (image q) i 0
  taken_view i h = elim (ltb_cases (frame_size (length m) + i) l.send.size) [
    | inl (t, lt) ↦
        ap (read_msg recv_size l).1.mem (sym (rebase_free i (consumed l m q recv_size holds) lt))
        ∙ taken_low i lt
    | inr (f, le) ↦
        subst
          (λ k.
            (read_msg recv_size l).1.mem
              (wrap l.send.size ((read_msg recv_size l).1.recv.read % l.send.size + k))
            ≡ 0)
          (omega arith)
          (sym (
              ap (read_msg recv_size l).1.mem (
                rebase_used (frame_size (length m) + i - l.send.size)
                  (consumed l m q recv_size holds) (omega arith)))
            ∙ taken_high (frame_size (length m) + i - l.send.size) (omega arith))
        ∙ sym (
            get_or_beyond (image q) i 0
              (omega (arith, used_split l m q recv_size holds, holds.range)))
  ]

  -- On a buffer that holds the message `m` and then the queue `q`, reading into a buffer with room
  -- for `m` leaves a buffer that holds `q`.
  pub read_msg-Holds : Holds (read_msg recv_size l).1 q
  unfolding read_msg
  read_msg-Holds = record {
    size = holds.size;
    same_size = holds.same_size;
    reported = refl;
    range = remaining l m q recv_size holds;
    view = taken_view;
  }

-- A receive buffer that is smaller than the message leaves the bytes it has no room for in memory.
pub residue :
    (l : Link) (m : List ℕ) (q : List (List ℕ)) (recv_size k : ℕ)
    → Holds l (m ∷ q)
    → recv_size ≤ k
    → k < length m
    → (read_msg recv_size l).1.mem (wrap l.send.size (l.recv.read % l.send.size + (8 + k)))
      ≡ get_or m k 0
residue l m q recv_size k holds small h =
    read_msg-cleans l m q recv_size holds (8 + k)
      (omega (arith, message_fits l m q recv_size holds))
    ∙ rw (le→ltb (8 + k) (8 + min recv_size (length m)) (omega arith))
        (frame_view l m q recv_size holds (8 + k) (omega arith))
    ∙ get_or-frame_data m k h

-- What a buffer that holds a queue has in its free part.
free_zero :
    (l : Link) (q : List (List ℕ)) (recv_size i : ℕ)
    → Holds (read_msg recv_size l).1 q
    → length (image q) ≤ i
    → i < l.send.size
    → (read_msg recv_size l).1.mem
        (wrap l.send.size ((read_msg recv_size l).1.recv.read % l.send.size + i))
      ≡ 0
unfolding read_msg
free_zero l q recv_size i after beyond h = after.view i h ∙ get_or_beyond (image q) i 0 beyond

-- The offsets say how many bytes are in use.
used_unique : (n r w u v : ℕ) → IsRange n r w u → IsRange n r w v → u ≡ v
used_unique n r w u v a b = ground (arith, a, b)

same_used :
    (l : Link) (m : List ℕ) (q q' : List (List ℕ)) (recv_size : ℕ)
    → Holds l (m ∷ q)
    → Holds (read_msg recv_size l).1 q'
    → length (image q') ≡ length (image q)
unfolding read_msg
same_used l m q q' recv_size holds after =
    used_unique l.send.size (read_msg recv_size l).1.recv.read l.send.write _ _ after.range
      (remaining l m q recv_size holds)

-- Reading the message `m`, with the queue `q` behind it, into a buffer that is too small for it
-- returns the bytes that fit, and moves the read offset over the whole message, to where `q`
-- begins; the bytes of `m` that were cut off stay where they were in the memory. If one of them is
-- not 0, the message buffer then holds no queue of messages at all, whatever the messages.
pub truncation-not-Holds :
    (l : Link) (m : List ℕ) (q : List (List ℕ)) (recv_size k : ℕ)
    → Holds l (m ∷ q)
    → recv_size ≤ k
    → k < length m
    → get_or m k 0 ≢ 0
    → let after = (read_msg recv_size l).1 in
      ((read_msg recv_size l).0 ≡ take recv_size m)
      × IsRange l.send.size after.recv.read l.send.write (length (image q))
      × ((i : ℕ)
          → recv_size ≤ i
          → i < length m
          → after.mem (wrap l.send.size (l.recv.read % l.send.size + (8 + i))) ≡ get_or m i 0)
      × ((q' : List (List ℕ)) → ¬ Holds after q')
truncation-not-Holds l m q recv_size k holds small h dirty = (
  read_msg-delivers l m q recv_size holds,
  remaining l m q recv_size holds,
  λ i s lt. residue l m q recv_size i holds s lt,
  λ q' after. dirty (
      sym (residue l m q recv_size k holds small h)
      ∙ ap (read_msg recv_size l).1.mem
          (rebase_used (8 + k) (consumed l m q recv_size holds) (omega arith))
      ∙ free_zero l q' recv_size (l.send.size + (8 + k) - frame_size (length m)) after
          (omega (
            arith,
            same_used l m q q' recv_size holds after,
            used_split l m q recv_size holds,
            holds.range,
          ))
          (omega (arith, used_split l m q recv_size holds, holds.range))),
)
