-- ===== src/Ring/Enqueue.antt =====
-- `write_msg` on a buffer with enough room appends its message to the queue that the buffer holds.
use libfabric_provider_dpa.Prelude.{
  ℕ, ◌+◌, ◌-◌, ◌%◌, ◌<◌, ◌≤◌, ◌≡◌, ◌∙◌, inl, inr, List, [], ◌∷◌, ◌++◌, arith, ltb_cases, length,
  get_or, length-append, get_or_beyond, get_or-append_left, get_or-append_right, ap, sym, subst,
  refl,
}
use libfabric_provider_dpa.Prelude.Bytes.{le_bytes}
use libfabric_provider_dpa.Ring.{Buffer, Link, write_msg}
use libfabric_provider_dpa.Ring.Offset.{frame_size, IsRange, mod_cases, new_offset_lem}
use libfabric_provider_dpa.Ring.View.{
  frame, image, wrap, Holds, length-frame, get_or-frame_head, get_or-frame_data,
  get_or-frame_padding, image-append,
}
use libfabric_provider_dpa.Ring.Write.{written_head, written_data, written_outside}

-- An address behind the read offset, counted from the write offset instead.
pub rebase_used :
    {n r w u : ℕ} (i : ℕ)
    → IsRange n r w u
    → i < u
    → wrap n (r % n + i) ≡ wrap n (w % n + (n + i - u))
rebase_used {n} {r} {w} {u} i range h =
    ground (arith, mod_cases r n range.read_lt, mod_cases w n range.write_lt)

pub rebase_free :
    {n r w u : ℕ} (j : ℕ)
    → IsRange n r w u
    → u + j < n
    → wrap n (r % n + (u + j)) ≡ wrap n (w % n + j)
rebase_free {n} {r} {w} {u} j range h =
    ground (arith, mod_cases r n range.read_lt, mod_cases w n range.write_lt)

module _ (l : Link) (q : List (List ℕ)) (msg : Buffer) (holds : Holds l q)
    (len : msg.len ≡ length msg.buf) (room : 8 + msg.len + length (image q) ≤ l.send.size) where
  appended-IsRange :
      IsRange l.send.size l.recv.read
        (write_msg msg l).send.write
        (length (image q) + frame_size msg.len)
  unfolding write_msg
  appended-IsRange = ground (
    arith,
    new_offset_lem l.send.write msg.len holds.size holds.range.write_lt holds.range.write_aligned
        (omega arith),
  )

  fits : 8 + length msg.buf ≤ l.send.size
  fits = omega arith

  free_data :
      (k : ℕ)
      → k < length msg.buf
      → (write_msg msg l).mem (wrap l.send.size (l.send.write % l.send.size + (8 + k)))
        ≡ get_or (frame msg.buf) (8 + k) 0
  free_data k h =
      written_data msg l holds.size holds.range.write_aligned holds.range.write_lt len fits k h
      ∙ sym (get_or-frame_data msg.buf k h)

  free_part :
      (j : ℕ)
      → length (image q) + j < l.send.size
      → (write_msg msg l).mem (wrap l.send.size (l.send.write % l.send.size + j))
        ≡ get_or (frame msg.buf) j 0
  free_part j h = elim (ltb_cases j 8) [
    | inl (t, lt) ↦
        written_head msg l holds.size holds.range.write_aligned holds.range.write_lt len fits j lt
        ∙ ap (λ n. get_or (le_bytes 8 n) j 0) len
        ∙ sym (get_or-frame_head msg.buf j lt)
    | inr (f, le) ↦ elim (ltb_cases j (8 + length msg.buf)) [
      | inl (t, lt) ↦
          subst
            (λ k.
              (write_msg msg l).mem (wrap l.send.size (l.send.write % l.send.size + k))
              ≡ get_or (frame msg.buf) k 0)
            (omega arith) (free_data (j - 8) (omega arith))
      | inr (g, ge) ↦
          written_outside msg l holds.size holds.range.write_aligned holds.range.write_lt len fits j
            ge (omega arith)
          ∙ sym (ap l.mem (rebase_free j holds.range h))
          ∙ holds.view (length (image q) + j) h
          ∙ get_or_beyond (image q) (length (image q) + j) 0 (omega arith)
          ∙ sym (get_or-frame_padding msg.buf j ge)
    ]
  ]

  appended_free :
      (j : ℕ)
      → length (image q) + j < l.send.size
      → (write_msg msg l).mem
          (wrap l.send.size (l.recv.read % l.send.size + (length (image q) + j)))
        ≡ get_or (image q ++ frame msg.buf) (length (image q) + j) 0
  appended_free j h =
      ap (write_msg msg l).mem (rebase_free j holds.range h)
      ∙ free_part j h
      ∙ sym (get_or-append_right (image q) (frame msg.buf) (length (image q) + j) j 0 refl)

  appended_view :
      (i : ℕ)
      → i < l.send.size
      → (write_msg msg l).mem (wrap l.send.size (l.recv.read % l.send.size + i))
        ≡ get_or (image q ++ frame msg.buf) i 0
  appended_view i h = elim (ltb_cases i (length (image q))) [
    | inl (t, lt) ↦
        ap (write_msg msg l).mem (rebase_used i holds.range lt)
        ∙ written_outside msg l holds.size holds.range.write_aligned holds.range.write_lt len fits
            (l.send.size + i - length (image q)) (omega arith) (omega arith)
        ∙ sym (ap l.mem (rebase_used i holds.range lt))
        ∙ holds.view i h
        ∙ sym (get_or-append_left (image q) (frame msg.buf) i 0 lt)
    | inr (f, le) ↦
        subst
          (λ k.
            (write_msg msg l).mem (wrap l.send.size (l.recv.read % l.send.size + k))
            ≡ get_or (image q ++ frame msg.buf) k 0)
          (omega arith) (appended_free (i - length (image q)) (omega arith))
  ]

  -- On a buffer that holds the queue `q`, writing a message that fits the space that `q` leaves,
  -- and whose length is that of its bytes, gives a buffer that holds `q` followed by the message.
  pub write_msg-Holds : Holds (write_msg msg l) (q ++ (msg.buf ∷ []))
  unfolding write_msg
  write_msg-Holds = record {
    size = holds.size;
    same_size = holds.same_size;
    reported = holds.reported;
    range =
        subst (IsRange l.send.size l.recv.read (write_msg msg l).send.write) used appended-IsRange;
    view = λ i h. rw (image-append q msg.buf) (appended_view i h);
  }
    where
      used : length (image q) + frame_size msg.len ≡ length (image (q ++ (msg.buf ∷ [])))
      used =
          rw (image-append q msg.buf, len)
            (omega (arith, length-append (image q) (frame msg.buf), length-frame msg.buf))
