-- ===== src/Ring/View.antt =====
-- What a message buffer holds: the queue of messages between the read and the write offset.
use libfabric_provider_dpa.Prelude.{
  ℕ, ◌+◌, ◌-◌, ◌%◌, ◌<◌, ◌≤◌, ◌≡◌, List, [], ◌∷◌, ◌++◌, arith, ltb, if◌then◌else◌, length, get_or,
  replicate, length-append, length-replicate, get_or-append_left, get_or-append_right,
  get_or-replicate, ◌∙◌, sym,
}
use mathlib.Core.List.{append-nil, append_assoc}
use libfabric_provider_dpa.Prelude.Bytes.{le_bytes, length-le_bytes}
use libfabric_provider_dpa.Ring.{Link, buffer_word}
use libfabric_provider_dpa.Ring.Offset.{frame_size, IsSize, IsRange}

-- The bytes of one message as they lie in the buffer: size word, data, zeros up to a word.
unfoldable pub frame : List ℕ → List ℕ
frame m = le_bytes 8 (length m) ++ (m ++ replicate (frame_size (length m) - 8 - length m) 0)

unfoldable pub image : List (List ℕ) → List ℕ
image [] = []
image (m ∷ q) = frame m ++ image q

-- The address `i` bytes behind an address in the buffer, going round at the end.
abbrev pub wrap : ℕ → ℕ → ℕ
wrap n p = if ltb p n then p else p - n

-- Read from the read offset on, the buffer is the frames of the queue and then zeros.
pub record Holds (l : Link) (q : List (List ℕ)) : Type 0 where
  pub size : IsSize l.send.size
  pub same_size : l.recv.buffer_size ≡ l.send.size + buffer_word
  pub reported : l.status ≡ l.recv.read
  pub range : IsRange l.send.size l.recv.read l.send.write (length (image q))
  pub view :
      (i : ℕ)
      → i < l.send.size
      → l.mem (wrap l.send.size (l.recv.read % l.send.size + i)) ≡ get_or (image q) i 0

pub length-frame : (m : List ℕ) → length (frame m) ≡ frame_size (length m)
unfolding frame
length-frame m = omega (
  arith,
  length-append (le_bytes 8 (length m)) (m ++ replicate (frame_size (length m) - 8 - length m) 0),
  length-append m (replicate (frame_size (length m) - 8 - length m) 0),
  length-replicate {A = ℕ} (frame_size (length m) - 8 - length m) 0,
  length-le_bytes 8 (length m),
)

-- The size word and the data of a frame, and nothing but zeros behind them.
pub get_or-frame_head :
    (m : List ℕ) (i : ℕ) → i < 8 → get_or (frame m) i 0 ≡ get_or (le_bytes 8 (length m)) i 0
unfolding frame
get_or-frame_head m i h =
    get_or-append_left (le_bytes 8 (length m)) _ i 0 (omega (arith, length-le_bytes 8 (length m)))

pub get_or-frame_data :
    (m : List ℕ) (i : ℕ) → i < length m → get_or (frame m) (8 + i) 0 ≡ get_or m i 0
unfolding frame
get_or-frame_data m i h =
    get_or-append_right (le_bytes 8 (length m)) _ (8 + i) i 0
      (omega (arith, length-le_bytes 8 (length m)))
    ∙ get_or-append_left m _ i 0 h

pub get_or-frame_padding : (m : List ℕ) (i : ℕ) → 8 + length m ≤ i → get_or (frame m) i 0 ≡ 0
unfolding frame
get_or-frame_padding m i h =
    get_or-append_right (le_bytes 8 (length m)) _ i (i - 8) 0
      (omega (arith, length-le_bytes 8 (length m)))
    ∙ get_or-append_right m _ (i - 8) (i - 8 - length m) 0 (omega arith)
    ∙ get_or-replicate (frame_size (length m) - 8 - length m) 0 (i - 8 - length m)

pub image-append : (q : List (List ℕ)) (m : List ℕ) → image (q ++ (m ∷ [])) ≡ image q ++ frame m
unfolding image
image-append [] m = append-nil (frame m)
image-append (k ∷ q) m = rw (image-append q m) (sym (append_assoc (frame k) (image q) (frame m)))
