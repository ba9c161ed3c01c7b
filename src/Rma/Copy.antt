-- ===== src/Rma/Copy.antt =====
-- The copying loops of remote reads and writes, against one contiguous copy.
use libfabric_provider_dpa.Prelude.{
  ℕ, zero, suc, ◌+◌, ◌-◌, ◌^◌, ◌≤◌, ◌<◌, ◌≡◌, ◌∙◌, refl, sym, ap, ap₂, inl, inr, List, [], ◌∷◌,
  ◌++◌, arith, ltb_cases, length, take, min, sub64, length-append, length-take, get_or-append_left,
  get_or-append_right,
}
use libfabric_provider_dpa.Prelude.Bytes.{Mem, store_bytes, load_bytes}
use libfabric_provider_dpa.Ring.{Buffer}
use libfabric_provider_dpa.Rma.{read_loop, write_loop}

-- The bytes that a list of vectors has room for, the bytes a read has left in them, and the bytes
-- they hold.
abbrev pub sum_len : List (ℕ × Buffer) → ℕ
sum_len [] = 0
sum_len ((at, iov) ∷ iovs) = iov.len + sum_len iovs

abbrev pub gathered : List (ℕ × List ℕ) → List ℕ
gathered [] = []
gathered ((at, bytes) ∷ rest) = bytes ++ gathered rest

abbrev pub scattered : List (ℕ × Buffer) → List ℕ
scattered [] = []
scattered ((at, iov) ∷ iovs) = iov.buf ++ scattered iovs

load_at : (mem : Mem) (a b n k : ℕ) → a ≡ b → n ≡ k → load_bytes mem a n ≡ load_bytes mem b k
load_at mem a b n k e f = ap₂ (load_bytes mem) e f

load_bytes-append :
    (mem : Mem) (a n k : ℕ)
    → load_bytes mem a n ++ load_bytes mem (a + n) k ≡ load_bytes mem a (n + k)
load_bytes-append mem a zero k = load_at mem (a + 0) a k (0 + k) (omega arith) (omega arith)
load_bytes-append mem a (suc n) k =
    ap (λ xs. mem a ∷ xs)
      (ap (λ ys. load_bytes mem (a + 1) n ++ ys)
          (load_at mem (a + suc n) (a + 1 + n) k k (omega arith) refl)
        ∙ load_bytes-append mem (a + 1) n k)
    ∙ load_at mem a a (suc (n + k)) (suc n + k) refl (omega arith)

pub read_loop_lem :
    (mem : Mem) (base room copied : ℕ) (iovs : List (ℕ × Buffer))
    → copied ≤ room
    → room < 2 ^ 64
    → ((read_loop mem base room copied iovs).0 ≡ min room (copied + sum_len iovs))
      × (gathered (read_loop mem base room copied iovs).1
          ≡ load_bytes mem (base + copied) (min room (copied + sum_len iovs) - copied))
unfolding read_loop
read_loop_lem mem base room copied [] le small =
    (omega arith, load_at mem (base + copied) (base + copied) 0 _ refl (omega arith))
read_loop_lem mem base room copied ((at, iov) ∷ iovs) le small = elim (ltb_cases copied room) [
  | inl (t, lt) ↦
      let copy = min (sub64 room copied) iov.len in
      let ih = read_loop_lem mem base room (copied + copy) iovs (omega arith) small in
      let k = min room (copied + copy + sum_len iovs) - (copied + copy) in
      rw t (
        ih.0 ∙ omega arith,
        ap (λ xs. load_bytes mem (base + copied) copy ++ xs)
              (ih.1 ∙ load_at mem _ (base + copied + copy) k k (omega arith) refl)
            ∙ load_bytes-append mem (base + copied) copy k
            ∙ load_at mem (base + copied) (base + copied) (copy + k) _ refl (omega arith),
      )
  | inr (f, ge) ↦
      rw f (omega arith, load_at mem (base + copied) (base + copied) 0 _ refl (omega arith))
]

-- A write into memory whose second part follows the first is one write.
store_bytes-append :
    (mem : Mem) (a b : ℕ) (xs ys : List ℕ) (p : ℕ)
    → b ≡ a + length xs
    → store_bytes (store_bytes mem a xs) b ys p ≡ store_bytes mem a (xs ++ ys) p
store_bytes-append mem a b xs ys p e =
    let len = length-append xs ys in
    elim (ltb_cases p b) [
      | inl (t, lt) ↦ elim (ltb_cases p a) [
        | inl (below, lt_a) ↦ ground arith
        | inr (above, ge) ↦ let g = get_or-append_left xs ys (p - a) 0 (omega arith) in ground arith
      ]
      | inr (f, ge) ↦
          let g = get_or-append_right xs ys (p - a) (p - b) 0 (omega arith) in ground arith
    ]

take-append :
    (n : ℕ) (xs ys : List ℕ) (k j : ℕ)
    → k ≡ min n (length xs)
    → n ≡ k + j
    → take n (xs ++ ys) ≡ take k xs ++ take j ys
take-append n [] ys zero j e f = ap (λ i. take i ys) (omega arith)
take-append n [] ys (suc k) j e f = absurd (omega arith)
take-append zero (x ∷ xs) ys zero zero e f = refl
take-append zero (x ∷ xs) ys zero (suc j) e f = absurd (omega arith)
take-append zero (x ∷ xs) ys (suc k) j e f = absurd (omega arith)
take-append (suc n) (x ∷ xs) ys zero j e f = absurd (omega arith)
take-append (suc n) (x ∷ xs) ys (suc k) j e f =
    ap (λ zs. x ∷ zs) (take-append n xs ys k j (omega arith) (omega arith))

store_bytes-none :
    (mem : Mem) (a : ℕ) (xs : List ℕ) (p : ℕ) → length xs ≡ 0 → mem p ≡ store_bytes mem a xs p
store_bytes-none mem a xs p e = ground arith

abbrev pub AreFull : List (ℕ × Buffer) → Type 0
AreFull [] = Unit {0}
AreFull ((at, iov) ∷ iovs) = (iov.len ≡ length iov.buf) × AreFull iovs

-- The writes of a remote write, on a range inside the segment: the bytes of the vectors, one
-- after another, arrive from the address on, as many as the segment has room for, in one piece;
-- the rest of the segment stays as it is, and the count is that of the bytes that arrived.
pub write_loop_lem :
    (base room copied : ℕ) (iovs : List (ℕ × Buffer)) (mem : Mem) (p : ℕ)
    → AreFull iovs
    → copied ≤ room
    → room < 2 ^ 64
    → ((write_loop base room copied iovs mem).0 ≡ min room (copied + sum_len iovs))
      × ((write_loop base room copied iovs mem).1 p
          ≡ store_bytes mem (base + copied) (take (room - copied) (scattered iovs)) p)
unfolding write_loop
write_loop_lem base room copied [] mem p full le small = (
  omega arith,
  store_bytes-none mem (base + copied) _ p (omega (arith, length-take {A = ℕ} (room - copied) [])),
)
write_loop_lem base room copied ((at, iov) ∷ iovs) mem p full le small =
    elim (ltb_cases copied room) [
      | inl (t, lt) ↦
          let copy = min (sub64 room copied) iov.len in
          let mem1 = store_bytes mem (base + copied) (take copy iov.buf) in
          let ih =
            write_loop_lem base room (copied + copy) iovs mem1 p full.1 (omega arith) small in
          let left = room - (copied + copy) in
          rw t (
            ih.0 ∙ omega arith,
            ih.1
                ∙ store_bytes-append mem (base + copied) (base + (copied + copy))
                    (take copy iov.buf) (take left (scattered iovs)) p
                    (omega (arith, length-take copy iov.buf, full.0))
                ∙ ap (λ xs. store_bytes mem (base + copied) xs p)
                    (sym (
                      take-append (room - copied) iov.buf (scattered iovs) copy left
                        (omega (arith, full.0)) (omega arith))),
          )
      | inr (f, ge) ↦ rw f (
        omega arith,
        store_bytes-none mem (base + copied) _ p
            (omega (arith, length-take (room - copied) (iov.buf ++ scattered iovs))),
      )
    ]
