-- ===== src/Cq/Read.antt =====
-- Reading a completion queue: what is returned, what is left, and where the buffers go.
use libfabric_provider_dpa.Prelude.{
  ℕ, zero, suc, ◌≡◌, ◌∙◌, refl, ap, List, [], ◌∷◌, ◌++◌, arith, length, take, drop, ◌==◌,
  if◌then◌else◌,
}
use mathlib.Core.List.{append-nil, append_assoc}
use libfabric_provider_dpa.Fabric.{Ret, ok, err, again}
use libfabric_provider_dpa.Cq.{
  Cq, CqEvent, Which, events, errors, queue_of, set_queue, read_loop, cq_read_priv,
}

-- The queue after `n` events have been read from a list: they are off that list, and at the end of
-- the free list in the order in which they were read.
abbrev pub after_read : Which → ℕ → Cq → Cq
after_read w n cq =
    set_queue w (drop n (queue_of w cq))
      (record cq { free_list = cq.free_list ++ take n (queue_of w cq) })

read_loop_on :
    (count : ℕ) (w : Which) (cq : Cq) (q : List CqEvent)
    → queue_of w cq ≡ q
    → read_loop count w cq ≡ (
      take count q,
      set_queue w (drop count q) (record cq { free_list = cq.free_list ++ take count q }),
    )
unfolding read_loop
read_loop_on zero events cq q e = rw (← e, append-nil)
read_loop_on zero errors cq q e = rw (← e, append-nil)
read_loop_on (suc count) events cq [] e = rw (e, append-nil) (ground arith)
read_loop_on (suc count) errors cq [] e = rw (e, append-nil) (ground arith)
read_loop_on (suc count) events cq (x ∷ q) e =
    rw (e, read_loop)
      (rw (
        read_loop_on count events
            (record cq { event_queue = q; free_list = cq.free_list ++ (x ∷ []) }) q refl,
        append_assoc cq.free_list (x ∷ []) (take count q),
      ))
read_loop_on (suc count) errors cq (x ∷ q) e =
    rw (e, read_loop)
      (rw (
        read_loop_on count errors
            (record cq { error_queue = q; free_list = cq.free_list ++ (x ∷ []) }) q refl,
        append_assoc cq.free_list (x ∷ []) (take count q),
      ))

pub read_loop_lem :
    (count : ℕ) (w : Which) (cq : Cq)
    → read_loop count w cq ≡ (take count (queue_of w cq), after_read w count cq)
read_loop_lem count w cq = read_loop_on count w cq (queue_of w cq) refl

returned :
    (got : List CqEvent)
    → elim got as (λ _. Ret) [ [] ↦ err again | e ∷ es ↦ ok (suc (length es)) ]
      ≡ (if length got == 0 then err again else ok (length got))
returned [] = ground arith
returned (e ∷ es) = ground arith

-- `cq_read_priv` returns the oldest events of the list, at most `count` of them and in order, and
-- their number, or -FI_EAGAIN if there is none to return. They leave the list and go to the free
-- list; the other list and the rest of the queue stay as they were.
pub cq_read_priv_lem :
    (w : Which) (count : ℕ) (cq : Cq)
    → let got = take count (queue_of w cq) in
      let (ret, out, cq') = cq_read_priv w count cq in
      (ret ≡ (if length got == 0 then err again else ok (length got)))
      × (out ≡ got)
      × (cq' ≡ after_read w count cq)
unfolding cq_read_priv
cq_read_priv_lem w count cq =
    let e = read_loop_lem count w cq in
    (
      ap
            (λ (p : List CqEvent × Cq). elim p.0 as (λ _. Ret) [
              | [] ↦ err again
              | x ∷ xs ↦ ok (suc (length xs))
            ])
            e
          ∙ returned (take count (queue_of w cq)),
      ap (λ (p : List CqEvent × Cq). p.0) e,
      ap (λ (p : List CqEvent × Cq). p.1) e,
    )
