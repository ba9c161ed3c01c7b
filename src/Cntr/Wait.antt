-- ===== src/Cntr/Wait.antt =====
-- Waiting on a counter.
use libfabric_provider_dpa.Prelude.{
  ℕ, zero, suc, ◌<◌, ◌≤◌, ◌≡◌, ◌≢◌, refl, true, false, Option, some, inl, inr, ◌⊎◌, arith, ltb,
  ◌==◌, ◌&&◌, Bool-cases,
}
use libfabric_provider_dpa.Fabric.{Ret, ok, err, timed_out}
use libfabric_provider_dpa.Cntr.{
  Cntr, dpa_cntr_read, dpa_cntr_readerr, dpa_cntr_wait, wait_loop, make_queue_progress, to_int,
  int_to_u64,
}

-- Two counters without a progress function, one plain and one with atomic fields whose plain field
-- stays 0, that both read at least the threshold, which is not 0. With any timeout but 0, a wait on
-- either answers 0. With a timeout of 0, a wait on the plain one answers 0 and a wait on the
-- atomic one times out, as the last test reads the plain field.
pub waits_differ :
    (progress : ℕ → Cntr → ℕ × Cntr) (fuel threshold timeout : ℕ) (plain safe : Cntr)
    → plain.is_safe ≡ false
    → safe.is_safe ≡ true
    → plain.has_progress ≡ false
    → safe.has_progress ≡ false
    → safe.counter ≡ 0
    → 0 < threshold
    → threshold ≤ (dpa_cntr_read progress plain).0
    → threshold ≤ (dpa_cntr_read progress safe).0
    → (dpa_cntr_wait progress (suc fuel) threshold timeout plain ≡ some (ok 0, plain))
      × ((timeout ≡ 0)
            × (dpa_cntr_wait progress (suc fuel) threshold timeout safe
                ≡ some (err timed_out, safe))
          ⊎ (timeout ≢ 0)
            × (dpa_cntr_wait progress (suc fuel) threshold timeout safe ≡ some (ok 0, safe)))
unfolding dpa_cntr_wait wait_loop dpa_cntr_read dpa_cntr_readerr make_queue_progress
waits_differ progress fuel threshold timeout plain safe s s' p p' z pos reads reads' = ground arith

-- A progress function that leaves the counter's table of operations alone.
abbrev pub KeepsTable : (ℕ → Cntr → ℕ × Cntr) → Type 0
KeepsTable progress = (t : ℕ) (c : Cntr) → (progress t c).1.is_safe ≡ c.is_safe

-- What the loop stops at.
abbrev Stopped : ℕ → ℕ → ℕ → Cntr → Type 0
Stopped threshold first left c = (left ≡ 0) ⊎ (threshold ≤ c.counter) ⊎ (c.errors ≢ first)

record Ends (r : Option (ℕ × Cntr)) (threshold first : ℕ) : Type 0 where
  left : ℕ
  final : Cntr
  returns : r ≡ some (left, final)
  stopped : Stopped threshold first left final

module _ (progress : ℕ → Cntr → ℕ × Cntr) where
  -- The time left and the counter after rounds of the loop that does not stop.
  abbrev pub rounds : ℕ → ℕ → Cntr → ℕ × Cntr
  rounds zero t c = (t, c)
  rounds (suc k) t c =
      let c1 = (dpa_cntr_read progress c).1 in
      let c2 = (dpa_cntr_readerr progress c1).1 in
      let (t', c') = make_queue_progress progress t c2 in rounds k t' c'

  -- The test of the loop fails: no time is left, the threshold is read, or another number of errors.
  abbrev pub IsOver : ℕ → ℕ → ℕ × Cntr → Type 0
  IsOver threshold first (t, c) =
      (t ≡ 0)
      ⊎ (threshold ≤ (dpa_cntr_read progress c).0)
      ⊎ ((dpa_cntr_readerr progress (dpa_cntr_read progress c).1).0 ≢ first)

  module _ (keeps : KeepsTable progress) where
    progressed :
        (t : ℕ) (c : Cntr)
        → c.is_safe ≡ false
        → (make_queue_progress progress t c).1.is_safe ≡ false
    unfolding make_queue_progress
    progressed t c s = ground (arith, keeps t c)

    read_lem :
        (c : Cntr)
        → c.is_safe ≡ false
        → let (v, c') = dpa_cntr_read progress c in (v ≡ c'.counter) × (c'.is_safe ≡ false)
    unfolding dpa_cntr_read
    read_lem c s = ground (arith, progressed 0 c s)

    readerr_lem :
        (c : Cntr)
        → c.is_safe ≡ false
        → let (e, c') = dpa_cntr_readerr progress c in (e ≡ c'.errors) × (c'.is_safe ≡ false)
    unfolding dpa_cntr_readerr
    readerr_lem c s = ground (arith, progressed 0 c s)

    -- A round that does not stop the loop leaves the later rounds.
    goes_on :
        (k fuel threshold first timeout : ℕ) (c : Cntr)
        → let c1 = (dpa_cntr_read progress c).1 in
          let c2 = (dpa_cntr_readerr progress c1).1 in
          let (t', c') = make_queue_progress progress timeout c2 in
          let result = wait_loop progress fuel threshold first t' c' in
          (timeout == 0) ≡ false
          → ltb (dpa_cntr_read progress c).0 threshold ≡ true
          → ((dpa_cntr_readerr progress c1).0 == first) ≡ true
          → IsOver threshold first (rounds k timeout c)
          → k < suc fuel
          → ((k' : ℕ)
              → IsOver threshold first (rounds k' t' c')
              → k' < fuel
              → Ends result threshold first)
          → Ends result threshold first
    goes_on zero fuel threshold first timeout c nz lt eq over f again =
        absurd (ground (arith, over))
    goes_on (suc k) fuel threshold first timeout c nz lt eq over f again =
        again k over (omega arith)

    wait_loop-Ends :
        (k fuel threshold first timeout : ℕ) (c : Cntr)
        → c.is_safe ≡ false
        → IsOver threshold first (rounds k timeout c)
        → k < fuel
        → Ends (wait_loop progress fuel threshold first timeout c) threshold first
    unfolding wait_loop
    wait_loop-Ends k zero threshold first timeout c s over f = absurd (omega arith)
    wait_loop-Ends k (suc fuel) threshold first timeout c s over f =
        let c1 = (dpa_cntr_read progress c).1 in
        let c2 = (dpa_cntr_readerr progress c1).1 in
        let r = read_lem c s in
        let e = readerr_lem c1 r.1 in
        elim (Bool-cases (timeout == 0)) [
          | inl z ↦
              rw (z, wait_loop)
                (record { left = timeout; final = c; returns = refl; stopped = inl (ground arith) })
          | inr nz ↦
              rw (nz, wait_loop)
                (elim (Bool-cases (ltb (dpa_cntr_read progress c).0 threshold)) [
                  | inr ge ↦ rw ge (record {
                    left = timeout;
                    final = c1;
                    returns = refl;
                    stopped = inr (inl (ground (arith, r.0)));
                  })
                  | inl lt ↦ rw lt (elim (Bool-cases ((dpa_cntr_readerr progress c1).0 == first)) [
                    | inr ne ↦ rw ne (record {
                      left = timeout;
                      final = c2;
                      returns = refl;
                      stopped = inr (inr (λ q. ground (arith, e.0, q)));
                    })
                    | inl eq ↦ rw eq (
                        goes_on k fuel threshold first timeout c nz lt eq over f (λ k' o h.
                          wait_loop-Ends k' fuel threshold first _ _ (progressed timeout c2 e.1) o
                            h))
                  ])
                ])
        ]

    -- Let a progress function leave the table of a plain counter alone, and let the test of the
    -- loop fail after `k` rounds, fewer than the fuel: no time is left, the threshold is read, or a
    -- number of errors other than the low 32 bits, extended by their sign, of the one at the
    -- start. Then `dpa_cntr_wait` returns. It answers a time-out only below
    -- the threshold, and 0 only at it or with such a number of errors. The timeout
    -- is an `int` by its bits, so that it may be negative.
    pub dpa_cntr_wait_lem :
        (k fuel threshold timeout : ℕ) (c : Cntr)
        → c.is_safe ≡ false
        → let first = int_to_u64 (to_int (dpa_cntr_readerr progress c).0) in
          IsOver threshold first (rounds k timeout (dpa_cntr_readerr progress c).1)
          → k < fuel
          → (ret : Ret) × (c' : Cntr) × (dpa_cntr_wait progress fuel threshold timeout c
              ≡ some (ret, c'))
            × ((ret ≡ err timed_out) × (c'.counter < threshold)
                ⊎ (ret ≡ ok 0) × ((threshold ≤ c'.counter) ⊎ (c'.errors ≢ first)))
    unfolding dpa_cntr_wait
    dpa_cntr_wait_lem k fuel threshold timeout c s over f =
        let e = readerr_lem c s in
        let c1 = (dpa_cntr_readerr progress c).1 in
        let ends =
          wait_loop-Ends k fuel threshold (int_to_u64 (to_int (dpa_cntr_readerr progress c).0))
            timeout c1 e.1 over f in
        rw (ends.returns, dpa_cntr_wait)
          (elim (Bool-cases (ends.left == 0 && ltb ends.final.counter threshold)) [
            | inl late ↦ (err timed_out, ends.final, rw late, inl (refl, ground arith))
            | inr fine ↦ (ok 0, ends.final, rw fine, inr (refl, ground (arith, ends.stopped)))
          ])
