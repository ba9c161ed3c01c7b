-- ===== src/Cq/Data.antt =====
-- src/dpa_cq.c: completions by interrupt, `dpa_cq_wait_data`, and the calls that read.
use libfabric_provider_dpa.Prelude.{
  ℕ, ◌%◌, ◌^◌, ◌≡◌, ◌<◌, ◌⊎◌, Bool, not, List, Option, none, some, ◌==◌, if◌then◌else◌, arith,
}
use libfabric_provider_dpa.Fabric.{Ret, err, success, inval, other}
use libfabric_provider_dpa.Cq.{Cq, CqEvent, Environment, cq_signal, dpa_cq_sreadfrom}

-- Whether the virtual device opens, and the number of the interrupt that DPACreateInterrupt makes,
-- none if it fails, when that number is asked for, or, with 0, any.
pub record Interrupts : Type 0 where
  pub opens : Bool
  pub creates : Option ℕ → Option ℕ

-- `dpa_cq_wait_data`: `data` is what `data` points at, none for NULL, and what it holds at the end.
abbrev pub with_interrupt : ℕ → ℕ → Option ℕ → Cq → Ret × ℕ × Cq
with_interrupt word flags none cq = (err other, word, cq)
with_interrupt word flags (some id) cq = (success, id, record cq { interrupt = some (id, flags) })

unfoldable pub dpa_cq_wait_data : Interrupts → Option ℕ → ℕ → Cq → Ret × ℕ × Cq
dpa_cq_wait_data card none flags cq = (err inval, 0, cq)
dpa_cq_wait_data card (some word) flags cq =
    let interrupt_id = word % 2 ^ 32 in
    let asked = if interrupt_id == 0 then none else some interrupt_id in
    if not (word == interrupt_id)
    then (err inval, word, cq)
    else if not card.opens
    then (err other, word, cq)
    else with_interrupt word flags (card.creates asked) cq

-- `dpa_cq_signal`, `dpa_cq_sread`, `dpa_cq_readfrom` and `dpa_cq_read`.
unfoldable pub dpa_cq_signal : Cq → Cq
unfolding cq_signal
dpa_cq_signal cq = cq_signal cq

module _ (env : Environment) where
  unfoldable pub dpa_cq_sread : ℕ → ℕ → Cq → Ret × List CqEvent × Cq
  unfolding dpa_cq_sreadfrom
  dpa_cq_sread count timeout cq = dpa_cq_sreadfrom env count timeout cq

  unfoldable pub dpa_cq_readfrom : ℕ → Cq → Ret × List CqEvent × Cq
  unfolding dpa_cq_sreadfrom
  dpa_cq_readfrom count cq = dpa_cq_sreadfrom env count 0 cq

  unfoldable pub dpa_cq_read : ℕ → Cq → Ret × List CqEvent × Cq
  unfolding dpa_cq_readfrom
  dpa_cq_read count cq = dpa_cq_readfrom count cq

-- The number that `dpa_cq_wait_data` gives back is that of the queue's interrupt, and a number that
-- does not fit an interrupt is refused; a call that fails leaves the queue as it was.
pub dpa_cq_wait_data_lem :
    (card : Interrupts) (word flags : ℕ) (cq : Cq)
    → let (r, given, cq') = dpa_cq_wait_data card (some word) flags cq in
      (r ≡ success) × (cq'.interrupt ≡ some (given, flags)) × (word < 2 ^ 32)
      ⊎ ((r ≡ err inval) ⊎ (r ≡ err other)) × (given ≡ word) × (cq' ≡ cq)
unfolding dpa_cq_wait_data
dpa_cq_wait_data_lem card word flags cq = ground arith
