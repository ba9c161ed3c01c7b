-- ===== src/Eq/Events.antt =====
-- Reading from event queues, whatever the flags.
use libfabric_provider_dpa.Prelude.{
  ℕ, ◌*◌, ◌/◌, ◌%◌, ◌≡◌, refl, false, not, none, some, arith, ◌==◌, if◌then◌else◌, min, take,
}
use libfabric_provider_dpa.Fabric.{ok, err, again}
use libfabric_provider_dpa.Eq.{Eq, Source, fi_peek, peek_of, get_head, eq_read_priv}

-- No flags make `peek` other than 0.
peek_of-zero : (flags : ℕ) → (not (peek_of flags == 0)) ≡ false
unfolding peek_of
peek_of-zero flags =
    let zero_bits : flags / fi_peek % 2 * fi_peek % 256 ≡ 0 = omega arith in rw zero_bits refl

-- So every read takes the head off its list, and recycles nothing.
pub eq_read_priv-takes :
    (s : Source) (len flags : ℕ) (eq : Eq)
    → let (head, eq1) = get_head s false eq in
      let copied = min (eq1.events head).entry_size len in
      eq_read_priv s len flags eq ≡ (
        if head == 0
        then (err again, none, eq1)
        else (ok copied, some ((eq1.events head).event, take copied (eq1.events head).entry), eq1))
unfolding eq_read_priv
eq_read_priv-takes s len flags eq = rw (peek_of-zero flags) refl
