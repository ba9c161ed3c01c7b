-- ===== src/Ring/Samples.antt =====
-- Message buffers with no message, one and more, for the tests.
use libfabric_provider_dpa.Prelude.{◌≡◌, inl, refl, true, false, [], ◌∷◌, arith, length}
use libfabric_provider_dpa.Prelude.Bytes.{le_bytes}
use libfabric_provider_dpa.Ring.{Link, Buffer, write_msg, publish}
use libfabric_provider_dpa.Ring.View.{image, frame, Holds}
use libfabric_provider_dpa.Ring.Enqueue.{write_msg-Holds}

abbrev pub fresh : Link
fresh = record {
  mem = λ a. 0;
  status = 0;
  send = record { size = 48; write = 0; remote_interrupt = false; triggered = 0 };
  recv = record { buffer_size = 56; read = 0; remote_interrupt = true; triggered = 0 };
}

pub fresh-Holds : Holds fresh []
unfolding image
fresh-Holds = record {
  size = record { aligned = omega arith; positive = omega arith; bounded = omega arith };
  same_size = omega arith;
  reported = refl;
  range = record {
    read_lt = omega arith;
    write_lt = omega arith;
    read_aligned = omega arith;
    write_aligned = omega arith;
    used_le = omega arith;
    used_aligned = omega arith;
    distance = inl (omega arith);
  };
  view = λ i h. refl;
}

abbrev pub seven_eight : Buffer
seven_eight = record { buf = 7 ∷ 8 ∷ []; len = 2 }

abbrev pub nine : Buffer
nine = record { buf = 9 ∷ []; len = 1 }

abbrev pub no_bytes : Buffer
no_bytes = record { buf = []; len = 0 }

abbrev pub one : Link
one = write_msg seven_eight fresh

abbrev pub two : Link
two = write_msg nine one

-- A message of no bytes, and another behind it.
abbrev pub blocked : Link
blocked = write_msg nine (write_msg no_bytes fresh)

pub one-Holds : Holds one ((7 ∷ 8 ∷ []) ∷ [])
unfolding image
one-Holds = write_msg-Holds fresh [] seven_eight fresh-Holds refl (omega arith)

pub size_one : length (image ((7 ∷ 8 ∷ []) ∷ [])) ≡ 16
unfolding image frame le_bytes
size_one = refl

pub sends_one : one.send.size ≡ 48
unfolding write_msg publish
sends_one = refl

pub two-Holds : Holds two ((7 ∷ 8 ∷ []) ∷ (9 ∷ []) ∷ [])
two-Holds =
    write_msg-Holds one ((7 ∷ 8 ∷ []) ∷ []) nine one-Holds refl (omega (arith, size_one, sends_one))

size_none : length (image ([] ∷ [])) ≡ 8
unfolding image frame le_bytes
size_none = refl

sends_none : (write_msg no_bytes fresh).send.size ≡ 48
unfolding write_msg publish
sends_none = refl

none-Holds : Holds (write_msg no_bytes fresh) ([] ∷ [])
unfolding image
none-Holds = write_msg-Holds fresh [] no_bytes fresh-Holds refl (omega arith)

pub blocked-Holds : Holds blocked ([] ∷ (9 ∷ []) ∷ [])
blocked-Holds =
    write_msg-Holds (write_msg no_bytes fresh) ([] ∷ []) nine none-Holds refl
      (omega (arith, size_none, sends_none))
