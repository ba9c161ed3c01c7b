-- ===== src/Eq/Tests.antt =====
-- An event queue with one event.
use libfabric_provider_dpa.Prelude.{◌≡◌, refl, some, false, [], ◌∷◌, arith}
use libfabric_provider_dpa.Slist.{Slist}
use libfabric_provider_dpa.Slist.Chain.{has}
use libfabric_provider_dpa.Eq.{Eq, EqEvent, event_source, fi_peek, eq_read_priv, eq_add}
use libfabric_provider_dpa.Eq.Refine.{HoldsEvents, eq_add-HoldsEvents}
use libfabric_provider_dpa.Eq.Taking.{eq_read_priv-HoldsEvents}
use libfabric_provider_dpa.Fabric.{ok}
use libfabric_provider_dpa.Eq.Close.{dpa_eq_close, dpa_eq_close-eq_read_priv}

abbrev empty : Slist
empty = record { head = 0; tail = 0 }

abbrev three_bytes : EqEvent
three_bytes = record { event = 2; entry = 6 ∷ 7 ∷ 8 ∷ []; error = 0; entry_size = 3 }

-- That event, at 4.
abbrev waiting : Eq
waiting = record {
  event_queue = record { head = 4; tail = 4 };
  error_queue = empty;
  free_list = empty;
  next = λ a. 0;
  events = λ a. three_bytes;
  has_progress = false;
  signalled = 0;
}

-- Its lists, and the event in it.
abbrev waiting-HoldsEvents : HoldsEvents waiting (three_bytes ∷ []) []
waiting-HoldsEvents = record {
  es = 4 ∷ [];
  errs = [];
  free = [];
  lists = record {
    event_list = record { chain = (refl, omega arith, refl, refl); tail = refl };
    error_list = record { chain = refl; tail = refl };
    free_entries = record { chain = refl; tail = refl };
    apart_errors = λ a i. refl;
    apart_free = λ a i. refl;
    errors_apart = λ a i. refl;
  };
  are_events = refl;
  are_errors = refl;
}

eq_add-HoldsEvents_example :
    HoldsEvents
      (eq_add 8 12 5 (1 ∷ 2 ∷ []) 0 waiting).1
      (three_bytes ∷ record { event = 5; entry = 1 ∷ 2 ∷ []; error = 0; entry_size = 2 } ∷ [])
      []
eq_add-HoldsEvents_example =
    eq_add-HoldsEvents 8 12 5 (1 ∷ 2 ∷ []) 0 waiting (three_bytes ∷ []) [] waiting-HoldsEvents
      (record { not_null = omega arith; not_event = refl; not_error = refl; not_free = refl })

eq_read_priv-HoldsEvents_example :
    let r = eq_read_priv event_source 2 fi_peek waiting in
    (r.0 ≡ ok 2) × (r.1 ≡ some (2, 6 ∷ 7 ∷ [])) × HoldsEvents r.2 [] []
eq_read_priv-HoldsEvents_example =
    eq_read_priv-HoldsEvents event_source 2 fi_peek waiting three_bytes [] [] waiting-HoldsEvents

-- The event at 4 waits, and the one at 9 is free.
abbrev one_free : Eq
one_free = record waiting { free_list = record { head = 9; tail = 9 } }

dpa_eq_close-eq_read_priv_example :
    (dpa_eq_close 8 (eq_read_priv event_source 8 fi_peek one_free).2 ≡ some (0 ∷ 0 ∷ 9 ∷ []))
    × (has 4 (0 ∷ 0 ∷ 9 ∷ []) ≡ false)
dpa_eq_close-eq_read_priv_example =
    dpa_eq_close-eq_read_priv 8 8 fi_peek one_free 4 [] [] (9 ∷ [])
      (record {
        event_list = record { chain = (refl, omega arith, refl, refl); tail = refl };
        error_list = record { chain = refl; tail = refl };
        free_entries = record { chain = (refl, omega arith, refl, refl); tail = refl };
        apart_errors = λ a i. refl;
        apart_free = λ a i. ground arith;
        errors_apart = λ a i. ground arith;
      })
      refl (omega arith)
