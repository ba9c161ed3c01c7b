-- ===== src/Msg/Tests.antt =====
-- Two endpoints and a message buffer: the theorems at concrete requests.
use libfabric_provider_dpa.Prelude.{
  ◌*◌, ◌+◌, ◌<◌, ◌≤◌, ◌≡◌, ◌⊎◌, refl, true, false, List, [], ◌∷◌, ◌++◌, none, some, arith, length,
}
use libfabric_provider_dpa.Fabric.{success, err, again}
use libfabric_provider_dpa.Ring.{write_msg, read_msg}
use libfabric_provider_dpa.Ring.View.{Holds, image}
use libfabric_provider_dpa.Ring.Samples.{
  fresh, fresh-Holds, seven_eight, nine, two, two-Holds, blocked, blocked-Holds,
}
use libfabric_provider_dpa.Msg.{Ep, try_send, try_recv, sent, received, dpa_recv, dpa_send}
use libfabric_provider_dpa.Msg.Samples.{endpoint, request, room}
use libfabric_provider_dpa.Msg.Blocks.{
  EpCall, sends, receives, recv_progress, ep_calls, dpa_ep_close, dpa_ep_close-ep_calls,
}
use libfabric_provider_dpa.Msg.Send.{try_send_lem}
use libfabric_provider_dpa.Msg.Recv.{try_recv-empty}
use libfabric_provider_dpa.Msg.Locks.{dpa_recv-leaks, dpa_send-leaks}
use libfabric_provider_dpa.Msg.Queues.{delivered}
use libfabric_provider_dpa.Msg.Rounds.{rounds}
use libfabric_provider_dpa.Msg.Eventually.{every_message-delivered}
use libfabric_provider_dpa.Msg.Delivery.{InOrder, Ended, calls-InOrder}
use libfabric_provider_dpa.Msg.Calls.{
  Op, post_send, post_recv, progress_send, progress_recv, System, calls,
}
use libfabric_provider_dpa.Msg.Completions.{
  Accounts, SendCall, send, progress, send_calls, send_calls-Accounts,
}

abbrev system : System
system = record { sender = endpoint false; receiver = endpoint false; link = fresh }

system-InOrder : InOrder 16 (omega arith) system []
system-InOrder = record {
  stream = [];
  sends = record {
    flight = [];
    holds = fresh-Holds;
    order = refl;
    messages = tt;
    requests = tt;
    no_lock = refl;
  };
  buffers = tt;
  no_lock = refl;
  total = refl;
}

abbrev script : List Op
script =
    post_send (request seven_eight)
    ∷ progress_recv
    ∷ post_recv room
    ∷ post_send (request nine)
    ∷ post_recv room
    ∷ progress_send
    ∷ []

calls-InOrder_example :
    Ended 16 (omega arith) (calls script system) ([] ++ ((7 ∷ 8 ∷ []) ∷ (9 ∷ []) ∷ []))
calls-InOrder_example =
    calls-InOrder 16 (omega arith) script system []
      (
        (refl, (omega arith, omega arith)),
        (tt, (omega arith, ((refl, (omega arith, omega arith)), (omega arith, (tt, tt))))),
      )
      system-InOrder

every_message-delivered_example :
    (final : System) × (calls (script ++ rounds 2) system ≡ some final)
    × (delivered final.receiver.filled ≡ [] ++ ((7 ∷ 8 ∷ []) ∷ (9 ∷ []) ∷ []))
every_message-delivered_example =
    every_message-delivered 16 (omega arith) script system []
      (
        (refl, (omega arith, omega arith)),
        (tt, (omega arith, ((refl, (omega arith, omega arith)), (omega arith, (tt, tt))))),
      )
      (record {
        in_order = system-InOrder;
        sends_on = refl;
        receives_on = refl;
        room = omega arith;
      })
      (omega arith)

try_send_lem_example :
    (8 + 1 + length (image []) ≤ 48)
      × (try_send (request nine) (endpoint false) fresh
          ≡ (success, sent (request nine) (endpoint false), write_msg nine fresh))
      × Holds (write_msg nine fresh) ([] ++ ((9 ∷ []) ∷ []))
    ⊎ (48 < 8 + 1 + length (image []))
      × (try_send (request nine) (endpoint false) fresh ≡ (err again, endpoint false, fresh))
try_send_lem_example =
    try_send_lem (request nine) (endpoint false) fresh [] fresh-Holds refl (omega arith)

try_recv-empty_example :
    try_recv room (endpoint false) blocked ≡ (err again, endpoint false, blocked)
try_recv-empty_example = try_recv-empty room (endpoint false) blocked ((9 ∷ []) ∷ []) blocked-Holds

dpa_recv-leaks_example :
    let after = received room (7 ∷ 8 ∷ []) 2 (record (endpoint true) { recv_locked = true }) in
    (dpa_recv room (endpoint true) two ≡ some (success, after, (read_msg 16 two).1))
    × (dpa_recv room after fresh ≡ none)
dpa_recv-leaks_example =
    dpa_recv-leaks room room (endpoint true) two fresh (7 ∷ 8 ∷ []) ((9 ∷ []) ∷ []) refl refl refl
      refl two-Holds (omega arith) (omega arith)

dpa_send-leaks_example :
    let after = sent (request nine) (record (endpoint true) { send_locked = true }) in
    (dpa_send (request nine) (endpoint true) fresh ≡ some (success, after, write_msg nine fresh))
    × (dpa_send room after fresh ≡ none)
unfolding image
dpa_send-leaks_example =
    dpa_send-leaks (request nine) room (endpoint true) fresh fresh [] refl refl refl fresh-Holds
      refl (omega arith) (omega arith)

abbrev three_calls : List SendCall
three_calls = send (request seven_eight) fresh ∷ send (request nine) two ∷ progress fresh ∷ []

send_calls-Accounts_example :
    (ep : Ep) × (send_calls three_calls (endpoint false) ≡ some ep) × Accounts 0 (1 ∷ 1 ∷ []) ep
send_calls-Accounts_example =
    send_calls-Accounts three_calls 0 [] (endpoint false)
      (record { to_cq = refl; no_lock = refl; total = refl })

-- A send, a receive with no message there, and then two messages.
abbrev two_calls : List EpCall
two_calls = sends (request seven_eight) fresh ∷ receives room fresh ∷ recv_progress two ∷ []

dpa_ep_close-ep_calls_example :
    (final : Ep) × (ep_calls two_calls (endpoint false) ≡ some final)
    × (512 * dpa_ep_close true final
        ≡ final.send_free + final.recv_free + (length final.send_queue + length final.recv_queue))
dpa_ep_close-ep_calls_example =
    dpa_ep_close-ep_calls two_calls (endpoint false) (record { no_lock = refl; total = refl })
