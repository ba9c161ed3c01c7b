-- ===== src/Msg/Calls.antt =====
-- Two connected endpoints and the message buffer between them: the calls that they make.
use libfabric_provider_dpa.Prelude.{
  ℕ, ◌≡◌, refl, Bool, true, false, List, [], ◌∷◌, Option, none, some,
}
use libfabric_provider_dpa.Fabric.{Ret}
use libfabric_provider_dpa.Ring.{Link}
use libfabric_provider_dpa.Msg.{
  MsgQueueEntry, Ep, Side, dpa_send, dpa_recv, queue, process_send_queue, process_recv_queue,
  process_queue,
}
use libfabric_provider_dpa.Msg.Post.{lock-free, unlock-free}

-- What a call of `process_queue` leaves.
pub record Ran (r : Option (Ep × Link)) (P : Ep → Link → Type 0) : Type 0 where
  pub ep : Ep
  pub link : Link
  pub returns : r ≡ some (ep, link)
  pub state : P ep link

-- A call of `process_queue` on an endpoint that needs no lock: it leaves what its loop leaves, or
-- there is nothing to do.
pub process_queue_lem :
    (side : Side) (loop : List MsgQueueEntry → Ep → Link → Ep × Link) (ep : Ep) (l : Link)
    (P : Ep → Link → Type 0) (connected : Bool) (q : List MsgQueueEntry)
    → ep.connected ≡ connected
    → queue side ep ≡ q
    → ep.lock_needed ≡ false
    → (loop q ep l).0.lock_needed ≡ false
    → P (loop q ep l).0 (loop q ep l).1
    → (q ≡ [] → P ep l)
    → (connected ≡ false → P ep l)
    → Ran (process_queue side loop false ep l) P
process_queue_lem side loop ep l P false q c e free after looped none_waits off = record {
  ep = ep;
  link = l;
  returns = rw (process_queue, c) refl;
  state = off refl;
}
process_queue_lem side loop ep l P true [] c e free after looped none_waits off = record {
  ep = ep;
  link = l;
  returns = rw (process_queue, e, c) refl;
  state = none_waits refl;
}
process_queue_lem side loop ep l P true (x ∷ xs) c e free after looped none_waits off = record {
  ep = (loop (x ∷ xs) ep l).0;
  link = (loop (x ∷ xs) ep l).1;
  returns =
      rw
        (
          process_queue,
          e,
          lock-free side ep free,
          e,
          unlock-free side (loop (x ∷ xs) ep l).0 after,
          c,
        )
        refl;
  state = looped;
}

-- The calls that the two sides make, in any order.
pub data Op : Type 0 where
  post_send post_recv : MsgQueueEntry → Op
  progress_send progress_recv : Op

pub record System : Type 0 where
  pub sender : Ep
  pub receiver : Ep
  pub link : Link

abbrev pub posted_send : System → Option (Ret × Ep × Link) → Option System
posted_send sys none = none
posted_send sys (some (r, ep, l)) = some (record sys { sender = ep; link = l })

abbrev pub posted_recv : System → Option (Ret × Ep × Link) → Option System
posted_recv sys none = none
posted_recv sys (some (r, ep, l)) = some (record sys { receiver = ep; link = l })

abbrev pub ran_send : System → Option (Ep × Link) → Option System
ran_send sys none = none
ran_send sys (some (ep, l)) = some (record sys { sender = ep; link = l })

abbrev pub ran_recv : System → Option (Ep × Link) → Option System
ran_recv sys none = none
ran_recv sys (some (ep, l)) = some (record sys { receiver = ep; link = l })

-- One call; `none` if it waits for a lock for ever.
unfoldable pub call : Op → System → Option System
unfolding dpa_send dpa_recv process_send_queue process_recv_queue
call (post_send e) sys = posted_send sys (dpa_send e sys.sender sys.link)
call (post_recv e) sys = posted_recv sys (dpa_recv e sys.receiver sys.link)
call progress_send sys = ran_send sys (process_send_queue false sys.sender sys.link)
call progress_recv sys = ran_recv sys (process_recv_queue false sys.receiver sys.link)

unfoldable pub calls : List Op → System → Option System
unfolding call
calls [] sys = some sys
calls (op ∷ ops) sys = elim (call op sys) [ none ↦ none | some sys' ↦ calls ops sys' ]

-- The messages that the sender posts.
abbrev pub posted : List Op → List (List ℕ)
posted [] = []
posted (post_send e ∷ ops) = e.buffer.buf ∷ posted ops
posted (post_recv e ∷ ops) = posted ops
posted (progress_send ∷ ops) = posted ops
posted (progress_recv ∷ ops) = posted ops
