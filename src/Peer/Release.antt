-- ===== src/Peer/Release.antt =====
-- What disconnecting gives back.
use libfabric_provider_dpa.Prelude.{
  ◌≡◌, refl, sym, ap, ◌∙◌, Bool, true, false, not, List, [], ◌∷◌, ◌++◌, if◌then◌else◌,
}
use mathlib.Core.List.{append-nil, append_assoc}
use libfabric_provider_dpa.Fabric.{err, success, other}
use libfabric_provider_dpa.Connect.{
  Handle, map_sequence, remote_map, remote_segment, send_interrupt_to, recv_interrupt_to, Card,
  CmEp,
}
use libfabric_provider_dpa.Peer.{give_back, has, disconnect_msg}
use libfabric_provider_dpa.Cm.{dpa_shutdown, shut}

abbrev held_if : Handle → Bool → List Handle
held_if h true = h ∷ []
held_if h false = []

-- The handles that an endpoint has, in the order in which they are given back.
abbrev pub holds : CmEp → List Handle
holds ep =
    held_if map_sequence ep.has_sequence
    ++ held_if remote_map ep.has_map
    ++ held_if remote_segment ep.has_segment
    ++ held_if send_interrupt_to (has ep.send_remote_interrupt)
    ++ held_if recv_interrupt_to (has ep.recv_remote_interrupt)

give_back_lem :
    (h : Handle) (b : Bool) (released : List Handle)
    → give_back h b released ≡ released ++ held_if h b
give_back_lem h true released = refl
give_back_lem h false released = sym (append-nil released)

disconnect_msg_lem :
    (card : Card) (ep : CmEp)
    → (disconnect_msg card ep).1
      ≡ record ep { connected = false; released = ep.released ++ holds ep }
unfolding disconnect_msg
disconnect_msg_lem card ep =
    ap (λ r. record ep { connected = false; released = r })
      (simp (give_back_lem, append_assoc) refl)

disconnect_msg-answer :
    (card : Card) (ep : CmEp) (r : List Handle)
    → (disconnect_msg card (record ep { connected = false; released = r })).0
      ≡ (disconnect_msg card ep).0
unfolding disconnect_msg
disconnect_msg-answer card ep r = refl

abbrev left : CmEp → CmEp
left ep = record ep { connected = false; released = ep.released ++ holds ep }

shut_lem : (r : Bool × CmEp) → shut r ≡ (if r.0 then success else err other, r.1)
shut_lem (true, ep) = refl
shut_lem (false, ep) = refl

dpa_shutdown_lem :
    (card : Card) (ep : CmEp)
    → ep.caps.msg ≡ true
    → dpa_shutdown card ep ≡ (if (disconnect_msg card ep).0 then success else err other, left ep)
unfolding dpa_shutdown
dpa_shutdown_lem card ep m =
    ap (λ b. if not b then (success, ep) else shut (disconnect_msg card ep)) m
    ∙ shut_lem (disconnect_msg card ep)
    ∙ ap (λ x. (if (disconnect_msg card ep).0 then success else err other, x))
        (disconnect_msg_lem card ep)

-- Shutting a message endpoint down twice: the second time does what the first did, with the same
-- answer, so every handle of the connection is given back to DPAlib twice, in the same order.
pub dpa_shutdown-dpa_shutdown :
    (card : Card) (ep : CmEp)
    → ep.caps.msg ≡ true
    → let (r1, ep1) = dpa_shutdown card ep in
      let (r2, ep2) = dpa_shutdown card ep1 in
      (r2 ≡ r1)
      × (ep1.connected ≡ false)
      × (ep1.released ≡ ep.released ++ holds ep)
      × (ep2.released ≡ ep1.released ++ holds ep)
dpa_shutdown-dpa_shutdown card ep m =
    rw
      (
        dpa_shutdown_lem card ep m,
        dpa_shutdown_lem card (left ep) m,
        disconnect_msg-answer card ep (ep.released ++ holds ep),
      )
      (refl, refl, refl, refl)
