-- ===== src/Cm/Exchange.antt =====
-- A handshake as the exchange of data between two nodes: who gets what was sent, and the steps in
-- their order.
use libfabric_provider_dpa.Prelude.{
  ℕ, ◌≡◌, ◌≢◌, ◌==◌, ◌&&◌, if◌then◌else◌, refl, true, List, [], ◌∷◌, ◌++◌, Option, none, some,
  arith,
}
use libfabric_provider_dpa.Fabric.{Ret}
use libfabric_provider_dpa.Av.{Addr}
use libfabric_provider_dpa.Buffers.{BufferInfo}
use libfabric_provider_dpa.Connect.{SegmentData, Card, CmEp, wants_send_interrupt}
use libfabric_provider_dpa.Cm.{
  remove_interrupt, Pep, dpa_accept, dpa_connect, connection_request, progress_pep_eq,
  progress_ep_eq,
}
use libfabric_provider_dpa.Cm.Steps.{IsFresh}

infixl 5 ◌>>=◌
abbrev ◌>>=◌ : {A B : Type 0} → Option A → (A → Option B) → Option B
none >>= f = none
some a >>= f = f a

abbrev pub last {ℓ} : {A : Type ℓ} → List A → Option A
last [] = none
last (x ∷ []) = some x
last (x ∷ y ∷ xs) = last (y ∷ xs)

last-append {ℓ} : {A : Type ℓ} (xs : List A) (x : A) → last (xs ++ (x ∷ [])) ≡ some x
last-append [] x = refl
last-append (y ∷ []) x = refl
last-append (y ∷ z ∷ xs) x = last-append (z ∷ xs) x

-- The last data that a side has sent reaches an interrupt of a node only if it was sent to that
-- number on that node; a wait on the interrupt of any other address times out.
abbrev pub arrives : ℕ → Option ℕ → Option (Addr × SegmentData) → Option SegmentData
arrives node id none = none
arrives node none (some (to, d)) = none
arrives node (some id) (some (to, d)) =
    if to.node_id == node && to.connect_id == id then some d else none

abbrev pub received : ℕ → Option ℕ → CmEp → Option SegmentData
received node id sender = arrives node id (last sender.sent_data)

-- The two nodes: their numbers and cards, the buffers that `get_empty_buffer` answers, and the time
-- to wait for data.
pub record Nodes : Type 0 where
  pub active_card : Card
  pub passive_card : Card
  pub active_node : ℕ
  pub passive_node : ℕ
  pub active_buffer : BufferInfo
  pub passive_buffer : BufferInfo
  pub timeout : ℕ

-- The active endpoint connects; the passive one is opened with the address in the FI_CONNREQ event
-- and accepts; then either side waits on its own interrupt for the data of the other.
unfoldable pub handshake : Nodes → CmEp → CmEp → Pep → Option (CmEp × CmEp)
handshake n active passive pep = do
  let active1 = (dpa_connect n.active_card n.active_node active).1
  let asks = received n.passive_node pep.listens_on active1
  let pep1 = (progress_pep_eq asks n.timeout pep).1
  asked ← last pep1.requests
  accepted ←
      dpa_accept n.passive_card n.passive_node (some n.passive_buffer)
        (record passive { peer_addr = asked })
  let answer = received n.active_node active1.own_interrupt accepted.1
  active2 ← progress_ep_eq n.active_card (some n.active_buffer) answer n.timeout active1
  let reply = received n.passive_node accepted.1.own_interrupt active2.1
  passive2 ← progress_ep_eq n.passive_card none reply n.timeout accepted.1
  some (active2.1, passive2.1)

-- The passive endpoint once the application has opened it with the peer's address.
pub IsFresh-peer : (ep : CmEp) (a : Addr) → IsFresh ep → IsFresh (record ep { peer_addr = a })
unfolding wants_send_interrupt
IsFresh-peer ep a f = record {
  receives = f.receives;
  sends = f.sends;
  eq_bound = f.eq_bound;
  no_buffer_yet = f.no_buffer_yet;
  reads_no_null = f.reads_no_null;
}

pub IsFresh-connecting :
    (ep : CmEp) (id : ℕ) (sent : List (Addr × SegmentData))
    → IsFresh ep
    → IsFresh (record ep { own_interrupt = some id; polls = true; sent_data = sent })
unfolding wants_send_interrupt
IsFresh-connecting ep id sent f = record {
  receives = f.receives;
  sends = f.sends;
  eq_bound = f.eq_bound;
  no_buffer_yet = f.no_buffer_yet;
  reads_no_null = f.reads_no_null;
}

pub received-append :
    (node id : ℕ) (ep : CmEp) (sent : List (Addr × SegmentData)) (to : Addr) (d : SegmentData)
    → ep.sent_data ≡ sent ++ ((to, d) ∷ [])
    → to.node_id ≡ node
    → to.connect_id ≡ id
    → received node (some id) ep ≡ some d
received-append node id ep sent to d e on_node on_id =
    rw (e, last-append sent (to, d)) (ground (arith, on_node, on_id))

-- Data for another interrupt does not arrive.
pub received-other :
    (node id : ℕ) (ep : CmEp) (sent : List (Addr × SegmentData)) (to : Addr) (d : SegmentData)
    → ep.sent_data ≡ sent ++ ((to, d) ∷ [])
    → to.connect_id ≢ id
    → received node (some id) ep ≡ none
received-other node id ep sent to d e ne = rw (e, last-append sent (to, d)) (ground (arith, ne))

pub remove_interrupt-kept :
    (card : Card) (ep : CmEp)
    → ((remove_interrupt card ep).sent_data ≡ ep.sent_data)
      × ((remove_interrupt card ep).peer_addr ≡ ep.peer_addr)
remove_interrupt-kept card ep = ground arith

-- A handshake, from its steps; the last one may get no data.
pub handshake-steps :
    (n : Nodes) (active active1 active3 passive passive2 passive4 : CmEp) (pep : Pep)
    (d1 d2 : SegmentData) (reply : Option SegmentData) (r1 r2 : Ret) (left : ℕ)
    → dpa_connect n.active_card n.active_node active ≡ (r1, active1)
    → received n.passive_node pep.listens_on active1 ≡ some d1
    → dpa_accept n.passive_card n.passive_node (some n.passive_buffer) (record passive {
      peer_addr = record { node_id = d1.node_id; connect_id = d1.accept_int_id };
    })
      ≡ some (r2, passive2)
    → received n.active_node active1.own_interrupt passive2 ≡ some d2
    → progress_ep_eq n.active_card (some n.active_buffer) (some d2) n.timeout active1
      ≡ some (n.timeout, active3)
    → received n.passive_node passive2.own_interrupt active3 ≡ reply
    → progress_ep_eq n.passive_card none reply n.timeout passive2 ≡ some (left, passive4)
    → handshake n active passive pep ≡ some (active3, passive4)
unfolding handshake progress_pep_eq connection_request
handshake-steps n active active1 active3 passive passive2 passive4 pep d1 d2 reply r1 r2 left e1 l1
      e2 l2 e3 l3 e4 =
    let asked : Addr = record { node_id = d1.node_id; connect_id = d1.accept_int_id } in
    rw (e1, l1, last-append pep.requests asked, e2, l2, e3, l3, e4) refl
