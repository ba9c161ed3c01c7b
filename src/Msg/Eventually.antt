-- ===== src/Msg/Eventually.antt =====
-- Two connected endpoints, any run of their calls, and then both making progress.
use libfabric_provider_dpa.Prelude.{
  ℕ, ◌+◌, ◌^◌, ◌<◌, ◌≤◌, ◌≡◌, ◌∙◌, refl, sym, ap, subst, List, [], ◌∷◌, ◌++◌, some, arith, length,
}
use mathlib.Core.List.{append-nil, append_assoc}
use mathlib.Core.Option.{some-injective}
use libfabric_provider_dpa.Msg.Keeps.{Keeps, receives_of, call-Keeps}
use libfabric_provider_dpa.Msg.Queues.{All, delivered}
use libfabric_provider_dpa.Msg.Kept.{receives}
use libfabric_provider_dpa.Msg.Calls.{Op, System, calls, posted}
use libfabric_provider_dpa.Msg.Delivery.{IsFair, call-InOrder, posted-cons}
use libfabric_provider_dpa.Msg.Rounds.{Ready, rounds, calls-cons, rounds-deliver}

abbrev pub receives_in : List Op → ℕ
receives_in [] = 0
receives_in (op ∷ ops) = receives_of op + receives_in ops

module _ (cap : ℕ) (cap_small : cap < 2 ^ 63) where
  -- A run that comes to an end, with both sides ready and `n` receives posted.
  record RanOn (ops : List Op) (sys : System) (all : List (List ℕ)) (n : ℕ) : Type 0 where
    final : System
    returns : (more : List Op) → calls (ops ++ more) sys ≡ calls more final
    ready : Ready cap cap_small final (all ++ posted ops)
    posted_too : receives final.receiver ≡ receives sys.receiver + n

  calls-RanOn :
      (ops : List Op) (sys : System) (all : List (List ℕ))
      → All (IsFair cap cap_small) ops
      → Ready cap cap_small sys all
      → RanOn ops sys all (receives_in ops)
  calls-RanOn [] sys all fair r = record {
    final = sys;
    returns = λ more. refl;
    ready = subst (Ready cap cap_small sys) (sym (append-nil all)) r;
    posted_too = omega arith;
  }
  calls-RanOn (op ∷ ops) sys all fair r =
      let first = call-InOrder cap cap_small op sys all fair.0 r.in_order in
      let kept = call-Keeps op sys r.in_order.sends.no_lock r.in_order.no_lock in
      let k : Keeps (receives_of op) sys first.final =
        subst (Keeps (receives_of op) sys)
          (some-injective kept.0 first.final (sym kept.1 ∙ first.returns)) kept.2 in
      let rest = calls-RanOn ops first.final (all ++ posted (op ∷ [])) fair.1 (record {
        in_order = first.in_order;
        sends_on = k.sends_on ∙ r.sends_on;
        receives_on = k.receives_on ∙ r.receives_on;
        room = omega (arith, r.room, k.size);
      }) in
      record {
        final = rest.final;
        returns = λ more.
            calls-cons cap cap_small op (ops ++ more) sys first.final first.returns
            ∙ rest.returns more;
        ready =
            subst (Ready cap cap_small rest.final)
              (append_assoc all (posted (op ∷ [])) (posted ops)
                ∙ ap (λ ms. all ++ ms) (posted-cons cap cap_small op ops))
              rest.ready;
        posted_too = omega (arith, rest.posted_too, k.posted);
      }

  -- Every message that is posted arrives. From two connected endpoints that are in order and need
  -- no locks, with room in the message buffer for a message of `cap` bytes: after any run of posts
  -- and progress calls with messages of 1 to `cap` bytes and receives of at least `cap` bytes, in
  -- which, with those before, as many receives are posted as messages, let both sides make
  -- progress in turn, once for each message. All these calls return, never held up by a lock, and
  -- the bytes delivered are then those of all the messages posted, in the order of their posting.
  pub every_message-delivered :
      (ops : List Op) (sys : System) (all : List (List ℕ))
      → All (IsFair cap cap_small) ops
      → Ready cap cap_small sys all
      → length (all ++ posted ops) ≤ receives sys.receiver + receives_in ops
      → (final : System) × (calls (ops ++ rounds (length (all ++ posted ops))) sys ≡ some final)
        × (delivered final.receiver.filled ≡ all ++ posted ops)
  every_message-delivered ops sys all fair r enough =
      let ran = calls-RanOn ops sys all fair r in
      let n = length (all ++ posted ops) in
      let done =
        rounds-deliver cap cap_small n ran.final (all ++ posted ops)
          (record { ready = ran.ready; enough = omega (arith, enough, ran.posted_too) })
          (omega arith) in
      (done.0, ran.returns (rounds n) ∙ done.1, done.2)
