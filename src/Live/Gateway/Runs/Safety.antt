-- ===== src/Live/Gateway/Runs/Safety.antt =====
-- services/live_trading/gateway.py: what holds of the requests handed to the adapter and of the
-- receipts, over all calls of a gateway.
use crypt_tool.Base.{ℕ, ◌≡◌, refl, sym, ◌∙◌, ap, subst, Option, none, some, List, [], ◌∷◌, ◌++◌}
use crypt_tool.Base.Results.{Result, ok}
use crypt_tool.Time.{aware}
use crypt_tool.Live.Orders.{Request, Ack}
use crypt_tool.Live.Gateway.{Config, Gateway, RiskDecision}
use crypt_tool.Live.Gateway.Place.{place_order}
use crypt_tool.Live.Gateway.Outcome.{receipt, Grows, Answers, Frame-Grows}
use crypt_tool.Live.Gateway.Runs.{
  Operation, place, run, perform, perform-Moves, known-replay, unknown-Outcome,
}
use crypt_tool.Live.Gateway.Outcome.Placed.{IsCleared}

-- A call of `place_order` among the operations handed the request to the adapter, for the decision
-- and the instant it was called with, in the state that the operations before it had left.
pub record WasSent {W : Type 0} (c : Config W) (g : Gateway W) (os : List (Operation W))
    (r : Request) : Type 0 where
  pub before : List (Operation W)
  pub after : List (Operation W)
  pub decision : RiskDecision
  pub now : ℕ
  pub split : os ≡ before ++ (place r decision (aware now) ∷ after)
  pub sent :
      let h = run c before g in (perform c (place r decision (aware now)) h).sent ≡ r ∷ h.sent
  pub cleared : IsCleared c (run c before g) r decision now

ok_injective : {a b : Ack} → ok a ≡ ok b → a ≡ b
ok_injective e = cc

answer-ok :
    {W : Type 0} (r : Request) (g h : Gateway W) {res : Result Ack} {a : Ack}
    → res ≡ ok a
    → Answers r g res h
    → receipt r.idempotency_key h ≡ some a
answer-ok r g h e p = subst (λ x. Answers r g x h) e p

module _ {W : Type 0} (c : Config W) where
  -- The call that handed the request to the adapter.
  abbrev Sends : Operation W → Gateway W → Gateway W → Request → Type 0
  Sends o g h r =
      (d : RiskDecision) × (now : ℕ) × (o ≡ place r d (aware now))
      × (h.sent ≡ r ∷ g.sent)
      × IsCleared c g r d now

  run-Grows : (os : List (Operation W)) (g : Gateway W) → Grows g (run c os g)
  unfolding run
  run-Grows [] g k a e = e
  run-Grows (o ∷ os) g k a e = run-Grows os (perform c o g) k a ((perform-Moves c o g).grows k a e)

  -- The receipt of an order that was placed answers its key for good.
  placed_receipt :
      (r : Request) (d : RiskDecision) (now : ℕ) (g : Gateway W) (a : Ack)
      → (place_order c r d (aware now) g).0 ≡ ok a
      → receipt r.idempotency_key (place_order c r d (aware now) g).1 ≡ some a
  placed_receipt r d now g a e = known_or_new (receipt r.idempotency_key g) refl
    where
      known_or_new :
          (o : Option Ack)
          → receipt r.idempotency_key g ≡ o
          → receipt r.idempotency_key (place_order c r d (aware now) g).1 ≡ some a
      known_or_new none i =
          answer-ok r g (place_order c r d (aware now) g).1 e
            (unknown-Outcome c r d now g i).answers
      known_or_new (some b) i =
          let call = known-replay c r d now g b i in
          Frame-Grows call.1 _ a (i ∙ ap some (ok_injective (sym call.0 ∙ e)))

  -- Once placing an order returned a receipt, whatever is called and happens then: placing any order
  -- with its idempotency key, at an instant in UTC, returns that receipt and hands nothing to the
  -- adapter.
  pub place_order-replays :
      (r later : Request) (d e : RiskDecision) (now at : ℕ) (g : Gateway W) (a : Ack)
      (os : List (Operation W))
      → (place_order c r d (aware now) g).0 ≡ ok a
      → later.idempotency_key ≡ r.idempotency_key
      → let h = run c os (place_order c r d (aware now) g).1 in
        let call = place_order c later e (aware at) h in (call.0 ≡ ok a) × (call.1.sent ≡ h.sent)
  place_order-replays r later d e now at g a os i k =
      let h = run c os (place_order c r d (aware now) g).1 in
      let known =
        run-Grows os (place_order c r d (aware now) g).1 r.idempotency_key a
          (placed_receipt r d now g a i) in
      let call =
        known-replay c later e at h a (subst (λ key. receipt key h ≡ some a) (sym k) known) in
      (call.0, call.1.unsent)
