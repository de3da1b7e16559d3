-- ===== src/Live/Gateway/Runs.antt =====
-- services/live_trading/gateway.py: sequences of calls of a gateway, with changes of the exchange and
-- of the bindings between them, and of these and the kill switch while they are awaited.
pub mod Safety
use crypt_tool.Base.{
  ℕ, ◌≡◌, refl, sym, ◌∙◌, ap, subst, ◌⊎◌, inl, inr, Bool, true, false, not, String, str_eq, Option,
  none, some, List, [], ◌∷◌, if◌then◌else◌, eq_iff, arith, In,
}
use crypt_tool.Base.Texts.{is_blank, is_blank_empty}
use crypt_tool.Base.Results.{Exception, Result, ok, err, refuse_if}
use crypt_tool.Time.{Timestamp, aware, naive, utc}
use crypt_tool.Live.Orders.{Request, Ack, CancelAck}
use crypt_tool.Live.Exchange.{World, Adapter}
use crypt_tool.Live.Gateway.{
  Config, Gateway, Call, RiskDecision, ◌>>=◌, ◌>>◌, then_do, or_handle, pure, raise, catch, await,
  audit, modify,
}
use crypt_tool.Live.Gateway.Validation.Orders.{is_set, validate_request}
use crypt_tool.Live.Gateway.Reserve.{halt_binding, lift}
use crypt_tool.Live.Gateway.Reconcile.{reconcile_binding}
use crypt_tool.Live.Gateway.Place.{place_unless_known, replay, place_locked, place_order}
use crypt_tool.Live.Gateway.Calls.{
  preview_order, cancel_order, close_position, activate_kill_switch, cancel_all, fresh,
}
use crypt_tool.Live.Gateway.Worlds.{here}
use crypt_tool.Live.Gateway.Frame.{
  Frame, Frame-refl, Keeps, frame_rules, await-Keeps, catch-Keeps, raise-Keeps, pure-Keeps,
  >>=-Keeps, audit-Keeps, is_set_reason,
}
use crypt_tool.Live.Gateway.Frame.Calls.{preview-Keeps, cancel-Keeps, close-Keeps, cancel_all-Keeps}
use crypt_tool.Live.Gateway.Frame.Bindings.{lift-Keeps, halt_binding-Keeps}
use crypt_tool.Live.Gateway.Frame.Exchange.{reconcile_binding-Keeps}
use crypt_tool.Live.Gateway.Frame.Validation.{validate_request-Keeps}
use crypt_tool.Live.Gateway.Outcome.{receipt, Grows, Outcome, Sends, Frame-Grows}
use crypt_tool.Live.Gateway.Outcome.Rules.{IsNew}
use crypt_tool.Live.Gateway.Outcome.Placed.{IsCleared, locked-Places}

-- A call of the gateway, or a change made elsewhere while no call runs.
pub data Operation (W : Type 0) : Type 0 where
  place : Request → RiskDecision → Timestamp → Operation W
  preview : Request → Timestamp → Operation W
  cancel : String → Timestamp → Operation W
  kill : String → Timestamp → Operation W
  close : String → Timestamp → Operation W
  reconcile : Request → Timestamp → Operation W
  halt : String → String → Timestamp → Operation W
  elsewhere : World W → Operation W

module _ {W : Type 0} (c : Config W) where
  -- The state after a call, which returned or raised.
  unfoldable pub perform : Operation W → Gateway W → Gateway W
  perform (place r d at) g = (place_order c r d at g).1
  perform (preview r at) g = (preview_order c r at g).1
  perform (cancel id at) g = (cancel_order c id at g).1
  perform (kill reason at) g = (activate_kill_switch c reason at g).1
  perform (close symbol at) g = (close_position c symbol at g).1
  perform (reconcile r at) g = (reconcile_binding c r at g).1
  perform (halt id reason at) g = (halt_binding id reason at g).1
  perform (elsewhere w) g = record g { world = w }

  unfoldable pub run : List (Operation W) → Gateway W → Gateway W
  run [] g = g
  run (o ∷ os) g = run os (perform o g)

-- The call was one of `place_order`, and its request was handed to the adapter after it was cleared
-- for its decision and its instant.
pub record Sending {W : Type 0} (c : Config W) (o : Operation W) (g h : Gateway W) : Type 0 where
  pub request : Request
  pub decision : RiskDecision
  pub now : ℕ
  pub is : o ≡ place request decision (aware now)
  pub sent : h.sent ≡ request ∷ g.sent
  pub cleared : IsCleared c g request decision now

-- What a call may do: a set kill switch stays set, receipts stay, and nothing is handed to the
-- adapter except the request of a call of `place_order`.
pub record Moves {W : Type 0} (c : Config W) (o : Operation W) (g h : Gateway W) : Type 0 where
  pub killed : is_set g.kill_switch_reason ≡ true → is_set h.kill_switch_reason ≡ true
  pub grows : Grows g h
  pub sends : (h.sent ≡ g.sent) ⊎ Sending c o g h

module _ {W : Type 0} (c : Config W) where
  Frame-Moves : {o : Operation W} {g h : Gateway W} → Frame c g h → Moves c o g h
  Frame-Moves f = record { killed = f.killed; grows = Frame-Grows f; sends = inl f.unsent }

  Outcome-Moves :
      {g h : Gateway W} {res : Result Ack} (r : Request) (d : RiskDecision) (now : ℕ)
      → Outcome r (IsCleared c g r d now) g res h
      → Moves c (place r d (aware now)) g h
  Outcome-Moves r d now o = record {
    killed = o.killed;
    grows = o.grows;
    sends = elim o.sends [
      | inl e ↦ inl e
      | inr (e, p) ↦
          inr (record { request = r; decision = d; now = now; is = refl; sent = e; cleared = p })
    ];
  }

  replay-Keeps : (r : Request) (now : ℕ) (a : Ack) → Keeps c (replay c r now a)
  unfolding replay
  replay-Keeps r now a = >>=-Keeps (audit-Keeps c now _ _ _ _ _) (λ u. pure-Keeps a)

  replay_returns : (r : Request) (now : ℕ) (a : Ack) (g : Gateway W) → (replay c r now a g).0 ≡ ok a
  unfolding replay audit
  replay_returns r now a g = refl

  -- Placing an order whose key has a receipt returns the receipt, and sends nothing.
  pub known-replay :
      (r : Request) (d : RiskDecision) (now : ℕ) (g : Gateway W) (a : Ack)
      → receipt r.idempotency_key g ≡ some a
      → let call = place_order c r d (aware now) g in (call.0 ≡ ok a) × Frame c g call.1
  unfolding place_order place_locked place_unless_known utc
  known-replay r d now g a e =
      subst
        (λ o.
          let call = place_unless_known c o (some (place_locked c none r d now)) r d now g in
          (call.0 ≡ ok a) × Frame c g call.1)
        (sym e) (replay_returns r now a g, (replay-Keeps r now a).keeps g)

  pub unknown-Outcome :
      (r : Request) (d : RiskDecision) (now : ℕ) (g : Gateway W)
      → receipt r.idempotency_key g ≡ none
      → let call = place_order c r d (aware now) g in
        Outcome r (IsCleared c g r d now) g call.0 call.1
  unfolding place_order utc
  unknown-Outcome r d now g e =
      (locked-Places g r c d now).places g (record { killed = λ k. k; unknown = e; passes = here })

  place-Moves :
      (r : Request) (d : RiskDecision) (at : Timestamp) (g : Gateway W)
      → Moves c (place r d at) g (place_order c r d at g).1
  unfolding place_order utc
  place-Moves r d (naive t) g = Frame-Moves (Frame-refl g)
  place-Moves r d (aware now) g = known_or_not (receipt r.idempotency_key g) refl
    where
      known_or_not :
          (o : Option Ack)
          → receipt r.idempotency_key g ≡ o
          → Moves c (place r d (aware now)) g (place_order c r d (aware now) g).1
      known_or_not none e = Outcome-Moves r d now (unknown-Outcome r d now g e)
      known_or_not (some a) e = Frame-Moves (known-replay r d now g a e).1

  abbrev kill_unless : Bool → String → ℕ → Call W (List CancelAck)
  kill_unless blank reason now =
      lift (refuse_if blank "kill-switch reason is required")
      >> (modify (λ (h : Gateway W). record h { kill_switch_reason = some reason })
          >> cancel_all c now reason)

  -- A reason that is not blank sets the kill switch, whatever the adapter does then.
  pub kill-Frame :
      (reason : String) (now : ℕ) (g : Gateway W)
      → is_blank reason ≡ false
      → Frame c
          (record g { kill_switch_reason = some reason })
          (activate_kill_switch c reason (aware now) g).1
  unfolding activate_kill_switch utc
  kill-Frame reason now g e =
      subst
        (λ b.
          Frame c (record g { kill_switch_reason = some reason }) (kill_unless b reason now g).1)
        (sym e)
        ((cancel_all-Keeps c now reason).keeps (record g { kill_switch_reason = some reason }))

  blank-Frame :
      (reason : String) (now : ℕ) (g : Gateway W)
      → is_blank reason ≡ true
      → Frame c g (activate_kill_switch c reason (aware now) g).1
  unfolding activate_kill_switch utc
  blank-Frame reason now g e =
      subst (λ b. Frame c g (kill_unless b reason now g).1) (sym e) (Frame-refl g)

  killed-Moves :
      {o : Operation W} {h : Gateway W} (g : Gateway W) (reason : String)
      → is_blank reason ≡ false
      → Frame c (record g { kill_switch_reason = some reason }) h
      → Moves c o g h
  killed-Moves g reason e f = record {
    killed = λ k. f.killed (is_set_reason reason e);
    grows = λ k a i. Frame-Grows f k a i;
    sends = inl f.unsent;
  }

  kill-Moves :
      (reason : String) (at : Timestamp) (g : Gateway W)
      → Moves c (kill reason at) g (activate_kill_switch c reason at g).1
  unfolding activate_kill_switch utc
  kill-Moves reason (naive t) g = Frame-Moves (Frame-refl g)
  kill-Moves reason (aware now) g = blank_or_not (is_blank reason) refl
    where
      blank_or_not :
          (b : Bool)
          → is_blank reason ≡ b
          → Moves c (kill reason (aware now)) g (activate_kill_switch c reason (aware now) g).1
      blank_or_not true e = Frame-Moves (blank-Frame reason now g e)
      blank_or_not false e = killed-Moves g reason e (kill-Frame reason now g e)

  pub perform-Moves : (o : Operation W) (g : Gateway W) → Moves c o g (perform c o g)
  unfolding perform
  perform-Moves (place r d at) g = place-Moves r d at g
  perform-Moves (preview r at) g = Frame-Moves ((preview-Keeps c r at).keeps g)
  perform-Moves (cancel id at) g = Frame-Moves ((cancel-Keeps c id at).keeps g)
  perform-Moves (kill reason at) g = kill-Moves reason at g
  perform-Moves (close symbol at) g = Frame-Moves ((close-Keeps c symbol at).keeps g)
  perform-Moves (reconcile r at) g = Frame-Moves ((reconcile_binding-Keeps c r at).keeps g)
  perform-Moves (halt id reason at) g = Frame-Moves ((halt_binding-Keeps id reason at).keeps g)
  perform-Moves (elsewhere w) g = record { killed = λ k. k; grows = λ k a e. e; sends = inl refl }
