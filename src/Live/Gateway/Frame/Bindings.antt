-- ===== src/Live/Gateway/Frame/Bindings.antt =====
-- services/live_trading/gateway.py: the writes of the bindings leave the rest alone.
use crypt_tool.Base.{ℕ, String}
use crypt_tool.Base.Results.{Result, ok, err}
use crypt_tool.Time.{Timestamp}
use crypt_tool.Decimal.{Decimal}
use crypt_tool.Live.Bindings.{
  State, reserved, first_leg_accepted, second_leg_submitted, hedging_required, Binding,
}
use crypt_tool.Live.Orders.{Request, Ack}
use crypt_tool.Live.Gateway.{Config}
use crypt_tool.Live.Gateway.Reserve.{
  reserve_preflight, reserve_current, reserve_free, reserve_second, reserve_hedge, reserve_bound,
  abort_preflight, record_preflight_ack, ack_transition, mark_reconciliation_required,
  mark_transition, record_position_snapshot, halt_binding, lift,
}
use crypt_tool.Live.Gateway.Frame.{Keeps, pure-Keeps, raise-Keeps, frame_rules}

module _ {W : Type 0} {c : Config W} where
  pub lift-Keeps : {A : Type 0} (r : Result A) → Keeps c (lift r)
  lift-Keeps (ok a) = pure-Keeps a
  lift-Keeps (err e) = raise-Keeps e

  reserve_free-Keeps : (b : Binding) (r : Request) (now : ℕ) → Keeps c (reserve_free b r now)
  unfolding reserve_free
  reserve_free-Keeps b r now = search frame_rules

  reserve_second-Keeps : (b : Binding) (r : Request) (now : ℕ) → Keeps c (reserve_second b r now)
  unfolding reserve_second
  reserve_second-Keeps b r now = search frame_rules

  reserve_hedge-Keeps : (b : Binding) (r : Request) (now : ℕ) → Keeps c (reserve_hedge b r now)
  unfolding reserve_hedge
  reserve_hedge-Keeps b r now = search frame_rules

  reserve_bound-Keeps :
      (s : State) (b : Binding) (r : Request) (now : ℕ) → Keeps c (reserve_bound s b r now)
  unfolding reserve_bound
  reserve_bound-Keeps first_leg_accepted b r now = reserve_second-Keeps b r now
  reserve_bound-Keeps hedging_required b r now = reserve_hedge-Keeps b r now
  reserve_bound-Keeps _ b r now = pure-Keeps _

  pub reserve_preflight-Keeps : (r : Request) (now : ℕ) → Keeps c (reserve_preflight r now)
  unfolding reserve_preflight reserve_current
  reserve_preflight-Keeps r now =
      search (frame_rules, reserve_free-Keeps, λ (b : Binding). reserve_bound-Keeps b.state b)

  pub abort_preflight-Keeps :
      (r : Request) (now : ℕ) (reason : String) → Keeps c (abort_preflight r now reason)
  unfolding abort_preflight
  abort_preflight-Keeps r now reason = search frame_rules

  pub record_preflight_ack-Keeps :
      (r : Request) (a : Ack) (now : ℕ) → Keeps c (record_preflight_ack r a now)
  unfolding record_preflight_ack ack_transition
  record_preflight_ack-Keeps r a now = search frame_rules

  mark_transition-Keeps :
      (s : State) (b : Binding) (r : Request) (now : ℕ) (reason : String)
      → Keeps c (mark_transition s b r now reason)
  unfolding mark_transition
  mark_transition-Keeps reserved b r now reason = search frame_rules
  mark_transition-Keeps second_leg_submitted b r now reason = search frame_rules
  mark_transition-Keeps _ b r now reason = pure-Keeps _

  pub mark_reconciliation_required-Keeps :
      (r : Request) (now : ℕ) (reason : String)
      → Keeps c (mark_reconciliation_required r now reason)
  unfolding mark_reconciliation_required
  mark_reconciliation_required-Keeps r now reason = search (frame_rules, mark_transition-Keeps)

  pub record_position_snapshot-Keeps :
      (r : Request) (now : ℕ) (q : Decimal) → Keeps c (record_position_snapshot r now q)
  unfolding record_position_snapshot
  record_position_snapshot-Keeps r now q = search (frame_rules, lift-Keeps)

  pub halt_binding-Keeps :
      (id reason : String) (at : Timestamp) → Keeps c (halt_binding id reason at)
  unfolding halt_binding
  halt_binding-Keeps id reason at = search (frame_rules, lift-Keeps)
