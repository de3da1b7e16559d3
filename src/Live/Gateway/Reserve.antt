-- ===== src/Live/Gateway/Reserve.antt =====
-- services/live_trading/gateway.py: the binding of a signal while an order is placed:
-- `_reserve_preflight`, `_abort_preflight`, `_record_preflight_ack`,
-- `_mark_reconciliation_required`, `_record_position_snapshot` and `halt_binding`.
use crypt_tool.Base.{
  ℕ, ◌+◌, Bool, true, false, ◌&&◌, ◌||◌, not, String, str_eq, Option, none, some, is_some,
  if◌then◌else◌,
}
use crypt_tool.Base.Results.{Result, ok, err, value_error}
use crypt_tool.Time.{Timestamp, utc, aware}
use crypt_tool.Decimal.{Decimal}
use crypt_tool.Live.Bindings.{
  State, unbound, reserved, first_leg_accepted, second_leg_submitted, hedging_required,
  reconciliation_required, completed, aborted, halted, PositionSnapshot, new_snapshot, Binding,
  new_binding,
}
use crypt_tool.Live.Orders.{
  Request, RecoveryAction, alternate_hedge, partial_hedge, first_leg_unwind, Ack, is_accepted,
}
use crypt_tool.Live.Gateway.{
  Call, ◌>>=◌, ◌>>◌, pure, raise, current_binding, cas, transition, as_it_is,
}

abbrev pub is_role : Option String → String → Bool
is_role none role = false
is_role (some r) role = str_eq r role

abbrev pub is_unbound : State → Bool
is_unbound unbound = true
is_unbound _ = false

abbrev pub is_aborted : State → Bool
is_aborted aborted = true
is_aborted _ = false

unfoldable pub action_allowed : Bool → Bool → Option RecoveryAction → Bool
action_allowed opposite reduce_only none = opposite
action_allowed opposite reduce_only (some alternate_hedge) = opposite
action_allowed opposite reduce_only (some partial_hedge) = opposite
action_allowed opposite reduce_only (some first_leg_unwind) = reduce_only && not opposite

-- `_hedging_operation_allowed`
unfoldable pub hedging_operation_allowed : Binding → Request → Bool
hedging_operation_allowed b r =
    action_allowed (not (is_role b.first_leg_role r.order_leg_role)) r.reduce_only
      r.preflight_recovery_action

-- A fresh reservation; that of an aborted binding goes on from its version.
abbrev pub reservation : Binding → Request → ℕ → Binding
reservation current r now =
    new_binding r.signal_id r.cross_venue_preflight.preflight_hash reserved now

abbrev pub renewed : Binding → Binding → Binding
renewed current b =
    if is_aborted current.state
    then record b { version = current.version + 1; created_at = current.created_at }
    else b

-- The binding with the second leg's order.
abbrev pub second_leg : Binding → Request → ℕ → Binding
second_leg current r now = record current {
  state = second_leg_submitted;
  second_order_request_id = some r.request_id;
  version = current.version + 1;
  updated_at = some now;
  failure_reason = none;
}

-- `current.preflight_hash != preflight_hash`
abbrev pub hash_differs : Binding → Request → Bool
hash_differs b r = not (is_role b.preflight_hash r.cross_venue_preflight.preflight_hash)

abbrev pub conflict_text : String
conflict_text = "preflight binding CAS conflict"

abbrev pub is_second_submitted : State → Bool
is_second_submitted second_leg_submitted = true
is_second_submitted _ = false

abbrev pub with_second_id : Option String → Binding → Binding
with_second_id external b = record b { second_external_order_id = external }

abbrev pub with_first_leg : String → String → Option String → Binding → Binding
with_first_leg role request_id external b = record b {
  first_leg_role = some role;
  first_order_request_id = some request_id;
  first_external_order_id = external;
}

abbrev pub with_first_request : String → Binding → Binding
with_first_request request_id b = record b { first_order_request_id = some request_id }

abbrev pub with_second_request : String → Binding → Binding
with_second_request request_id b = record b { second_order_request_id = some request_id }

abbrev pub with_snapshot : PositionSnapshot → Binding → Binding
with_snapshot s b = record b { position_snapshot = some s }

-- `state in {HEDGING_REQUIRED, RECONCILIATION_REQUIRED}`
abbrev pub needs_recovery : State → Bool
needs_recovery hedging_required = true
needs_recovery reconciliation_required = true
needs_recovery _ = false

module _ {W : Type 0} where
  abbrev pub reserve_as : Binding → Binding → Call W (Option String)
  reserve_as current b = do done ← cas current b; pure (if done then none else some conflict_text)

  unfoldable pub reserve_free : Binding → Request → ℕ → Call W (Option String)
  reserve_free current r now =
      if is_some r.preflight_recovery_action
      then pure (some "recovery action is invalid without unmatched exposure")
      else reserve_as current (renewed current (reservation current r now))

  unfoldable pub reserve_second : Binding → Request → ℕ → Call W (Option String)
  reserve_second current r now =
      if is_role current.first_leg_role r.order_leg_role
      then pure (some "cross-venue second order must use the opposite leg role")
      else if is_some r.preflight_recovery_action
      then pure (some "recovery action is invalid before a hedge failure")
      else reserve_as current (second_leg current r now)

  unfoldable pub reserve_hedge : Binding → Request → ℕ → Call W (Option String)
  reserve_hedge current r now =
      if hedging_operation_allowed current r
      then reserve_as current (second_leg current r now)
      else pure (some "hedging-required binding only permits retry, hedge, unwind, or manual halt")

  -- The branches over the state of a binding, which has the preflight of the request.
  unfoldable pub reserve_bound : State → Binding → Request → ℕ → Call W (Option String)
  unfolding reserve_second reserve_hedge
  reserve_bound first_leg_accepted current r now = reserve_second current r now
  reserve_bound hedging_required current r now = reserve_hedge current r now
  reserve_bound completed current r now =
      pure (some "cross-venue preflight binding is already completed")
  reserve_bound reconciliation_required current r now =
      pure (some "cross-venue preflight binding requires reconciliation")
  reserve_bound halted current r now = pure (some "cross-venue preflight binding is halted")
  reserve_bound reserved current r now = pure (some "cross-venue preflight binding is reserved")
  reserve_bound second_leg_submitted current r now =
      pure (some "cross-venue preflight binding is second_leg_submitted")
  reserve_bound unbound current r now = pure (some "cross-venue preflight binding is unbound")
  reserve_bound aborted current r now = pure (some "cross-venue preflight binding is aborted")

  unfoldable pub reserve_current : Binding → Request → ℕ → Call W (Option String)
  unfolding reserve_free reserve_bound
  reserve_current current r now =
      if is_unbound current.state || is_aborted current.state
      then reserve_free current r now
      else if hash_differs current r
      then pure (some "cross-venue orders use different preflight hashes")
      else reserve_bound current.state current r now

  unfoldable pub reserve_preflight : Request → ℕ → Call W (Option String)
  unfolding reserve_current
  reserve_preflight r now = do current ← current_binding r.signal_id; reserve_current current r now

  unfoldable pub abort_preflight : Request → ℕ → String → Call W (Unit {0})
  abort_preflight r now failure_reason = do
    current ← current_binding r.signal_id
    transition current aborted now (some failure_reason) as_it_is

  unfoldable pub ack_transition : Binding → Request → Ack → ℕ → Call W (Unit {0})
  ack_transition current r a now =
      if not (is_accepted a.state)
      then transition current
          (if is_second_submitted current.state then hedging_required else aborted) now
          (some a.reason) as_it_is
      else if is_second_submitted current.state
      then transition current completed now none (with_second_id a.external_order_id)
      else transition current first_leg_accepted now none
          (with_first_leg r.order_leg_role r.request_id a.external_order_id)

  unfoldable pub record_preflight_ack : Request → Ack → ℕ → Call W (Unit {0})
  unfolding ack_transition
  record_preflight_ack r a now = do
    current ← current_binding r.signal_id
    ack_transition current r a now

  unfoldable pub mark_transition : State → Binding → Request → ℕ → String → Call W (Unit {0})
  mark_transition reserved current r now reason =
      transition current reconciliation_required now (some reason) (with_first_request r.request_id)
  mark_transition second_leg_submitted current r now reason =
      transition current reconciliation_required now (some reason)
        (with_second_request r.request_id)
  mark_transition _ current r now reason = pure tt

  unfoldable pub mark_reconciliation_required : Request → ℕ → String → Call W (Unit {0})
  unfolding mark_transition
  mark_reconciliation_required r now reason = do
    current ← current_binding r.signal_id
    mark_transition current.state current r now reason

  -- A result that was computed, as a call.
  abbrev pub lift : {A : Type 0} → Result A → Call W A
  lift (ok a) = pure a
  lift (err e) = raise e

  unfoldable pub record_position_snapshot : Request → ℕ → Decimal → Call W (Unit {0})
  record_position_snapshot r now quantity_before = do
    current ← current_binding r.signal_id
    s ← lift (new_snapshot r.exchange r.symbol quantity_before (aware now))
    transition current current.state now none (with_snapshot s)

  unfoldable pub halt_binding : String → String → Timestamp → Call W Binding
  halt_binding signal_id reason timestamp = do
    current ← current_binding signal_id
    if needs_recovery current.state
        then pure tt
        else raise (value_error "only recovery-required bindings may be halted")
    now ← lift (utc timestamp)
    transition current halted now (some reason) as_it_is
    current_binding signal_id
