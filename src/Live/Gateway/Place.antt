-- ===== src/Live/Gateway/Place.antt =====
-- services/live_trading/gateway.py: `place_order` and the other calls of the gateway.
use crypt_tool.Base.{
  ℕ, Bool, true, false, ◌&&◌, ◌||◌, not, String, str_eq, Option, none, some, List, [], ◌∷◌, ◌++◌,
  leb, length, if◌then◌else◌,
}
use crypt_tool.Base.Dict
use crypt_tool.Base.Results.{
  Exception, value_error, duplicate_fill_error, key_error, runtime_error, index_error,
  execution_adapter_error, other_error,
}
use crypt_tool.Time.{Timestamp, utc}
use crypt_tool.Decimal.{Decimal, zero_dec, lt, eq, abs}
use crypt_tool.Execution.Orders.{is_buy}
use crypt_tool.Risk.Models.{Sizing}
use crypt_tool.Live.Bindings.{State, first_leg_accepted, completed}
use crypt_tool.Live.Orders.{Request, Ack, is_accepted}
use crypt_tool.Live.Exchange.{LivePosition}
use crypt_tool.Live.Gateway.{
  Config, RiskDecision, Gateway, Call, ◌>>=◌, ◌>>◌, pure, raise, catch, modify, gets, await,
  type_name, audit, reject_and_remember, remember, details_of, current_binding,
}
use crypt_tool.Live.Gateway.Validation.{Verdict, passed, refused}
use crypt_tool.Live.Gateway.Validation.Orders.{RiskTerms, validate_request}
use crypt_tool.Live.Gateway.Reserve.{
  reserve_preflight, abort_preflight, record_preflight_ack, mark_reconciliation_required,
  record_position_snapshot, conflict_text, lift,
}
use crypt_tool.Live.Gateway.Snapshot.{ExchangeSnapshot}
use crypt_tool.Live.Gateway.Reconcile.{refresh, handle_cas_snapshot}

-- How a part of `place_order` ends: it returned a receipt, or it goes on.
pub data Progress : Type 0 where
  returned : Ack → Progress
  goes_on : Progress

-- The position of the request's instrument, the first one.
unfoldable pub position_of : Request → List LivePosition → Option LivePosition
position_of r [] = none
position_of r (p ∷ ps) =
    if str_eq p.exchange r.exchange && str_eq p.symbol r.symbol then some p else position_of r ps

abbrev pub quantity_or_zero : Option LivePosition → Decimal
quantity_or_zero none = zero_dec
quantity_or_zero (some p) = p.quantity

-- `closes_long or closes_short`
unfoldable pub closes : Request → Decimal → Bool
closes r q = lt zero_dec q && not (is_buy r.side) || lt q zero_dec && is_buy r.side

-- The reasons why a reduce-only order is refused: for the binding and for the receipt.
unfoldable pub reduce_only_failure : Request → Option LivePosition → Option (String × String)
reduce_only_failure r none =
    some ("reduce-only position is absent", "reduce-only order has no open position")
reduce_only_failure r (some p) =
    if eq p.quantity zero_dec
    then some ("reduce-only position is absent", "reduce-only order has no open position")
    else if not (closes r p.quantity)
    then some ("reduce-only side increases exposure", "reduce-only side would increase exposure")
    else if lt (abs p.quantity) r.quantity
    then some ("reduce-only quantity is excessive", "reduce-only quantity exceeds open position")
    else none

abbrev pub quantity_of : Option Sizing → Option Decimal
quantity_of none = none
quantity_of (some s) = some s.quantity

abbrev pub terms_of : Request → RiskDecision → RiskTerms
terms_of r d = record {
  risk_allowed = d.decision.allowed || r.reduce_only;
  risk_evaluated_at = d.decision.evaluated_at;
  preview = false;
  risk_decision_id = some d.decision_id;
  maximum_risk_quantity = quantity_of d.decision.sizing;
}

module _ {W : Type 0} (c : Config W) where
  -- return self._reject_and_remember(...), inside the `try`.
  abbrev give_up : Request → ℕ → String → Call W Progress
  give_up r now reason = do a ← reject_and_remember c r now reason; pure (returned a)

  abbrev failed_text : String
  failed_text = "execution adapter failed; details retained internally"

  -- The end of the `except`: the audit, and the exception that is raised instead.
  unfoldable pub adapter_failed : {A : Type 0} → Request → ℕ → Exception → Call W A
  adapter_failed r now e = do
    audit c now "adapter_error" (some r.request_id) false (type_name e) []
    raise (execution_adapter_error failed_text)

  -- After a conflict the exchange is read, and the order may be placed once more by `again`.
  unfoldable pub retry_conflict :
      Call W Ack → Request → ℕ → Option ExchangeSnapshot → Call W Progress
  retry_conflict again r now none =
      give_up r now "preflight binding CAS conflict and exchange refresh failed"
  retry_conflict again r now (some s) = do
    retry ← handle_cas_snapshot r s now
    if retry
        then (again >>= λ a. pure (returned a))
        else give_up r now "preflight binding CAS conflict requires reconciliation"

  unfoldable pub on_failure : Option (Call W Ack) → Request → ℕ → String → Call W Progress
  on_failure none r now reason = give_up r now reason
  on_failure (some again) r now reason =
      if str_eq reason conflict_text
      then catch (refresh c r now >>= λ s. pure (some s)) (λ e. pure none)
        >>= retry_conflict again r now
      else give_up r now reason

  abbrev pub after_reserve : Option (Call W Ack) → Request → ℕ → Option String → Call W Progress
  after_reserve again r now none = pure goes_on
  after_reserve again r now (some reason) = on_failure again r now reason

  -- Up to the reservation.
  unfoldable pub reserve_phase : Option (Call W Ack) → Request → ℕ → Call W Progress
  reserve_phase again r now = do
    healthy ← await c.adapter.health_check
    if healthy
        then reserve_preflight r now >>= after_reserve again r now
        else give_up r now "adapter health check failed"

  -- The binding is aborted, and the order refused.
  unfoldable pub abort_and_reject : Request → ℕ → String × String → Call W Progress
  abort_and_reject r now (for_binding, for_receipt) = do
    abort_preflight r now for_binding
    give_up r now for_receipt

  abbrev pub reduce_only_phase : Request → ℕ → Option (String × String) → Call W Progress
  reduce_only_phase r now none = pure goes_on
  reduce_only_phase r now (some reasons) = abort_and_reject r now reasons

  unfoldable pub position_phase : Request → ℕ → Call W Progress
  position_phase r now = do
    positions ← await c.adapter.fetch_positions
    let position = position_of r positions
    record_position_snapshot r now (quantity_or_zero position)
    reduce_only_phase r now (if r.reduce_only then reduce_only_failure r position else none)

  -- From the reservation to the submission.
  unfoldable pub check_phase : Request → ℕ → Call W Progress
  check_phase r now = do
    open_orders ← await (c.adapter.fetch_open_orders none)
    if leb c.settings.maximum_open_orders (length open_orders)
        then abort_and_reject r now
            ("maximum open order count reached", "maximum open order count reached")
        else position_phase r now

  -- `await self.adapter.place_order(request)`, recorded.
  unfoldable pub submit : Request → Call W Ack
  submit r = do
    modify (λ (g : Gateway W). record g { sent = r ∷ g.sent })
    await (c.adapter.place_order r)

  abbrev is_settled : State → Bool
  is_settled first_leg_accepted = true
  is_settled completed = true
  is_settled _ = false

  -- The acknowledgement could not be written: the exchange is read, and the error raised again
  -- unless the binding was settled by that.
  unfoldable pub recover_ack : Request → ℕ → Exception → Call W (Unit {0})
  recover_ack r now e = do
    s ← refresh c r now
    retry ← handle_cas_snapshot r s now
    b ← current_binding r.signal_id
    if is_settled b.state then pure tt else raise e

  -- Only an `ExecutionAdapterError` is caught.
  abbrev pub on_ack_error : Request → ℕ → Exception → Call W (Unit {0})
  on_ack_error r now (execution_adapter_error m) = recover_ack r now (execution_adapter_error m)
  on_ack_error r now (value_error m) = raise (value_error m)
  on_ack_error r now (duplicate_fill_error m) = raise (duplicate_fill_error m)
  on_ack_error r now (key_error m) = raise (key_error m)
  on_ack_error r now (runtime_error m) = raise (runtime_error m)
  on_ack_error r now (index_error m) = raise (index_error m)
  on_ack_error r now (other_error m) = raise (other_error m)

  abbrev external_detail : Option String → List (String × String)
  external_detail none = ("external_order_id", "") ∷ []
  external_detail (some id) = ("external_order_id", id) ∷ []

  abbrev pub stamp : ℕ → Gateway W → Gateway W
  stamp now g = record g { order_timestamps = g.order_timestamps ++ now ∷ [] }

  unfoldable pub acknowledge : Request → Ack → ℕ → Call W Ack
  acknowledge r a now = do
    catch (record_preflight_ack r a now) (on_ack_error r now)
    modify (remember c r a)
    modify (stamp now)
    audit c now "order_acknowledged" (some r.request_id) (is_accepted a.state) a.reason
        (external_detail a.external_order_id ++ details_of r)
    pure a

  unfoldable pub protocol_error : Request → ℕ → Call W Ack
  protocol_error r now = do
    mark_reconciliation_required r now "adapter request id mismatch"
    audit c now "adapter_protocol_error" (some r.request_id) false "request mismatch" []
    raise (execution_adapter_error "execution adapter returned a mismatched request id")

  unfoldable pub after_submission : Request → ℕ → Ack → Call W Ack
  after_submission r now a =
      if str_eq a.request_id r.request_id then acknowledge r a now else protocol_error r now

  abbrev pub aborting : Request → ℕ → Exception → Call W Progress
  aborting r now e = do abort_preflight r now (type_name e); adapter_failed r now e

  abbrev pub marking : Request → ℕ → Exception → Call W Ack
  marking r now e = do mark_reconciliation_required r now (type_name e); adapter_failed r now e

  unfoldable pub submission_phase : Request → ℕ → Progress → Call W Ack
  submission_phase r now (returned a) = pure a
  submission_phase r now goes_on = do a ← catch (submit r) (marking r now); after_submission r now a

  unfoldable pub reserved_phase : Request → ℕ → Progress → Call W Ack
  reserved_phase r now (returned a) = pure a
  reserved_phase r now goes_on = do
    p ← catch (check_phase r now) (aborting r now)
    submission_phase r now p

  unfoldable pub place_valid : Option (Call W Ack) → Request → ℕ → Verdict → Call W Ack
  place_valid again r now (refused reason) = reject_and_remember c r now reason
  place_valid again r now passed = do
    p ← catch (reserve_phase again r now) (adapter_failed r now)
    reserved_phase r now p

  unfoldable pub place_new : Option (Call W Ack) → Request → RiskDecision → ℕ → Call W Ack
  place_new again r d now = do
    verdict ← validate_request c r now (terms_of r d)
    place_valid again r now verdict

  unfoldable pub replay : Request → ℕ → Ack → Call W Ack
  replay r now a = do
    audit c now "idempotent_replay" (some r.request_id) (is_accepted a.state)
        "returned prior receipt without calling adapter" []
    pure a

  -- An order whose key has a receipt is answered by it.
  unfoldable pub place_unless_known :
      Option Ack → Option (Call W Ack) → Request → RiskDecision → ℕ → Call W Ack
  place_unless_known (some a) again r d now = replay r now a
  place_unless_known none again r d now = place_new again r d now

  abbrev receipt_of : Request → Gateway W → Option Ack
  receipt_of r g = Dict.get r.idempotency_key g.idempotent_receipts

  -- `_place_order_locked`, for the instant of a timestamp; `again` is the retry, if there is one.
  unfoldable pub place_locked : Option (Call W Ack) → Request → RiskDecision → ℕ → Call W Ack
  place_locked again r d now = do
    previous ← gets (receipt_of r)
    place_unless_known previous again r d now

  -- Under the lock; a conflict is tried again once.
  unfoldable pub place_order : Request → RiskDecision → Timestamp → Call W Ack
  place_order r d timestamp = do
    now ← lift (utc timestamp)
    place_locked (some (place_locked none r d now)) r d now
