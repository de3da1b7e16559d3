-- ===== src/Live/Gateway/Calls.antt =====
-- services/live_trading/gateway.py: the construction of the gateway, previews, cancellations, the
-- kill switch and the closing of positions.
use crypt_tool.Base.{
  ℕ, Bool, true, false, not, String, str_eq, Option, none, some, List, [], ◌∷◌, any, if◌then◌else◌,
}
use Prim.Native.String.{◌++◌ as str_append}
use crypt_tool.Base.Texts.{is_blank}
use crypt_tool.Base.Results.{
  Exception, message_of, value_error, runtime_error, execution_adapter_error, Result, ok, err,
  refuse_if,
}
use crypt_tool.Time.{Timestamp, utc}
use crypt_tool.Execution.Leg.{Machine}
use crypt_tool.Venues.Trusted.{Registry, require_live_verified}
use crypt_tool.Live.Preflight.{validate_preflight_integrity}
use crypt_tool.Live.Orders.{Request, Ack, dry_run, CancelAck}
use crypt_tool.Live.Exchange.{World}
use crypt_tool.Live.Gateway.{
  Config, Gateway, Call, ◌>>=◌, ◌>>◌, pure, raise, catch, modify, await, type_name, audit,
  rejection,
}
use crypt_tool.Live.Gateway.Validation.{Verdict, passed, refused}
use crypt_tool.Live.Gateway.Validation.Orders.{RiskTerms, validate_request}
use crypt_tool.Live.Gateway.Reserve.{lift}

-- The capabilities that reconciliation needs, in their order.
abbrev pub reconciliation_capabilities : List String
reconciliation_capabilities =
    "order_lookup_by_client_id" ∷ "recent_fills" ∷ "open_orders" ∷ "positions" ∷ []

unfoldable pub all_verified : Registry → String → ℕ → List String → Result (Unit {0})
all_verified rs venue now [] = ok tt
all_verified rs venue now (capability ∷ rest) =
    let others = all_verified rs venue now rest in
    elim (require_live_verified rs venue capability now) [
      | ok r ↦ others
      | err e ↦ err (
          value_error (
            str_append "reconciliation capability "
              (str_append capability (str_append " is not LIVE_VERIFIED: " (message_of e)))))
    ]

abbrev with_registry : Option Registry → String → ℕ → Result (Unit {0})
with_registry none venue now =
    err (value_error "live execution requires a trusted capability registry")
with_registry (some rs) venue now = all_verified rs venue now reconciliation_capabilities

module _ {W : Type 0} (c : Config W) where
  -- The methods that reconciliation calls are those of every adapter here.
  unfoldable pub validate_reconciliation_startup : ℕ → Result (Unit {0})
  validate_reconciliation_startup now =
      if c.adapter.is_concrete
      then with_registry c.trusted_capabilities c.adapter.adapter_name now
      else ok tt

  abbrev both : Result (Unit {0}) → Result (Unit {0}) → Result (Unit {0})
  both (ok u) rest = rest
  both (err e) rest = err e

  -- The tests of `__init__`; `durable` is that of the repository of the bindings.
  unfoldable pub check_construction : Bool → ℕ → Result (Unit {0})
  check_construction durable now =
      both
        (if c.settings.preflight.live_enabled
          then both
              (refuse_if (not durable)
                "live execution requires a durable preflight binding repository")
              (validate_reconciliation_startup now)
          else ok tt)
        (validate_preflight_integrity c.settings.preflight
          (record { adapter_name = c.adapter.adapter_name; is_concrete = c.adapter.is_concrete })
          c.preflight)

  abbrev pub fresh : Option Machine → World W → Gateway W
  fresh machine w = record {
    kill_switch_reason = none;
    audit_events = [];
    idempotent_receipts = [];
    order_timestamps = [];
    leg_execution_machine = machine;
    last_preflight_action = none;
    world = w;
    sent = [];
  }

  abbrev started : Gateway W → Result (Unit {0}) → Result (Gateway W)
  started g (ok u) = ok g
  started g (err e) = err e

  -- `__init__`.
  unfoldable pub new : Option Machine → World W → Bool → ℕ → Result (Gateway W)
  new machine w durable now = started (fresh machine w) (check_construction durable now)

  abbrev pub preview_terms : ℕ → RiskTerms
  preview_terms now = record {
    risk_allowed = true;
    risk_evaluated_at = now;
    preview = true;
    risk_decision_id = none;
    maximum_risk_quantity = none;
  }

  abbrev preview_receipt : Request → ℕ → Verdict → Ack
  preview_receipt r now (refused reason) = rejection r now reason
  preview_receipt r now passed = record {
    request_id = r.request_id;
    external_order_id = none;
    state = dry_run;
    accepted_at = now;
    reason = "dry-run preview accepted; adapter not called";
    adapter_called = false;
  }

  abbrev has_passed : Verdict → Bool
  has_passed passed = true
  has_passed (refused reason) = false

  unfoldable pub preview_order : Request → Timestamp → Call W Ack
  preview_order r timestamp = do
    now ← lift (utc timestamp)
    verdict ← validate_request c r now (preview_terms now)
    let a = preview_receipt r now verdict
    audit c now "order_preview" (some r.request_id) (has_passed verdict) a.reason []
    pure a

  abbrev require_approved : Call W (Unit {0})
  require_approved =
      if c.preflight.approved
      then pure tt
      else raise (runtime_error "live preflight is not approved")

  -- The audit of a call of the adapter that failed, and what is raised instead.
  unfoldable pub call_failed :
      {A : Type 0} → ℕ → String → Option String → String → Exception → Call W A
  call_failed now event_type id message e = do
    audit c now event_type id false (type_name e) []
    raise (execution_adapter_error message)

  unfoldable pub cancel_order : String → Timestamp → Call W CancelAck
  cancel_order id timestamp = do
    now ← lift (utc timestamp)
    require_approved
    a ←
        catch (await (c.adapter.cancel_order id))
          (call_failed now "cancel_error" (some id) "cancel failed; details retained internally")
    audit c now "order_canceled" (some id) a.canceled a.reason []
    pure a

  abbrev kill : String → Gateway W → Gateway W
  kill reason g = record g { kill_switch_reason = some reason }

  -- What follows once the kill switch is set.
  unfoldable pub cancel_all : ℕ → String → Call W (List CancelAck)
  cancel_all now reason = do
    audit c now "kill_switch" none false reason []
    if c.preflight.approved
        then catch (await c.adapter.cancel_all_orders) (
            call_failed now "cancel_all_error" none
              "cancel-all failed; manual intervention required")
        else pure []

  unfoldable pub activate_kill_switch : String → Timestamp → Call W (List CancelAck)
  activate_kill_switch reason timestamp = do
    now ← lift (utc timestamp)
    lift (refuse_if (is_blank reason) "kill-switch reason is required")
    modify (kill reason)
    cancel_all now reason

  unfoldable pub close_position : String → Timestamp → Call W Ack
  close_position symbol timestamp = do
    now ← lift (utc timestamp)
    require_approved
    lift (
        refuse_if (not (any (str_eq symbol) c.settings.allowed_symbols))
          "position symbol is not live-allowed")
    a ← catch (await (c.adapter.close_position symbol)) (
        call_failed now "close_error" (some symbol)
          "close-position failed; manual intervention required")
    audit c now "position_close" (some a.request_id) true a.reason []
    pure a
