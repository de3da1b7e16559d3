-- ===== src/Live/Orders.antt =====
-- domain/execution/live_models.py: what a live order is, what the exchange answers, and the audit.
-- Timestamps that the validators have passed are instants.
use crypt_tool.Base.{
  ℕ, Bool, true, false, ◌&&◌, ◌||◌, not, String, str_eq, Option, none, some, List, leb, is_some,
}
use crypt_tool.Base.Results.{Result, ok, refuse_if, ◌>>◌}
use crypt_tool.Decimal.{Decimal, zero_dec, le, mul}
use crypt_tool.Execution.Orders.{Side, OrderType, is_market, some_le_zero}
use crypt_tool.Live.Bindings.{Preflight}
use crypt_tool.Live.Evidence.{CrossVenueSignalEvidence, LegDataEvidence}

pub data OrderState : Type 0 where
  accepted rejected dry_run canceled : OrderState

abbrev pub is_accepted : OrderState → Bool
is_accepted accepted = true
is_accepted _ = false

pub data RecoveryAction : Type 0 where
  alternate_hedge partial_hedge first_leg_unwind : RecoveryAction

-- `LiveOrderRequest`.
pub record Request : Type 0 where
  pub request_id : String
  pub idempotency_key : String
  pub signal_id : String
  pub strategy_id : String
  pub strategy_version : String
  pub cross_venue_signal_evidence : CrossVenueSignalEvidence
  pub cross_venue_signal_hash : String
  pub order_leg_role : String
  pub order_leg_evidence : LegDataEvidence
  pub cross_venue_preflight : Preflight
  pub preflight_recovery_action : Option RecoveryAction
  pub required_capabilities : List String
  pub risk_decision_id : String
  pub model_version : String
  pub config_version : String
  pub exchange : String
  pub symbol : String
  pub side : Side
  pub quantity : Decimal
  pub reference_price : Decimal
  pub maximum_slippage_bps : Decimal
  pub order_type : OrderType
  pub limit_price : Option Decimal
  pub reduce_only : Bool
  pub created_at : ℕ
  pub expires_at : ℕ

-- `validate_order`, with the bounds of the amounts.
unfoldable pub check_request : Request → Result Request
check_request r = do
  refuse_if (le r.quantity zero_dec || le r.reference_price zero_dec || some_le_zero r.limit_price)
      "amounts must be positive"
  refuse_if (leb r.expires_at r.created_at) "live order expiry must follow creation"
  refuse_if (not (is_market r.order_type) && not (is_some r.limit_price))
      "limit live orders require limit_price"
  refuse_if (is_market r.order_type && is_some r.limit_price)
      "market live orders cannot specify limit_price"
  ok r

unfoldable pub reference_notional : Request → Decimal
reference_notional r = mul r.quantity r.reference_price

-- `ExecutionOrderAck`.
pub record Ack : Type 0 where
  pub request_id : String
  pub external_order_id : Option String
  pub state : OrderState
  pub accepted_at : ℕ
  pub reason : String
  pub adapter_called : Bool

-- `not external_order_id`
abbrev pub is_empty : Option String → Bool
is_empty none = true
is_empty (some s) = str_eq s ""

-- `accepted_orders_require_external_identity`
unfoldable pub check_ack : Ack → Result Ack
check_ack a = do
  refuse_if (is_accepted a.state && (not a.adapter_called || is_empty a.external_order_id))
      "accepted live orders require adapter_called and an external_order_id"
  refuse_if (not (is_accepted a.state) && is_some a.external_order_id && not a.adapter_called)
      "an external_order_id requires an adapter call"
  ok a

pub record CancelAck : Type 0 where
  pub external_order_id : String
  pub canceled : Bool
  pub timestamp : ℕ
  pub reason : String

-- `ExecutionAuditEvent`, less its random identifier.
pub record AuditEvent : Type 0 where
  pub timestamp : ℕ
  pub event_type : String
  pub request_id : Option String
  pub allowed : Bool
  pub reason : String
  pub model_version : String
  pub config_version : String
  pub details : List (String × String)
