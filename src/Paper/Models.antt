-- ===== src/Paper/Models.antt =====
-- services/paper_trading/models.py: requests, quotes, orders, fills and positions.
-- Identifiers drawn from `uuid4` are numbers, in the order in which they are drawn.
use crypt_tool.Base.{ℕ, Bool, true, false, ◌&&◌, ◌||◌, not, String, Option, none, some, is_some}
use crypt_tool.Base.Int.{ℤ}
use crypt_tool.Base.Results.{Result, ok, refuse_if, ◌>>◌}
use crypt_tool.Decimal.{Decimal, zero_dec, one_dec, le, lt, sub}
use crypt_tool.Execution.Orders.{Side}

pub data OrderType : Type 0 where
  market limit : OrderType

abbrev pub is_limit : OrderType → Bool
is_limit market = false
is_limit limit = true

-- `working` is the source's OPEN, whose name is a keyword here.
pub data Status : Type 0 where
  working partially_filled filled canceled rejected : Status

-- {OPEN, PARTIALLY_FILLED}
abbrev pub is_working : Status → Bool
is_working working = true
is_working partially_filled = true
is_working _ = false

abbrev pub is_rejected : Status → Bool
is_rejected rejected = true
is_rejected _ = false

pub record Request : Type 0 where
  pub client_order_id : String
  pub symbol : String
  pub side : Side
  pub quantity : Decimal
  pub order_type : OrderType
  pub limit_price : Option Decimal

abbrev some_not_positive : Option Decimal → Bool
some_not_positive none = false
some_not_positive (some v) = le v zero_dec

-- The `gt=0` fields and `require_limit_price`; the lengths of the two identifiers are the caller's.
unfoldable pub check_request : Request → Result Request
check_request r = do
  refuse_if (le r.quantity zero_dec) "quantity must be greater than 0"
  refuse_if (some_not_positive r.limit_price) "limit_price must be greater than 0"
  refuse_if (is_limit r.order_type && not (is_some r.limit_price))
      "limit orders require limit_price"
  refuse_if (not (is_limit r.order_type) && is_some r.limit_price)
      "market orders cannot specify limit_price"
  ok r

pub record Quote : Type 0 where
  pub symbol : String
  pub timestamp : ℕ
  pub bid : Decimal
  pub ask : Decimal
  pub bid_size : Decimal
  pub ask_size : Decimal
  pub data_quality_score : Decimal
  pub sequence : Option ℤ

-- The fields of `PaperQuote` and `valid_spread`.
unfoldable pub check_quote : Quote → Result Quote
check_quote q = do
  refuse_if
      (le q.bid zero_dec || le q.ask zero_dec || le q.bid_size zero_dec || le q.ask_size zero_dec)
      "quote fields must be greater than 0"
  refuse_if (lt q.data_quality_score zero_dec || lt one_dec q.data_quality_score)
      "data_quality_score must be in [0, 1]"
  refuse_if (le q.ask q.bid) "quote must have a positive spread"
  ok q

pub record Order : Type 0 where
  pub request : Request
  pub submitted_at : ℕ
  pub status : Status
  pub filled_quantity : Decimal
  pub rejection_reason : Option String

unfoldable pub remaining_quantity : Order → Decimal
remaining_quantity o = sub o.request.quantity o.filled_quantity

pub record Fill : Type 0 where
  pub fill_id : ℕ
  pub client_order_id : String
  pub symbol : String
  pub side : Side
  pub timestamp : ℕ
  pub quantity : Decimal
  pub price : Decimal
  pub fee : Decimal
  pub slippage_cost : Decimal

-- The `gt=0` and `ge=0` fields of `PaperFill`.
unfoldable pub check_fill : Fill → Result Fill
check_fill f = do
  refuse_if (le f.quantity zero_dec || le f.price zero_dec)
      "quantity and price must be greater than 0"
  refuse_if (lt f.fee zero_dec || lt f.slippage_cost zero_dec)
      "fee and slippage_cost must not be negative"
  ok f

pub record Position : Type 0 where
  pub symbol : String
  pub quantity : Decimal
  pub average_entry : Decimal
  pub realized_pnl : Decimal
  pub funding_pnl : Decimal

-- The payload of an audit event, by the type of the event.
pub data Payload : Type 0 where
  order_details : String → Side → Decimal → Payload
  remaining : Decimal → Payload
  because : String → Payload
  gap : ℤ → ℤ → Payload
  fill_details : Fill → Payload
  funding_details : Decimal → Decimal → Payload

pub data EventType : Type 0 where
  order_rejected order_submitted order_canceled kill_switch data_halt_cleared : EventType
  operational_halt operational_resume data_sequence_gap fill_booked funding : EventType

pub data Entity : Type 0 where
  no_entity : Entity
  named : String → Entity
  numbered : ℕ → Entity

pub record AuditEvent : Type 0 where
  pub event_id : ℕ
  pub timestamp : ℕ
  pub event_type : EventType
  pub entity_id : Entity
  pub payload : Payload
