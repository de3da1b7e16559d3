-- ===== src/Live/Exchange.antt =====
-- domain/execution/live_models.py: the state of an exchange as it is read back, and the adapter of
-- adapters/exchanges/base.py, whose methods are parameters.
use crypt_tool.Base.{ℕ, Bool, ◌&&◌, ◌||◌, not, String, str_eq, Option, List, ltb, is_some}
use crypt_tool.Base.Results.{Result, ok, refuse_if, ◌>>◌}
use crypt_tool.Decimal.{Decimal, zero_dec, le, lt}
use crypt_tool.Execution.Orders.{Side, some_le_zero}
use crypt_tool.Live.Bindings.{Repository}
use crypt_tool.Live.Orders.{Request, Ack, CancelAck}

pub record OpenOrder : Type 0 where
  pub client_order_id : String
  pub external_order_id : String
  pub exchange : String
  pub symbol : String
  pub side : Side
  pub quantity : Decimal
  pub filled_quantity : Decimal
  pub price : Decimal
  pub reduce_only : Bool
  pub created_at : ℕ

unfoldable pub check_open_order : OpenOrder → Result OpenOrder
check_open_order o = do
  refuse_if (lt o.quantity o.filled_quantity) "filled quantity cannot exceed order quantity"
  ok o

pub record ExecutionFill : Type 0 where
  pub fill_id : String
  pub exchange_order_id : String
  pub client_order_id : String
  pub exchange : String
  pub symbol : String
  pub side : Side
  pub price : Decimal
  pub quantity : Decimal
  pub signed_fee : Decimal
  pub executed_at : ℕ
  pub liquidity_role : Option String

unfoldable pub check_execution_fill : ExecutionFill → Result ExecutionFill
check_execution_fill f = do
  refuse_if
      (str_eq f.fill_id ""
        || str_eq f.exchange_order_id ""
        || str_eq f.client_order_id ""
        || str_eq f.exchange ""
        || str_eq f.symbol "")
      "fill and order identities are required"
  refuse_if (le f.price zero_dec || le f.quantity zero_dec) "fill price and quantity are invalid"
  ok f

pub data ReconciledStatus : Type 0 where
  pending still_open partially_filled filled canceled rejected expired : ReconciledStatus

pub record ReconciledOrder : Type 0 where
  pub client_order_id : String
  pub external_order_id : String
  pub exchange : String
  pub symbol : String
  pub side : Side
  pub original_quantity : Decimal
  pub filled_quantity : Decimal
  pub average_fill_price : Option Decimal
  pub reduce_only : Bool
  pub status : ReconciledStatus
  pub created_at : ℕ
  pub updated_at : ℕ

unfoldable pub check_reconciled_order : ReconciledOrder → Result ReconciledOrder
check_reconciled_order o = do
  refuse_if
      (str_eq o.client_order_id ""
        || str_eq o.external_order_id ""
        || str_eq o.exchange ""
        || str_eq o.symbol "")
      "reconciled order identities are required"
  refuse_if
      (le o.original_quantity zero_dec
        || lt o.filled_quantity zero_dec
        || lt o.original_quantity o.filled_quantity)
      "reconciled order quantities are invalid"
  refuse_if (some_le_zero o.average_fill_price) "average fill price must be positive"
  refuse_if (lt zero_dec o.filled_quantity && not (is_some o.average_fill_price))
      "filled reconciled orders require an average fill price"
  refuse_if (ltb o.updated_at o.created_at) "reconciled order update cannot precede creation"
  ok o

pub record LivePosition : Type 0 where
  pub exchange : String
  pub symbol : String
  pub quantity : Decimal
  pub mark_price : Decimal
  pub unrealized_pnl : Decimal
  pub observed_at : ℕ

-- What an awaited call may change: the exchange, and the bindings, which other gateways write. The
-- kill switch may be activated meanwhile, which takes no lock: `activated` is the reason given.
pub record World (W : Type 0) : Type 0 where
  pub outside : W
  pub bindings : Repository
  pub activated : Option String

abbrev pub Method : Type 0 → Type 0 → Type 0
Method W A = World W → Result A × World W

-- `ExecutionAdapter`.
pub record Adapter (W : Type 0) : Type 0 where
  pub adapter_name : String
  pub is_concrete : Bool
  pub place_order : Request → Method W Ack
  pub cancel_order : String → Method W CancelAck
  pub cancel_all_orders : Method W (List CancelAck)
  pub fetch_open_orders : Option String → Method W (List OpenOrder)
  pub fetch_positions : Method W (List LivePosition)
  pub fetch_recent_fills : String → ℕ → Method W (List ExecutionFill)
  pub lookup_order_by_client_id : String → Method W (Option ReconciledOrder)
  pub close_position : String → Method W Ack
  pub health_check : Method W Bool
