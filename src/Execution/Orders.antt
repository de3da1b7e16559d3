-- ===== src/Execution/Orders.antt =====
-- domain/execution/models.py: instrument rules, market snapshots, orders and fills.
use crypt_tool.Base.{
  ℕ, Bool, true, false, ◌&&◌, ◌||◌, not, String, Option, none, some, leb, ltb, if◌then◌else◌,
  is_some,
}
use crypt_tool.Base.Results.{Result, ok, err, value_error, refuse_if, ◌>>=◌, ◌>>◌}
use crypt_tool.Time.{Timestamp, utc}
use crypt_tool.Decimal.{
  Decimal, lit, zero_dec, one_dec, le, lt, eq, add, sub, mul, div, neg, min_dec, round_down,
  round_up,
}
pub mod Lifecycle

-- `Side` of domain/market_data/models.py.
pub data Side : Type 0 where
  buy sell : Side

pub data OrderType : Type 0 where
  market limit : OrderType

pub data TimeInForce : Type 0 where
  gtc ioc fok : TimeInForce

pub data Status : Type 0 where
  created submitted partially_filled filled cancelled rejected expired : Status

abbrev pub terminal : Status → Bool
terminal filled = true
terminal cancelled = true
terminal rejected = true
terminal expired = true
terminal _ = false

pub data Liquidity : Type 0 where
  maker taker : Liquidity

abbrev pub is_buy : Side → Bool
is_buy buy = true
is_buy sell = false

abbrev pub is_market : OrderType → Bool
is_market market = true
is_market limit = false

pub record Rules : Type 0 where
  pub tick_size : Decimal
  pub lot_size : Decimal
  pub minimum_notional : Decimal
  pub maker_fee_rate : Decimal
  pub taker_fee_rate : Decimal
  pub maintenance_margin_rate : Decimal

-- `InstrumentRules.__post_init__`.
unfoldable pub check_rules : Rules → Result Rules
check_rules r = do
  refuse_if (le r.tick_size zero_dec || le r.lot_size zero_dec)
      "tick_size and lot_size must be positive"
  refuse_if (lt r.minimum_notional zero_dec) "minimum_notional cannot be negative"
  refuse_if (lt r.maker_fee_rate (neg (lit 1 2)) || lt r.taker_fee_rate zero_dec)
      "maker rebate is capped at 1% and taker fee cannot be negative"
  refuse_if (not (le zero_dec r.maintenance_margin_rate && lt r.maintenance_margin_rate one_dec))
      "maintenance_margin_rate must be in [0, 1)"
  ok r

unfoldable pub quantize_quantity : Rules → Decimal → Decimal
quantize_quantity r q =
    if le q zero_dec then zero_dec else mul (round_down (div q r.lot_size)) r.lot_size

unfoldable pub quantize_price : Rules → Decimal → Result Decimal
quantize_price r p = do
  refuse_if (le p zero_dec) "price must be positive"
  ok (mul (round_down (div p r.tick_size)) r.tick_size)

-- Rounds away from the spread.
unfoldable pub quantize_limit_price : Rules → Decimal → Side → Result Decimal
quantize_limit_price r p side = do
  refuse_if (le p zero_dec) "price must be positive"
  ok (
      mul (if is_buy side then round_down (div p r.tick_size) else round_up (div p r.tick_size))
        r.tick_size)

-- Rounds against the simulated trader.
unfoldable pub quantize_execution_price : Rules → Decimal → Side → Result Decimal
quantize_execution_price r p side = do
  refuse_if (le p zero_dec) "price must be positive"
  ok (
      mul (if is_buy side then round_up (div p r.tick_size) else round_down (div p r.tick_size))
        r.tick_size)

unfoldable pub validate_notional : Rules → Decimal → Decimal → Bool
validate_notional r quantity price = le r.minimum_notional (mul quantity price)

pub record Snapshot : Type 0 where
  pub exchange : String
  pub symbol : String
  pub timestamp : ℕ
  pub bid : Decimal
  pub ask : Decimal
  pub bid_quantity : Decimal
  pub ask_quantity : Decimal
  pub last_price : Option Decimal
  pub trade_quantity : Option Decimal
  pub mark_price : Option Decimal

-- `value is not None and value <= ZERO`, and with `<`.
abbrev pub some_le_zero : Option Decimal → Bool
some_le_zero none = false
some_le_zero (some v) = le v zero_dec

abbrev some_lt_zero : Option Decimal → Bool
some_lt_zero none = false
some_lt_zero (some v) = lt v zero_dec

-- `MarketSnapshot.__post_init__`, once the timestamp is in UTC.
unfoldable pub check_snapshot : Snapshot → Result Snapshot
check_snapshot s = do
  refuse_if (le s.bid zero_dec || le s.ask zero_dec || le s.ask s.bid)
      "snapshot requires positive, non-crossed bid/ask"
  refuse_if (lt s.bid_quantity zero_dec || lt s.ask_quantity zero_dec)
      "book quantities cannot be negative"
  refuse_if (some_le_zero s.last_price || some_le_zero s.mark_price)
      "last and mark prices must be positive"
  refuse_if (some_lt_zero s.trade_quantity) "trade_quantity cannot be negative"
  ok s

unfoldable pub mid : Snapshot → Decimal
mid s = div (add s.bid s.ask) (lit 2 0)

-- `a or b`: an absent value, and zero, are false.
abbrev or_else : Option Decimal → Decimal → Decimal
or_else none d = d
or_else (some v) d = if eq v zero_dec then d else v

unfoldable pub valuation_price : Snapshot → Decimal
valuation_price s = or_else s.mark_price (or_else s.last_price (mid s))

-- What an order is given once and keeps.
pub record Terms : Type 0 where
  pub order_id : String
  pub signal_id : String
  pub exchange : String
  pub symbol : String
  pub side : Side
  pub order_type : OrderType
  pub time_in_force : TimeInForce
  pub post_only : Bool
  pub reduce_only : Bool
  pub stop_loss : Option Decimal
  pub take_profit : Option Decimal

pub record Order : Type 0 where
  pub terms : Terms
  pub open terms use *
  pub signal_at : ℕ
  pub created_at : ℕ
  pub submitted_at : ℕ
  pub expires_at : Option ℕ
  pub quantity : Decimal
  pub limit_price : Option Decimal
  pub status : Status
  pub remaining_quantity : Decimal
  pub rejection_reason : Option String

-- The part of `__post_init__` that reads `expires_at`.
abbrev expiry : Option Timestamp → ℕ → Result (Option ℕ)
expiry none submitted_at = ok none
expiry (some e) submitted_at = do
  t ← utc e
  refuse_if (leb t submitted_at) "expires_at must follow submitted_at"
  ok (some t)

-- The constructor of `Order`, with `__post_init__`.
unfoldable pub new_order :
    Terms
    → Decimal
    → Option Decimal
    → Timestamp
    → Timestamp
    → Timestamp
    → Option Timestamp
    → Result Order
new_order terms quantity limit_price signal_at created_at submitted_at expires_at = do
  signal ← utc signal_at
  created_t ← utc created_at
  submitted_t ← utc submitted_at
  refuse_if (not (leb signal created_t && leb created_t submitted_t))
      "order timestamps must be signal <= created <= submitted"
  refuse_if (le quantity zero_dec) "order quantity must be positive"
  refuse_if (not (is_market terms.order_type) && not (is_some limit_price))
      "limit order requires limit_price"
  refuse_if (is_market terms.order_type && is_some limit_price)
      "market order cannot have limit_price"
  refuse_if
      (some_le_zero limit_price || some_le_zero terms.stop_loss || some_le_zero terms.take_profit)
      "order prices must be positive"
  expires ← expiry expires_at submitted_t
  ok (record {
    terms = terms;
    signal_at = signal;
    created_at = created_t;
    submitted_at = submitted_t;
    expires_at = expires;
    quantity = quantity;
    limit_price = limit_price;
    status = created;
    remaining_quantity = quantity;
    rejection_reason = none;
  })

unfoldable pub filled_quantity : Order → Decimal
filled_quantity o = sub o.quantity o.remaining_quantity

unfoldable pub reject : Order → String → Order
reject o reason =
    if terminal o.status then o else record o { status = rejected; rejection_reason = some reason }

unfoldable pub cancel : Order → String → Bool → Order
cancel o reason is_expired = if terminal o.status then o else record o {
  status = if is_expired then expired else cancelled;
  rejection_reason = some reason;
}

unfoldable pub record_fill : Order → Decimal → Result Order
record_fill o quantity = do
  refuse_if (terminal o.status) "cannot fill a terminal order"
  refuse_if (le quantity zero_dec || lt o.remaining_quantity quantity) "invalid fill quantity"
  let rest = sub o.remaining_quantity quantity
  ok (record o {
    remaining_quantity = rest;
    status = if eq rest zero_dec then filled else partially_filled;
  })

-- The number stands for the text `fill-` and its twelve digits.
pub record Fill : Type 0 where
  pub fill_id : ℕ
  pub order_id : String
  pub signal_id : String
  pub exchange : String
  pub symbol : String
  pub side : Side
  pub quantity : Decimal
  pub price : Decimal
  pub liquidity : Liquidity
  pub signal_at : ℕ
  pub order_created_at : ℕ
  pub submitted_at : ℕ
  pub filled_at : ℕ
  pub fee : Decimal
  pub spread_cost : Decimal
  pub slippage_cost : Decimal
  pub market_impact_cost : Decimal

-- `Fill.__post_init__`, once the timestamps are in UTC.
unfoldable pub check_fill : Fill → Result Fill
check_fill f = do
  refuse_if
      (not (
        leb f.signal_at f.order_created_at
        && leb f.order_created_at f.submitted_at
        && ltb f.submitted_at f.filled_at))
      "fill timestamps must preserve causality and use a later market event"
  refuse_if (le f.quantity zero_dec || le f.price zero_dec)
      "fill quantity and price must be positive"
  refuse_if (lt (min_dec (min_dec f.spread_cost f.slippage_cost) f.market_impact_cost) zero_dec)
      "spread, slippage and impact costs cannot be negative"
  ok f

unfoldable pub notional : Fill → Decimal
notional f = mul f.quantity f.price
