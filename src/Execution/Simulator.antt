-- ===== src/Execution/Simulator.antt =====
-- domain/execution/simulator.py: orders matched against later market snapshots.
-- `W` is the state behind the callbacks: `quantity_cap` reads it and `on_fill` changes it.
-- The callbacks do not raise, and do not touch the simulator.
use crypt_tool.Base.{
  ℕ, zero, suc, ◌+◌, ◌≡◌, Bool, true, false, ◌&&◌, ◌||◌, not, String, str_eq, Option, none, some,
  List, [], ◌∷◌, ◌++◌, map, leb, ltb, ◌==◌, if◌then◌else◌, is_some,
}
use crypt_tool.Base.Dict
use crypt_tool.Base.Results.{Exception, value_error, Result, ok, err, refuse_if, ◌>>=◌, ◌>>◌}
use crypt_tool.Decimal.{
  Decimal, lit, zero_dec, one_dec, le, lt, eq, add, sub, mul, div, neg, abs, pow, min_dec, max_dec,
}
use crypt_tool.Execution.Orders.{
  Side, OrderType, TimeInForce, ioc, fok, submitted, Status, Liquidity, maker, taker, is_buy,
  is_market, terminal, Rules, quantize_quantity, quantize_limit_price, quantize_execution_price,
  validate_notional, Snapshot, mid, Order, filled_quantity, reject, cancel, record_fill, Fill,
  check_fill,
}
use Prim.Native.String.{compare as compare_text}
use Prim.Native.Nat.{Ordering}
pub mod Matching
pub mod Run

pub record Config : Type 0 where
  pub participation_rate : Decimal
  pub passive_fill_fraction : Decimal
  pub slippage_bps : Decimal
  pub impact_coefficient_bps : Decimal
  pub impact_power : ℕ
  pub maximum_impact_bps : Decimal

-- `ExecutionModelConfig.__post_init__`.
unfoldable pub check_config : Config → Result Config
check_config c = do
  refuse_if (not (lt zero_dec c.participation_rate && le c.participation_rate one_dec))
      "participation_rate must be in (0, 1]"
  refuse_if (not (le zero_dec c.passive_fill_fraction && le c.passive_fill_fraction one_dec))
      "passive_fill_fraction must be in [0, 1]"
  refuse_if
      (lt (min_dec (min_dec c.slippage_bps c.impact_coefficient_bps) c.maximum_impact_bps) zero_dec)
      "cost assumptions cannot be negative"
  refuse_if (ltb c.impact_power 1) "impact_power must be at least one"
  ok c

-- The rules are a dictionary that never changes: a function of the exchange and the symbol.
pub record Simulator : Type 0 where
  pub rules : String → String → Option Rules
  pub config : Config
  pub orders : List (String × Order)
  pub fills : List Fill
  pub fill_sequence : ℕ

unfoldable pub new : (String → String → Option Rules) → Config → Simulator
new rules config = record {
  rules = rules;
  config = config;
  orders = [];
  fills = [];
  fill_sequence = 0;
}

abbrev pub store : Simulator → Order → Simulator
store s o = record s { orders = Dict.put o.order_id o s.orders }

-- The end of `submit`: an order that survives is submitted.
unfoldable pub accept : Order → Order
accept o =
    if o.post_only && is_market o.order_type
    then reject o "post-only requires a limit order"
    else record o { status = submitted }

abbrev priced : Order → Result Decimal → Option Exception × Order
priced o (ok p) = (none, accept (record o { limit_price = some p }))
priced o (err e) = (some e, o)

-- The limit price is quantized, if there is one.
unfoldable pub price_order : Rules → Order → Option Decimal → Option Exception × Order
price_order r o none = (none, accept o)
price_order r o (some p) = priced o (quantize_limit_price r p o.side)

-- `submit` after the order is stored: what it raises, if anything, and the order as it is left.
unfoldable pub normalize : Option Rules → Order → Option Exception × Order
normalize none o = (none, reject o "instrument rules unavailable")
normalize (some r) o =
    let quantity = quantize_quantity r o.quantity in
    if le quantity zero_dec
    then (none, reject o "quantity is below lot size")
    else price_order r (record o { quantity = quantity; remaining_quantity = quantity })
        o.limit_price

abbrev result_of : Option Exception → Order → Result Order
result_of none o = ok o
result_of (some e) o = err e

-- The order is stored before it is normalized, so it stays stored if its price is refused.
unfoldable pub submit : Simulator → Order → Result Order × Simulator
submit s o =
    if is_some (Dict.get o.order_id s.orders)
    then (err (value_error "duplicate order_id"), s)
    else let (raised, o') = normalize (s.rules o.exchange o.symbol) o in
      (result_of raised o', store s o')

unfoldable pub cancel_all : Simulator → String → Simulator
cancel_all s reason = record s {
  orders = map (λ (e : String × Order). (e.0, cancel e.1 reason false)) s.orders;
}

-- `_is_marketable`
unfoldable pub is_marketable : Order → Snapshot → Bool
is_marketable o s = if is_market o.order_type then true else elim o.limit_price [
  | none ↦ false
  | some p ↦ if is_buy o.side then le s.ask p else le p s.bid
]

-- `_passive_trade_reached`
unfoldable pub passive_trade_reached : Order → Snapshot → Bool
passive_trade_reached o s = elim o.limit_price [
  | none ↦ false
  | some p ↦ elim s.last_price [
    | none ↦ false
    | some last ↦ if is_buy o.side then le last p else le p last
  ]
]

-- `_impact_bps`
unfoldable pub impact_bps : Config → Decimal → Decimal → Decimal
impact_bps c quantity depth =
    if le depth zero_dec
    then c.maximum_impact_bps
    else min_dec (mul c.impact_coefficient_bps (pow (div quantity depth) c.impact_power))
        c.maximum_impact_bps

-- The tuple that `_match_details` returns.
pub record Match : Type 0 where
  pub quantity : Decimal
  pub price : Decimal
  pub liquidity : Liquidity
  pub spread : Decimal
  pub slippage : Decimal
  pub impact : Decimal

abbrev or_zero : Option Decimal → Decimal
or_zero none = zero_dec
or_zero (some v) = v

-- The limit is worse than the price: the fill is given up.
unfoldable pub beyond_limit : Order → Decimal → Bool
beyond_limit o price = elim o.limit_price [
  | none ↦ false
  | some p ↦ if is_buy o.side then lt p price else lt price p
]

unfoldable pub top_price : Order → Snapshot → Decimal
top_price o s = if is_buy o.side then s.ask else s.bid

unfoldable pub depth_of : Order → Snapshot → Decimal
depth_of o s = if is_buy o.side then s.ask_quantity else s.bid_quantity

-- The quantity that a taker can have: a share of the depth, in whole lots.
unfoldable pub taker_quantity : Config → Order → Snapshot → Rules → Decimal → Decimal
taker_quantity c o s r capacity =
    quantize_quantity r
      (min_dec capacity (quantize_quantity r (mul (depth_of o s) c.participation_rate)))

unfoldable pub raw_price : Config → Order → Snapshot → Decimal → Decimal
raw_price c o s quantity = mul (top_price o s) (
    add one_dec (
      mul (if is_buy o.side then one_dec else neg one_dec) (
        add (div c.slippage_bps (lit 10000 0))
          (div (impact_bps c quantity (depth_of o s)) (lit 10000 0)))))

unfoldable pub taker_match : Config → Order → Snapshot → Rules → Decimal → Decimal → Option Match
taker_match c o s r quantity price =
    if beyond_limit o price
    then none
    else some (record {
      quantity = quantity;
      price = price;
      liquidity = taker;
      spread = mul (abs (sub (top_price o s) (mid s))) quantity;
      slippage = mul (mul (top_price o s) (div c.slippage_bps (lit 10000 0))) quantity;
      impact =
          mul (mul (top_price o s) (div (impact_bps c quantity (depth_of o s)) (lit 10000 0)))
            quantity;
    })

-- The branch of `_match_details` for an order that takes liquidity.
unfoldable pub taker_details : Config → Order → Snapshot → Rules → Decimal → Result (Option Match)
taker_details c o s r capacity =
    let quantity = taker_quantity c o s r capacity in
    if le quantity zero_dec
    then ok none
    else (quantize_execution_price r (raw_price c o s quantity) o.side >>= λ price.
        ok (taker_match c o s r quantity price))

unfoldable pub maker_match : Decimal → Option Decimal → Option Match
maker_match quantity none = none
maker_match quantity (some p) =
    if le quantity zero_dec
    then none
    else some (record {
      quantity = quantity;
      price = p;
      liquidity = maker;
      spread = zero_dec;
      slippage = zero_dec;
      impact = zero_dec;
    })

-- The branch for an order that rests in the book.
unfoldable pub maker_details : Config → Order → Snapshot → Rules → Decimal → Option Match
maker_details c o s r capacity =
    if passive_trade_reached o s
    then maker_match
        (quantize_quantity r (
          min_dec capacity
            (quantize_quantity r (mul (or_zero s.trade_quantity) c.passive_fill_fraction))))
        o.limit_price
    else none

-- `_match_details`: a post-only order that would take liquidity is cancelled.
unfoldable pub match_details :
    Config → Order → Snapshot → Rules → Decimal → Result (Option Match) × Order
match_details c o s r capacity =
    if o.post_only && is_marketable o s
    then (ok none, cancel o "post-only order would take liquidity" false)
    else if is_market o.order_type || is_marketable o s
    then (taker_details c o s r capacity, o)
    else (ok (maker_details c o s r capacity), o)

-- `_make_fill`, with the number that the sequence has reached.
unfoldable pub make_fill : Order → Snapshot → Rules → ℕ → Match → Result Fill
make_fill o s r n m = check_fill (record {
  fill_id = n;
  order_id = o.order_id;
  signal_id = o.signal_id;
  exchange = o.exchange;
  symbol = o.symbol;
  side = o.side;
  quantity = m.quantity;
  price = m.price;
  liquidity = m.liquidity;
  signal_at = o.signal_at;
  order_created_at = o.created_at;
  submitted_at = o.submitted_at;
  filled_at = s.timestamp;
  fee =
      mul (mul m.quantity m.price)
        (elim m.liquidity [ maker ↦ r.maker_fee_rate | taker ↦ r.taker_fee_rate ]);
  spread_cost = m.spread;
  slippage_cost = m.slippage;
  market_impact_cost = m.impact;
})
