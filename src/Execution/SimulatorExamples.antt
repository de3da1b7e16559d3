-- ===== src/Execution/SimulatorExamples.antt =====
-- domain/execution: orders and their matching against a concrete snapshot.
use crypt_tool.Base.{
  ℕ, ◌≡◌, ◌≤◌, ◌++◌, refl, Bool, true, false, String, Option, none, some, List, [], ◌∷◌, All, arith,
}
use crypt_tool.Base.Dict
use crypt_tool.Base.Results.{ok}
use crypt_tool.Time.{aware, utc}
use crypt_tool.Decimal.{lit, zero_dec, le, sub, mul, abs, add, div, neg, pow, round_up, round_down}
use crypt_tool.Execution.Orders.{
  buy, market, gtc, created, submitted, filled, Terms, Order, Snapshot, Rules, Fill, taker,
  new_order, check_fill, quantize_quantity, quantize_execution_price, validate_notional, mid,
  filled_quantity, record_fill, reject, cancel,
}
use crypt_tool.Execution.Orders.Lifecycle.{
  fills, cancels, IsConsistent, run as run_order, run-new_order-IsConsistent,
}
use crypt_tool.Execution.Simulator.{
  Config, Simulator, new, match_details, taker_details, taker_quantity, taker_match, raw_price,
  impact_bps, make_fill,
}
use crypt_tool.Execution.Simulator.Matching.{
  Callbacks, match_order, attempt, cap_of, settle, fill_order, book, finish,
}
use crypt_tool.Execution.Simulator.Matching.Fills.{
  Sound, Quoted, match_order-Sound, match_order-Quoted,
}
use crypt_tool.Execution.Simulator.Run.{match_snapshot}
use crypt_tool.Execution.Simulator.Run.Trace.{Filled, Ascending, match_snapshot_trace}
use crypt_tool.Execution.Simulator.Run.Numbers.{
  submits, cancels_all, matches, run, IsNumbered, run-new-IsNumbered,
}

abbrev terms : Terms
terms = record {
  order_id = "o1";
  signal_id = "s1";
  exchange = "kraken";
  symbol = "BTC";
  side = buy;
  order_type = market;
  time_in_force = gtc;
  post_only = false;
  reduce_only = false;
  stop_loss = none;
  take_profit = none;
}

abbrev fresh_order : Order
fresh_order = record {
  terms = terms;
  signal_at = 1;
  created_at = 2;
  submitted_at = 3;
  expires_at = none;
  quantity = lit 2 0;
  limit_price = none;
  status = created;
  remaining_quantity = lit 2 0;
  rejection_reason = none;
}

constructs : new_order terms (lit 2 0) none (aware 1) (aware 2) (aware 3) none ≡ ok fresh_order
unfolding new_order utc le
constructs = refl

run-new_order-IsConsistent_example :
    IsConsistent (run_order fresh_order (fills (lit 1 0) ∷ cancels "late" false ∷ []))
run-new_order-IsConsistent_example =
    run-new_order-IsConsistent terms (lit 2 0) none (aware 1) (aware 2) (aware 3) none fresh_order
      (fills (lit 1 0) ∷ cancels "late" false ∷ []) constructs

abbrev filled_order : Order
filled_order = record fresh_order { status = filled; remaining_quantity = zero_dec }

abbrev live_order : Order
live_order = record fresh_order { status = submitted }

abbrev rules : Rules
rules = record {
  tick_size = lit 1 0;
  lot_size = lit 1 0;
  minimum_notional = zero_dec;
  maker_fee_rate = zero_dec;
  taker_fee_rate = zero_dec;
  maintenance_margin_rate = zero_dec;
}

abbrev config : Config
config = record {
  participation_rate = lit 1 0;
  passive_fill_fraction = lit 1 0;
  slippage_bps = zero_dec;
  impact_coefficient_bps = zero_dec;
  impact_power = 1;
  maximum_impact_bps = zero_dec;
}

abbrev snapshot : Snapshot
snapshot = record {
  exchange = "kraken";
  symbol = "BTC";
  timestamp = 10;
  bid = lit 99 0;
  ask = lit 100 0;
  bid_quantity = lit 5 0;
  ask_quantity = lit 5 0;
  last_price = none;
  trade_quantity = none;
  mark_price = none;
}

-- The callback counts the fills.
abbrev calls : Callbacks ℕ
calls = record { quantity_cap = none; on_fill = none }

abbrev fill_or : Fill → Option Fill → Fill
fill_or d none = d
fill_or d (some f) = f

abbrev no_fill : Fill
no_fill = record {
  fill_id = 0;
  order_id = "";
  signal_id = "";
  exchange = "";
  symbol = "";
  side = buy;
  quantity = zero_dec;
  price = zero_dec;
  liquidity = taker;
  signal_at = 0;
  order_created_at = 0;
  submitted_at = 0;
  filled_at = 0;
  fee = zero_dec;
  spread_cost = zero_dec;
  slippage_cost = zero_dec;
  market_impact_cost = zero_dec;
}

abbrev made : Fill
made = fill_or no_fill (match_order calls config 0 0 snapshot rules live_order).produced

makes_fill : (match_order calls config 0 0 snapshot rules live_order).produced ≡ some made
unfolding match_order attempt le cap_of filled_quantity sub validate_notional mul mid div add settle
    match_details taker_details taker_quantity quantize_quantity
    crypt_tool.Execution.Simulator.depth_of round_down crypt_tool.Base.Int.◌*ℤ◌
    crypt_tool.Base.Int.◌+ℤ◌ crypt_tool.Base.Int.◌-ℤ◌ abs neg pow round_up cancel check_fill
    quantize_execution_price record_fill reject book fill_order finish
    crypt_tool.Execution.Simulator.beyond_limit impact_bps
    crypt_tool.Execution.Simulator.is_marketable make_fill raw_price taker_match
    crypt_tool.Execution.Simulator.top_price
makes_fill = refl

match_order-Sound_example : Sound live_order snapshot made
match_order-Sound_example =
    match_order-Sound calls config 0 0 snapshot rules live_order made makes_fill

match_order-Quoted_example : Quoted live_order made
match_order-Quoted_example =
    match_order-Quoted calls config 0 0 snapshot rules live_order made makes_fill

abbrev simulator : Simulator
simulator = record (new (λ exchange symbol. some rules) config) { orders = ("o1", live_order) ∷ [] }

match_snapshot_trace_example :
    let m = match_snapshot calls simulator 0 snapshot in
    (more : List Fill) × (m.simulator.fills ≡ simulator.fills ++ more)
    × All (Filled (Dict.values simulator.orders) snapshot) more
    × Ascending simulator.fill_sequence more m.simulator.fill_sequence
    × (m.raised ≡ none → m.produced ≡ more)
match_snapshot_trace_example = match_snapshot_trace calls simulator 0 snapshot

run-new-IsNumbered_example :
    IsNumbered calls
      (run calls
        (new (λ exchange symbol. some rules) config, 0)
        (submits fresh_order ∷ matches snapshot ∷ cancels_all "end" ∷ [])).0
run-new-IsNumbered_example =
    run-new-IsNumbered calls (λ exchange symbol. some rules) config 0
      (submits fresh_order ∷ matches snapshot ∷ cancels_all "end" ∷ [])
