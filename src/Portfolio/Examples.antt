-- ===== src/Portfolio/Examples.antt =====
-- domain/portfolio: fills, funding and protection on a concrete ledger.
use mathlib.Core.List.{foldl}
use crypt_tool.Base.{◌≡◌, ◌↔◌, refl, true, false, none, some, [], ◌∷◌}
use crypt_tool.Base.Results.{duplicate_fill_error, ok, err}
use crypt_tool.Time.{aware}
use crypt_tool.Decimal.{Decimal, lit, zero_dec, le, lt, add, mul, abs, neg}
use crypt_tool.Execution.Orders.{sell, taker, market, gtc, submitted, Order, Fill, Snapshot}
use crypt_tool.Portfolio.Position.{
  Position, is_open, apply_fill, delta_of, reduces, set_protection, bad_stop, bad_take,
  protection_trigger, stop_loss_hit, take_profit_hit,
}
use crypt_tool.Portfolio.Ledger.{
  Ledger, find, key_of, position, accept, apply, check_reduce_only, protect, maximum_fill_quantity,
}
use crypt_tool.Portfolio.Ledger.Accounting.{
  Untouched, applies, funds, captures, run, flows, apply_refused, run_cash,
}
use crypt_tool.Portfolio.Ledger.Duplicates.{apply_once}
use crypt_tool.Portfolio.Ledger.ReduceOnly.{Reduced, reduce_only-Shrunk}
use crypt_tool.Portfolio.Ledger.Limits.{maximum_fill_quantity-check}

abbrev held : Position
held = record {
  exchange = "kraken";
  symbol = "BTC";
  quantity = lit 3 0;
  average_entry_price = lit 100 0;
  mark_price = lit 100 0;
  realized_pnl = zero_dec;
  funding_pnl = zero_dec;
  fees = zero_dec;
  stop_loss = none;
  take_profit = none;
  opened_at = some 1;
  updated_at = some 1;
}

abbrev ledger : Ledger
ledger = record {
  initial_cash = lit 1000 0;
  cash = lit 1000 0;
  leverage = lit 2 0;
  rules = λ exchange symbol. none;
  positions = (("kraken", "BTC"), held) ∷ [];
  fills = [];
  funding_records = [];
  snapshots = [];
  processed_fill_ids = 1 ∷ [];
}

abbrev selling : Fill
selling = record {
  fill_id = 2;
  order_id = "o2";
  signal_id = "s2";
  exchange = "kraken";
  symbol = "BTC";
  side = sell;
  quantity = lit 1 0;
  price = lit 110 0;
  liquidity = taker;
  signal_at = 2;
  order_created_at = 2;
  submitted_at = 2;
  filled_at = 3;
  fee = lit 1 0;
  spread_cost = zero_dec;
  slippage_cost = zero_dec;
  market_impact_cost = zero_dec;
}

-- The fill that the ledger already has.
abbrev repeated : Fill
repeated = record selling { fill_id = 1 }

refuses_repeat :
    (apply ledger repeated false none none).0 ≡ err (duplicate_fill_error "duplicate fill")
unfolding apply
refuses_repeat = refl

apply_refused_example : Untouched ledger (apply ledger repeated false none none).1
apply_refused_example =
    apply_refused ledger repeated false none none (duplicate_fill_error "duplicate fill")
      refuses_repeat

run_cash_example :
    let cs =
      applies selling true none none
      ∷ funds ("kraken", "BTC") (aware 4) (lit 1 2) (lit 100 0)
      ∷ [] in
    (run ledger cs).cash ≡ foldl add ledger.cash (flows ledger cs)
run_cash_example =
    run_cash ledger (
      applies selling true none none ∷ funds ("kraken", "BTC") (aware 4) (lit 1 2) (lit 100 0) ∷ [])

abbrev sold : Decimal
sold = (apply_fill held selling).0

sells : (apply ledger selling true none none).0 ≡ ok sold
unfolding apply position find accept check_reduce_only protect le abs apply_fill
    crypt_tool.Portfolio.Position.changed mul delta_of neg crypt_tool.Portfolio.Position.decreased
    crypt_tool.Portfolio.Position.left_at add
sells = refl

apply_once_example :
    let l = run (apply ledger selling true none none).1 (captures 5 ∷ []) in
    apply l selling false none none ≡ (err (duplicate_fill_error "duplicate fill"), l)
apply_once_example =
    apply_once ledger selling selling true false none none none none (captures 5 ∷ []) sells refl

quantity_positive : le zero_dec selling.quantity ≡ true
unfolding le
quantity_positive = refl

reduce_only-Shrunk_example :
    (p : Position) × (find (key_of selling) ledger.positions ≡ some p)
    × Reduced ledger selling none none p
reduce_only-Shrunk_example =
    reduce_only-Shrunk ledger selling none none sold quantity_positive sells

abbrev closing : Order
closing = record {
  terms = record {
    order_id = "o2";
    signal_id = "s2";
    exchange = "kraken";
    symbol = "BTC";
    side = sell;
    order_type = market;
    time_in_force = gtc;
    post_only = false;
    reduce_only = true;
    stop_loss = none;
    take_profit = none;
  };
  signal_at = 2;
  created_at = 2;
  submitted_at = 2;
  expires_at = none;
  quantity = lit 5 0;
  limit_price = none;
  status = submitted;
  remaining_quantity = lit 5 0;
  rejection_reason = none;
}

price_positive : lt zero_dec (lit 100 0) ≡ true
unfolding le
price_positive = refl

selling_positive : lt zero_dec selling.quantity ≡ true
unfolding le
selling_positive = refl

selling_remains : le selling.quantity closing.remaining_quantity ≡ true
unfolding le
selling_remains = refl

maximum_fill_quantity-check_example :
    (le selling.quantity (maximum_fill_quantity ledger closing (lit 100 0)) ≡ true)
    ↔ (check_reduce_only true (position ledger (key_of selling)).0 selling ≡ ok tt)
maximum_fill_quantity-check_example =
    maximum_fill_quantity-check ledger closing (lit 100 0) selling refl price_positive refl refl
      selling_positive selling_remains

held_open : is_open held ≡ true
unfolding le
held_open = refl

abbrev protected : Position
protected = record held { stop_loss = some (lit 90 0); take_profit = some (lit 120 0) }

protects : set_protection held (some (lit 90 0)) (some (lit 120 0)) ≡ ok protected
unfolding set_protection bad_stop bad_take le
protects = refl

held_long : lt zero_dec protected.quantity ≡ true
unfolding le
held_long = refl

abbrev falling : Snapshot
falling = record {
  exchange = "kraken";
  symbol = "BTC";
  timestamp = 6;
  bid = lit 89 0;
  ask = lit 91 0;
  bid_quantity = lit 5 0;
  ask_quantity = lit 5 0;
  last_price = none;
  trade_quantity = none;
  mark_price = none;
}
