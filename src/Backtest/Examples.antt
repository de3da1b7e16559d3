-- ===== src/Backtest/Examples.antt =====
-- services/backtest/events.py: a signal, a queue with ties, and its events in their order.
use crypt_tool.Base.{◌≡◌, refl, false, none, List, [], ◌∷◌}
use crypt_tool.Base.Int.{pos}
use crypt_tool.Base.Results.{Result, ok}
use crypt_tool.Time.{aware}
use crypt_tool.Decimal.{lit, one_dec, le}
use crypt_tool.Execution.Orders.{buy, market, gtc, Snapshot}
use crypt_tool.Backtest.Events.{
  SignalFields, SignalEvent, new_signal, signal_expiry, utc, FundingEvent, Event, signal,
  market_data, funding, timestamp_of, event_priority, queued_lt, EventQueue, new_queue, push,
  take_least, pop,
}
use crypt_tool.Backtest.Events.Runs.{Call, pushes, pops, step, run, Popped, run-pop-Popped}

abbrev fields : SignalFields
fields = record {
  signal_id = "s1";
  exchange = "kraken";
  symbol = "BTC";
  side = buy;
  quantity = one_dec;
  order_type = market;
  time_in_force = gtc;
  limit_price = none;
  calculation_delay = pos 5;
  submission_delay = pos 5;
  post_only = false;
  reduce_only = false;
  stop_loss = none;
  take_profit = none;
  reason = "strategy";
}

abbrev entry : SignalEvent
entry = record { fields = fields; timestamp = 10; expires_at = none }

constructs : new_signal fields (aware 10) none ≡ ok entry
unfolding new_signal signal_expiry utc le
constructs = refl

abbrev snapshot : Snapshot
snapshot = record {
  exchange = "kraken";
  symbol = "BTC";
  timestamp = 10;
  bid = lit 99 0;
  ask = lit 100 0;
  bid_quantity = one_dec;
  ask_quantity = one_dec;
  last_price = none;
  trade_quantity = none;
  mark_price = none;
}

abbrev rate : FundingEvent
rate = record {
  timestamp = 9;
  exchange = "kraken";
  symbol = "BTC";
  rate = lit 1 4;
  mark_price = lit 100 0;
}

-- The signal is pushed first; the funding was taken out before the last pushes.
abbrev calls : List Call
calls =
    pushes (signal entry)
    ∷ pushes (funding rate)
    ∷ pops
    ∷ pushes (market_data snapshot)
    ∷ pushes (signal entry)
    ∷ []

abbrev event_or : Event → Result (Event × EventQueue) → Event
event_or e (ok r) = r.0
event_or e _ = e

market_wins : event_or (signal entry) (pop (run new_queue calls)) ≡ market_data snapshot
unfolding pop run step push take_least queued_lt timestamp_of event_priority
market_wins = refl

run-pop-Popped_example : Popped (run new_queue calls) (pop (run new_queue calls))
run-pop-Popped_example = run-pop-Popped calls
