-- ===== src/Paper/Examples.antt =====
-- services/paper_trading: quotes, gaps and the kill switch of a concrete broker.
use crypt_tool.Base.{
  ℕ, ◌≡◌, ◌≢◌, refl, Bool, true, false, String, Option, none, some, List, [], ◌∷◌, All, arith,
}
use crypt_tool.Base.Int.{ℤ, pos, ◌+ℤ◌, leb_ℤ, ltb_ℤ}
use crypt_tool.Base.Dict
use crypt_tool.Base.Results.{Result, ok, err}
use crypt_tool.Time.{aware}
use crypt_tool.Decimal.{lit, zero_dec, one_dec, le, sub, mul, div, add, neg, abs}
use crypt_tool.Execution.Orders.{buy}
use crypt_tool.Paper.Models.{Request, Order, Quote, Fill, market, working}
use crypt_tool.Paper.Account.{Broker}
use crypt_tool.Paper.Broker.{stopped, submit}
use crypt_tool.Paper.Matching.{on_quote, on_quote_after, use_quote, take_quote, quote_blocked}
use crypt_tool.Paper.Matching.Calls.{submitting, quoting, resuming, call, run}
use crypt_tool.Paper.Matching.KillSwitch.{Stopped, not_accepted, killed_forever}
use crypt_tool.Paper.Matching.LaterQuotes.{Justified, on_quote-Justified}
use crypt_tool.Paper.Matching.Gaps.{gap_halts}

abbrev request : Request
request = record {
  client_order_id = "c1";
  symbol = "BTC";
  side = buy;
  quantity = lit 1 0;
  order_type = market;
  limit_price = none;
}

abbrev order : Order
order = record {
  request = request;
  submitted_at = 5;
  status = working;
  filled_quantity = zero_dec;
  rejection_reason = none;
}

abbrev broker : Broker
broker = record {
  settings = record {
    fee_rate = zero_dec;
    slippage_bps = zero_dec;
    max_participation = one_dec;
    max_gross_leverage = one_dec;
    minimum_data_quality = zero_dec;
  };
  initial_cash = lit 1000 0;
  cash = lit 1000 0;
  orders = ("c1", order) ∷ [];
  positions = [];
  fills = [];
  latest_quotes = [];
  fees_paid = zero_dec;
  kill_switch_reason = none;
  operational_halt_reason = none;
  last_sequence = ("BTC", pos 7) ∷ [];
  audit_events = [];
  data_halted_symbols = [];
  drawn = 0;
}

abbrev quote : Quote
quote = record {
  symbol = "BTC";
  timestamp = 10;
  bid = lit 99 0;
  ask = lit 100 0;
  bid_size = lit 5 0;
  ask_size = lit 5 0;
  data_quality_score = one_dec;
  sequence = some (pos 8);
}

abbrev fills_or : Result (List Fill) → List Fill
fills_or (ok fs) = fs
fills_or (err e) = []

abbrev filled_now : Result (List Fill) × Broker
filled_now = on_quote broker quote

fills_order : on_quote broker quote ≡ (ok (fills_or filled_now.0), filled_now.1)
unfolding on_quote on_quote_after Dict.get ◌+ℤ◌ use_quote quote_blocked le take_quote stopped
    crypt_tool.Paper.Broker.contains crypt_tool.Paper.Matching.fill_each
    crypt_tool.Paper.Matching.eligible crypt_tool.Paper.Matching.after_try
    crypt_tool.Paper.Matching.try_fill crypt_tool.Paper.Matching.fill_quantity
    crypt_tool.Paper.Models.remaining_quantity sub mul Dict.put crypt_tool.Base.Int.◌*ℤ◌
    crypt_tool.Base.Int.◌-ℤ◌ abs add div neg crypt_tool.Paper.Account.audit
    crypt_tool.Paper.Account.candidate crypt_tool.Paper.Account.equity
    crypt_tool.Paper.Account.exposure_allowed crypt_tool.Paper.Account.gross_of
    crypt_tool.Paper.Account.mark_of crypt_tool.Paper.Account.unrealized
    crypt_tool.Paper.Matching.book crypt_tool.Paper.Matching.execute
    crypt_tool.Paper.Matching.fill_price crypt_tool.Paper.Matching.new_fill
    crypt_tool.Paper.Models.check_fill
fills_order = refl

on_quote-Justified_example : All (Justified quote broker.orders) (fills_or filled_now.0)
on_quote-Justified_example =
    on_quote-Justified broker quote (fills_or filled_now.0) filled_now.1 fills_order

abbrev killed : Broker
killed = record broker { kill_switch_reason = some "operator" }

abbrev killed_now : Broker
killed_now = (on_quote killed quote).1

fills_nothing : on_quote killed quote ≡ (ok (fills_or (on_quote killed quote).0), killed_now)
unfolding on_quote on_quote_after use_quote take_quote quote_blocked stopped Dict.get le ◌+ℤ◌
fills_nothing = refl

killed_forever_example :
    let b =
      run killed (submitting request (aware 6) ∷ resuming "on" (aware 7) ∷ quoting quote ∷ []) in
    Stopped killed b × (not_accepted (submit b request (aware 11)).0 ≡ true)
killed_forever_example =
    killed_forever killed
      (submitting request (aware 6) ∷ resuming "on" (aware 7) ∷ quoting quote ∷ []) request
      (aware 11) refl (tt, (tt, (tt, tt)))

-- The next number would have been 8.
abbrev jump : Quote
jump = record quote { sequence = some (pos 9) }

abbrev after_jump : Broker
after_jump = run (call broker (quoting jump)) (resuming "on" (aware 7) ∷ [])

jumps : ltb_ℤ (pos 7 +ℤ pos 1) (pos 9) ≡ true
unfolding ◌+ℤ◌
jumps = refl

last_number : Dict.get "BTC" broker.last_sequence ≡ some (pos 7)
unfolding Dict.get
last_number = refl

abbrev halted_now : Broker
halted_now = (on_quote after_jump quote).1

fills_no_more :
    on_quote after_jump quote ≡ (ok (fills_or (on_quote after_jump quote).0), halted_now)
unfolding on_quote on_quote_after Dict.get run call crypt_tool.Paper.Broker.resume
    crypt_tool.Paper.Broker.report crypt_tool.Time.utc crypt_tool.Paper.Account.audit ◌+ℤ◌
    crypt_tool.Paper.Matching.note_gap use_quote quote_blocked le take_quote stopped
    crypt_tool.Paper.Broker.contains
fills_no_more = refl

gap_halts_example : fills_or (on_quote after_jump quote).0 ≡ []
gap_halts_example =
    gap_halts broker jump (pos 9) (pos 7) (resuming "on" (aware 7) ∷ []) refl last_number jumps
      (tt, tt) quote (fills_or (on_quote after_jump quote).0) halted_now refl fills_no_more
