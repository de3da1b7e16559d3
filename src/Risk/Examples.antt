-- ===== src/Risk/Examples.antt =====
-- domain/risk: entries and halts of a concrete risk manager.
use crypt_tool.Base.{
  ℕ, ◌≡◌, ◌≢◌, ◌↔◌, ◌⊎◌, ◌≤◌, refl, Bool, true, false, not, ◌&&◌, Option, none, some, List, [], ◌∷◌,
  ◌++◌, leb, arith, is_some, String,
}
use crypt_tool.Base.Int.{ℤ, pos}
use crypt_tool.Base.Results.{Result, ok}
use crypt_tool.Time.{aware, utc}
use crypt_tool.Decimal.{lit, zero_dec, one_dec, le, sub, mul, div, neg, abs}
use crypt_tool.Risk.Breaker.{
  Breaker, new, trip, trip_for, status_at, daily_loss, cooldown, is_empty, latest,
}
use crypt_tool.Risk.Breaker.Invariant.{
  IsValid, trips, asks, resets, run, run-new-IsValid, status_active,
}
use crypt_tool.Risk.Breaker.Latch.{latched_status}
use crypt_tool.Risk.Models.{
  fixed_fractional, Limits, State, Signal, buy, entry, exit, range, Sizing, drawdown_fraction,
  invalid_input,
}
use crypt_tool.Risk.Sizing.{Inputs, size}
use crypt_tool.Risk.Sizing.Bounds.{Within, size-Within}
use crypt_tool.Risk.Manager.{Manager, evaluate, checks, tripped}
use crypt_tool.Risk.Manager.Entry.{Cleared, evaluate_allowed}
use crypt_tool.Risk.Manager.Halting.{run as run_requests, drawdown_latches}

abbrev breaker : Breaker
breaker = record {
  default_cooldown_seconds = 60;
  reasons = [];
  details = [];
  tripped_at = none;
  resume_at = none;
  manual_reset_required = false;
  last_reset_at = none;
}

starts : new (pos 60) ≡ ok breaker
unfolding new
starts = refl

run-new-IsValid_example :
    IsValid (run breaker (trips daily_loss (aware 5) false none none ∷ asks (aware 6) ∷ []))
run-new-IsValid_example =
    run-new-IsValid (pos 60) breaker
      (trips daily_loss (aware 5) false none none ∷ asks (aware 6) ∷ []) starts

breaker-IsValid : IsValid breaker
unfolding run
breaker-IsValid = run-new-IsValid (pos 60) breaker [] starts

status_active_example : ((status_at breaker 9).0.active ≡ true) ↔ (
    (is_empty breaker.reasons ≡ false)
    × ((breaker.manual_reset_required ≡ true)
        ⊎ ((r : ℕ) × (breaker.resume_at ≡ some r) × (leb r 9 ≡ false))))
status_active_example = status_active breaker 9 breaker-IsValid

abbrev halted : Breaker
halted = record breaker {
  reasons = daily_loss ∷ [];
  tripped_at = some 5;
  manual_reset_required = true;
}

halts : trip breaker daily_loss (aware 5) true none none ≡ ok halted
unfolding trip trip_for crypt_tool.Risk.Breaker.add utc
halts = refl

abbrev wrong : String
wrong = "reset"

not_confirmed : wrong ≢ "RESET_KILL_SWITCH"
not_confirmed e = cc

latched_status_example :
    let s = (status_at (run halted (resets wrong (aware 7) ∷ [])) 1000000000000).0 in
    (s.active ≡ true) × (s.requires_manual_reset ≡ true)
latched_status_example =
    latched_status breaker halted daily_loss (aware 5) none none (resets wrong (aware 7) ∷ [])
      1000000000000 halts (not_confirmed, tt)

abbrev cooling : Breaker
cooling = record breaker {
  reasons = daily_loss ∷ [];
  tripped_at = some 5;
  resume_at = some 60000005;
}

abbrev cooling_longer : Breaker
cooling_longer = record cooling { resume_at = some 60000009 }

cools_longer : trip cooling daily_loss (aware 9) false none none ≡ ok cooling_longer
unfolding trip trip_for crypt_tool.Risk.Breaker.add utc
cools_longer = refl

abbrev limits : Limits
limits = record {
  maximum_leverage = lit 1 0;
  maximum_risk_per_trade = lit 1 2;
  maximum_daily_loss = lit 5 2;
  maximum_weekly_loss = lit 1 1;
  maximum_drawdown = lit 2 1;
  maximum_gross_exposure = lit 1 0;
  maximum_symbol_exposure = lit 1 0;
  maximum_exchange_exposure = lit 1 0;
  maximum_positions = 3;
  maximum_consecutive_losses = 3;
  minimum_data_quality = lit 5 1;
  minimum_signal_confidence = lit 5 1;
  maximum_spread_fraction = lit 1 2;
  maximum_price_divergence_fraction = lit 1 2;
  cooldown_seconds = 60;
  annual_volatility_target = lit 1 1;
  atr_multiple = lit 2 0;
  maximum_loss_floor_fraction = lit 1 2;
  sizing_method = fixed_fractional;
}

abbrev state : State
state = record {
  timestamp = 10;
  equity = lit 1000 0;
  peak_equity = lit 1000 0;
  day_start_equity = lit 1000 0;
  week_start_equity = lit 1000 0;
  realized_pnl_today = zero_dec;
  realized_pnl_week = zero_dec;
  gross_exposure = zero_dec;
  symbol_exposures = [];
  exchange_exposures = [];
  open_positions = 0;
  consecutive_losses = 0;
  data_quality_score = one_dec;
  data_healthy = true;
  api_healthy = true;
  websocket_connected = true;
  spread_fraction = zero_dec;
  price_divergence_fraction = zero_dec;
}

abbrev signal : Signal
signal = record {
  signal_id = "s1";
  symbol = "BTC";
  exchange = some "kraken";
  side = buy;
  intent = entry;
  strength = one_dec;
  confidence = one_dec;
  suggested_risk_fraction = lit 1 2;
  primary_regime = range;
  data_quality_score = one_dec;
  valid_until = 20;
}

abbrev inputs : Inputs
inputs = record {
  stop_price = some (lit 90 0);
  atr = none;
  annualized_volatility = none;
  lot_size = none;
  minimum_notional = none;
}

abbrev size_or : Sizing → Result Sizing → Sizing
size_or d (ok z) = z
size_or d _ = d

abbrev no_size : Sizing
no_size = record {
  accepted = false;
  quantity = zero_dec;
  notional = zero_dec;
  risk_amount = zero_dec;
  binding_constraint = invalid_input;
  candidate_notionals = [];
  reason = "";
}

abbrev sized : Sizing
sized = size_or no_size (size limits signal (lit 100 0) state inputs)

sizes : (size limits signal (lit 100 0) state inputs ≡ ok sized) × (sized.accepted ≡ true)
unfolding le div sub mul abs neg crypt_tool.Base.Int.◌*ℤ◌ crypt_tool.Base.Int.◌+ℤ◌
    crypt_tool.Base.Int.◌-ℤ◌ crypt_tool.Risk.Models.symbol_exposure crypt_tool.Base.Dict.get
    crypt_tool.Risk.Models.exchange_exposure size crypt_tool.Risk.Sizing.binding_of
    crypt_tool.Risk.Sizing.exposure_candidates crypt_tool.Risk.Sizing.finish
    crypt_tool.Risk.Sizing.headroom crypt_tool.Risk.Sizing.least crypt_tool.Risk.Sizing.lot_quantity
    crypt_tool.Risk.Sizing.method_candidates crypt_tool.Risk.Sizing.requested
    crypt_tool.Risk.Sizing.risk_amount crypt_tool.Risk.Sizing.select crypt_tool.Risk.Sizing.size_at
    crypt_tool.Risk.Sizing.size_from crypt_tool.Risk.Sizing.stop_fraction
sizes = (refl, refl)

size-Within_example : Within limits signal (lit 100 0) state inputs sized
size-Within_example = size-Within limits signal (lit 100 0) state inputs sized sizes.0 sizes.1

abbrev manager : Manager
manager = record { limits = limits; breaker = breaker }

allows : (evaluate manager signal (lit 100 0) state inputs).0.allowed ≡ true
unfolding evaluate crypt_tool.Risk.Manager.evaluate_intent crypt_tool.Risk.Manager.evaluate_entry
    crypt_tool.Risk.Manager.refusals checks crypt_tool.Risk.Models.daily_loss_fraction
    crypt_tool.Risk.Models.weekly_loss_fraction drawdown_fraction status_at
    crypt_tool.Risk.Breaker.refreshed crypt_tool.Risk.Breaker.is_due tripped
    crypt_tool.Risk.Manager.critical_halts crypt_tool.Risk.Manager.transient_halts
    crypt_tool.Risk.Manager.trip_all le div sub mul abs neg crypt_tool.Base.Int.◌*ℤ◌
    crypt_tool.Base.Int.◌+ℤ◌ crypt_tool.Base.Int.◌-ℤ◌ crypt_tool.Risk.Models.symbol_exposure
    crypt_tool.Base.Dict.get crypt_tool.Risk.Models.exchange_exposure size
    crypt_tool.Risk.Sizing.binding_of crypt_tool.Risk.Sizing.exposure_candidates
    crypt_tool.Risk.Sizing.finish crypt_tool.Risk.Sizing.headroom crypt_tool.Risk.Sizing.least
    crypt_tool.Risk.Sizing.lot_quantity crypt_tool.Risk.Sizing.method_candidates
    crypt_tool.Risk.Sizing.requested crypt_tool.Risk.Sizing.risk_amount
    crypt_tool.Risk.Sizing.select crypt_tool.Risk.Sizing.size_at crypt_tool.Risk.Sizing.size_from
    crypt_tool.Risk.Sizing.stop_fraction
allows = refl

evaluate_allowed_example :
    Cleared limits signal state
    × ((status_at (tripped manager (checks limits signal state) state) 10).0.active ≡ false)
    × ((z : Sizing) × ((evaluate manager signal (lit 100 0) state inputs).0.sizing ≡ some z)
        × Within limits signal (lit 100 0) state inputs z)
evaluate_allowed_example = evaluate_allowed manager signal (lit 100 0) state inputs refl allows

abbrev leaving : Signal
leaving = record signal { intent = exit }

-- A quarter of the peak is lost.
abbrev fallen : State
fallen = record state { equity = lit 750 0 }

drawdown_exceeded : le limits.maximum_drawdown (drawdown_fraction fallen) ≡ true
unfolding drawdown_fraction le div sub
drawdown_exceeded = refl

drawdown_latches_example :
    (evaluate
      (run_requests
        (evaluate manager signal (lit 100 0) fallen inputs).1
        (record { signal = leaving; price = lit 100 0; state = state; inputs = inputs } ∷ []))
      signal
      (lit 100 0)
      state
      inputs).0.allowed
    ≡ false
drawdown_latches_example =
    drawdown_latches manager signal signal (lit 100 0) (lit 100 0) fallen state inputs inputs
      (record { signal = leaving; price = lit 100 0; state = state; inputs = inputs } ∷ []) refl
      refl drawdown_exceeded
