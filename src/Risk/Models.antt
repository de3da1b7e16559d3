-- ===== src/Risk/Models.antt =====
-- domain/risk/models.py and the signals of domain/strategies/models.py, as the risk manager
-- reads them. Floats are read as the decimals that they print as.
use crypt_tool.Base.{ℕ, Bool, true, false, ◌||◌, String, Option, none, some, List, any}
use crypt_tool.Base.Dict
use crypt_tool.Base.Results.{Result, ok, refuse_if, ◌>>◌}
use crypt_tool.Decimal.{Decimal, zero_dec, lt, sub, div, neg, max_dec}

pub data SizingMethod : Type 0 where
  conservative_minimum fixed_fractional volatility_targeting atr_based maximum_loss : SizingMethod

pub record Limits : Type 0 where
  pub maximum_leverage : Decimal
  pub maximum_risk_per_trade : Decimal
  pub maximum_daily_loss : Decimal
  pub maximum_weekly_loss : Decimal
  pub maximum_drawdown : Decimal
  pub maximum_gross_exposure : Decimal
  pub maximum_symbol_exposure : Decimal
  pub maximum_exchange_exposure : Decimal
  pub maximum_positions : ℕ
  pub maximum_consecutive_losses : ℕ
  pub minimum_data_quality : Decimal
  pub minimum_signal_confidence : Decimal
  pub maximum_spread_fraction : Decimal
  pub maximum_price_divergence_fraction : Decimal
  pub cooldown_seconds : ℕ
  pub annual_volatility_target : Decimal
  pub atr_multiple : Decimal
  pub maximum_loss_floor_fraction : Decimal
  pub sizing_method : SizingMethod

-- `exposure_limits_must_be_consistent`
unfoldable pub check_limits : Limits → Result Limits
check_limits l = do
  refuse_if (lt l.maximum_gross_exposure l.maximum_symbol_exposure)
      "symbol exposure cannot exceed gross exposure"
  refuse_if (lt l.maximum_gross_exposure l.maximum_exchange_exposure)
      "exchange exposure cannot exceed gross exposure"
  refuse_if (lt l.maximum_weekly_loss l.maximum_daily_loss)
      "weekly loss limit cannot be below the daily limit"
  ok l

pub record State : Type 0 where
  pub timestamp : ℕ
  pub equity : Decimal
  pub peak_equity : Decimal
  pub day_start_equity : Decimal
  pub week_start_equity : Decimal
  pub realized_pnl_today : Decimal
  pub realized_pnl_week : Decimal
  pub gross_exposure : Decimal
  pub symbol_exposures : List (String × Decimal)
  pub exchange_exposures : List (String × Decimal)
  pub open_positions : ℕ
  pub consecutive_losses : ℕ
  pub data_quality_score : Decimal
  pub data_healthy : Bool
  pub api_healthy : Bool
  pub websocket_connected : Bool
  pub spread_fraction : Decimal
  pub price_divergence_fraction : Decimal

-- The two validators of the exposures and of the peak.
unfoldable pub check_state : State → Result State
check_state s = do
  refuse_if
      (any (λ v. lt v zero_dec) (Dict.values s.symbol_exposures)
        || any (λ v. lt v zero_dec) (Dict.values s.exchange_exposures))
      "exposures must be non-negative absolute notionals"
  refuse_if (lt s.peak_equity s.equity) "peak_equity cannot be below current equity"
  ok s

unfoldable pub daily_loss_fraction : State → Decimal
daily_loss_fraction s = max_dec (div (neg s.realized_pnl_today) s.day_start_equity) zero_dec

unfoldable pub weekly_loss_fraction : State → Decimal
weekly_loss_fraction s = max_dec (div (neg s.realized_pnl_week) s.week_start_equity) zero_dec

unfoldable pub drawdown_fraction : State → Decimal
drawdown_fraction s = max_dec (div (sub s.peak_equity s.equity) s.peak_equity) zero_dec

pub data SignalSide : Type 0 where
  buy sell flat : SignalSide

pub data Intent : Type 0 where
  entry exit reduce : Intent

pub data Regime : Type 0 where
  trend_up trend_down range high_volatility low_volatility long_squeeze short_squeeze : Regime
  liquidation_cascade flash_crash funding_extreme_positive funding_extreme_negative : Regime
  oi_expansion oi_contraction spot_led_move perp_led_move risk_off unknown : Regime

abbrev pub is_unknown : Regime → Bool
is_unknown unknown = true
is_unknown _ = false

-- The fields of a `Signal` that risk management reads.
pub record Signal : Type 0 where
  pub signal_id : String
  pub symbol : String
  pub exchange : Option String
  pub side : SignalSide
  pub intent : Intent
  pub strength : Decimal
  pub confidence : Decimal
  pub suggested_risk_fraction : Decimal
  pub primary_regime : Regime
  pub data_quality_score : Decimal
  pub valid_until : ℕ

-- `d.get(k, Decimal("0"))`
abbrev pub or_zero : Option Decimal → Decimal
or_zero none = zero_dec
or_zero (some v) = v

-- `signal.exchange or ""`
abbrev pub or_empty : Option String → String
or_empty none = ""
or_empty (some s) = s

unfoldable pub symbol_exposure : State → Signal → Decimal
symbol_exposure s g = or_zero (Dict.get g.symbol s.symbol_exposures)

unfoldable pub exchange_exposure : State → Signal → Decimal
exchange_exposure s g = or_zero (Dict.get (or_empty g.exchange) s.exchange_exposures)

-- Where a size came from, or what bound it.
pub data Constraint : Type 0 where
  by_method : SizingMethod → Constraint
  by_gross_exposure by_leverage by_symbol_exposure by_exchange_exposure : Constraint
  invalid_input missing_sizing_input : Constraint

pub record Sizing : Type 0 where
  pub accepted : Bool
  pub quantity : Decimal
  pub notional : Decimal
  pub risk_amount : Decimal
  pub binding_constraint : Constraint
  pub candidate_notionals : List (Constraint × Decimal)
  pub reason : String
