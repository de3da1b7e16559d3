-- ===== src/Risk/Manager.antt =====
-- domain/risk/manager.py, `RiskManager`: the kill switch and the checks of a new entry.
use crypt_tool.Base.{
  ℕ, ◌≡◌, Bool, true, false, ◌&&◌, ◌||◌, not, String, str_eq, Option, none, some, List, [], ◌∷◌,
  ◌++◌, leb, ltb, if◌then◌else◌,
}
use crypt_tool.Base.Int.{pos}
use crypt_tool.Base.Results.{value_error, Exception, Result, ok, err, refuse_if, ◌>>=◌, ◌>>◌}
use crypt_tool.Time.{Timestamp, aware}
use crypt_tool.Decimal.{Decimal, zero_dec, le, lt, mul, min_dec}
use crypt_tool.Risk.Breaker.{
  Halt, data_anomaly, daily_loss, weekly_loss, max_drawdown, consecutive_losses, api_unhealthy,
  websocket_disconnected, spread_anomaly, price_divergence, manual_kill_switch, Breaker, trip,
  trip_for, Status, status_at, reset,
}
use crypt_tool.Risk.Models.{
  Limits, State, Intent, entry, exit, reduce, Regime, is_unknown, Signal, daily_loss_fraction,
  weekly_loss_fraction, drawdown_fraction, symbol_exposure, exchange_exposure, Sizing,
  missing_sizing_input,
}
use crypt_tool.Risk.Sizing.{Inputs, size}
pub mod Entry
pub mod Halting

pub record Manager : Type 0 where
  pub limits : Limits
  pub breaker : Breaker

abbrev on_breaker : Manager → Result Breaker → Result Manager
on_breaker m r = r >>= λ b. ok (record m { breaker = b })

-- `reason.strip()` is the library's; the text is passed stripped.
unfoldable pub activate_kill_switch : Manager → Timestamp → String → Result Manager
activate_kill_switch m t stripped = do
  refuse_if (str_eq stripped "") "kill-switch reason is required"
  on_breaker m (trip m.breaker manual_kill_switch t true none (some stripped))

unfoldable pub reset_kill_switch : Manager → Timestamp → String → Result Manager
reset_kill_switch m t confirmation = on_breaker m (reset m.breaker confirmation t)

-- The texts of `reasons`.
pub data Refusal : Type 0 where
  signal_expired unknown_regime low_confidence low_data_quality daily_loss_reached : Refusal
  weekly_loss_reached drawdown_reached loss_streak data_unhealthy api_failed : Refusal
  websocket_down spread_abnormal divergence_abnormal gross_exhausted symbol_exhausted : Refusal
  exchange_exhausted positions_exhausted breaker_active : Refusal

-- A check of `evaluate`: whether it fails, what it adds to `reasons`, and the halt that it trips.
pub data Effect : Type 0 where
  no_halt : Effect
  transient critical : Halt → Effect

pub record Check : Type 0 where
  pub fails : Bool
  pub refusal : Refusal
  pub effect : Effect

abbrev check : Bool → Refusal → Effect → Check
check fails refusal effect = record { fails = fails; refusal = refusal; effect = effect }

abbrev pub equity_share : State → Decimal → Decimal
equity_share s limit = mul s.equity limit

-- The checks of an entry, in the order of the code.
unfoldable pub checks : Limits → Signal → State → List Check
checks l g s =
    check (ltb g.valid_until s.timestamp) signal_expired no_halt
    ∷ check (is_unknown g.primary_regime) unknown_regime no_halt
    ∷ check (lt g.confidence l.minimum_signal_confidence) low_confidence no_halt
    ∷ check (lt (min_dec g.data_quality_score s.data_quality_score) l.minimum_data_quality)
        low_data_quality (transient data_anomaly)
    ∷ check (le l.maximum_daily_loss (daily_loss_fraction s)) daily_loss_reached
        (transient daily_loss)
    ∷ check (le l.maximum_weekly_loss (weekly_loss_fraction s)) weekly_loss_reached
        (transient weekly_loss)
    ∷ check (le l.maximum_drawdown (drawdown_fraction s)) drawdown_reached (critical max_drawdown)
    ∷ check (leb l.maximum_consecutive_losses s.consecutive_losses) loss_streak
        (transient consecutive_losses)
    ∷ check (not s.data_healthy) data_unhealthy (transient data_anomaly)
    ∷ check (not s.api_healthy) api_failed (transient api_unhealthy)
    ∷ check (not s.websocket_connected) websocket_down (transient websocket_disconnected)
    ∷ check (lt l.maximum_spread_fraction s.spread_fraction) spread_abnormal
        (transient spread_anomaly)
    ∷ check (lt l.maximum_price_divergence_fraction s.price_divergence_fraction) divergence_abnormal
        (transient price_divergence)
    ∷ check
        (le (min_dec (equity_share s l.maximum_gross_exposure) (equity_share s l.maximum_leverage))
          s.gross_exposure)
        gross_exhausted no_halt
    ∷ check (le (equity_share s l.maximum_symbol_exposure) (symbol_exposure s g)) symbol_exhausted
        no_halt
    ∷ check (le (equity_share s l.maximum_exchange_exposure) (exchange_exposure s g))
        exchange_exhausted no_halt
    ∷ check (leb l.maximum_positions s.open_positions) positions_exhausted no_halt
    ∷ []

-- The refusals and the halts of the checks that fail.
unfoldable pub refusals : List Check → List Refusal
refusals [] = []
refusals (c ∷ cs) = let rest = refusals cs in if c.fails then c.refusal ∷ rest else rest

abbrev transient_of : Effect → List Halt
transient_of (transient h) = h ∷ []
transient_of _ = []

abbrev critical_of : Effect → List Halt
critical_of (critical h) = h ∷ []
critical_of _ = []

unfoldable pub transient_halts : List Check → List Halt
transient_halts [] = []
transient_halts (c ∷ cs) =
    let rest = transient_halts cs in if c.fails then transient_of c.effect ++ rest else rest

unfoldable pub critical_halts : List Check → List Halt
critical_halts [] = []
critical_halts (c ∷ cs) =
    let rest = critical_halts cs in if c.fails then critical_of c.effect ++ rest else rest

-- `for halt in halts: self.breaker.trip(halt, state.timestamp, ...)`: the timestamp of a state is
-- aware and the default cooldown positive, so no trip raises.
unfoldable pub trip_all : Bool → ℕ → List Halt → Breaker → Breaker
trip_all manual t [] b = b
trip_all manual t (h ∷ hs) b =
    trip_all manual t hs (trip_for b h t manual b.default_cooldown_seconds none)

-- The texts of a decision: the refusals of the checks, that of the sizing, or one of two notices.
pub data Notice : Type 0 where
  refused : List Refusal → Notice
  sizing_refused : String → Notice
  risk_reducing all_passed : Notice

-- `dict.fromkeys` drops nothing here: each check has its own text.
pub record Decision : Type 0 where
  pub allowed : Bool
  pub reasons : Notice
  pub sizing : Option Sizing
  pub evaluated_at : ℕ
  pub breaker_reasons : List Halt

abbrev decide : State → Bool → Notice → Option Sizing → List Halt → Decision
decide s allowed reasons sizing halts = record {
  allowed = allowed;
  reasons = reasons;
  sizing = sizing;
  evaluated_at = s.timestamp;
  breaker_reasons = halts;
}

-- The `try` around the sizing: a `ValueError` becomes a refused size.
abbrev pub sized_or_refused : Result Sizing → Sizing
sized_or_refused (ok z) = z
sized_or_refused (err e) = record {
  accepted = false;
  quantity = zero_dec;
  notional = zero_dec;
  risk_amount = zero_dec;
  binding_constraint = missing_sizing_input;
  candidate_notionals = [];
  reason = "sizing requires an unavailable input";
}

abbrev pub sizing_decision : State → Sizing → Decision
sizing_decision s z =
    if z.accepted
    then decide s true all_passed (some z) []
    else decide s false (sizing_refused z.reason) (some z) []

abbrev pub conclude : State → List Refusal → List Halt → Sizing → Decision
conclude s [] halts z = sizing_decision s z
conclude s (r ∷ rs) halts z = decide s false (refused (r ∷ rs)) none halts

abbrev pub breaker_refusal : Bool → List Refusal
breaker_refusal true = breaker_active ∷ []
breaker_refusal false = []

-- The breaker after the trips of the checks.
unfoldable pub tripped : Manager → List Check → State → Breaker
tripped m cs s =
    trip_all true s.timestamp (critical_halts cs)
      (trip_all false s.timestamp (transient_halts cs) m.breaker)

-- `evaluate` of an entry.
unfoldable pub evaluate_entry : Manager → Signal → Decimal → State → Inputs → Decision × Manager
evaluate_entry m g price s i =
    let cs = checks m.limits g s in
    let (status, b) = status_at (tripped m cs s) s.timestamp in
    (
      conclude s (refusals cs ++ breaker_refusal status.active) status.reasons
          (sized_or_refused (size m.limits g price s i)),
      record m { breaker = b },
    )

-- `evaluate`: what reduces risk is allowed, and only asks for the breaker's status.
unfoldable pub evaluate_intent :
    Intent → Manager → Signal → Decimal → State → Inputs → Decision × Manager
evaluate_intent entry m g price s i = evaluate_entry m g price s i
evaluate_intent _ m g price s i =
    let (status, b) = status_at m.breaker s.timestamp in
    (decide s true risk_reducing none status.reasons, record m { breaker = b })

unfoldable pub evaluate : Manager → Signal → Decimal → State → Inputs → Decision × Manager
evaluate m g price s i = evaluate_intent g.intent m g price s i
