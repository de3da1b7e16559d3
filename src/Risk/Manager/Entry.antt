-- ===== src/Risk/Manager/Entry.antt =====
-- domain/risk/manager.py: what an entry that is allowed has passed.
use crypt_tool.Base.{
  ◌≤◌, ◌<◌, ◌≡◌, refl, sym, ap, ◌∙◌, true, false, some, List, [], ◌∷◌, ◌++◌, All, arith,
}
use crypt_tool.Base.Results.{Result, ok, err}
use crypt_tool.Decimal.{Decimal, le, lt, min_dec}
use crypt_tool.Risk.Breaker.{Halt, status_at}
use crypt_tool.Risk.Models.{
  Limits, State, entry, is_unknown, Signal, daily_loss_fraction, weekly_loss_fraction,
  drawdown_fraction, symbol_exposure, exchange_exposure, Sizing,
}
use crypt_tool.Risk.Sizing.{Inputs, size}
use crypt_tool.Risk.Sizing.Bounds.{Within, size-Within}
use crypt_tool.Risk.Manager.{
  Manager, Check, Refusal, Decision, sized_or_refused, breaker_refusal, equity_share, checks,
  refusals, tripped, conclude, evaluate_entry, evaluate_intent, evaluate,
}

-- No check fails, said of what the checks are about.
pub record Cleared (l : Limits) (g : Signal) (s : State) : Type 0 where
  pub fresh : s.timestamp ≤ g.valid_until
  pub known : is_unknown g.primary_regime ≡ false
  pub confident : le l.minimum_signal_confidence g.confidence ≡ true
  pub signal_quality :
      le l.minimum_data_quality (min_dec g.data_quality_score s.data_quality_score) ≡ true
  pub daily : lt (daily_loss_fraction s) l.maximum_daily_loss ≡ true
  pub weekly : lt (weekly_loss_fraction s) l.maximum_weekly_loss ≡ true
  pub drawdown : lt (drawdown_fraction s) l.maximum_drawdown ≡ true
  pub streak : s.consecutive_losses < l.maximum_consecutive_losses
  pub healthy : (s.data_healthy ≡ true) × (s.api_healthy ≡ true) × (s.websocket_connected ≡ true)
  pub spread : le s.spread_fraction l.maximum_spread_fraction ≡ true
  pub divergence : le s.price_divergence_fraction l.maximum_price_divergence_fraction ≡ true
  pub gross :
      lt s.gross_exposure
        (min_dec (equity_share s l.maximum_gross_exposure) (equity_share s l.maximum_leverage))
      ≡ true
  pub symbol : lt (symbol_exposure s g) (equity_share s l.maximum_symbol_exposure) ≡ true
  pub exchange : lt (exchange_exposure s g) (equity_share s l.maximum_exchange_exposure) ≡ true
  pub positions : s.open_positions < l.maximum_positions

abbrev NoneFails : List Check → Type 0
NoneFails = All (λ c. c.fails ≡ false)

refusals-nil : (cs : List Check) → refusals cs ≡ [] → NoneFails cs
unfolding refusals
refusals-nil [] h = tt
refusals-nil (c ∷ cs) h = ground (arith, refusals-nil cs)

checks-Cleared : (l : Limits) (g : Signal) (s : State) → NoneFails (checks l g s) → Cleared l g s
unfolding checks
checks-Cleared l g s h = ground arith

append-nil_parts {ℓ} : {A : Type ℓ} (xs ys : List A) → xs ++ ys ≡ [] → (xs ≡ []) × (ys ≡ [])
append-nil_parts [] ys h = (refl, h)
append-nil_parts (x ∷ xs) ys h = absurd (cc)

conclude_allowed :
    (s : State) (rs : List Refusal) (halts : List Halt) (z : Sizing)
    → (conclude s rs halts z).allowed ≡ true
    → (rs ≡ []) × (z.accepted ≡ true) × ((conclude s rs halts z).sizing ≡ some z)
conclude_allowed s [] halts z h = ground arith
conclude_allowed s (r ∷ rs) halts z h = absurd (ground arith)

sized_ok : (r : Result Sizing) → (sized_or_refused r).accepted ≡ true → r ≡ ok (sized_or_refused r)
sized_ok (ok z) h = refl
sized_ok (err e) h = absurd (ground arith)

pub evaluate_of_entry :
    (m : Manager) (g : Signal) (price : Decimal) (s : State) (i : Inputs)
    → g.intent ≡ entry
    → evaluate m g price s i ≡ evaluate_entry m g price s i
unfolding evaluate evaluate_intent
evaluate_of_entry m g price s i e = ap (λ x. evaluate_intent x m g price s i) e

-- An entry is allowed only if none of the checks of the signal, the losses, the health, the
-- spreads and the exposures fails, the breaker is inactive after their trips, and the size that
-- is returned is positive and the greatest whole number of lots (without lots, the whole) that is
-- not above the quotient, to 28 digits, by the price of a notional that is at most what each of the
-- four exposure limits leaves.
pub evaluate_allowed :
    (m : Manager) (g : Signal) (price : Decimal) (s : State) (i : Inputs)
    → g.intent ≡ entry
    → (evaluate m g price s i).0.allowed ≡ true
    → Cleared m.limits g s
      × ((status_at (tripped m (checks m.limits g s) s) s.timestamp).0.active ≡ false)
      × ((z : Sizing) × ((evaluate m g price s i).0.sizing ≡ some z)
          × Within m.limits g price s i z)
unfolding evaluate_entry
evaluate_allowed m g price s i e h =
    let cs = checks m.limits g s in
    let st = (status_at (tripped m cs s) s.timestamp).0 in
    let z = sized_or_refused (size m.limits g price s i) in
    let rs = refusals cs ++ breaker_refusal st.active in
    let same = evaluate_of_entry m g price s i e in
    let (none_refused, accepted, returned) =
      conclude_allowed s rs st.reasons z
        (ap (λ (r : Decision × Manager). r.0.allowed) (sym same) ∙ h) in
    let (passed, calm) = append-nil_parts (refusals cs) (breaker_refusal st.active) none_refused in
    (
      checks-Cleared m.limits g s (refusals-nil cs passed),
      ground arith,
      (
        z,
        ap (λ (r : Decision × Manager). r.0.sizing) same ∙ returned,
        size-Within m.limits g price s i z (sized_ok (size m.limits g price s i) accepted) accepted,
      ),
    )
