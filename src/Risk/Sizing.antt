-- ===== src/Risk/Sizing.antt =====
-- domain/risk/sizing.py: the size of an entry, from a risk budget and the exposures.
use crypt_tool.Base.{
  ℕ, ◌≡◌, Bool, true, false, ◌&&◌, ◌||◌, not, String, Option, none, some, List, [], ◌∷◌, ◌++◌,
  if◌then◌else◌, ◌==◌,
}
use crypt_tool.Base.Results.{Exception, value_error, Result, ok, err, ◌>>=◌}
use crypt_tool.Decimal.{
  Decimal, zero_dec, one_dec, le, lt, eq, sub, mul, div, abs, min_dec, max_dec, round_floor,
}
use crypt_tool.Risk.Models.{
  SizingMethod, conservative_minimum, fixed_fractional, volatility_targeting, atr_based,
  maximum_loss, Limits, State, SignalSide, buy, sell, Signal, symbol_exposure, exchange_exposure,
  Constraint, by_method, by_gross_exposure, by_leverage, by_symbol_exposure, by_exchange_exposure,
  invalid_input, Sizing,
}
pub mod Bounds

-- The optional inputs of `size`.
pub record Inputs : Type 0 where
  pub stop_price : Option Decimal
  pub atr : Option Decimal
  pub annualized_volatility : Option Decimal
  pub lot_size : Option Decimal
  pub minimum_notional : Option Decimal

abbrev pub Candidates : Type 0
Candidates = List (Constraint × Decimal)

-- `_reject`
unfoldable pub reject : String → Candidates → Constraint → Decimal → Sizing
reject reason candidates binding risk_amount = record {
  accepted = false;
  quantity = zero_dec;
  notional = zero_dec;
  risk_amount = risk_amount;
  binding_constraint = binding;
  candidate_notionals = candidates;
  reason = reason;
}

abbrev invalid : String → Sizing
invalid reason = reject reason [] invalid_input zero_dec

abbrev pub is_some_and : Option Decimal → (Decimal → Bool) → Bool
is_some_and none p = false
is_some_and (some v) p = p v

abbrev bad_side : SignalSide → Decimal → Decimal → Option String
bad_side buy stop price =
    if le price stop then some "buy entry stop must be below entry price" else none
bad_side sell stop price =
    if le stop price then some "sell entry stop must be above entry price" else none
bad_side _ stop price = none

unfoldable pub risk_amount : Limits → Signal → State → Decimal
risk_amount l g s =
    mul (mul s.equity (min_dec g.suggested_risk_fraction l.maximum_risk_per_trade))
      (min_dec g.strength g.confidence)

unfoldable pub stop_fraction : Decimal → Decimal → Decimal
stop_fraction price stop = div (abs (sub price stop)) price

abbrev atr_candidate : Limits → Decimal → Decimal → Option Decimal → Candidates
atr_candidate l amount price none = []
atr_candidate l amount price (some atr) =
    (by_method atr_based, div amount (div (mul l.atr_multiple atr) price)) ∷ []

abbrev volatility_candidate : Limits → State → Option Decimal → Candidates
volatility_candidate l s none = []
volatility_candidate l s (some v) =
    (by_method volatility_targeting, div (mul s.equity l.annual_volatility_target) v) ∷ []

-- What an exposure limit leaves: max(equity * limit - exposure, 0).
unfoldable pub headroom : State → Decimal → Decimal → Decimal
headroom s limit exposure = max_dec (sub (mul s.equity limit) exposure) zero_dec

-- The four exposure limits, which every method keeps.
unfoldable pub exposure_candidates : Limits → Signal → State → Candidates
exposure_candidates l g s =
    (by_gross_exposure, headroom s l.maximum_gross_exposure s.gross_exposure)
    ∷ (by_leverage, headroom s l.maximum_leverage s.gross_exposure)
    ∷ (by_symbol_exposure, headroom s l.maximum_symbol_exposure (symbol_exposure s g))
    ∷ (by_exchange_exposure, headroom s l.maximum_exchange_exposure (exchange_exposure s g))
    ∷ []

unfoldable pub method_candidates :
    Limits → Signal → State → Decimal → Decimal → Option Decimal → Option Decimal → Candidates
method_candidates l g s price stop atr volatility =
    let amount = risk_amount l g s in
    let fraction = stop_fraction price stop in
    (by_method fixed_fractional, div amount fraction)
    ∷ (by_method maximum_loss, div amount (max_dec fraction l.maximum_loss_floor_fraction))
    ∷ (atr_candidate l amount price atr ++ volatility_candidate l s volatility)

abbrev method_rank : SizingMethod → ℕ
method_rank conservative_minimum = 0
method_rank fixed_fractional = 1
method_rank volatility_targeting = 2
method_rank atr_based = 3
method_rank maximum_loss = 4

abbrev is_method : SizingMethod → Constraint → Bool
is_method m (by_method k) = method_rank m == method_rank k
is_method m _ = false

-- `candidates.get(method)`
unfoldable pub requested : SizingMethod → Candidates → Option Decimal
requested m [] = none
requested m ((c, v) ∷ cs) = if is_method m c then some v else requested m cs

abbrev selected_only : SizingMethod → Option Decimal → Candidates → Result Candidates
selected_only m none always = err (value_error "sizing requires an unavailable input")
selected_only m (some v) always = ok ((by_method m, v) ∷ always)

-- `_select_candidates`, over the candidates of the methods and of the exposures.
unfoldable pub select : SizingMethod → Candidates → Candidates → Result Candidates
select conservative_minimum methods always = ok (methods ++ always)
select m methods always = selected_only m (requested m methods) always

-- `min(selected.items(), key=lambda item: item[1])`: the first least value.
unfoldable pub least : Constraint × Decimal → Candidates → Constraint × Decimal
least best [] = best
least best (c ∷ cs) = least (if lt c.1 best.1 then c else best) cs

-- The least of a list; every list of candidates holds the four exposures.
unfoldable pub binding_of : Candidates → Constraint × Decimal
binding_of [] = (invalid_input, zero_dec)
binding_of (c ∷ cs) = least c cs

abbrev in_lots : Option Decimal → Decimal → Decimal
in_lots none q = q
in_lots (some lot) q = mul (round_floor (div q lot)) lot

unfoldable pub lot_quantity : Inputs → Decimal → Decimal → Decimal
lot_quantity i price capped = in_lots i.lot_size (div capped price)

-- The end of `size`, from the binding constraint on.
unfoldable pub finish : Inputs → Decimal → Decimal → Candidates → Constraint → Decimal → Sizing
finish i price amount candidates binding capped =
    let quantity = lot_quantity i price capped in
    if le capped zero_dec || le amount zero_dec
    then reject "risk or exposure budget is exhausted" candidates binding amount
    else if le quantity zero_dec
    then reject "quantity rounds to zero at configured lot size" candidates binding amount
    else if is_some_and i.minimum_notional (λ m. lt (mul quantity price) m)
    then reject "notional is below minimum" candidates binding amount
    else record {
      accepted = true;
      quantity = quantity;
      notional = mul quantity price;
      risk_amount = amount;
      binding_constraint = binding;
      candidate_notionals = candidates;
      reason = "sized to the most conservative active constraint";
    }

unfoldable pub size_from :
    Limits → Inputs → Decimal → Decimal → Candidates → Candidates → Result Sizing
size_from l i price amount methods always = select l.sizing_method methods always >>= λ selected.
    ok (finish i price amount (methods ++ always) (binding_of selected).0 (binding_of selected).1)

unfoldable pub size_at : Limits → Signal → Decimal → Decimal → State → Inputs → Result Sizing
size_at l g price stop s i =
    if is_some_and i.atr (λ a. le a zero_dec)
    then ok (invalid "ATR must be positive when supplied")
    else if is_some_and i.annualized_volatility (λ v. le v zero_dec)
    then ok (invalid "annualized volatility must be positive when supplied")
    else size_from l i price (risk_amount l g s)
        (method_candidates l g s price stop i.atr i.annualized_volatility)
        (exposure_candidates l g s)

abbrev size_with_stop : Limits → Signal → Decimal → Option Decimal → State → Inputs → Result Sizing
size_with_stop l g price none s i = ok (invalid "a distinct positive stop price is required")
size_with_stop l g price (some stop) s i =
    if le stop zero_dec || eq stop price
    then ok (invalid "a distinct positive stop price is required")
    else elim (bad_side g.side stop price) [
      | some reason ↦ ok (invalid reason)
      | none ↦
          if is_some_and i.lot_size (λ v. le v zero_dec)
          then ok (invalid "lot_size must be positive")
          else if is_some_and i.minimum_notional (λ v. lt v zero_dec)
          then ok (invalid "minimum_notional cannot be negative")
          else size_at l g price stop s i
    ]

-- `PositionSizer.size`
unfoldable pub size : Limits → Signal → Decimal → State → Inputs → Result Sizing
size l g price s i =
    if le price zero_dec
    then ok (invalid "entry price must be positive")
    else size_with_stop l g price i.stop_price s i
