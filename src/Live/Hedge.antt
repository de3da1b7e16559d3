-- ===== src/Live/Hedge.antt =====
-- services/emergency_hedge.py: the venue at which an exposure is hedged in an emergency.
use crypt_tool.Base.{Bool, true, false, ◌&&◌, String, List, [], ◌∷◌, if◌then◌else◌}
use crypt_tool.Base.Results.{Result, ok, err, runtime_error}
use crypt_tool.Decimal.{Decimal, zero_dec, lt, eq, neg}
pub mod Selection

-- `concrete` is `is_concrete` of the adapter, false where the adapter has none.
pub record Candidate : Type 0 where
  pub venue : String
  pub concrete : Bool
  pub eligible : Bool
  pub live_health : Bool
  pub instrument_equivalent : Bool
  pub executable_depth : Decimal
  pub estimated_slippage : Decimal
  pub latency_ms : Decimal
  pub available_collateral : Decimal
  pub withdrawals_available : Bool
  pub chain_healthy : Bool
  pub exposure_within_budget : Bool

unfoldable pub passes : Candidate → Bool
passes c =
    c.eligible
    && c.live_health
    && c.instrument_equivalent
    && c.withdrawals_available
    && c.chain_healthy
    && c.exposure_within_budget
    && c.concrete
    && lt zero_dec c.available_collateral
    && lt zero_dec c.executable_depth

unfoldable pub keep_passing : List Candidate → List Candidate
keep_passing [] = []
keep_passing (c ∷ cs) = let rest = keep_passing cs in if passes c then c ∷ rest else rest

-- The key of `max`, as the tuple's items.
unfoldable pub key : Candidate → List Decimal
key c =
    c.executable_depth ∷ neg c.estimated_slippage ∷ neg c.latency_ms ∷ c.available_collateral ∷ []

-- `xs < ys` of tuples: the first items that differ decide.
unfoldable pub tuple_lt : List Decimal → List Decimal → Bool
tuple_lt [] [] = false
tuple_lt [] (y ∷ ys) = true
tuple_lt (x ∷ xs) [] = false
tuple_lt (x ∷ xs) (y ∷ ys) = if eq x y then tuple_lt xs ys else lt x y

-- `max`: the first of those with the greatest key.
unfoldable pub greatest : Candidate → List Candidate → Candidate
greatest best [] = best
greatest best (c ∷ cs) = greatest (if tuple_lt (key best) (key c) then c else best) cs

abbrev pub best_of : List Candidate → Result Candidate
best_of [] = err (runtime_error "no concrete execution venue satisfies emergency hedge gates")
best_of (c ∷ cs) = ok (greatest c cs)

unfoldable pub select_emergency_hedge : List Candidate → Result Candidate
select_emergency_hedge cs = best_of (keep_passing cs)
