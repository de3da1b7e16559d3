-- ===== src/Live/Preflight.antt =====
-- services/live_trading/preflight.py, and the test of its report in
-- services/live_trading/gateway.py. Floats are read as the decimals that they print as.
use crypt_tool.Base.{
  ℕ, Bool, true, false, ◌&&◌, ◌||◌, not, String, str_eq, Option, none, some, List, [], ◌∷◌, any,
  all, map, is_some,
}
use crypt_tool.Base.Results.{Result, ok, refuse_if, ◌>>=◌, ◌>>◌}
use crypt_tool.Decimal.{Decimal, le}
pub mod Integrity

-- The settings that the preflight reads. `withdrawal_disabled` is
-- `withdrawal_permission_confirmed_disabled`.
pub record Settings : Type 0 where
  pub environment : String
  pub live_trading : Bool
  pub live_enabled : Bool
  pub paper_trading : Bool
  pub paper_enabled : Bool
  pub dry_run : Bool
  pub live_confirmation : Option String
  pub adapter_name : String
  pub exchanges : List (String × Bool)
  pub exchange_api_key : Option String
  pub exchange_api_secret : Option String
  pub withdrawal_disabled : Bool
  pub minimum_data_quality : Decimal
  pub maximum_clock_skew_seconds : Decimal

pub record Context : Type 0 where
  pub timestamp : ℕ
  pub operator_confirmation : String
  pub adapter_name : String
  pub adapter_is_concrete : Bool
  pub adapter_healthy : Bool
  pub data_quality_score : Decimal
  pub websocket_connected : Bool
  pub clock_skew_seconds : Decimal
  pub kill_switch_active : Bool
  pub paper_validation_passed : Bool
  pub out_of_sample_validation_passed : Bool

pub record Check : Type 0 where
  pub name : String
  pub passed : Bool
  pub reason : String

pub record Report : Type 0 where
  pub timestamp : ℕ
  pub approved : Bool
  pub checks : List Check
  pub warning : String

abbrev pub secret_or_empty : Option String → String
secret_or_empty none = ""
secret_or_empty (some s) = s

-- `adapter_name in configured_execution`
unfoldable pub is_configured : String → List (String × Bool) → Bool
is_configured name [] = false
is_configured name ((exchange, enabled) ∷ es) =
    enabled && str_eq exchange name || is_configured name es

abbrev check : String → Bool → String → Check
check name passed reason = record { name = name; passed = passed; reason = reason }

unfoldable pub adapter_matches : Settings → Context → Bool
adapter_matches s c =
    c.adapter_is_concrete
    && not (str_eq c.adapter_name "disabled")
    && str_eq s.adapter_name c.adapter_name
    && is_configured c.adapter_name s.exchanges

unfoldable pub checks : Settings → Context → List Check
checks s c =
    check "production_environment" (str_eq s.environment "production")
      "environment must be production"
    ∷ check "live_enabled" (s.live_trading && s.live_enabled)
        "both live flags must be explicitly enabled"
    ∷ check "paper_disabled" (not s.paper_trading && not s.paper_enabled)
        "paper mode must be explicitly disabled"
    ∷ check "dry_run_disabled" (not s.dry_run) "dry-run must be explicitly disabled"
    ∷ check "configuration_confirmation"
        (str_eq (secret_or_empty s.live_confirmation) "I_ACCEPT_LIVE_TRADING_RISK")
        "exact configuration confirmation is required"
    ∷ check "runtime_confirmation" (str_eq c.operator_confirmation "ENABLE_LIVE_EXECUTION_NOW")
        "exact runtime confirmation is required and is never stored"
    ∷ check "concrete_adapter" (adapter_matches s c)
        "a matching execution-enabled concrete adapter is required"
    ∷ check "adapter_health" c.adapter_healthy "execution adapter health check must pass"
    ∷ check "credentials_present" (is_some s.exchange_api_key && is_some s.exchange_api_secret)
        "credentials must come from the environment"
    ∷ check "withdrawal_permission_disabled" s.withdrawal_disabled
        "withdrawal permission is forbidden"
    ∷ check "data_quality" (le s.minimum_data_quality c.data_quality_score)
        "live data quality must meet the stricter live threshold"
    ∷ check "websocket_connected" c.websocket_connected "market-data WebSocket must be connected"
    ∷ check "clock_synchronized" (le c.clock_skew_seconds s.maximum_clock_skew_seconds)
        "clock skew exceeds the configured maximum"
    ∷ check "kill_switch_clear" (not c.kill_switch_active) "kill switch must be clear at startup"
    ∷ check "paper_validation" c.paper_validation_passed "paper-trading acceptance must be recorded"
    ∷ check "out_of_sample_validation" c.out_of_sample_validation_passed
        "untouched OOS acceptance must be recorded"
    ∷ []

abbrev pub has_passed : Check → Bool
has_passed c = c.passed

unfoldable pub evaluate_live_preflight : Settings → Context → Report
evaluate_live_preflight s c = record {
  timestamp = c.timestamp;
  approved = all has_passed (checks s c);
  checks = checks s c;
  warning = elim (all has_passed (checks s c)) [
    | true ↦ "LIVE EXECUTION APPROVED: real orders may be sent"
    | false ↦ "LIVE EXECUTION REFUSED: one or more safety checks failed"
  ];
}

-- The names that `_validate_preflight_integrity` requires.
abbrev pub required_checks : List String
required_checks =
    "production_environment" ∷ "live_enabled" ∷ "paper_disabled" ∷ "dry_run_disabled"
    ∷ "configuration_confirmation" ∷ "runtime_confirmation" ∷ "concrete_adapter" ∷ "adapter_health"
    ∷ "credentials_present" ∷ "withdrawal_permission_disabled" ∷ "data_quality"
    ∷ "websocket_connected" ∷ "clock_synchronized" ∷ "kill_switch_clear" ∷ "paper_validation"
    ∷ "out_of_sample_validation" ∷ []

abbrev pub occurs : String → List String → Bool
occurs x = any (str_eq x)

-- Equality of the sets of two lists.
unfoldable pub same_set : List String → List String → Bool
same_set xs ys = all (λ x. occurs x ys) xs && all (λ y. occurs y xs) ys

pub record Adapter : Type 0 where
  pub adapter_name : String
  pub is_concrete : Bool

unfoldable pub validate_preflight_integrity : Settings → Adapter → Report → Result (Unit {0})
validate_preflight_integrity s a r = do
  refuse_if
      (r.approved && not (all has_passed r.checks) || not r.approved && all has_passed r.checks)
      "preflight approval is inconsistent with its checks"
  refuse_if (r.approved && not (same_set (map (λ (c : Check). c.name) r.checks) required_checks))
      "approved preflight is missing required safety checks"
  refuse_if (r.approved && (not a.is_concrete || not (str_eq a.adapter_name s.adapter_name)))
      "approved preflight does not match the supplied concrete adapter"
  ok tt
