-- ===== src/Live/Examples.antt =====
-- services/live_trading: a preflight, its report, writers of one binding, and hedge venues.
use crypt_tool.Base.{ℕ, ◌≡◌, ◌≤◌, refl, Bool, true, false, String, some, List, [], ◌∷◌, arith}
use crypt_tool.Base.Results.{ok}
use crypt_tool.Decimal.{Decimal, lit, zero_dec, one_dec}
use crypt_tool.Live.Preflight.{
  Settings, Context, Adapter, evaluate_live_preflight, validate_preflight_integrity,
}
use crypt_tool.Live.Preflight.Integrity.{evaluate-validate}
use crypt_tool.Live.Bindings.{
  Binding, reserved, halted, new_binding, compare_and_set, Values, Payload, Preflight, Service,
  issue, verify, all_distinct, version_of, get,
}
use crypt_tool.Live.Bindings.Versions.{run, one_winner}
use crypt_tool.Live.Bindings.Issue.{issue-verify}
use crypt_tool.Live.Hedge.{
  Candidate, passes, keep_passing, key, tuple_lt, greatest, select_emergency_hedge,
}
use crypt_tool.Live.Hedge.Selection.{Selected, select_emergency_hedge-Selected}

abbrev settings : Settings
settings = record {
  environment = "production";
  live_trading = true;
  live_enabled = true;
  paper_trading = false;
  paper_enabled = false;
  dry_run = false;
  live_confirmation = some "I_ACCEPT_LIVE_TRADING_RISK";
  adapter_name = "kraken";
  exchanges = ("kraken", true) ∷ [];
  exchange_api_key = some "key";
  exchange_api_secret = some "secret";
  withdrawal_disabled = true;
  minimum_data_quality = lit 9 1;
  maximum_clock_skew_seconds = one_dec;
}

abbrev context : Context
context = record {
  timestamp = 10;
  operator_confirmation = "ENABLE_LIVE_EXECUTION_NOW";
  adapter_name = "kraken";
  adapter_is_concrete = true;
  adapter_healthy = true;
  data_quality_score = one_dec;
  websocket_connected = true;
  clock_skew_seconds = zero_dec;
  kill_switch_active = false;
  paper_validation_passed = true;
  out_of_sample_validation_passed = true;
}

approves : (evaluate_live_preflight settings context).approved ≡ true
unfolding evaluate_live_preflight crypt_tool.Live.Preflight.checks
    crypt_tool.Live.Preflight.adapter_matches crypt_tool.Live.Preflight.is_configured
    crypt_tool.Decimal.le
approves = refl

evaluate-validate_example :
    validate_preflight_integrity settings
      (record { adapter_name = "kraken"; is_concrete = true })
      (evaluate_live_preflight settings context)
    ≡ ok tt
evaluate-validate_example =
    evaluate-validate settings context (record { adapter_name = "kraken"; is_concrete = true }) refl
      refl

abbrev reservation : Binding
reservation = new_binding "signal-1" "hash" reserved 10

abbrev halting : Binding
halting = new_binding "signal-1" "other" halted 11

reserves : (compare_and_set [] "signal-1" 0 reservation).0 ≡ true
unfolding compare_and_set new_binding version_of get crypt_tool.Base.Dict.get
reserves = refl

one_winner_example :
    let later =
      run
        (compare_and_set [] "signal-1" 0 reservation).1
        (record { signal_id = "signal-2"; expected = 0; binding = halting } ∷ []) in
    compare_and_set later "signal-1" 0 halting ≡ (false, later)
one_winner_example =
    one_winner [] "signal-1" 0 reservation halting
      (record { signal_id = "signal-2"; expected = 0; binding = halting } ∷ []) reserves

abbrev values : Values
values = record {
  issued_at = 10;
  snapshot_ids = "a" ∷ "b" ∷ [];
  signal_id = "signal-1";
  receive_venue = "kraken";
  pay_venue = "binance";
  canonical_instrument_id = "BTC-PERP";
  receive_capability_hash = "c1";
  pay_capability_hash = "c2";
  receive_source_event_hash = "e1";
  pay_source_event_hash = "e2";
  receive_execution_health = true;
  pay_execution_health = true;
  receive_available_collateral = lit 100 0;
  pay_available_collateral = lit 100 0;
  receive_fillable_quantity = one_dec;
  pay_fillable_quantity = one_dec;
  receive_expected_vwap = lit 50 0;
  pay_expected_vwap = lit 51 0;
  maximum_naked_exposure_duration_ms = 3000;
  created_at = 10;
  expires_at = 20;
}

abbrev service : Service
service = record { issuer_id = "issuer"; signing_key = []; commit_sha = "abc" }

-- The parameters, at functions of their arguments.
abbrev hash_of : Payload → String
hash_of p = p.values.signal_id

abbrev hmac_of : List ℕ → String → String
hmac_of key text = text

abbrev issued : Preflight
issued = record {
  payload = record { values = values; issuer_id = "issuer"; commit_sha = "abc" };
  preflight_hash = "signal-1";
  signature = "signal-1";
}

issues : issue hash_of hmac_of service values ≡ ok issued
unfolding issue all_distinct
issues = refl

issue-verify_example : verify hash_of hmac_of service issued 15 ≡ ok tt
issue-verify_example = issue-verify hash_of hmac_of service values issued 15 issues (omega arith)

abbrev candidate : String → Bool → Decimal → Candidate
candidate venue eligible depth = record {
  venue = venue;
  concrete = true;
  eligible = eligible;
  live_health = true;
  instrument_equivalent = true;
  executable_depth = depth;
  estimated_slippage = lit 2 3;
  latency_ms = lit 40 0;
  available_collateral = lit 100 0;
  withdrawals_available = true;
  chain_healthy = true;
  exposure_within_budget = true;
}

abbrev hedge_venues : List Candidate
hedge_venues =
    candidate "kraken" true (lit 5 0)
    ∷ candidate "okx" false (lit 9 0)
    ∷ candidate "bybit" true (lit 7 0)
    ∷ []

selects_the_deepest : select_emergency_hedge hedge_venues ≡ ok (candidate "bybit" true (lit 7 0))
unfolding select_emergency_hedge keep_passing passes greatest tuple_lt key crypt_tool.Decimal.le
    crypt_tool.Decimal.neg
selects_the_deepest = refl

select_emergency_hedge-Selected_example :
    Selected hedge_venues (select_emergency_hedge hedge_venues)
select_emergency_hedge-Selected_example = select_emergency_hedge-Selected hedge_venues
