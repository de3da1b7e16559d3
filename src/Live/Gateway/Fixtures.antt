-- ===== src/Live/Gateway/Fixtures.antt =====
-- services/live_trading/gateway.py: orders of a carry signal over two venues, and an exchange that
-- accepts them.
use crypt_tool.Base.{Bool, true, false, String, Option, none, some, List, [], ◌∷◌}
use Prim.Native.String.{◌++◌ as str_append}
use crypt_tool.Base.Dict
use crypt_tool.Base.Results.{ok}
use crypt_tool.Time.{aware}
use crypt_tool.Decimal.{lit, zero_dec, one_dec}
use crypt_tool.Execution.Orders.{Side, buy, sell, market}
use crypt_tool.Risk.Models.{Sizing, by_leverage}
use crypt_tool.Risk.Manager.{all_passed}
use crypt_tool.Venues.Capability.{UseCase, new_exposure, emergency_exit, live_verified}
use crypt_tool.Venues.Eligibility.{VenueSettings, enabled}
use crypt_tool.Venues.Trusted.{TrustedCapabilityRecord}
use crypt_tool.Live.Preflight.{Settings}
use crypt_tool.Live.Bindings.{
  Preflight, Binding, new_binding, reconciliation_required, first_leg_accepted,
}
use crypt_tool.Live.Evidence.{SourceEvent, synchronized, CapabilityEvidence, LegDataEvidence}
use crypt_tool.Live.Orders.{Request, Ack, accepted}
use crypt_tool.Live.Exchange.{World, Adapter, LivePosition, Method}
use crypt_tool.Live.Gateway.{Config, Gateway, GatewaySettings, RiskDecision}
use crypt_tool.Live.Gateway.Snapshot.{ExchangeSnapshot}
use crypt_tool.Live.Gateway.Calls.{activate_kill_switch, fresh}
use crypt_tool.Live.Gateway.Runs.{Operation, place}

abbrev pub sha : String
sha = "00000000000000000000000000000000000000000000000000000000000000ab"

abbrev pub settings : Settings
settings = record {
  environment = "production";
  live_trading = true;
  live_enabled = true;
  paper_trading = false;
  paper_enabled = false;
  dry_run = false;
  live_confirmation = some "I_ACCEPT_LIVE_TRADING_RISK";
  adapter_name = "kraken";
  exchanges = ("kraken", true) ∷ [];
  exchange_api_key = some "key";
  exchange_api_secret = some "secret";
  withdrawal_disabled = true;
  minimum_data_quality = lit 9 1;
  maximum_clock_skew_seconds = one_dec;
}

abbrev pub venue_settings : VenueSettings
venue_settings = record {
  eligibility_status = enabled;
  jurisdiction = "JP";
  terms_checked_at = aware 1;
  terms_version = none;
  operator_account_verified = true;
  api_market_data_available = true;
  api_execution_available = true;
  deposits_available = true;
  withdrawals_available = true;
  execution_smoke_test_passed = true;
  requires_location_evasion = false;
  reason = "checked";
}

abbrev pub gateway_settings : GatewaySettings
gateway_settings = record {
  preflight = settings;
  allowed_symbols = "BTC" ∷ [];
  maximum_order_notional = lit 1000 0;
  maximum_open_orders = 2;
  maximum_orders_per_minute = 3;
  preflight_ttl_seconds = 60;
  capability_verification_max_age_seconds = 60;
  source_event_max_age_seconds = 60;
  stale_data_seconds = 60;
  venues = ("kraken", venue_settings) ∷ [];
}

abbrev pub event : String → String → SourceEvent
event venue kind = record {
  event_id = str_append venue kind;
  venue = venue;
  symbol = "BTC";
  event_type = kind;
  exchange_timestamp = none;
  received_at = 9;
  available_at = 9;
  payload_sha256 = sha;
  sequence = none;
  connection_id = none;
  reconciliation_state = some synchronized;
  data_quality_score = one_dec;
}

abbrev pub capability : UseCase → String → String → CapabilityEvidence
capability use_case venue name = record {
  venue = venue;
  capability = name;
  use_case = use_case;
  support = live_verified;
  verified_at = 5;
  verification_run_id = "run";
  source_events = event venue name ∷ [];
  adapter_version = "1";
  source_version = "1";
  contract_fixture_sha256 = sha;
  audit_run_id = "audit";
}

abbrev pub trusted : String → String → TrustedCapabilityRecord
trusted venue name = record {
  venue = venue;
  capability = name;
  support = live_verified;
  verification_run_id = "run";
  verified_at = 5;
  expires_at = 100;
  adapter_version = "1";
  source_version = "1";
  contract_fixture_sha256 = sha;
  audit_run_id = "audit";
  canonical_instrument_id = "*";
}

abbrev pub evidence_of : UseCase → String → String → LegDataEvidence
evidence_of use_case role venue = record {
  role = role;
  venue = venue;
  capabilities =
      capability use_case venue "funding_current"
      ∷ capability use_case venue "orderbook_snapshot"
      ∷ [];
  evidence_hash = role;
}

abbrev pub preflight : Preflight
preflight = record {
  payload = record {
    values = record {
      issued_at = 10;
      snapshot_ids = "a" ∷ "b" ∷ [];
      signal_id = "signal-1";
      receive_venue = "kraken";
      pay_venue = "binance";
      canonical_instrument_id = "BTC";
      receive_capability_hash = "receive_leg";
      pay_capability_hash = "pay_leg";
      receive_source_event_hash = "events";
      pay_source_event_hash = "events";
      receive_execution_health = true;
      pay_execution_health = true;
      receive_available_collateral = lit 100 0;
      pay_available_collateral = lit 100 0;
      receive_fillable_quantity = one_dec;
      pay_fillable_quantity = one_dec;
      receive_expected_vwap = lit 50 0;
      pay_expected_vwap = lit 51 0;
      maximum_naked_exposure_duration_ms = 3000;
      created_at = 10;
      expires_at = 20;
    };
    issuer_id = "issuer";
    commit_sha = "abc";
  };
  preflight_hash = "signal-1";
  signature = "signal-1";
}

abbrev pub use_case_of : Bool → UseCase
use_case_of true = emergency_exit
use_case_of false = new_exposure

abbrev pub order : Bool → Side → String → Request
order reduce_only side key =
    let receive = evidence_of (use_case_of reduce_only) "receive_leg" "kraken" in
    let pay = evidence_of (use_case_of reduce_only) "pay_leg" "binance" in
    record {
      request_id = key;
      idempotency_key = key;
      signal_id = "signal-1";
      strategy_id = "funding_carry";
      strategy_version = "1";
      cross_venue_signal_evidence = record {
        signal_id = "signal-1";
        receive_leg = some receive;
        pay_leg = some pay;
        evidence_hash = sha;
      };
      cross_venue_signal_hash = sha;
      order_leg_role = "receive_leg";
      order_leg_evidence = receive;
      cross_venue_preflight = preflight;
      preflight_recovery_action = none;
      required_capabilities = "funding_current" ∷ "orderbook_snapshot" ∷ [];
      risk_decision_id = "decision-1";
      model_version = "m";
      config_version = "c";
      exchange = "kraken";
      symbol = "BTC";
      side = side;
      quantity = one_dec;
      reference_price = lit 50 0;
      maximum_slippage_bps = one_dec;
      order_type = market;
      limit_price = none;
      reduce_only = reduce_only;
      created_at = 11;
      expires_at = 100;
    }

abbrev pub receipt_for : Request → Ack
receipt_for r = record {
  request_id = r.request_id;
  external_order_id = some "external-1";
  state = accepted;
  accepted_at = 12;
  reason = "accepted";
  adapter_called = true;
}

abbrev pub answer : {A : Type 0} → A → Method Unit A
answer a w = (ok a, w)

abbrev pub held : LivePosition
held = record {
  exchange = "kraken";
  symbol = "BTC";
  quantity = one_dec;
  mark_price = lit 50 0;
  unrealized_pnl = zero_dec;
  observed_at = 10;
}

abbrev pub adapter : Adapter Unit
adapter = record {
  adapter_name = "kraken";
  is_concrete = true;
  place_order = λ r. answer (receipt_for r);
  cancel_order = λ id.
      answer (record { external_order_id = id; canceled = true; timestamp = 10; reason = "done" });
  cancel_all_orders = answer [];
  fetch_open_orders = λ symbol. answer [];
  fetch_positions = answer (held ∷ []);
  fetch_recent_fills = λ symbol since. answer [];
  lookup_order_by_client_id = λ id. answer none;
  close_position = λ symbol. answer (receipt_for (order true sell "close"));
  health_check = answer true;
}

abbrev pub stored : String → Option SourceEvent
stored id = Dict.get id (
    ("krakenfunding_current", event "kraken" "funding_current")
    ∷ ("krakenorderbook_snapshot", event "kraken" "orderbook_snapshot")
    ∷ ("binancefunding_current", event "binance" "funding_current")
    ∷ ("binanceorderbook_snapshot", event "binance" "orderbook_snapshot")
    ∷ [])

abbrev pub config : Config Unit
config = record {
  settings = gateway_settings;
  adapter = adapter;
  preflight = record { timestamp = 10; approved = true; checks = []; warning = "" };
  source_events = some stored;
  trusted_capabilities = some (
      trusted "kraken" "funding_current"
      ∷ trusted "kraken" "orderbook_snapshot"
      ∷ trusted "binance" "funding_current"
      ∷ trusted "binance" "orderbook_snapshot"
      ∷ []);
  audit_sink = none;
  model_version = "m";
  config_version = "c";
  preflight_service = some (record { issuer_id = "issuer"; signing_key = []; commit_sha = "abc" });
  digests = record {
    leg_hash = λ role venue capabilities. role;
    signal_hash = λ id receive pay. sha;
    sha256 = λ text. "events";
  };
  payload_hash = λ p. p.values.signal_id;
  hmac = λ key text. text;
}

abbrev pub sizing : Sizing
sizing = record {
  accepted = true;
  quantity = one_dec;
  notional = lit 50 0;
  risk_amount = one_dec;
  binding_constraint = by_leverage;
  candidate_notionals = [];
  reason = "accepted";
}

abbrev pub decision : RiskDecision
decision = record {
  decision_id = "decision-1";
  decision = record {
    allowed = true;
    reasons = all_passed;
    sizing = some sizing;
    evaluated_at = 11;
    breaker_reasons = [];
  };
}

abbrev pub world : World Unit
world = record { outside = tt; bindings = []; activated = none }

-- The kill switch is activated while the positions are read.
abbrev pub interrupted : Config Unit
interrupted = record config {
  adapter = record adapter {
    fetch_positions = λ w. (ok (held ∷ []), record w { activated = some "operator" });
  };
}

abbrev pub start : Gateway Unit
start = fresh config none world

abbrev pub exit_order : Request
exit_order = order true sell "order-key-00000001"

abbrev pub entry_order : Request
entry_order = order false buy "order-key-00000002"

abbrev pub one_entry : List (Operation Unit)
one_entry = place entry_order decision (aware 12) ∷ []

abbrev pub one_exit : List (Operation Unit)
one_exit = place exit_order decision (aware 13) ∷ []

abbrev pub killed : Gateway Unit
killed = (activate_kill_switch config "operator" (aware 12) start).1

abbrev pub unsettled : Binding
unsettled = record (new_binding "signal-1" "signal-1" reconciliation_required 10) {
  version = 3;
  first_leg_role = some "pay_leg";
  second_order_request_id = some "order-key-00000001";
}

abbrev pub waiting : Gateway Unit
waiting = record start { world = record world { bindings = ("signal-1", unsettled) ∷ [] } }

abbrev pub read_back : ExchangeSnapshot
read_back = record {
  binding = unsettled;
  client_order = none;
  matching_fills = [];
  matching_open_orders = [];
  positions = held ∷ [];
  captured_at = 20;
}

abbrev pub half_open : Gateway Unit
half_open = record start {
  world = record world {
    bindings =
        (
          "signal-1",
          record (new_binding "signal-1" "signal-1" first_leg_accepted 10) {
            first_leg_role = some "pay_leg";
          },
        )
        ∷ [];
  };
}
