-- ===== src/Venues/Examples.antt =====
-- domain/venues: a venue that takes new orders, and a capability that is verified and degraded.
use crypt_tool.Base.{
  ℕ, ◌≡◌, refl, Bool, true, false, String, Option, none, some, List, [], ◌∷◌, inl, inr,
}
use crypt_tool.Base.Results.{ok}
use crypt_tool.Time.{aware, naive, utc}
use crypt_tool.Venues.Eligibility.{
  VenueSettings, enabled, execution_eligibility_reason, new_orders-reduction,
}
use crypt_tool.Venues.Capability.{
  VenueCapability, Annotations, unavailable, documented, implemented, live_verified, degraded,
}
use crypt_tool.Venues.Capability.Lifecycle.{Call, run, IsEvidenced, run-IsEvidenced}

abbrev settings : VenueSettings
settings = record {
  eligibility_status = enabled;
  jurisdiction = "JP";
  terms_checked_at = aware 1;
  terms_version = none;
  operator_account_verified = true;
  api_market_data_available = true;
  api_execution_available = true;
  deposits_available = true;
  withdrawals_available = true;
  execution_smoke_test_passed = true;
  requires_location_evasion = false;
  reason = "checked";
}

takes_orders :
    execution_eligibility_reason (("kraken", settings) ∷ []) "kraken" (aware 5) false ≡ ok none
unfolding execution_eligibility_reason crypt_tool.Venues.Eligibility.eligibility_from_settings
    crypt_tool.Venues.Eligibility.new_eligibility crypt_tool.Venues.Eligibility.permits_new_orders
    crypt_tool.Venues.Eligibility.new_order_failures crypt_tool.Base.Dict.get utc
takes_orders = refl

new_orders-reduction_example :
    execution_eligibility_reason (("kraken", settings) ∷ []) "kraken" (aware 5) true ≡ ok none
new_orders-reduction_example =
    new_orders-reduction (("kraken", settings) ∷ []) "kraken" (aware 5) takes_orders

abbrev trades : VenueCapability
trades = record {
  name = "trades";
  support = unavailable;
  documented_at = none;
  implemented_at = none;
  live_verified_at = none;
  source_url = none;
  verification_run_id = none;
  failure_reason = none;
  emergency_exit_approved = false;
}

abbrev notes : Option String → Annotations
notes reason = record {
  source_url = some "docs";
  verification_run_id = some "run";
  failure_reason = reason;
}

abbrev calls : List Call
calls =
    record { support = documented; at = aware 1; notes = notes none }
    ∷ record { support = implemented; at = aware 2; notes = notes none }
    ∷ record { support = live_verified; at = naive 3; notes = notes none }
    ∷ record { support = live_verified; at = aware 3; notes = notes none }
    ∷ record { support = degraded; at = aware 4; notes = notes (some "gaps") }
    ∷ []

trades-IsEvidenced : IsEvidenced trades
trades-IsEvidenced = record {
  documented = inl refl;
  built = λ e. cc;
  verified = λ e. cc;
  explained = λ e. cc;
}

run-IsEvidenced_example : IsEvidenced (run trades calls)
run-IsEvidenced_example = run-IsEvidenced trades calls trades-IsEvidenced
