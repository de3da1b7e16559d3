-- ===== src/Venues/Eligibility.antt =====
-- domain/venues/models.py: `VenueEligibility`, and services/venue_eligibility.py.
use crypt_tool.Base.{
  ℕ, ◌+◌, ◌*◌, ◌≡◌, refl, Bool, true, false, ◌||◌, not, String, Option, none, some, List, [], ◌∷◌,
  leb, ltb, if◌then◌else◌, arith,
}
use Prim.Native.String.{◌++◌ as str_append}
use crypt_tool.Base.Dict
use crypt_tool.Base.Texts.{join}
use crypt_tool.Base.Results.{Result, ok, err, key_error, ◌>>=◌, >>=-eq-ok}
use crypt_tool.Time.{Timestamp, aware, naive, utc}

pub data Status : Type 0 where
  enabled data_only exit_only disabled pending_verification : Status

-- The settings of a venue, which have the fields of its eligibility.
pub record VenueSettings : Type 0 where
  pub eligibility_status : Status
  pub jurisdiction : String
  pub terms_checked_at : Timestamp
  pub terms_version : Option String
  pub operator_account_verified : Bool
  pub api_market_data_available : Bool
  pub api_execution_available : Bool
  pub deposits_available : Bool
  pub withdrawals_available : Bool
  pub execution_smoke_test_passed : Bool
  pub requires_location_evasion : Bool
  pub reason : String

pub record VenueEligibility : Type 0 where
  pub venue : String
  pub status : Status
  pub jurisdiction : String
  pub terms_checked_at : ℕ
  pub terms_version : Option String
  pub operator_account_verified : Bool
  pub api_market_data_available : Bool
  pub api_execution_available : Bool
  pub deposits_available : Bool
  pub withdrawals_available : Bool
  pub execution_smoke_test_passed : Bool
  pub requires_location_evasion : Bool
  pub reason : String

-- The constructor, with `__post_init__`, from the settings of a venue.
unfoldable pub new_eligibility : String → VenueSettings → Result VenueEligibility
new_eligibility venue s = do
  checked_at ← utc s.terms_checked_at
  ok (record {
    venue = venue;
    status = s.eligibility_status;
    jurisdiction = s.jurisdiction;
    terms_checked_at = checked_at;
    terms_version = s.terms_version;
    operator_account_verified = s.operator_account_verified;
    api_market_data_available = s.api_market_data_available;
    api_execution_available = s.api_execution_available;
    deposits_available = s.deposits_available;
    withdrawals_available = s.withdrawals_available;
    execution_smoke_test_passed = s.execution_smoke_test_passed;
    requires_location_evasion = s.requires_location_evasion;
    reason = s.reason;
  })

abbrev pub is_enabled : Status → Bool
is_enabled enabled = true
is_enabled _ = false

abbrev pub value_of : Status → String
value_of enabled = "enabled"
value_of data_only = "data_only"
value_of exit_only = "exit_only"
value_of disabled = "disabled"
value_of pending_verification = "pending_verification"

-- `status in {ENABLED, EXIT_ONLY}`
abbrev pub may_exit : Status → Bool
may_exit enabled = true
may_exit exit_only = true
may_exit _ = false

-- timedelta(days=30)
abbrev pub thirty_days : ℕ
thirty_days = 30 * 86400 * 1000000

-- `if failed: failures.append(text)`, before the rest.
abbrev note_if : Bool → String → List String → List String
note_if failed text rest = if failed then text ∷ rest else rest

unfoldable pub new_order_failures : VenueEligibility → ℕ → List String
new_order_failures e now =
    note_if e.requires_location_evasion "location evasion would be required" (
      note_if (not (is_enabled e.status)) (str_append "status is " (value_of e.status)) (
        note_if (not e.operator_account_verified) "operator account is not verified" (
          note_if (not e.api_execution_available) "execution API is unavailable or unverified" (
            note_if (not e.withdrawals_available) "withdrawals are unavailable or unverified" (
              note_if (not e.execution_smoke_test_passed)
                "minimum execution smoke test has not passed"
                (note_if (leb (e.terms_checked_at + thirty_days) now || ltb now e.terms_checked_at)
                  "terms verification is stale or future-dated" []))))))

abbrev permission : List String → Bool × String
permission [] = (true, "eligible")
permission (f ∷ fs) = (false, join "; " (f ∷ fs))

unfoldable pub permits_new_orders : VenueEligibility → Timestamp → Result (Bool × String)
permits_new_orders e now = do t ← utc now; ok (permission (new_order_failures e t))

unfoldable pub permits_reduction : VenueEligibility → Timestamp → Result (Bool × String)
permits_reduction e now = do
  t ← utc now
  ok (
      if e.requires_location_evasion
      then (false, "location evasion is forbidden even for automated exit")
      else if ltb t e.terms_checked_at
      then (false, "terms verification is future-dated")
      else if may_exit e.status
      then (true, "reduction permitted")
      else (
        false,
        str_append "status " (str_append (value_of e.status) " does not permit execution"),
      ))

abbrev configured_or : String → Option VenueSettings → Result VenueEligibility
configured_or venue none =
    err (key_error (str_append "venue eligibility is not configured: " venue))
configured_or venue (some s) = new_eligibility venue s

unfoldable pub eligibility_from_settings :
    List (String × VenueSettings) → String → Result VenueEligibility
eligibility_from_settings venues venue = configured_or venue (Dict.get venue venues)

-- `None if allowed else reason`
abbrev reason_unless : Bool × String → Option String
reason_unless (true, reason) = none
reason_unless (false, reason) = some reason

unfoldable pub execution_eligibility_reason :
    List (String × VenueSettings) → String → Timestamp → Bool → Result (Option String)
execution_eligibility_reason venues venue now reduce_only = do
  e ← eligibility_from_settings venues venue
  p ← (if reduce_only then permits_reduction e now else permits_new_orders e now)
  ok (reason_unless p)

enabled_may_exit : (s : Status) → is_enabled s ≡ true → may_exit s ≡ true
enabled_may_exit enabled h = refl
enabled_may_exit data_only h = cc
enabled_may_exit exit_only h = cc
enabled_may_exit disabled h = cc
enabled_may_exit pending_verification h = cc

new_orders_reduction_at :
    (e : VenueEligibility) (now : Timestamp)
    → (permits_new_orders e now >>= λ p. ok (reason_unless p)) ≡ ok none
    → (permits_reduction e now >>= λ p. ok (reason_unless p)) ≡ ok none
unfolding permits_new_orders permits_reduction new_order_failures
new_orders_reduction_at e (aware t) h = ground (arith, enabled_may_exit e.status)
new_orders_reduction_at e (naive t) h = ground arith

-- A venue at which an order may be placed is one at which it may be reduced.
pub new_orders-reduction :
    (venues : List (String × VenueSettings)) (venue : String) (now : Timestamp)
    → execution_eligibility_reason venues venue now false ≡ ok none
    → execution_eligibility_reason venues venue now true ≡ ok none
unfolding execution_eligibility_reason
new_orders-reduction venues venue now h =
    let (e, found, rest) =
      >>=-eq-ok (eligibility_from_settings venues venue)
        (λ e. permits_new_orders e now >>= λ p. ok (reason_unless p)) h in
    rw found (new_orders_reduction_at e now rest)
