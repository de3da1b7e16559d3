-- ===== src/Venues/Trusted.antt =====
-- domain/venues/trusted_capabilities.py: the registry of trusted capability records. Reading it
-- from artifacts is left out.
use crypt_tool.Base.{
  ℕ, Bool, true, false, ◌&&◌, ◌||◌, not, String, str_eq, Option, none, some, List, [], ◌∷◌, any,
  leb, ◌==◌, if◌then◌else◌,
}
use crypt_tool.Base.Results.{Result, ok, err, value_error, refuse_if, ◌>>=◌, ◌>>◌}
use crypt_tool.Venues.Capability.{Support, UseCase, new_exposure, emergency_exit, is_live_verified}

pub record TrustedCapabilityRecord : Type 0 where
  pub venue : String
  pub capability : String
  pub support : Support
  pub verification_run_id : String
  pub verified_at : ℕ
  pub expires_at : ℕ
  pub adapter_version : String
  pub source_version : String
  pub contract_fixture_sha256 : String
  pub audit_run_id : String
  pub canonical_instrument_id : String

abbrev pub Registry : Type 0
Registry = List TrustedCapabilityRecord

-- The key of a record in the registry's dictionary.
abbrev pub has_key : String → String → String → TrustedCapabilityRecord → Bool
has_key venue capability instrument r =
    str_eq r.venue venue
    && str_eq r.capability capability
    && str_eq r.canonical_instrument_id instrument

unfoldable pub has_duplicates : Registry → Bool
has_duplicates [] = false
has_duplicates (r ∷ rs) =
    any (has_key r.venue r.capability r.canonical_instrument_id) rs || has_duplicates rs

unfoldable pub new_registry : List TrustedCapabilityRecord → Result Registry
new_registry records = do
  refuse_if (has_duplicates records) "duplicate trusted capability records"
  ok records

unfoldable pub get_record : Registry → String → String → String → Option TrustedCapabilityRecord
get_record [] venue capability instrument = none
get_record (r ∷ rs) venue capability instrument =
    if has_key venue capability instrument r
    then some r
    else get_record rs venue capability instrument

abbrev or_else :
    Option TrustedCapabilityRecord → Option TrustedCapabilityRecord → Option TrustedCapabilityRecord
or_else (some r) other = some r
or_else none other = other

-- `_record`: the exact record, or the one for every instrument.
unfoldable pub record_of : Registry → String → String → String → Option TrustedCapabilityRecord
record_of rs venue capability instrument =
    or_else (get_record rs venue capability instrument) (get_record rs venue capability "*")

abbrev pub is_executable : UseCase → Bool
is_executable new_exposure = true
is_executable emergency_exit = true
is_executable _ = false

-- What a caller of `require` passes; `canonical_instrument_id` has its default, "*".
pub record Claim : Type 0 where
  pub venue : String
  pub capability : String
  pub verification_run_id : String
  pub verified_at : ℕ
  pub use_case : UseCase

abbrev found_or : Option TrustedCapabilityRecord → Result TrustedCapabilityRecord
found_or none = err (value_error "trusted capability record is missing")
found_or (some r) = ok r

unfoldable pub require : Registry → Claim → ℕ → Result TrustedCapabilityRecord
require rs c now = do
  r ← found_or (record_of rs c.venue c.capability "*")
  refuse_if (not (is_live_verified r.support)) "trusted capability is not LIVE_VERIFIED"
  refuse_if (not (str_eq r.verification_run_id c.verification_run_id))
      "verification run id is not trusted"
  refuse_if (not (r.verified_at == c.verified_at))
      "capability verification timestamp does not match trusted record"
  refuse_if (not (leb r.verified_at now && leb now r.expires_at))
      "trusted capability record is expired or future-dated"
  refuse_if (not (is_executable c.use_case)) "capability use case is not executable"
  ok r

unfoldable pub require_live_verified :
    Registry → String → String → ℕ → Result TrustedCapabilityRecord
require_live_verified rs venue capability now = do
  r ← found_or (record_of rs venue capability "*")
  refuse_if (not (is_live_verified r.support)) "trusted capability is not LIVE_VERIFIED"
  refuse_if (not (leb r.verified_at now && leb now r.expires_at))
      "trusted capability record is expired or future-dated"
  ok r
