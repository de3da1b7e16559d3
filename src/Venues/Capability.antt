-- ===== src/Venues/Capability.antt =====
-- domain/venues/models.py: `VenueCapability`, how far an interface of a venue is verified.
use crypt_tool.Base.{
  ℕ, ◌≡◌, ◌≤◌, refl, Bool, true, false, ◌&&◌, ◌||◌, not, String, str_eq, Option, none, some, List,
  [], ◌∷◌, leb, is_some, if◌then◌else◌, arith,
}
use crypt_tool.Base.Dict
use crypt_tool.Base.Int.{ℤ, pos, ltb_ℤ, leb_ℤ}
use crypt_tool.Base.Results.{Result, ok, err, value_error, other_error, refuse_if, ◌>>=◌, ◌>>◌}
use crypt_tool.Time.{Timestamp, utc, elapsed}
pub mod Lifecycle

pub data Support : Type 0 where
  unavailable documented implemented live_verified degraded : Support

pub data UseCase : Type 0 where
  research_collection signal_generation new_exposure emergency_exit : UseCase

abbrev pub is_live_verified : Support → Bool
is_live_verified live_verified = true
is_live_verified _ = false

abbrev pub is_degraded : Support → Bool
is_degraded degraded = true
is_degraded _ = false

abbrev pub is_unavailable : Support → Bool
is_unavailable unavailable = true
is_unavailable _ = false

pub record VenueCapability : Type 0 where
  pub name : String
  pub support : Support
  pub documented_at : Option ℕ
  pub implemented_at : Option ℕ
  pub live_verified_at : Option ℕ
  pub source_url : Option String
  pub verification_run_id : Option String
  pub failure_reason : Option String
  pub emergency_exit_approved : Bool

-- `not text`, of an optional text.
abbrev pub is_missing : Option String → Bool
is_missing none = true
is_missing (some s) = str_eq s ""

-- `__post_init__`; the instants are aware.
unfoldable pub check_capability : VenueCapability → Result VenueCapability
check_capability c = do
  refuse_if (is_degraded c.support && is_missing c.failure_reason)
      "degraded capabilities require a failure_reason"
  refuse_if (is_live_verified c.support && not (is_some c.live_verified_at))
      "live-verified capabilities require live_verified_at"
  ok c

-- `timedelta(0) <= now - verified <= maximum_age`
abbrev pub is_within : ℕ → ℤ → Option ℕ → Bool
is_within now maximum_age none = false
is_within now maximum_age (some verified) =
    leb_ℤ (pos 0) (elapsed now verified) && leb_ℤ (elapsed now verified) maximum_age

unfoldable pub live_is_fresh : VenueCapability → ℕ → ℤ → Bool
live_is_fresh c now maximum_age =
    is_live_verified c.support && is_within now maximum_age c.live_verified_at

abbrev pub is_collectable : Support → Bool
is_collectable implemented = true
is_collectable live_verified = true
is_collectable _ = false

-- The branches over the use cases.
abbrev pub supports_case : VenueCapability → UseCase → Bool → Bool
supports_case c research_collection fresh = is_collectable c.support
supports_case c signal_generation fresh = fresh
supports_case c new_exposure fresh = fresh
supports_case c emergency_exit fresh = fresh || is_degraded c.support && c.emergency_exit_approved

-- `_utc(now)` is read only for a capability that is live-verified at some instant.
unfoldable pub supports : VenueCapability → UseCase → ℕ → ℤ → Result Bool
supports c use_case now maximum_age = do
  refuse_if (ltb_ℤ maximum_age (pos 0)) "maximum_age cannot be negative"
  ok (supports_case c use_case (live_is_fresh c now maximum_age))

-- `support in allowed[self.support]`
unfoldable pub allows : Support → Support → Bool
allows unavailable documented = true
allows documented implemented = true
allows implemented live_verified = true
allows implemented degraded = true
allows live_verified degraded = true
allows degraded implemented = true
allows degraded live_verified = true
allows _ _ = false

-- `implemented_at` is set by these.
abbrev pub is_built : Support → Bool
is_built implemented = true
is_built live_verified = true
is_built degraded = true
is_built _ = false

-- `first or second`, of instants.
abbrev pub or_at : Option ℕ → Option ℕ → Option ℕ
or_at none b = b
or_at (some t) b = some t

-- `first or second`, of texts: an empty text counts as missing.
abbrev pub or_text : Option String → Option String → Option String
or_text a b = if is_missing a then b else a

-- `transition`; the annotations are the optional arguments.
pub record Annotations : Type 0 where
  pub source_url : Option String
  pub verification_run_id : Option String
  pub failure_reason : Option String

unfoldable pub transition :
    VenueCapability → Support → Timestamp → Annotations → Result VenueCapability
transition c support at notes = do
  refuse_if (not (allows c.support support)) "invalid capability transition"
  when ← utc at
  check_capability (record {
    name = c.name;
    support = support;
    documented_at =
        or_at c.documented_at (if not (is_unavailable support) then some when else none);
    implemented_at = or_at c.implemented_at (if is_built support then some when else none);
    live_verified_at = if is_live_verified support then some when else c.live_verified_at;
    source_url = or_text notes.source_url c.source_url;
    verification_run_id = notes.verification_run_id;
    failure_reason = if is_degraded support then notes.failure_reason else none;
    emergency_exit_approved = false;
  })

-- `VenueCapabilityMatrix.require`, over the capabilities of the matrix.
abbrev require_found : Option VenueCapability → UseCase → ℕ → ℤ → Result (Unit {0})
require_found none use_case now maximum_age = err (value_error "unknown capability")
require_found (some c) use_case now maximum_age =
    supports c use_case now maximum_age >>= λ supported.
    (if supported then ok tt else err (other_error "CapabilityUnavailableError"))

unfoldable pub require :
    List (String × VenueCapability) → String → UseCase → ℕ → ℤ → Result (Unit {0})
require matrix capability use_case now maximum_age =
    require_found (Dict.get capability matrix) use_case now maximum_age
