-- ===== src/Live/Evidence.antt =====
-- domain/market_data/evidence.py: the evidence that a signal of two legs rests on, and the events
-- of domain/market_data/source_event_repository.py. The digests are parameters.
use crypt_tool.Base.{
  ℕ, ◌*◌, Bool, true, false, ◌&&◌, ◌||◌, not, String, str_eq, Option, none, some, List, [], ◌∷◌,
  any, eq_list, eq_option, ◌==◌, if◌then◌else◌,
}
use crypt_tool.Base.Int.{ℤ, pos, leb_ℤ}
use crypt_tool.Base.Results.{Result, ok, refuse_if, ◌>>◌}
use crypt_tool.Time.{elapsed}
use crypt_tool.Decimal.{Decimal, zero_dec, one_dec, le, eq}
use crypt_tool.Venues.Capability.{
  Support, unavailable, documented, implemented, live_verified, degraded, is_live_verified, UseCase,
  research_collection, signal_generation, new_exposure, emergency_exit,
}

pub data ReconciliationState : Type 0 where
  disconnected waiting_for_snapshot buffering_deltas applying_snapshot : ReconciliationState
  replaying_deltas gap_detected snapshot_loading delta_replaying : ReconciliationState
  synchronized reconciliation_degraded : ReconciliationState

-- The place of a member in its enumeration, by which members are compared.
abbrev pub state_index : ReconciliationState → ℕ
state_index disconnected = 0
state_index waiting_for_snapshot = 1
state_index buffering_deltas = 2
state_index applying_snapshot = 3
state_index replaying_deltas = 4
state_index gap_detected = 5
state_index snapshot_loading = 6
state_index delta_replaying = 7
state_index synchronized = 8
state_index reconciliation_degraded = 9

abbrev pub same_state : ReconciliationState → ReconciliationState → Bool
same_state s t = state_index s == state_index t

abbrev support_index : Support → ℕ
support_index unavailable = 0
support_index documented = 1
support_index implemented = 2
support_index live_verified = 3
support_index degraded = 4

abbrev pub same_support : Support → Support → Bool
same_support s t = support_index s == support_index t

abbrev use_case_index : UseCase → ℕ
use_case_index research_collection = 0
use_case_index signal_generation = 1
use_case_index new_exposure = 2
use_case_index emergency_exit = 3

abbrev pub same_use_case : UseCase → UseCase → Bool
same_use_case s t = use_case_index s == use_case_index t

abbrev pub eq_at : Option ℕ → Option ℕ → Bool
eq_at = eq_option (λ a b. a == b)

-- `SourceEventEvidence`, and `StoredSourceEvent`, which has its fields. A UUID is a number.
pub record SourceEvent : Type 0 where
  pub event_id : String
  pub venue : String
  pub symbol : String
  pub event_type : String
  pub exchange_timestamp : Option ℕ
  pub received_at : ℕ
  pub available_at : ℕ
  pub payload_sha256 : String
  pub sequence : Option ℤ
  pub connection_id : Option ℕ
  pub reconciliation_state : Option ReconciliationState
  pub data_quality_score : Decimal

-- `__post_init__`; the instants are aware.
unfoldable pub check_source_event : SourceEvent → Result SourceEvent
check_source_event e = do
  refuse_if (not (le zero_dec e.data_quality_score && le e.data_quality_score one_dec))
      "data quality score must be between zero and one"
  ok e

abbrev eq_int : ℤ → ℤ → Bool
eq_int a b = leb_ℤ a b && leb_ℤ b a

abbrev pub eq_sequence : Option ℤ → Option ℤ → Bool
eq_sequence = eq_option eq_int

unfoldable pub eq_source_event : SourceEvent → SourceEvent → Bool
eq_source_event a b =
    str_eq a.event_id b.event_id
    && str_eq a.venue b.venue
    && str_eq a.symbol b.symbol
    && str_eq a.event_type b.event_type
    && eq_at a.exchange_timestamp b.exchange_timestamp
    && a.received_at == b.received_at
    && a.available_at == b.available_at
    && str_eq a.payload_sha256 b.payload_sha256
    && eq_sequence a.sequence b.sequence
    && eq_at a.connection_id b.connection_id
    && eq_option same_state a.reconciliation_state b.reconciliation_state
    && eq a.data_quality_score b.data_quality_score

pub record CapabilityEvidence : Type 0 where
  pub venue : String
  pub capability : String
  pub use_case : UseCase
  pub support : Support
  pub verified_at : ℕ
  pub verification_run_id : String
  pub source_events : List SourceEvent
  pub adapter_version : String
  pub source_version : String
  pub contract_fixture_sha256 : String
  pub audit_run_id : String

abbrev no_events : List SourceEvent → Bool
no_events [] = true
no_events (e ∷ es) = false

-- `__post_init__`; the instant is aware.
unfoldable pub check_capability_evidence : CapabilityEvidence → Result CapabilityEvidence
check_capability_evidence c = do
  refuse_if (str_eq c.verification_run_id "" || no_events c.source_events)
      "verification run and source events are required"
  ok c

unfoldable pub eq_capability : CapabilityEvidence → CapabilityEvidence → Bool
unfolding eq_source_event
eq_capability a b =
    str_eq a.venue b.venue
    && str_eq a.capability b.capability
    && same_use_case a.use_case b.use_case
    && same_support a.support b.support
    && a.verified_at == b.verified_at
    && str_eq a.verification_run_id b.verification_run_id
    && eq_list eq_source_event a.source_events b.source_events
    && str_eq a.adapter_version b.adapter_version
    && str_eq a.source_version b.source_version
    && str_eq a.contract_fixture_sha256 b.contract_fixture_sha256
    && str_eq a.audit_run_id b.audit_run_id

pub record LegDataEvidence : Type 0 where
  pub role : String
  pub venue : String
  pub capabilities : List CapabilityEvidence
  pub evidence_hash : String

unfoldable pub eq_leg : LegDataEvidence → LegDataEvidence → Bool
unfolding eq_capability
eq_leg a b =
    str_eq a.role b.role
    && str_eq a.venue b.venue
    && eq_list eq_capability a.capabilities b.capabilities
    && str_eq a.evidence_hash b.evidence_hash

pub record CrossVenueSignalEvidence : Type 0 where
  pub signal_id : String
  pub receive_leg : Option LegDataEvidence
  pub pay_leg : Option LegDataEvidence
  pub evidence_hash : String

-- The digests of the fields, as `build` takes them.
pub record Digests : Type 0 where
  pub leg_hash : String → String → List CapabilityEvidence → String
  pub signal_hash : String → Option LegDataEvidence → Option LegDataEvidence → String
  -- hashlib.sha256(text.encode()).hexdigest()
  pub sha256 : String → String

-- `valid_hash`: the evidence is the one that `build` makes of its other fields.
unfoldable pub valid_leg : Digests → LegDataEvidence → Bool
valid_leg d l = str_eq l.evidence_hash (d.leg_hash l.role l.venue l.capabilities)

unfoldable pub valid_signal : Digests → CrossVenueSignalEvidence → Bool
valid_signal d s = str_eq s.evidence_hash (d.signal_hash s.signal_id s.receive_leg s.pay_leg)

unfoldable pub leg : CrossVenueSignalEvidence → String → Option LegDataEvidence
leg s role =
    if str_eq role "receive_leg"
    then s.receive_leg
    else if str_eq role "pay_leg"
    then s.pay_leg
    else none

-- `(venue, capability)`, as the key of a capability.
abbrev pub has_name : String → String → CapabilityEvidence → Bool
has_name venue capability c = str_eq c.venue venue && str_eq c.capability capability

-- `len(keys) != len(set(keys))`
unfoldable pub has_repeated : List CapabilityEvidence → Bool
has_repeated [] = false
has_repeated (c ∷ cs) = any (has_name c.venue c.capability) cs || has_repeated cs

-- `require_signal_capabilities`, on the evidence of one signal.
pub record SignalDataEvidence : Type 0 where
  pub signal_id : String
  pub capabilities : List CapabilityEvidence
  pub evidence_hash : String

pub record RejectedSignal : Type 0 where
  pub signal_id : String
  pub reason : String
  pub missing_capabilities : List String

-- A capability of the venue that serves signals and was verified lately.
unfoldable pub serves : String → String → ℕ → ℕ → CapabilityEvidence → Bool
serves venue name now maximum_age_seconds c =
    has_name venue name c
    && same_use_case c.use_case signal_generation
    && is_live_verified c.support
    && leb_ℤ (pos 0) (elapsed now c.verified_at)
    && leb_ℤ (elapsed now c.verified_at) (pos (maximum_age_seconds * 1000000))

unfoldable pub missing_names : List CapabilityEvidence → String → ℕ → ℕ → List String → List String
missing_names cs venue now age [] = []
missing_names cs venue now age (name ∷ names) =
    let rest = missing_names cs venue now age names in
    if any (serves venue name now age) cs then rest else name ∷ rest

abbrev rejected_if_missing : String → List String → Option RejectedSignal
rejected_if_missing signal_id [] = none
rejected_if_missing signal_id (m ∷ ms) = some (record {
  signal_id = signal_id;
  reason = "capability evidence is missing or stale";
  missing_capabilities = m ∷ ms;
})

unfoldable pub require_signal_capabilities :
    (String → List CapabilityEvidence → String)
    → String
    → SignalDataEvidence
    → List String
    → String
    → ℕ
    → ℕ
    → Option RejectedSignal
require_signal_capabilities hash signal_id e required venue now age =
    if has_repeated e.capabilities
    then some (record {
      signal_id = signal_id;
      reason = "duplicate venue and capability evidence";
      missing_capabilities = required;
    })
    else if not (str_eq e.signal_id signal_id)
        || not (str_eq e.evidence_hash (hash e.signal_id e.capabilities))
    then some (record {
      signal_id = signal_id;
      reason = "invalid signal evidence identity or hash";
      missing_capabilities = required;
    })
    else rejected_if_missing signal_id (missing_names e.capabilities venue now age required)
