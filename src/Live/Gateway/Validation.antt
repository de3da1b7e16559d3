-- ===== src/Live/Gateway/Validation.antt =====
-- services/live_trading/gateway.py: `_validate_capability` and `_validate_source_events`.
use crypt_tool.Base.{
  ℕ, ◌+◌, ◌*◌, Bool, true, false, ◌&&◌, ◌||◌, not, String, str_eq, Option, none, some, List, [],
  ◌∷◌, ltb, leb, ◌==◌, any, eq_list, eq_option, if◌then◌else◌,
}
use Prim.Native.String.{◌++◌ as str_append}
use crypt_tool.Base.Int.{ℤ}
use crypt_tool.Base.Texts.{is_sha256}
use crypt_tool.Base.Results.{Result, ok, err, message_of}
use crypt_tool.Decimal.{Decimal, lt, eq}
use crypt_tool.Venues.Capability.{UseCase}
use crypt_tool.Venues.Trusted.{TrustedCapabilityRecord, Registry, require}
use crypt_tool.Live.Evidence.{
  ReconciliationState, synchronized, same_state, same_support, same_use_case, SourceEvent, eq_at,
  eq_sequence, CapabilityEvidence, LegDataEvidence,
}
use crypt_tool.Live.Orders.{Request}
use crypt_tool.Live.Gateway.{Config}
pub mod CrossVenue
pub mod Orders

-- The outcome of a validation: `None`, or the reason of a refusal.
pub data Verdict : Type 0 where
  passed : Verdict
  refused : String → Verdict

-- A refusal is an early return.
infixl 5 ◌>>◌
abbrev pub ◌>>◌ : Verdict → Verdict → Verdict
passed >> rest = rest
refused reason >> rest = refused reason

abbrev pub refuse_when : Bool → String → Verdict
refuse_when true reason = refused reason
refuse_when false reason = passed

-- A loop whose body may return a refusal.
module _ {A : Type 0} (body : A → Verdict) where
  abbrev pub each : List A → Verdict
  each [] = passed
  each (x ∷ xs) = body x >> each xs

-- `age < 0 or age > limit`, for the age of an instant.
abbrev pub is_stale : ℕ → ℕ → ℕ → Bool
is_stale now at limit_seconds = ltb now at || ltb (at + limit_seconds * 1000000) now

-- The types of the events that a capability rests on.
unfoldable pub event_types : String → List String
event_types c =
    if str_eq c "funding_current"
    then "funding_current" ∷ "funding" ∷ []
    else if str_eq c "funding_history"
    then "funding_history" ∷ []
    else if str_eq c "orderbook_snapshot"
    then "orderbook_snapshot" ∷ "orderbook_delta" ∷ []
    else if str_eq c "index_price"
    then "index_price" ∷ []
    else if str_eq c "market_liquidation_stream"
    then "market_liquidation" ∷ "liquidation" ∷ []
    else if str_eq c "open_interest"
    then "open_interest" ∷ []
    else if str_eq c "trades"
    then "trade" ∷ "trades" ∷ []
    else []

-- The first field that differs.
unfoldable pub stored_event_mismatch : SourceEvent → SourceEvent → Verdict
stored_event_mismatch e s = do
  refuse_when (not (str_eq e.venue s.venue)) "source event venue does not match repository"
  refuse_when (not (str_eq e.symbol s.symbol)) "source event symbol does not match repository"
  refuse_when (not (str_eq e.event_type s.event_type))
      "source event event_type does not match repository"
  refuse_when (not (eq_at e.exchange_timestamp s.exchange_timestamp))
      "source event exchange_timestamp does not match repository"
  refuse_when (not (e.received_at == s.received_at))
      "source event received_at does not match repository"
  refuse_when (not (e.available_at == s.available_at))
      "source event available_at does not match repository"
  refuse_when (not (str_eq e.payload_sha256 s.payload_sha256))
      "source event payload_sha256 does not match repository"
  refuse_when (not (eq_sequence e.sequence s.sequence))
      "source event sequence does not match repository"
  refuse_when (not (eq_at e.connection_id s.connection_id))
      "source event connection_id does not match repository"
  refuse_when (not (eq_option same_state e.reconciliation_state s.reconciliation_state))
      "source event reconciliation_state does not match repository"
  refuse_when (not (eq e.data_quality_score s.data_quality_score))
      "source event data_quality_score does not match repository"

abbrev pub is_book : String → Bool
is_book event_type = str_eq event_type "orderbook_snapshot" || str_eq event_type "orderbook_delta"

abbrev pub is_synchronized : Option ReconciliationState → Bool
is_synchronized none = false
is_synchronized (some s) = same_state s synchronized

module _ {W : Type 0} (c : Config W) where
  -- The tests of an event that the repository has.
  unfoldable pub validate_stored_event :
      Request → String → String → ℕ → SourceEvent → SourceEvent → Verdict
  validate_stored_event r capability expected_venue now e s = do
    stored_event_mismatch e s
    refuse_when (not (str_eq s.venue expected_venue))
        "stored source event venue does not match order venue"
    refuse_when (not (str_eq s.symbol r.symbol))
        "stored source event symbol does not match order symbol"
    refuse_when (not (any (str_eq s.event_type) (event_types capability)))
        "source event type does not match capability"
    refuse_when (is_stale now s.available_at c.settings.source_event_max_age_seconds)
        "source event is stale or future-dated"
    refuse_when (not (is_sha256 s.payload_sha256)) "source event payload hash is invalid"
    refuse_when (lt s.data_quality_score c.settings.preflight.minimum_data_quality)
        "source event data quality is below threshold"
    refuse_when (is_book s.event_type && not (is_synchronized s.reconciliation_state))
        "source event is not synchronized"

  abbrev if_stored : Option SourceEvent → (SourceEvent → Verdict) → Verdict
  if_stored none test = refused "source event does not exist in repository"
  if_stored (some s) test = test s

  abbrev look_up : Option (String → Option SourceEvent) → String → (SourceEvent → Verdict) → Verdict
  look_up none id test = refused "source event repository is unavailable"
  look_up (some stored) id test = if_stored (stored id) test

  unfoldable pub validate_source_event : Request → String → String → ℕ → SourceEvent → Verdict
  validate_source_event r capability expected_venue now e = do
    refuse_when (str_eq e.event_id "") "source event id is empty"
    look_up c.source_events e.event_id (validate_stored_event r capability expected_venue now e)

  unfoldable pub validate_source_events : Request → CapabilityEvidence → ℕ → String → Verdict
  validate_source_events r item now expected_venue =
      each (validate_source_event r item.capability expected_venue now) item.source_events

  unfoldable pub matches_trusted : CapabilityEvidence → TrustedCapabilityRecord → Verdict
  matches_trusted item t = do
    refuse_when (not (same_support item.support t.support))
        "capability support does not match trusted record"
    refuse_when (not (str_eq item.adapter_version t.adapter_version))
        "adapter version does not match trusted record"
    refuse_when (not (str_eq item.source_version t.source_version))
        "source version does not match trusted record"
    refuse_when (not (str_eq item.contract_fixture_sha256 t.contract_fixture_sha256))
        "fixture sha256 does not match trusted record"
    refuse_when (not (str_eq item.audit_run_id t.audit_run_id))
        "capability audit run does not match trusted record"

  abbrev if_trusted : Result TrustedCapabilityRecord → (TrustedCapabilityRecord → Verdict) → Verdict
  if_trusted (err e) test =
      refused (str_append "trusted capability rejected evidence: " (message_of e))
  if_trusted (ok t) test = test t

  abbrev trusted_or :
      Option Registry → CapabilityEvidence → ℕ → (TrustedCapabilityRecord → Verdict) → Verdict
  trusted_or none item now test = refused "trusted capability registry is unavailable"
  trusted_or (some rs) item now test =
      if_trusted
        (require rs
          (record {
            venue = item.venue;
            capability = item.capability;
            verification_run_id = item.verification_run_id;
            verified_at = item.verified_at;
            use_case = item.use_case;
          })
          now)
        test

  unfoldable pub validate_capability : Request → String → UseCase → ℕ → CapabilityEvidence → Verdict
  validate_capability r expected_venue expected_use_case now item = do
    refuse_when (not (str_eq item.venue expected_venue))
        "capability evidence venue does not match order venue"
    refuse_when (not (same_use_case item.use_case expected_use_case))
        "capability evidence use case does not match order intent"
    refuse_when (is_stale now item.verified_at c.settings.capability_verification_max_age_seconds)
        "capability evidence is stale or future-dated"
    trusted_or c.trusted_capabilities item now (matches_trusted item)
    validate_source_events r item now expected_venue
