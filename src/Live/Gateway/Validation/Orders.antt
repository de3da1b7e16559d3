-- ===== src/Live/Gateway/Validation/Orders.antt =====
-- services/live_trading/gateway.py: `_validate_request`.
use crypt_tool.Base.{
  ℕ, ◌+◌, ◌*◌, Bool, true, false, ◌&&◌, ◌||◌, not, String, str_eq, Option, none, some, List, [],
  ◌∷◌, ◌++◌, any, all, leb, ltb, length, eq_list, if◌then◌else◌,
}
use Prim.Native.String.{◌++◌ as str_append}
use crypt_tool.Base.Results.{
  value_error, duplicate_fill_error, key_error, runtime_error, index_error, execution_adapter_error,
  other_error, Result, ok, err,
}
use crypt_tool.Time.{aware}
use crypt_tool.Decimal.{Decimal, lt}
use crypt_tool.Venues.Capability.{UseCase, new_exposure, emergency_exit}
use crypt_tool.Venues.Eligibility.{execution_eligibility_reason}
use crypt_tool.Strategies.Capabilities.{RequiredVenueCapability, registry, lookup, needs_of}
use crypt_tool.Live.Evidence.{
  CapabilityEvidence, LegDataEvidence, eq_leg, valid_leg, valid_signal, leg, has_name, has_repeated,
}
use crypt_tool.Live.Orders.{Request, reference_notional}
use crypt_tool.Live.Gateway.{Config, Gateway, Call}
use crypt_tool.Live.Gateway.Validation.{
  Verdict, passed, refused, ◌>>◌, refuse_when, each, is_stale, validate_capability,
}
use crypt_tool.Live.Gateway.Validation.CrossVenue.{validate_cross_venue_preflight}

-- The keyword arguments of `_validate_request`.
pub record RiskTerms : Type 0 where
  pub risk_allowed : Bool
  pub risk_evaluated_at : ℕ
  pub preview : Bool
  pub risk_decision_id : Option String
  pub maximum_risk_quantity : Option Decimal

-- `role_venues.get(role, "")`
abbrev venue_of_role : String → String → String → String
venue_of_role receive_venue pay_venue role =
    if str_eq role "receive_leg"
    then receive_venue
    else if str_eq role "pay_leg"
    then pay_venue
    else ""

-- Every requirement is among the evidence of its role's venue.
unfoldable pub has_required :
    String → String → List CapabilityEvidence → List RequiredVenueCapability → Bool
has_required receive_venue pay_venue available =
    all λ q.
      any (has_name (venue_of_role receive_venue pay_venue q.venue_role) q.capability) available

abbrev expected_use_case : Bool → UseCase
expected_use_case true = emergency_exit
expected_use_case false = new_exposure

abbrev legs_of : Bool → LegDataEvidence → LegDataEvidence → LegDataEvidence → List LegDataEvidence
legs_of true order_leg receive pay = order_leg ∷ []
legs_of false order_leg receive pay = receive ∷ pay ∷ []

abbrev differs : Option String → String → Bool
differs none s = true
differs (some t) s = not (str_eq t s)

-- `self.kill_switch_reason`, as a condition.
abbrev pub is_set : Option String → Bool
is_set none = false
is_set (some s) = not (str_eq s "")

-- Timestamps at or before the cutoff leave the queue from the left.
unfoldable pub prune : ℕ → List ℕ → List ℕ
prune now [] = []
prune now (t ∷ ts) = let rest = prune now ts in if leb (t + 60000000) now then rest else t ∷ ts

unfoldable pub size_verdict : Request → Option Decimal → Verdict
size_verdict r none = refused "entry risk decision has no approved position size"
size_verdict r (some maximum) =
    refuse_when (lt maximum r.quantity) "order quantity exceeds the risk-approved position size"

-- `request.exchange` is one of the enabled exchanges.
unfoldable pub is_execution_enabled : List (String × Bool) → String → Bool
is_execution_enabled [] exchange = false
is_execution_enabled ((name, enabled) ∷ es) exchange =
    enabled && str_eq name exchange || is_execution_enabled es exchange

-- Only the `KeyError` of a venue that is not configured is a refusal.
unfoldable pub eligibility_verdict : Result (Option String) → Result Verdict
eligibility_verdict (ok none) = ok passed
eligibility_verdict (ok (some reason)) =
    ok (refused (str_append "venue eligibility rejected execution: " reason))
eligibility_verdict (err (key_error m)) = ok (refused "venue eligibility is not configured")
eligibility_verdict (err (value_error m)) = err (value_error m)
eligibility_verdict (err (duplicate_fill_error m)) = err (duplicate_fill_error m)
eligibility_verdict (err (runtime_error m)) = err (runtime_error m)
eligibility_verdict (err (index_error m)) = err (index_error m)
eligibility_verdict (err (execution_adapter_error m)) = err (execution_adapter_error m)
eligibility_verdict (err (other_error m)) = err (other_error m)

module _ {W : Type 0} (c : Config W) where
  -- The report of the preflight and the age of the request.
  unfoldable pub validate_times : Request → ℕ → Bool → Verdict
  validate_times r now preview = do
    refuse_when (not preview && not c.preflight.approved) "live preflight is not approved"
    refuse_when (not preview && is_stale now c.preflight.timestamp c.settings.preflight_ttl_seconds)
        "live preflight is stale or future-dated"
    refuse_when (ltb now r.created_at) "order request is future-dated"
    refuse_when (ltb (r.created_at + c.settings.stale_data_seconds * 1000000) now)
        "order request is stale"
    refuse_when (leb r.expires_at now) "order request has expired"

  unfoldable pub validate_identity : Request → Verdict
  validate_identity r =
      let e = r.cross_venue_signal_evidence in
      refuse_when
        (not (str_eq e.signal_id r.signal_id)
          || not (valid_signal c.digests e)
          || not (str_eq r.cross_venue_signal_hash e.evidence_hash))
        "cross-venue signal evidence identity or hash is invalid"

  unfoldable pub validate_legs : Request → LegDataEvidence → LegDataEvidence → Verdict
  validate_legs r receive pay = do
    refuse_when (str_eq receive.venue pay.venue) "receive and pay venues must differ"
    refuse_when (not (valid_leg c.digests receive) || not (valid_leg c.digests pay))
        "cross-venue leg evidence hash is invalid"

  unfoldable pub validate_order_leg : Request → LegDataEvidence → Verdict
  validate_order_leg r order_leg = do
    refuse_when (not (eq_leg order_leg r.order_leg_evidence))
        "order leg evidence does not match full signal"
    refuse_when (not (str_eq order_leg.venue r.exchange)) "order venue does not match leg role"

  unfoldable pub validate_leg_capabilities : Request → ℕ → LegDataEvidence → Verdict
  validate_leg_capabilities r now l =
      each (validate_capability c r l.venue (expected_use_case r.reduce_only) now) l.capabilities

  unfoldable pub validate_capabilities :
      Request
      → LegDataEvidence
      → LegDataEvidence
      → LegDataEvidence
      → ℕ
      → Option (List RequiredVenueCapability)
      → Verdict
  validate_capabilities r receive pay order_leg now none = refused "unknown strategy id or version"
  validate_capabilities r receive pay order_leg now (some required) = do
    refuse_when (not (eq_list str_eq r.required_capabilities (needs_of r.order_leg_role required)))
        "required capabilities do not exactly match strategy registry"
    refuse_when (has_repeated (receive.capabilities ++ pay.capabilities))
        "duplicate venue and capability evidence"
    refuse_when
        (not (
          has_required receive.venue pay.venue (receive.capabilities ++ pay.capabilities) required))
        "required cross-venue capability evidence is missing"
    each (validate_leg_capabilities r now) (legs_of r.reduce_only order_leg receive pay)

  abbrev with_order_leg : Option LegDataEvidence → (LegDataEvidence → Verdict) → Verdict
  with_order_leg none test = refused "order leg evidence does not match full signal"
  with_order_leg (some l) test = test l

  -- All that is tested of the evidence once both legs are there.
  unfoldable pub validate_evidence : Request → LegDataEvidence → LegDataEvidence → ℕ → Verdict
  validate_evidence r receive pay now = do
    validate_legs r receive pay
    with_order_leg (leg r.cross_venue_signal_evidence r.order_leg_role) λ order_leg. do
      validate_order_leg r order_leg
      validate_capabilities r receive pay order_leg now
          (lookup registry r.strategy_id r.strategy_version)

  unfoldable pub validate_amounts : Request → Verdict
  validate_amounts r = do
    refuse_when (not (any (str_eq r.symbol) c.settings.allowed_symbols))
        "symbol is not live-allowed"
    refuse_when (lt c.settings.maximum_order_notional (reference_notional r))
        "order reference notional exceeds live maximum"

  unfoldable pub validate_risk : Request → ℕ → RiskTerms → Verdict
  validate_risk r now k = do
    refuse_when (not k.risk_allowed) "risk manager rejected the order"
    refuse_when (not k.preview && differs k.risk_decision_id r.risk_decision_id)
        "risk decision identity does not match the order request"
    if not k.preview && not r.reduce_only then size_verdict r k.maximum_risk_quantity else passed
    refuse_when
        (not k.preview
          && not r.reduce_only
          && is_stale now k.risk_evaluated_at c.settings.stale_data_seconds)
        "risk decision is stale or future-dated"

  unfoldable pub validate_kill_switch : Request → Option String → Verdict
  validate_kill_switch r reason =
      refuse_when (is_set reason && not r.reduce_only) "kill switch blocks new exposure"

  -- A verdict, and what follows a passed one.
  abbrev pub unless_refused : Result Verdict → Call W Verdict → Call W Verdict
  unless_refused (err e) rest g = (err e, g)
  unless_refused (ok (refused reason)) rest g = (ok (refused reason), g)
  unless_refused (ok passed) rest g = rest g

  unfoldable pub validate_rate : ℕ → Call W Verdict
  validate_rate now g =
      let kept = prune now g.order_timestamps in
      (
        ok (
            refuse_when (leb c.settings.maximum_orders_per_minute (length kept))
              "live order rate limit reached"),
        record g { order_timestamps = kept },
      )

  unfoldable pub validate_limits : Request → ℕ → RiskTerms → Call W Verdict
  validate_limits r now k g =
      unless_refused
        (ok (
          validate_amounts r
          >> validate_risk r now k
          >> validate_kill_switch r g.kill_switch_reason))
        (validate_rate now) g

  unfoldable pub validate_venue : Request → ℕ → Result Verdict
  validate_venue r now =
      if is_execution_enabled c.settings.preflight.exchanges r.exchange
      then eligibility_verdict
          (execution_eligibility_reason c.settings.venues r.exchange (aware now) r.reduce_only)
      else ok (refused "exchange is not execution-enabled")

  abbrev pub after_verdict :
      Result Verdict × Gateway W → Call W Verdict → Result Verdict × Gateway W
  after_verdict (verdict, g) rest = unless_refused verdict rest g

  unfoldable pub validate_with_legs :
      Request → ℕ → RiskTerms → Option LegDataEvidence → Option LegDataEvidence → Call W Verdict
  validate_with_legs r now k none pay g = (ok (refused "receive leg evidence is missing"), g)
  validate_with_legs r now k (some receive) none g = (ok (refused "pay leg evidence is missing"), g)
  validate_with_legs r now k (some receive) (some pay) g =
      unless_refused (ok (validate_evidence r receive pay now))
        (λ g'.
          after_verdict (validate_cross_venue_preflight c r receive pay now g')
            (unless_refused (validate_venue r now) (validate_limits r now k)))
        g

  unfoldable pub validate_request : Request → ℕ → RiskTerms → Call W Verdict
  validate_request r now k =
      let e = r.cross_venue_signal_evidence in
      unless_refused (ok (validate_times r now k.preview >> validate_identity r))
        (validate_with_legs r now k e.receive_leg e.pay_leg)
