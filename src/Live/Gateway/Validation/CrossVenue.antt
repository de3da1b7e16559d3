-- ===== src/Live/Gateway/Validation/CrossVenue.antt =====
-- services/live_trading/gateway.py: `_validate_cross_venue_preflight`.
use crypt_tool.Base.{
  ℕ, Bool, true, false, ◌&&◌, ◌||◌, not, String, str_eq, Option, none, some, List, [], ◌∷◌, ◌++◌,
  leb, ltb, if◌then◌else◌,
}
use crypt_tool.Base.Texts.{sort_texts, join}
use crypt_tool.Base.Results.{Result, ok, err, message_of}
use crypt_tool.Time.{aware}
use crypt_tool.Decimal.{zero_dec, le, lt, min_dec}
use crypt_tool.Execution.Leg.{Machine, Action, handle_preflight_change}
use crypt_tool.Live.Bindings.{State, unbound, aborted, Binding, get, Preflight, Service, verify}
use crypt_tool.Live.Evidence.{SourceEvent, CapabilityEvidence, LegDataEvidence}
use crypt_tool.Live.Orders.{Request}
use crypt_tool.Live.Gateway.{Config, Gateway, Call}
use crypt_tool.Live.Gateway.Validation.{Verdict, passed, refused, ◌>>◌, refuse_when}
use Prim.Native.String.{◌++◌ as str_append}

-- f"{event.event_id}:{event.payload_sha256}", of the events of the capabilities.
unfoldable pub event_texts : List SourceEvent → List String
event_texts [] = []
event_texts (e ∷ es) = str_append e.event_id (str_append ":" e.payload_sha256) ∷ event_texts es

unfoldable pub leg_texts : List CapabilityEvidence → List String
leg_texts [] = []
leg_texts (c ∷ cs) = event_texts c.source_events ++ leg_texts cs

-- `state not in {UNBOUND, ABORTED}`
abbrev pub is_bound : State → Bool
is_bound unbound = false
is_bound aborted = false
is_bound _ = true

abbrev pub has_hash : Option String → String → Bool
has_hash none hash = false
has_hash (some h) hash = str_eq h hash

-- Whether orders of the signal are bound to another preflight.
unfoldable pub bound_elsewhere : Option Binding → String → Bool
bound_elsewhere none hash = false
bound_elsewhere (some b) hash = is_bound b.state && not (has_hash b.preflight_hash hash)

module _ {W : Type 0} (c : Config W) where
  unfoldable pub source_event_hash : LegDataEvidence → String
  source_event_hash l = c.digests.sha256 (join "|" (sort_texts (leg_texts l.capabilities)))

  -- The tests before the binding is read.
  unfoldable pub validate_snapshot :
      Preflight → Request → LegDataEvidence → LegDataEvidence → ℕ → Verdict
  validate_snapshot p r receive pay now = do
    let v = p.payload.values
    refuse_when (not (str_eq v.signal_id r.signal_id))
        "cross-venue execution preflight hash or signal is invalid"
    refuse_when (not (str_eq v.receive_venue receive.venue) || not (str_eq v.pay_venue pay.venue))
        "cross-venue execution preflight venues do not match evidence"
    refuse_when (not (leb v.created_at now && ltb now v.expires_at))
        "cross-venue execution preflight is stale or future-dated"
    refuse_when (not v.receive_execution_health || not v.pay_execution_health)
        "cross-venue execution preflight health check failed"
    refuse_when (le (min_dec v.receive_available_collateral v.pay_available_collateral) zero_dec)
        "cross-venue execution preflight collateral is insufficient"
    refuse_when (lt (min_dec v.receive_fillable_quantity v.pay_fillable_quantity) r.quantity)
        "cross-venue execution preflight fillable quantity is insufficient"

  abbrev pub verified : Result (Unit {0}) → Verdict
  verified (ok u) = passed
  verified (err e) =
      refused (str_append "trusted cross-venue preflight rejected snapshot: " (message_of e))

  abbrev pub verify_with : Option Service → Preflight → ℕ → Verdict
  verify_with none p now = refused "trusted cross-venue preflight service is unavailable"
  verify_with (some service) p now = verified (verify c.payload_hash c.hmac service p now)

  unfoldable pub validate_hashes : Preflight → LegDataEvidence → LegDataEvidence → Verdict
  validate_hashes p receive pay = do
    let v = p.payload.values
    refuse_when
        (not (str_eq v.receive_capability_hash receive.evidence_hash)
          || not (str_eq v.pay_capability_hash pay.evidence_hash))
        "cross-venue preflight capability hashes do not match evidence"
    refuse_when
        (not (str_eq v.receive_source_event_hash (source_event_hash receive))
          || not (str_eq v.pay_source_event_hash (source_event_hash pay)))
        "cross-venue preflight source event hashes do not match evidence"

  abbrev pub changed : Gateway W → Result (Machine × Action) → Result Verdict × Gateway W
  changed g (err e) = (err e, g)
  changed g (ok (m, a)) = (
    ok (refused "cross-venue orders use different preflight hashes"),
    record g { leg_execution_machine = some m; last_preflight_action = some a },
  )

  -- Another preflight for a bound signal: the leg machine, if there is one, is told.
  unfoldable pub preflight_changed : Preflight → ℕ → Option Machine → Call W Verdict
  preflight_changed p now none g =
      (ok (refused "cross-venue orders use different preflight hashes"), g)
  preflight_changed p now (some m) g =
      let v = p.payload.values in
      changed g (
        handle_preflight_change m (aware now) (record {
          evidence_valid = true;
          execution_health = v.pay_execution_health;
          available_collateral = v.pay_available_collateral;
          fillable_quantity = v.pay_fillable_quantity;
          expected_vwap = v.pay_expected_vwap;
          alternate_hedge_available = true;
        }))

  unfoldable pub check_binding : Request → LegDataEvidence → LegDataEvidence → ℕ → Call W Verdict
  check_binding r receive pay now g =
      let p = r.cross_venue_preflight in
      if bound_elsewhere (get g.world.bindings r.signal_id) p.preflight_hash
      then preflight_changed p now g.leg_execution_machine g
      else (ok (validate_hashes p receive pay), g)

  abbrev pub after_snapshot : Verdict → Call W Verdict → Call W Verdict
  after_snapshot passed rest g = rest g
  after_snapshot (refused reason) rest g = (ok (refused reason), g)

  unfoldable pub validate_cross_venue_preflight :
      Request → LegDataEvidence → LegDataEvidence → ℕ → Call W Verdict
  validate_cross_venue_preflight r receive pay now =
      let p = r.cross_venue_preflight in
      after_snapshot
        (verify_with c.preflight_service p now >> validate_snapshot p r receive pay now)
        (check_binding r receive pay now)
