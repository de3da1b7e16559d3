-- ===== src/Live/Gateway/Permitted/Passed.antt =====
-- services/live_trading/gateway.py: what a request that `_validate_request` passes has passed.
use crypt_tool.Base.{ℕ, ◌≡◌, refl, true, false, String, str_eq, Option, none, some, any, arith}
use crypt_tool.Base.Results.{
  value_error, duplicate_fill_error, key_error, runtime_error, index_error, execution_adapter_error,
  other_error, Result, ok, err,
}
use crypt_tool.Time.{aware}
use crypt_tool.Decimal.{le, min_dec}
use crypt_tool.Risk.Models.{Sizing}
use crypt_tool.Venues.Eligibility.{execution_eligibility_reason}
use crypt_tool.Live.Bindings.{Service, Preflight, verify}
use crypt_tool.Live.Evidence.{LegDataEvidence}
use crypt_tool.Live.Orders.{Request, reference_notional}
use crypt_tool.Live.Gateway.{Config, Gateway, Call, RiskDecision}
use crypt_tool.Live.Gateway.Validation.{Verdict, passed, refused, ◌>>◌}
use crypt_tool.Live.Gateway.Validation.CrossVenue.{
  validate_cross_venue_preflight, verified, verify_with, validate_snapshot, check_binding,
  after_snapshot,
}
use crypt_tool.Live.Gateway.Validation.Orders.{
  unless_refused, is_execution_enabled, eligibility_verdict, validate_times, validate_identity,
  validate_evidence, validate_amounts, validate_risk, size_verdict, validate_kill_switch,
  validate_venue, validate_rate, validate_limits, validate_with_legs, validate_request,
}
use crypt_tool.Live.Gateway.Place.{terms_of, quantity_of}
use crypt_tool.Live.Gateway.Frame.Validation.{cross_venue-Keeps}
use crypt_tool.Live.Gateway.Permitted.{
  IsTimely, IsCovered, IsRiskApproved, IsRiskApproved-before, IsPermitted,
}

passed-split : (v w : Verdict) → (v >> w) ≡ passed → (v ≡ passed) × (w ≡ passed)
passed-split passed w h = (refl, h)
passed-split (refused reason) w h = cc

ok_passed : (v : Verdict) → ok v ≡ ok passed → v ≡ passed
ok_passed passed h = refl
ok_passed (refused reason) h = cc

eligible_verdict : (v : Result (Option String)) → eligibility_verdict v ≡ ok passed → v ≡ ok none
unfolding eligibility_verdict
eligible_verdict (ok none) h = refl
eligible_verdict (ok (some reasons)) h = cc
eligible_verdict (err (key_error m)) h = cc
eligible_verdict (err (value_error m)) h = cc
eligible_verdict (err (duplicate_fill_error m)) h = cc
eligible_verdict (err (runtime_error m)) h = cc
eligible_verdict (err (index_error m)) h = cc
eligible_verdict (err (execution_adapter_error m)) h = cc
eligible_verdict (err (other_error m)) h = cc

module _ {W : Type 0} (c : Config W) where
  times-IsTimely :
      (r : Request) (now : ℕ) → validate_times c r now false ≡ passed → IsTimely c r now
  unfolding validate_times
  times-IsTimely r now h = ground arith

  snapshot_facts :
      (r : Request) (receive pay : LegDataEvidence) (now : ℕ)
      → validate_snapshot c r.cross_venue_preflight r receive pay now ≡ passed
      → (r.cross_venue_preflight.payload.values.receive_execution_health ≡ true)
        × (r.cross_venue_preflight.payload.values.pay_execution_health ≡ true)
        × (le r.quantity (
              min_dec r.cross_venue_preflight.payload.values.receive_fillable_quantity
                r.cross_venue_preflight.payload.values.pay_fillable_quantity)
            ≡ true)
  unfolding validate_snapshot
  snapshot_facts r receive pay now h = ground arith

  service_facts :
      (o : Option Service) (p : Preflight) (now : ℕ)
      → verify_with c o p now ≡ passed
      → (s : Service) × (o ≡ some s) × (verify c.payload_hash c.hmac s p now ≡ ok tt)
  service_facts none p now h = cc
  service_facts (some s) p now h = verified_facts s (verify c.payload_hash c.hmac s p now) refl h
    where
      verified_facts :
          (s : Service) (v : Result (Unit {0}))
          → verify c.payload_hash c.hmac s p now ≡ v
          → verified c v ≡ passed
          → (t : Service) × (some s ≡ some t) × (verify c.payload_hash c.hmac t p now ≡ ok tt)
      verified_facts s (ok u) e h = (s, refl, e)
      verified_facts s (err x) e h = cc

  sized_facts :
      (r : Request) (s : Option Sizing)
      → size_verdict r (quantity_of s) ≡ passed
      → (t : Sizing) × (s ≡ some t) × (le r.quantity t.quantity ≡ true)
  unfolding size_verdict
  sized_facts r none h = cc
  sized_facts r (some t) h = (t, refl, ground arith)

  risk_facts :
      (r : Request) (d : RiskDecision) (now : ℕ) (kill : Option String)
      → validate_risk c r now (terms_of r d) ≡ passed
      → validate_kill_switch c r kill ≡ passed
      → IsRiskApproved c kill r d now
  unfolding validate_risk validate_kill_switch
  risk_facts r d now kill h k = record {
    allowed = ground arith;
    named = ground arith;
    sized = λ e. sized_facts r d.decision.sizing (ground arith);
    young = λ e. ground arith;
    unkilled = λ e. ground arith;
  }

  amounts_facts :
      (r : Request)
      → validate_amounts c r ≡ passed
      → (any (str_eq r.symbol) c.settings.allowed_symbols ≡ true)
        × (le (reference_notional r) c.settings.maximum_order_notional ≡ true)
  unfolding validate_amounts
  amounts_facts r h = ground arith

  venue_facts :
      (r : Request) (now : ℕ)
      → validate_venue c r now ≡ ok passed
      → (is_execution_enabled c.settings.preflight.exchanges r.exchange ≡ true)
        × (execution_eligibility_reason c.settings.venues r.exchange (aware now) r.reduce_only
            ≡ ok none)
  unfolding validate_venue
  venue_facts r now h = ground (
    arith,
    eligible_verdict
        (execution_eligibility_reason c.settings.venues r.exchange (aware now) r.reduce_only),
  )

  unless_passed :
      (v : Result Verdict) (rest : Call W Verdict) (g : Gateway W)
      → (unless_refused c v rest g).0 ≡ ok passed
      → (v ≡ ok passed) × ((rest g).0 ≡ ok passed)
  unless_passed (err e) rest g h = cc
  unless_passed (ok (refused reason)) rest g h = cc
  unless_passed (ok passed) rest g h = (refl, h)

  after_snapshot_passed :
      (v : Verdict) (m : Call W Verdict) (g : Gateway W)
      → (after_snapshot c v m g).0 ≡ ok passed
      → v ≡ passed
  after_snapshot_passed passed m g h = refl
  after_snapshot_passed (refused reason) m g h = cc

  cross_venue_facts :
      (r : Request) (receive pay : LegDataEvidence) (now : ℕ) (g : Gateway W)
      → (validate_cross_venue_preflight c r receive pay now g).0 ≡ ok passed
      → IsCovered c r now
  unfolding validate_cross_venue_preflight
  cross_venue_facts r receive pay now g h =
      let p = r.cross_venue_preflight in
      let v = verify_with c c.preflight_service p now in
      let w = validate_snapshot c p r receive pay now in
      let both =
        passed-split v w (after_snapshot_passed (v >> w) (check_binding c r receive pay now) g h) in
      let facts = snapshot_facts r receive pay now both.1 in
      record {
        trusted = service_facts c.preflight_service p now both.0;
        healthy = (facts.0, facts.1);
        fillable = facts.2;
      }

  limits_facts :
      (r : Request) (d : RiskDecision) (now : ℕ) (g : Gateway W)
      → (validate_limits c r now (terms_of r d) g).0 ≡ ok passed
      → (validate_amounts c r ≡ passed)
        × (validate_risk c r now (terms_of r d) ≡ passed)
        × (validate_kill_switch c r g.kill_switch_reason ≡ passed)
  unfolding validate_limits
  limits_facts r d now g h =
      let a = validate_amounts c r in
      let b = validate_risk c r now (terms_of r d) in
      let k = validate_kill_switch c r g.kill_switch_reason in
      let all =
        ok_passed (a >> b >> k) (unless_passed (ok (a >> b >> k)) (validate_rate c now) g h).0 in
      let outer = passed-split (a >> b) k all in
      let inner = passed-split a b outer.0 in (inner.0, inner.1, outer.1)

  legs_facts :
      (r : Request) (d : RiskDecision) (now : ℕ) (receive pay : Option LegDataEvidence)
      (g : Gateway W)
      → validate_times c r now false ≡ passed
      → (validate_with_legs c r now (terms_of r d) receive pay g).0 ≡ ok passed
      → IsPermitted c g.kill_switch_reason r d now
  unfolding validate_with_legs
  legs_facts r d now none pay g t h = cc
  legs_facts r d now (some receive) none g t h = cc
  legs_facts r d now (some receive) (some pay) g t h =
      let k = terms_of r d in
      let evidence = unless_passed (ok (validate_evidence c r receive pay now)) _ g h in
      let x = validate_cross_venue_preflight c r receive pay now g in
      let cross =
        unless_passed x.0 (unless_refused c (validate_venue c r now) (validate_limits c r now k))
          x.1 evidence.1 in
      let venue = unless_passed (validate_venue c r now) (validate_limits c r now k) x.1 cross.1 in
      let limits = limits_facts r d now x.1 venue.1 in
      let v = venue_facts r now venue.0 in
      let a = amounts_facts r limits.0 in
      let same = (cross_venue-Keeps c r receive pay now).keeps g in
      record {
        timely = times-IsTimely r now t;
        covered = cross_venue_facts r receive pay now g cross.0;
        enabled = v.0;
        eligible = v.1;
        listed = a.0;
        bounded = a.1;
        approved =
            IsRiskApproved-before c r d now same.killed
              (risk_facts r d now x.1.kill_switch_reason limits.1 limits.2);
      }

  pub validate_request-IsPermitted :
      (r : Request) (d : RiskDecision) (now : ℕ) (g : Gateway W)
      → (validate_request c r now (terms_of r d) g).0 ≡ ok passed
      → IsPermitted c g.kill_switch_reason r d now
  unfolding validate_request
  validate_request-IsPermitted r d now g h =
      let e = r.cross_venue_signal_evidence in
      let t = validate_times c r now false in
      let i = validate_identity c r in
      let first =
        unless_passed (ok (t >> i))
          (validate_with_legs c r now (terms_of r d) e.receive_leg e.pay_leg) g h in
      legs_facts r d now e.receive_leg e.pay_leg g (passed-split t i (ok_passed (t >> i) first.0)).0
        first.1
