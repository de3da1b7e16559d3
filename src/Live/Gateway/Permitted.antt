-- ===== src/Live/Gateway/Permitted.antt =====
-- services/live_trading/gateway.py: what it means that a request is permitted.
pub mod Passed
use crypt_tool.Base.{
  Bool, ℕ, ◌+◌, ◌*◌, ◌≤◌, ◌<◌, ◌≡◌, refl, true, false, ◌||◌, String, str_eq, Option, none, some,
  any,
}
use crypt_tool.Base.Results.{ok}
use crypt_tool.Time.{aware}
use crypt_tool.Decimal.{le, min_dec}
use crypt_tool.Risk.Models.{Sizing}
use crypt_tool.Venues.Eligibility.{execution_eligibility_reason}
use crypt_tool.Live.Bindings.{Service, verify}
use crypt_tool.Live.Orders.{Request, reference_notional}
use crypt_tool.Live.Gateway.{Config, RiskDecision}
use crypt_tool.Live.Gateway.Validation.{passed}
use crypt_tool.Live.Gateway.Validation.Orders.{is_set, is_execution_enabled}

-- The report is approved and young, and so is the request, which has not expired.
pub record IsTimely {W : Type 0} (c : Config W) (r : Request) (now : ℕ) : Type 0 where
  pub approved : c.preflight.approved ≡ true
  pub report_young :
      (c.preflight.timestamp ≤ now)
      × (now ≤ c.preflight.timestamp + c.settings.preflight_ttl_seconds * 1000000)
  pub request_young :
      (r.created_at ≤ now) × (now ≤ r.created_at + c.settings.stale_data_seconds * 1000000)
  pub unexpired : now < r.expires_at

-- The preflight of the request is one that the trusted service issued, for this instant, and
-- both venues can fill the quantity.
pub record IsCovered {W : Type 0} (c : Config W) (r : Request) (now : ℕ) : Type 0 where
  pub trusted :
      (s : Service) × (c.preflight_service ≡ some s)
      × (verify c.payload_hash c.hmac s r.cross_venue_preflight now ≡ ok tt)
  pub healthy :
      (r.cross_venue_preflight.payload.values.receive_execution_health ≡ true)
      × (r.cross_venue_preflight.payload.values.pay_execution_health ≡ true)
  pub fillable :
      let v = r.cross_venue_preflight.payload.values in
      le r.quantity (min_dec v.receive_fillable_quantity v.pay_fillable_quantity) ≡ true

-- The risk decision is the one that the request names and allows it; a request that may open
-- exposure is within the size of the decision, which is young, and no kill switch is set.
pub record IsRiskApproved {W : Type 0} (c : Config W) (kill : Option String) (r : Request)
    (d : RiskDecision) (now : ℕ) : Type 0 where
  pub allowed : (d.decision.allowed || r.reduce_only) ≡ true
  pub named : str_eq d.decision_id r.risk_decision_id ≡ true
  pub sized :
      r.reduce_only ≡ false
      → (s : Sizing) × (d.decision.sizing ≡ some s) × (le r.quantity s.quantity ≡ true)
  pub young :
      r.reduce_only ≡ false
      → (d.decision.evaluated_at ≤ now)
        × (now ≤ d.decision.evaluated_at + c.settings.stale_data_seconds * 1000000)
  pub unkilled : r.reduce_only ≡ false → is_set kill ≡ false

-- All that the validation of a request has passed.
pub record IsPermitted {W : Type 0} (c : Config W) (kill : Option String) (r : Request)
    (d : RiskDecision) (now : ℕ) : Type 0 where
  pub timely : IsTimely c r now
  pub covered : IsCovered c r now
  pub enabled : is_execution_enabled c.settings.preflight.exchanges r.exchange ≡ true
  pub eligible :
      execution_eligibility_reason c.settings.venues r.exchange (aware now) r.reduce_only ≡ ok none
  pub listed : any (str_eq r.symbol) c.settings.allowed_symbols ≡ true
  pub bounded : le (reference_notional r) c.settings.maximum_order_notional ≡ true
  pub approved : IsRiskApproved c kill r d now

set_only : {a b : Bool} → (a ≡ true → b ≡ true) → b ≡ false → a ≡ false
set_only {a = false} m e = refl
set_only {a = true} m e = let i = m refl in cc

module _ {W : Type 0} (c : Config W) where
  -- What is approved under a kill switch is so under one that was set only if it is.
  pub IsRiskApproved-before :
      {k j : Option String} (r : Request) (d : RiskDecision) (now : ℕ)
      → (is_set k ≡ true → is_set j ≡ true)
      → IsRiskApproved c j r d now
      → IsRiskApproved c k r d now
  IsRiskApproved-before r d now m a = record {
    allowed = a.allowed;
    named = a.named;
    sized = a.sized;
    young = a.young;
    unkilled = λ e. set_only m (a.unkilled e);
  }

  pub IsPermitted-before :
      {k j : Option String} (r : Request) (d : RiskDecision) (now : ℕ)
      → (is_set k ≡ true → is_set j ≡ true)
      → IsPermitted c j r d now
      → IsPermitted c k r d now
  IsPermitted-before r d now m p = record {
    timely = p.timely;
    covered = p.covered;
    enabled = p.enabled;
    eligible = p.eligible;
    listed = p.listed;
    bounded = p.bounded;
    approved = IsRiskApproved-before r d now m p.approved;
  }
