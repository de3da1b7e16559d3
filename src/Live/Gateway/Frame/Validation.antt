-- ===== src/Live/Gateway/Frame/Validation.antt =====
-- services/live_trading/gateway.py: a validation leaves the rest alone.
use crypt_tool.Base.{ℕ, refl, Option, none, some, if_both}
use crypt_tool.Base.Results.{Result, ok, err}
use crypt_tool.Execution.Leg.{Machine, Action}
use crypt_tool.Live.Bindings.{Preflight, get}
use crypt_tool.Live.Evidence.{LegDataEvidence}
use crypt_tool.Live.Orders.{Request}
use crypt_tool.Live.Gateway.{Config, Gateway, Call}
use crypt_tool.Live.Gateway.Validation.{Verdict, passed, refused, ◌>>◌}
use crypt_tool.Live.Gateway.Validation.CrossVenue.{
  changed, preflight_changed, bound_elsewhere, check_binding, after_snapshot,
  validate_cross_venue_preflight,
}
use crypt_tool.Live.Gateway.Validation.Orders.{
  RiskTerms, unless_refused, after_verdict, validate_times, validate_identity, validate_evidence,
  validate_amounts, validate_risk, validate_kill_switch, validate_venue, validate_rate,
  validate_limits, validate_with_legs, validate_request,
}
use crypt_tool.Live.Gateway.Worlds.{here}
use crypt_tool.Live.Gateway.Frame.{Frame, Frame-refl, Frame-trans, Keeps}

module _ {W : Type 0} (c : Config W) where
  changed-Frame : (g : Gateway W) (r : Result (Machine × Action)) → Frame c g (changed c g r).1
  changed-Frame g (err e) = Frame-refl g
  changed-Frame g (ok (m, a)) = record {
    killed = λ k. k;
    receipts = refl;
    unsent = refl;
    passes = here;
  }

  preflight_changed-Frame :
      (p : Preflight) (now : ℕ) (m : Option Machine) (g : Gateway W)
      → Frame c g (preflight_changed c p now m g).1
  unfolding preflight_changed
  preflight_changed-Frame p now none g = Frame-refl g
  preflight_changed-Frame p now (some m) g = changed-Frame g _

  check_binding-Keeps :
      (r : Request) (receive pay : LegDataEvidence) (now : ℕ)
      → Keeps c (check_binding c r receive pay now)
  unfolding check_binding
  check_binding-Keeps r receive pay now = record {
    keeps = λ g.
        if_both (λ (x : Result Verdict × Gateway W). Frame c g x.1)
          (bound_elsewhere (get g.world.bindings r.signal_id)
            r.cross_venue_preflight.preflight_hash)
          (preflight_changed-Frame r.cross_venue_preflight now g.leg_execution_machine g)
          (Frame-refl g);
  }

  after_snapshot-Keeps :
      (v : Verdict) (m : Call W Verdict) → Keeps c m → Keeps c (after_snapshot c v m)
  after_snapshot-Keeps passed m k = record { keeps = λ g. k.keeps g }
  after_snapshot-Keeps (refused reason) m k = record { keeps = λ g. Frame-refl g }

  pub cross_venue-Keeps :
      (r : Request) (receive pay : LegDataEvidence) (now : ℕ)
      → Keeps c (validate_cross_venue_preflight c r receive pay now)
  unfolding validate_cross_venue_preflight
  cross_venue-Keeps r receive pay now =
      after_snapshot-Keeps _ _ (check_binding-Keeps r receive pay now)

  unless_refused-Frame :
      (v : Result Verdict) (rest : Call W Verdict) (g : Gateway W)
      → Keeps c rest
      → Frame c g (unless_refused c v rest g).1
  unless_refused-Frame (err e) rest g k = Frame-refl g
  unless_refused-Frame (ok (refused reason)) rest g k = Frame-refl g
  unless_refused-Frame (ok passed) rest g k = k.keeps g

  validate_limits-Keeps :
      (r : Request) (now : ℕ) (k : RiskTerms) → Keeps c (validate_limits c r now k)
  unfolding validate_limits validate_rate
  validate_limits-Keeps r now k = record {
    keeps = λ g.
        unless_refused-Frame
          (ok (
            validate_amounts c r
            >> validate_risk c r now k
            >> validate_kill_switch c r g.kill_switch_reason))
          (validate_rate c now) g
          (record {
            keeps = λ g'. record { killed = λ k. k; receipts = refl; unsent = refl; passes = here };
          });
  }

  after_cross_venue :
      (r : Request) (receive pay : LegDataEvidence) (now : ℕ) (v : Result Verdict)
      (rest : Call W Verdict)
      → Keeps c rest
      → Keeps c (λ g.
        after_verdict c
          (validate_cross_venue_preflight c r receive pay now g)
          (unless_refused c v rest))
  after_cross_venue r receive pay now v rest k = record {
    keeps = λ g.
        let x = validate_cross_venue_preflight c r receive pay now g in
        Frame-trans ((cross_venue-Keeps r receive pay now).keeps g) (
          unless_refused-Frame x.0 (unless_refused c v rest) x.1
            (record { keeps = λ g'. unless_refused-Frame v rest g' k }));
  }

  validate_with_legs-Keeps :
      (r : Request) (now : ℕ) (k : RiskTerms) (receive pay : Option LegDataEvidence)
      → Keeps c (validate_with_legs c r now k receive pay)
  unfolding validate_with_legs
  validate_with_legs-Keeps r now k none pay = record { keeps = λ g. Frame-refl g }
  validate_with_legs-Keeps r now k (some receive) none = record { keeps = λ g. Frame-refl g }
  validate_with_legs-Keeps r now k (some receive) (some pay) = record {
    keeps = λ g. unless_refused-Frame (ok (validate_evidence c r receive pay now)) _ g (
        after_cross_venue r receive pay now (validate_venue c r now) (validate_limits c r now k)
          (validate_limits-Keeps r now k));
  }

  pub validate_request-Keeps :
      (r : Request) (now : ℕ) (k : RiskTerms) → Keeps c (validate_request c r now k)
  unfolding validate_request
  validate_request-Keeps r now k =
      let e = r.cross_venue_signal_evidence in
      record {
        keeps = λ g.
            unless_refused-Frame (ok (validate_times c r now k.preview >> validate_identity c r)) _
              g (validate_with_legs-Keeps r now k e.receive_leg e.pay_leg);
      }
