-- ===== src/Live/Gateway/Outcome/Placed.antt =====
-- services/live_trading/gateway.py: `place_order` hands an order to the adapter only when it is
-- permitted and checked, and answers a key that has a receipt by it.
use crypt_tool.Base.{ℕ, ◌≡◌, refl, sym, ◌∙◌, ap, subst, String, str_eq, Option, none, some}
use crypt_tool.Base.Results.{ok}
use crypt_tool.Live.Orders.{Request, Ack}
use crypt_tool.Live.Gateway.{Config, Gateway, Call, RiskDecision}
use crypt_tool.Live.Gateway.Validation.{Verdict, passed, refused}
use crypt_tool.Live.Gateway.Reserve.{conflict_text}
use crypt_tool.Live.Gateway.Snapshot.{ExchangeSnapshot}
use crypt_tool.Live.Gateway.Place.{
  reserved_phase, on_failure, retry_conflict, after_reserve, reserve_phase, place_valid, place_new,
  place_unless_known, place_locked, terms_of,
}
use crypt_tool.Live.Gateway.Worlds.{health_checked}
use crypt_tool.Live.Gateway.Frame.{await-Keeps, catch-Keeps, pure-Keeps, >>=-Keeps}
use crypt_tool.Live.Gateway.Frame.Bindings.{reserve_preflight-Keeps}
use crypt_tool.Live.Gateway.Frame.Exchange.{refresh-Keeps, handle_cas_snapshot-Keeps}
use crypt_tool.Live.Gateway.Frame.Validation.{validate_request-Keeps}
use crypt_tool.Live.Gateway.Permitted.{IsPermitted, IsPermitted-before}
use crypt_tool.Live.Gateway.Permitted.Passed.{validate_request-IsPermitted}
use crypt_tool.Live.Gateway.Outcome.{Outcome}
use crypt_tool.Live.Gateway.Outcome.Rules.{
  Places, Parts, known-Places, first-Parts, if-Parts, goes_on-Parts, returned-Parts, catch-Parts,
  Parts-Places,
}
use crypt_tool.Live.Gateway.Outcome.Checks.{reject-Places, give_up-Parts, IsChecked}
use crypt_tool.Live.Gateway.Outcome.Phases.{
  adapter_failed-Fails, reserved-Places, returned_reserved,
}

-- What is done with a conflict keeps the outcome too.
data RetryPlaces {W : Type 0} (c : Config W) (from : Gateway W) (r : Request) (P : Type 0)
    : Option (Call W Ack) → Type 0 where
  no_retry : RetryPlaces c from r P none
  one_retry : {m : Call W Ack} → Places c from r P m → RetryPlaces c from r P (some m)

module _ {W : Type 0} (from : Gateway W) (r : Request) (P : Type 0) (c : Config W) (now : ℕ) where
  retry-Parts :
      {again : Call W Ack} (s : Option ExchangeSnapshot)
      → Places c from r P again
      → Parts c from r P Unit (retry_conflict c again r now s)
  unfolding retry_conflict
  retry-Parts none p = give_up-Parts from r P Unit c now _
  retry-Parts (some s) p = first-Parts from r P Unit (handle_cas_snapshot-Keeps r s now) (λ retry.
      if-Parts from r P Unit retry (λ e. returned-Parts from r P Unit p)
        (λ e. give_up-Parts from r P Unit c now _))

  on_failure-Parts :
      (again : Option (Call W Ack)) (reason : String)
      → RetryPlaces c from r P again
      → Parts c from r P Unit (on_failure c again r now reason)
  unfolding on_failure
  on_failure-Parts _ reason no_retry = give_up-Parts from r P Unit c now reason
  on_failure-Parts _ reason (one_retry p) =
      if-Parts from r P Unit (str_eq reason conflict_text)
        (λ e.
          first-Parts from r P Unit
            (catch-Keeps (>>=-Keeps (refresh-Keeps c r now) (λ s. pure-Keeps (some s)))
              (λ e. pure-Keeps none))
            (λ s. retry-Parts s p))
        (λ e. give_up-Parts from r P Unit c now reason)

  after_reserve-Parts :
      (again : Option (Call W Ack)) (o : Option String)
      → RetryPlaces c from r P again
      → Parts c from r P Unit (after_reserve c again r now o)
  after_reserve-Parts again none p = goes_on-Parts from r P Unit tt
  after_reserve-Parts again (some reason) p = on_failure-Parts again reason p

  reserve-Parts :
      (again : Option (Call W Ack))
      → RetryPlaces c from r P again
      → Parts c from r P Unit (reserve_phase c again r now)
  unfolding reserve_phase
  reserve-Parts again p =
      first-Parts from r P Unit (await-Keeps c.adapter.health_check (λ w. health_checked))
        (λ healthy.
          if-Parts from r P Unit healthy
            (λ e.
              first-Parts from r P Unit (reserve_preflight-Keeps r now)
                (λ o. after_reserve-Parts again o p))
            (λ e. give_up-Parts from r P Unit c now _))

  valid-Places :
      (again : Option (Call W Ack)) (v : Verdict)
      → RetryPlaces c from r P again
      → (v ≡ passed → IsChecked c from.world r → P)
      → Places c from r P (place_valid c again r now v)
  unfolding place_valid
  valid-Places again (refused reason) p q = reject-Places from r P c now reason
  valid-Places again passed p q =
      Parts-Places from r P Unit (reserved_phase c r now)
        (catch-Parts from r P Unit (reserve-Parts again p) (adapter_failed-Fails c r now))
        (λ u. reserved-Places from r c P now (q refl)) (returned_reserved from r c now)

-- What is known of an order that was handed to the adapter by a call that began in a state.
pub record IsCleared {W : Type 0} (c : Config W) (from : Gateway W) (r : Request) (d : RiskDecision)
    (now : ℕ) : Type 0 where
  pub permitted : IsPermitted c from.kill_switch_reason r d now
  pub checked : IsChecked c from.world r

module _ {W : Type 0} (from : Gateway W) (r : Request) (c : Config W) (d : RiskDecision)
    (now : ℕ) where
  new-Places :
      (again : Option (Call W Ack))
      → RetryPlaces c from r (IsCleared c from r d now) again
      → Places c from r (IsCleared c from r d now) (place_new c again r d now)
  unfolding place_new
  new-Places again p =
      known-Places from r _ (validate_request-Keeps c r now (terms_of r d)) (λ v g n e.
        valid-Places from r _ c now again v p (λ i x. record {
          permitted =
              IsPermitted-before c r d now n.killed
                (validate_request-IsPermitted c r d now g (e ∙ ap ok i));
          checked = x;
        }))

  locked_new-Places :
      (again : Option (Call W Ack))
      → RetryPlaces c from r (IsCleared c from r d now) again
      → Places c from r (IsCleared c from r d now) (place_locked c again r d now)
  unfolding place_locked place_unless_known
  locked_new-Places again p = record {
    places = λ g n.
        subst
          (λ o.
            Outcome r (IsCleared c from r d now) g (place_unless_known c o again r d now g).0
              (place_unless_known c o again r d now g).1)
          (sym n.unknown) ((new-Places again p).places g n);
  }

  pub locked-Places :
      Places c from r
        (IsCleared c from r d now)
        (place_locked c (some (place_locked c none r d now)) r d now)
  locked-Places = locked_new-Places _ (one_retry (locked_new-Places none no_retry))
