-- ===== src/Live/Gateway/Examples.antt =====
-- services/live_trading/gateway.py: what the gateway does with orders of a carry signal.
use crypt_tool.Base.{
  ℕ, ◌≡◌, ◌≤◌, refl, inl, inr, Bool, false, String, Option, none, some, List, [], ◌∷◌, In, arith,
  if◌then◌else◌,
}
use crypt_tool.Base.Dict
use crypt_tool.Base.Texts.{is_blank}
use crypt_tool.Base.Results.{ok}
use crypt_tool.Time.{Timestamp, aware, utc}
use crypt_tool.Decimal.{Decimal, lit, zero_dec, one_dec}
use crypt_tool.Venues.Eligibility.{VenueSettings, enabled}
use crypt_tool.Venues.Trusted.{TrustedCapabilityRecord, Registry}
use crypt_tool.Live.Bindings.{
  Values, Payload, Preflight, Service, Binding, new_binding, reconciliation_required, reserved,
  version_of, get,
}
use crypt_tool.Live.Evidence.{
  SourceEvent, synchronized, CapabilityEvidence, LegDataEvidence, CrossVenueSignalEvidence, Digests,
}
use crypt_tool.Live.Orders.{Request, Ack, accepted, CancelAck}
use crypt_tool.Live.Gateway.{Config, Gateway, GatewaySettings, RiskDecision, preflight_binding}
use crypt_tool.Live.Gateway.Reserve.{reserve_preflight, abort_preflight}
use crypt_tool.Live.Gateway.Reconcile.{settle_snapshot}
use crypt_tool.Live.Gateway.Settled.{IsCurrent, IsSettled, settle_snapshot-IsSettled}
use crypt_tool.Live.Gateway.Aborted.{abort-reserve}
use crypt_tool.Live.Gateway.Place.{place_order}
use crypt_tool.Live.Gateway.Calls.{activate_kill_switch, fresh}
use crypt_tool.Live.Gateway.Runs.{Operation, run, place}
use crypt_tool.Live.Gateway.Runs.Safety.{place_order-replays}
use crypt_tool.Live.Gateway.Reserved.{IsReserved, reserve_preflight-IsReserved}
use crypt_tool.Live.Gateway.Fixtures.{
  half_open, receipt_for, config, decision, world, start, exit_order, entry_order, one_entry,
  one_exit, interrupted, killed, unsettled, waiting, read_back,
}

-- What the operations of the gateway give here.
record Facts : Type 0 where
  exits : (place_order config exit_order decision (aware 12) start).0 ≡ ok (receipt_for exit_order)
  entry_sent : In entry_order (run config one_entry (fresh config none world)).sent
  exit_sent : In exit_order (run config one_exit killed).sent
  not_blank : is_blank "operator" ≡ false
  -- An entry whose call is awaited when the kill switch is set is still handed over.
  in_flight :
      let g = run interrupted one_entry start in
      (g.sent ≡ entry_order ∷ []) × (g.kill_switch_reason ≡ some "operator")

facts : Facts
unfolding crypt_tool.Live.Gateway.audit crypt_tool.Live.Gateway.preflight_binding
    crypt_tool.Live.Gateway.cas crypt_tool.Live.Gateway.transition
    crypt_tool.Live.Gateway.Validation.event_types
    crypt_tool.Live.Gateway.Validation.stored_event_mismatch
    crypt_tool.Live.Gateway.Validation.validate_stored_event
    crypt_tool.Live.Gateway.Validation.validate_source_event
    crypt_tool.Live.Gateway.Validation.validate_source_events
    crypt_tool.Live.Gateway.Validation.matches_trusted
    crypt_tool.Live.Gateway.Validation.validate_capability
    crypt_tool.Live.Gateway.Validation.Orders.has_required
    crypt_tool.Live.Gateway.Validation.Orders.prune
    crypt_tool.Live.Gateway.Validation.Orders.size_verdict
    crypt_tool.Live.Gateway.Validation.Orders.is_execution_enabled
    crypt_tool.Live.Gateway.Validation.Orders.eligibility_verdict
    crypt_tool.Live.Gateway.Validation.Orders.validate_times
    crypt_tool.Live.Gateway.Validation.Orders.validate_identity
    crypt_tool.Live.Gateway.Validation.Orders.validate_legs
    crypt_tool.Live.Gateway.Validation.Orders.validate_order_leg
    crypt_tool.Live.Gateway.Validation.Orders.validate_leg_capabilities
    crypt_tool.Live.Gateway.Validation.Orders.validate_capabilities
    crypt_tool.Live.Gateway.Validation.Orders.validate_evidence
    crypt_tool.Live.Gateway.Validation.Orders.validate_amounts
    crypt_tool.Live.Gateway.Validation.Orders.validate_risk
    crypt_tool.Live.Gateway.Validation.Orders.validate_kill_switch
    crypt_tool.Live.Gateway.Validation.Orders.validate_rate
    crypt_tool.Live.Gateway.Validation.Orders.validate_limits
    crypt_tool.Live.Gateway.Validation.Orders.validate_venue
    crypt_tool.Live.Gateway.Validation.Orders.validate_with_legs
    crypt_tool.Live.Gateway.Validation.Orders.validate_request
    crypt_tool.Live.Gateway.Validation.CrossVenue.event_texts
    crypt_tool.Live.Gateway.Validation.CrossVenue.leg_texts
    crypt_tool.Live.Gateway.Validation.CrossVenue.bound_elsewhere
    crypt_tool.Live.Gateway.Validation.CrossVenue.source_event_hash
    crypt_tool.Live.Gateway.Validation.CrossVenue.validate_snapshot
    crypt_tool.Live.Gateway.Validation.CrossVenue.validate_hashes
    crypt_tool.Live.Gateway.Validation.CrossVenue.check_binding
    crypt_tool.Live.Gateway.Validation.CrossVenue.validate_cross_venue_preflight
    crypt_tool.Live.Gateway.Reserve.reserve_free crypt_tool.Live.Gateway.Reserve.reserve_bound
    crypt_tool.Live.Gateway.Reserve.reserve_current
    crypt_tool.Live.Gateway.Reserve.reserve_preflight
    crypt_tool.Live.Gateway.Reserve.abort_preflight crypt_tool.Live.Gateway.Reserve.ack_transition
    crypt_tool.Live.Gateway.Reserve.record_preflight_ack
    crypt_tool.Live.Gateway.Reserve.record_position_snapshot
    crypt_tool.Live.Gateway.Place.position_of crypt_tool.Live.Gateway.Place.closes
    crypt_tool.Live.Gateway.Place.reduce_only_failure crypt_tool.Live.Gateway.Place.reserve_phase
    crypt_tool.Live.Gateway.Place.position_phase crypt_tool.Live.Gateway.Place.check_phase
    crypt_tool.Live.Gateway.Place.submit crypt_tool.Live.Gateway.Place.acknowledge
    crypt_tool.Live.Gateway.Place.after_submission crypt_tool.Live.Gateway.Place.submission_phase
    crypt_tool.Live.Gateway.Place.reserved_phase crypt_tool.Live.Gateway.Place.place_valid
    crypt_tool.Live.Gateway.Place.place_new crypt_tool.Live.Gateway.Place.place_unless_known
    crypt_tool.Live.Gateway.Place.place_locked crypt_tool.Live.Gateway.Place.place_order
    crypt_tool.Live.Gateway.Calls.cancel_all crypt_tool.Live.Gateway.Calls.activate_kill_switch
    crypt_tool.Live.Gateway.Runs.perform crypt_tool.Live.Gateway.Runs.run
    crypt_tool.Live.Evidence.eq_source_event crypt_tool.Live.Evidence.eq_capability
    crypt_tool.Live.Evidence.eq_leg crypt_tool.Live.Evidence.valid_leg
    crypt_tool.Live.Evidence.valid_signal crypt_tool.Live.Evidence.leg
    crypt_tool.Live.Evidence.has_repeated crypt_tool.Live.Orders.reference_notional
    crypt_tool.Venues.Trusted.get_record crypt_tool.Venues.Trusted.record_of
    crypt_tool.Venues.Trusted.require crypt_tool.Venues.Eligibility.new_eligibility
    crypt_tool.Venues.Eligibility.new_order_failures
    crypt_tool.Venues.Eligibility.permits_new_orders crypt_tool.Venues.Eligibility.permits_reduction
    crypt_tool.Venues.Eligibility.eligibility_from_settings
    crypt_tool.Venues.Eligibility.execution_eligibility_reason
    crypt_tool.Strategies.Capabilities.lookup crypt_tool.Strategies.Capabilities.needs_of
    crypt_tool.Live.Bindings.new_snapshot crypt_tool.Live.Bindings.get
    crypt_tool.Live.Bindings.version_of crypt_tool.Live.Bindings.compare_and_set
    crypt_tool.Live.Bindings.new_binding crypt_tool.Live.Bindings.all_distinct
    crypt_tool.Live.Bindings.verify crypt_tool.Base.Texts.insert_text
    crypt_tool.Base.Texts.sort_texts crypt_tool.Base.Texts.join crypt_tool.Base.Texts.is_blank
    crypt_tool.Base.Texts.is_sha256 crypt_tool.Base.Dict.get crypt_tool.Base.Dict.put
    crypt_tool.Decimal.le crypt_tool.Decimal.mul crypt_tool.Decimal.abs crypt_tool.Time.utc
facts = record {
  exits = refl;
  entry_sent = inl refl;
  exit_sent = inl refl;
  not_blank = refl;
  in_flight = (refl, refl);
}

place_order-replays_example :
    let h = run config one_entry (place_order config exit_order decision (aware 12) start).1 in
    let call = place_order config exit_order decision (aware 20) h in
    (call.0 ≡ ok (receipt_for exit_order)) × (call.1.sent ≡ h.sent)
place_order-replays_example =
    place_order-replays config exit_order exit_order decision decision 12 20 start
      (receipt_for exit_order) one_entry facts.exits refl

is_current : IsCurrent unsettled waiting
unfolding version_of get new_binding Dict.get
is_current = refl

settle_snapshot-IsSettled_example :
    ((settle_snapshot unsettled exit_order read_back 20 waiting).0 ≡ ok tt)
    × IsSettled exit_order read_back unsettled (
        preflight_binding unsettled.signal_id
          (settle_snapshot unsettled exit_order read_back 20 waiting).1)
settle_snapshot-IsSettled_example =
    settle_snapshot-IsSettled exit_order read_back unsettled 20 waiting is_current

read_keyed : (preflight_binding exit_order.signal_id waiting).signal_id ≡ exit_order.signal_id
unfolding preflight_binding get new_binding Dict.get
read_keyed = refl

abort-reserve_example :
    let call =
      reserve_preflight entry_order 30 (abort_preflight exit_order 20 "maximum" waiting).1 in
    let b = preflight_binding exit_order.signal_id call.1 in
    (call.0 ≡ ok none) × (b.state ≡ reserved) × (b.first_leg_role ≡ none)
abort-reserve_example =
    abort-reserve exit_order entry_order 20 30 "maximum" waiting read_keyed refl refl

half_open_keyed :
    (preflight_binding entry_order.signal_id half_open).signal_id ≡ entry_order.signal_id
unfolding preflight_binding get new_binding Dict.get
half_open_keyed = refl

reserves_second : (reserve_preflight entry_order 20 half_open).0 ≡ ok none
unfolding reserve_preflight preflight_binding get new_binding Dict.get version_of
    crypt_tool.Live.Gateway.cas crypt_tool.Live.Bindings.compare_and_set
    crypt_tool.Live.Gateway.Reserve.reserve_current crypt_tool.Live.Gateway.Reserve.reserve_bound
    crypt_tool.Live.Gateway.Reserve.reserve_second
reserves_second = refl

reserve_preflight-IsReserved_example :
    IsReserved entry_order
      (preflight_binding entry_order.signal_id half_open)
      (preflight_binding entry_order.signal_id (reserve_preflight entry_order 20 half_open).1)
reserve_preflight-IsReserved_example =
    reserve_preflight-IsReserved entry_order 20 half_open half_open_keyed reserves_second
