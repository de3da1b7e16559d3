-- ===== src/Live/Gateway.antt =====
-- services/live_trading/gateway.py: the state of `LiveExecutionGateway`, its calls, its audit and
-- its writes of the bindings. While a call is awaited, the exchange and the bindings may change, and
-- the kill switch may be set.
use crypt_tool.Base.{
  ℕ, suc, ◌+◌, ◌*◌, ◌≡◌, Bool, true, false, ◌&&◌, ◌||◌, not, String, str_eq, Option, none, some,
  List, [], ◌∷◌, if◌then◌else◌,
}
use crypt_tool.Base.Dict
use crypt_tool.Base.Texts.{is_blank}
use crypt_tool.Base.Results.{
  Exception, value_error, duplicate_fill_error, key_error, runtime_error, index_error,
  execution_adapter_error, other_error, Result, ok, err,
}
use crypt_tool.Decimal.{Decimal}
use crypt_tool.Execution.Leg.{Machine, Action}
use crypt_tool.Risk.Manager.{Decision}
use crypt_tool.Venues.Eligibility.{VenueSettings}
use crypt_tool.Venues.Trusted.{Registry}
use crypt_tool.Live.Preflight.{Settings, Report}
use crypt_tool.Live.Bindings.{State, unbound, Binding, Payload, Service, get, compare_and_set}
use crypt_tool.Live.Evidence.{Digests, SourceEvent}
use crypt_tool.Live.Orders.{Request, Ack, rejected, AuditEvent}
use crypt_tool.Live.Exchange.{World, Method, Adapter}
pub mod Validation
pub mod Reserve
pub mod Snapshot
pub mod Reconcile
pub mod Place
pub mod Calls
pub mod Worlds
pub mod Frame
pub mod Permitted
pub mod Outcome
pub mod Runs
pub mod Settled
pub mod Aborted
pub mod Reserved
mod Fixtures
mod Examples

-- The settings that the gateway reads, beside those of the preflight.
pub record GatewaySettings : Type 0 where
  pub preflight : Settings
  pub allowed_symbols : List String
  pub maximum_order_notional : Decimal
  pub maximum_open_orders : ℕ
  pub maximum_orders_per_minute : ℕ
  pub preflight_ttl_seconds : ℕ
  pub capability_verification_max_age_seconds : ℕ
  pub source_event_max_age_seconds : ℕ
  pub stale_data_seconds : ℕ
  pub venues : List (String × VenueSettings)

-- A risk decision with its identity.
pub record RiskDecision : Type 0 where
  pub decision_id : String
  pub decision : Decision

-- What the gateway is built with and does not change. The digests are parameters, as are the
-- stored source events. The gateway can be given a sink of its audit events.
pub record Config (W : Type 0) : Type 0 where
  pub settings : GatewaySettings
  pub adapter : Adapter W
  pub preflight : Report
  pub source_events : Option (String → Option SourceEvent)
  pub trusted_capabilities : Option Registry
  pub audit_sink : Option (AuditEvent → W → W)
  pub model_version : String
  pub config_version : String
  pub preflight_service : Option Service
  pub digests : Digests
  pub payload_hash : Payload → String
  pub hmac : List ℕ → String → String

-- The requests handed to the adapter are recorded too, the last one first, which the program
-- does not do.
pub record Gateway (W : Type 0) : Type 0 where
  pub kill_switch_reason : Option String
  pub audit_events : List AuditEvent
  pub idempotent_receipts : List (String × Ack)
  pub order_timestamps : List ℕ
  pub leg_execution_machine : Option Machine
  pub last_preflight_action : Option Action
  pub world : World W
  pub sent : List Request

-- A call returns or raises, and what it has written until then stays written.
abbrev pub Call : Type 0 → Type 0 → Type 0
Call W A = Gateway W → Result A × Gateway W

-- A blank reason is refused.
abbrev pub set_meanwhile : Option String → Option String → Option String
set_meanwhile none reason = reason
set_meanwhile (some s) reason = if is_blank s then reason else some s

module _ {W : Type 0} where
  abbrev pub then_do : {A B : Type 0} → Result A → (A → Call W B) → Call W B
  then_do (ok a) f g = f a g
  then_do (err e) f g = (err e, g)

  abbrev pub or_handle : {A : Type 0} → Result A → (Exception → Call W A) → Call W A
  or_handle (ok a) handler g = (ok a, g)
  or_handle (err e) handler g = handler e g

  infixl 5 ◌>>=◌ ◌>>◌
  abbrev pub ◌>>=◌ : {A B : Type 0} → Call W A → (A → Call W B) → Call W B
  ◌>>=◌ m f g = then_do (m g).0 f (m g).1

  abbrev pub ◌>>◌ : {A B : Type 0} → Call W A → Call W B → Call W B
  m >> k = m >>= λ _. k

  abbrev pub pure : {A : Type 0} → A → Call W A
  pure a g = (ok a, g)

  abbrev pub raise : {A : Type 0} → Exception → Call W A
  raise e g = (err e, g)

  -- try: m / except Exception as exc: handler
  abbrev pub catch : {A : Type 0} → Call W A → (Exception → Call W A) → Call W A
  catch m handler g = or_handle (m g).0 handler (m g).1

  abbrev pub modify : (Gateway W → Gateway W) → Call W (Unit {0})
  modify f g = (ok tt, f g)

  abbrev pub gets : {A : Type 0} → (Gateway W → A) → Call W A
  gets f g = (ok (f g), g)

  -- `await self.adapter.method(...)`, during which `activate_kill_switch` may have been called.
  abbrev pub await : {A : Type 0} → Method W A → Call W A
  await method g = (
    (method g.world).0,
    record g {
      kill_switch_reason = set_meanwhile (method g.world).1.activated g.kill_switch_reason;
      world = record (method g.world).1 { activated = none };
    },
  )

-- `type(exc).__name__`
unfoldable pub type_name : Exception → String
type_name (value_error m) = "ValueError"
type_name (duplicate_fill_error m) = "DuplicateFillError"
type_name (key_error m) = "KeyError"
type_name (runtime_error m) = "RuntimeError"
type_name (index_error m) = "IndexError"
type_name (execution_adapter_error m) = "ExecutionAdapterError"
type_name (other_error name) = name

abbrev pub rejection : Request → ℕ → String → Ack
rejection r now reason = record {
  request_id = r.request_id;
  external_order_id = none;
  state = rejected;
  accepted_at = now;
  reason = reason;
  adapter_called = false;
}

-- The formatted notional is left out.
abbrev pub details_of : Request → List (String × String)
details_of r =
    ("signal_id", r.signal_id)
    ∷ ("risk_decision_id", r.risk_decision_id)
    ∷ ("symbol", r.symbol)
    ∷ []

module _ {W : Type 0} (c : Config W) where
  abbrev pub tell : Option (AuditEvent → W → W) → AuditEvent → World W → World W
  tell none e w = w
  tell (some sink) e w = record w { outside = sink e w.outside }

  abbrev noted : AuditEvent → Gateway W → Gateway W
  noted e g = record g { audit_events = e ∷ g.audit_events; world = tell c.audit_sink e g.world }

  -- `_audit`; the last event stands first.
  unfoldable pub audit :
      ℕ → String → Option String → Bool → String → List (String × String) → Call W (Unit {0})
  audit now event_type request_id allowed reason details = modify (
      noted (record {
        timestamp = now;
        event_type = event_type;
        request_id = request_id;
        allowed = allowed;
        reason = reason;
        model_version = c.model_version;
        config_version = c.config_version;
        details = details;
      }))

  abbrev pub remember : Request → Ack → Gateway W → Gateway W
  remember r a g = record g {
    idempotent_receipts = Dict.put r.idempotency_key a g.idempotent_receipts;
  }

  unfoldable pub reject_and_remember : Request → ℕ → String → Call W Ack
  unfolding audit
  reject_and_remember r now reason = do
    modify (remember r (rejection r now reason))
    audit now "order_rejected" (some r.request_id) false reason (details_of r)
    pure (rejection r now reason)

-- The next version of a binding in a new state; other fields are set by `updates`.
abbrev pub moved : Binding → State → ℕ → Option String → Binding
moved b state now failure_reason = record b {
  state = state;
  version = b.version + 1;
  updated_at = some now;
  failure_reason = failure_reason;
}

abbrev pub as_it_is : Binding → Binding
as_it_is b = b

-- `PreflightBinding(signal_id, None, UNBOUND)`
abbrev pub no_binding : String → Binding
no_binding signal_id = record {
  signal_id = signal_id;
  preflight_hash = none;
  state = unbound;
  first_leg_role = none;
  first_order_request_id = none;
  first_external_order_id = none;
  second_order_request_id = none;
  second_external_order_id = none;
  version = 0;
  created_at = none;
  updated_at = none;
  failure_reason = none;
  position_snapshot = none;
}

abbrev pub or_unbound : String → Option Binding → Binding
or_unbound signal_id none = no_binding signal_id
or_unbound signal_id (some b) = b

module _ {W : Type 0} where
  unfoldable pub preflight_binding : String → Gateway W → Binding
  preflight_binding signal_id g = or_unbound signal_id (get g.world.bindings signal_id)

  abbrev pub current_binding : String → Call W Binding
  current_binding signal_id = gets (preflight_binding signal_id)

  abbrev pub wrote : Bool × List (String × Binding) → Gateway W → Result Bool × Gateway W
  wrote (done, bindings) g = (ok done, record g { world = record g.world { bindings = bindings } })

  -- `_cas`
  unfoldable pub cas : Binding → Binding → Call W Bool
  cas current b g = wrote (compare_and_set g.world.bindings b.signal_id current.version b) g

  abbrev pub or_conflict : Bool → Call W (Unit {0})
  or_conflict true = pure tt
  or_conflict false = raise (execution_adapter_error "preflight binding CAS conflict")

  unfoldable pub transition :
      Binding → State → ℕ → Option String → (Binding → Binding) → Call W (Unit {0})
  transition current state now failure_reason updates = do
    done ← cas current (updates (moved current state now failure_reason))
    or_conflict done
