-- ===== src/Paper/Broker.antt =====
-- services/paper_trading/broker.py: the operations of the broker and its matching.
use crypt_tool.Base.{
  ℕ, Bool, false, ◌||◌, not, String, str_eq, Option, none, some, List, [], ◌∷◌, if◌then◌else◌,
  is_some,
}
use crypt_tool.Base.Dict
use crypt_tool.Base.Results.{value_error, key_error, Result, ok, err}
use crypt_tool.Time.{Timestamp, utc}
use crypt_tool.Decimal.{zero_dec}
use crypt_tool.Paper.Models.{
  Request, Order, EventType, Entity, Payload, named, no_entity, is_working, is_rejected, working,
  canceled, rejected, remaining_quantity, order_details, remaining, because, order_rejected,
  order_submitted, order_canceled, kill_switch, data_halt_cleared, operational_halt,
  operational_resume,
}
use crypt_tool.Paper.Account.{Broker, audit}

-- A reason counts when it is given and not empty.
abbrev pub truthy : Option String → Bool
truthy none = false
truthy (some s) = not (str_eq s "")

unfoldable pub stopped : Broker → Bool
stopped b = truthy b.kill_switch_reason || truthy b.operational_halt_reason

-- The reason of a refusal, without its prefix.
abbrev why : Broker → Option String
why b = if truthy b.kill_switch_reason then b.kill_switch_reason else b.operational_halt_reason

unfoldable pub placed : Broker → Request → ℕ → Order
placed b r t = record {
  request = r;
  submitted_at = t;
  status = if stopped b then rejected else working;
  filled_quantity = zero_dec;
  rejection_reason = if stopped b then why b else none;
}

unfoldable pub submit : Broker → Request → Timestamp → Result Order × Broker
submit b r at = elim (utc at) [
  | err e ↦ (err e, b)
  | ok t ↦
      if is_some (Dict.get r.client_order_id b.orders)
      then (err (value_error "duplicate client_order_id"), b)
      else let o = placed b r t in
        (
          ok o,
          audit (record b { orders = Dict.put r.client_order_id o b.orders }) t
              (if is_rejected o.status then order_rejected else order_submitted)
              (named r.client_order_id) (order_details r.symbol r.side r.quantity),
        )
]

-- `timestamp or datetime.now(UTC)`
abbrev at_or_now : ℕ → Option Timestamp → Result ℕ
at_or_now now none = ok now
at_or_now now (some at) = utc at

-- The order is canceled before the timestamp of the audit event is read.
unfoldable pub cancel_order : Broker → ℕ → String → Option Timestamp → Order → Result Order × Broker
cancel_order b now i at o =
    let o' = record o { status = canceled } in
    let b' = record b { orders = Dict.put i o' b.orders } in
    if not (is_working o.status) then (ok o, b) else elim (at_or_now now at) [
      | err e ↦ (err e, b')
      | ok t ↦ (ok o', audit b' t order_canceled (named i) (remaining (remaining_quantity o')))
    ]

unfoldable pub cancel : Broker → ℕ → String → Option Timestamp → Result Order × Broker
cancel b now i at = elim (Dict.get i b.orders) [
  | none ↦ (err (key_error i), b)
  | some o ↦ cancel_order b now i at o
]

unfoldable pub cancel_each : Broker → ℕ → List (String × Order) → Broker
cancel_each b now [] = b
cancel_each b now ((i, _) ∷ os) = cancel_each (cancel b now i none).1 now os

unfoldable pub cancel_all : Broker → ℕ → Broker
cancel_all b now = cancel_each b now b.orders

-- An event that is timed after the change it reports.
unfoldable pub report :
    Broker → Result ℕ → EventType → Entity → Payload → Result (Unit {0}) × Broker
report b (err e) kind subject payload = (err e, b)
report b (ok t) kind subject payload = (ok tt, audit b t kind subject payload)

unfoldable pub activate_kill_switch :
    Broker → ℕ → String → Option Timestamp → Result (Unit {0}) × Broker
activate_kill_switch b now reason at =
    report (cancel_all (record b { kill_switch_reason = some reason }) now) (at_or_now now at)
      kill_switch no_entity (because reason)

unfoldable pub discard : String → List String → List String
discard s [] = []
discard s (x ∷ xs) = let rest = discard s xs in if str_eq s x then rest else x ∷ rest

unfoldable pub contains : String → List String → Bool
contains s [] = false
contains s (x ∷ xs) = str_eq s x || contains s xs

unfoldable pub clear_data_halt : Broker → String → String → Timestamp → Result (Unit {0}) × Broker
clear_data_halt b symbol reason at =
    report
      (record b {
        data_halted_symbols = discard symbol b.data_halted_symbols;
        last_sequence = Dict.remove symbol b.last_sequence;
      })
      (utc at) data_halt_cleared (named symbol) (because reason)

unfoldable pub halt : Broker → String → Timestamp → Result (Unit {0}) × Broker
halt b reason at =
    report (record b { operational_halt_reason = some reason }) (utc at) operational_halt no_entity
      (because reason)

unfoldable pub resume : Broker → String → Timestamp → Result (Unit {0}) × Broker
resume b reason at =
    report (record b { operational_halt_reason = none }) (utc at) operational_resume no_entity
      (because reason)
