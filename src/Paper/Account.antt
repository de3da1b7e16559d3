-- ===== src/Paper/Account.antt =====
-- services/paper_trading/broker.py: the state of the broker, its valuation and its accounting.
use crypt_tool.Base.{
  ℕ, suc, Bool, ◌&&◌, ◌||◌, not, String, Option, none, some, List, [], ◌∷◌, ◌++◌, if◌then◌else◌,
}
use crypt_tool.Base.Int.{ℤ}
use crypt_tool.Base.Dict
use crypt_tool.Base.Results.{Result, ok, err, refuse_if, ◌>>=◌, ◌>>◌}
use crypt_tool.Time.{Timestamp, utc}
use crypt_tool.Decimal.{
  Decimal, lit, zero_dec, one_dec, le, lt, eq, add, sub, mul, div, neg, abs, min_dec,
}
use crypt_tool.Execution.Orders.{Side, is_buy}
use crypt_tool.Paper.Models.{
  Order, Quote, Fill, Position, AuditEvent, EventType, Entity, named, Payload, funding,
  funding_details, is_working,
}

pub record Settings : Type 0 where
  pub fee_rate : Decimal
  pub slippage_bps : Decimal
  pub max_participation : Decimal
  pub max_gross_leverage : Decimal
  pub minimum_data_quality : Decimal

-- `drawn` counts the identifiers that were drawn.
pub record Broker : Type 0 where
  pub settings : Settings
  pub initial_cash : Decimal
  pub cash : Decimal
  pub orders : List (String × Order)
  pub positions : List (String × Position)
  pub fills : List Fill
  pub latest_quotes : List (String × Quote)
  pub fees_paid : Decimal
  pub kill_switch_reason : Option String
  pub operational_halt_reason : Option String
  pub last_sequence : List (String × ℤ)
  pub audit_events : List AuditEvent
  pub data_halted_symbols : List String
  pub drawn : ℕ

unfoldable pub new : Decimal → Settings → Result Broker
new initial_cash s = do
  refuse_if (le initial_cash zero_dec) "initial_cash must be positive"
  refuse_if (not (le zero_dec s.max_participation && le s.max_participation one_dec))
      "max_participation must be in [0, 1]"
  refuse_if (le s.max_gross_leverage zero_dec || lt one_dec s.max_gross_leverage)
      "paper leverage must be in (0, 1]"
  refuse_if (lt s.fee_rate zero_dec || lt s.slippage_bps zero_dec)
      "paper execution costs cannot be negative"
  refuse_if (not (le zero_dec s.minimum_data_quality && le s.minimum_data_quality one_dec))
      "minimum_data_quality must be in [0, 1]"
  ok (record {
    settings = s;
    initial_cash = initial_cash;
    cash = initial_cash;
    orders = [];
    positions = [];
    fills = [];
    latest_quotes = [];
    fees_paid = zero_dec;
    kill_switch_reason = none;
    operational_halt_reason = none;
    last_sequence = [];
    audit_events = [];
    data_halted_symbols = [];
    drawn = 0;
  })

-- `_audit` at an instant.
unfoldable pub audit : Broker → ℕ → EventType → Entity → Payload → Broker
audit b t kind entity payload = record b {
  drawn = suc b.drawn;
  audit_events =
      b.audit_events
      ++ record {
        event_id = b.drawn;
        timestamp = t;
        event_type = kind;
        entity_id = entity;
        payload = payload;
      }
        ∷ [];
}

unfoldable pub mark_of : Quote → Decimal
mark_of q = div (add q.bid q.ask) (lit 2 0)

-- A position without a quote has no unrealized result.
abbrev unrealized_at : Option Quote → Position → Decimal
unrealized_at none p = zero_dec
unrealized_at (some q) p = mul (sub (mark_of q) p.average_entry) p.quantity

unfoldable pub unrealized : List (String × Quote) → Decimal → List (String × Position) → Decimal
unrealized quotes acc [] = acc
unrealized quotes acc ((symbol, p) ∷ ps) =
    unrealized quotes (add acc (unrealized_at (Dict.get symbol quotes) p)) ps

unfoldable pub equity : Broker → Decimal
equity b = add b.cash (unrealized b.latest_quotes zero_dec b.positions)

abbrev pub signed : Side → Decimal → Decimal
signed side quantity = if is_buy side then quantity else neg quantity

-- The quantities that positions would have after a fill.
abbrev quantities : List (String × Position) → List (String × Decimal)
quantities [] = []
quantities ((symbol, p) ∷ ps) = (symbol, p.quantity) ∷ quantities ps

abbrev or_zero : Option Decimal → Decimal
or_zero none = zero_dec
or_zero (some v) = v

unfoldable pub candidate : Broker → String → Side → Decimal → List (String × Decimal)
candidate b symbol side quantity =
    let held = quantities b.positions in
    Dict.put symbol (add (or_zero (Dict.get symbol held)) (signed side quantity)) held

abbrev mark_or : Option Quote → Decimal → Decimal
mark_or none price = price
mark_or (some q) price = mark_of q

unfoldable pub gross_of :
    List (String × Quote) → Decimal → Decimal → List (String × Decimal) → Decimal
gross_of quotes price acc [] = acc
gross_of quotes price acc ((symbol, q) ∷ rest) =
    gross_of quotes price (add acc (abs (mul q (mark_or (Dict.get symbol quotes) price)))) rest

-- `_exposure_allowed`
unfoldable pub exposure_allowed : Broker → String → Side → Decimal → Decimal → Bool
exposure_allowed b symbol side quantity price =
    le (gross_of b.latest_quotes price zero_dec (candidate b symbol side quantity))
      (mul (equity b) b.settings.max_gross_leverage)

abbrev or_flat : String → Option Position → Position
or_flat symbol none = record {
  symbol = symbol;
  quantity = zero_dec;
  average_entry = zero_dec;
  realized_pnl = zero_dec;
  funding_pnl = zero_dec;
}
or_flat symbol (some p) = p

-- A fill that opens or adds to a position.
unfoldable pub extended : Position → Fill → Position
extended p f =
    let change = signed f.side f.quantity in
    let total = add p.quantity change in
    record p {
      quantity = total;
      average_entry =
          div (add (mul p.average_entry (abs p.quantity)) (mul f.price (abs change))) (abs total);
    }

unfoldable pub realized_by : Position → Fill → Decimal
realized_by p f =
    mul
      (mul (sub f.price p.average_entry)
        (min_dec (abs p.quantity) (abs (signed f.side f.quantity))))
      (if lt zero_dec p.quantity then one_dec else neg one_dec)

-- A fill that closes, reduces or reverses a position.
unfoldable pub reduced : Position → Fill → Position
reduced p f =
    let total = add p.quantity (signed f.side f.quantity) in
    record p {
      quantity = total;
      realized_pnl = add p.realized_pnl (realized_by p f);
      average_entry =
          if eq total zero_dec
          then zero_dec
          else if lt (mul p.quantity total) zero_dec
          then f.price
          else p.average_entry;
    }

unfoldable pub extends_position : Position → Fill → Bool
extends_position p f =
    eq p.quantity zero_dec || lt zero_dec (mul p.quantity (signed f.side f.quantity))

-- `_apply_fill`
unfoldable pub apply_fill : Broker → Fill → Broker
apply_fill b f =
    let p = or_flat f.symbol (Dict.get f.symbol b.positions) in
    let grows = extends_position p f in
    record b {
      positions = Dict.put f.symbol (if grows then extended p f else reduced p f) b.positions;
      cash = sub (if grows then b.cash else add b.cash (realized_by p f)) f.fee;
      fees_paid = add b.fees_paid f.fee;
    }

-- `apply_funding`: the payment that is returned, and the broker. The accounts are changed before
-- the timestamp of the audit event is read.
abbrev fund :
    Broker → String → Decimal → Timestamp → Option Position → Option Quote → Result Decimal × Broker
fund b symbol rate at (some p) (some q) =
    let payment = neg (mul (mul p.quantity (mark_of q)) rate) in
    let b' = record b {
      positions =
          Dict.put symbol (record p { funding_pnl = add p.funding_pnl payment }) b.positions;
      cash = add b.cash payment;
    } in
    elim (utc at) [
      | ok t ↦ (ok payment, audit b' t funding (named symbol) (funding_details rate payment))
      | err e ↦ (err e, b')
    ]
fund b symbol rate at _ _ = (ok zero_dec, b)

unfoldable pub apply_funding : Broker → String → Decimal → Timestamp → Result Decimal × Broker
apply_funding b symbol rate at =
    fund b symbol rate at (Dict.get symbol b.positions) (Dict.get symbol b.latest_quotes)

pub record Snapshot : Type 0 where
  pub timestamp : ℕ
  pub cash : Decimal
  pub equity : Decimal
  pub gross_exposure : Decimal
  pub fees_paid : Decimal
  pub funding_pnl : Decimal
  pub open_orders : ℕ
  pub positions : List (String × Decimal)

-- Only symbols with a quote count.
abbrev exposure_at : Option Quote → Position → Decimal
exposure_at none p = zero_dec
exposure_at (some q) p = abs (mul p.quantity (mark_of q))

unfoldable pub gross_exposure : List (String × Quote) → Decimal → List (String × Position) → Decimal
gross_exposure quotes acc [] = acc
gross_exposure quotes acc ((symbol, p) ∷ ps) =
    gross_exposure quotes (add acc (exposure_at (Dict.get symbol quotes) p)) ps

unfoldable pub total_funding : Decimal → List (String × Position) → Decimal
total_funding acc [] = acc
total_funding acc ((symbol, p) ∷ ps) = total_funding (add acc p.funding_pnl) ps

unfoldable pub count_working : List (String × Order) → ℕ
count_working [] = 0
count_working ((i, o) ∷ os) =
    let rest = count_working os in if is_working o.status then suc rest else rest

unfoldable pub snapshot : Broker → Timestamp → Result Snapshot
snapshot b at = do
  t ← utc at
  ok (record {
    timestamp = t;
    cash = b.cash;
    equity = equity b;
    gross_exposure = gross_exposure b.latest_quotes zero_dec b.positions;
    fees_paid = b.fees_paid;
    funding_pnl = total_funding zero_dec b.positions;
    open_orders = count_working b.orders;
    positions = quantities b.positions;
  })
