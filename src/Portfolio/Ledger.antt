-- ===== src/Portfolio/Ledger.antt =====
-- domain/portfolio/ledger.py: cash, positions, funding, margin and liquidation.
use crypt_tool.Base.{
  ℕ, Bool, true, false, ◌&&◌, ◌||◌, not, String, str_eq, Option, none, some, List, [], ◌∷◌, ◌++◌,
  any, ◌==◌, if◌then◌else◌, is_some,
}
use crypt_tool.Base.Results.{
  Exception, value_error, duplicate_fill_error, Result, ok, err, refuse_if, ◌>>=◌, ◌>>◌,
}
use crypt_tool.Time.{Timestamp, utc}
use crypt_tool.Decimal.{Decimal, zero_dec, le, lt, add, sub, mul, div, neg, abs, min_dec, max_dec}
use crypt_tool.Execution.Orders.{Side, is_buy, Rules, Snapshot, valuation_price, Order, Fill}
use crypt_tool.Portfolio.Position
use crypt_tool.Portfolio.Position.{Position, reduces, is_open, apply_fill, set_protection}
use Prim.Native.Nat.{Ordering}
use Prim.Native.String.{compare as compare_text}
pub mod Accounting
pub mod Duplicates
pub mod ReduceOnly
pub mod Limits

-- (exchange, symbol)
abbrev pub Key : Type 0
Key = String × String

abbrev pub same_key : Key → Key → Bool
same_key a b = str_eq a.0 b.0 && str_eq a.1 b.1

-- `self.positions.get(key)`
unfoldable pub find : Key → List (Key × Position) → Option Position
find k [] = none
find k ((j, p) ∷ ps) = if same_key j k then some p else find k ps

-- `self.positions[key] = position`
unfoldable pub save : Key → Position → List (Key × Position) → List (Key × Position)
save k p [] = (k, p) ∷ []
save k p ((j, q) ∷ ps) = if same_key j k then (j, p) ∷ ps else (j, q) ∷ save k p ps

pub record FundingRecord : Type 0 where
  pub exchange : String
  pub symbol : String
  pub timestamp : ℕ
  pub rate : Decimal
  pub mark_price : Decimal
  pub position_quantity : Decimal
  pub amount : Decimal

pub record Capture : Type 0 where
  pub timestamp : ℕ
  pub cash : Decimal
  pub equity : Decimal
  pub unrealized_pnl : Decimal
  pub gross_exposure : Decimal
  pub net_exposure : Decimal
  pub margin_used : Decimal
  pub maintenance_margin : Decimal
  pub available_margin : Decimal

pub record Ledger : Type 0 where
  pub initial_cash : Decimal
  pub cash : Decimal
  pub leverage : Decimal
  pub rules : String → String → Option Rules
  pub positions : List (Key × Position)
  pub fills : List Fill
  pub funding_records : List FundingRecord
  pub snapshots : List Capture
  pub processed_fill_ids : List ℕ

unfoldable pub new : Decimal → (String → String → Option Rules) → Decimal → Result Ledger
new initial_cash rules leverage = do
  refuse_if (le initial_cash zero_dec) "initial_cash must be positive"
  refuse_if (le leverage zero_dec) "leverage must be positive"
  ok (record {
    initial_cash = initial_cash;
    cash = initial_cash;
    leverage = leverage;
    rules = rules;
    positions = [];
    fills = [];
    funding_records = [];
    snapshots = [];
    processed_fill_ids = [];
  })

abbrev or_new : Key → Option Position → Position
or_new k none = Position.new k.0 k.1
or_new k (some p) = p

-- `position(exchange, symbol)`: the position, which is stored if it was not there.
unfoldable pub position : Ledger → Key → Position × Ledger
position l k =
    let p = or_new k (find k l.positions) in
    (p, if is_some (find k l.positions) then l else record l { positions = save k p l.positions })

-- `sum(f(position) for position in self.positions.values())`
unfoldable pub sum_of : (Key → Position → Decimal) → Decimal → List (Key × Position) → Decimal
sum_of f acc [] = acc
sum_of f acc ((k, p) ∷ ps) = sum_of f (add acc (f k p)) ps

unfoldable pub unrealized_pnl : Ledger → Decimal
unrealized_pnl l = sum_of (λ k p. Position.unrealized_pnl p) zero_dec l.positions

unfoldable pub equity : Ledger → Decimal
equity l = add l.cash (unrealized_pnl l)

unfoldable pub gross_exposure : Ledger → Decimal
gross_exposure l = sum_of (λ k p. Position.notional p) zero_dec l.positions

unfoldable pub net_exposure : Ledger → Decimal
net_exposure l = sum_of (λ k p. mul p.quantity p.mark_price) zero_dec l.positions

unfoldable pub margin_used : Ledger → Decimal
margin_used l = div (gross_exposure l) l.leverage

-- A position without rules adds nothing.
unfoldable pub maintenance_of : Ledger → Key → Position → Decimal
maintenance_of l k p = elim (l.rules k.0 k.1) [
  | none ↦ zero_dec
  | some r ↦ mul (Position.notional p) r.maintenance_margin_rate
]

unfoldable pub maintenance_margin : Ledger → Decimal
maintenance_margin l = sum_of (maintenance_of l) zero_dec l.positions

unfoldable pub available_margin : Ledger → Decimal
available_margin l = max_dec zero_dec (sub (equity l) (margin_used l))

-- The checks of a reduce-only fill.
unfoldable pub check_reduce_only : Bool → Position → Fill → Result (Unit {0})
check_reduce_only false p f = ok tt
check_reduce_only true p f = do
  refuse_if (not (is_open p)) "reduce-only fill has no open position"
  refuse_if (not (reduces p.quantity f.side) || lt (abs p.quantity) f.quantity)
      "reduce-only fill would increase or reverse a position"

-- The position after a fill, with its protection set if any is given.
unfoldable pub protect : Position → Option Decimal → Option Decimal → Result Position
protect p stop_loss take_profit =
    if is_open p && (is_some stop_loss || is_some take_profit)
    then set_protection p stop_loss take_profit
    else ok p

-- What is stored for a fill that was accepted.
unfoldable pub settle : Ledger → Key → Fill → Decimal → Position → Ledger
settle l k f realized p = record l {
  cash = add l.cash (sub realized f.fee);
  positions = save k p l.positions;
  fills = l.fills ++ f ∷ [];
  processed_fill_ids = f.fill_id ∷ l.processed_fill_ids;
}

abbrev pub key_of : Fill → Key
key_of f = (f.exchange, f.symbol)

-- After the duplicate test. The source computes the fill on a copy first, so that a refused
-- protection leaves the stored position alone, and then once more in place, to the same effect.
unfoldable pub accept :
    Ledger → Position → Fill → Bool → Option Decimal → Option Decimal → Result Decimal × Ledger
accept l p f reduce_only stop_loss take_profit =
    let (realized, q) = apply_fill p f in
    elim (check_reduce_only reduce_only p f >>= λ _. protect q stop_loss take_profit) [
      | ok protected ↦ (ok realized, settle l (key_of f) f realized protected)
      | err e ↦ (err e, l)
    ]

unfoldable pub apply :
    Ledger → Fill → Bool → Option Decimal → Option Decimal → Result Decimal × Ledger
apply l f reduce_only stop_loss take_profit =
    if any (λ i. i == f.fill_id) l.processed_fill_ids
    then (err (duplicate_fill_error "duplicate fill"), l)
    else let (p, l') = position l (key_of f) in accept l' p f reduce_only stop_loss take_profit

unfoldable pub mark : Ledger → Snapshot → Ledger
mark l s = elim (find (s.exchange, s.symbol) l.positions) [
  | none ↦ l
  | some p ↦
      if is_open p
      then record l {
        positions =
            save (s.exchange, s.symbol)
              (record p { mark_price = valuation_price s; updated_at = some s.timestamp })
              l.positions;
      }
      else l
]

-- The funding of an open position; longs pay a positive rate.
unfoldable pub fund : Ledger → Key → ℕ → Decimal → Decimal → Position → FundingRecord × Ledger
fund l k t rate mark_price p =
    let amount = neg (mul (mul p.quantity mark_price) rate) in
    let entry : FundingRecord = record {
      exchange = k.0;
      symbol = k.1;
      timestamp = t;
      rate = rate;
      mark_price = mark_price;
      position_quantity = p.quantity;
      amount = amount;
    } in
    (
      entry,
      record l {
        cash = add l.cash amount;
        positions = save k (record p { funding_pnl = add p.funding_pnl amount }) l.positions;
        funding_records = l.funding_records ++ entry ∷ [];
      },
    )

abbrev fund_if_open :
    Ledger → Key → ℕ → Decimal → Decimal → Option Position → Option FundingRecord × Ledger
fund_if_open l k t rate mark_price none = (none, l)
fund_if_open l k t rate mark_price (some p) =
    let (entry, l') = fund l k t rate mark_price p in
    if is_open p then (some entry, l') else (none, l)

unfoldable pub apply_funding :
    Ledger → Key → Timestamp → Decimal → Decimal → Result (Option FundingRecord × Ledger)
apply_funding l k timestamp rate mark_price = do
  t ← utc timestamp
  refuse_if (le mark_price zero_dec) "funding mark price must be positive"
  ok (fund_if_open l k t rate mark_price (find k l.positions))

abbrev pub quantity_at : Option Position → Decimal
quantity_at none = zero_dec
quantity_at (some p) = p.quantity

abbrev fee_rate_of : Option Rules → Decimal
fee_rate_of none = zero_dec
fee_rate_of (some r) = r.taker_fee_rate

unfoldable pub opening_capacity : Ledger → Order → Decimal → Decimal
opening_capacity l o price =
    let unit = add (div price l.leverage) (mul price (fee_rate_of (l.rules o.exchange o.symbol))) in
    if lt zero_dec unit then div (available_margin l) unit else zero_dec

unfoldable pub closing_capacity : Ledger → Order → Decimal
closing_capacity l o =
    let current = quantity_at (find (o.exchange, o.symbol) l.positions) in
    if reduces current o.side then abs current else zero_dec

unfoldable pub maximum_fill_quantity : Ledger → Order → Decimal → Decimal
maximum_fill_quantity l o price =
    if le price zero_dec
    then zero_dec
    else if o.reduce_only
    then min_dec o.remaining_quantity (closing_capacity l o)
    else min_dec o.remaining_quantity (add (closing_capacity l o) (opening_capacity l o price))

-- The order of Python on pairs of texts.
abbrev key_le : Key → Key → Bool
key_le a b = elim (compare_text a.0 b.0) [
  | Ordering.lt ↦ true
  | Ordering.gt ↦ false
  | Ordering.eq ↦ elim (compare_text a.1 b.1) [ Ordering.gt ↦ false | _ ↦ true ]
]

unfoldable pub insert_key : Key → List Key → List Key
insert_key k [] = k ∷ []
insert_key k (j ∷ js) = if key_le k j then k ∷ j ∷ js else j ∷ insert_key k js

-- `sorted(key for key, value in self.positions.items() if value.is_open)`
unfoldable pub open_keys : List (Key × Position) → List Key
open_keys [] = []
open_keys ((k, p) ∷ ps) = let rest = open_keys ps in if is_open p then insert_key k rest else rest

pub record Liquidation : Type 0 where
  pub timestamp : ℕ
  pub equity : Decimal
  pub maintenance_margin : Decimal
  pub instruments : List Key

-- The timestamp is an aware one, in UTC.
unfoldable pub liquidation_decision : Ledger → ℕ → Option Liquidation
liquidation_decision l t = elim (open_keys l.positions) [
  | [] ↦ none
  | k ∷ ks ↦
      if lt (maintenance_margin l) (equity l)
      then none
      else some (record {
        timestamp = t;
        equity = equity l;
        maintenance_margin = maintenance_margin l;
        instruments = k ∷ ks;
      })
]

unfoldable pub capture : Ledger → ℕ → Capture × Ledger
capture l t =
    let c : Capture = record {
      timestamp = t;
      cash = l.cash;
      equity = equity l;
      unrealized_pnl = unrealized_pnl l;
      gross_exposure = gross_exposure l;
      net_exposure = net_exposure l;
      margin_used = margin_used l;
      maintenance_margin = maintenance_margin l;
      available_margin = available_margin l;
    } in
    (c, record l { snapshots = l.snapshots ++ c ∷ [] })
