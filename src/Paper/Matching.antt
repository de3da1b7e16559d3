-- ===== src/Paper/Matching.antt =====
-- services/paper_trading/broker.py: the quotes, the fills that they make and the sequence gaps.
pub mod Calls
pub mod Gaps
pub mod KillSwitch
pub mod LaterQuotes
use crypt_tool.Base.{
  ℕ, suc, ltb, leb, ◌≡◌, Bool, true, false, ◌&&◌, ◌||◌, not, String, str_eq, Option, none, some,
  List, [], ◌∷◌, ◌++◌, if◌then◌else◌, is_some,
}
use crypt_tool.Base.Int.{ℤ, pos, ◌+ℤ◌, leb_ℤ, ltb_ℤ}
use crypt_tool.Base.Dict
use crypt_tool.Base.Results.{
  Exception, value_error, key_error, Result, ok, err, refuse_if, ◌>>=◌, ◌>>◌,
}
use crypt_tool.Time.{Timestamp, utc}
use crypt_tool.Decimal.{
  Decimal, lit, zero_dec, one_dec, le, lt, eq, add, sub, mul, div, neg, abs, min_dec,
}
use crypt_tool.Execution.Orders.{Side, is_buy}
use crypt_tool.Paper.Models.{
  Request, Order, Quote, Fill, AuditEvent, EventType, Entity, Payload, Status, named, numbered,
  no_entity, is_working, is_limit, is_rejected, working, partially_filled, filled, canceled,
  rejected, remaining_quantity, check_fill, order_details, remaining, because, gap, fill_details,
  order_rejected, order_submitted, order_canceled, kill_switch, data_halt_cleared, operational_halt,
  operational_resume, data_sequence_gap, fill_booked,
}
use crypt_tool.Paper.Broker.{stopped, contains}
use crypt_tool.Paper.Account.{Broker, audit, apply_fill, exposure_allowed}

abbrev touch_of : Quote → Side → Decimal
touch_of q side = if is_buy side then q.ask else q.bid

-- The price of a fill and what its slippage costs.
unfoldable pub fill_price : Broker → Order → Quote → Decimal
fill_price b o q =
    let touch = touch_of q o.request.side in
    let slip = div b.settings.slippage_bps (lit 10000 0) in
    if is_limit o.request.order_type
    then touch
    else mul touch (if is_buy o.request.side then add one_dec slip else sub one_dec slip)

unfoldable pub fill_quantity : Broker → Order → Quote → Decimal
fill_quantity b o q =
    min_dec (remaining_quantity o)
      (mul (if is_buy o.request.side then q.ask_size else q.bid_size) b.settings.max_participation)

unfoldable pub crosses : Decimal → Order → Quote → Bool
crosses limit_price o q =
    if is_buy o.request.side
    then le (touch_of q o.request.side) limit_price
    else le limit_price (touch_of q o.request.side)

unfoldable pub new_fill : Broker → Order → Quote → Fill
new_fill b o q =
    let price = fill_price b o q in
    let quantity = fill_quantity b o q in
    record {
      fill_id = b.drawn;
      client_order_id = o.request.client_order_id;
      symbol = o.request.symbol;
      side = o.request.side;
      timestamp = q.timestamp;
      quantity = quantity;
      price = price;
      fee = mul (mul price quantity) b.settings.fee_rate;
      slippage_cost =
          if is_limit o.request.order_type
          then zero_dec
          else mul (abs (sub price (touch_of q o.request.side))) quantity;
    }

-- The order is an object that the dictionary holds.
unfoldable pub store : Broker → String → Order → Broker
store b i o = record b { orders = Dict.put i o b.orders }

unfoldable pub after_fill : Order → Decimal → Order
after_fill o quantity =
    let total = add o.filled_quantity quantity in
    record o {
      filled_quantity = total;
      status = if eq (sub o.request.quantity total) zero_dec then filled else partially_filled;
    }

-- A fill that its own model accepts is applied, recorded and reported.
unfoldable pub book : Broker → String → Order → Quote → Result (Option Fill) × Broker
book b i o q = elim (check_fill (new_fill b o q)) [
  | err e ↦ (err e, record b { drawn = suc b.drawn })
  | ok f ↦ (
    ok (some f),
    let b' = store (apply_fill (record b { drawn = suc b.drawn }) f) i (after_fill o f.quantity) in
        audit (record b' { fills = b'.fills ++ f ∷ [] }) f.timestamp fill_booked
          (numbered f.fill_id) (fill_details f),
  )
]

unfoldable pub refuse : Order → String → Order
refuse o reason = record o { status = rejected; rejection_reason = some reason }

unfoldable pub execute : Broker → String → Order → Quote → Result (Option Fill) × Broker
execute b i o q =
    if exposure_allowed b o.request.symbol o.request.side (fill_quantity b o q) (fill_price b o q)
    then book b i o q
    else (
      ok none,
      audit (store b i (refuse o "maximum gross exposure exceeded")) q.timestamp order_rejected
          (named o.request.client_order_id) (because "maximum gross exposure exceeded"),
    )

abbrev pub missing_price : Order → Bool
missing_price o = is_limit o.request.order_type && not (is_some o.request.limit_price)

abbrev pub price_crosses : Option Decimal → Order → Quote → Bool
price_crosses none o q = true
price_crosses (some limit_price) o q = crosses limit_price o q

-- `_try_fill`
unfoldable pub try_fill : Broker → String → Order → Quote → Result (Option Fill) × Broker
try_fill b i o q =
    if le (fill_quantity b o q) zero_dec
    then (ok none, b)
    else if missing_price o
    then (ok none, store b i (refuse o "limit price missing after validation"))
    else if is_limit o.request.order_type && not (price_crosses o.request.limit_price o q)
    then (ok none, b)
    else execute b i o q

abbrev pub cons_some : Option Fill → List Fill → List Fill
cons_some none fs = fs
cons_some (some f) fs = f ∷ fs

-- An order that the quote can fill.
unfoldable pub eligible : Order → Quote → Bool
eligible o q =
    str_eq o.request.symbol q.symbol && ltb o.submitted_at q.timestamp && is_working o.status

unfoldable pub after_try :
    Result (Option Fill) × Broker
    → (Broker → Result (List Fill) × Broker)
    → Result (List Fill) × Broker
after_try (err e, b) others = (err e, b)
after_try (ok found, b) others =
    let (rest, b') = others b in (rest >>= λ fs. ok (cons_some found fs), b')

-- The loop over the orders; an exception leaves it, with the changes made until then.
unfoldable pub fill_each : Broker → Quote → List (String × Order) → Result (List Fill) × Broker
fill_each b q [] = (ok [], b)
fill_each b q ((i, o) ∷ os) = elim (eligible o q) [
  | false ↦ fill_each b q os
  | true ↦ after_try (try_fill b i o q) (λ b'. fill_each b' q os)
]

-- A quote that is neither stale nor after a gap.
unfoldable pub take_quote : Broker → Quote → Broker
take_quote b q = record b {
  last_sequence = elim q.sequence [
    | none ↦ b.last_sequence
    | some n ↦ Dict.put q.symbol n b.last_sequence
  ];
  latest_quotes = Dict.put q.symbol q b.latest_quotes;
}

unfoldable pub quote_blocked : Broker → Quote → Bool
quote_blocked b q =
    lt q.data_quality_score b.settings.minimum_data_quality
    || stopped b
    || contains q.symbol b.data_halted_symbols

unfoldable pub use_quote : Broker → Quote → Result (List Fill) × Broker
use_quote b q =
    let b' = take_quote b q in if quote_blocked b' q then (ok [], b') else fill_each b' q b'.orders

unfoldable pub note_gap : Broker → Quote → ℤ → ℤ → Broker
note_gap b q previous current =
    audit
      (record b {
        data_halted_symbols =
            if contains q.symbol b.data_halted_symbols
            then b.data_halted_symbols
            else q.symbol ∷ b.data_halted_symbols;
      })
      q.timestamp data_sequence_gap (named q.symbol) (gap previous current)

unfoldable pub on_quote_after : Option ℤ → Option ℤ → Broker → Quote → Result (List Fill) × Broker
on_quote_after (some current) (some previous) b q =
    if leb_ℤ current previous
    then (ok [], b)
    else if ltb_ℤ (previous +ℤ pos 1) current
    then (ok [], note_gap b q previous current)
    else use_quote b q
on_quote_after _ _ b q = use_quote b q

unfoldable pub on_quote : Broker → Quote → Result (List Fill) × Broker
on_quote b q = on_quote_after q.sequence (Dict.get q.symbol b.last_sequence) b q
