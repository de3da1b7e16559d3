-- ===== src/Portfolio/Position.antt =====
-- domain/portfolio/models.py: one signed position in a linear perpetual.
use crypt_tool.Base.{
  ℕ, Bool, true, false, ◌&&◌, ◌||◌, not, String, Option, none, some, if◌then◌else◌,
}
use crypt_tool.Base.Results.{Result, ok, err, refuse_if, ◌>>=◌, ◌>>◌}
use crypt_tool.Decimal.{
  Decimal, zero_dec, one_dec, le, lt, eq, add, sub, mul, div, neg, abs, min_dec,
}
use crypt_tool.Execution.Orders.{Side, is_buy, Snapshot, Fill}
pub mod Reduce
pub mod Protection

-- A positive quantity is long, a negative one short.
pub record Position : Type 0 where
  pub exchange : String
  pub symbol : String
  pub quantity : Decimal
  pub average_entry_price : Decimal
  pub mark_price : Decimal
  pub realized_pnl : Decimal
  pub funding_pnl : Decimal
  pub fees : Decimal
  pub stop_loss : Option Decimal
  pub take_profit : Option Decimal
  pub opened_at : Option ℕ
  pub updated_at : Option ℕ

unfoldable pub new : String → String → Position
new exchange symbol = record {
  exchange = exchange;
  symbol = symbol;
  quantity = zero_dec;
  average_entry_price = zero_dec;
  mark_price = zero_dec;
  realized_pnl = zero_dec;
  funding_pnl = zero_dec;
  fees = zero_dec;
  stop_loss = none;
  take_profit = none;
  opened_at = none;
  updated_at = none;
}

abbrev pub is_open : Position → Bool
is_open p = not (eq p.quantity zero_dec)

unfoldable pub unrealized_pnl : Position → Decimal
unrealized_pnl p =
    if not (is_open p) || le p.mark_price zero_dec
    then zero_dec
    else mul p.quantity (sub p.mark_price p.average_entry_price)

unfoldable pub notional : Position → Decimal
notional p =
    if not (is_open p) || le p.mark_price zero_dec
    then zero_dec
    else mul (abs p.quantity) p.mark_price

-- The signed change of quantity that a fill makes.
unfoldable pub delta_of : Fill → Decimal
delta_of f = if is_buy f.side then f.quantity else neg f.quantity

-- The three branches of `apply_fill`: opening, adding to, and closing or reversing a position.
-- Each gives the realized result and the position before the common updates.
unfoldable pub opened : Position → Fill → Decimal × Position
opened p f = (
  zero_dec,
  record p { quantity = delta_of f; average_entry_price = f.price; opened_at = some f.filled_at },
)

unfoldable pub increased : Position → Fill → Decimal × Position
increased p f = (
  zero_dec,
  record p {
    average_entry_price =
        div (add (mul (abs p.quantity) p.average_entry_price) (mul (abs (delta_of f)) f.price))
          (add (abs p.quantity) (abs (delta_of f)));
    quantity = add p.quantity (delta_of f);
  },
)

unfoldable pub closing_result : Position → Fill → Decimal
closing_result p f =
    mul (mul (min_dec (abs p.quantity) (abs (delta_of f))) (sub f.price p.average_entry_price))
      (if lt zero_dec p.quantity then one_dec else neg one_dec)

-- The position that is left at the quantity `q`, reached from `previous`.
unfoldable pub left_at : Position → Fill → Decimal → Position
left_at p f q =
    if eq q zero_dec
    then record p {
      quantity = q;
      average_entry_price = zero_dec;
      stop_loss = none;
      take_profit = none;
      opened_at = none;
    }
    else if lt (mul p.quantity q) zero_dec
    then record p { quantity = q; average_entry_price = f.price; opened_at = some f.filled_at }
    else record p { quantity = q }

unfoldable pub decreased : Position → Fill → Decimal × Position
decreased p f = (closing_result p f, left_at p f (add p.quantity (delta_of f)))

unfoldable pub changed : Position → Fill → Decimal × Position
changed p f =
    if eq p.quantity zero_dec
    then opened p f
    else if lt zero_dec (mul p.quantity (delta_of f))
    then increased p f
    else decreased p f

-- `apply_fill`: the realized result that is returned, and the position.
unfoldable pub apply_fill : Position → Fill → Decimal × Position
apply_fill p f =
    let (realized, q) = changed p f in
    (
      realized,
      record q {
        mark_price = f.price;
        realized_pnl = add q.realized_pnl realized;
        fees = add q.fees f.fee;
        updated_at = some f.filled_at;
      },
    )

-- `stop_loss < reference if self.quantity > ZERO else stop_loss > reference`, when there is one.
unfoldable pub bad_stop : Position → Option Decimal → Bool
bad_stop p none = false
bad_stop p (some v) =
    not (if lt zero_dec p.quantity then lt v p.average_entry_price else lt p.average_entry_price v)

unfoldable pub bad_take : Position → Option Decimal → Bool
bad_take p none = false
bad_take p (some v) =
    not (if lt zero_dec p.quantity then lt p.average_entry_price v else lt v p.average_entry_price)

unfoldable pub set_protection : Position → Option Decimal → Option Decimal → Result Position
set_protection p stop_loss take_profit = if not (is_open p) then ok p else do
  refuse_if (bad_stop p stop_loss) "stop loss is on the non-protective side of entry"
  refuse_if (bad_take p take_profit) "take profit is on the non-profitable side of entry"
  ok (record p { stop_loss = stop_loss; take_profit = take_profit })

-- The side of a fill or an order against the position that it would reduce.
abbrev pub reduces : Decimal → Side → Bool
reduces quantity side =
    lt zero_dec quantity && not (is_buy side) || lt quantity zero_dec && is_buy side

pub data Trigger : Type 0 where
  stop_loss_hit take_profit_hit : Trigger

-- The price at which the position can be closed now.
unfoldable pub executable : Position → Snapshot → Decimal
executable p s = if lt zero_dec p.quantity then s.bid else s.ask

unfoldable pub stop_reached : Position → Snapshot → Bool
stop_reached p s = elim p.stop_loss [
  | none ↦ false
  | some v ↦
      lt zero_dec p.quantity && le (executable p s) v
      || lt p.quantity zero_dec && le v (executable p s)
]

unfoldable pub take_reached : Position → Snapshot → Bool
take_reached p s = elim p.take_profit [
  | none ↦ false
  | some v ↦
      lt zero_dec p.quantity && le v (executable p s)
      || lt p.quantity zero_dec && le (executable p s) v
]

unfoldable pub protection_trigger : Position → Snapshot → Option Trigger
protection_trigger p s =
    if not (is_open p)
    then none
    else if stop_reached p s
    then some stop_loss_hit
    else if take_reached p s
    then some take_profit_hit
    else none
