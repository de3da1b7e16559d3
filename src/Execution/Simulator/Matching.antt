-- ===== src/Execution/Simulator/Matching.antt =====
-- domain/execution/simulator.py, the body of the loop of `match`: one order and one snapshot.
pub mod Fills
use crypt_tool.Base.{
  ℕ, suc, ◌+◌, ◌≤◌, ◌<◌, ◌≡◌, refl, Bool, true, false, ◌&&◌, ◌||◌, not, String, str_eq, Option,
  none, some, leb, ltb, if◌then◌else◌, arith,
}
use crypt_tool.Base.Results.{Exception, Result, ok, err}
use crypt_tool.Decimal.{Decimal, zero_dec, le, lt, eq, min_dec, max_dec}
use crypt_tool.Execution.Orders.{
  TimeInForce, gtc, ioc, fok, terminal, Rules, validate_notional, Snapshot, mid, Order,
  filled_quantity, reject, cancel, record_fill, Fill,
}
use crypt_tool.Execution.Simulator.{Config, Match, match_details, make_fill}

-- The optional callbacks of `match`.
pub record Callbacks (W : Type 0) : Type 0 where
  pub quantity_cap : Option (W → Order → Decimal)
  pub on_fill : Option (W → Order → Fill → W)

-- What one turn of the loop leaves: the order, the sequence, the state behind the callbacks, the
-- fill that was produced, and the exception that ended the loop.
pub record Outcome (W : Type 0) : Type 0 where
  pub order : Order
  pub sequence : ℕ
  pub world : W
  pub produced : Option Fill
  pub raised : Option Exception

abbrev pub is_fok : TimeInForce → Bool
is_fok fok = true
is_fok _ = false

abbrev pub is_ioc : TimeInForce → Bool
is_ioc ioc = true
is_ioc _ = false

-- `order.expires_at is not None and snapshot.timestamp >= order.expires_at`
abbrev pub has_expired : Order → ℕ → Bool
has_expired o t = elim o.expires_at [ none ↦ false | some e ↦ leb e t ]

abbrev keep : {W : Type 0} → W → ℕ → Order → Outcome W
keep w n o = record { order = o; sequence = n; world = w; produced = none; raised = none }

abbrev notify : {W : Type 0} → Option (W → Order → Fill → W) → W → Order → Fill → W
notify none w o f = w
notify (some g) w o f = g w o f

-- The remainder of an IOC order is cancelled.
unfoldable pub finish : Order → Order
finish o =
    if is_ioc o.time_in_force && lt zero_dec o.remaining_quantity
    then cancel o "IOC remainder cancelled" false
    else o

module _ {W : Type 0} (calls : Callbacks W) where
  -- After `record_fill`: the callback, then the remainder.
  unfoldable pub book : W → ℕ → Order → Fill → Result Order → Outcome W
  book w n o f (err e) = record {
    order = o;
    sequence = n;
    world = w;
    produced = none;
    raised = some e;
  }
  book w n o f (ok o') = record {
    order = finish o';
    sequence = n;
    world = notify calls.on_fill w o' f;
    produced = some f;
    raised = none;
  }

  unfoldable pub fill_order : W → ℕ → Order → Result Fill → Outcome W
  fill_order w n o (err e) = record {
    order = o;
    sequence = n;
    world = w;
    produced = none;
    raised = some e;
  }
  fill_order w n o (ok f) = book w n o f (record_fill o f.quantity)

  -- What follows `_match_details`.
  unfoldable pub settle : W → ℕ → Snapshot → Rules → Order → Result (Option Match) → Outcome W
  settle w n s r o (err e) = record {
    order = o;
    sequence = n;
    world = w;
    produced = none;
    raised = some e;
  }
  settle w n s r o (ok none) = keep w n (
      if is_ioc o.time_in_force || is_fok o.time_in_force
      then cancel o "time in force could not be satisfied" false
      else o)
  settle w n s r o (ok (some m)) =
      if is_fok o.time_in_force && lt m.quantity o.remaining_quantity
      then keep w n (cancel o "fill-or-kill quantity unavailable" false)
      else fill_order w (suc n) o (make_fill o s r (suc n) m)

  unfoldable pub cap_of : W → Order → Decimal
  cap_of w o = elim calls.quantity_cap [
    | none ↦ o.remaining_quantity
    | some g ↦ min_dec o.remaining_quantity (max_dec zero_dec (g w o))
  ]

  unfoldable pub attempt : Config → W → ℕ → Snapshot → Rules → Order → Decimal → Outcome W
  attempt c w n s r o capacity =
      if le capacity zero_dec
      then keep w n (
          if o.reduce_only
          then cancel o "reduce-only order no longer reduces a position" false
          else o)
      else if eq (filled_quantity o) zero_dec && not (validate_notional r o.quantity (mid s))
      then keep w n (reject o "order is below minimum notional")
      else let (found, o') = match_details c o s r capacity in settle w n s r o' found

  unfoldable pub match_order : Config → W → ℕ → Snapshot → Rules → Order → Outcome W
  match_order c w n s r o =
      if terminal o.status || not (str_eq o.exchange s.exchange) || not (str_eq o.symbol s.symbol)
      then keep w n o
      else if leb s.timestamp o.submitted_at
      then keep w n o
      else if has_expired o s.timestamp
      then keep w n (cancel o "order expired" true)
      else attempt c w n s r o (cap_of w o)
