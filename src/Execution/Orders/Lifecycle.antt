-- ===== src/Execution/Orders/Lifecycle.antt =====
-- domain/execution/models.py: an order from its construction to its terminal status.
use crypt_tool.Base.{◌≡◌, refl, Bool, true, false, String, List, [], ◌∷◌, Option, arith}
use crypt_tool.Base.Results.{Result, ok, err}
use crypt_tool.Time.{Timestamp}
use crypt_tool.Decimal.{Decimal, zero_dec, le, lt, eq, sub}
use crypt_tool.Decimal.Order.{le_refl, le_trans, le_total, sub_nonneg, sub-le}
use crypt_tool.Execution.Orders.{
  filled, terminal, Terms, Order, new_order, reject, cancel, record_fill,
}

pub data Call : Type 0 where
  rejects : String → Call
  cancels : String → Bool → Call
  fills : Decimal → Call

-- A call that raises leaves the order as it was.
abbrev after : Order → Result Order → Order
after o (ok o') = o'
after o (err e) = o

unfoldable pub step : Order → Call → Order
step o (rejects reason) = reject o reason
step o (cancels reason is_expired) = cancel o reason is_expired
step o (fills quantity) = after o (record_fill o quantity)

unfoldable pub run : Order → List Call → Order
run o [] = o
run o (c ∷ cs) = run (step o c) cs

step-terminal : (o : Order) (c : Call) → terminal o.status ≡ true → step o c ≡ o
unfolding step reject cancel record_fill
step-terminal o (rejects reason) t = ground arith
step-terminal o (cancels reason is_expired) t = ground arith
step-terminal o (fills quantity) t = ground arith

-- No sequence of rejections, cancellations and fills changes an order in a terminal status.
pub run-terminal : (o : Order) (cs : List Call) → terminal o.status ≡ true → run o cs ≡ o
unfolding run
run-terminal o [] t = refl
run-terminal o (c ∷ cs) t = rw (step-terminal o c t) (run-terminal o cs t)

pub record IsConsistent (o : Order) : Type 0 where
  pub remaining_nonneg : le zero_dec o.remaining_quantity ≡ true
  pub remaining_within : le o.remaining_quantity o.quantity ≡ true
  pub filled_done : o.status ≡ filled → eq o.remaining_quantity zero_dec ≡ true
  pub open_pending : terminal o.status ≡ false → lt zero_dec o.remaining_quantity ≡ true

new_order-IsConsistent :
    (terms : Terms) (quantity : Decimal) (limit_price : Option Decimal)
    (signal_at created_at submitted_at : Timestamp) (expires_at : Option Timestamp) (o : Order)
    → new_order terms quantity limit_price signal_at created_at submitted_at expires_at ≡ ok o
    → IsConsistent o
unfolding new_order
new_order-IsConsistent terms quantity limit_price s c b e o h =
    ground (arith, le_refl quantity, le_total quantity zero_dec)

record_fill-IsConsistent :
    (o : Order) (quantity : Decimal)
    → IsConsistent o
    → IsConsistent (after o (record_fill o quantity))
unfolding record_fill
record_fill-IsConsistent o quantity v = ground (
  arith,
  le_total quantity zero_dec,
  sub_nonneg o.remaining_quantity quantity,
  sub-le o.remaining_quantity quantity,
  le_trans (sub o.remaining_quantity quantity) o.remaining_quantity o.quantity,
)

step-IsConsistent : (o : Order) (c : Call) → IsConsistent o → IsConsistent (step o c)
unfolding step reject cancel
step-IsConsistent o (rejects reason) v = ground arith
step-IsConsistent o (cancels reason is_expired) v = ground arith
step-IsConsistent o (fills quantity) v = record_fill-IsConsistent o quantity v

run-IsConsistent : (o : Order) (cs : List Call) → IsConsistent o → IsConsistent (run o cs)
unfolding run
run-IsConsistent o [] v = v
run-IsConsistent o (c ∷ cs) v = run-IsConsistent (step o c) cs (step-IsConsistent o c v)

-- An order that was constructed, after any calls, has a remainder between zero and its quantity;
-- it is zero if the order is filled, and positive while the order is not terminal.
pub run-new_order-IsConsistent :
    (terms : Terms) (quantity : Decimal) (limit_price : Option Decimal)
    (signal_at created_at submitted_at : Timestamp) (expires_at : Option Timestamp) (o : Order)
    (cs : List Call)
    → new_order terms quantity limit_price signal_at created_at submitted_at expires_at ≡ ok o
    → IsConsistent (run o cs)
run-new_order-IsConsistent terms quantity limit_price s c b e o cs h =
    run-IsConsistent o cs (new_order-IsConsistent terms quantity limit_price s c b e o h)
