-- ===== src/Execution/Leg/History.antt =====
-- domain/execution/leg_state.py: a machine driven by any sequence of calls.
use crypt_tool.Base.{◌≡◌, refl, List, [], ◌∷◌, true, arith}
use crypt_tool.Base.Results.{Result, ok, err, ◌>>=◌}
use crypt_tool.Time.{Timestamp, utc}
use crypt_tool.Decimal.{Decimal, le}
use crypt_tool.Decimal.Order.{le_refl, le_trans}
use crypt_tool.Execution.Leg.{
  Machine, Change, submit_first, submit_second, reconcile, check_timeout, handle_preflight_change,
  transition,
}
use crypt_tool.Execution.Leg.Reconcile.{reconcile-Reconciled}

pub data Call : Type 0 where
  submits_first checks_timeout : Timestamp → Call
  submits_second : Timestamp → Decimal → Call
  reconciles : Timestamp → Decimal → Decimal → Call
  changes : Timestamp → Change → Call

-- A call that raises leaves the machine as it was.
abbrev after : Machine → Result Machine → Machine
after m (ok m') = m'
after m (err e) = m

-- One call of a method.
unfoldable pub step : Machine → Call → Machine
step m (submits_first now) = after m (submit_first m now)
step m (checks_timeout now) = after m (check_timeout m now)
step m (submits_second now price) = after m (submit_second m now price)
step m (reconciles now first second) = after m (reconcile m now first second)
step m (changes now c) = after m (handle_preflight_change m now c >>= λ r. ok r.0)

unfoldable pub run : Machine → List Call → Machine
run m [] = m
run m (c ∷ cs) = run (step m c) cs

pub record IsWithin (m : Machine) : Type 0 where
  pub first_within : le m.snapshot.first_filled_quantity m.snapshot.target_quantity ≡ true
  pub second_within : le m.snapshot.second_filled_quantity m.snapshot.target_quantity ≡ true

-- Fills only grow, and the terms of the trade stay.
pub record Extends (m m' : Machine) : Type 0 where
  pub first_grows : le m.snapshot.first_filled_quantity m'.snapshot.first_filled_quantity ≡ true
  pub second_grows : le m.snapshot.second_filled_quantity m'.snapshot.second_filled_quantity ≡ true
  pub policy_kept : m'.policy ≡ m.policy
  pub target_kept : m'.snapshot.target_quantity ≡ m.snapshot.target_quantity
  pub reference_kept : m'.snapshot.reference_price ≡ m.snapshot.reference_price
  pub started_kept : m'.snapshot.started_at ≡ m.snapshot.started_at

Extends-refl : (m : Machine) → Extends m m
Extends-refl m =
    ground
      (arith, le_refl m.snapshot.first_filled_quantity, le_refl m.snapshot.second_filled_quantity)

Extends-trans : (a b c : Machine) → Extends a b → Extends b c → Extends a c
Extends-trans a b c h k = ground (
  arith,
  le_trans a.snapshot.first_filled_quantity b.snapshot.first_filled_quantity
      c.snapshot.first_filled_quantity,
  le_trans a.snapshot.second_filled_quantity b.snapshot.second_filled_quantity
      c.snapshot.second_filled_quantity,
)

reconcile_step :
    (m : Machine) (now : Timestamp) (first second : Decimal) (r : Result Machine)
    → reconcile m now first second ≡ r
    → IsWithin m
    → Extends m (after m r) × IsWithin (after m r)
reconcile_step m now first second (ok m') e w =
    ground (arith, reconcile-Reconciled m now first second m' e)
reconcile_step m now first second (err x) e w = (Extends-refl m, w)

step_lem : (m : Machine) (c : Call) → IsWithin m → Extends m (step m c) × IsWithin (step m c)
unfolding step submit_first check_timeout submit_second handle_preflight_change transition utc
step_lem m (reconciles now first second) w = reconcile_step m now first second _ refl w
step_lem m c w = ground (arith, Extends-refl m)

-- From fills within the target, any sequence of calls, those that raise included, leaves fills
-- that have not fallen and are within the same target; the policy, the target, the reference
-- price and the start time never change.
pub run-Extends :
    (m : Machine) (cs : List Call) → IsWithin m → Extends m (run m cs) × IsWithin (run m cs)
unfolding run
run-Extends m [] w = (Extends-refl m, w)
run-Extends m (c ∷ cs) w =
    let first = step_lem m c w in
    let rest = run-Extends (step m c) cs first.1 in
    (Extends-trans m (step m c) _ first.0 rest.0, rest.1)
