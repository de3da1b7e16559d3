-- ===== src/Execution/Leg/Reconcile.antt =====
-- `reconcile` of domain/execution/leg_state.py: which fills it accepts and the state it leaves.
use crypt_tool.Base.{◌≡◌, ◌≢◌, ◌↔◌, ◌⊎◌, true, ◌&&◌, arith}
use crypt_tool.Base.Results.{ok}
use crypt_tool.Time.{Timestamp, utc}
use crypt_tool.Decimal.{Decimal, zero_dec, le, eq}
use crypt_tool.Decimal.Order.{gap_of_eq}
use crypt_tool.Execution.Leg.{
  completed, halted, Machine, naked_exposure, classify, limit_exposure, reconcile,
}

-- What one accepted reconciliation leaves behind.
pub record Reconciled (m : Machine) (first second : Decimal) (m' : Machine) : Type 0 where
  pub first_kept : m'.snapshot.first_filled_quantity ≡ first
  pub second_kept : m'.snapshot.second_filled_quantity ≡ second
  pub first_grows : le m.snapshot.first_filled_quantity first ≡ true
  pub second_grows : le m.snapshot.second_filled_quantity second ≡ true
  pub first_within : le first m.snapshot.target_quantity ≡ true
  pub second_within : le second m.snapshot.target_quantity ≡ true
  pub exposure_limited :
      (m'.snapshot.state ≡ halted)
      ⊎ (le (naked_exposure m'.snapshot) m'.policy.maximum_naked_exposure ≡ true)
  pub policy_kept : m'.policy ≡ m.policy
  pub target_kept : m'.snapshot.target_quantity ≡ m.snapshot.target_quantity
  pub reference_kept : m'.snapshot.reference_price ≡ m.snapshot.reference_price
  pub started_kept : m'.snapshot.started_at ≡ m.snapshot.started_at

-- A reconciliation that is accepted stores exactly the fills it was given; they have not fallen,
-- stay within the target, and leave an exposure within the limit or a halted machine.
pub reconcile-Reconciled :
    (m : Machine) (now : Timestamp) (first second : Decimal) (m' : Machine)
    → reconcile m now first second ≡ ok m'
    → Reconciled m first second m'
unfolding reconcile limit_exposure utc
reconcile-Reconciled m now first second m' h = ground arith

-- With a limit that is not negative, a machine that was not completed is completed by exactly
-- the reconciliations in which both legs equal the target; two full legs never halt it.
pub reconcile_completed :
    (m : Machine) (now : Timestamp) (first second : Decimal) (m' : Machine)
    → le zero_dec m.policy.maximum_naked_exposure ≡ true
    → m.snapshot.state ≢ completed
    → reconcile m now first second ≡ ok m'
    → (m'.snapshot.state ≡ completed)
      ↔ ((eq first m.snapshot.target_quantity && eq second m.snapshot.target_quantity) ≡ true)
unfolding reconcile limit_exposure utc classify naked_exposure
reconcile_completed m now first second m' limit open_state h = ground (
  arith,
  gap_of_eq first second m.snapshot.target_quantity m.snapshot.reference_price
      m.policy.maximum_naked_exposure,
)
