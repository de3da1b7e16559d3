-- ===== src/Execution/Leg.antt =====
-- domain/execution/leg_state.py: one cross-venue trade of two legs, its fills and its risk limits.
use crypt_tool.Base.{
  ℕ, ◌≡◌, refl, Bool, true, false, ◌&&◌, ◌||◌, not, String, List, [], ◌∷◌, if◌then◌else◌,
}
use crypt_tool.Base.Int.{ℤ, leb_ℤ}
use crypt_tool.Base.Results.{Result, ok, err, refuse_if, ◌>>=◌, ◌>>◌}
use crypt_tool.Time.{Timestamp, utc, elapsed}
use crypt_tool.Decimal.{Decimal, lit, zero_dec, le, lt, eq, sub, abs, mul, div}
pub mod Reconcile
pub mod History
pub mod Decisions

pub data State : Type 0 where
  planned first_submitted first_partial first_filled second_submitted : State
  hedged unwinding completed halted : State

pub data Action : Type 0 where
  chase partial_hedge alternate_hedge unwind halt : Action

-- What `reason` says; the texts that join `unwind_policy` carry it.
pub data Reason : Type 0 where
  is_planned first_leg_submitted second_leg_submitted partial_reconciled both_filled : Reason
  exposure_hedged exposure_exceeded evidence_untrusted alternate_selected : Reason
  partial_selected chase_selected : Reason
  chase_limit_exceeded unwind_policy_applied : String → Reason

pub record Policy : Type 0 where
  pub first_leg_timeout : ℤ
  pub second_leg_chase_limit_bps : Decimal
  pub maximum_naked_exposure : Decimal
  pub emergency_hedge_venue : String
  pub unwind_policy : String

-- The `Field` constraints of `LegRiskPolicy`.
unfoldable pub is_policy : Policy → Bool
is_policy p = le zero_dec p.second_leg_chase_limit_bps && lt zero_dec p.maximum_naked_exposure

pub record Snapshot : Type 0 where
  pub state : State
  pub started_at : ℕ
  pub updated_at : ℕ
  pub target_quantity : Decimal
  pub first_filled_quantity : Decimal
  pub second_filled_quantity : Decimal
  pub reference_price : Decimal
  pub reason : Reason

unfoldable pub naked_exposure : Snapshot → Decimal
naked_exposure s =
    mul (abs (sub s.first_filled_quantity s.second_filled_quantity)) s.reference_price

pub record Machine : Type 0 where
  pub policy : Policy
  pub snapshot : Snapshot

-- `__init__`, with the validation of the first snapshot: gt=0 and an aware timestamp.
unfoldable pub new : Policy → Timestamp → Decimal → Decimal → Result Machine
new policy started_at quantity price = do
  started ← utc started_at
  refuse_if (le quantity zero_dec) "target_quantity must be greater than 0"
  refuse_if (le price zero_dec) "reference_price must be greater than 0"
  ok (record {
    policy = policy;
    snapshot = record {
      state = planned;
      started_at = started;
      updated_at = started;
      target_quantity = quantity;
      first_filled_quantity = zero_dec;
      second_filled_quantity = zero_dec;
      reference_price = price;
      reason = is_planned;
    };
  })

-- Every method raises before it stores a snapshot, so a machine is given back only on success.
unfoldable pub transition : Machine → State → Timestamp → Reason → Result Machine
transition m state now reason = do
  t ← utc now
  ok (record m { snapshot = record m.snapshot { state = state; updated_at = t; reason = reason } })

unfoldable pub submit_first : Machine → Timestamp → Result Machine
submit_first m now = transition m first_submitted now first_leg_submitted

-- abs(price - reference) / reference * 10000
unfoldable pub deviation_bps : Snapshot → Decimal → Decimal
deviation_bps s price =
    mul (div (abs (sub price s.reference_price)) s.reference_price) (lit 10000 0)

unfoldable pub submit_second : Machine → Timestamp → Decimal → Result Machine
submit_second m now chase_price = do
  refuse_if (le chase_price zero_dec) "chase price must be positive"
  if lt m.policy.second_leg_chase_limit_bps (deviation_bps m.snapshot chase_price)
      then transition m unwinding now (chase_limit_exceeded m.policy.unwind_policy)
      else transition m second_submitted now second_leg_submitted

-- The ladder of `reconcile` that chooses the state and the reason.
unfoldable pub classify : Snapshot → Decimal → Decimal → State × Reason
classify s first second =
    if eq first s.target_quantity && eq second s.target_quantity
    then (completed, both_filled)
    else if lt zero_dec second && eq second first
    then (hedged, exposure_hedged)
    else if eq first s.target_quantity
    then (first_filled, partial_reconciled)
    else if lt zero_dec first
    then (first_partial, partial_reconciled)
    else (s.state, partial_reconciled)

unfoldable pub limit_exposure : Policy → Snapshot → Snapshot
limit_exposure p s =
    if lt p.maximum_naked_exposure (naked_exposure s)
    then record s { state = halted; reason = exposure_exceeded }
    else s

unfoldable pub reconcile : Machine → Timestamp → Decimal → Decimal → Result Machine
reconcile m now first second = do
  refuse_if
      (lt first m.snapshot.first_filled_quantity || lt second m.snapshot.second_filled_quantity)
      "cumulative fills cannot decrease"
  refuse_if (lt m.snapshot.target_quantity first || lt m.snapshot.target_quantity second)
      "filled quantity exceeds target"
  t ← utc now
  ok (record m {
    snapshot = limit_exposure m.policy (record m.snapshot {
      state = (classify m.snapshot first second).0;
      updated_at = t;
      first_filled_quantity = first;
      second_filled_quantity = second;
      reason = (classify m.snapshot first second).1;
    });
  })

-- {FIRST_SUBMITTED, FIRST_PARTIAL}
abbrev pub first_leg_open : State → Bool
first_leg_open first_submitted = true
first_leg_open first_partial = true
first_leg_open _ = false

abbrev timeout_at : Machine → ℕ → Timestamp → Result Machine
timeout_at m t now =
    if first_leg_open m.snapshot.state
      && leb_ℤ m.policy.first_leg_timeout (elapsed t m.snapshot.started_at)
    then transition m unwinding now (unwind_policy_applied m.policy.unwind_policy)
    else ok m

unfoldable pub check_timeout : Machine → Timestamp → Result Machine
check_timeout m now = utc now >>= λ t. timeout_at m t now

-- What a caller passes to `handle_preflight_change`.
pub record Change : Type 0 where
  pub evidence_valid : Bool
  pub execution_health : Bool
  pub available_collateral : Decimal
  pub fillable_quantity : Decimal
  pub expected_vwap : Decimal
  pub alternate_hedge_available : Bool

-- A transition and the action that is returned.
abbrev act : Machine → State → Timestamp → Reason → Action → Result (Machine × Action)
act m state now reason action = transition m state now reason >>= λ m'. ok (m', action)

unfoldable pub handle_preflight_change : Machine → Timestamp → Change → Result (Machine × Action)
handle_preflight_change m now c =
    if not c.evidence_valid
    then act m halted now evidence_untrusted halt
    else if not c.execution_health && c.alternate_hedge_available
    then act m second_submitted now alternate_selected alternate_hedge
    else if not c.execution_health
        || le c.available_collateral zero_dec
        || le c.fillable_quantity zero_dec
    then act m unwinding now (unwind_policy_applied m.policy.unwind_policy) unwind
    else if lt c.fillable_quantity m.snapshot.target_quantity
    then act m second_submitted now partial_selected partial_hedge
    else if le (deviation_bps m.snapshot c.expected_vwap) m.policy.second_leg_chase_limit_bps
    then act m second_submitted now chase_selected chase
    else act m unwinding now (unwind_policy_applied m.policy.unwind_policy) unwind
