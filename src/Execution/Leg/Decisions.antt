-- ===== src/Execution/Leg/Decisions.antt =====
-- domain/execution/leg_state.py: timeouts, and the answer to a changed preflight.
use crypt_tool.Base.{◌≡◌, ◌≢◌, ◌⊎◌, true, false, arith}
use crypt_tool.Base.Int.{leb_ℤ}
use crypt_tool.Base.Results.{ok}
use crypt_tool.Time.{Timestamp, aware, utc, elapsed}
use crypt_tool.Decimal.{zero_dec, le, lt}
use crypt_tool.Execution.Leg.{
  State, first_submitted, first_partial, second_submitted, unwinding, halted, Action, chase,
  partial_hedge, alternate_hedge, unwind, halt, Machine, Change, deviation_bps, transition,
  check_timeout, handle_preflight_change,
}

-- A machine whose first leg is open is unwound by a timeout check exactly when the time since
-- the start has reached the limit; in any other state, or before the limit, nothing changes.
pub check_timeout_exact :
    (m m' : Machine) (t : _)
    → check_timeout m (aware t) ≡ ok m'
    → (((m.snapshot.state ≡ first_submitted) ⊎ (m.snapshot.state ≡ first_partial))
        → leb_ℤ m.policy.first_leg_timeout (elapsed t m.snapshot.started_at) ≡ true
        → (m'.snapshot.state ≡ unwinding) × (m'.snapshot.updated_at ≡ t))
      × (leb_ℤ m.policy.first_leg_timeout (elapsed t m.snapshot.started_at) ≡ false → m' ≡ m)
      × (m.snapshot.state ≢ first_submitted → m.snapshot.state ≢ first_partial → m' ≡ m)
unfolding check_timeout transition utc
check_timeout_exact m m' t h = ground arith

-- The state that each answer leaves.
abbrev pub state_of : Action → State
state_of halt = halted
state_of unwind = unwinding
state_of _ = second_submitted

-- What a machine requires of the evidence before it submits the second leg.
abbrev pub Justified : Machine → Change → Action → Type 0
Justified m c halt = c.evidence_valid ≡ false
Justified m c unwind = c.evidence_valid ≡ true
Justified m c alternate_hedge =
    (c.evidence_valid ≡ true) × (c.execution_health ≡ false) × (c.alternate_hedge_available ≡ true)
Justified m c partial_hedge =
    (c.evidence_valid ≡ true)
    × (c.execution_health ≡ true)
    × (lt zero_dec c.available_collateral ≡ true)
    × (lt zero_dec c.fillable_quantity ≡ true)
    × (lt c.fillable_quantity m.snapshot.target_quantity ≡ true)
Justified m c chase =
    (c.evidence_valid ≡ true)
    × (c.execution_health ≡ true)
    × (lt zero_dec c.available_collateral ≡ true)
    × (le m.snapshot.target_quantity c.fillable_quantity ≡ true)
    × (le (deviation_bps m.snapshot c.expected_vwap) m.policy.second_leg_chase_limit_bps ≡ true)

-- The answer to a changed preflight tells the state that was entered, and each answer that adds
-- risk is given only with valid evidence and the health, collateral, quantity and price it needs.
pub handle_preflight_change-Justified :
    (m m' : Machine) (now : Timestamp) (c : Change) (a : Action)
    → handle_preflight_change m now c ≡ ok (m', a)
    → (m'.snapshot.state ≡ state_of a) × Justified m c a
unfolding handle_preflight_change transition utc
handle_preflight_change-Justified m m' now c a h = ground arith
