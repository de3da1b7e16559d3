-- ===== src/Execution/Examples.antt =====
-- domain/execution: runs of the code on concrete trades and orders.
use crypt_tool.Base.{◌≡◌, ◌≢◌, ◌↔◌, refl, true, false, ◌&&◌, [], ◌∷◌}
use crypt_tool.Base.Int.{pos}
use crypt_tool.Base.Results.{ok}
use crypt_tool.Time.{aware, utc}
use crypt_tool.Decimal.{lit, zero_dec, le, eq, sub, mul, abs}
use crypt_tool.Execution.Leg.{
  first_submitted, unwinding, completed, second_submitted, alternate_hedge, Machine, is_planned,
  both_filled, unwind_policy_applied, alternate_selected, Change, reconcile, classify,
  limit_exposure, naked_exposure, check_timeout, transition, handle_preflight_change,
}
use crypt_tool.Execution.Leg.Reconcile.{Reconciled, reconcile-Reconciled, reconcile_completed}
use crypt_tool.Execution.Leg.History.{
  Extends, IsWithin, run as run_leg, reconciles, submits_first, run-Extends,
}
use crypt_tool.Execution.Leg.Decisions.{Justified, state_of, handle_preflight_change-Justified}

abbrev machine : Machine
machine = record {
  policy = record {
    first_leg_timeout = pos 5000000;
    second_leg_chase_limit_bps = lit 50 0;
    maximum_naked_exposure = lit 1000 0;
    emergency_hedge_venue = "kraken";
    unwind_policy = "market";
  };
  snapshot = record {
    state = first_submitted;
    started_at = 1000;
    updated_at = 1000;
    target_quantity = lit 2 0;
    first_filled_quantity = zero_dec;
    second_filled_quantity = zero_dec;
    reference_price = lit 100 0;
    reason = is_planned;
  };
}

abbrev finished : Machine
finished = record machine {
  snapshot = record machine.snapshot {
    state = completed;
    updated_at = 2000;
    first_filled_quantity = lit 2 0;
    second_filled_quantity = lit 2 0;
    reason = both_filled;
  };
}

finishes : reconcile machine (aware 2000) (lit 2 0) (lit 2 0) ≡ ok finished
unfolding reconcile classify limit_exposure naked_exposure utc le mul abs sub
finishes = refl

reconcile-Reconciled_example : Reconciled machine (lit 2 0) (lit 2 0) finished
reconcile-Reconciled_example =
    reconcile-Reconciled machine (aware 2000) (lit 2 0) (lit 2 0) finished finishes

not_completed : machine.snapshot.state ≢ completed
not_completed e = cc

limit_positive : le zero_dec machine.policy.maximum_naked_exposure ≡ true
unfolding le
limit_positive = refl

reconcile_completed_example :
    (finished.snapshot.state ≡ completed)
    ↔ ((eq (lit 2 0) (lit 2 0) && eq (lit 2 0) (lit 2 0)) ≡ true)
reconcile_completed_example =
    reconcile_completed machine (aware 2000) (lit 2 0) (lit 2 0) finished limit_positive
      not_completed finishes

machine-IsWithin : IsWithin machine
unfolding le
machine-IsWithin = record { first_within = refl; second_within = refl }

run-Extends_example :
    let m =
      run_leg machine
        (submits_first (aware 1500) ∷ reconciles (aware 2000) (lit 1 0) (lit 1 0) ∷ []) in
    Extends machine m × IsWithin m
run-Extends_example =
    run-Extends machine
      (submits_first (aware 1500) ∷ reconciles (aware 2000) (lit 1 0) (lit 1 0) ∷ [])
      machine-IsWithin

abbrev late : Machine
late = record machine {
  snapshot = record machine.snapshot {
    state = unwinding;
    updated_at = 5001000;
    reason = unwind_policy_applied "market";
  };
}

times_out : check_timeout machine (aware 5001000) ≡ ok late
unfolding check_timeout transition utc
times_out = refl

abbrev unhealthy : Change
unhealthy = record {
  evidence_valid = true;
  execution_health = false;
  available_collateral = lit 10 0;
  fillable_quantity = lit 1 0;
  expected_vwap = lit 100 0;
  alternate_hedge_available = true;
}

abbrev rerouted : Machine
rerouted = record machine {
  snapshot = record machine.snapshot {
    state = second_submitted;
    updated_at = 3000;
    reason = alternate_selected;
  };
}

reroutes : handle_preflight_change machine (aware 3000) unhealthy ≡ ok (rerouted, alternate_hedge)
unfolding handle_preflight_change transition utc le
reroutes = refl

handle_preflight_change-Justified_example :
    (rerouted.snapshot.state ≡ state_of alternate_hedge)
    × Justified machine unhealthy alternate_hedge
handle_preflight_change-Justified_example =
    handle_preflight_change-Justified machine rerouted (aware 3000) unhealthy alternate_hedge
      reroutes
