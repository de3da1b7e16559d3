-- ===== src/Execution/Simulator/Run/Numbers.antt =====
-- domain/execution/simulator.py: the numbers of the fills over a whole backtest.
use crypt_tool.Base.{String, Option, List, [], ◌∷◌, arith}
use crypt_tool.Execution.Orders.{Rules, Snapshot, Order}
use crypt_tool.Execution.Simulator.{Simulator, Config, new, submit, cancel_all}
use crypt_tool.Execution.Simulator.Matching.{Callbacks}
use crypt_tool.Execution.Simulator.Run.{match_snapshot}
use crypt_tool.Execution.Simulator.Run.Trace.{Ascending, Ascending-append, match_snapshot_trace}

-- The calls of a backtest.
pub data Call : Type 0 where
  submits : Order → Call
  cancels_all : String → Call
  matches : Snapshot → Call

module _ {W : Type 0} (calls : Callbacks W) where
  abbrev pub step : Simulator × W → Call → Simulator × W
  step (sim, w) (submits o) = ((submit sim o).1, w)
  step (sim, w) (cancels_all reason) = (cancel_all sim reason, w)
  step (sim, w) (matches s) = let m = match_snapshot calls sim w s in (m.simulator, m.world)

  pub run : Simulator × W → List Call → Simulator × W
  run z [] = z
  run z (c ∷ cs) = run (step z c) cs

  abbrev pub IsNumbered : Simulator → Type 0
  IsNumbered sim = Ascending 0 sim.fills sim.fill_sequence

  step-IsNumbered : (z : Simulator × W) (c : Call) → IsNumbered z.0 → IsNumbered (step z c).0
  unfolding submit cancel_all
  step-IsNumbered (sim, w) (submits o) h = ground arith
  step-IsNumbered (sim, w) (cancels_all reason) h = h
  step-IsNumbered (sim, w) (matches s) h =
      let t = match_snapshot_trace calls sim w s in
      rw t.1 (Ascending-append 0 sim.fill_sequence _ sim.fills t.0 h t.3)

  run-IsNumbered : (z : Simulator × W) (cs : List Call) → IsNumbered z.0 → IsNumbered (run z cs).0
  unfolding run
  run-IsNumbered z [] h = h
  run-IsNumbered z (c ∷ cs) h = run-IsNumbered (step z c) cs (step-IsNumbered z c h)

  -- After any submissions, cancellations and snapshots the recorded fills carry strictly rising
  -- numbers, none above the sequence: no number is given twice.
  pub run-new-IsNumbered :
      (rules : String → String → Option Rules) (config : Config) (w : W) (cs : List Call)
      → IsNumbered (run (new rules config, w) cs).0
  unfolding new
  run-new-IsNumbered rules config w cs = run-IsNumbered _ cs (omega arith)
