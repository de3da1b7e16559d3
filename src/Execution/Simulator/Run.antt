-- ===== src/Execution/Simulator/Run.antt =====
-- domain/execution/simulator.py: the whole of `match`, from the candidates to the fills.
pub mod Trace
pub mod Numbers
use Prim.Native.Nat.{Ordering}
use Prim.Native.String.{compare as compare_text}
use crypt_tool.Base.{
  ℕ, suc, ◌+◌, ◌≤◌, ◌<◌, ◌≡◌, refl, ◌⊎◌, inl, inr, Bool, true, false, ◌&&◌, ◌||◌, String, Option,
  none, some, List, [], ◌∷◌, ◌++◌, leb, ltb, ◌==◌, if◌then◌else◌, All, All-append, All-map_imp,
  length, arith,
}
use crypt_tool.Base.Dict
use crypt_tool.Base.Results.{Exception}
use crypt_tool.Execution.Orders.{Rules, Snapshot, Order, Fill}
use crypt_tool.Execution.Simulator.{Simulator, store}
use crypt_tool.Execution.Simulator.Matching.{Callbacks, Outcome, match_order}
use crypt_tool.Execution.Simulator.Matching.Fills.{
  Sound, Quoted, match_order-Sound, match_order-Quoted,
}

-- (submitted_at, order_id) of one order against that of another.
unfoldable pub comes_before : Order → Order → Bool
comes_before a b =
    ltb a.submitted_at b.submitted_at
    || (a.submitted_at == b.submitted_at
        && elim (compare_text a.order_id b.order_id) [ Ordering.gt ↦ false | _ ↦ true ])

unfoldable pub insert_sorted : Order → List Order → List Order
insert_sorted o [] = o ∷ []
insert_sorted o (x ∷ xs) = if comes_before o x then o ∷ x ∷ xs else x ∷ insert_sorted o xs

-- `sorted(self.orders.values(), key=...)`
unfoldable pub candidates : List Order → List Order
candidates [] = []
candidates (o ∷ os) = insert_sorted o (candidates os)

-- What `match` leaves, and what it returns or raises.
pub record Matched (W : Type 0) : Type 0 where
  pub simulator : Simulator
  pub world : W
  pub produced : List Fill
  pub raised : Option Exception

abbrev pub listed : Option Fill → List Fill
listed none = []
listed (some f) = f ∷ []

-- A turn of the loop, stored.
abbrev pub commit : {W : Type 0} → Simulator → Outcome W → Simulator
commit sim x = record (store sim x.order) {
  fills = sim.fills ++ listed x.produced;
  fill_sequence = x.sequence;
}

module _ {W : Type 0} (calls : Callbacks W) where
  unfoldable pub match_loop : Simulator → W → Snapshot → Rules → List Fill → List Order → Matched W
  match_loop sim w s r acc [] = record { simulator = sim; world = w; produced = acc; raised = none }
  match_loop sim w s r acc (o ∷ os) =
      let x = match_order calls sim.config w sim.fill_sequence s r o in
      let rest = match_loop (commit sim x) x.world s r (acc ++ listed x.produced) os in
      elim x.raised [
        | none ↦ rest
        | some e ↦ record {
          simulator = commit sim x;
          world = x.world;
          produced = acc;
          raised = some e;
        }
      ]

  abbrev pub match_with : Simulator → W → Snapshot → Option Rules → Matched W
  match_with sim w s none = record { simulator = sim; world = w; produced = []; raised = none }
  match_with sim w s (some r) = match_loop sim w s r [] (candidates (Dict.values sim.orders))

  unfoldable pub match_snapshot : Simulator → W → Snapshot → Matched W
  match_snapshot sim w s = match_with sim w s (sim.rules s.exchange s.symbol)
