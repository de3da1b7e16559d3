-- ===== src/Execution/Simulator/Run/Trace.antt =====
-- domain/execution/simulator.py: the fills that `match` adds to the record of the simulator.
use crypt_tool.Base.{
  ℕ, suc, ◌≤◌, ◌<◌, ◌≡◌, refl, sym, ◌∙◌, inl, inr, Option, none, some, List, [], ◌∷◌, ◌++◌, In, All,
  All-append, All-map_imp, Option-cases, arith,
}
use mathlib.Core.List.{append-nil, append_assoc}
use crypt_tool.Base.Dict
use crypt_tool.Base.Results.{Exception, Result, ok, err}
use crypt_tool.Decimal.{Decimal}
use crypt_tool.Execution.Orders.{Rules, Snapshot, Order, Fill}
use crypt_tool.Execution.Simulator.{Simulator, Config, Match, make_fill, match_details}
use crypt_tool.Execution.Simulator.Matching.{
  Callbacks, book, fill_order, settle, attempt, match_order, cap_of,
}
use crypt_tool.Execution.Simulator.Matching.Fills.{
  Sound, Quoted, match_order-Sound, match_order-Quoted, make_fill_fields,
}
use crypt_tool.Execution.Simulator.Run.{
  insert_sorted, candidates, Matched, listed, commit, match_loop, match_with, match_snapshot,
}

-- The numbers of the fills rise strictly from above `lo`, and end at most at `hi`.
abbrev pub Ascending : ℕ → List Fill → ℕ → Type 0
Ascending lo [] hi = lo ≤ hi
Ascending lo (f ∷ fs) hi = (lo < f.fill_id) × Ascending f.fill_id fs hi

pub Ascending-append :
    (lo mid hi : ℕ) (fs gs : List Fill)
    → Ascending lo fs mid
    → Ascending mid gs hi
    → Ascending lo (fs ++ gs) hi
Ascending-append lo mid hi [] [] h k = omega arith
Ascending-append lo mid hi [] (g ∷ gs) h k = (omega arith, k.1)
Ascending-append lo mid hi (f ∷ fs) gs h k = (h.0, Ascending-append f.fill_id mid hi fs gs h.1 k)

In-insert_sorted : (o x : Order) (xs : List Order) → In o (insert_sorted x xs) → In o (x ∷ xs)
unfolding insert_sorted
In-insert_sorted o x [] h = h
In-insert_sorted o x (y ∷ ys) h = ground (arith, In-insert_sorted o x ys)

In-candidates : (o : Order) (xs : List Order) → In o (candidates xs) → In o xs
unfolding candidates
In-candidates o [] h = h
In-candidates o (x ∷ xs) h = elim (In-insert_sorted o x (candidates xs) h) [
  | inl e ↦ inl e
  | inr k ↦ inr (In-candidates o xs k)
]

-- A fill of one of the orders, sound and at its price.
abbrev pub Filled : List Order → Snapshot → Fill → Type 0
Filled os s f = (o : Order) × In o os × Sound o s f × Quoted o f

module _ {W : Type 0} (calls : Callbacks W) where
  fill_order_number :
      (w : W) (n k : ℕ) (o : Order) (f : Fill)
      → n < k
      → f.fill_id ≡ k
      → let x = fill_order calls w k o (ok f) in Ascending n (listed x.produced) x.sequence
  unfolding fill_order book
  fill_order_number w n k o f h e = ground arith

  made_number :
      (w : W) (n : ℕ) (o : Order) (s : Snapshot) (r : Rules) (k : Match) (m : Result Fill)
      → make_fill o s r (suc n) k ≡ m
      → let x = fill_order calls w (suc n) o m in Ascending n (listed x.produced) x.sequence
  made_number w n o s r k (ok f) e =
      fill_order_number w n (suc n) o f (omega arith) (make_fill_fields o s r (suc n) k f e).5
  made_number w n o s r k (err x) e = unfold fill_order in omega arith

  settle_number :
      (w : W) (n : ℕ) (s : Snapshot) (r : Rules) (o : Order) (m : Result (Option Match))
      → let x = settle calls w n s r o m in Ascending n (listed x.produced) x.sequence
  unfolding settle
  settle_number w n s r o (err e) = omega arith
  settle_number w n s r o (ok none) = omega arith
  settle_number w n s r o (ok (some k)) =
      ground (arith, made_number w n o s r k (make_fill o s r (suc n) k) refl)

  attempt_number :
      (c : Config) (w : W) (n : ℕ) (s : Snapshot) (r : Rules) (o : Order) (most : Decimal)
      → let x = attempt calls c w n s r o most in Ascending n (listed x.produced) x.sequence
  unfolding attempt
  attempt_number c w n s r o most =
      let found = match_details c o s r most in
      ground (arith, settle_number w n s r found.1 found.0)

  match_order_number :
      (c : Config) (w : W) (n : ℕ) (s : Snapshot) (r : Rules) (o : Order)
      → let x = match_order calls c w n s r o in Ascending n (listed x.produced) x.sequence
  unfolding match_order
  match_order_number c w n s r o = ground (arith, attempt_number c w n s r o (cap_of calls w o))

  -- What the loop over `os` adds to the fills of `sim`.
  record Added (sim : Simulator) (s : Snapshot) (acc : List Fill) (os : List Order) (m : Matched W)
      : Type 0 where
    more : List Fill
    appended : m.simulator.fills ≡ sim.fills ++ more
    justified : All (Filled os s) more
    numbered : Ascending sim.fill_sequence more m.simulator.fill_sequence
    returned : m.raised ≡ none → m.produced ≡ acc ++ more

  listed_justified :
      (c : Config) (w : W) (n : ℕ) (s : Snapshot) (r : Rules) (o : Order) (os : List Order)
      (p : Option Fill)
      → (match_order calls c w n s r o).produced ≡ p
      → All (Filled (o ∷ os) s) (listed p)
  listed_justified c w n s r o os none e = tt
  listed_justified c w n s r o os (some f) e = (
    (
      o,
      inl refl,
      match_order-Sound calls c w n s r o f e,
      match_order-Quoted calls c w n s r o f e,
    ),
    tt,
  )

  widen :
      (o : Order) (os : List Order) (s : Snapshot) (f : Fill) → Filled os s f → Filled (o ∷ os) s f
  widen o os s f (x, i, a, b) = (x, inr i, a, b)

  one_turn :
      (sim : Simulator) (s : Snapshot) (r : Rules) (w : W) (acc : List Fill) (o : Order)
      (os : List Order) (e : Exception)
      → let x = match_order calls sim.config w sim.fill_sequence s r o in
        Added sim s acc
          (o ∷ os)
          (record { simulator = commit sim x; world = x.world; produced = acc; raised = some e })
  one_turn sim s r w acc o os e =
      let x = match_order calls sim.config w sim.fill_sequence s r o in
      record {
        more = listed x.produced;
        appended = refl;
        justified = listed_justified sim.config w sim.fill_sequence s r o os x.produced refl;
        numbered = match_order_number sim.config w sim.fill_sequence s r o;
        returned = λ h. cc;
      }

  more_turns :
      (sim : Simulator) (s : Snapshot) (r : Rules) (w : W) (acc : List Fill) (o : Order)
      (os : List Order) (m : Matched W)
      → let x = match_order calls sim.config w sim.fill_sequence s r o in
        Added (commit sim x) s (acc ++ listed x.produced) os m → Added sim s acc (o ∷ os) m
  more_turns sim s r w acc o os m h =
      let x = match_order calls sim.config w sim.fill_sequence s r o in
      record {
        more = listed x.produced ++ h.more;
        appended = h.appended ∙ append_assoc sim.fills (listed x.produced) h.more;
        justified =
            All-append _ (listed x.produced) h.more
              (listed_justified sim.config w sim.fill_sequence s r o os x.produced refl)
              (All-map_imp (widen o os s) h.more h.justified);
        numbered =
            Ascending-append _ x.sequence _ (listed x.produced) h.more
              (match_order_number sim.config w sim.fill_sequence s r o) h.numbered;
        returned = λ e. h.returned e ∙ append_assoc acc (listed x.produced) h.more;
      }

  match_loop-Added :
      (sim : Simulator) (w : W) (s : Snapshot) (r : Rules) (acc : List Fill) (os : List Order)
      → Added sim s acc os (match_loop calls sim w s r acc os)
  unfolding match_loop
  match_loop-Added sim w s r acc [] = record {
    more = [];
    appended = sym (append-nil sim.fills);
    justified = tt;
    numbered = omega arith;
    returned = λ _. sym (append-nil acc);
  }
  match_loop-Added sim w s r acc (o ∷ os) =
      let x = match_order calls sim.config w sim.fill_sequence s r o in
      let rest = match_loop-Added (commit sim x) x.world s r (acc ++ listed x.produced) os in
      elim (Option-cases x.raised) [
        | inl e ↦ rw (e, match_loop) (more_turns sim s r w acc o os _ rest)
        | inr (y, e) ↦ rw (e, match_loop) (one_turn sim s r w acc o os y)
      ]

  narrow : (xs : List Order) (s : Snapshot) (f : Fill) → Filled (candidates xs) s f → Filled xs s f
  narrow xs s f (x, i, a, b) = (x, In-candidates x xs i, a, b)

  match_with-Added :
      (sim : Simulator) (w : W) (s : Snapshot) (r : Option Rules)
      → Added sim s [] (candidates (Dict.values sim.orders)) (match_with calls sim w s r)
  match_with-Added sim w s none = record {
    more = [];
    appended = sym (append-nil sim.fills);
    justified = tt;
    numbered = omega arith;
    returned = λ _. refl;
  }
  match_with-Added sim w s (some r) =
      match_loop-Added sim w s r [] (candidates (Dict.values sim.orders))

  -- Matching a snapshot appends fills to the record, each a sound fill at its price of an order
  -- that was stored, under numbers that rise from the last one used; unless an exception ends the
  -- loop, it returns exactly those.
  pub match_snapshot_trace :
      (sim : Simulator) (w : W) (s : Snapshot)
      → let m = match_snapshot calls sim w s in
        (more : List Fill) × (m.simulator.fills ≡ sim.fills ++ more)
        × All (Filled (Dict.values sim.orders) s) more
        × Ascending sim.fill_sequence more m.simulator.fill_sequence
        × (m.raised ≡ none → m.produced ≡ more)
  unfolding match_snapshot
  match_snapshot_trace sim w s =
      let h = match_with-Added sim w s (sim.rules s.exchange s.symbol) in
      (
        h.more,
        h.appended,
        All-map_imp (narrow (Dict.values sim.orders) s) h.more h.justified,
        h.numbered,
        h.returned,
      )
