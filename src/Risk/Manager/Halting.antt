-- ===== src/Risk/Manager/Halting.antt =====
-- domain/risk/manager.py: a drawdown at the limit stops every entry until the reset.
use crypt_tool.Base.{
  ℕ, ◌≡◌, ◌≢◌, ◌⊎◌, refl, sym, ap, ◌∙◌, subst, inl, inr, Bool, Bool-cases, true, false, none, List,
  [], ◌∷◌, arith,
}
use crypt_tool.Decimal.{Decimal, le}
use crypt_tool.Risk.Breaker.{
  Halt, max_drawdown, add, Breaker, trip_for, is_due, refreshed, status_at,
}
use crypt_tool.Risk.Breaker.Latch.{IsLatched}
use crypt_tool.Risk.Models.{State, Intent, entry, exit, reduce, Signal, drawdown_fraction}
use crypt_tool.Risk.Sizing.{Inputs}
use mathlib.Core.Bool.{true≢false}
use crypt_tool.Risk.Manager.Entry.{evaluate_of_entry, evaluate_allowed}
use crypt_tool.Risk.Manager.{
  Manager, critical, Decision, Check, checks, critical_halts, transient_halts, trip_all, tripped,
  evaluate_entry, evaluate_intent, evaluate,
}

trip_for-IsLatched :
    (b : Breaker) (h : Halt) (t : ℕ) (manual : Bool) (n : ℕ)
    → IsLatched b
    → IsLatched (trip_for b h t manual n none)
unfolding trip_for add
trip_for-IsLatched b h t manual n v = ground arith

trip_all-IsLatched :
    (manual : Bool) (t : ℕ) (hs : List Halt) (b : Breaker)
    → IsLatched b
    → IsLatched (trip_all manual t hs b)
unfolding trip_all
trip_all-IsLatched manual t [] b v = v
trip_all-IsLatched manual t (h ∷ hs) b v =
    trip_all-IsLatched manual t hs _ (trip_for-IsLatched b h t manual b.default_cooldown_seconds v)

-- One manual trip is enough.
trip_all_manual :
    (t : ℕ) (h : Halt) (hs : List Halt) (b : Breaker) → IsLatched (trip_all true t (h ∷ hs) b)
unfolding trip_all
trip_all_manual t h hs b = trip_all-IsLatched true t hs _ (latched b h t)
  where
    latched :
        (b : Breaker) (h : Halt) (t : ℕ)
        → IsLatched (trip_for b h t true b.default_cooldown_seconds none)
    latched b h t = unfold trip_for add in ground arith

refreshed_latched : (b : Breaker) (t : ℕ) → IsLatched b → refreshed b t ≡ b
unfolding refreshed is_due
refreshed_latched b t v = ground (arith, v.manual)

tripped-IsLatched :
    (m : Manager) (cs : List Check) (s : State) → IsLatched m.breaker → IsLatched (tripped m cs s)
unfolding tripped
tripped-IsLatched m cs s v =
    trip_all-IsLatched true s.timestamp (critical_halts cs) _
      (trip_all-IsLatched false s.timestamp (transient_halts cs) m.breaker v)

status_latched : (b : Breaker) (t : ℕ) → IsLatched b → (status_at b t).0.active ≡ true
unfolding status_at
status_latched b t v = ground (arith, refreshed_latched b t v, v.halted)

critical-cons :
    (c : Check) (cs : List Check) → critical_halts cs ≢ [] → critical_halts (c ∷ cs) ≢ []
unfolding critical_halts
critical-cons c cs h = ground arith

critical_head :
    (c : Check) (cs : List Check) (h : Halt)
    → c.fails ≡ true
    → c.effect ≡ critical h
    → critical_halts (c ∷ cs) ≢ []
unfolding critical_halts
critical_head c cs h f e = ground arith

-- The seventh check is that of the drawdown.
drawdown_trips :
    (m : Manager) (g : Signal) (s : State)
    → le m.limits.maximum_drawdown (drawdown_fraction s) ≡ true
    → critical_halts (checks m.limits g s) ≢ []
unfolding checks
drawdown_trips m g s h =
    let skip = critical-cons in
    skip _ _
      (skip _ _ (skip _ _ (skip _ _ (skip _ _ (skip _ _ (critical_head _ _ max_drawdown h refl))))))

trip_all_nonempty :
    (t : ℕ) (hs : List Halt) (b : Breaker) → hs ≢ [] → IsLatched (trip_all true t hs b)
trip_all_nonempty t [] b h = absurd (h refl)
trip_all_nonempty t (h ∷ hs) b _ = trip_all_manual t h hs b

drawdown-IsLatched :
    (m : Manager) (g : Signal) (s : State)
    → le m.limits.maximum_drawdown (drawdown_fraction s) ≡ true
    → IsLatched (tripped m (checks m.limits g s) s)
unfolding tripped
drawdown-IsLatched m g s d = trip_all_nonempty s.timestamp _ _ (drawdown_trips m g s d)

entry-cases : (x : Intent) → (x ≡ entry) ⊎ (x ≢ entry)
entry-cases entry = inl refl
entry-cases exit = inr (λ e. cc)
entry-cases reduce = inr (λ e. cc)

-- The breaker after an entry is the one that the checks tripped, if that is latched.
evaluate_entry-IsLatched :
    (m : Manager) (g : Signal) (price : Decimal) (s : State) (i : Inputs)
    → IsLatched (tripped m (checks m.limits g s) s)
    → IsLatched (evaluate_entry m g price s i).1.breaker
unfolding evaluate_entry status_at
evaluate_entry-IsLatched m g price s i v =
    rw (refreshed_latched (tripped m (checks m.limits g s) s) s.timestamp v) v

evaluate-IsLatched :
    (m : Manager) (g : Signal) (price : Decimal) (s : State) (i : Inputs)
    → IsLatched m.breaker
    → IsLatched (evaluate m g price s i).1.breaker
unfolding evaluate evaluate_intent status_at
evaluate-IsLatched m g price s i v = elim (entry-cases g.intent) [
  | inl e ↦
      subst (λ (x : Manager). IsLatched x.breaker)
        (ap (λ (r : Decision × Manager). r.1) (sym (evaluate_of_entry m g price s i e)))
        (evaluate_entry-IsLatched m g price s i (tripped-IsLatched m (checks m.limits g s) s v))
  | inr other ↦ ground (arith, refreshed_latched m.breaker s.timestamp v)
]

-- A latched breaker refuses an entry.
latched_refuses :
    (m : Manager) (g : Signal) (price : Decimal) (s : State) (i : Inputs)
    → g.intent ≡ entry
    → IsLatched m.breaker
    → (evaluate m g price s i).0.allowed ≡ false
latched_refuses m g price s i e v =
    let b = tripped m (checks m.limits g s) s in
    let w = tripped-IsLatched m (checks m.limits g s) s v in
    let active : (status_at b s.timestamp).0.active ≡ true = status_latched b s.timestamp w in
    elim (Bool-cases (evaluate m g price s i).0.allowed) [
      | inl yes_allowed ↦
          absurd (true≢false (sym active ∙ (evaluate_allowed m g price s i e yes_allowed).1))
      | inr refused ↦ refused
    ]

pub record Request : Type 0 where
  pub signal : Signal
  pub price : Decimal
  pub state : State
  pub inputs : Inputs

unfoldable pub run : Manager → List Request → Manager
run m [] = m
run m (q ∷ qs) = run (evaluate m q.signal q.price q.state q.inputs).1 qs

run-IsLatched :
    (m : Manager) (qs : List Request) → IsLatched m.breaker → IsLatched (run m qs).breaker
unfolding run
run-IsLatched m [] v = v
run-IsLatched m (q ∷ qs) v =
    run-IsLatched (evaluate m q.signal q.price q.state q.inputs).1 qs
      (evaluate-IsLatched m q.signal q.price q.state q.inputs v)

-- Once an entry was evaluated at a drawdown at or above the limit, every later entry is refused,
-- whatever its signal, state and inputs and whatever was evaluated in between, however late:
-- only the reset of the kill switch, which is not among these calls, ends it.
pub drawdown_latches :
    (m : Manager) (g h : Signal) (price later_price : Decimal) (s later : State)
    (i later_inputs : Inputs) (qs : List Request)
    → g.intent ≡ entry
    → h.intent ≡ entry
    → le m.limits.maximum_drawdown (drawdown_fraction s) ≡ true
    → (evaluate (run (evaluate m g price s i).1 qs) h later_price later later_inputs).0.allowed
      ≡ false
drawdown_latches m g h price later_price s later i later_inputs qs e k d =
    let first : IsLatched (evaluate m g price s i).1.breaker =
      subst (λ (x : Manager). IsLatched x.breaker)
        (ap (λ (r : Decision × Manager). r.1) (sym (evaluate_of_entry m g price s i e)))
        (evaluate_entry-IsLatched m g price s i (drawdown-IsLatched m g s d)) in
    latched_refuses _ h later_price later later_inputs k (run-IsLatched _ qs first)
