-- ===== src/Portfolio/Ledger/Accounting.antt =====
-- domain/portfolio/ledger.py: what changes the cash, and what an error leaves alone.
use mathlib.Core.List.{foldl, foldl-append}
use crypt_tool.Base.{
  ℕ, ◌≡◌, refl, sym, ◌∙◌, ap, inl, inr, Bool, Bool-cases, true, Option, some, List, [], ◌∷◌, ◌++◌,
  any, ◌==◌, eq_iff, if◌then◌else◌, arith,
}
use crypt_tool.Base.Results.{Exception, Result, ok, err}
use crypt_tool.Time.{Timestamp, utc}
use crypt_tool.Decimal.{Decimal, add, sub}
use crypt_tool.Execution.Orders.{Snapshot, Fill}
use crypt_tool.Portfolio.Position.{Position}
use crypt_tool.Portfolio.Ledger.{
  Key, same_key, find, save, FundingRecord, Ledger, position, or_new, key_of, settle, accept, apply,
  mark, fund, apply_funding, capture,
}

pub find-save :
    (k j : Key) (p : Position) (ps : List (Key × Position))
    → find j (save k p ps) ≡ (if same_key k j then some p else find j ps)
unfolding find save
find-save k j p [] = refl
find-save k j p ((i, q) ∷ ps) = ground (
  arith,
  eq_iff k.0 j.0,
  eq_iff k.1 j.1,
  eq_iff i.0 k.0,
  eq_iff i.1 k.1,
  eq_iff i.0 j.0,
  eq_iff i.1 j.1,
  find-save k j p ps,
)

pub same_key_self : (k : Key) → same_key k k ≡ true
same_key_self k = ground (arith, eq_iff k.0 k.0, eq_iff k.1 k.1)

-- What a refused operation may not touch: cash, fills, processed identifiers, and every
-- position that was there.
pub record Untouched (l l' : Ledger) : Type 0 where
  pub cash_kept : l'.cash ≡ l.cash
  pub fills_kept : l'.fills ≡ l.fills
  pub processed_kept : l'.processed_fill_ids ≡ l.processed_fill_ids
  pub funding_kept : l'.funding_records ≡ l.funding_records
  pub positions_kept :
      (k : Key) (p : Position) → find k l.positions ≡ some p → find k l'.positions ≡ some p

position-Untouched : (l : Ledger) (k : Key) → Untouched l (position l k).1
unfolding position
position-Untouched l k = record {
  cash_kept = ground arith;
  fills_kept = ground arith;
  processed_kept = ground arith;
  funding_kept = ground arith;
  positions_kept = λ j p e. ground (
    arith,
    find-save k j (or_new k (find k l.positions)) l.positions,
    eq_iff k.0 j.0,
    eq_iff k.1 j.1,
  );
}

accept_refused :
    (l : Ledger) (p : Position) (f : Fill) (reduce_only : Bool) (stop take : Option Decimal)
    (e : Exception)
    → (accept l p f reduce_only stop take).0 ≡ err e
    → (accept l p f reduce_only stop take).1 ≡ l
unfolding accept
accept_refused l p f reduce_only stop take e h = ground arith

Untouched-refl : (l : Ledger) → Untouched l l
Untouched-refl l = record {
  cash_kept = refl;
  fills_kept = refl;
  processed_kept = refl;
  funding_kept = refl;
  positions_kept = λ k p e. e;
}

-- A fill that is refused, for whatever reason, leaves no partial accounting: the cash, the fills,
-- the processed identifiers, the funding and every stored position are as they were.
pub apply_refused :
    (l : Ledger) (f : Fill) (reduce_only : Bool) (stop take : Option Decimal) (e : Exception)
    → (apply l f reduce_only stop take).0 ≡ err e
    → Untouched l (apply l f reduce_only stop take).1
unfolding apply
apply_refused l f reduce_only stop take e h =
    let (p, l') = position l (key_of f) in
    elim (Bool-cases (any (λ i. i == f.fill_id) l.processed_fill_ids)) [
      | inl seen ↦ rw (seen, apply) (Untouched-refl l)
      | inr fresh ↦
          rw (fresh, apply)
            (rw (accept_refused l' p f reduce_only stop take e (rw (fresh, apply) at h))
              (position-Untouched l (key_of f)))
    ]

pub data Call : Type 0 where
  applies : Fill → Bool → Option Decimal → Option Decimal → Call
  marks : Snapshot → Call
  funds : Key → Timestamp → Decimal → Decimal → Call
  captures : ℕ → Call

abbrev after : Ledger → Result (Option FundingRecord × Ledger) → Ledger
after l (ok r) = r.1
after l (err e) = l

unfoldable pub step : Ledger → Call → Ledger
step l (applies f reduce_only stop take) = (apply l f reduce_only stop take).1
step l (marks s) = mark l s
step l (funds k t rate price) = after l (apply_funding l k t rate price)
step l (captures t) = (capture l t).1

unfoldable pub run : Ledger → List Call → Ledger
run l [] = l
run l (c ∷ cs) = run (step l c) cs

-- The amounts of a call that was accepted: the realized result less the fee, or the funding.
abbrev applied_flow : Fill → Result Decimal → List Decimal
applied_flow f (ok realized) = sub realized f.fee ∷ []
applied_flow f (err e) = []

abbrev funding_flow : Result (Option FundingRecord × Ledger) → List Decimal
funding_flow (ok (some r, l)) = r.amount ∷ []
funding_flow _ = []

abbrev flow : Ledger → Call → List Decimal
flow l (applies f reduce_only stop take) = applied_flow f (apply l f reduce_only stop take).0
flow l (funds k t rate price) = funding_flow (apply_funding l k t rate price)
flow l _ = []

unfoldable pub flows : Ledger → List Call → List Decimal
flows l [] = []
flows l (c ∷ cs) = flow l c ++ flows (step l c) cs

apply_cash :
    (l : Ledger) (f : Fill) (reduce_only : Bool) (stop take : Option Decimal)
    → let r = apply l f reduce_only stop take in r.1.cash ≡ foldl add l.cash (applied_flow f r.0)
unfolding apply accept position settle
apply_cash l f reduce_only stop take = ground arith

funding_cash :
    (l : Ledger) (k : Key) (t : Timestamp) (rate price : Decimal)
    → let r = apply_funding l k t rate price in (after l r).cash ≡ foldl add l.cash (funding_flow r)
unfolding apply_funding fund utc
funding_cash l k t rate price = ground arith

step_cash : (l : Ledger) (c : Call) → (step l c).cash ≡ foldl add l.cash (flow l c)
unfolding step mark capture
step_cash l (applies f reduce_only stop take) = apply_cash l f reduce_only stop take
step_cash l (marks s) = ground arith
step_cash l (funds k t rate price) = funding_cash l k t rate price
step_cash l (captures t) = refl

-- Over any calls the cash moves only by the realized results less fees of the fills that were
-- accepted and by the funding that was paid, in that order; marking, capturing and refused
-- calls do not move it.
pub run_cash : (l : Ledger) (cs : List Call) → (run l cs).cash ≡ foldl add l.cash (flows l cs)
unfolding run flows
run_cash l [] = refl
run_cash l (c ∷ cs) =
    run_cash (step l c) cs
    ∙ ap (λ x. foldl add x (flows (step l c) cs)) (step_cash l c)
    ∙ sym (foldl-append add l.cash (flow l c) (flows (step l c) cs))
