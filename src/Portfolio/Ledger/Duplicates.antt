-- ===== src/Portfolio/Ledger/Duplicates.antt =====
-- domain/portfolio/ledger.py: a fill is applied at most once.
use crypt_tool.Base.{ℕ, ◌≡◌, Bool, true, Option, List, [], ◌∷◌, any, ◌==◌, arith}
use crypt_tool.Base.Results.{ok, err, duplicate_fill_error}
use crypt_tool.Time.{utc}
use crypt_tool.Decimal.{Decimal}
use crypt_tool.Execution.Orders.{Fill}
use crypt_tool.Portfolio.Ledger.{
  Ledger, position, settle, accept, apply, mark, fund, apply_funding, capture,
}
use crypt_tool.Portfolio.Ledger.Accounting.{Call, applies, marks, funds, captures, step, run}

-- The identifier is among those of the fills that were applied.
abbrev pub Processed : ℕ → Ledger → Type 0
Processed i l = any (λ j. j == i) l.processed_fill_ids ≡ true

step-Processed : (i : ℕ) (l : Ledger) (c : Call) → Processed i l → Processed i (step l c)
unfolding step apply accept position settle mark apply_funding fund utc capture
step-Processed i l (applies f reduce_only stop take) h = ground arith
step-Processed i l (marks s) h = ground arith
step-Processed i l (funds k t rate price) h = ground arith
step-Processed i l (captures t) h = h

run-Processed : (i : ℕ) (l : Ledger) (cs : List Call) → Processed i l → Processed i (run l cs)
unfolding run
run-Processed i l [] h = h
run-Processed i l (c ∷ cs) h = run-Processed i (step l c) cs (step-Processed i l c h)

apply-Processed :
    (l : Ledger) (f : Fill) (reduce_only : Bool) (stop take : Option Decimal) {realized : Decimal}
    → (apply l f reduce_only stop take).0 ≡ ok realized
    → Processed f.fill_id (apply l f reduce_only stop take).1
unfolding apply accept position settle
apply-Processed l f reduce_only stop take h = ground arith

Processed-refused :
    (l : Ledger) (f : Fill) (reduce_only : Bool) (stop take : Option Decimal)
    → Processed f.fill_id l
    → apply l f reduce_only stop take ≡ (err (duplicate_fill_error "duplicate fill"), l)
unfolding apply
Processed-refused l f reduce_only stop take h = ground arith

-- Once a fill was applied, then after any further calls a fill with its identifier, whatever its
-- other fields and options, is refused as a duplicate and changes nothing.
pub apply_once :
    (l : Ledger) (f g : Fill) (reduce_only again : Bool) (stop take stop' take' : Option Decimal)
    {realized : Decimal} (cs : List Call)
    → (apply l f reduce_only stop take).0 ≡ ok realized
    → g.fill_id ≡ f.fill_id
    → let l' = run (apply l f reduce_only stop take).1 cs in
      apply l' g again stop' take' ≡ (err (duplicate_fill_error "duplicate fill"), l')
apply_once l f g reduce_only again stop take stop' take' cs h e =
    let applied = (apply l f reduce_only stop take).1 in
    Processed-refused (run applied cs) g again stop' take'
      (rw e (run-Processed f.fill_id applied cs (apply-Processed l f reduce_only stop take h)))
