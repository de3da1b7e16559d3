-- ===== src/Portfolio/Ledger/ReduceOnly.antt =====
-- domain/portfolio/ledger.py: a reduce-only fill never increases or reverses a position.
use crypt_tool.Base.{
  ◌≡◌, ◌≢◌, none, Option-cases, refl, sym, ap, ◌∙◌, true, Option, some, any, ◌==◌, Bool-cases, inl,
  inr, arith,
}
use crypt_tool.Base.Results.{Result, ok, err}
use crypt_tool.Decimal.{Decimal, zero_dec, le, abs}
use crypt_tool.Execution.Orders.{Fill}
use crypt_tool.Portfolio.Position.{Position, new, is_open, reduces, apply_fill}
use crypt_tool.Portfolio.Position.Reduce.{
  Shrunk, apply_fill_quantity, set_protection_quantity, delta-Shrunk,
}
use crypt_tool.Portfolio.Ledger.{
  find, save, Ledger, position, check_reduce_only, protect, key_of, settle, accept, apply,
}
use crypt_tool.Portfolio.Ledger.Accounting.{find-save, same_key_self}

check_cases :
    (p : Position) (f : Fill)
    → check_reduce_only true p f ≡ ok tt
    → (is_open p ≡ true)
      × (reduces p.quantity f.side ≡ true)
      × (le f.quantity (abs p.quantity) ≡ true)
unfolding check_reduce_only
check_cases p f h = ground arith

protect_quantity :
    (p q : Position) (stop take : Option Decimal)
    → protect p stop take ≡ ok q
    → q.quantity ≡ p.quantity
unfolding protect
protect_quantity p q stop take h = ground (arith, set_protection_quantity p q stop take)

-- An accepted fill of a stored position goes to `accept`, with the ledger as it was.
apply_held :
    (l : Ledger) (f : Fill) (stop take : Option Decimal) (p : Position) (realized : Decimal)
    → find (key_of f) l.positions ≡ some p
    → (apply l f true stop take).0 ≡ ok realized
    → apply l f true stop take ≡ accept l p f true stop take
unfolding apply position
apply_held l f stop take p realized held h =
    elim (Bool-cases (any (λ i. i == f.fill_id) l.processed_fill_ids)) [
      | inl seen ↦ absurd (ground arith)
      | inr fresh ↦ rw (fresh, apply, held)
    ]

-- An accepted fill stores the position that was protected, at its key.
record Stored (l : Ledger) (p : Position) (f : Fill) (stop take : Option Decimal) : Type 0 where
  checked : check_reduce_only true p f ≡ ok tt
  kept : Position
  protected : protect (apply_fill p f).1 stop take ≡ ok kept
  saved : (accept l p f true stop take).1.positions ≡ save (key_of f) kept l.positions

accept-Stored :
    (l : Ledger) (p : Position) (f : Fill) (stop take : Option Decimal) (realized : Decimal)
    (check : Result (Unit {0})) (after : Result Position)
    → check_reduce_only true p f ≡ check
    → protect (apply_fill p f).1 stop take ≡ after
    → (accept l p f true stop take).0 ≡ ok realized
    → Stored l p f stop take
unfolding accept settle
accept-Stored l p f stop take realized (err e) after c d h = absurd (ground arith)
accept-Stored l p f stop take realized (ok u) (err e) c d h = absurd (ground arith)
accept-Stored l p f stop take realized (ok u) (ok q) c d h = record {
  checked = c;
  kept = q;
  protected = d;
  saved = ground arith;
}

-- What a reduce-only fill leaves of a position.
abbrev pub Reduced : Ledger → Fill → Option Decimal → Option Decimal → Position → Type 0
Reduced l f stop take p =
    (q : Position) × (find (key_of f) (apply l f true stop take).1.positions ≡ some q)
    × (reduces p.quantity f.side ≡ true)
    × Shrunk p.quantity q.quantity

-- Without a stored position the fill is refused.
unheld_refused :
    (l : Ledger) (f : Fill) (stop take : Option Decimal) (realized : Decimal)
    → find (key_of f) l.positions ≡ none
    → (apply l f true stop take).0 ≢ ok realized
unfolding apply position accept check_reduce_only new le
unheld_refused l f stop take realized e h =
    elim (Bool-cases (any (λ i. i == f.fill_id) l.processed_fill_ids)) [
      | inl seen ↦ ground arith
      | inr fresh ↦ ground arith
    ]

held-Reduced :
    (l : Ledger) (f : Fill) (stop take : Option Decimal) (p : Position) (realized : Decimal)
    → le zero_dec f.quantity ≡ true
    → find (key_of f) l.positions ≡ some p
    → (apply l f true stop take).0 ≡ ok realized
    → Reduced l f stop take p
held-Reduced l f stop take p realized nonneg held h =
    let e = apply_held l f stop take p realized held h in
    let z =
      accept-Stored l p f stop take realized _ _ refl refl
        (ap (λ (r : Result Decimal × Ledger). r.0) (sym e) ∙ h) in
    let (opened, side, within) = check_cases p f z.checked in
    let moved =
      protect_quantity (apply_fill p f).1 z.kept stop take z.protected
      ∙ apply_fill_quantity p f opened in
    (
      z.kept,
      rw e (rw z.saved (find-save (key_of f) (key_of f) z.kept l.positions ∙ rw same_key_self)),
      side,
      rw moved (delta-Shrunk p f f.side refl nonneg within side),
    )

-- A reduce-only fill of a quantity that is not negative, if it is accepted, finds a stored position
-- of the other side, and leaves in its place one whose quantity lies between zero and the old one.
pub reduce_only-Shrunk :
    (l : Ledger) (f : Fill) (stop take : Option Decimal) (realized : Decimal)
    → le zero_dec f.quantity ≡ true
    → (apply l f true stop take).0 ≡ ok realized
    → (p : Position) × (find (key_of f) l.positions ≡ some p) × Reduced l f stop take p
reduce_only-Shrunk l f stop take realized nonneg h =
    elim (Option-cases (find (key_of f) l.positions)) [
      | inl e ↦ absurd (unheld_refused l f stop take realized e h)
      | inr (p, e) ↦ (p, e, held-Reduced l f stop take p realized nonneg e h)
    ]
