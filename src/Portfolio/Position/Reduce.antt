-- ===== src/Portfolio/Position/Reduce.antt =====
-- domain/portfolio/models.py: a fill against a position moves its quantity towards zero.
use crypt_tool.Base.{◌≡◌, true, Option, arith}
use crypt_tool.Base.Results.{ok}
use crypt_tool.Decimal.{Decimal, zero_dec, le, lt, add, neg, abs}
use crypt_tool.Decimal.Order.{add-neg_nonneg, add_nonpos, le-add, add-neg-le, le_of_abs, lt_asymm}
use crypt_tool.Execution.Orders.{Side, buy, sell, Fill}
use crypt_tool.Portfolio.Position.{
  Position, is_open, delta_of, opened, increased, decreased, left_at, changed, apply_fill,
  set_protection, reduces,
}

-- An open position's quantity moves by the signed quantity of the fill, on every branch.
pub apply_fill_quantity :
    (p : Position) (f : Fill)
    → is_open p ≡ true
    → (apply_fill p f).1.quantity ≡ add p.quantity (delta_of f)
unfolding apply_fill changed opened increased decreased left_at
apply_fill_quantity p f h = ground arith

pub set_protection_quantity :
    (p q : Position) (stop take : Option Decimal)
    → set_protection p stop take ≡ ok q
    → q.quantity ≡ p.quantity
unfolding set_protection
set_protection_quantity p q stop take h = ground arith

-- Between zero and the old quantity: the position has not grown and has not turned over.
pub record Shrunk (old now : Decimal) : Type 0 where
  pub long : lt zero_dec old ≡ true → (le zero_dec now ≡ true) × (le now old ≡ true)
  pub short : lt old zero_dec ≡ true → (le now zero_dec ≡ true) × (le old now ≡ true)

-- Selling at most what is held, and buying back at most what is owed.
sold :
    (old q : Decimal)
    → lt zero_dec old ≡ true
    → le zero_dec q ≡ true
    → le q (abs old) ≡ true
    → Shrunk old (add old (neg q))
sold old q held nonneg within = record {
  long = λ _. (add-neg_nonneg old q (le_of_abs old q held within), add-neg-le old q nonneg);
  short = λ owed. absurd (lt_asymm zero_dec old held owed);
}

bought :
    (old q : Decimal)
    → lt old zero_dec ≡ true
    → le zero_dec q ≡ true
    → le q (abs old) ≡ true
    → Shrunk old (add old q)
bought old q owed nonneg within = record {
  long = λ held. absurd (lt_asymm zero_dec old held owed);
  short = λ _. (add_nonpos old q within owed, le-add old q nonneg);
}

pub delta-Shrunk :
    (p : Position) (f : Fill) (side : Side)
    → f.side ≡ side
    → le zero_dec f.quantity ≡ true
    → le f.quantity (abs p.quantity) ≡ true
    → reduces p.quantity side ≡ true
    → Shrunk p.quantity (add p.quantity (delta_of f))
unfolding delta_of
delta-Shrunk p f buy e nonneg within h =
    rw e (bought p.quantity f.quantity (ground arith) nonneg within)
delta-Shrunk p f sell e nonneg within h =
    rw e (sold p.quantity f.quantity (ground arith) nonneg within)
