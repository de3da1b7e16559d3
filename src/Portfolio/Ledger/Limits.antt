-- ===== src/Portfolio/Ledger/Limits.antt =====
-- domain/portfolio/ledger.py: the cap on a fill, and when a liquidation is decided.
use crypt_tool.Base.{
  ℕ, ◌≡◌, ◌↔◌, ◌≢◌, refl, Bool, true, false, some, List, [], ◌∷◌, any, is_some, arith, Bool-cases,
  Option-cases, inl, inr, if◌then◌else◌,
}
use crypt_tool.Decimal.{Decimal, zero_dec, le, lt, abs, min_dec}
use crypt_tool.Decimal.Order.{le_trans, le_total}
use crypt_tool.Base.Results.{ok}
use crypt_tool.Execution.Orders.{Side, Order, Fill}
use crypt_tool.Portfolio.Position.{Position, new, reduces, is_open}
use crypt_tool.Portfolio.Ledger.{
  Key, find, Ledger, equity, maintenance_margin, closing_capacity, quantity_at, key_of, position,
  check_reduce_only, maximum_fill_quantity, insert_key, open_keys, Liquidation,
  liquidation_decision,
}

within_min : (q a b : Decimal) → le q a ≡ true → (le q (min_dec a b) ≡ true) ↔ (le q b ≡ true)
within_min q a b h = elim (Bool-cases (lt b a)) [
  | inl e ↦ rw e (id, id)
  | inr e ↦ rw e (λ k. le_trans q a b h (ground arith), λ k. h)
]
  where
    id : {A : Type 0} → A → A
    id x = x

-- What a side can close of a quantity.
abbrev closable : Side → Decimal → Decimal
closable side current = if reduces current side then abs current else zero_dec

closable_exact :
    (p : Position) (f : Fill)
    → lt zero_dec f.quantity ≡ true
    → (le f.quantity (closable f.side p.quantity) ≡ true) ↔ (check_reduce_only true p f ≡ ok tt)
unfolding check_reduce_only
closable_exact p f h = elim (Bool-cases (reduces p.quantity f.side)) [
  | inl e ↦ ground (arith, le_total p.quantity zero_dec, le_total zero_dec p.quantity)
  | inr e ↦ ground arith
]

position_quantity :
    (l : Ledger) (k : Key) → (position l k).0.quantity ≡ quantity_at (find k l.positions)
unfolding position new
position_quantity l k = elim (Option-cases (find k l.positions)) [
  | inl e ↦ rw e refl
  | inr (p, e) ↦ rw e refl
]

-- The cap of a reduce-only order and the check of a reduce-only fill agree. At a positive price, for
-- a fill of the order's side and instrument whose quantity is positive and is within what remains of
-- the order: the quantity is within the cap exactly when the check accepts the fill.
pub maximum_fill_quantity-check :
    (l : Ledger) (o : Order) (price : Decimal) (f : Fill)
    → o.reduce_only ≡ true
    → lt zero_dec price ≡ true
    → f.side ≡ o.side
    → key_of f ≡ (o.exchange, o.symbol)
    → lt zero_dec f.quantity ≡ true
    → le f.quantity o.remaining_quantity ≡ true
    → (le f.quantity (maximum_fill_quantity l o price) ≡ true)
      ↔ (check_reduce_only true (position l (key_of f)).0 f ≡ ok tt)
unfolding maximum_fill_quantity closing_capacity
maximum_fill_quantity-check l o price f reducing positive side key some_quantity remains =
    let p = (position l (key_of f)).0 in
    let a = within_min f.quantity o.remaining_quantity (closing_capacity l o) remains in
    let b = closable_exact p f some_quantity in
    let same : closing_capacity l o ≡ closable f.side p.quantity =
      rw (position_quantity l (key_of f), key, side) refl in
    ground (arith)

-- Some position is open.
abbrev pub has_open : List (Key × Position) → Bool
has_open = any (λ (e : Key × Position). is_open e.1)

insert_key-ne-nil : (k : Key) (ks : List Key) → insert_key k ks ≢ []
unfolding insert_key
insert_key-ne-nil k [] e = cc
insert_key-ne-nil k (j ∷ js) e = ground arith

open_keys-nil : (ps : List (Key × Position)) → has_open ps ≡ false → open_keys ps ≡ []
unfolding open_keys
open_keys-nil [] h = refl
open_keys-nil ((k, p) ∷ ps) h = ground (arith, open_keys-nil ps)

open_keys-ne-nil : (ps : List (Key × Position)) → has_open ps ≡ true → open_keys ps ≢ []
unfolding open_keys
open_keys-ne-nil [] h e = cc
open_keys-ne-nil ((k, p) ∷ ps) h e =
    ground (arith, open_keys-ne-nil ps, insert_key-ne-nil k (open_keys ps))

-- A liquidation is decided exactly when a position is open and the equity does not exceed the
-- maintenance margin; it names all open instruments.
pub liquidation_decision_exact :
    (l : Ledger) (t : ℕ)
    → ((is_some (liquidation_decision l t) ≡ true)
        ↔ ((has_open l.positions ≡ true) × (le (equity l) (maintenance_margin l) ≡ true)))
      × ((d : Liquidation)
          → liquidation_decision l t ≡ some d
          → d.instruments ≡ open_keys l.positions)
unfolding liquidation_decision
liquidation_decision_exact l t =
    (ground (arith, open_keys-nil l.positions, open_keys-ne-nil l.positions), λ d e. ground arith)
