-- ===== src/Risk/Sizing/Bounds.antt =====
-- domain/risk/sizing.py: an accepted size, and the limits on the notional that it is taken from.
use crypt_tool.Base.{
  ℕ, ◌≡◌, refl, ap, ◌∙◌, Option, none, inl, inr, true, some, [], ◌∷◌, ◌++◌, All, Bool-cases,
  Option-cases, subst, sym, if◌then◌else◌, arith,
}
use crypt_tool.Base.Results.{ok, >>=-eq-ok}
use crypt_tool.Decimal.{Decimal, zero_dec, lit, le, lt, mul, div, round_floor}
use crypt_tool.Decimal.Order.{le_refl, le_trans, le_total}
use crypt_tool.Decimal.Rounding.{round_floor-le, round_floor-greatest, round_floor-whole}
use crypt_tool.Risk.Models.{
  SizingMethod, conservative_minimum, Limits, State, Signal, Constraint, by_method, Sizing,
  symbol_exposure, exchange_exposure,
}
use crypt_tool.Risk.Sizing.{
  Inputs, Candidates, reject, headroom, exposure_candidates, select, requested, least, binding_of,
  lot_quantity, finish, size_from, size_at, size, method_candidates, risk_amount,
}

abbrev AtMost : Decimal → Candidates → Type 0
AtMost v = All (λ c. le v c.1 ≡ true)

-- The better of two candidates.
lower :
    (best c : Constraint × Decimal)
    → let next = if lt c.1 best.1 then c else best in
      (le next.1 best.1 ≡ true) × (le next.1 c.1 ≡ true)
lower best c = elim (Bool-cases (le best.1 c.1)) [
  | inl e ↦ rw e (le_refl best.1, e)
  | inr e ↦ rw e (le_total best.1 c.1 e, le_refl c.1)
]

least-AtMost :
    (best : Constraint × Decimal) (cs : Candidates)
    → (le (least best cs).1 best.1 ≡ true) × AtMost (least best cs).1 cs
unfolding least
least-AtMost best [] = (le_refl best.1, tt)
least-AtMost best (c ∷ cs) =
    let next = if lt c.1 best.1 then c else best in
    let (low, rest) = least-AtMost next cs in
    let (old, new) = lower best c in
    (le_trans _ next.1 best.1 low old, (le_trans _ next.1 c.1 low new, rest))

binding_AtMost : (cs : Candidates) → AtMost (binding_of cs).1 cs
unfolding binding_of
binding_AtMost [] = tt
binding_AtMost (c ∷ cs) = least-AtMost c cs

AtMost-suffix : (v : Decimal) (xs ys : Candidates) → AtMost v (xs ++ ys) → AtMost v ys
AtMost-suffix v [] ys h = h
AtMost-suffix v (x ∷ xs) ys h = AtMost-suffix v xs ys h.1

-- Whatever the method, the exposures are among what is selected.
select_suffix :
    (m : SizingMethod) (methods always selected : Candidates)
    → select m methods always ≡ ok selected
    → (front : Candidates) × (selected ≡ front ++ always)
unfolding select
select_suffix conservative_minimum methods always selected h = (methods, ground arith)
select_suffix m methods always selected h = elim (Option-cases (requested m methods)) [
  | inl e ↦ absurd (ground arith)
  | inr (v, e) ↦ ((by_method m, v) ∷ [], ground arith)
]

finish_accepted :
    (i : Inputs) (price amount : Decimal) (cs : Candidates) (b : Constraint) (capped : Decimal)
    → (finish i price amount cs b capped).accepted ≡ true
    → let z = finish i price amount cs b capped in
      (z.quantity ≡ lot_quantity i price capped)
      × (z.notional ≡ mul z.quantity price)
      × (lt zero_dec z.quantity ≡ true)
      × ((m : Decimal) → i.minimum_notional ≡ some m → le m z.notional ≡ true)
unfolding finish reject
finish_accepted i price amount cs b capped h =
    (ground arith, ground arith, ground arith, λ m e. ground arith)

-- The greatest whole number of lots that is not above a quantity; without lots, the quantity.
abbrev pub IsLots : Option Decimal → Decimal → Decimal → Type 0
IsLots none q z = z ≡ q
IsLots (some lot) q z =
    (n : Decimal) × (z ≡ mul n lot)
    × (n.places ≡ 0)
    × (le n (div q lot) ≡ true)
    × ((k : ℕ) → le (lit k 0) (div q lot) ≡ true → le (lit k 0) n ≡ true)

lot_quantity-IsLots :
    (i : Inputs) (price capped : Decimal)
    → IsLots i.lot_size (div capped price) (lot_quantity i price capped)
unfolding lot_quantity
lot_quantity-IsLots i price capped = of_lot i.lot_size refl
  where
    of_lot :
        (lot : Option Decimal)
        → i.lot_size ≡ lot
        → IsLots lot (div capped price) (lot_quantity (record i { lot_size = lot }) price capped)
    of_lot none e = refl
    of_lot (some lot) e =
        let q = div (div capped price) lot in
        (round_floor q, refl, round_floor-whole q, round_floor-le q, round_floor-greatest q)

-- What an accepted size is made of: the lots of a notional within the four exposure limits.
pub record Within (l : Limits) (g : Signal) (price : Decimal) (s : State) (i : Inputs) (z : Sizing)
    : Type 0 where
  pub capped : Decimal
  pub sized : IsLots i.lot_size (div capped price) z.quantity
  pub priced : z.notional ≡ mul z.quantity price
  pub positive : lt zero_dec z.quantity ≡ true
  pub worthwhile : (m : Decimal) → i.minimum_notional ≡ some m → le m z.notional ≡ true
  pub gross : le capped (headroom s l.maximum_gross_exposure s.gross_exposure) ≡ true
  pub leverage : le capped (headroom s l.maximum_leverage s.gross_exposure) ≡ true
  pub symbol : le capped (headroom s l.maximum_symbol_exposure (symbol_exposure s g)) ≡ true
  pub exchange : le capped (headroom s l.maximum_exchange_exposure (exchange_exposure s g)) ≡ true

size_from-Within :
    (l : Limits) (g : Signal) (price amount : Decimal) (s : State) (i : Inputs)
    (methods : Candidates) (z : Sizing)
    → size_from l i price amount methods (exposure_candidates l g s) ≡ ok z
    → z.accepted ≡ true
    → Within l g price s i z
unfolding size_from exposure_candidates
size_from-Within l g price amount s i methods z h a =
    let always = exposure_candidates l g s in
    let (selected, e, f) = >>=-eq-ok (select l.sizing_method methods always) _ h in
    let (front, split) = select_suffix l.sizing_method methods always selected e in
    let capped = (binding_of selected).1 in
    let all =
      AtMost-suffix capped front always
        (subst (λ cs. AtMost capped cs) split (binding_AtMost selected)) in
    let (sized, priced, positive, worthwhile) =
      finish_accepted i price amount (methods ++ always) (binding_of selected).0 capped
        (ap (λ (x : Sizing). x.accepted) (made z f) ∙ a) in
    subst (Within l g price s i) (made z f) (record {
      capped = capped;
      sized =
          subst (IsLots i.lot_size (div capped price)) (sym sized)
            (lot_quantity-IsLots i price capped);
      priced = priced;
      positive = positive;
      worthwhile = worthwhile;
      gross = all.0;
      leverage = all.1.0;
      symbol = all.1.1.0;
      exchange = all.1.1.1.0;
    })
  where
    made : {x : Sizing} (y : Sizing) → ok x ≡ ok y → x ≡ y
    made y e = cc

size_at_accepted :
    (l : Limits) (g : Signal) (price stop : Decimal) (s : State) (i : Inputs) (z : Sizing)
    → size_at l g price stop s i ≡ ok z
    → z.accepted ≡ true
    → size_from l i price
        (risk_amount l g s)
        (method_candidates l g s price stop i.atr i.annualized_volatility)
        (exposure_candidates l g s)
      ≡ ok z
unfolding size_at reject
size_at_accepted l g price stop s i z h a = ground arith

size_accepted :
    (l : Limits) (g : Signal) (price : Decimal) (s : State) (i : Inputs) (z : Sizing)
    → size l g price s i ≡ ok z
    → z.accepted ≡ true
    → (stop : Decimal) × (i.stop_price ≡ some stop) × (size_at l g price stop s i ≡ ok z)
unfolding size reject
size_accepted l g price s i z h a = elim (Option-cases i.stop_price) [
  | inl e ↦ absurd (ground arith)
  | inr (stop, e) ↦ (stop, e, ground arith)
]

-- Whatever the sizing method, there is a notional, at most what each of the four exposure limits
-- leaves, such that an accepted size is the greatest whole number of lots (without lots, the whole)
-- that is not above the quotient of that notional by the price, each quotient and product to 28
-- digits. The size is positive, and its product with the price is the notional that is returned,
-- which is at least the minimum notional.
pub size-Within :
    (l : Limits) (g : Signal) (price : Decimal) (s : State) (i : Inputs) (z : Sizing)
    → size l g price s i ≡ ok z
    → z.accepted ≡ true
    → Within l g price s i z
size-Within l g price s i z h a =
    let (stop, _, h') = size_accepted l g price s i z h a in
    size_from-Within l g price _ s i _ z (size_at_accepted l g price stop s i z h' a) a
