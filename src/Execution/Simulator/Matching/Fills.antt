-- ===== src/Execution/Simulator/Matching/Fills.antt =====
-- domain/execution/simulator.py: what is true of every fill that a turn of the loop produces.
use crypt_tool.Base.{
  ℕ, suc, ◌<◌, ◌≡◌, refl, ◌∙◌, subst, ◌⊎◌, inl, inr, true, false, Option, none, some, arith,
}
use crypt_tool.Base.Results.{Result, ok, err}
use crypt_tool.Decimal.{Decimal, zero_dec, le, lt}
use crypt_tool.Decimal.Order.{le_refl}
use crypt_tool.Execution.Orders.{
  buy, sell, fok, maker, terminal, Rules, Snapshot, Order, record_fill, Fill, check_fill,
}
use crypt_tool.Execution.Simulator.{
  Config, Match, is_marketable, beyond_limit, taker_match, taker_details, maker_match,
  maker_details, match_details, make_fill,
}
use crypt_tool.Execution.Simulator.Matching.{
  Callbacks, has_expired, book, fill_order, settle, attempt, match_order, cap_of,
}

-- A fill of the order at the snapshot: causal, of a live order, and within what remains.
pub record Sound (o : Order) (s : Snapshot) (f : Fill) : Type 0 where
  pub later : o.submitted_at < s.timestamp
  pub dated : f.filled_at ≡ s.timestamp
  pub owner : f.order_id ≡ o.order_id
  pub alive : terminal o.status ≡ false
  pub unexpired : has_expired o s.timestamp ≡ false
  pub positive : lt zero_dec f.quantity ≡ true
  pub within : le f.quantity o.remaining_quantity ≡ true
  pub whole : o.time_in_force ≡ fok → le o.remaining_quantity f.quantity ≡ true

pub make_fill_fields :
    (o : Order) (s : Snapshot) (r : Rules) (n : ℕ) (m : Match) (f : Fill)
    → make_fill o s r n m ≡ ok f
    → (f.quantity ≡ m.quantity)
      × (f.price ≡ m.price)
      × (f.liquidity ≡ m.liquidity)
      × (f.filled_at ≡ s.timestamp)
      × (f.order_id ≡ o.order_id)
      × (f.fill_id ≡ n)
      × (o.submitted_at < s.timestamp)
unfolding make_fill check_fill
make_fill_fields o s r n m f h = ground arith

-- What has passed the guards of `settle` for the match `k`.
abbrev Settled : ℕ → Snapshot → Rules → Order → Match → Fill → Type 0
Settled n s r o k f =
    (make_fill o s r (suc n) k ≡ ok f)
    × (o.time_in_force ≡ fok → le o.remaining_quantity k.quantity ≡ true)
    × (terminal o.status ≡ false)
    × (lt zero_dec f.quantity ≡ true)
    × (le f.quantity o.remaining_quantity ≡ true)

module _ {W : Type 0} (calls : Callbacks W) where
  fill_order_cases :
      (w : W) (n : ℕ) (o : Order) (r : Result Fill) (f : Fill)
      → (fill_order calls w n o r).produced ≡ some f
      → (r ≡ ok f)
        × (terminal o.status ≡ false)
        × (lt zero_dec f.quantity ≡ true)
        × (le f.quantity o.remaining_quantity ≡ true)
  unfolding fill_order book record_fill
  fill_order_cases w n o r f h = ground arith

  settle_match :
      (w : W) (n : ℕ) (s : Snapshot) (r : Rules) (o : Order) (k : Match) (f : Fill)
      → (settle calls w n s r o (ok (some k))).produced ≡ some f
      → Settled n s r o k f
  unfolding settle
  settle_match w n s r o k f h =
      ground (arith, fill_order_cases w (suc n) o (make_fill o s r (suc n) k) f)

  settle_cases :
      (w : W) (n : ℕ) (s : Snapshot) (r : Rules) (o : Order) (m : Result (Option Match)) (f : Fill)
      → (settle calls w n s r o m).produced ≡ some f
      → (k : Match) × (m ≡ ok (some k)) × (Settled n s r o k f)
  unfolding settle
  settle_cases w n s r o (err e) f h = ground arith
  settle_cases w n s r o (ok none) f h = ground arith
  settle_cases w n s r o (ok (some k)) f h = (k, refl, settle_match w n s r o k f h)

-- The price of a match is on the right side of the order's limit.
pub record Priced (o : Order) (price : Decimal) : Type 0 where
  pub buys : (p : Decimal) → o.limit_price ≡ some p → o.side ≡ buy → le price p ≡ true
  pub sells : (p : Decimal) → o.limit_price ≡ some p → o.side ≡ sell → le p price ≡ true

beyond_limit-Priced : (o : Order) (price : Decimal) → beyond_limit o price ≡ false → Priced o price
unfolding beyond_limit
beyond_limit-Priced o price h = record {
  buys = λ p e b. ground arith;
  sells = λ p e b. ground arith;
}

taker_price :
    (c : Config) (o : Order) (s : Snapshot) (r : Rules) (capacity : Decimal) (k : Match)
    → taker_details c o s r capacity ≡ ok (some k)
    → beyond_limit o k.price ≡ false
unfolding taker_details taker_match
taker_price c o s r capacity k h = ground arith

maker_price :
    (c : Config) (o : Order) (s : Snapshot) (r : Rules) (capacity : Decimal) (k : Match)
    → maker_details c o s r capacity ≡ some k
    → (o.limit_price ≡ some k.price) × (k.liquidity ≡ maker)
unfolding maker_details maker_match
maker_price c o s r capacity k h = ground arith

limit-Priced : (o : Order) (price : Decimal) → o.limit_price ≡ some price → Priced o price
limit-Priced o price h = record {
  buys = λ p e b. ground (arith, le_refl price);
  sells = λ p e b. ground (arith, le_refl price);
}

-- How `match_details` comes to a match.
match_details_cases :
    (c : Config) (o o' : Order) (s : Snapshot) (r : Rules) (capacity : Decimal) (k : Match)
    → match_details c o s r capacity ≡ (ok (some k), o')
    → (o' ≡ o)
      × (((taker_details c o s r capacity ≡ ok (some k)) × (o.post_only ≡ false))
          ⊎ (maker_details c o s r capacity ≡ some k))
unfolding match_details is_marketable
match_details_cases c o o' s r capacity k h = ground arith

pub record Quoted (o : Order) (f : Fill) : Type 0 where
  pub priced : Priced o f.price
  pub passive : o.post_only ≡ true → f.liquidity ≡ maker

match_details-Quoted :
    (c : Config) (o o' : Order) (s : Snapshot) (r : Rules) (capacity : Decimal) (k : Match)
    (f : Fill)
    → match_details c o s r capacity ≡ (ok (some k), o')
    → f.price ≡ k.price
    → f.liquidity ≡ k.liquidity
    → Quoted o f
match_details-Quoted c o o' s r capacity k f h e l =
    elim (match_details_cases c o o' s r capacity k h).1 [
      | inl (t, q) ↦ record {
        priced = rw e (beyond_limit-Priced o k.price (taker_price c o s r capacity k t));
        passive = λ p. cc;
      }
      | inr m ↦ record {
        priced = rw e (limit-Priced o k.price (maker_price c o s r capacity k m).0);
        passive = λ _. l ∙ (maker_price c o s r capacity k m).1;
      }
    ]

module _ {W : Type 0} (calls : Callbacks W) where
  attempt_settles :
      (c : Config) (w : W) (n : ℕ) (s : Snapshot) (r : Rules) (o : Order) (capacity : Decimal)
      (f : Fill)
      → (attempt calls c w n s r o capacity).produced ≡ some f
      → let found = match_details c o s r capacity in
        (settle calls w n s r found.1 found.0).produced ≡ some f
  unfolding attempt
  attempt_settles c w n s r o capacity f h = ground arith

  attempt_lem :
      (c : Config) (w : W) (n : ℕ) (s : Snapshot) (r : Rules) (o : Order) (capacity : Decimal)
      (f : Fill)
      → (attempt calls c w n s r o capacity).produced ≡ some f
      → (k : Match) × (match_details c o s r capacity ≡ (ok (some k), o)) × (Settled n s r o k f)
  attempt_lem c w n s r o capacity f h =
      let found = match_details c o s r capacity in
      let (k, e, z) =
        settle_cases calls w n s r found.1 found.0 f (attempt_settles c w n s r o capacity f h) in
      let whole : found ≡ (ok (some k), found.1) = λ i. (e i, found.1) in
      let back : found.1 ≡ o = (match_details_cases c o found.1 s r capacity k whole).0 in
      (k, λ i. (e i, back i), subst (λ x. Settled n s r x k f) back z)

  match_order_attempts :
      (c : Config) (w : W) (n : ℕ) (s : Snapshot) (r : Rules) (o : Order) (f : Fill)
      → (match_order calls c w n s r o).produced ≡ some f
      → (terminal o.status ≡ false)
        × (o.submitted_at < s.timestamp)
        × (has_expired o s.timestamp ≡ false)
        × ((attempt calls c w n s r o (cap_of calls w o)).produced ≡ some f)
  unfolding match_order
  match_order_attempts c w n s r o f h = ground arith

  match_order-Settled :
      (c : Config) (w : W) (n : ℕ) (s : Snapshot) (r : Rules) (o : Order) (f : Fill)
      → (match_order calls c w n s r o).produced ≡ some f
      → (k : Match) × (match_details c o s r (cap_of calls w o) ≡ (ok (some k), o))
        × (Settled n s r o k f)
  match_order-Settled c w n s r o f h =
      attempt_lem c w n s r o (cap_of calls w o) f (match_order_attempts c w n s r o f h).3

  -- Every fill that is produced comes from a live, unexpired order submitted strictly before the
  -- snapshot, has a positive quantity within what remains, and the whole of it for fill-or-kill.
  pub match_order-Sound :
      (c : Config) (w : W) (n : ℕ) (s : Snapshot) (r : Rules) (o : Order) (f : Fill)
      → (match_order calls c w n s r o).produced ≡ some f
      → Sound o s f
  match_order-Sound c w n s r o f h =
      let (k, _, z) = match_order-Settled c w n s r o f h in
      ground (arith, match_order_attempts c w n s r o f h, make_fill_fields o s r (suc n) k f z.0)

  -- Every fill keeps to the order's limit price, and a post-only order is filled as a maker.
  pub match_order-Quoted :
      (c : Config) (w : W) (n : ℕ) (s : Snapshot) (r : Rules) (o : Order) (f : Fill)
      → (match_order calls c w n s r o).produced ≡ some f
      → Quoted o f
  match_order-Quoted c w n s r o f h =
      let (k, e, z) = match_order-Settled c w n s r o f h in
      let fields = make_fill_fields o s r (suc n) k f z.0 in
      match_details-Quoted c o o s r (cap_of calls w o) k f e fields.1 fields.2
