-- ===== src/Paper/Matching/LaterQuotes.antt =====
-- services/paper_trading/broker.py: which orders a quote can fill.
use crypt_tool.Base.{
  ◌≡◌, refl, Bool, if◌then◌else◌, true, ◌&&◌, ◌||◌, ltb, String, str_eq, Option, none, some, List,
  [], ◌∷◌, any, All, All-map_imp, eq_iff, arith, Bool-cases, if_both, inl, inr, ap, subst, ◌∙◌,
}
use crypt_tool.Base.Int.{ℤ, pos, ◌+ℤ◌, leb_ℤ, ltb_ℤ}
use crypt_tool.Base.Dict
use crypt_tool.Base.Results.{Result, ok, err, ◌>>=◌}
use crypt_tool.Decimal.{le, mul}
use crypt_tool.Decimal.Order.{min_dec-le}
use crypt_tool.Execution.Orders.{is_buy}
use crypt_tool.Paper.Models.{Order, Quote, Fill, check_fill, is_working, remaining_quantity}
use crypt_tool.Paper.Account.{Broker}
use crypt_tool.Paper.Matching.{
  on_quote, on_quote_after, use_quote, take_quote, fill_each, try_fill, execute, book, new_fill,
  fill_quantity, eligible, cons_some, after_try, quote_blocked,
}

-- The fill is of an order in the list, which was submitted before the quote.
abbrev pub Of : Quote → Fill → String × Order → Bool
Of q f (i, o) =
    str_eq f.client_order_id o.request.client_order_id
    && str_eq o.request.symbol q.symbol
    && ltb o.submitted_at q.timestamp
    && is_working o.status
    && le f.quantity (remaining_quantity o)

-- The fill carries the time of the quote and is of an order of the list.
abbrev pub Justified : Quote → List (String × Order) → Fill → Type 0
Justified q os f = (f.timestamp ≡ q.timestamp) × (any (Of q f) os ≡ true)

book-quantity :
    (b : Broker) (i : String) (o : Order) (q : Quote) (f : Fill) (c : Broker)
    → book b i o q ≡ (ok (some f), c)
    → f ≡ new_fill b o q
unfolding book check_fill
book-quantity b i o q f c e = ground arith

try_fill-new_fill :
    (b : Broker) (i : String) (o : Order) (q : Quote) (f : Fill) (c : Broker)
    → try_fill b i o q ≡ (ok (some f), c)
    → f ≡ new_fill b o q
unfolding try_fill execute
try_fill-new_fill b i o q f c e = ground (arith, book-quantity b i o q f c)

new_fill-Of :
    (b : Broker) (i : String) (o : Order) (q : Quote)
    → eligible o q ≡ true
    → Of q (new_fill b o q) (i, o) ≡ true
unfolding eligible new_fill fill_quantity
new_fill-Of b i o q h = ground (
  arith,
  eq_iff o.request.client_order_id o.request.client_order_id,
  min_dec-le (remaining_quantity o)
      (mul (if is_buy o.request.side then q.ask_size else q.bid_size) b.settings.max_participation),
)

abbrev AllOk : (Fill → Type 0) → Result (List Fill) → Type 0
AllOk P (ok fs) = All P fs
AllOk P (err e) = Unit

wider :
    (q : Quote) (e : String × Order) (os : List (String × Order)) (r : Result (List Fill))
    → AllOk (Justified q os) r
    → AllOk (Justified q (e ∷ os)) r
wider q e os (ok fs) h = All-map_imp (λ f k. (k.0, ground arith)) fs h
wider q e os (err x) h = tt

justified :
    (b : Broker) (q : Quote) (i : String) (o : Order) (os : List (String × Order)) (f : Fill)
    → eligible o q ≡ true
    → (try_fill b i o q).0 ≡ ok (some f)
    → Justified q ((i, o) ∷ os) f
unfolding new_fill
justified b q i o os f h e =
    let k = try_fill-new_fill b i o q f (try_fill b i o q).1 (ground arith) in
    let m = new_fill-Of b i o q h in
    (
      ap (λ (g : Fill). g.timestamp) k,
      ap (λ (g : Fill). Of q g (i, o) || any (Of q g) os) k ∙ ground arith,
    )

AllOk-cons_some :
    (P : Fill → Type 0) (found : Option Fill) (r : Result (List Fill))
    → ((f : Fill) → found ≡ some f → P f)
    → AllOk P r
    → AllOk P (r >>= λ fs. ok (cons_some found fs))
AllOk-cons_some P found (err e) h k = tt
AllOk-cons_some P none (ok fs) h k = k
AllOk-cons_some P (some f) (ok fs) h k = (h f refl, k)

after_try-AllOk :
    (P : Fill → Type 0) (x : Result (Option Fill) × Broker)
    (others : Broker → Result (List Fill) × Broker)
    → ((f : Fill) → x.0 ≡ ok (some f) → P f)
    → ((c : Broker) → AllOk P (others c).0)
    → AllOk P (after_try x others).0
unfolding after_try
after_try-AllOk P (err e, b) others h k = tt
after_try-AllOk P (ok found, b) others h k =
    AllOk-cons_some P found (others b).0 (λ f e. h f (ap ok e)) (k b)

fill_each-Justified :
    (b : Broker) (q : Quote) (os : List (String × Order))
    → AllOk (Justified q os) (fill_each b q os).0
unfolding fill_each
fill_each-Justified b q [] = tt
fill_each-Justified b q ((i, o) ∷ os) = elim (Bool-cases (eligible o q)) [
  | inl h ↦
      rw (h, AllOk)
        (after_try-AllOk (Justified q ((i, o) ∷ os)) (try_fill b i o q) (λ c. fill_each c q os)
          (λ f e. justified b q i o os f h e)
          (λ c. wider q (i, o) os (fill_each c q os).0 (fill_each-Justified c q os)))
  | inr h ↦ rw (h, AllOk) (wider q (i, o) os (fill_each b q os).0 (fill_each-Justified b q os))
]

use_quote-Justified : (b : Broker) (q : Quote) → AllOk (Justified q b.orders) (use_quote b q).0
unfolding use_quote take_quote
use_quote-Justified b q =
    if_both (λ (x : Result (List Fill) × Broker). AllOk (Justified q b.orders) x.0)
      (quote_blocked (take_quote b q) q) tt (fill_each-Justified (take_quote b q) q b.orders)

on_quote_after-Justified :
    (b : Broker) (q : Quote) (m n : Option ℤ)
    → AllOk (Justified q b.orders) (on_quote_after m n b q).0
unfolding on_quote_after
on_quote_after-Justified b q none n = use_quote-Justified b q
on_quote_after-Justified b q (some x) none = use_quote-Justified b q
on_quote_after-Justified b q (some x) (some y) =
    if_both (λ (z : Result (List Fill) × Broker). AllOk (Justified q b.orders) z.0) (leb_ℤ x y) tt
      (if_both (λ (z : Result (List Fill) × Broker). AllOk (Justified q b.orders) z.0)
        (ltb_ℤ (y +ℤ pos 1) x) tt (use_quote-Justified b q))

-- Each fill that a quote makes carries the quote's time, is of an order that the broker held,
-- for the quote's symbol, still working and submitted strictly before the quote, and is within
-- what remained of that order.
pub on_quote-Justified :
    (b : Broker) (q : Quote) (fs : List Fill) (c : Broker)
    → on_quote b q ≡ (ok fs, c)
    → All (Justified q b.orders) fs
unfolding on_quote
on_quote-Justified b q fs c e =
    subst (λ (x : Result (List Fill) × Broker). AllOk (Justified q b.orders) x.0) e
      (on_quote_after-Justified b q q.sequence (Dict.get q.symbol b.last_sequence))
