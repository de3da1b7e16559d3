-- ===== src/Live/Gateway/Outcome/Checks.antt =====
-- services/live_trading/gateway.py: how `place_order` refuses, and what it has read from the
-- exchange before it submits.
use crypt_tool.Base.{
  ℕ, ◌≡◌, ◌<◌, refl, inl, true, false, String, eq_iff, Option, none, some, List, if◌then◌else◌,
  arith, leb, length,
}
use crypt_tool.Base.Dict
use crypt_tool.Base.Results.{ok}
use crypt_tool.Decimal.{lt, abs}
use crypt_tool.Live.Orders.{Request, Ack}
use crypt_tool.Live.Exchange.{World, OpenOrder, LivePosition}
use crypt_tool.Live.Gateway.{Config, Gateway, ◌>>=◌, pure, audit, reject_and_remember, rejection}
use crypt_tool.Live.Gateway.Validation.Orders.{is_set}
use crypt_tool.Live.Gateway.Place.{
  returned, position_of, closes, reduce_only_failure, reduce_only_phase, abort_and_reject,
  position_phase, check_phase, quantity_or_zero,
}
use crypt_tool.Live.Gateway.Worlds.{Passes, positions_read, orders_read}
use crypt_tool.Live.Gateway.Frame.{await-Keeps}
use crypt_tool.Live.Gateway.Frame.Bindings.{abort_preflight-Keeps, record_position_snapshot-Keeps}
use crypt_tool.Live.Gateway.Outcome.{receipt, Grows, Outcome}
use crypt_tool.Live.Gateway.Outcome.Rules.{
  IsNew, Places, Parts, known-Parts, first-Parts, if-Parts, goes_on-Parts, returned-Parts,
}

module _ {W : Type 0} (from : Gateway W) (r : Request) (P : Type 0) where
  put-Grows :
      (a : Ack) (g h : Gateway W)
      → receipt r.idempotency_key g ≡ none
      → h.idempotent_receipts ≡ Dict.put r.idempotency_key a g.idempotent_receipts
      → Grows g h
  put-Grows a g h n e k b i =
      ground (
        arith,
        eq_iff r.idempotency_key k,
        Dict.get-put r.idempotency_key k a g.idempotent_receipts,
      )

  -- A new order is answered by a receipt of its key.
  pub answered_outcome :
      {c : Config W} (a : Ack) (g h : Gateway W)
      → IsNew c from r g
      → (is_set g.kill_switch_reason ≡ true → is_set h.kill_switch_reason ≡ true)
      → h.sent ≡ g.sent
      → h.idempotent_receipts ≡ Dict.put r.idempotency_key a g.idempotent_receipts
      → Outcome r P g (ok a) h
  answered_outcome a g h n i j e = record {
    killed = i;
    sends = inl j;
    grows = put-Grows a g h n.unknown e;
    answers = ground (
      arith,
      eq_iff r.idempotency_key r.idempotency_key,
      Dict.get-put r.idempotency_key r.idempotency_key a g.idempotent_receipts,
    );
  }

  pub reject-Places :
      (c : Config W) (now : ℕ) (reason : String)
      → Places c from r P (reject_and_remember c r now reason)
  unfolding reject_and_remember audit
  reject-Places c now reason = record {
    places = λ g n. answered_outcome (rejection r now reason) g _ n (λ k. k) refl refl;
  }

  pub give_up-Parts :
      (X : Type 0) (c : Config W) (now : ℕ) (reason : String)
      → Parts c from r P X (reject_and_remember c r now reason >>= λ a. pure (returned a))
  give_up-Parts X c now reason = returned-Parts from r P X (reject-Places c now reason)

  pub abort_and_reject-Parts :
      (X : Type 0) (c : Config W) (now : ℕ) (reasons : String × String)
      → Parts c from r P X (abort_and_reject c r now reasons)
  unfolding abort_and_reject
  abort_and_reject-Parts X c now (for_binding, for_receipt) =
      first-Parts from r P X (abort_preflight-Keeps r now for_binding)
        (λ u. give_up-Parts X c now for_receipt)

-- What the exchange answered in the course of the call: an open position that the order reduces, and
-- does not turn over.
pub record Reduces {W : Type 0} (c : Config W) (v : World W) (r : Request) : Type 0 where
  pub before : World W
  pub passes : Passes c v before
  pub positions : List LivePosition
  pub read : (c.adapter.fetch_positions before).0 ≡ ok positions
  pub position : LivePosition
  pub first : position_of r positions ≡ some position
  pub closing : closes r position.quantity ≡ true
  pub within : lt (abs position.quantity) r.quantity ≡ false

-- What the exchange answered in the course of the call, which began in the world `v`.
pub record IsChecked {W : Type 0} (c : Config W) (v : World W) (r : Request) : Type 0 where
  pub before : World W
  pub passes : Passes c v before
  pub open_orders : List OpenOrder
  pub read : (c.adapter.fetch_open_orders none before).0 ≡ ok open_orders
  pub few : length open_orders < c.settings.maximum_open_orders
  pub reduces : r.reduce_only ≡ true → Reduces c v r

reduces_position :
    {W : Type 0} (c : Config W) (v : World W) (r : Request) (w : World W) (ps : List LivePosition)
    (p : Option LivePosition)
    → Passes c v w
    → (c.adapter.fetch_positions w).0 ≡ ok ps
    → position_of r ps ≡ p
    → reduce_only_failure r p ≡ none
    → Reduces c v r
unfolding reduce_only_failure
reduces_position c v r w ps none b h i e = cc
reduces_position c v r w ps (some p) b h i e = record {
  before = w;
  passes = b;
  positions = ps;
  read = h;
  position = p;
  first = i;
  closing = ground arith;
  within = ground arith;
}

module _ {W : Type 0} (from : Gateway W) (r : Request) (P : Type 0) (c : Config W) where
  reduce_only-Parts :
      (X : Type 0) (now : ℕ) (o : Option (String × String))
      → (o ≡ none → X)
      → Parts c from r P X (reduce_only_phase c r now o)
  reduce_only-Parts X now none x = goes_on-Parts from r P X (x refl)
  reduce_only-Parts X now (some reasons) x = abort_and_reject-Parts from r P X c now reasons

  position-Parts :
      (X : Type 0) (now : ℕ)
      → ((r.reduce_only ≡ true → Reduces c from.world r) → X)
      → Parts c from r P X (position_phase c r now)
  unfolding position_phase
  position-Parts X now x =
      known-Parts from r P X (await-Keeps c.adapter.fetch_positions (λ w. positions_read))
        (λ ps g n h.
          first-Parts from r P X
            (record_position_snapshot-Keeps r now (quantity_or_zero (position_of r ps)))
            (λ u.
              reduce_only-Parts X now
                (if r.reduce_only then reduce_only_failure r (position_of r ps) else none)
                (λ e. x (λ i.
                  reduces_position c from.world r g.world ps (position_of r ps) n.passes h refl
                    ground arith))))

  pub check-Parts : (now : ℕ) → Parts c from r P (IsChecked c from.world r) (check_phase c r now)
  unfolding check_phase
  check-Parts now =
      known-Parts from r P _
        (await-Keeps (c.adapter.fetch_open_orders none) (λ w. orders_read none))
        (λ os g n h.
          if-Parts from r P _ (leb c.settings.maximum_open_orders (length os))
            (λ e. abort_and_reject-Parts from r P _ c now _)
            (λ e. position-Parts _ now (λ reduces. record {
              before = g.world;
              passes = n.passes;
              open_orders = os;
              read = h;
              few = ground arith;
              reduces = reduces;
            })))
