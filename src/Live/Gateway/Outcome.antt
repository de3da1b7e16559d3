-- ===== src/Live/Gateway/Outcome.antt =====
-- services/live_trading/gateway.py: how a call of `place_order` may end, and how its parts follow
-- one another.
use crypt_tool.Base.{
  ℕ, ◌≡◌, refl, sym, ◌∙◌, ap, subst, ◌⊎◌, inl, inr, Bool, true, false, String, str_eq, eq_iff,
  Option, none, some, List, [], ◌∷◌, if◌then◌else◌, if_both, arith,
}
use crypt_tool.Base.Dict
use crypt_tool.Base.Results.{Exception, Result, ok, err}
use crypt_tool.Live.Orders.{Request, Ack}
use crypt_tool.Live.Exchange.{Method}
use crypt_tool.Live.Gateway.{
  Config, Gateway, Call, ◌>>=◌, ◌>>◌, then_do, or_handle, pure, raise, catch, await, audit,
  reject_and_remember, rejection,
}
use crypt_tool.Live.Gateway.Validation.Orders.{is_set}
use crypt_tool.Live.Gateway.Place.{Progress, returned, goes_on}
use crypt_tool.Live.Gateway.Frame.{Frame, Frame-refl, Frame-trans, Keeps}
pub mod Rules
pub mod Checks
pub mod Phases
pub mod Placed

-- The receipt of a key, if it has one.
abbrev pub receipt : {W : Type 0} → String → Gateway W → Option Ack
receipt k g = Dict.get k g.idempotent_receipts

-- No receipt is lost or changed.
abbrev pub Grows : {W : Type 0} → Gateway W → Gateway W → Type 0
Grows g h = (k : String) (a : Ack) → receipt k g ≡ some a → receipt k h ≡ some a

-- The request was handed to the adapter, once and under `P`, or nothing was.
abbrev pub Sends : {W : Type 0} → Request → Type 0 → Gateway W → Gateway W → Type 0
Sends r P g h = (h.sent ≡ g.sent) ⊎ ((h.sent ≡ r ∷ g.sent) × P)

-- What is returned is the receipt of the key; what raises leaves the receipts.
abbrev pub Answers : {W : Type 0} → Request → Gateway W → Result Ack → Gateway W → Type 0
Answers r g (ok a) h = receipt r.idempotency_key h ≡ some a
Answers r g (err e) h = h.idempotent_receipts ≡ g.idempotent_receipts

pub record Outcome {W : Type 0} (r : Request) (P : Type 0) (g : Gateway W) (res : Result Ack)
    (h : Gateway W) : Type 0 where
  pub killed : is_set g.kill_switch_reason ≡ true → is_set h.kill_switch_reason ≡ true
  pub sends : Sends r P g h
  pub grows : Grows g h
  pub answers : Answers r g res h

-- How a part ends: with an outcome, or with `X` known and nothing changed.
abbrev pub Reaches :
    {W : Type 0}
    → Config W
    → Request
    → Type 0
    → Type 0
    → Gateway W
    → Result Progress
    → Gateway W
    → Type 0
Reaches c r P X g (err e) h = Outcome r P g (err e) h
Reaches c r P X g (ok (returned a)) h = Outcome r P g (ok a) h
Reaches c r P X g (ok goes_on) h = Frame c g h × X

module _ {W : Type 0} {c : Config W} where
  pub Frame-Grows : {g h : Gateway W} → Frame c g h → Grows g h
  Frame-Grows f k a e = subst (λ d. Dict.get k d ≡ some a) (sym f.receipts) e

  pub Frame-Sends :
      (f g h : Gateway W) (r : Request) (P : Type 0) → Frame c f g → Sends r P g h → Sends r P f h
  Frame-Sends f g h r P i (inl e) = inl (e ∙ i.unsent)
  Frame-Sends f g h r P i (inr (e, p)) = inr (e ∙ ap (λ (rs : List Request). r ∷ rs) i.unsent, p)

  pub Sends-Frame :
      (f g h : Gateway W) (r : Request) (P : Type 0) → Sends r P f g → Frame c g h → Sends r P f h
  Sends-Frame f g h r P (inl e) i = inl (i.unsent ∙ e)
  Sends-Frame f g h r P (inr (e, p)) i = inr (i.unsent ∙ e, p)

  pub Frame-Answers :
      (f g h : Gateway W) (r : Request) (res : Result Ack)
      → Frame c f g
      → Answers r g res h
      → Answers r f res h
  Frame-Answers f g h r (ok a) i e = e
  Frame-Answers f g h r (err x) i e = e ∙ i.receipts

  pub Frame-Outcome :
      (f g h : Gateway W) (r : Request) (P : Type 0) (res : Result Ack)
      → Frame c f g
      → Outcome r P g res h
      → Outcome r P f res h
  Frame-Outcome f g h r P res i o = record {
    killed = λ k. o.killed (i.killed k);
    sends = Frame-Sends f g h r P i o.sends;
    grows = λ k a e. o.grows k a (Frame-Grows i k a e);
    answers = Frame-Answers f g h r res i o.answers;
  }

  pub Frame-raises :
      {g h : Gateway W} (r : Request) (P : Type 0) (e : Exception)
      → Frame c g h
      → Outcome r P g (err e) h
  Frame-raises r P e f = record {
    killed = f.killed;
    sends = inl f.unsent;
    grows = Frame-Grows f;
    answers = f.receipts;
  }

  -- After what raises, more may be done that raises.
  pub raises-Frame :
      (f g h : Gateway W) (r : Request) (P : Type 0) (e x : Exception)
      → Outcome r P f (err e) g
      → Frame c g h
      → Outcome r P f (err x) h
  raises-Frame f g h r P e x o i = record {
    killed = λ k. i.killed (o.killed k);
    sends = Sends-Frame f g h r P o.sends i;
    grows = λ k a j. Frame-Grows i k a (o.grows k a j);
    answers = i.receipts ∙ o.answers;
  }

  pub Frame-Reaches :
      (f g h : Gateway W) (r : Request) (P X : Type 0) (res : Result Progress)
      → Frame c f g
      → Reaches c r P X g res h
      → Reaches c r P X f res h
  Frame-Reaches f g h r P X (err e) i o = Frame-Outcome f g h r P (err e) i o
  Frame-Reaches f g h r P X (ok (returned a)) i o = Frame-Outcome f g h r P (ok a) i o
  Frame-Reaches f g h r P X (ok goes_on) i (j, x) = (Frame-trans i j, x)
