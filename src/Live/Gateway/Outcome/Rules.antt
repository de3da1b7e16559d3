-- ===== src/Live/Gateway/Outcome/Rules.antt =====
-- services/live_trading/gateway.py: how the outcome of a call follows from those of its parts.
use crypt_tool.Base.{◌≡◌, refl, sym, subst, Bool, true, false, none, if◌then◌else◌}
use crypt_tool.Base.Dict
use crypt_tool.Base.Results.{Exception, Result, ok, err}
use crypt_tool.Live.Orders.{Request, Ack}
use crypt_tool.Live.Gateway.{Config, Gateway, Call, ◌>>=◌, then_do, or_handle, pure, raise, catch}
use crypt_tool.Live.Gateway.Validation.Orders.{is_set}
use crypt_tool.Live.Gateway.Place.{Progress, returned, goes_on}
use crypt_tool.Live.Gateway.Worlds.{Passes, Passes-trans}
use crypt_tool.Live.Gateway.Frame.{Frame, Frame-refl, Keeps, frame_rules, >>=-Keeps}
use crypt_tool.Live.Gateway.Outcome.{
  receipt, Outcome, Reaches, Frame-Outcome, Frame-raises, raises-Frame, Frame-Reaches,
}

-- A state of a call that places a new order: a kill switch that was set when the call began is set,
-- the key has no receipt, and the world is one that the call has led to.
pub record IsNew {W : Type 0} (c : Config W) (from : Gateway W) (r : Request) (g : Gateway W)
    : Type 0 where
  pub killed : is_set from.kill_switch_reason ≡ true → is_set g.kill_switch_reason ≡ true
  pub unknown : receipt r.idempotency_key g ≡ none
  pub passes : Passes c from.world g.world

-- Every call of `m` for a new order has an outcome.
pub record Places {W : Type 0} (c : Config W) (from : Gateway W) (r : Request) (P : Type 0)
    (m : Call W Ack) : Type 0 where
  pub places : (g : Gateway W) → IsNew c from r g → Outcome r P g (m g).0 (m g).1

pub record Parts {W : Type 0} (c : Config W) (from : Gateway W) (r : Request) (P X : Type 0)
    (m : Call W Progress) : Type 0 where
  pub parts : (g : Gateway W) → IsNew c from r g → Reaches c r P X g (m g).0 (m g).1

-- A call that raises whatever happens.
pub record Fails {W A : Type 0} (c : Config W) (m : Call W A) : Type 0 where
  pub keeps : Keeps c m
  pub fails : (g : Gateway W) → (e : Exception) × ((m g).0 ≡ err e)

module _ {W : Type 0} {c : Config W} where
  Frame-IsNew :
      {g h : Gateway W} (from : Gateway W) (r : Request)
      → Frame c g h
      → IsNew c from r g
      → IsNew c from r h
  Frame-IsNew from r f n = record {
    killed = λ k. f.killed (n.killed k);
    passes = Passes-trans n.passes f.passes;
    unknown = subst (λ d. Dict.get r.idempotency_key d ≡ none) (sym f.receipts) n.unknown;
  }

  pub raise-Fails : {A : Type 0} (e : Exception) → Fails {A = A} c (raise e)
  raise-Fails e = record { keeps = search frame_rules depth 4; fails = λ g. (e, refl) }

  pub >>=-Fails :
      {A B : Type 0} {m : Call W A} {f : A → Call W B}
      → Keeps c m
      → ((a : A) → Fails c (f a))
      → Fails c (m >>= f)
  >>=-Fails {m = m} {f = f} p q = record {
    keeps = >>=-Keeps p (λ a. (q a).keeps);
    fails = λ g. elim (m g).0 as (λ x. (e : Exception) × ((then_do x f (m g).1).0 ≡ err e)) [
      | ok a ↦ (q a).fails (m g).1
      | err e ↦ (e, refl)
    ];
  }

module _ {W : Type 0} {c : Config W} (from : Gateway W) (r : Request) (P X : Type 0) where
  reached_after :
      {A : Type 0} {f : A → Call W Progress} (g h : Gateway W) (x : Result A)
      → Frame c g h
      → IsNew c from r g
      → ((a : A) → x ≡ ok a → Parts c from r P X (f a))
      → Reaches c r P X g (then_do x f h).0 (then_do x f h).1
  reached_after {f = f} g h (ok a) i n q =
      Frame-Reaches g h (f a h).1 r P X (f a h).0 i ((q a refl).parts h (Frame-IsNew from r i n))
  reached_after g h (err e) i n q = Frame-raises r P e i

  -- First a step that keeps all, whose result is known.
  pub known-Parts :
      {A : Type 0} {m : Call W A} {f : A → Call W Progress}
      → Keeps c m
      → ((a : A) (g : Gateway W) → IsNew c from r g → (m g).0 ≡ ok a → Parts c from r P X (f a))
      → Parts c from r P X (m >>= f)
  known-Parts {m = m} {f = f} p q = record {
    parts = λ g n. reached_after {f = f} g (m g).1 (m g).0 (p.keeps g) n (λ a e. q a g n e);
  }

  pub first-Parts :
      {A : Type 0} {m : Call W A} {f : A → Call W Progress}
      → Keeps c m
      → ((a : A) → Parts c from r P X (f a))
      → Parts c from r P X (m >>= f)
  first-Parts {m = m} {f = f} p q = known-Parts {m = m} {f = f} p (λ a g n e. q a)

  pub if-Parts :
      (b : Bool) {m k : Call W Progress}
      → (b ≡ true → Parts c from r P X m)
      → (b ≡ false → Parts c from r P X k)
      → Parts c from r P X (if b then m else k)
  if-Parts true p q = p refl
  if-Parts false p q = q refl

  pub goes_on-Parts : X → Parts c from r P X (pure goes_on)
  goes_on-Parts x = record { parts = λ g n. (Frame-refl g, x) }

  pub returned-Parts :
      {m : Call W Ack} → Places c from r P m → Parts c from r P X (m >>= λ a. pure (returned a))
  returned-Parts {m = m} p = record {
    parts = λ g n. returned_reaches g (m g).1 (m g).0 (p.places g n);
  }
    where
      returned_reaches :
          (g h : Gateway W) (x : Result Ack)
          → Outcome r P g x h
          → Reaches c r P X g
              (then_do x (λ a. pure (returned a)) h).0
              (then_do x (λ a. pure (returned a)) h).1
      returned_reaches g h (ok a) o = o
      returned_reaches g h (err e) o = o

  handled_part :
      {handler : Exception → Call W Progress} (g h : Gateway W) (x : Result Progress)
      → ((e : Exception) → Fails c (handler e))
      → Reaches c r P X g x h
      → Reaches c r P X g (or_handle x handler h).0 (or_handle x handler h).1
  handled_part g h (ok (returned a)) q o = o
  handled_part g h (ok goes_on) q o = o
  handled_part {handler = handler} g h (err e) q o =
      subst (λ x. Reaches c r P X g x (handler e h).1) (sym ((q e).fails h).1)
        (raises-Frame g h (handler e h).1 r P e ((q e).fails h).0 o ((q e).keeps.keeps h))

  pub catch-Parts :
      {m : Call W Progress} {handler : Exception → Call W Progress}
      → Parts c from r P X m
      → ((e : Exception) → Fails c (handler e))
      → Parts c from r P X (catch m handler)
  catch-Parts {m = m} {handler = handler} p q = record {
    parts = λ g n. handled_part {handler = handler} g (m g).1 (m g).0 q (p.parts g n);
  }

  then_places :
      (f : Progress → Call W Ack) (g h : Gateway W) (x : Result Progress)
      → IsNew c from r g
      → (X → Places c from r P (f goes_on))
      → ((a : Ack) → f (returned a) ≡ pure a)
      → Reaches c r P X g x h
      → Outcome r P g (then_do x f h).0 (then_do x f h).1
  then_places f g h (err e) n q s o = o
  then_places f g h (ok (returned a)) n q s o =
      subst (λ (k : Call W Ack). Outcome r P g (k h).0 (k h).1) (sym (s a)) o
  then_places f g h (ok goes_on) n q s (i, x) =
      Frame-Outcome g h (f goes_on h).1 r P (f goes_on h).0 i
        ((q x).places h (Frame-IsNew from r i n))

  pub Parts-Places :
      {m : Call W Progress} (f : Progress → Call W Ack)
      → Parts c from r P X m
      → (X → Places c from r P (f goes_on))
      → ((a : Ack) → f (returned a) ≡ pure a)
      → Places c from r P (m >>= f)
  Parts-Places {m = m} f p q s = record {
    places = λ g n. then_places f g (m g).1 (m g).0 n q s (p.parts g n);
  }

module _ {W : Type 0} {c : Config W} (from : Gateway W) (r : Request) (P : Type 0) where
  placed_after :
      {A : Type 0} {f : A → Call W Ack} (g h : Gateway W) (x : Result A)
      → Frame c g h
      → IsNew c from r g
      → ((a : A) → x ≡ ok a → Places c from r P (f a))
      → Outcome r P g (then_do x f h).0 (then_do x f h).1
  placed_after {f = f} g h (ok a) i n q =
      Frame-Outcome g h (f a h).1 r P (f a h).0 i ((q a refl).places h (Frame-IsNew from r i n))
  placed_after g h (err e) i n q = Frame-raises r P e i

  pub known-Places :
      {A : Type 0} {m : Call W A} {f : A → Call W Ack}
      → Keeps c m
      → ((a : A) (g : Gateway W) → IsNew c from r g → (m g).0 ≡ ok a → Places c from r P (f a))
      → Places c from r P (m >>= f)
  known-Places {m = m} {f = f} p q = record {
    places = λ g n. placed_after {f = f} g (m g).1 (m g).0 (p.keeps g) n (λ a e. q a g n e);
  }

  pub first-Places :
      {A : Type 0} {m : Call W A} {f : A → Call W Ack}
      → Keeps c m
      → ((a : A) → Places c from r P (f a))
      → Places c from r P (m >>= f)
  first-Places {m = m} {f = f} p q = known-Places {m = m} {f = f} p (λ a g n e. q a)

  pub Fails-Places : {m : Call W Ack} → Fails c m → Places c from r P m
  Fails-Places {m = m} q = record {
    places = λ g n.
        subst (λ x. Outcome r P g x (m g).1) (sym (q.fails g).1)
          (Frame-raises r P (q.fails g).0 (q.keeps.keeps g));
  }
