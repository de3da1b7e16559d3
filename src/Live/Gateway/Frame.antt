-- ===== src/Live/Gateway/Frame.antt =====
-- services/live_trading/gateway.py: what the parts of a call leave alone.
pub mod Bindings
pub mod Exchange
pub mod Validation
pub mod Calls
use crypt_tool.Base.{
  ℕ, ◌≡◌, refl, sym, ◌∙◌, subst, Bool, true, false, not, String, str_eq, Option, none, some, List,
  [], ◌∷◌, if◌then◌else◌, if_both, arith, eq_iff, Bool-cases, inl, inr,
}
use crypt_tool.Base.Texts.{is_blank, is_blank_empty}
use crypt_tool.Base.Results.{Exception, Result, ok, err}
use crypt_tool.Decimal.{Decimal}
use crypt_tool.Live.Bindings.{State, Binding, compare_and_set}
use crypt_tool.Live.Orders.{Request, Ack}
use crypt_tool.Live.Exchange.{World, Method}
use crypt_tool.Live.Gateway.{
  Config, Gateway, Call, ◌>>=◌, ◌>>◌, pure, raise, then_do, or_handle, catch, await, cas, wrote,
  or_conflict, transition, audit, tell, current_binding, set_meanwhile,
}
use crypt_tool.Live.Gateway.Validation.Orders.{is_set}
use crypt_tool.Live.Gateway.Worlds.{
  IsNext, placed, canceled, canceled_all, orders_read, positions_read, fills_read, looked_up,
  closed, health_checked, Passes, here, answered, bound, told, Passes-trans,
}

-- A kill switch that is set stays set; the receipts and the requests handed to the adapter are as
-- they were, and the world is one that calls of the adapter and writes lead to.
pub record Frame {W : Type 0} (c : Config W) (g h : Gateway W) : Type 0 where
  pub killed : is_set g.kill_switch_reason ≡ true → is_set h.kill_switch_reason ≡ true
  pub receipts : h.idempotent_receipts ≡ g.idempotent_receipts
  pub unsent : h.sent ≡ g.sent
  pub passes : Passes c g.world h.world

pub record Keeps {W A : Type 0} (c : Config W) (m : Call W A) : Type 0 where
  pub keeps : (g : Gateway W) → Frame c g (m g).1

-- A reason that is not blank sets the kill switch.
pub is_set_reason : (reason : String) → is_blank reason ≡ false → is_set (some reason) ≡ true
is_set_reason reason e = ground (arith, eq_iff reason "", is_blank_empty)

set_meanwhile-is_set :
    (o reason : Option String) → is_set reason ≡ true → is_set (set_meanwhile o reason) ≡ true
set_meanwhile-is_set none reason k = k
set_meanwhile-is_set (some s) reason k = elim (Bool-cases (is_blank s)) [
  | inl e ↦ rw e k
  | inr e ↦ rw e (is_set_reason s e)
]

module _ {W : Type 0} {c : Config W} where
  pub Frame-refl : (g : Gateway W) → Frame c g g
  Frame-refl g = record { killed = λ k. k; receipts = refl; unsent = refl; passes = here }

  pub Frame-trans : {f g h : Gateway W} → Frame c f g → Frame c g h → Frame c f h
  Frame-trans p q = record {
    killed = λ k. q.killed (p.killed k);
    receipts = q.receipts ∙ p.receipts;
    unsent = q.unsent ∙ p.unsent;
    passes = Passes-trans p.passes q.passes;
  }

  pub pure-Keeps : {A : Type 0} (a : A) → Keeps c (pure a)
  pure-Keeps a = record { keeps = Frame-refl }

  pub raise-Keeps : {A : Type 0} (e : Exception) → Keeps {A = A} c (raise e)
  raise-Keeps e = record { keeps = Frame-refl }

  pub >>=-Keeps :
      {A B : Type 0} {m : Call W A} {f : A → Call W B}
      → Keeps c m
      → ((a : A) → Keeps c (f a))
      → Keeps c (m >>= f)
  >>=-Keeps {m = m} {f = f} p q = record {
    keeps = λ g. elim (m g).0 as (λ x. Frame c g (then_do x f (m g).1).1) [
      | ok a ↦ Frame-trans (p.keeps g) ((q a).keeps (m g).1)
      | err e ↦ p.keeps g
    ];
  }

  pub >>-Keeps :
      {A B : Type 0} {m : Call W A} {k : Call W B} → Keeps c m → Keeps c k → Keeps c (m >> k)
  >>-Keeps p q = >>=-Keeps p (λ a. q)

  pub catch-Keeps :
      {A : Type 0} {m : Call W A} {handler : Exception → Call W A}
      → Keeps c m
      → ((e : Exception) → Keeps c (handler e))
      → Keeps c (catch m handler)
  catch-Keeps {m = m} {handler = handler} p q = record {
    keeps = λ g. elim (m g).0 as (λ x. Frame c g (or_handle x handler (m g).1).1) [
      | ok a ↦ p.keeps g
      | err e ↦ Frame-trans (p.keeps g) ((q e).keeps (m g).1)
    ];
  }

  pub if-Keeps :
      {A : Type 0} (b : Bool) {m k : Call W A}
      → Keeps c m
      → Keeps c k
      → Keeps c (if b then m else k)
  if-Keeps b p q = if_both (λ (x : Call W _). Keeps c x) b p q

  pub await-Keeps :
      {A : Type 0} (method : Method W A)
      → ((w : World W) → IsNext c w (method w).1)
      → Keeps c (await method)
  await-Keeps method next = record {
    keeps = λ g. record {
      killed = set_meanwhile-is_set (method g.world).1.activated g.kill_switch_reason;
      receipts = refl;
      unsent = refl;
      passes = answered here (next g.world);
    };
  }

  pub current-Keeps : (signal_id : String) → Keeps c (current_binding signal_id)
  current-Keeps signal_id = record { keeps = Frame-refl }

  pub cas-Keeps : (current b : Binding) → Keeps c (cas current b)
  unfolding cas
  cas-Keeps current b = record {
    keeps = λ g. record { killed = λ k. k; receipts = refl; unsent = refl; passes = bound here _ };
  }

  pub or_conflict-Keeps : (b : Bool) → Keeps c (or_conflict b)
  or_conflict-Keeps true = pure-Keeps tt
  or_conflict-Keeps false = raise-Keeps _

  pub transition-Keeps :
      (current : Binding) (s : State) (now : ℕ) (reason : Option String) (f : Binding → Binding)
      → Keeps c (transition current s now reason f)
  unfolding transition
  transition-Keeps current s now reason f = >>=-Keeps (cas-Keeps current _) or_conflict-Keeps

module _ {W : Type 0} (c : Config W) where
  pub audit-Keeps :
      (now : ℕ) (event : String) (id : Option String) (allowed : Bool) (reason : String)
      (details : List (String × String))
      → Keeps c (audit c now event id allowed reason details)
  unfolding audit
  audit-Keeps now event id allowed reason details = record {
    keeps = λ g. record { killed = λ k. k; receipts = refl; unsent = refl; passes = told here _ };
  }

pub ruleset frame_rules = (
  pure-Keeps, raise-Keeps, >>=-Keeps, >>-Keeps, catch-Keeps, if-Keeps, await-Keeps, current-Keeps,
  cas-Keeps, or_conflict-Keeps, transition-Keeps, audit-Keeps, placed, canceled, canceled_all,
  orders_read, positions_read, fills_read, looked_up, closed, health_checked,
)
