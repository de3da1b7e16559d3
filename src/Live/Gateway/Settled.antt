-- ===== src/Live/Gateway/Settled.antt =====
-- services/live_trading/gateway.py: what `_transition` writes, and how
-- `_apply_reconciliation_snapshot` settles a binding.
use crypt_tool.Base.{
  ℕ, ◌+◌, ◌≡◌, ◌⊎◌, inl, inr, refl, sym, ◌∙◌, ap, subst, Bool, true, false, String, eq_iff, Option,
  none, some, List, if◌then◌else◌, arith,
}
use crypt_tool.Base.Dict
use crypt_tool.Base.Results.{Result, ok}
use crypt_tool.Live.Bindings.{
  State, first_leg_accepted, hedging_required, completed, aborted, halted, Binding, get, version_of,
  compare_and_set,
}
use crypt_tool.Live.Orders.{Request}
use crypt_tool.Live.Gateway.{
  Gateway, Call, then_do, cas, wrote, or_conflict, transition, moved, as_it_is, preflight_binding,
  or_unbound,
}
use crypt_tool.Live.Gateway.Reserve.{is_role, with_second_id, with_first_leg}
use crypt_tool.Live.Gateway.Snapshot.{
  ExchangeSnapshot, is_ambiguous, proves_order_exists, proves_order_absent, external_order_id_of,
}
use crypt_tool.Live.Gateway.Reconcile.{adopt, settle_snapshot}

-- The binding that the repository has is of this version.
abbrev pub IsCurrent : {W : Type 0} → Binding → Gateway W → Type 0
IsCurrent b g = version_of g.world.bindings b.signal_id ≡ b.version

-- The call returned, and the repository has this binding for the signal.
abbrev pub Wrote : {W : Type 0} → String → Binding → Result (Unit {0}) × Gateway W → Type 0
Wrote id b (res, h) = (res ≡ ok tt) × (preflight_binding id h ≡ b)

pub put_read :
    (r : List (String × Binding)) (id : String) (b : Binding) → get (Dict.put id b r) id ≡ some b
unfolding get
put_read r id b = ground (arith, Dict.get-put id id b r, eq_iff id id)

accepted_write :
    (r : List (String × Binding)) (id : String) (n : ℕ) (b : Binding)
    → b.signal_id ≡ id
    → version_of r id ≡ n
    → b.version ≡ n + 1
    → compare_and_set r id n b ≡ (true, Dict.put id b r)
unfolding compare_and_set
accepted_write r id n b i v e = ground (arith, eq_iff b.signal_id id)

module _ {W : Type 0} where
  written :
      (b : Binding) (g : Gateway W) (x : Bool × List (String × Binding))
      → x ≡ (true, Dict.put b.signal_id b g.world.bindings)
      → ((wrote x g).0 ≡ ok true) × (preflight_binding b.signal_id (wrote x g).1 ≡ b)
  unfolding preflight_binding
  written b g x e =
      subst (λ y. ((wrote y g).0 ≡ ok true) × (preflight_binding b.signal_id (wrote y g).1 ≡ b))
        (sym e) (refl, ap (or_unbound b.signal_id) (put_read g.world.bindings b.signal_id b))

  -- The next version of the current binding is written.
  pub cas-Wrote :
      (current b : Binding) (g : Gateway W)
      → b.signal_id ≡ current.signal_id
      → b.version ≡ current.version + 1
      → IsCurrent current g
      → let call = cas current b g in
        (call.0 ≡ ok true) × (preflight_binding current.signal_id call.1 ≡ b)
  unfolding cas
  cas-Wrote current b g i v e =
      let call = cas current b g in
      subst (λ id. (call.0 ≡ ok true) × (preflight_binding id call.1 ≡ b)) i
        (written b g (compare_and_set g.world.bindings b.signal_id current.version b) (
          accepted_write g.world.bindings b.signal_id current.version b refl
            (ap (version_of g.world.bindings) i ∙ e) v))

  -- What follows a write that is accepted, if it changes no state.
  pub then-Wrote :
      {A : Type 0} (id : String) (b : Binding) (a : A) (f : Bool → Call W A)
      (call : Result Bool × Gateway W)
      → ((h : Gateway W) → f true h ≡ (ok a, h))
      → (call.0 ≡ ok true) × (preflight_binding id call.1 ≡ b)
      → let after = then_do call.0 f call.1 in (after.0 ≡ ok a) × (preflight_binding id after.1 ≡ b)
  then-Wrote id b a f (x, h) k (e, i) =
      subst (λ y. ((then_do y f h).0 ≡ ok a) × (preflight_binding id (then_do y f h).1 ≡ b)) (sym e)
        (subst
          (λ (after : Result _ × Gateway W). (after.0 ≡ ok a) × (preflight_binding id after.1 ≡ b))
          (sym (k h)) (refl, i))

  pub transition-Wrote :
      (current : Binding) (state : State) (now : ℕ) (reason : Option String) (f : Binding → Binding)
      (g : Gateway W)
      → (f (moved current state now reason)).signal_id ≡ current.signal_id
      → (f (moved current state now reason)).version ≡ current.version + 1
      → IsCurrent current g
      → Wrote current.signal_id
          (f (moved current state now reason))
          (transition current state now reason f g)
  unfolding transition
  transition-Wrote current state now reason f g i v e =
      let b = f (moved current state now reason) in
      then-Wrote current.signal_id b tt or_conflict (cas current b g) (λ h. refl)
        (cas-Wrote current b g i v e)

-- What a state that a binding was settled in rests on.
abbrev pub Rests : Request → ExchangeSnapshot → Binding → Binding → State → Type 0
Rests r s current b completed =
    (proves_order_exists r s ≡ true)
    × (is_ambiguous r s ≡ false)
    × (is_role current.second_order_request_id r.request_id ≡ true)
    × (b.second_external_order_id ≡ external_order_id_of r s)
Rests r s current b first_leg_accepted =
    (proves_order_exists r s ≡ true)
    × (is_ambiguous r s ≡ false)
    × (is_role current.second_order_request_id r.request_id ≡ false)
    × (b.first_external_order_id ≡ external_order_id_of r s)
    × (b.first_leg_role ≡ some r.order_leg_role)
Rests r s current b hedging_required =
    (proves_order_absent r s ≡ true)
    × (proves_order_exists r s ≡ false)
    × (is_ambiguous r s ≡ false)
    × (is_role current.second_order_request_id r.request_id ≡ true)
Rests r s current b aborted =
    (proves_order_absent r s ≡ true)
    × (proves_order_exists r s ≡ false)
    × (is_ambiguous r s ≡ false)
    × (is_role current.second_order_request_id r.request_id ≡ false)
Rests r s current b halted =
    (b.first_leg_role ≡ current.first_leg_role)
    × ((is_ambiguous r s ≡ true)
        ⊎ ((proves_order_exists r s ≡ false) × (proves_order_absent r s ≡ false)))
Rests r s current b _ = ⊥

-- What is known of a binding that a snapshot of the exchange has settled.
pub record IsSettled (r : Request) (s : ExchangeSnapshot) (current b : Binding) : Type 0 where
  pub next : b.version ≡ current.version + 1
  pub rests : Rests r s current b b.state

module _ {W : Type 0} (r : Request) (s : ExchangeSnapshot) (current : Binding) (now : ℕ)
    (g : Gateway W) where
  abbrev Settles : Call W (Unit {0}) → Type 0
  Settles m =
      ((m g).0 ≡ ok tt) × IsSettled r s current (preflight_binding current.signal_id (m g).1)

  Wrote-Settles :
      (m : Call W (Unit {0})) (b : Binding)
      → Wrote current.signal_id b (m g)
      → IsSettled r s current b
      → Settles m
  Wrote-Settles m b w i = (w.0, subst (IsSettled r s current) (sym w.1) i)

  halted-Settles :
      (reason : Option String)
      → (is_ambiguous r s ≡ true)
        ⊎ ((proves_order_exists r s ≡ false) × (proves_order_absent r s ≡ false))
      → IsCurrent current g
      → Settles (transition current halted now reason as_it_is)
  halted-Settles reason why v =
      Wrote-Settles (transition current halted now reason as_it_is) _
        (transition-Wrote current halted now reason as_it_is g refl refl v)
        (record { next = refl; rests = (refl, why) })

  adopt-Settles :
      (second : Bool)
      → is_role current.second_order_request_id r.request_id ≡ second
      → proves_order_exists r s ≡ true
      → is_ambiguous r s ≡ false
      → IsCurrent current g
      → Settles (adopt current r s now second)
  unfolding adopt
  adopt-Settles true k x a v =
      let f = with_second_id (external_order_id_of r s) in
      Wrote-Settles (transition current completed now none f) _
        (transition-Wrote current completed now none f g refl refl v)
        (record { next = refl; rests = (x, a, k, refl) })
  adopt-Settles false k x a v =
      let f = with_first_leg r.order_leg_role r.request_id (external_order_id_of r s) in
      Wrote-Settles (transition current first_leg_accepted now none f) _
        (transition-Wrote current first_leg_accepted now none f g refl refl v)
        (record { next = refl; rests = (x, a, k, refl, refl) })

  absent-Settles :
      (second : Bool) (reason : Option String)
      → is_role current.second_order_request_id r.request_id ≡ second
      → (proves_order_absent r s ≡ true)
      → (proves_order_exists r s ≡ false)
      → (is_ambiguous r s ≡ false)
      → IsCurrent current g
      → Settles
          (transition current (if second then hedging_required else aborted) now reason as_it_is)
  absent-Settles true reason k n x a v =
      Wrote-Settles (transition current hedging_required now reason as_it_is) _
        (transition-Wrote current hedging_required now reason as_it_is g refl refl v)
        (record { next = refl; rests = (n, x, a, k) })
  absent-Settles false reason k n x a v =
      Wrote-Settles (transition current aborted now reason as_it_is) _
        (transition-Wrote current aborted now reason as_it_is g refl refl v)
        (record { next = refl; rests = (n, x, a, k) })

  settle_cases :
      (ambiguous exists absent : Bool)
      → is_ambiguous r s ≡ ambiguous
      → proves_order_exists r s ≡ exists
      → proves_order_absent r s ≡ absent
      → IsCurrent current g
      → let second = is_role current.second_order_request_id r.request_id in
        Settles (
          if ambiguous
          then transition current halted now (some "exchange reconciliation is ambiguous") as_it_is
          else if exists
          then adopt current r s now second
          else if absent
          then transition current
              (if second then hedging_required else aborted)
              now
              (some "exchange reconciliation found no submitted order")
              as_it_is
          else transition current halted now
              (some "exchange reconciliation could not determine order state")
              as_it_is)
  settle_cases true x n a e i v = halted-Settles _ (inl a) v
  settle_cases false true n a e i v =
      adopt-Settles (is_role current.second_order_request_id r.request_id) refl e a v
  settle_cases false false true a e i v =
      absent-Settles (is_role current.second_order_request_id r.request_id) _ refl i e a v
  settle_cases false false false a e i v = halted-Settles _ (inr (e, i)) v

  -- If no other writer has changed the binding: settling it by a snapshot of the exchange returns, and
  -- the new binding no longer requires reconciliation. It is completed, or its first leg accepted, with
  -- the order's external identity, only if the snapshot proves that the order exists and is not
  -- ambiguous: completed if the order is that of the second leg, otherwise first leg accepted in the
  -- order's role. It needs a hedge or is aborted only if the snapshot, not ambiguous, proves that there
  -- is no order: a hedge if the order was that of the second leg, otherwise aborted. It is halted only
  -- if the snapshot is ambiguous or proves neither, and keeps the role of its first leg then.
  pub settle_snapshot-IsSettled :
      IsCurrent current g
      → ((settle_snapshot current r s now g).0 ≡ ok tt)
        × IsSettled r s current
            (preflight_binding current.signal_id (settle_snapshot current r s now g).1)
  unfolding settle_snapshot
  settle_snapshot-IsSettled v =
      settle_cases (is_ambiguous r s) (proves_order_exists r s) (proves_order_absent r s) refl refl
        refl v
