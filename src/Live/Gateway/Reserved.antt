-- ===== src/Live/Gateway/Reserved.antt =====
-- services/live_trading/gateway.py: when `_reserve_preflight` reserves a binding, and as what.
use crypt_tool.Base.{
  ℕ, ◌+◌, ◌≡◌, refl, sym, ◌∙◌, ap, subst, Bool, true, false, ◌||◌, String, Option, none, some, List,
  arith, if◌then◌else◌, if_both, is_some, eq_iff,
}
use crypt_tool.Base.Dict
use crypt_tool.Base.Results.{ok}
use crypt_tool.Live.Bindings.{
  State, unbound, reserved, first_leg_accepted, second_leg_submitted, hedging_required,
  reconciliation_required, completed, aborted, halted, Binding, new_binding, compare_and_set, get,
}
use crypt_tool.Live.Orders.{Request, RecoveryAction}
use crypt_tool.Live.Gateway.{Gateway, Call, pure, cas, wrote, preflight_binding, or_unbound}
use crypt_tool.Live.Gateway.Reserve.{
  is_role, is_unbound, is_aborted, reserve_preflight, reserve_current, reserve_bound, reserve_free,
  reserve_second, reserve_hedge, reserve_as, renewed, reservation, second_leg, hash_differs,
  conflict_text, hedging_operation_allowed,
}
use crypt_tool.Live.Gateway.Settled.{put_read}

-- What a reservation rests on, by the state of the binding before it.
abbrev pub From : Request → Binding → Binding → State → Type 0
From r b c unbound = (r.preflight_recovery_action ≡ none) × (c.state ≡ reserved)
From r b c aborted = (r.preflight_recovery_action ≡ none) × (c.state ≡ reserved)
From r b c first_leg_accepted =
    (is_role b.preflight_hash r.cross_venue_preflight.preflight_hash ≡ true)
    × (is_role b.first_leg_role r.order_leg_role ≡ false)
    × (r.preflight_recovery_action ≡ none)
    × (c.state ≡ second_leg_submitted)
From r b c hedging_required =
    (is_role b.preflight_hash r.cross_venue_preflight.preflight_hash ≡ true)
    × (hedging_operation_allowed b r ≡ true)
    × (c.state ≡ second_leg_submitted)
From r b c _ = ⊥

pub record IsReserved (r : Request) (b c : Binding) : Type 0 where
  pub next : c.version ≡ b.version + 1
  pub hashed : c.preflight_hash ≡ some r.cross_venue_preflight.preflight_hash
  pub from : From r b c b.state

set_accepted :
    (r q : List (String × Binding)) (n : ℕ) (b : Binding)
    → compare_and_set r b.signal_id n b ≡ (true, q)
    → (q ≡ Dict.put b.signal_id b r) × (b.version ≡ n + 1)
unfolding compare_and_set
set_accepted r q n b e = ground arith

module _ {W : Type 0} where
  written_as :
      (current b : Binding) (g : Gateway W) (x : Bool × List (String × Binding))
      → compare_and_set g.world.bindings b.signal_id current.version b ≡ x
      → (if x.0 then none else some conflict_text) ≡ none
      → (b.version ≡ current.version + 1) × (preflight_binding b.signal_id (wrote x g).1 ≡ b)
  unfolding preflight_binding
  written_as current b g (false, q) e i = cc
  written_as current b g (true, q) e i =
      let (put, next) = set_accepted g.world.bindings q current.version b e in
      (
        next,
        ap (or_unbound b.signal_id)
            (ap (λ d. get d b.signal_id) put ∙ put_read g.world.bindings b.signal_id b),
      )

  reserved_as :
      (current b : Binding) (g : Gateway W)
      → (reserve_as current b g).0 ≡ ok none
      → (b.version ≡ current.version + 1)
        × (preflight_binding b.signal_id (reserve_as current b g).1 ≡ b)
  unfolding cas
  reserved_as current b g e =
      written_as current b g (compare_and_set g.world.bindings b.signal_id current.version b) refl
        cc

record Renewed (r : Request) (c : Binding) : Type 0 where
  named : c.signal_id ≡ r.signal_id
  fresh : c.state ≡ reserved
  hashed : c.preflight_hash ≡ some r.cross_venue_preflight.preflight_hash

renewed-Renewed :
    (b : Binding) (r : Request) (now : ℕ) → Renewed r (renewed b (reservation b r now))
unfolding new_binding
renewed-Renewed b r now =
    if_both (Renewed r) (is_aborted b.state) (record { named = refl; fresh = refl; hashed = refl })
      (record { named = refl; fresh = refl; hashed = refl })

module _ {W : Type 0} (r : Request) (now : ℕ) (b : Binding) (g : Gateway W) where
  abbrev left_by : Call W (Option String) → Binding
  left_by m = preflight_binding r.signal_id (m g).1

  abbrev ReturnsNone : Call W (Option String) → Type 0
  ReturnsNone m = (m g).0 ≡ ok none

  -- What is read after a reservation as `c`.
  read_as :
      (c : Binding)
      → c.signal_id ≡ r.signal_id
      → ReturnsNone (reserve_as b c)
      → (c.version ≡ b.version + 1) × (left_by (reserve_as b c) ≡ c)
  read_as c i e =
      let (next, read) = reserved_as b c g e in
      (next, ap (λ id. preflight_binding id (reserve_as b c g).1) (sym i) ∙ read)

  free_reserved :
      (o : Option RecoveryAction)
      → r.preflight_recovery_action ≡ o
      → let m =
          if is_some o
          then pure (some "recovery action is invalid without unmatched exposure")
          else reserve_as b (renewed b (reservation b r now)) in
        ReturnsNone m
        → (r.preflight_recovery_action ≡ none)
          × ((left_by m).version ≡ b.version + 1)
          × ((left_by m).state ≡ reserved)
          × ((left_by m).preflight_hash ≡ some r.cross_venue_preflight.preflight_hash)
  free_reserved (some action) i e = cc
  free_reserved none i e =
      let c = renewed b (reservation b r now) in
      let k = renewed-Renewed b r now in
      let (next, read) = read_as c k.named e in
      (
        i,
        ap (λ (x : Binding). x.version) read ∙ next,
        ap (λ (x : Binding). x.state) read ∙ k.fresh,
        ap (λ (x : Binding). x.preflight_hash) read ∙ k.hashed,
      )

  second_reserved :
      b.signal_id ≡ r.signal_id
      → let m = reserve_as b (second_leg b r now) in
        ReturnsNone m
        → ((left_by m).version ≡ b.version + 1)
          × ((left_by m).state ≡ second_leg_submitted)
          × ((left_by m).preflight_hash ≡ b.preflight_hash)
  second_reserved i e =
      let (next, read) = read_as (second_leg b r now) i e in
      (
        ap (λ (x : Binding). x.version) read,
        ap (λ (x : Binding). x.state) read,
        ap (λ (x : Binding). x.preflight_hash) read,
      )

is_none_of : (o : Option RecoveryAction) → is_some o ≡ false → o ≡ none
is_none_of none e = refl
is_none_of (some action) e = cc

is_role-some : (o : Option String) (s : String) → is_role o s ≡ true → o ≡ some s
is_role-some none s e = cc
is_role-some (some t) s e = ap some (ground (arith, eq_iff t s))

module _ {W : Type 0} (r : Request) (now : ℕ) (b : Binding) (g : Gateway W) where
  passes :
      (t : Bool) (text : String) (m : Call W (Option String))
      → ReturnsNone r now b g (if t then pure (some text) else m)
      → (t ≡ false) × ((if t then pure (some text) else m) ≡ m)
  passes true text m e = cc
  passes false text m e = (refl, refl)

  abbrev Reserves : State → Call W (Option String) → Type 0
  Reserves st m =
      let c = left_by r now b g m in
      (c.version ≡ b.version + 1)
      × (c.preflight_hash ≡ some r.cross_venue_preflight.preflight_hash)
      × From r b c st

  hash_known :
      hash_differs b r ≡ false
      → is_role b.preflight_hash r.cross_venue_preflight.preflight_hash ≡ true
  hash_known e = ground arith

  second_Reserves :
      (i : b.signal_id ≡ r.signal_id)
      → hash_differs b r ≡ false
      → ReturnsNone r now b g (reserve_second b r now)
      → Reserves first_leg_accepted (reserve_second b r now)
  unfolding reserve_second
  second_Reserves i h e =
      let m = reserve_as b (second_leg b r now) in
      let later =
        if is_some r.preflight_recovery_action
        then pure (some "recovery action is invalid before a hedge failure")
        else m in
      let (role, p) = passes (is_role b.first_leg_role r.order_leg_role) _ later e in
      let (action, q) =
        passes (is_some r.preflight_recovery_action) _ m (subst (ReturnsNone r now b g) p e) in
      let (next, state, hash) =
        second_reserved r now b g i (subst (ReturnsNone r now b g) (p ∙ q) e) in
      subst (Reserves first_leg_accepted) (sym (p ∙ q)) (
        next,
        hash ∙ is_role-some b.preflight_hash r.cross_venue_preflight.preflight_hash (hash_known h),
        (hash_known h, role, is_none_of r.preflight_recovery_action action, state),
      )

  hedge_Reserves :
      (allowed : Bool)
      → hedging_operation_allowed b r ≡ allowed
      → (i : b.signal_id ≡ r.signal_id) → hash_differs b r ≡ false
      → let m =
          if allowed
          then reserve_as b (second_leg b r now)
          else pure
              (some "hedging-required binding only permits retry, hedge, unwind, or manual halt") in
        ReturnsNone r now b g m → Reserves hedging_required m
  hedge_Reserves false a i h e = cc
  hedge_Reserves true a i h e =
      let (next, state, hash) = second_reserved r now b g i e in
      (
        next,
        hash ∙ is_role-some b.preflight_hash r.cross_venue_preflight.preflight_hash (hash_known h),
        (hash_known h, a, state),
      )

  taken :
      (st : State) (text : String)
      → let m =
          if hash_differs b r
          then pure (some "cross-venue orders use different preflight hashes")
          else pure (some text) in
        ReturnsNone r now b g m → Reserves st m
  taken st text e = elim (never (hash_differs b r) e) [ ]
    where
      never :
          (t : Bool)
          → ReturnsNone r now b g (
              if t
              then pure (some "cross-venue orders use different preflight hashes")
              else pure (some text))
          → ⊥
      never true e = cc
      never false e = cc

  abbrev reserve_at : State → Call W (Option String)
  reserve_at st =
      if is_unbound st || is_aborted st
      then reserve_free b r now
      else if hash_differs b r
      then pure (some "cross-venue orders use different preflight hashes")
      else reserve_bound st b r now

  state_Reserves :
      (st : State)
      → b.signal_id ≡ r.signal_id
      → ReturnsNone r now b g (reserve_at st)
      → Reserves st (reserve_at st)
  unfolding reserve_free reserve_bound reserve_hedge
  state_Reserves unbound i e =
      let (n, next, state, hash) = free_reserved r now b g r.preflight_recovery_action refl e in
      (next, hash, (n, state))
  state_Reserves aborted i e =
      let (n, next, state, hash) = free_reserved r now b g r.preflight_recovery_action refl e in
      (next, hash, (n, state))
  state_Reserves first_leg_accepted i e =
      let (h, p) = passes (hash_differs b r) _ (reserve_second b r now) e in
      subst (Reserves first_leg_accepted) (sym p)
        (second_Reserves i h (subst (ReturnsNone r now b g) p e))
  state_Reserves hedging_required i e =
      let (h, p) = passes (hash_differs b r) _ (reserve_hedge b r now) e in
      subst (Reserves hedging_required) (sym p) (
        hedge_Reserves (hedging_operation_allowed b r) refl i h (subst (ReturnsNone r now b g) p e))
  state_Reserves reserved i e = taken reserved _ e
  state_Reserves second_leg_submitted i e = taken second_leg_submitted _ e
  state_Reserves reconciliation_required i e = taken reconciliation_required _ e
  state_Reserves completed i e = taken completed _ e
  state_Reserves halted i e = taken halted _ e

  current_IsReserved :
      b.signal_id ≡ r.signal_id
      → ReturnsNone r now b g (reserve_current b r now)
      → IsReserved r b (left_by r now b g (reserve_current b r now))
  unfolding reserve_current
  current_IsReserved i e =
      let (next, hash, from) = state_Reserves b.state i e in
      record { next = next; hashed = hash; from = from }

-- If `_reserve_preflight` gives no reason against it, for a binding that is kept under its signal: the
-- binding is rewritten in its next version, bound to the preflight of the request. As a first leg it is
-- reserved only from the states UNBOUND and ABORTED, and as a second leg only from a first leg of the
-- same preflight: by the opposite leg and with no recovery action if that was accepted last, and by an
-- operation that is allowed if a hedge is required. No other state is left.
pub reserve_preflight-IsReserved :
    {W : Type 0} (r : Request) (now : ℕ) (g : Gateway W)
    → (preflight_binding r.signal_id g).signal_id ≡ r.signal_id
    → (reserve_preflight r now g).0 ≡ ok none
    → IsReserved r
        (preflight_binding r.signal_id g)
        (preflight_binding r.signal_id (reserve_preflight r now g).1)
unfolding reserve_preflight
reserve_preflight-IsReserved r now g i e =
    current_IsReserved r now (preflight_binding r.signal_id g) g i e
