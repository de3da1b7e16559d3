-- ===== src/Live/Gateway/Aborted.antt =====
-- services/live_trading/gateway.py: what `_abort_preflight` leaves of a binding.
use crypt_tool.Base.{
  ℕ, ◌≡◌, refl, sym, ◌∙◌, ap, subst, String, Option, none, some, if◌then◌else◌, is_some,
}
use crypt_tool.Base.Results.{ok}
use crypt_tool.Live.Bindings.{
  aborted, reserved, Binding, get, version_of, version_or_zero, new_binding,
}
use crypt_tool.Live.Orders.{Request, RecoveryAction}
use crypt_tool.Live.Gateway.{Gateway, pure, cas, moved, as_it_is, preflight_binding, or_unbound}
use crypt_tool.Live.Gateway.Reserve.{
  abort_preflight, reserve_preflight, reserve_current, reserve_free, reserve_as, renewed,
  reservation, conflict_text,
}
use crypt_tool.Live.Gateway.Settled.{IsCurrent, Wrote, transition-Wrote, cas-Wrote, then-Wrote}

version_or_unbound :
    (id : String) (o : Option Binding) → version_or_zero o ≡ (or_unbound id o).version
version_or_unbound id none = refl
version_or_unbound id (some b) = refl

abbrev forgetful : Binding → ℕ → String → Request → ℕ → Binding
forgetful b now reason later at =
    let left = moved b aborted now (some reason) in renewed left (reservation left later at)

module _ {W : Type 0} where
  read_version :
      (id : String) (g : Gateway W)
      → version_of g.world.bindings id ≡ (preflight_binding id g).version
  unfolding preflight_binding version_of
  read_version id g = version_or_unbound id (get g.world.bindings id)

  read-IsCurrent :
      (id : String) (g : Gateway W) (b : Binding)
      → preflight_binding id g ≡ b
      → b.signal_id ≡ id
      → IsCurrent b g
  read-IsCurrent id g b e i =
      ap (version_of g.world.bindings) i ∙ read_version id g ∙ ap (λ (x : Binding). x.version) e

  abort-Wrote :
      (r : Request) (now : ℕ) (reason : String) (g : Gateway W)
      → (preflight_binding r.signal_id g).signal_id ≡ r.signal_id
      → let b = preflight_binding r.signal_id g in
        Wrote r.signal_id (moved b aborted now (some reason)) (abort_preflight r now reason g)
  unfolding abort_preflight
  abort-Wrote r now reason g i =
      let b = preflight_binding r.signal_id g in
      subst (λ id. Wrote id (moved b aborted now (some reason)) (abort_preflight r now reason g)) i
        (transition-Wrote b aborted now (some reason) as_it_is g refl refl
          (read-IsCurrent r.signal_id g b refl i))

  -- A reservation on an aborted binding goes on from its version and its creation only.
  reserve_aborted :
      (b : Binding) (now : ℕ) (reason : String) (later : Request) (at : ℕ) (h : Gateway W)
      → later.signal_id ≡ b.signal_id
      → later.preflight_recovery_action ≡ none
      → IsCurrent (moved b aborted now (some reason)) h
      → let call = reserve_current (moved b aborted now (some reason)) later at h in
        (call.0 ≡ ok none)
        × (preflight_binding b.signal_id call.1 ≡ forgetful b now reason later at)
  unfolding reserve_current reserve_free new_binding
  reserve_aborted b now reason later at h i n v =
      let left = moved b aborted now (some reason) in
      let next = forgetful b now reason later at in
      subst
        (λ (o : Option RecoveryAction).
          let call =
            (if is_some o
                then pure (some "recovery action is invalid without unmatched exposure")
                else reserve_as left next)
              h in
          (call.0 ≡ ok none) × (preflight_binding b.signal_id call.1 ≡ next))
        (sym n)
        (then-Wrote b.signal_id next none (λ done. pure (if done then none else some conflict_text))
          (cas left next h) (λ k. refl) (cas-Wrote left next h i refl v))

  -- For a binding that is kept under its signal, whatever its state and its first leg: after
  -- `_abort_preflight` the next order of the signal that names no recovery action is reserved, and
  -- the binding has no first leg.
  pub abort-reserve :
      (r later : Request) (now at : ℕ) (reason : String) (g : Gateway W)
      → (preflight_binding r.signal_id g).signal_id ≡ r.signal_id
      → later.signal_id ≡ r.signal_id
      → later.preflight_recovery_action ≡ none
      → let call = reserve_preflight later at (abort_preflight r now reason g).1 in
        let b = preflight_binding r.signal_id call.1 in
        (call.0 ≡ ok none) × (b.state ≡ reserved) × (b.first_leg_role ≡ none)
  unfolding reserve_preflight new_binding
  abort-reserve r later now at reason g i j n =
      let b = preflight_binding r.signal_id g in
      let h = (abort_preflight r now reason g).1 in
      let left = moved b aborted now (some reason) in
      let wrote_left = (abort-Wrote r now reason g i).1 in
      let reserves =
        reserve_aborted b now reason later at h (j ∙ sym i) n
          (read-IsCurrent r.signal_id h left wrote_left i) in
      let read =
        ap (λ id. preflight_binding id (reserve_current left later at h).1) (sym i) ∙ reserves.1 in
      subst
        (λ x.
          let call = reserve_current x later at h in
          let c = preflight_binding r.signal_id call.1 in
          (call.0 ≡ ok none) × (c.state ≡ reserved) × (c.first_leg_role ≡ none))
        (sym (ap (λ id. preflight_binding id h) j ∙ wrote_left))
        (
          reserves.0,
          ap (λ (x : Binding). x.state) read,
          ap (λ (x : Binding). x.first_leg_role) read,
        )
