-- ===== src/Live/Gateway/Frame/Exchange.antt =====
-- services/live_trading/gateway.py: the reconciliation leaves the rest alone.
use crypt_tool.Base.{ℕ, String, Option, none, some}
use crypt_tool.Base.Results.{Exception}
use crypt_tool.Time.{Timestamp}
use crypt_tool.Live.Bindings.{
  State, unbound, reserved, second_leg_submitted, reconciliation_required, aborted, Binding,
}
use crypt_tool.Live.Orders.{Request}
use crypt_tool.Live.Gateway.{Config}
use crypt_tool.Live.Gateway.Snapshot.{ExchangeSnapshot}
use crypt_tool.Live.Gateway.Reconcile.{
  adopt, settle_snapshot, apply_snapshot, ensure_from, ensure_reconciliation_required,
  handle_existing, handle_ambiguous, handle_unknown, handle_cas_snapshot, refresh, halt_unread,
  apply_read, reconcile_binding,
}
use crypt_tool.Live.Gateway.Frame.{Keeps, pure-Keeps, frame_rules}
use crypt_tool.Live.Gateway.Frame.Bindings.{lift-Keeps}

module _ {W : Type 0} {c : Config W} where
  settle_snapshot-Keeps :
      (b : Binding) (r : Request) (s : ExchangeSnapshot) (now : ℕ)
      → Keeps c (settle_snapshot b r s now)
  unfolding settle_snapshot adopt
  settle_snapshot-Keeps b r s now = search frame_rules depth 9

  pub apply_snapshot-Keeps :
      (r : Request) (s : ExchangeSnapshot) (now : ℕ) → Keeps c (apply_snapshot r s now)
  unfolding apply_snapshot
  apply_snapshot-Keeps r s now = search (frame_rules, settle_snapshot-Keeps)

  ensure_from-Keeps :
      (state : State) (b : Binding) (r : Request) (now : ℕ) (reason : String)
      → Keeps c (ensure_from state b r now reason)
  unfolding ensure_from
  ensure_from-Keeps reconciliation_required b r now reason = search frame_rules
  ensure_from-Keeps unbound b r now reason = search frame_rules
  ensure_from-Keeps aborted b r now reason = search frame_rules
  ensure_from-Keeps reserved b r now reason = search frame_rules
  ensure_from-Keeps second_leg_submitted b r now reason = search frame_rules
  ensure_from-Keeps _ b r now reason = pure-Keeps _

  ensure-Keeps :
      (r : Request) (b : Binding) (now : ℕ) (reason : String)
      → Keeps c (ensure_reconciliation_required r b now reason)
  unfolding ensure_reconciliation_required
  ensure-Keeps r b now reason = search (frame_rules, ensure_from-Keeps)

  handle_existing-Keeps :
      (r : Request) (s : ExchangeSnapshot) (now : ℕ) → Keeps c (handle_existing r s now)
  unfolding handle_existing
  handle_existing-Keeps r s now = search (frame_rules, ensure-Keeps, apply_snapshot-Keeps)

  handle_ambiguous-Keeps :
      (r : Request) (s : ExchangeSnapshot) (now : ℕ) → Keeps c (handle_ambiguous r s now)
  unfolding handle_ambiguous
  handle_ambiguous-Keeps r s now = search (frame_rules, ensure-Keeps)

  handle_unknown-Keeps :
      (r : Request) (s : ExchangeSnapshot) (now : ℕ) → Keeps c (handle_unknown r s now)
  unfolding handle_unknown
  handle_unknown-Keeps r s now = search (frame_rules, ensure-Keeps)

  pub handle_cas_snapshot-Keeps :
      (r : Request) (s : ExchangeSnapshot) (now : ℕ) → Keeps c (handle_cas_snapshot r s now)
  unfolding handle_cas_snapshot
  handle_cas_snapshot-Keeps r s now =
      search (frame_rules, handle_existing-Keeps, handle_ambiguous-Keeps, handle_unknown-Keeps)

module _ {W : Type 0} (c : Config W) where
  pub refresh-Keeps : (r : Request) (now : ℕ) → Keeps c (refresh c r now)
  unfolding refresh
  refresh-Keeps r now = search frame_rules depth 12

  apply_read-Keeps :
      (r : Request) (now : ℕ) (s : Option ExchangeSnapshot) → Keeps c (apply_read c r now s)
  apply_read-Keeps r now none = pure-Keeps tt
  apply_read-Keeps r now (some s) = apply_snapshot-Keeps r s now

  halt_unread-Keeps : (b : Binding) (now : ℕ) (e : Exception) → Keeps c (halt_unread c b now e)
  unfolding halt_unread
  halt_unread-Keeps b now e = search frame_rules

  pub reconcile_binding-Keeps : (r : Request) (at : Timestamp) → Keeps c (reconcile_binding c r at)
  unfolding reconcile_binding
  reconcile_binding-Keeps r at =
      search (frame_rules, lift-Keeps, refresh-Keeps, apply_read-Keeps, halt_unread-Keeps) depth 12
