-- ===== src/Live/Gateway/Reconcile.antt =====
-- services/live_trading/gateway.py: `_refresh_binding_and_exchange_state`,
-- `_handle_cas_snapshot`, `_apply_reconciliation_snapshot` and `reconcile_binding`.
use crypt_tool.Base.{
  ℕ, ◌+◌, Bool, true, false, ◌&&◌, ◌||◌, String, Option, none, some, ◌==◌, if◌then◌else◌,
}
use Prim.Native.String.{◌++◌ as str_append}
use crypt_tool.Base.Results.{Exception, value_error, execution_adapter_error}
use crypt_tool.Time.{Timestamp, utc}
use crypt_tool.Live.Bindings.{
  State, unbound, reserved, first_leg_accepted, second_leg_submitted, hedging_required,
  reconciliation_required, completed, aborted, halted, Binding, new_binding,
}
use crypt_tool.Live.Orders.{Request}
use crypt_tool.Live.Gateway.{
  Config, Call, ◌>>=◌, ◌>>◌, pure, raise, catch, await, current_binding, cas, or_conflict,
  transition, as_it_is, type_name,
}
use crypt_tool.Live.Gateway.Reserve.{
  is_unbound, is_aborted, is_role, lift, with_second_id, with_first_leg, with_first_request,
  with_second_request,
}
use crypt_tool.Live.Gateway.Snapshot.{
  ExchangeSnapshot, since_of, is_fill_of, is_order_of, those, is_ambiguous, proves_order_exists,
  proves_order_absent, external_order_id_of,
}

abbrev pub is_reconciling : State → Bool
is_reconciling reconciliation_required = true
is_reconciling _ = false

-- `created_at or timestamp`
abbrev pub or_now : Option ℕ → ℕ → Option ℕ
or_now none now = some now
or_now (some t) now = some t

-- A binding made for an order that was found without a reservation.
abbrev pub recovered : Binding → Request → ℕ → String → Binding
recovered current r now reason =
    record (new_binding r.signal_id r.cross_venue_preflight.preflight_hash reconciliation_required
      now) {
        version = current.version + 1;
        created_at = or_now current.created_at now;
        first_order_request_id = some r.request_id;
        failure_reason = some reason;
        position_snapshot = current.position_snapshot;
      }

-- The latest binding, if it is another version.
abbrev pub latest_of : Binding → Binding → Binding
latest_of latest current = if latest.version == current.version then current else latest

module _ {W : Type 0} where
  -- The order was found: the binding takes it as the leg that it is.
  unfoldable pub adopt : Binding → Request → ExchangeSnapshot → ℕ → Bool → Call W (Unit {0})
  adopt current r s now second =
      if second
      then transition current completed now none (with_second_id (external_order_id_of r s))
      else transition current first_leg_accepted now none
          (with_first_leg r.order_leg_role r.request_id (external_order_id_of r s))

  unfoldable pub settle_snapshot : Binding → Request → ExchangeSnapshot → ℕ → Call W (Unit {0})
  settle_snapshot current r s now =
      let second = is_role current.second_order_request_id r.request_id in
      if is_ambiguous r s
      then transition current halted now (some "exchange reconciliation is ambiguous") as_it_is
      else if proves_order_exists r s
      then adopt current r s now second
      else if proves_order_absent r s
      then transition current (if second then hedging_required else aborted) now
          (some "exchange reconciliation found no submitted order") as_it_is
      else transition current halted now
          (some "exchange reconciliation could not determine order state") as_it_is

  -- `_apply_reconciliation_snapshot`
  unfoldable pub apply_snapshot : Request → ExchangeSnapshot → ℕ → Call W (Unit {0})
  apply_snapshot r s now = do
    current ← current_binding r.signal_id
    if is_reconciling current.state
        then settle_snapshot current r s now
        else raise (execution_adapter_error "binding changed during reconciliation")

  unfoldable pub ensure_from : State → Binding → Request → ℕ → String → Call W Binding
  ensure_from reconciliation_required current r now reason = pure current
  ensure_from unbound current r now reason = do
    done ← cas current (recovered current r now reason)
    or_conflict done
    current_binding r.signal_id
  ensure_from aborted current r now reason = do
    done ← cas current (recovered current r now reason)
    or_conflict done
    current_binding r.signal_id
  ensure_from reserved current r now reason = do
    transition current reconciliation_required now (some reason) (with_first_request r.request_id)
    current_binding r.signal_id
  ensure_from second_leg_submitted current r now reason = do
    transition current reconciliation_required now (some reason) (with_second_request r.request_id)
    current_binding r.signal_id
  ensure_from _ current r now reason = pure current

  -- `_ensure_reconciliation_required`
  unfoldable pub ensure_reconciliation_required : Request → Binding → ℕ → String → Call W Binding
  ensure_reconciliation_required r current now reason = do
    latest ← current_binding r.signal_id
    let b = latest_of latest current
    ensure_from b.state b r now reason

  -- An order that exists.
  unfoldable pub handle_existing : Request → ExchangeSnapshot → ℕ → Call W Bool
  handle_existing r s now = do
    current ←
        ensure_reconciliation_required r s.binding now
          "CAS conflict found an existing exchange order"
    if is_reconciling current.state
        then apply_snapshot r (record s { binding = current }) now
        else pure tt
    pure false

  unfoldable pub handle_ambiguous : Request → ExchangeSnapshot → ℕ → Call W Bool
  handle_ambiguous r s now = do
    current ←
        ensure_reconciliation_required r s.binding now "CAS conflict exchange state is ambiguous"
    if is_reconciling current.state
        then transition current halted now (some "CAS conflict exchange state is ambiguous")
            as_it_is
        else pure tt
    pure false

  unfoldable pub handle_unknown : Request → ExchangeSnapshot → ℕ → Call W Bool
  handle_unknown r s now = do
    current ←
        ensure_reconciliation_required r s.binding now
          "CAS conflict requires exchange reconciliation"
    pure false

  -- `_handle_cas_snapshot`: true only if the reservation can be tried again.
  unfoldable pub handle_cas_snapshot : Request → ExchangeSnapshot → ℕ → Call W Bool
  handle_cas_snapshot r s now =
      if proves_order_exists r s
      then handle_existing r s now
      else if is_ambiguous r s
      then handle_ambiguous r s now
      else if (is_unbound s.binding.state || is_aborted s.binding.state) && proves_order_absent r s
      then pure true
      else handle_unknown r s now

module _ {W : Type 0} (c : Config W) where
  -- `_refresh_binding_and_exchange_state`
  unfoldable pub refresh : Request → ℕ → Call W ExchangeSnapshot
  refresh r captured_at = do
    binding ← current_binding r.signal_id
    let since = since_of binding.position_snapshot r.created_at
    fills ← await (c.adapter.fetch_recent_fills r.symbol since)
    client_order ← await (c.adapter.lookup_order_by_client_id r.request_id)
    open_orders ← await (c.adapter.fetch_open_orders (some r.symbol))
    positions ← await c.adapter.fetch_positions
    pure (record {
      binding = binding;
      client_order = client_order;
      matching_fills = those (is_fill_of r since captured_at) fills;
      matching_open_orders = those (is_order_of r since captured_at) open_orders;
      positions = positions;
      captured_at = captured_at;
    })

  abbrev refreshed : Request → ℕ → Call W (Option ExchangeSnapshot)
  refreshed r now = do s ← refresh r now; pure (some s)

  -- Reading the exchange failed: the binding is halted.
  unfoldable pub halt_unread : Binding → ℕ → Exception → Call W (Option ExchangeSnapshot)
  halt_unread current now e = do
    transition current halted now (some (str_append "reconciliation failed: " (type_name e)))
        as_it_is
    pure none

  abbrev pub apply_read : Request → ℕ → Option ExchangeSnapshot → Call W (Unit {0})
  apply_read r now none = pure tt
  apply_read r now (some s) = apply_snapshot r s now

  unfoldable pub reconcile_binding : Request → Timestamp → Call W Binding
  reconcile_binding r timestamp = do
    now ← lift (utc timestamp)
    current ← current_binding r.signal_id
    if is_reconciling current.state
        then pure tt
        else raise (value_error "preflight binding does not require reconciliation")
    read ← catch (refreshed r now) (halt_unread current now)
    apply_read r now read
    current_binding r.signal_id
