-- ===== src/Live/Gateway/Worlds.antt =====
-- services/live_trading/gateway.py: what a call may pass through outside of the gateway.
use crypt_tool.Base.{ℕ, String, Option, none}
use crypt_tool.Live.Bindings.{Repository}
use crypt_tool.Live.Orders.{Request, AuditEvent}
use crypt_tool.Live.Exchange.{World}
use crypt_tool.Live.Gateway.{Config, tell}

-- What a call of the adapter leaves.
pub data IsNext {W : Type 0} (c : Config W) (w : World W) : World W → Type 0 where
  placed : (r : Request) → IsNext c w (c.adapter.place_order r w).1
  canceled : (id : String) → IsNext c w (c.adapter.cancel_order id w).1
  canceled_all : IsNext c w (c.adapter.cancel_all_orders w).1
  orders_read : (symbol : Option String) → IsNext c w (c.adapter.fetch_open_orders symbol w).1
  positions_read : IsNext c w (c.adapter.fetch_positions w).1
  fills_read :
      (symbol : String) (since : ℕ) → IsNext c w (c.adapter.fetch_recent_fills symbol since w).1
  looked_up : (id : String) → IsNext c w (c.adapter.lookup_order_by_client_id id w).1
  closed : (symbol : String) → IsNext c w (c.adapter.close_position symbol w).1
  health_checked : IsNext c w (c.adapter.health_check w).1

-- Calls of the adapter, writes of the bindings, and events given to the sink of the audit.
pub data Passes {W : Type 0} (c : Config W) (v : World W) : World W → Type 0 where
  here : Passes c v v
  answered :
      {w x : World W} → Passes c v w → IsNext c w x → Passes c v (record x { activated = none })
  bound :
      {w : World W}
      → Passes c v w
      → (bindings : Repository) → Passes c v (record w { bindings = bindings })
  told : {w : World W} → Passes c v w → (e : AuditEvent) → Passes c v (tell c c.audit_sink e w)

pub Passes-trans :
    {W : Type 0} {c : Config W} {u v w : World W} → Passes c u v → Passes c v w → Passes c u w
Passes-trans p here = p
Passes-trans p (answered q n) = answered (Passes-trans p q) n
Passes-trans p (bound q bs) = bound (Passes-trans p q) bs
Passes-trans p (told q e) = told (Passes-trans p q) e
