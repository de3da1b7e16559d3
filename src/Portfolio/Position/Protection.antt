-- ===== src/Portfolio/Position/Protection.antt =====
-- domain/portfolio/models.py: stop loss and take profit.
use crypt_tool.Base.{◌≡◌, ◌↔◌, true, false, Option, some, arith}
use crypt_tool.Base.Results.{ok}
use crypt_tool.Decimal.{Decimal, zero_dec, le, lt}
use crypt_tool.Decimal.Order.{le_total, lt_asymm}
use crypt_tool.Execution.Orders.{Snapshot}
use crypt_tool.Portfolio.Position.{
  Position, is_open, bad_stop, bad_take, set_protection, stop_loss_hit, take_profit_hit, executable,
  stop_reached, take_reached, protection_trigger,
}

-- A protection that is accepted for an open position lies on the right sides of its entry, for a
-- long and for a short position, and is what is stored.
pub set_protection_sides :
    (p q : Position) (stop take : Option Decimal)
    → is_open p ≡ true
    → set_protection p stop take ≡ ok q
    → (q.stop_loss ≡ stop)
      × (q.take_profit ≡ take)
      × ((v : Decimal)
          → stop ≡ some v
          → lt zero_dec p.quantity ≡ true
          → lt v q.average_entry_price ≡ true)
      × ((v : Decimal)
          → stop ≡ some v
          → lt zero_dec p.quantity ≡ false
          → lt q.average_entry_price v ≡ true)
      × ((v : Decimal)
          → take ≡ some v
          → lt zero_dec p.quantity ≡ true
          → lt q.average_entry_price v ≡ true)
      × ((v : Decimal)
          → take ≡ some v
          → lt zero_dec p.quantity ≡ false
          → lt v q.average_entry_price ≡ true)
unfolding set_protection bad_stop bad_take
set_protection_sides p q stop take opened h = (
  ground arith,
  ground arith,
  λ v e s. ground arith,
  λ v e s. ground arith,
  λ v e s. ground arith,
  λ v e s. ground arith,
)

-- A long position with both protections: the stop fires exactly at a bid at or below it, and the
-- target exactly at a bid at or above it that does not fire the stop.
pub protection_trigger_long :
    (p : Position) (s : Snapshot) (stop take : Decimal)
    → lt zero_dec p.quantity ≡ true
    → p.stop_loss ≡ some stop
    → p.take_profit ≡ some take
    → ((protection_trigger p s ≡ some stop_loss_hit) ↔ (le s.bid stop ≡ true))
      × ((protection_trigger p s ≡ some take_profit_hit)
          ↔ ((lt stop s.bid ≡ true) × (le take s.bid ≡ true)))
unfolding protection_trigger stop_reached take_reached executable
protection_trigger_long p s stop take held es et =
    ground (arith, lt_asymm zero_dec p.quantity, le_total p.quantity zero_dec)
