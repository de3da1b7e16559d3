-- ===== src/Live/Gateway/Frame/Calls.antt =====
-- services/live_trading/gateway.py: previews, cancellations and the closing of positions.
use crypt_tool.Base.{ℕ, String, Option}
use crypt_tool.Base.Results.{Exception}
use crypt_tool.Time.{Timestamp, utc}
use crypt_tool.Live.Orders.{Request}
use crypt_tool.Live.Gateway.{Config}
use crypt_tool.Live.Gateway.Calls.{
  preview_order, preview_terms, cancel_order, close_position, call_failed, cancel_all,
}
use crypt_tool.Live.Gateway.Frame.{
  Keeps, frame_rules, raise-Keeps, pure-Keeps, >>=-Keeps, audit-Keeps,
}
use crypt_tool.Live.Gateway.Frame.Bindings.{lift-Keeps}
use crypt_tool.Live.Gateway.Frame.Validation.{validate_request-Keeps}

module _ {W : Type 0} (c : Config W) where
  pub preview-Keeps : (r : Request) (at : Timestamp) → Keeps c (preview_order c r at)
  unfolding preview_order
  preview-Keeps r at = >>=-Keeps (lift-Keeps (utc at)) (λ now.
      >>=-Keeps (validate_request-Keeps c r now (preview_terms c now))
        (λ v. >>=-Keeps (audit-Keeps c now _ _ _ _ _) (λ u. pure-Keeps _)))

  call_failed-Keeps :
      {A : Type 0} (now : ℕ) (event : String) (id : Option String) (message : String)
      (e : Exception)
      → Keeps c (call_failed c {A = A} now event id message e)
  unfolding call_failed
  call_failed-Keeps now event id message e =
      >>=-Keeps (audit-Keeps c now _ _ _ _ _) (λ u. raise-Keeps _)

  pub cancel-Keeps : (id : String) (at : Timestamp) → Keeps c (cancel_order c id at)
  unfolding cancel_order
  cancel-Keeps id at = search (frame_rules, lift-Keeps, call_failed-Keeps) depth 12

  pub close-Keeps : (symbol : String) (at : Timestamp) → Keeps c (close_position c symbol at)
  unfolding close_position
  close-Keeps symbol at = search (frame_rules, lift-Keeps, call_failed-Keeps) depth 12

  pub cancel_all-Keeps : (now : ℕ) (reason : String) → Keeps c (cancel_all c now reason)
  unfolding cancel_all
  cancel_all-Keeps now reason = search (frame_rules, call_failed-Keeps) depth 12
