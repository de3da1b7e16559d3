-- ===== src/Strategies/Capabilities.antt =====
-- domain/strategies/capabilities.py: the registry of the capabilities that strategies require.
use crypt_tool.Base.{
  Bool, true, false, ◌&&◌, ◌||◌, not, String, str_eq, Option, none, some, List, [], ◌∷◌, all, any,
  if◌then◌else◌,
}
use crypt_tool.Base.Results.{Result, refuse_if}

pub record RequiredVenueCapability : Type 0 where
  pub venue_role : String
  pub capability : String

abbrev need : String → String → RequiredVenueCapability
need role capability = record { venue_role = role; capability = capability }

pub record Registered : Type 0 where
  pub strategy_id : String
  pub strategy_version : String
  pub required : List RequiredVenueCapability

abbrev entry : String → List RequiredVenueCapability → Registered
entry id required = record { strategy_id = id; strategy_version = "1"; required = required }

abbrev pub registry : List Registered
registry =
    entry "funding_carry" (
      need "receive_leg" "funding_current"
      ∷ need "receive_leg" "orderbook_snapshot"
      ∷ need "pay_leg" "funding_current"
      ∷ need "pay_leg" "orderbook_snapshot"
      ∷ [])
    ∷ entry "cross_venue_basis" (
        need "receive_leg" "orderbook_snapshot"
        ∷ need "receive_leg" "index_price"
        ∷ need "pay_leg" "orderbook_snapshot"
        ∷ need "pay_leg" "index_price"
        ∷ [])
    ∷ entry "liquidation_exhaustion" (
        need "order_leg" "market_liquidation_stream"
        ∷ need "order_leg" "open_interest"
        ∷ need "order_leg" "trades"
        ∷ [])
    ∷ []

-- `STRATEGY_CAPABILITY_REGISTRY.get((strategy_id, strategy_version))`
unfoldable pub lookup : List Registered → String → String → Option (List RequiredVenueCapability)
lookup [] id version = none
lookup (r ∷ rs) id version =
    if str_eq r.strategy_id id && str_eq r.strategy_version version
    then some r.required
    else lookup rs id version

-- The capabilities that one role needs.
unfoldable pub needs_of : String → List RequiredVenueCapability → List String
needs_of role [] = []
needs_of role (r ∷ rs) =
    let rest = needs_of role rs in if str_eq r.venue_role role then r.capability ∷ rest else rest

unfoldable pub are_distinct : List String → Bool
are_distinct [] = true
are_distinct (x ∷ xs) = not (any (str_eq x) xs) && are_distinct xs

abbrev no_instruments : List String → Bool
no_instruments [] = true
no_instruments (x ∷ xs) = false

unfoldable pub validate_shadow_instruments : List String → Result (Unit {0})
validate_shadow_instruments xs =
    refuse_if
      (no_instruments xs
        || not (are_distinct xs)
        || not (all (λ x. str_eq x "BTC" || str_eq x "SOL") xs))
      "shadow instruments must be a non-empty unique subset of BTC/SOL"
