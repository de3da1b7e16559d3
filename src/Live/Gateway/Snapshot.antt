-- ===== src/Live/Gateway/Snapshot.antt =====
-- services/live_trading/gateway.py: the state of an exchange read back for a request, and what it
-- proves of the request's order.
use crypt_tool.Base.{
  ℕ, Bool, true, false, ◌&&◌, ◌||◌, not, String, str_eq, Option, none, some, List, [], ◌∷◌, any,
  all, leb, ltb, length, ◌==◌, is_some, if◌then◌else◌,
}
use crypt_tool.Decimal.{Decimal, zero_dec, le, lt, eq, add, sub, neg}
use crypt_tool.Execution.Orders.{Side, buy, sell}
use crypt_tool.Live.Bindings.{PositionSnapshot, Binding}
use crypt_tool.Live.Orders.{Request}
use crypt_tool.Live.Exchange.{
  OpenOrder, ExecutionFill, ReconciledOrder, pending, still_open, partially_filled, filled,
  LivePosition,
}

-- `ExchangeReconciliationSnapshot`.
pub record ExchangeSnapshot : Type 0 where
  pub binding : Binding
  pub client_order : Option ReconciledOrder
  pub matching_fills : List ExecutionFill
  pub matching_open_orders : List OpenOrder
  pub positions : List LivePosition
  pub captured_at : ℕ

abbrev pub same_side : Side → Side → Bool
same_side buy buy = true
same_side sell sell = true
same_side _ _ = false

abbrev pub same_flag : Bool → Bool → Bool
same_flag true b = b
same_flag false b = not b

abbrev pub since_of : Option PositionSnapshot → ℕ → ℕ
since_of none created_at = created_at
since_of (some s) created_at = s.captured_at

abbrev pub is_between : ℕ → ℕ → ℕ → Bool
is_between lo at hi = leb lo at && leb at hi

unfoldable pub is_fill_of : Request → ℕ → ℕ → ExecutionFill → Bool
is_fill_of r since captured_at f =
    str_eq f.client_order_id r.request_id
    && str_eq f.exchange r.exchange
    && str_eq f.symbol r.symbol
    && same_side f.side r.side
    && is_between since f.executed_at captured_at

unfoldable pub is_order_of : Request → ℕ → ℕ → OpenOrder → Bool
is_order_of r since captured_at o =
    str_eq o.client_order_id r.request_id
    && str_eq o.exchange r.exchange
    && str_eq o.symbol r.symbol
    && same_side o.side r.side
    && same_flag o.reduce_only r.reduce_only
    && eq o.quantity r.quantity
    && is_between since o.created_at captured_at

module _ {A : Type 0} (keeps : A → Bool) where
  -- `tuple(item for item in items if ...)`
  abbrev pub those : List A → List A
  those [] = []
  those (x ∷ xs) = let rest = those xs in if keeps x then x ∷ rest else rest

abbrev pub is_at : Request → LivePosition → Bool
is_at r p = str_eq p.exchange r.exchange && str_eq p.symbol r.symbol

abbrev pub at_most_one : List LivePosition → Decimal → Option Decimal
at_most_one [] before = some (sub zero_dec before)
at_most_one (p ∷ []) before = some (sub p.quantity before)
at_most_one (p ∷ q ∷ ps) before = none

unfoldable pub delta_from : Request → List LivePosition → Option PositionSnapshot → Option Decimal
delta_from r positions none = none
delta_from r positions (some s) =
    if not (str_eq s.venue r.exchange) || not (str_eq s.symbol r.symbol)
    then none
    else at_most_one (those (is_at r) positions) s.quantity_before

-- `_position_delta`
unfoldable pub position_delta : Request → ExchangeSnapshot → Option Decimal
unfolding delta_from
position_delta r s = delta_from r s.positions s.binding.position_snapshot

unfoldable pub order_matches : Request → ℕ → ℕ → Option ReconciledOrder → Bool
order_matches r since captured_at none = false
order_matches r since captured_at (some o) =
    str_eq o.client_order_id r.request_id
    && str_eq o.exchange r.exchange
    && str_eq o.symbol r.symbol
    && same_side o.side r.side
    && eq o.original_quantity r.quantity
    && same_flag o.reduce_only r.reduce_only
    && is_between since o.created_at captured_at
    && is_between o.created_at o.updated_at captured_at

-- `_client_order_matches`
unfoldable pub client_order_matches : Request → ExchangeSnapshot → Bool
unfolding order_matches
client_order_matches r s =
    order_matches r (since_of s.binding.position_snapshot r.created_at) s.captured_at s.client_order

unfoldable pub total_quantity : List ExecutionFill → Decimal
total_quantity [] = zero_dec
total_quantity (f ∷ fs) = add f.quantity (total_quantity fs)

abbrev pub no_fills : List ExecutionFill → Bool
no_fills [] = true
no_fills (f ∷ fs) = false

abbrev pub no_orders : List OpenOrder → Bool
no_orders [] = true
no_orders (o ∷ os) = false

abbrev pub signed : Side → Decimal → Decimal
signed buy q = q
signed sell q = neg q

-- `delta == value`, for a delta that is known.
abbrev pub is_delta : Option Decimal → Decimal → Bool
is_delta none value = false
is_delta (some d) value = eq d value

-- `_fills_match_position_delta`
unfoldable pub fills_match_position_delta : Request → ExchangeSnapshot → Bool
fills_match_position_delta r s =
    not (no_fills s.matching_fills)
    && le (total_quantity s.matching_fills) r.quantity
    && is_delta (position_delta r s) (signed r.side (total_quantity s.matching_fills))

-- `status in {OPEN, PARTIALLY_FILLED, FILLED}`
abbrev pub is_live : Option ReconciledOrder → Bool
is_live none = false
is_live (some o) = elim o.status [
  | still_open ↦ true
  | partially_filled ↦ true
  | filled ↦ true
  | _ ↦ false
]

abbrev pub is_pending : Option ReconciledOrder → Bool
is_pending none = false
is_pending (some o) = elim o.status [ pending ↦ true | _ ↦ false ]

-- `_snapshot_proves_order_exists`
unfoldable pub proves_order_exists : Request → ExchangeSnapshot → Bool
proves_order_exists r s =
    client_order_matches r s && is_live s.client_order
    || length s.matching_open_orders == 1
    || fills_match_position_delta r s

-- A client order that was found but is another one.
abbrev pub is_foreign : Request → ExchangeSnapshot → Bool
is_foreign r s = is_some s.client_order && not (client_order_matches r s)

-- `_snapshot_proves_order_absent`
unfoldable pub proves_order_absent : Request → ExchangeSnapshot → Bool
proves_order_absent r s =
    not (is_foreign r s)
    && no_fills s.matching_fills
    && no_orders s.matching_open_orders
    && is_delta (position_delta r s) zero_dec

-- Two fills with one identifier.
unfoldable pub repeats_fill : List ExecutionFill → Bool
repeats_fill [] = false
repeats_fill (f ∷ fs) =
    any (λ (x : ExecutionFill). str_eq x.fill_id f.fill_id) fs || repeats_fill fs

-- All fills are of one exchange order.
unfoldable pub one_order : List ExecutionFill → Bool
one_order [] = false
one_order (f ∷ fs) = all (λ (x : ExecutionFill). str_eq x.exchange_order_id f.exchange_order_id) fs

unfoldable pub fills_ambiguous : Request → ExchangeSnapshot → Bool
fills_ambiguous r s =
    not (no_fills s.matching_fills)
    && (repeats_fill s.matching_fills
        || not (one_order s.matching_fills)
        || lt r.quantity (total_quantity s.matching_fills)
        || not (fills_match_position_delta r s))

-- `delta not in {None, Decimal(0)}`
abbrev pub has_moved : Option Decimal → Bool
has_moved none = false
has_moved (some d) = not (eq d zero_dec)

-- `_snapshot_is_ambiguous`
unfoldable pub is_ambiguous : Request → ExchangeSnapshot → Bool
is_ambiguous r s =
    is_foreign r s
    || is_pending s.client_order
    || ltb 1 (length s.matching_open_orders)
    || fills_ambiguous r s
    || has_moved (position_delta r s) && no_fills s.matching_fills

abbrev order_id_of : Option ReconciledOrder → Option String
order_id_of none = none
order_id_of (some o) = some o.external_order_id

abbrev fill_order_id : List ExecutionFill → Option String
fill_order_id [] = none
fill_order_id (f ∷ fs) = some f.exchange_order_id

abbrev open_order_id : List OpenOrder → Option String → Option String
open_order_id (o ∷ []) other = some o.external_order_id
open_order_id [] other = other
open_order_id (o ∷ p ∷ os) other = other

-- `_snapshot_external_order_id`
unfoldable pub external_order_id_of : Request → ExchangeSnapshot → Option String
external_order_id_of r s =
    if client_order_matches r s
    then order_id_of s.client_order
    else open_order_id s.matching_open_orders (fill_order_id s.matching_fills)
