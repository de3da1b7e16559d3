-- ===== src/Live/Bindings.antt =====
-- services/live_trading/cross_venue_preflight.py: the bindings of a signal, changed by compare and
-- set, and the issuer of preflights. Under its lock every call of the repository is one step.
-- The hash of the fields and the keyed hash of a text are parameters.
use crypt_tool.Base.{
  ℕ, suc, ◌+◌, Bool, true, false, ◌&&◌, ◌||◌, not, String, str_eq, Option, none, some, List, [],
  ◌∷◌, any, length, ltb, leb, ◌==◌, if◌then◌else◌,
}
use crypt_tool.Base.Dict
use crypt_tool.Base.Results.{Result, ok, refuse_if, ◌>>=◌, ◌>>◌}
use crypt_tool.Time.{Timestamp, utc}
use crypt_tool.Decimal.{Decimal}
pub mod Versions
pub mod Issue

pub data State : Type 0 where
  unbound reserved first_leg_accepted second_leg_submitted hedging_required : State
  reconciliation_required completed aborted halted : State

pub record PositionSnapshot : Type 0 where
  pub venue : String
  pub symbol : String
  pub quantity_before : Decimal
  pub captured_at : ℕ

-- `PositionReconciliationSnapshot` with `__post_init__`.
unfoldable pub new_snapshot : String → String → Decimal → Timestamp → Result PositionSnapshot
new_snapshot venue symbol quantity captured_at = do
  refuse_if (str_eq venue "" || str_eq symbol "") "position snapshot venue and symbol are required"
  t ← utc captured_at
  ok (record { venue = venue; symbol = symbol; quantity_before = quantity; captured_at = t })

pub record Binding : Type 0 where
  pub signal_id : String
  pub preflight_hash : Option String
  pub state : State
  pub first_leg_role : Option String
  pub first_order_request_id : Option String
  pub first_external_order_id : Option String
  pub second_order_request_id : Option String
  pub second_external_order_id : Option String
  pub version : ℕ
  pub created_at : Option ℕ
  pub updated_at : Option ℕ
  pub failure_reason : Option String
  pub position_snapshot : Option PositionSnapshot

abbrev pub Repository : Type 0
Repository = List (String × Binding)

unfoldable pub get : Repository → String → Option Binding
get r signal_id = Dict.get signal_id r

-- `current.version if current is not None else 0`
abbrev pub version_or_zero : Option Binding → ℕ
version_or_zero none = 0
version_or_zero (some b) = b.version

unfoldable pub version_of : Repository → String → ℕ
version_of r signal_id = version_or_zero (get r signal_id)

unfoldable pub compare_and_set : Repository → String → ℕ → Binding → Bool × Repository
compare_and_set r signal_id expected b =
    if not (str_eq b.signal_id signal_id)
      || not (version_of r signal_id == expected)
      || not (b.version == expected + 1)
    then (false, r)
    else (true, Dict.put signal_id b r)

-- The instant is an aware one.
unfoldable pub new_binding : String → String → State → ℕ → Binding
new_binding signal_id preflight_hash state now = record {
  signal_id = signal_id;
  preflight_hash = some preflight_hash;
  state = state;
  first_leg_role = none;
  first_order_request_id = none;
  first_external_order_id = none;
  second_order_request_id = none;
  second_external_order_id = none;
  version = 1;
  created_at = some now;
  updated_at = some now;
  failure_reason = none;
  position_snapshot = none;
}

-- What a caller of `issue` passes: the fields of a preflight that it does not set itself.
pub record Values : Type 0 where
  pub issued_at : ℕ
  pub snapshot_ids : List String
  pub signal_id : String
  pub receive_venue : String
  pub pay_venue : String
  pub canonical_instrument_id : String
  pub receive_capability_hash : String
  pub pay_capability_hash : String
  pub receive_source_event_hash : String
  pub pay_source_event_hash : String
  pub receive_execution_health : Bool
  pub pay_execution_health : Bool
  pub receive_available_collateral : Decimal
  pub pay_available_collateral : Decimal
  pub receive_fillable_quantity : Decimal
  pub pay_fillable_quantity : Decimal
  pub receive_expected_vwap : Decimal
  pub pay_expected_vwap : Decimal
  pub maximum_naked_exposure_duration_ms : ℕ
  pub created_at : ℕ
  pub expires_at : ℕ

-- The fields that are hashed.
pub record Payload : Type 0 where
  pub values : Values
  pub issuer_id : String
  pub commit_sha : String

pub record Preflight : Type 0 where
  pub payload : Payload
  pub preflight_hash : String
  pub signature : String

pub record Service : Type 0 where
  pub issuer_id : String
  pub signing_key : List ℕ
  pub commit_sha : String

unfoldable pub new_service : String → List ℕ → String → Result Service
new_service issuer_id signing_key commit_sha = do
  refuse_if (str_eq issuer_id "" || ltb (length signing_key) 32 || str_eq commit_sha "")
      "preflight issuer, 32-byte signing key, and commit SHA are required"
  ok (record { issuer_id = issuer_id; signing_key = signing_key; commit_sha = commit_sha })

-- `len(ids) == len(set(ids))`
unfoldable pub all_distinct : List String → Bool
all_distinct [] = true
all_distinct (x ∷ xs) = not (any (str_eq x) xs) && all_distinct xs

abbrev pub is_nil : List String → Bool
is_nil [] = true
is_nil (x ∷ xs) = false

module _ (hash : Payload → String) (hmac : List ℕ → String → String) where
  unfoldable pub issue : Service → Values → Result Preflight
  issue svc v = do
    refuse_if (is_nil v.snapshot_ids || not (all_distinct v.snapshot_ids))
        "preflight snapshot ids must be non-empty and unique"
    let payload : Payload = record {
      values = v;
      issuer_id = svc.issuer_id;
      commit_sha = svc.commit_sha;
    }
    ok (record {
      payload = payload;
      preflight_hash = hash payload;
      signature = hmac svc.signing_key (hash payload);
    })

  unfoldable pub verify : Service → Preflight → ℕ → Result (Unit {0})
  verify svc p now = do
    refuse_if (not (str_eq p.payload.issuer_id svc.issuer_id)) "preflight issuer is not trusted"
    refuse_if (not (str_eq p.payload.commit_sha svc.commit_sha))
        "preflight commit SHA does not match deployment"
    refuse_if
        (is_nil p.payload.values.snapshot_ids || not (all_distinct p.payload.values.snapshot_ids))
        "preflight snapshot ids are invalid"
    refuse_if (not (leb p.payload.values.issued_at now)) "preflight issuance is future-dated"
    refuse_if (not (str_eq p.preflight_hash (hash p.payload))) "preflight hash is invalid"
    refuse_if (not (str_eq p.signature (hmac svc.signing_key (hash p.payload))))
        "preflight signature is invalid"
    ok tt
