-- ===== src/Base/Results.antt =====
-- Python exceptions as values: what a call returns, or the exception that it raises.
use Prim.Native.String.{String}
use mathlib.Core.Path.{◌≡◌, refl}
use mathlib.Core.Bool.{Bool, true, false}

-- The message is the literal part of the source's text; formatted values are left out.
pub data Exception : Type 0 where
  value_error duplicate_fill_error key_error runtime_error index_error : String → Exception
  execution_adapter_error : String → Exception
  -- Any other exception, by the name of its type.
  other_error : String → Exception

pub data Result {ℓ} (T : Type ℓ) : Type ℓ where
  err : Exception → Result T
  ok : T → Result T

-- `str(exc)`; of another exception only the name of its type is known.
abbrev pub message_of : Exception → String
message_of (value_error m) = m
message_of (duplicate_fill_error m) = m
message_of (key_error m) = m
message_of (runtime_error m) = m
message_of (index_error m) = m
message_of (execution_adapter_error m) = m
message_of (other_error name) = name

-- `if bad: raise ValueError(message)`.
abbrev pub refuse_if : Bool → String → Result (Unit {0})
refuse_if true message = err (value_error message)
refuse_if false message = ok tt

-- One call after another; an exception ends the block.
infixl 5 ◌>>=◌
abbrev pub ◌>>=◌ {ℓ κ} : {T : Type ℓ} {U : Type κ} → Result T → (T → Result U) → Result U
err e >>= next = err e
ok t >>= next = next t

infixl 5 ◌>>◌
abbrev pub ◌>>◌ {κ} : {U : Type κ} → Result (Unit {0}) → Result U → Result U
err e >> after = err e
ok t >> after = after

abbrev pub is_ok {ℓ} : {A : Type ℓ} → Result A → Bool
is_ok (ok a) = true
is_ok (err e) = false

-- Inversion of a successful bind.
pub >>=-eq-ok {ℓ κ} :
    {T : Type ℓ} {U : Type κ} (r : Result T) (next : T → Result U) {u : U}
    → (r >>= next) ≡ ok u
    → (t : T) × (r ≡ ok t) × (next t ≡ ok u)
>>=-eq-ok (err e) next h = cc
>>=-eq-ok (ok t) next h = (t, refl, h)
