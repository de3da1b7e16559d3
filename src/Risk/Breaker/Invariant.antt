-- ===== src/Risk/Breaker/Invariant.antt =====
-- domain/risk/manager.py: what is always true of a circuit breaker.
use crypt_tool.Base.{
  ℕ, ◌≡◌, ◌↔◌, ◌⊎◌, Bool, true, false, String, Option, none, some, List, [], ◌∷◌, is_some, leb,
  arith,
}
use crypt_tool.Base.Int.{ℤ}
use crypt_tool.Base.Results.{Result, ok, err, ◌>>=◌}
use crypt_tool.Time.{Timestamp}
use crypt_tool.Risk.Breaker.{
  Halt, add, Breaker, new, trip, trip_for, clear, is_empty, is_due, refreshed, status, status_at,
  reset,
}

-- The calls of the risk manager and of an operator.
pub data Call : Type 0 where
  trips : Halt → Timestamp → Bool → Option ℤ → Option String → Call
  asks : Timestamp → Call
  resets : String → Timestamp → Call

abbrev pub after : Breaker → Result Breaker → Breaker
after b (ok b') = b'
after b (err e) = b

unfoldable pub step : Breaker → Call → Breaker
step b (trips h at manual seconds detail) = after b (trip b h at manual seconds detail)
step b (asks at) = after b (status b at >>= λ r. ok r.1)
step b (resets confirmation at) = after b (reset b confirmation at)

unfoldable pub run : Breaker → List Call → Breaker
run b [] = b
run b (c ∷ cs) = run (step b c) cs

-- A breaker with a reason has been tripped, and either waits for a manual reset and has no time
-- to resume, or has one; a breaker without reasons is clean.
pub record IsValid (b : Breaker) : Type 0 where
  pub tripped : is_empty b.reasons ≡ false → is_some b.tripped_at ≡ true
  pub clean :
      is_empty b.reasons ≡ true
      → (b.tripped_at ≡ none)
        × (b.resume_at ≡ none)
        × (b.manual_reset_required ≡ false)
        × (b.details ≡ [])
  pub manual : b.manual_reset_required ≡ true → b.resume_at ≡ none
  pub timed :
      is_empty b.reasons ≡ false → b.manual_reset_required ≡ false → is_some b.resume_at ≡ true

new-IsValid : (seconds : ℤ) (b : Breaker) → new seconds ≡ ok b → IsValid b
unfolding new
new-IsValid seconds b h = ground arith

step-IsValid : (b : Breaker) (c : Call) → IsValid b → IsValid (step b c)
unfolding step trip trip_for add status status_at refreshed clear reset
step-IsValid b (trips h at manual seconds detail) v = ground arith
step-IsValid b (asks at) v = ground arith
step-IsValid b (resets confirmation at) v = ground arith

run-IsValid : (b : Breaker) (cs : List Call) → IsValid b → IsValid (run b cs)
unfolding run
run-IsValid b [] v = v
run-IsValid b (c ∷ cs) v = run-IsValid (step b c) cs (step-IsValid b c v)

-- Whatever is called on a new breaker, it is valid: it is never halted with neither a time to
-- resume nor a manual reset to wait for, and never keeps parts of an old halt.
pub run-new-IsValid :
    (seconds : ℤ) (b : Breaker) (cs : List Call) → new seconds ≡ ok b → IsValid (run b cs)
run-new-IsValid seconds b cs h = run-IsValid b cs (new-IsValid seconds b h)

-- A status asked of a valid breaker is active exactly if there is a reason and either a manual
-- reset is required or the time to resume is still to come.
pub status_active :
    (b : Breaker) (t : ℕ)
    → IsValid b
    → ((status_at b t).0.active ≡ true) ↔ (
        (is_empty b.reasons ≡ false)
        × ((b.manual_reset_required ≡ true)
            ⊎ ((r : ℕ) × (b.resume_at ≡ some r) × (leb r t ≡ false))))
unfolding status_at refreshed clear is_due
status_active b t v = ground arith
