-- ===== src/Risk/Breaker/Latch.antt =====
-- domain/risk/manager.py: a halt that requires a manual reset stays until the exact confirmation.
use crypt_tool.Base.{
  ℕ, ◌≤◌, ◌≡◌, ◌≢◌, ◌⊎◌, Bool, true, false, ◌||◌, ◌+◌, inl, inr, Bool-cases, none, String, some,
  eq_iff, Option, List, [], ◌∷◌, All, arith,
}
use crypt_tool.Base.Int.{ℤ, pos_part}
use crypt_tool.Base.Results.{ok}
use crypt_tool.Time.{Timestamp, aware, naive, utc}
use crypt_tool.Risk.Breaker.{
  Halt, add, Breaker, trip, trip_for, latest, microseconds, cooldown_of, clear, is_empty, is_due,
  refreshed, status, status_at, reset,
}
use crypt_tool.Risk.Breaker.Invariant.{Call, trips, asks, resets, step, run}

-- Anything but a reset with the exact confirmation.
abbrev pub IsOther : Call → Type 0
IsOther (resets confirmation at) = confirmation ≢ "RESET_KILL_SWITCH"
IsOther _ = Unit

pub record IsLatched (b : Breaker) : Type 0 where
  pub halted : is_empty b.reasons ≡ false
  pub manual : b.manual_reset_required ≡ true

step-IsLatched : (b : Breaker) (c : Call) → IsOther c → IsLatched b → IsLatched (step b c)
unfolding step trip trip_for add status status_at refreshed is_due reset clear
step-IsLatched b (trips h at manual seconds detail) o v = ground arith
step-IsLatched b (asks at) o v = ground arith
step-IsLatched b (resets confirmation at) o v =
    ground (arith, eq_iff confirmation "RESET_KILL_SWITCH")

run-IsLatched : (b : Breaker) (cs : List Call) → All IsOther cs → IsLatched b → IsLatched (run b cs)
unfolding run
run-IsLatched b [] o v = v
run-IsLatched b (c ∷ cs) o v = run-IsLatched (step b c) cs o.1 (step-IsLatched b c o.0 v)

trip-IsLatched :
    (b b' : Breaker) (h : Halt) (at : Timestamp) (seconds : Option ℤ) (detail : Option String)
    → trip b h at true seconds detail ≡ ok b'
    → IsLatched b'
unfolding trip trip_for add
trip-IsLatched b b' h at seconds detail e = ground arith

-- After a trip that requires a manual reset, whatever is tripped, asked or wrongly confirmed
-- later and however late it is, the breaker's status is active and still requires the reset.
pub latched_status :
    (b b' : Breaker) (h : Halt) (at : Timestamp) (seconds : Option ℤ) (detail : Option String)
    (cs : List Call) (t : ℕ)
    → trip b h at true seconds detail ≡ ok b'
    → All IsOther cs
    → let s = (status_at (run b' cs) t).0 in (s.active ≡ true) × (s.requires_manual_reset ≡ true)
unfolding status_at refreshed is_due
latched_status b b' h at seconds detail cs t e o =
    let v = run-IsLatched b' cs o (trip-IsLatched b b' h at seconds detail e) in
    ground (arith, v.halted, v.manual)

-- Waits for an instant that is not before `r`.
abbrev pub WaitsUntil : ℕ → Option ℕ → Type 0
WaitsUntil r none = ⊥
WaitsUntil r (some s) = r ≤ s

latest_waits : (o : Option ℕ) (r t : ℕ) → o ≡ some r → WaitsUntil r (some (latest o t))
latest_waits o r t e = rw e (ground arith)

trip_for_extends :
    (b : Breaker) (h : Halt) (t : ℕ) (manual : Bool) (seconds : ℕ) (detail : Option String) (r : ℕ)
    → b.resume_at ≡ some r
    → let b' = trip_for b h t manual seconds detail in
      (b'.manual_reset_required ≡ true) ⊎ WaitsUntil r b'.resume_at
unfolding trip_for
trip_for_extends b h t manual seconds detail r w =
    elim (Bool-cases (b.manual_reset_required || manual)) [
      | inl forced ↦ inl forced
      | inr timed ↦ inr (rw timed (latest_waits b.resume_at r (t + microseconds seconds) w))
    ]

trip_cases :
    (b b' : Breaker) (h : Halt) (at : Timestamp) (manual : Bool) (seconds : Option ℤ)
    (detail : Option String)
    → trip b h at manual seconds detail ≡ ok b'
    → (t : ℕ) × (n : ℕ) × (b' ≡ trip_for b h t manual n detail)
unfolding trip utc
trip_cases b b' h (aware t) manual seconds detail e =
    (t, pos_part (cooldown_of b seconds), ground arith)
trip_cases b b' h (naive t) manual seconds detail e = absurd (ground arith)

-- While nothing is reset or asked, a later trip never brings the time to resume forward: a
-- breaker that waits for an instant waits at least as long, or for a manual reset.
pub trip_extends :
    (b b' : Breaker) (h : Halt) (at : Timestamp) (manual : Bool) (seconds : Option ℤ)
    (detail : Option String) (r : ℕ)
    → b.resume_at ≡ some r
    → trip b h at manual seconds detail ≡ ok b'
    → (b'.manual_reset_required ≡ true) ⊎ WaitsUntil r b'.resume_at
trip_extends b b' h at manual seconds detail r w e =
    let (t, n, e') = trip_cases b b' h at manual seconds detail e in
    rw e' (trip_for_extends b h t manual n detail r w)
