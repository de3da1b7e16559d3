-- ===== src/Risk/Breaker.antt =====
-- domain/risk/manager.py, `CircuitBreaker`: a halt that latches.
use crypt_tool.Base.{
  ℕ, ◌+◌, ◌*◌, ◌≡◌, Bool, true, false, ◌&&◌, ◌||◌, not, String, str_eq, Option, none, some, List,
  [], ◌∷◌, ◌++◌, any, leb, ltb, if◌then◌else◌,
}
use crypt_tool.Base.Int.{ℤ, pos, pos_part, leb_ℤ}
use crypt_tool.Base.Results.{value_error, Result, ok, err, refuse_if, ◌>>=◌, ◌>>◌}
use crypt_tool.Time.{Timestamp, utc}
pub mod Invariant
pub mod Latch

-- `RiskHaltReason`, in the order of the texts.
pub data Halt : Type 0 where
  api_unhealthy consecutive_losses cooldown daily_loss data_anomaly manual_kill_switch : Halt
  max_drawdown price_divergence spread_anomaly websocket_disconnected weekly_loss : Halt

abbrev pub rank : Halt → ℕ
rank api_unhealthy = 0
rank consecutive_losses = 1
rank cooldown = 2
rank daily_loss = 3
rank data_anomaly = 4
rank manual_kill_switch = 5
rank max_drawdown = 6
rank price_divergence = 7
rank spread_anomaly = 8
rank websocket_disconnected = 9
rank weekly_loss = 10

abbrev pub same_halt : Halt → Halt → Bool
same_halt a b = leb (rank a) (rank b) && leb (rank b) (rank a)

abbrev pub all_halts : List Halt
all_halts =
    api_unhealthy ∷ consecutive_losses ∷ cooldown ∷ daily_loss ∷ data_anomaly ∷ manual_kill_switch
    ∷ max_drawdown ∷ price_divergence ∷ spread_anomaly ∷ websocket_disconnected ∷ weekly_loss ∷ []

-- The set of reasons is a list with no order of its own; `add` keeps one copy of each.
abbrev pub has : Halt → List Halt → Bool
has h = any (same_halt h)

unfoldable pub add : Halt → List Halt → List Halt
add h hs = if has h hs then hs else h ∷ hs

-- `sorted(self._reasons, key=str)`
unfoldable pub sorted : List Halt → List Halt → List Halt
sorted [] hs = []
sorted (h ∷ rest) hs = let later = sorted rest hs in if has h hs then h ∷ later else later

-- `self._details[reason] = detail`
unfoldable pub set_detail : Halt → String → List (Halt × String) → List (Halt × String)
set_detail h d [] = (h, d) ∷ []
set_detail h d ((k, e) ∷ rest) =
    if same_halt k h then (k, d) ∷ rest else (k, e) ∷ set_detail h d rest

pub record Breaker : Type 0 where
  pub default_cooldown_seconds : ℕ
  pub reasons : List Halt
  pub details : List (Halt × String)
  pub tripped_at : Option ℕ
  pub resume_at : Option ℕ
  pub manual_reset_required : Bool
  pub last_reset_at : Option ℕ

unfoldable pub new : ℤ → Result Breaker
new default_cooldown_seconds = do
  refuse_if (leb_ℤ default_cooldown_seconds (pos 0)) "default cooldown must be positive"
  ok (record {
    default_cooldown_seconds = pos_part default_cooldown_seconds;
    reasons = [];
    details = [];
    tripped_at = none;
    resume_at = none;
    manual_reset_required = false;
    last_reset_at = none;
  })

abbrev pub microseconds : ℕ → ℕ
microseconds s = s * 1000000

-- `if self._tripped_at is None or at < self._tripped_at`
abbrev pub earliest : Option ℕ → ℕ → ℕ
earliest none t = t
earliest (some s) t = if ltb t s then t else s

-- `if self._resume_at is None or candidate_resume > self._resume_at`
abbrev pub latest : Option ℕ → ℕ → ℕ
latest none t = t
latest (some s) t = if ltb s t then t else s

-- `if detail: ...`: an absent detail, and an empty one, are left out.
abbrev pub note_detail : Halt → Option String → List (Halt × String) → List (Halt × String)
note_detail h none ds = ds
note_detail h (some d) ds = if str_eq d "" then ds else set_detail h d ds

-- `trip` at an instant, for a cooldown that is positive.
unfoldable pub trip_for : Breaker → Halt → ℕ → Bool → ℕ → Option String → Breaker
trip_for b h t manual seconds detail = record b {
  reasons = add h b.reasons;
  details = note_detail h detail b.details;
  tripped_at = some (earliest b.tripped_at t);
  manual_reset_required = b.manual_reset_required || manual;
  resume_at =
      if b.manual_reset_required || manual
      then none
      else some (latest b.resume_at (t + microseconds seconds));
}

abbrev pub cooldown_of : Breaker → Option ℤ → ℤ
cooldown_of b none = pos b.default_cooldown_seconds
cooldown_of b (some c) = c

unfoldable pub trip : Breaker → Halt → Timestamp → Bool → Option ℤ → Option String → Result Breaker
trip b h at manual cooldown_seconds detail = do
  t ← utc at
  refuse_if (leb_ℤ (cooldown_of b cooldown_seconds) (pos 0)) "cooldown must be positive"
  ok (trip_for b h t manual (pos_part (cooldown_of b cooldown_seconds)) detail)

unfoldable pub clear : Breaker → ℕ → Breaker
clear b t = record b {
  reasons = [];
  details = [];
  tripped_at = none;
  resume_at = none;
  manual_reset_required = false;
  last_reset_at = some t;
}

pub record Status : Type 0 where
  pub active : Bool
  pub reasons : List Halt
  pub details : List (Halt × String)
  pub tripped_at : Option ℕ
  pub resume_at : Option ℕ
  pub requires_manual_reset : Bool

abbrev pub is_empty : List Halt → Bool
is_empty [] = true
is_empty (h ∷ hs) = false

-- The cooldown is over, and no manual reset is required.
unfoldable pub is_due : Breaker → ℕ → Bool
is_due b t =
    not (is_empty b.reasons)
    && not b.manual_reset_required
    && elim b.resume_at [ none ↦ false | some r ↦ leb r t ]

abbrev pub report : Breaker → Status
report b = record {
  active = not (is_empty b.reasons);
  reasons = sorted all_halts b.reasons;
  details = b.details;
  tripped_at = b.tripped_at;
  resume_at = b.resume_at;
  requires_manual_reset = b.manual_reset_required;
}

-- What `status` leaves.
unfoldable pub refreshed : Breaker → ℕ → Breaker
refreshed b t = if is_due b t then clear b t else b

unfoldable pub status_at : Breaker → ℕ → Status × Breaker
status_at b t = (report (refreshed b t), refreshed b t)

unfoldable pub status : Breaker → Timestamp → Result (Status × Breaker)
status b at = utc at >>= λ t. ok (status_at b t)

unfoldable pub reset : Breaker → String → Timestamp → Result Breaker
reset b confirmation at = do
  refuse_if (not (str_eq confirmation "RESET_KILL_SWITCH"))
      "exact kill-switch reset confirmation is required"
  t ← utc at
  ok (clear b t)
