-- ===== src/Live/Preflight/Integrity.antt =====
-- services/live_trading: what an approval means, and that the gateway accepts the report.
use crypt_tool.Base.{◌≡◌, refl, true, eq_iff, all, map, arith}
use crypt_tool.Base.Results.{ok}
use crypt_tool.Live.Preflight.{
  Settings, Context, Check, Adapter, checks, has_passed, adapter_matches, evaluate_live_preflight,
  same_set, required_checks, validate_preflight_integrity,
}

-- The names of the checks do not depend on what is checked.
names_required :
    (s : Settings) (c : Context)
    → same_set (map (λ (x : Check). x.name) (checks s c)) required_checks ≡ true
unfolding checks same_set
names_required s c = refl

approved-matches :
    (s : Settings) (c : Context) → all has_passed (checks s c) ≡ true → adapter_matches s c ≡ true
unfolding checks
approved-matches s c h = ground arith

-- The gateway accepts every report of the preflight with the adapter that was examined: an
-- approval is consistent with its checks, has all that are required, and is for that adapter.
pub evaluate-validate :
    (s : Settings) (c : Context) (a : Adapter)
    → a.adapter_name ≡ c.adapter_name
    → a.is_concrete ≡ c.adapter_is_concrete
    → validate_preflight_integrity s a (evaluate_live_preflight s c) ≡ ok tt
unfolding validate_preflight_integrity evaluate_live_preflight adapter_matches
evaluate-validate s c a n k = ground (
  arith,
  names_required s c,
  approved-matches s c,
  eq_iff s.adapter_name c.adapter_name,
  eq_iff a.adapter_name s.adapter_name,
)
