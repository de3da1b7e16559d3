-- ===== src/Live/Bindings/Issue.antt =====
-- services/live_trading/cross_venue_preflight.py: what is issued is verified.
use crypt_tool.Base.{ℕ, ◌≤◌, ◌≡◌, String, eq_iff, List, arith}
use crypt_tool.Base.Results.{ok}
use crypt_tool.Live.Bindings.{Values, Payload, Preflight, Service, issue, verify}

module _ (hash : Payload → String) (hmac : List ℕ → String → String) where
  -- Whatever the hashes, a preflight that a service issued is verified by it from the instant of
  -- its issue on.
  pub issue-verify :
      (svc : Service) (v : Values) (p : Preflight) (now : ℕ)
      → issue hash hmac svc v ≡ ok p
      → v.issued_at ≤ now
      → verify hash hmac svc p now ≡ ok tt
  unfolding issue verify
  issue-verify svc v p now h t = ground (
    arith,
    eq_iff svc.issuer_id svc.issuer_id,
    eq_iff svc.commit_sha svc.commit_sha,
    eq_iff p.preflight_hash p.preflight_hash,
    eq_iff p.signature p.signature,
  )
