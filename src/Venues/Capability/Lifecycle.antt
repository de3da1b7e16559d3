-- ===== src/Venues/Capability/Lifecycle.antt =====
-- domain/venues/models.py: what holds of a capability after any transitions.
use crypt_tool.Base.{◌≡◌, true, false, List, [], ◌∷◌, is_some, arith, ◌⊎◌}
use crypt_tool.Base.Results.{Result, ok, err}
use crypt_tool.Time.{Timestamp, aware, naive, utc}
use crypt_tool.Venues.Capability.{
  Support, unavailable, documented, implemented, live_verified, degraded, is_live_verified,
  is_degraded, is_missing, is_built, VenueCapability, Annotations, allows, check_capability,
  transition,
}

pub record Call : Type 0 where
  pub support : Support
  pub at : Timestamp
  pub notes : Annotations

-- A transition that raises leaves the capability as it was.
abbrev after : VenueCapability → Result VenueCapability → VenueCapability
after c (ok d) = d
after c (err e) = c

unfoldable pub run : VenueCapability → List Call → VenueCapability
run c [] = c
run c (k ∷ ks) = run (after c (transition c k.support k.at k.notes)) ks

-- The evidence that each degree of support rests on.
pub record IsEvidenced (c : VenueCapability) : Type 0 where
  pub documented : (c.support ≡ unavailable) ⊎ (is_some c.documented_at ≡ true)
  pub built : is_built c.support ≡ true → is_some c.implemented_at ≡ true
  pub verified : is_live_verified c.support ≡ true → is_some c.live_verified_at ≡ true
  pub explained : is_degraded c.support ≡ true → is_missing c.failure_reason ≡ false

IsEvidenced-after :
    (c : VenueCapability) (s : Support) (at : Timestamp) (notes : Annotations)
    → IsEvidenced c
    → IsEvidenced (after c (transition c s at notes))
unfolding transition allows check_capability utc
IsEvidenced-after c s (naive t) notes v = ground (arith)
IsEvidenced-after c unavailable (aware t) notes v = ground (arith)
IsEvidenced-after c documented (aware t) notes v = ground (arith)
IsEvidenced-after c implemented (aware t) notes v = ground (arith)
IsEvidenced-after c live_verified (aware t) notes v = ground (arith)
IsEvidenced-after c degraded (aware t) notes v = ground (arith)

-- After any transitions, those that raise included, a capability that was evidenced is so: one
-- that is more than unavailable was documented at some instant, one that is implemented, verified
-- or degraded was implemented, one that is live-verified was verified, and one that is degraded
-- has a reason.
pub run-IsEvidenced :
    (c : VenueCapability) (ks : List Call) → IsEvidenced c → IsEvidenced (run c ks)
unfolding run
run-IsEvidenced c [] v = v
run-IsEvidenced c (k ∷ ks) v =
    run-IsEvidenced (after c (transition c k.support k.at k.notes)) ks
      (IsEvidenced-after c k.support k.at k.notes v)
