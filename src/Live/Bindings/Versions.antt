-- ===== src/Live/Bindings/Versions.antt =====
-- services/live_trading/cross_venue_preflight.py: versions only rise, so one writer wins.
use crypt_tool.Base.{
  ℕ, ◌+◌, ◌≤◌, ◌<◌, ◌≡◌, true, false, String, str_eq, eq_iff, List, [], ◌∷◌, if◌then◌else◌, arith,
}
use crypt_tool.Base.Dict
use crypt_tool.Live.Bindings.{Binding, Repository, get, version_of, compare_and_set}

-- The calls of the writers, in the order in which they hold the lock.
pub record Write : Type 0 where
  pub signal_id : String
  pub expected : ℕ
  pub binding : Binding

unfoldable pub write : Repository → Write → Repository
write r w = (compare_and_set r w.signal_id w.expected w.binding).1

unfoldable pub run : Repository → List Write → Repository
run r [] = r
run r (w ∷ ws) = run (write r w) ws

version-put :
    (r : Repository) (i j : String) (b : Binding)
    → version_of (Dict.put i b r) j ≡ (if str_eq i j then b.version else version_of r j)
unfolding version_of get
version-put r i j b = ground (arith, Dict.get-put i j b r)

write_rises : (r : Repository) (w : Write) (i : String) → version_of r i ≤ version_of (write r w) i
unfolding write compare_and_set
write_rises r w i = ground (arith, version-put r w.signal_id i w.binding, eq_iff w.signal_id i)

run_rises :
    (r : Repository) (ws : List Write) (i : String) → version_of r i ≤ version_of (run r ws) i
unfolding run
run_rises r [] i = omega arith
run_rises r (w ∷ ws) i = omega (arith, write_rises r w i, run_rises (write r w) ws i)

winner_rises :
    (r : Repository) (i : String) (n : ℕ) (b : Binding)
    → (compare_and_set r i n b).0 ≡ true
    → version_of (compare_and_set r i n b).1 i ≡ n + 1
unfolding compare_and_set
winner_rises r i n b h = ground (arith, version-put r i i b, eq_iff i i)

loser :
    (r : Repository) (i : String) (n : ℕ) (b : Binding)
    → n < version_of r i
    → compare_and_set r i n b ≡ (false, r)
unfolding compare_and_set
loser r i n b h = ground arith

-- Of the writers that expect the same version of a signal's binding only the first one that
-- succeeds wins: after it and any other writes, each of the rest fails and changes nothing.
pub one_winner :
    (r : Repository) (i : String) (n : ℕ) (b c : Binding) (ws : List Write)
    → (compare_and_set r i n b).0 ≡ true
    → let later = run (compare_and_set r i n b).1 ws in compare_and_set later i n c ≡ (false, later)
one_winner r i n b c ws h =
    let first = (compare_and_set r i n b).1 in
    loser (run first ws) i n c (omega (arith, winner_rises r i n b h, run_rises first ws i))
