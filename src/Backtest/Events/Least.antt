-- ===== src/Backtest/Events/Least.antt =====
-- services/backtest/events.py: the event that the queue gives next.
use crypt_tool.Base.{
  ℕ, ◌≡◌, ◌≢◌, ◌⊎◌, inl, inr, refl, sym, Bool-cases, true, false, List, [], ◌∷◌, length, All, In,
  arith,
}
use crypt_tool.Backtest.Events.{QueuedEvent, queued_lt, take_least}

queued_lt_trans :
    (x y z : QueuedEvent) → queued_lt x y ≡ true → queued_lt y z ≡ true → queued_lt x z ≡ true
unfolding queued_lt
queued_lt_trans x y z h k = ground arith

not_queued_lt_trans :
    (x y z : QueuedEvent) → queued_lt x y ≡ false → queued_lt y z ≡ false → queued_lt x z ≡ false
unfolding queued_lt
not_queued_lt_trans x y z h k = ground arith

queued_lt_irrefl : (x : QueuedEvent) → queued_lt x x ≡ false
unfolding queued_lt
queued_lt_irrefl x = ground arith

not_seed :
    (x y z : QueuedEvent) → queued_lt x y ≡ true → queued_lt x z ≡ false → queued_lt y z ≡ false
not_seed x y z h k = ground (arith, queued_lt_trans x y z)

-- What is said of all entries is said of the least and of those that stay.
abbrev pub Split : (QueuedEvent → Type 0) → QueuedEvent × List QueuedEvent → Type 0
Split P t = P t.0 × All P t.1

pub All-take_least :
    (P : QueuedEvent → Type 0) (q : QueuedEvent) (xs : List QueuedEvent)
    → P q
    → All P xs
    → Split P (take_least q xs)
unfolding take_least
All-take_least P q [] h k = (h, tt)
All-take_least P q (x ∷ xs) h k = elim (Bool-cases (queued_lt x q)) [
  | inl l ↦ let r = All-take_least P x xs k.0 k.1 in rw l (r.0, (h, r.1))
  | inr l ↦ let r = All-take_least P q xs h k.1 in rw l (r.0, (k.0, r.1))
]

-- No entry that stays is before the one taken, nor is the first.
pub record Minimal (q : QueuedEvent) (t : QueuedEvent × List QueuedEvent) : Type 0 where
  pub seed : queued_lt q t.0 ≡ false
  pub rest : All (λ (y : QueuedEvent). queued_lt y t.0 ≡ false) t.1

pub take_least-Minimal : (q : QueuedEvent) (xs : List QueuedEvent) → Minimal q (take_least q xs)
unfolding take_least
take_least-Minimal q [] = record { seed = queued_lt_irrefl q; rest = tt }
take_least-Minimal q (x ∷ xs) = elim (Bool-cases (queued_lt x q)) [
  | inl l ↦
      let r = take_least-Minimal x xs in
      let s = not_seed x q (take_least x xs).0 l r.seed in
      rw l (record { seed = s; rest = (s, r.rest) })
  | inr l ↦
      let r = take_least-Minimal q xs in
      rw l (record {
        seed = r.seed;
        rest = (not_queued_lt_trans x q (take_least q xs).0 l r.seed, r.rest);
      })
]

pub In-take_least :
    (y q : QueuedEvent) (xs : List QueuedEvent)
    → In y (q ∷ xs)
    → (y ≡ (take_least q xs).0) ⊎ In y (take_least q xs).1
unfolding take_least
In-take_least y q [] h = h
In-take_least y q (x ∷ xs) h = ground (arith, In-take_least y x xs, In-take_least y q xs)

pub length-take_least :
    (q : QueuedEvent) (xs : List QueuedEvent) → length (take_least q xs).1 ≡ length xs
unfolding take_least
length-take_least q [] = refl
length-take_least q (x ∷ xs) = ground (arith, length-take_least q xs, length-take_least x xs)

pub take_least-In :
    (y q : QueuedEvent) (xs : List QueuedEvent)
    → (y ≡ (take_least q xs).0) ⊎ In y (take_least q xs).1
    → In y (q ∷ xs)
unfolding take_least
take_least-In y q [] h = h
take_least-In y q (x ∷ xs) h = ground (arith, take_least-In y x xs, take_least-In y q xs)

-- No two entries with one number.
abbrev pub Fresh : ℕ → List QueuedEvent → Type 0
Fresh n xs = All (λ (y : QueuedEvent). y.sequence ≢ n) xs

abbrev pub IsDistinct : List QueuedEvent → Type 0
IsDistinct [] = Unit
IsDistinct (x ∷ xs) = Fresh x.sequence xs × IsDistinct xs

pub record AreDistinct (t : QueuedEvent × List QueuedEvent) : Type 0 where
  pub all_distinct : IsDistinct (t.0 ∷ t.1)

swap_front :
    (a : QueuedEvent) (t : QueuedEvent × List QueuedEvent)
    → Split (λ (y : QueuedEvent). y.sequence ≢ a.sequence) t
    → AreDistinct t
    → AreDistinct (t.0, a ∷ t.1)
swap_front a t f d = record {
  all_distinct = ((λ e. f.0 (sym e), d.all_distinct.0), (f.1, d.all_distinct.1));
}

pub take_least-AreDistinct :
    (q : QueuedEvent) (xs : List QueuedEvent) → IsDistinct (q ∷ xs) → AreDistinct (take_least q xs)
unfolding take_least
take_least-AreDistinct q [] d = record { all_distinct = d }
take_least-AreDistinct q (x ∷ xs) d = elim (Bool-cases (queued_lt x q)) [
  | inl l ↦ rw l (
      swap_front q (take_least x xs)
        (All-take_least (λ (y : QueuedEvent). y.sequence ≢ q.sequence) x xs d.0.0 d.0.1)
        (take_least-AreDistinct x xs d.1))
  | inr l ↦ rw l (
      swap_front x (take_least q xs)
        (All-take_least (λ (y : QueuedEvent). y.sequence ≢ x.sequence) q xs (λ e. d.0.0 (sym e))
          d.1.0)
        (take_least-AreDistinct q xs (d.0.1, d.1.1)))
]
