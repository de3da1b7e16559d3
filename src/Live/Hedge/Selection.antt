-- ===== src/Live/Hedge/Selection.antt =====
-- services/emergency_hedge.py: the venue that is selected passes every gate and is the best.
use crypt_tool.Base.{
  sym, subst, ◌≡◌, inl, inr, refl, Bool-cases, true, false, List, [], ◌∷◌, In, All, arith,
}
use crypt_tool.Base.Results.{Result, ok, err}
use crypt_tool.Decimal.{Decimal}
use crypt_tool.Decimal.Order.{le_refl, le_trans, le_total}
use crypt_tool.Live.Hedge.{
  Candidate, passes, keep_passing, key, tuple_lt, greatest, best_of, select_emergency_hedge,
}

tuple_lt_irrefl : (xs : List Decimal) → tuple_lt xs xs ≡ false
unfolding tuple_lt
tuple_lt_irrefl [] = refl
tuple_lt_irrefl (x ∷ xs) = ground (arith, le_refl x, tuple_lt_irrefl xs)

tuple_lt_trans :
    (xs ys zs : List Decimal)
    → tuple_lt xs ys ≡ true
    → tuple_lt ys zs ≡ true
    → tuple_lt xs zs ≡ true
unfolding tuple_lt
tuple_lt_trans [] [] zs h k = ground arith
tuple_lt_trans [] (y ∷ ys) [] h k = ground arith
tuple_lt_trans [] (y ∷ ys) (z ∷ zs) h k = refl
tuple_lt_trans (x ∷ xs) [] zs h k = ground arith
tuple_lt_trans (x ∷ xs) (y ∷ ys) [] h k = ground arith
tuple_lt_trans (x ∷ xs) (y ∷ ys) (z ∷ zs) h k = ground (
  arith,
  le_trans x y z,
  le_trans z y x,
  le_trans y x z,
  le_trans z x y,
  le_trans x z y,
  le_trans y z x,
  le_total x y,
  le_total y z,
  le_total x z,
  tuple_lt_trans xs ys zs,
)

not_tuple_lt_trans :
    (xs ys zs : List Decimal)
    → tuple_lt xs ys ≡ false
    → tuple_lt ys zs ≡ false
    → tuple_lt xs zs ≡ false
unfolding tuple_lt
not_tuple_lt_trans [] [] zs h k = k
not_tuple_lt_trans [] (y ∷ ys) zs h k = ground arith
not_tuple_lt_trans (x ∷ xs) ys [] h k = refl
not_tuple_lt_trans (x ∷ xs) [] (z ∷ zs) h k = ground arith
not_tuple_lt_trans (x ∷ xs) (y ∷ ys) (z ∷ zs) h k = ground (
  arith,
  le_trans x y z,
  le_trans z y x,
  le_trans y x z,
  le_trans z x y,
  le_trans x z y,
  le_trans y z x,
  le_total x y,
  le_total y z,
  le_total x z,
  not_tuple_lt_trans xs ys zs,
)

-- No candidate of a list is better than this one.
abbrev pub Best : Candidate → List Candidate → Type 0
Best b cs = All (λ (c : Candidate). tuple_lt (key b) (key c) ≡ false) cs

-- The best of a candidate and those that follow it.
record Chosen (first : Candidate) (cs : List Candidate) (b : Candidate) : Type 0 where
  among : In b (first ∷ cs)
  above : tuple_lt (key b) (key first) ≡ false
  best : Best b cs

not_better :
    (b c x : Candidate)
    → tuple_lt (key b) (key c) ≡ false
    → tuple_lt (key x) (key c) ≡ true
    → tuple_lt (key b) (key x) ≡ false
not_better b c x h k = ground (arith, tuple_lt_trans (key b) (key x) (key c))

In-cons_skip :
    {b first c : Candidate} (cs : List Candidate) → In b (first ∷ cs) → In b (first ∷ c ∷ cs)
In-cons_skip cs (inl e) = inl e
In-cons_skip cs (inr i) = inr (inr i)

greatest-Chosen : (first : Candidate) (cs : List Candidate) → Chosen first cs (greatest first cs)
unfolding greatest
greatest-Chosen first [] = record {
  among = inl refl;
  above = tuple_lt_irrefl (key first);
  best = tt;
}
greatest-Chosen first (c ∷ cs) = elim (Bool-cases (tuple_lt (key first) (key c))) [
  | inl h ↦
      let r = greatest-Chosen c cs in
      rw h (record {
        among = inr r.among;
        above = not_better (greatest c cs) c first r.above h;
        best = (r.above, r.best);
      })
  | inr h ↦
      let r = greatest-Chosen first cs in
      rw h (record {
        among = In-cons_skip cs r.among;
        above = r.above;
        best = (not_tuple_lt_trans (key (greatest first cs)) (key first) (key c) r.above h, r.best);
      })
]

In-keep_passing :
    (b : Candidate) (cs : List Candidate) → In b (keep_passing cs) → In b cs × (passes b ≡ true)
unfolding keep_passing
In-keep_passing b [] h = elim h [ ]
In-keep_passing b (c ∷ cs) h = ground (arith, In-keep_passing b cs)

keep_passing-In :
    (b : Candidate) (cs : List Candidate) → In b cs → passes b ≡ true → In b (keep_passing cs)
unfolding keep_passing
keep_passing-In b [] h k = elim h [ ]
keep_passing-In b (c ∷ cs) h k = ground (arith, keep_passing-In b cs)

Best-In :
    (b c : Candidate) (cs : List Candidate) → Best b cs → In c cs → tuple_lt (key b) (key c) ≡ false
Best-In b c [] h k = elim k [ ]
Best-In b c (x ∷ xs) h (inl e) =
    subst (λ (y : Candidate). tuple_lt (key b) (key y) ≡ false) (sym e) h.0
Best-In b c (x ∷ xs) h (inr k) = Best-In b c xs h.1 k

-- A candidate that passes every gate, than which none that passes has a greater key.
pub record IsBest (cs : List Candidate) (b : Candidate) : Type 0 where
  pub among : In b cs
  pub gated : passes b ≡ true
  pub unbeaten : (c : Candidate) → In c cs → passes c ≡ true → tuple_lt (key b) (key c) ≡ false

-- The outcome: the best candidate, or an error when none passes.
abbrev pub Selected : List Candidate → Result Candidate → Type 0
Selected cs (ok b) = IsBest cs b
Selected cs (err e) = (c : Candidate) → In c cs → passes c ≡ false

Selected-best_of : (cs ks : List Candidate) → keep_passing cs ≡ ks → Selected cs (best_of ks)
Selected-best_of cs [] e = λ c h. elim (Bool-cases (passes c)) [
  | inl p ↦ elim (subst (In c) e (keep_passing-In c cs h p)) [ ]
  | inr p ↦ p
]
Selected-best_of cs (k ∷ ks) e =
    let r = greatest-Chosen k ks in
    let m = In-keep_passing (greatest k ks) cs (subst (In (greatest k ks)) (sym e) r.among) in
    record {
      among = m.0;
      gated = m.1;
      unbeaten = λ c h p.
          Best-In (greatest k ks) c (k ∷ ks) (r.above, r.best)
            (subst (In c) e (keep_passing-In c cs h p));
    }

-- The candidate that is selected is one of those given, passes every gate, and no candidate
-- that passes has a greater key; an error is raised only when no candidate passes.
pub select_emergency_hedge-Selected :
    (cs : List Candidate) → Selected cs (select_emergency_hedge cs)
unfolding select_emergency_hedge
select_emergency_hedge-Selected cs = Selected-best_of cs (keep_passing cs) refl
