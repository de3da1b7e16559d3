-- ===== src/Validation/Splits/Gaps.antt =====
-- services/validation/splits.py: what lies between the parts of a split.
use crypt_tool.Base.{
  ℕ, suc, ◌+◌, ◌-◌, ◌≤◌, ◌<◌, min, ◌≡◌, ◌⊎◌, Bool, true, false, ◌||◌, Option, none, some, List, [],
  ◌∷◌, leb, ltb, refl, subst, if◌then◌else◌, All, All-map_imp, arith,
}
use crypt_tool.Base.Results.{ok, >>=-eq-ok}
use crypt_tool.Validation.Splits.{
  DatasetSplit, PurgedFold, Floats, no_items, first_item, last_item, outside, chronological_split,
  fold_at, fold_of, folds, purged_kfold,
}

-- What numpy documents of `arange(a, b)`: its items are from a on and below b.
abbrev pub IsArange : (ℕ → ℕ → List ℕ) → Type 0
IsArange arange = (a b : ℕ) → All (λ i. (a ≤ i) × (i < b)) (arange a b)

-- Every observation of the first list is before every one of the second, with more than `gap`
-- between.
abbrev pub Apart : ℕ → List ℕ → List ℕ → Type 0
Apart gap xs ys = All (λ i. All (λ j. i + gap < j) ys) xs

module _ (arange : ℕ → ℕ → List ℕ) (spec : IsArange arange) where
  pub arange-Apart :
      (gap a b c d : ℕ) → ((i : ℕ) → i < b → i + gap < c) → Apart gap (arange a b) (arange c d)
  arange-Apart gap a b c d h =
      All-map_imp
        (λ i hi. All-map_imp (λ j hj. omega (arith, h i hi.1, hj.0)) (arange c d) (spec c d))
        (arange a b) (spec a b)

  pub arange_below : (a b : ℕ) → All (λ i. i < b) (arange a b)
  arange_below a b = All-map_imp (λ i hi. hi.1) (arange a b) (spec a b)

  pub record Separated (n : ℕ) (d : DatasetSplit) : Type 0 where
    pub before_validation : Apart (d.purge_size + d.embargo_size) d.train d.validation
    pub before_test : Apart (d.purge_size + d.embargo_size) d.validation d.out_of_sample
    pub inside : All (λ i. i < n) d.out_of_sample
    pub some_train : no_items d.train ≡ false
    pub some_validation : no_items d.validation ≡ false
    pub some_test : no_items d.out_of_sample ≡ false

  split_fields :
      {F : Type 0} (fl : Floats F) (n : ℕ) (t v : F) (p e : ℕ) (d : DatasetSplit)
      → chronological_split arange fl n t v p e ≡ ok d
      → (no_items d.train ≡ false)
        × (no_items d.validation ≡ false)
        × (no_items d.out_of_sample ≡ false)
        × (d ≡ record {
          train = arange 0 (fl.floor_share n t - p);
          validation = arange (fl.floor_share n t + e) (fl.floor_share n (fl.plus t v) - p);
          out_of_sample = arange (fl.floor_share n (fl.plus t v) + e) n;
          purge_size = p;
          embargo_size = e;
        })
  unfolding chronological_split
  split_fields fl n t v p e d h = ground arith

  -- An accepted chronological split puts the training before the validation before the test,
  -- with more than the purge and the embargo between, all below the count and none empty.
  pub chronological_split-Separated :
      {F : Type 0} (fl : Floats F) (n : ℕ) (t v : F) (p e : ℕ) (d : DatasetSplit)
      → chronological_split arange fl n t v p e ≡ ok d
      → Separated n d
  chronological_split-Separated fl n t v p e d h =
      let f = split_fields fl n t v p e d h in
      let b = fl.floor_share n t in
      let c = fl.floor_share n (fl.plus t v) in
      record {
        before_validation =
            rw f.3 (arange-Apart (p + e) 0 (b - p) (b + e) (c - p) (λ i hi. omega arith));
        before_test = rw f.3 (arange-Apart (p + e) (b + e) (c - p) (c + e) n (λ i hi. omega arith));
        inside = rw f.3 (arange_below (c + e) n);
        some_train = f.0;
        some_validation = f.1;
        some_test = f.2;
      }

  -- Every training observation is in range, and either more than the purge before the block or
  -- at least the embargo after it.
  abbrev pub Clear : ℕ → ℕ → ℕ → ℕ → ℕ → ℕ → Type 0
  Clear n purge embargo first last i = (i < n) × ((i + purge < first) ⊎ (suc last + embargo ≤ i))

  -- The purged and the embargoed observations adjoin the block on its two sides.
  pub record IsPurged (n purge embargo : ℕ) (fold : PurgedFold) : Type 0 where
    pub first : ℕ
    pub last : ℕ
    pub starts : first_item fold.test ≡ some first
    pub ends : last_item fold.test ≡ some last
    pub clear : All (Clear n purge embargo first last) fold.train
    pub trained : no_items fold.train ≡ false
    pub adjoins_start : All (λ i. (i < first) × (first ≤ i + purge)) fold.purged
    pub adjoins_end : All (λ i. (last < i) × (i ≤ last + embargo) × (i < n)) fold.embargoed

  keep_if :
      (Q : ℕ → Type 0) (b : Bool) (i : ℕ) (is : List ℕ)
      → (b ≡ true → Q i)
      → All Q is
      → All Q (if b then i ∷ is else is)
  keep_if Q true i is h k = (h refl, k)
  keep_if Q false i is h k = k

  outside-All :
      (P Q : ℕ → Type 0) (start stop : ℕ) (is : List ℕ)
      → ((i : ℕ) → P i → (i < start) ⊎ (stop ≤ i) → Q i)
      → All P is
      → All Q (outside start stop is)
  unfolding outside
  outside-All P Q start stop [] f h = tt
  outside-All P Q start stop (i ∷ is) f h =
      keep_if Q (ltb i start || leb stop i) i (outside start stop is) (λ e. f i h.0 (ground arith))
        (outside-All P Q start stop is f h.1)

  fold_fields :
      (n p e : ℕ) (test : List ℕ) (first last : ℕ) (fold : PurgedFold)
      → fold_at arange n p e test first last ≡ ok fold
      → (no_items fold.train ≡ false)
        × (fold ≡ record {
          train = outside (first - p) (min n (suc last + e)) (arange 0 n);
          test = test;
          purged = arange (first - p) first;
          embargoed = arange (suc last) (min n (suc last + e));
        })
  unfolding fold_at
  fold_fields n p e test first last fold h = ground arith

  fold_at-IsPurged :
      (n p e : ℕ) (test : List ℕ) (first last : ℕ) (fold : PurgedFold)
      → first_item test ≡ some first
      → last_item test ≡ some last
      → fold_at arange n p e test first last ≡ ok fold
      → IsPurged n p e fold
  fold_at-IsPurged n p e test first last fold a b h =
      let (trained, f) = fold_fields n p e test first last fold h in
      record {
        first = first;
        last = last;
        starts = rw f a;
        ends = rw f b;
        clear = rw f (
            outside-All (λ i. (0 ≤ i) × (i < n)) (Clear n p e first last) (first - p)
              (min n (suc last + e)) (arange 0 n) (λ i hi side. ground arith) (spec 0 n));
        trained = trained;
        adjoins_start = rw f (
            All-map_imp (λ i hi. ground arith) (arange (first - p) first) (spec (first - p) first));
        adjoins_end = rw f (
            All-map_imp (λ i hi. ground arith) (arange (suc last) (min n (suc last + e)))
              (spec (suc last) (min n (suc last + e))));
      }

  fold_of-IsPurged :
      (n p e : ℕ) (test : List ℕ) (first last : Option ℕ) (fold : PurgedFold)
      → first_item test ≡ first
      → last_item test ≡ last
      → fold_of arange n p e test first last ≡ ok fold
      → IsPurged n p e fold
  fold_of-IsPurged n p e test (some first) (some last) fold a b h =
      fold_at-IsPurged n p e test first last fold a b h
  fold_of-IsPurged n p e test none last fold a b h = ground arith
  fold_of-IsPurged n p e test (some first) none fold a b h = ground arith

  folds-IsPurged :
      (n p e : ℕ) (blocks : List (List ℕ)) (fs : List PurgedFold)
      → folds arange n p e blocks ≡ ok fs
      → All (IsPurged n p e) fs
  unfolding folds
  folds-IsPurged n p e [] fs h =
      let same : [] ≡ fs = ground arith in
      subst (λ (l : List PurgedFold). All (IsPurged n p e) l) same tt
  folds-IsPurged n p e (test ∷ blocks) fs h =
      let (fold, a, k) =
        >>=-eq-ok (fold_of arange n p e test (first_item test) (last_item test)) _ h in
      let (rest, b, m) = >>=-eq-ok (folds arange n p e blocks) _ k in
      let same : fold ∷ rest ≡ fs = ground arith in
      subst (λ (l : List PurgedFold). All (IsPurged n p e) l) same
        (
          fold_of-IsPurged n p e test (first_item test) (last_item test) fold refl refl a,
          folds-IsPurged n p e blocks rest b,
        )

  -- Whatever blocks numpy cuts, each fold of an accepted cross-validation trains only on
  -- observations in range that are more than the purge before its block or at least the embargo
  -- after it, and on some; what was purged and embargoed adjoins the block.
  pub purged_kfold-IsPurged :
      (array_split : List ℕ → ℕ → List (List ℕ)) (n k p e : ℕ) (fs : List PurgedFold)
      → purged_kfold arange array_split n k p e ≡ ok fs
      → All (IsPurged n p e) fs
  unfolding purged_kfold
  purged_kfold-IsPurged array_split n k p e fs h =
      folds-IsPurged n p e (array_split (arange 0 n) k) fs (ground arith)
