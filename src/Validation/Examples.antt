-- ===== src/Validation/Examples.antt =====
-- services/validation/splits.py: splits of a few observations.
use crypt_tool.Base.{
  ℕ, zero, suc, ◌+◌, ◌-◌, ◌*◌, ◌/◌, ◌≤◌, ◌<◌, ◌≡◌, ◌≢◌, refl, false, none, List, [], ◌∷◌, All,
  All-map_imp, ltb, arith,
}
use crypt_tool.Base.Results.{ok, err, runtime_error}
use crypt_tool.Validation.Splits.{
  DatasetSplit, PurgedFold, WalkForwardWindow, Floats, Sizes, step_of, chronological_split,
  purged_kfold, walk_forward_splits, folds, fold_at, outside, last_item, windows, window_at,
  out_of_sample_start,
}
use crypt_tool.Validation.Splits.Gaps.{IsArange, IsPurged, purged_kfold-IsPurged}
use crypt_tool.Validation.Splits.Windows.{
  InOrder, Numbered, TestedOnce, walk_forward_splits-ends, walk_forward_splits-InOrder,
  walk_forward_splits-TestedOnce,
}

-- The items from `a` on, `n` of them.
abbrev counted : ℕ → ℕ → List ℕ
counted a zero = []
counted a (suc n) = a ∷ counted (suc a) n

abbrev range : ℕ → ℕ → List ℕ
range a b = counted a (b - a)

counted-All : (a n : ℕ) → All (λ i. (a ≤ i) × (i < a + n)) (counted a n)
counted-All a zero = tt
counted-All a (suc n) = (
  (omega arith, omega arith),
  All-map_imp (λ i hi. (omega (arith, hi.0), omega (arith, hi.1))) (counted (suc a) n)
      (counted-All (suc a) n),
)

range-IsArange : IsArange range
range-IsArange a b =
    All-map_imp (λ i hi. (omega (arith, hi.0), omega (arith, hi.0, hi.1))) (range a b)
      (counted-All a (b - a))

-- Fractions in tenths.
abbrev tenths : Floats ℕ
tenths = record {
  less = ltb;
  float_zero = 0;
  float_one = 10;
  plus = λ a b. a + b;
  floor_share = λ n t. n * t / 10;
}

abbrev split_twenty : DatasetSplit
split_twenty = record {
  train = range 0 11;
  validation = range 13 15;
  out_of_sample = range 17 20;
  purge_size = 1;
  embargo_size = 1;
}

splits : chronological_split range tenths 20 6 2 1 1 ≡ ok split_twenty
unfolding chronological_split
splits = refl

-- Two blocks of three.
abbrev halves : List ℕ → ℕ → List (List ℕ)
halves is n = (0 ∷ 1 ∷ 2 ∷ []) ∷ (3 ∷ 4 ∷ 5 ∷ []) ∷ []

abbrev two_folds : List PurgedFold
two_folds =
    record { train = 4 ∷ 5 ∷ []; test = 0 ∷ 1 ∷ 2 ∷ []; purged = []; embargoed = 3 ∷ [] }
    ∷ record { train = 0 ∷ 1 ∷ []; test = 3 ∷ 4 ∷ 5 ∷ []; purged = 2 ∷ []; embargoed = [] }
    ∷ []

cross_validates : purged_kfold range halves 6 2 1 1 ≡ ok two_folds
unfolding purged_kfold folds fold_at outside last_item
cross_validates = refl

purged_kfold-IsPurged_example : All (IsPurged range range-IsArange 6 1 1) two_folds
purged_kfold-IsPurged_example =
    purged_kfold-IsPurged range range-IsArange halves 6 2 1 1 two_folds cross_validates

abbrev sizes : Sizes
sizes = record {
  n_samples = 12;
  train_size = 3;
  validation_size = 2;
  out_of_sample_size = 2;
  step_size = none;
  anchored = false;
  purge_size = 1;
  embargo_size = 1;
}

abbrev two_windows : List WalkForwardWindow
two_windows =
    record {
      number = 0;
      train = 0 ∷ 1 ∷ [];
      validation = 4 ∷ [];
      out_of_sample = 7 ∷ 8 ∷ [];
      anchored = false;
    }
    ∷ record {
      number = 1;
      train = 2 ∷ 3 ∷ [];
      validation = 6 ∷ [];
      out_of_sample = 9 ∷ 10 ∷ [];
      anchored = false;
    }
    ∷ []

walks : walk_forward_splits range sizes ≡ ok two_windows
unfolding walk_forward_splits windows window_at out_of_sample_start
walks = refl

walk_forward_splits-ends_example :
    walk_forward_splits range sizes ≢ err (runtime_error "out of fuel")
walk_forward_splits-ends_example = walk_forward_splits-ends range sizes

walk_forward_splits-InOrder_example :
    All (InOrder range range-IsArange sizes) two_windows
    × Numbered range range-IsArange 0 two_windows
    × (two_windows ≢ [])
walk_forward_splits-InOrder_example =
    walk_forward_splits-InOrder range range-IsArange sizes two_windows walks

default_step : 2 ≤ step_of sizes
default_step = omega arith

walk_forward_splits-TestedOnce_example : TestedOnce range range-IsArange two_windows
walk_forward_splits-TestedOnce_example =
    walk_forward_splits-TestedOnce range range-IsArange sizes two_windows default_step walks
