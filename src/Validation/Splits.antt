-- ===== src/Validation/Splits.antt =====
-- services/validation/splits.py: chronological splits with gaps against leakage.
-- The counts are natural numbers: a negative one is refused before anything else. The functions
-- of numpy are parameters; `arange` of a negative end is that of the end 0, as both are empty.
use crypt_tool.Base.{
  ℕ, zero, suc, ◌+◌, ◌-◌, min, Bool, true, false, ◌&&◌, ◌||◌, not, Option, none, some, List, [],
  ◌∷◌, leb, ltb, if◌then◌else◌, length, is_some, ◌==◌,
}
use crypt_tool.Base.Results.{Result, ok, err, value_error, runtime_error, refuse_if, ◌>>=◌, ◌>>◌}
pub mod Gaps
pub mod Windows

pub record DatasetSplit : Type 0 where
  pub train : List ℕ
  pub validation : List ℕ
  pub out_of_sample : List ℕ
  pub purge_size : ℕ
  pub embargo_size : ℕ

pub record PurgedFold : Type 0 where
  pub train : List ℕ
  pub test : List ℕ
  pub purged : List ℕ
  pub embargoed : List ℕ

pub record WalkForwardWindow : Type 0 where
  pub number : ℕ
  pub train : List ℕ
  pub validation : List ℕ
  pub out_of_sample : List ℕ
  pub anchored : Bool

-- What the source uses of floats: the comparisons, the sum, and floor(n * fraction).
pub record Floats (F : Type 0) : Type 0 where
  pub less : F → F → Bool
  pub float_zero : F
  pub float_one : F
  pub plus : F → F → F
  pub floor_share : ℕ → F → ℕ

-- `not array.size`
abbrev pub no_items : List ℕ → Bool
no_items [] = true
no_items (i ∷ is) = false

-- The first and the last item of an array that has one.
abbrev pub first_item : List ℕ → Option ℕ
first_item [] = none
first_item (i ∷ is) = some i

unfoldable pub last_item : List ℕ → Option ℕ
last_item [] = none
last_item (i ∷ []) = some i
last_item (i ∷ j ∷ is) = last_item (j ∷ is)

-- `observations[mask]`, where the mask leaves out the indices from `start` to `stop`.
unfoldable pub outside : ℕ → ℕ → List ℕ → List ℕ
outside start stop [] = []
outside start stop (i ∷ is) =
    let rest = outside start stop is in if ltb i start || leb stop i then i ∷ rest else rest

-- The arguments of `walk_forward_splits`.
pub record Sizes : Type 0 where
  pub n_samples : ℕ
  pub train_size : ℕ
  pub validation_size : ℕ
  pub out_of_sample_size : ℕ
  pub step_size : Option ℕ
  pub anchored : Bool
  pub purge_size : ℕ
  pub embargo_size : ℕ

-- `out_of_sample_size if step_size is None else step_size`
abbrev pub step_or : Option ℕ → ℕ → ℕ
step_or none n = n
step_or (some step) n = step

abbrev pub step_of : Sizes → ℕ
step_of z = step_or z.step_size z.out_of_sample_size

module _ (arange : ℕ → ℕ → List ℕ) where
  unfoldable pub chronological_split :
      {F : Type 0} → Floats F → ℕ → F → F → ℕ → ℕ → Result DatasetSplit
  chronological_split fl n_samples train_fraction validation_fraction purge_size embargo_size = do
    refuse_if (ltb n_samples 3) "n_samples must be an integer of at least three"
    refuse_if (not (fl.less fl.float_zero train_fraction && fl.less train_fraction fl.float_one))
        "train_fraction must be between zero and one"
    refuse_if
        (not (fl.less fl.float_zero validation_fraction && fl.less validation_fraction fl.float_one)
          || not (fl.less (fl.plus train_fraction validation_fraction) fl.float_one))
        "validation_fraction must leave a non-empty out-of-sample share"
    let train_boundary = fl.floor_share n_samples train_fraction
    let validation_boundary = fl.floor_share n_samples (fl.plus train_fraction validation_fraction)
    let train = arange 0 (train_boundary - purge_size)
    let validation = arange (train_boundary + embargo_size) (validation_boundary - purge_size)
    let out_of_sample = arange (validation_boundary + embargo_size) n_samples
    refuse_if (no_items train || no_items validation || no_items out_of_sample)
        "purge/embargo settings leave an empty chronological split"
    ok (record {
      train = train;
      validation = validation;
      out_of_sample = out_of_sample;
      purge_size = purge_size;
      embargo_size = embargo_size;
    })

  -- One turn of the loop over the blocks, for the first and the last item of the block.
  unfoldable pub fold_at : ℕ → ℕ → ℕ → List ℕ → ℕ → ℕ → Result PurgedFold
  fold_at n_samples purge_size embargo_size test first last = do
    let test_end = suc last
    let purge_start = first - purge_size
    let embargo_end = min n_samples (test_end + embargo_size)
    let train = outside purge_start embargo_end (arange 0 n_samples)
    refuse_if (no_items train) "purge/embargo settings leave an empty training fold"
    ok (record {
      train = train;
      test = test;
      purged = arange purge_start first;
      embargoed = arange test_end embargo_end;
    })

  -- An empty block raises, as `test[0]` does.
  abbrev pub fold_of : ℕ → ℕ → ℕ → List ℕ → Option ℕ → Option ℕ → Result PurgedFold
  fold_of n purge embargo test (some first) (some last) = fold_at n purge embargo test first last
  fold_of n purge embargo test _ _ = err (runtime_error "index out of bounds")

  unfoldable pub folds : ℕ → ℕ → ℕ → List (List ℕ) → Result (List PurgedFold)
  folds n purge embargo [] = ok []
  folds n purge embargo (test ∷ blocks) =
      fold_of n purge embargo test (first_item test) (last_item test) >>= λ fold.
      folds n purge embargo blocks >>= λ rest. ok (fold ∷ rest)

  unfoldable pub purged_kfold :
      (List ℕ → ℕ → List (List ℕ)) → ℕ → ℕ → ℕ → ℕ → Result (List PurgedFold)
  purged_kfold array_split n_samples n_splits purge_size embargo_size = do
    refuse_if (ltb n_samples 2) "n_samples must be an integer of at least two"
    refuse_if (not (leb 2 n_splits && leb n_splits n_samples))
        "n_splits must be between two and n_samples"
    folds n_samples purge_size embargo_size (array_split (arange 0 n_samples) n_splits)

  -- Where the out-of-sample block of an offset starts.
  unfoldable pub out_of_sample_start : Sizes → ℕ → ℕ
  out_of_sample_start z offset =
      let nominal_train_end = z.train_size + offset in
      if z.validation_size == 0
      then nominal_train_end + z.embargo_size
      else nominal_train_end + z.embargo_size + z.validation_size + z.embargo_size

  unfoldable pub window_at : Sizes → ℕ → ℕ → WalkForwardWindow
  window_at z number offset =
      let nominal_train_end = z.train_size + offset in
      let validation_start = nominal_train_end + z.embargo_size in
      let start = out_of_sample_start z offset in
      record {
        number = number;
        train = arange (if z.anchored then 0 else offset) (nominal_train_end - z.purge_size);
        validation =
            if z.validation_size == 0
            then []
            else arange validation_start (validation_start + z.validation_size - z.purge_size);
        out_of_sample = arange start (start + z.out_of_sample_size);
        anchored = z.anchored;
      }

  -- The loop, on fuel: nothing if the fuel is spent.
  unfoldable pub windows : ℕ → Sizes → ℕ → ℕ → Option (List WalkForwardWindow)
  windows zero z number offset = none
  windows (suc fuel) z number offset =
      let rest = windows fuel z (suc number) (offset + step_of z) in
      if ltb z.n_samples (out_of_sample_start z offset + z.out_of_sample_size)
      then some []
      else elim rest [ none ↦ none | some ws ↦ some (window_at z number offset ∷ ws) ]

  abbrev found : Option (List WalkForwardWindow) → Result (List WalkForwardWindow)
  found none = err (runtime_error "out of fuel")
  found (some []) = err (value_error "not enough observations for one walk-forward window")
  found (some (w ∷ ws)) = ok (w ∷ ws)

  -- Each turn raises the offset, so one more turn than there are observations is enough.
  unfoldable pub walk_forward_splits : Sizes → Result (List WalkForwardWindow)
  walk_forward_splits z = do
    refuse_if (ltb z.n_samples 1) "n_samples must be a positive integer"
    refuse_if (ltb z.train_size 1) "train_size must be an integer of at least 1"
    refuse_if (ltb z.out_of_sample_size 1) "out_of_sample_size must be an integer of at least 1"
    refuse_if (ltb (step_of z) 1) "step_size must be a positive integer"
    refuse_if
        (leb z.train_size z.purge_size
          || not (z.validation_size == 0) && leb z.validation_size z.purge_size)
        "purge_size must leave non-empty train and validation blocks"
    found (windows (suc z.n_samples) z 0 0)

  unfoldable pub rolling_walk_forward : Sizes → Result (List WalkForwardWindow)
  rolling_walk_forward z = walk_forward_splits (record z { anchored = false })

  unfoldable pub anchored_walk_forward : Sizes → Result (List WalkForwardWindow)
  anchored_walk_forward z = walk_forward_splits (record z { anchored = true })
