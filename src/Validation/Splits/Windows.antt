-- ===== src/Validation/Splits/Windows.antt =====
-- services/validation/splits.py: the windows of a walk-forward validation.
use crypt_tool.Base.{
  ℕ, zero, suc, ◌+◌, ◌-◌, ◌≤◌, ◌<◌, ◌≡◌, ◌≢◌, ◌⊎◌, inl, inr, refl, Bool, true, false, some, List,
  [], ◌∷◌, ◌==◌, if◌then◌else◌, All, All-map_imp, is_some, arith,
}
use crypt_tool.Base.Results.{ok, err, runtime_error}
use crypt_tool.Validation.Splits.{
  Sizes, step_of, WalkForwardWindow, out_of_sample_start, window_at, windows, walk_forward_splits,
}
use crypt_tool.Validation.Splits.Gaps.{IsArange, Apart, arange-Apart, arange_below}

-- What the guards of `walk_forward_splits` leave.
pub record Checked (z : Sizes) : Type 0 where
  pub tests : 1 ≤ z.out_of_sample_size
  pub steps : 1 ≤ step_of z

module _ (arange : ℕ → ℕ → List ℕ) where
  -- The windows from some turn on.
  more_windows :
      (fuel : ℕ) (z : Sizes) (number offset : ℕ)
      → Checked z
      → z.n_samples ≤ offset + fuel
      → is_some (windows arange (suc fuel) z number offset) ≡ true
  unfolding windows out_of_sample_start
  more_windows zero z number offset v h = ground (arith, v.tests)
  more_windows (suc fuel) z number offset v h = ground (
    arith,
    v.steps,
    more_windows fuel z (suc number) (offset + step_of z) v (omega (arith, v.steps)),
  )

  enough_fuel :
      (z : Sizes)
      → 1 ≤ z.out_of_sample_size
      → 1 ≤ step_of z
      → is_some (windows arange (suc z.n_samples) z 0 0) ≡ true
  enough_fuel z tests steps =
      more_windows z.n_samples z 0 0 (record { tests = tests; steps = steps }) (omega arith)

  -- The loop of `walk_forward_splits` ends: the fuel is never spent.
  pub walk_forward_splits-ends :
      (z : Sizes) → walk_forward_splits arange z ≢ err (runtime_error "out of fuel")
  unfolding walk_forward_splits
  walk_forward_splits-ends z h = ground (arith, enough_fuel z)

  windows_cases :
      (fuel : ℕ) (z : Sizes) (number offset : ℕ) (ws : List WalkForwardWindow)
      → windows arange (suc fuel) z number offset ≡ some ws
      → (ws ≡ [])
        ⊎ ((rest : List WalkForwardWindow) × (windows arange fuel z
                (suc number)
                (offset + step_of z)
              ≡ some rest)
            × (ws ≡ window_at arange z number offset ∷ rest)
            × (out_of_sample_start arange z offset + z.out_of_sample_size ≤ z.n_samples))
  unfolding windows
  windows_cases fuel z number offset ws h = ground arith

module _ (arange : ℕ → ℕ → List ℕ) (spec : IsArange arange) where
  -- A window's parts follow each other with more than the purge and the embargo between, and its
  -- test is inside.
  pub record InOrder (z : Sizes) (w : WalkForwardWindow) : Type 0 where
    pub before_validation : Apart (z.purge_size + z.embargo_size) w.train w.validation
    pub before_test : Apart (z.purge_size + z.embargo_size) w.validation w.out_of_sample
    pub trained_before : Apart (z.purge_size + z.embargo_size) w.train w.out_of_sample
    pub inside : All (λ i. i < z.n_samples) w.out_of_sample

  Apart-nil : (gap : ℕ) (xs : List ℕ) → Apart gap xs []
  Apart-nil gap [] = tt
  Apart-nil gap (x ∷ xs) = (tt, Apart-nil gap xs)

  -- With and without a validation block.
  parts :
      (b : Bool) (t p e v start size : ℕ)
      → let gap = p + e in
        let train = arange start (t - p) in
        let validation = if b then [] else arange (t + e) (t + e + v - p) in
        let from = if b then t + e else t + e + v + e in
        let test = arange from (from + size) in
        Apart gap train validation × Apart gap validation test × Apart gap train test
  parts true t p e v start size = (
    Apart-nil (p + e) (arange start (t - p)),
    tt,
    arange-Apart arange spec (p + e) start (t - p) (t + e) (t + e + size) (λ i hi. omega arith),
  )
  parts false t p e v start size = (
    arange-Apart arange spec (p + e) start (t - p) (t + e) (t + e + v - p) (λ i hi. omega arith),
    arange-Apart arange spec (p + e) (t + e) (t + e + v - p) (t + e + v + e) (t + e + v + e + size)
        (λ i hi. omega arith),
    arange-Apart arange spec (p + e) start (t - p) (t + e + v + e) (t + e + v + e + size)
        (λ i hi. omega arith),
  )

  window_at-InOrder :
      (z : Sizes) (number offset : ℕ)
      → out_of_sample_start arange z offset + z.out_of_sample_size ≤ z.n_samples
      → InOrder z (window_at arange z number offset)
  unfolding window_at out_of_sample_start
  window_at-InOrder z number offset h =
      let start = out_of_sample_start arange z offset in
      let p =
        parts (z.validation_size == 0) (z.train_size + offset) z.purge_size z.embargo_size
          z.validation_size (if z.anchored then 0 else offset) z.out_of_sample_size in
      record {
        before_validation = p.0;
        before_test = p.1;
        trained_before = p.2;
        inside =
            All-map_imp (λ i hi. omega (arith, h, hi)) (arange start (start + z.out_of_sample_size))
              (arange_below arange spec start (start + z.out_of_sample_size));
      }

  -- The numbers of the windows count from `k`.
  abbrev pub Numbered : ℕ → List WalkForwardWindow → Type 0
  Numbered k [] = Unit
  Numbered k (w ∷ ws) = (w.number ≡ k) × Numbered (suc k) ws

  number_at : (z : Sizes) (number offset : ℕ) → (window_at arange z number offset).number ≡ number
  unfolding window_at
  number_at z number offset = refl

  windows_lem :
      (fuel : ℕ) (z : Sizes) (number offset : ℕ) (ws : List WalkForwardWindow)
      → windows arange fuel z number offset ≡ some ws
      → All (InOrder z) ws × Numbered number ws
  unfolding windows
  windows_lem zero z number offset ws h = absurd (ground arith)
  windows_lem (suc fuel) z number offset ws h =
      elim (windows_cases arange fuel z number offset ws h) [
        | inl e ↦ rw e (tt, tt)
        | inr (rest, r, e, fits) ↦
            let later = windows_lem fuel z (suc number) (offset + step_of z) rest r in
            rw e (
              (window_at-InOrder z number offset fits, later.0),
              (number_at z number offset, later.1),
            )
      ]

  -- An accepted walk-forward validation has windows, numbered from zero, each in order, with more
  -- than the purge and the embargo between its parts, and tested inside the observations.
  pub walk_forward_splits-InOrder :
      (z : Sizes) (ws : List WalkForwardWindow)
      → walk_forward_splits arange z ≡ ok ws
      → All (InOrder z) ws × Numbered 0 ws × (ws ≢ [])
  unfolding walk_forward_splits
  walk_forward_splits-InOrder z ws h =
      let found : windows arange (suc z.n_samples) z 0 0 ≡ some ws = ground arith in
      let l = windows_lem (suc z.n_samples) z 0 0 ws found in (l.0, l.1, λ e. ground arith)

  -- Every observation of a window's test is before each of a later one's.
  abbrev pub TestedOnce : List WalkForwardWindow → Type 0
  TestedOnce [] = Unit
  TestedOnce (w ∷ ws) =
      All (λ (x : WalkForwardWindow). Apart 0 w.out_of_sample x.out_of_sample) ws × TestedOnce ws

  abbrev From : ℕ → WalkForwardWindow → Type 0
  From lo w = All (λ j. lo ≤ j) w.out_of_sample

  start_steps :
      (z : Sizes) (offset : ℕ)
      → z.out_of_sample_size ≤ step_of z
      → out_of_sample_start arange z offset + z.out_of_sample_size
        ≤ out_of_sample_start arange z (offset + step_of z)
  unfolding out_of_sample_start
  start_steps z offset k = ground arith

  first_before :
      (z : Sizes) (number offset : ℕ) (x : WalkForwardWindow)
      → z.out_of_sample_size ≤ step_of z
      → From (out_of_sample_start arange z (offset + step_of z)) x
      → Apart 0 (window_at arange z number offset).out_of_sample x.out_of_sample
  unfolding window_at
  first_before z number offset x k later =
      let start = out_of_sample_start arange z offset in
      All-map_imp
        (λ i hi.
          All-map_imp (λ j hj. omega (arith, hi, hj, start_steps z offset k)) x.out_of_sample later)
        (arange start (start + z.out_of_sample_size))
        (arange_below arange spec start (start + z.out_of_sample_size))

  first-From :
      (z : Sizes) (number offset : ℕ)
      → From (out_of_sample_start arange z offset) (window_at arange z number offset)
  unfolding window_at
  first-From z number offset =
      let start = out_of_sample_start arange z offset in
      All-map_imp (λ i hi. hi.0) (arange start (start + z.out_of_sample_size))
        (spec start (start + z.out_of_sample_size))

  From-earlier :
      (z : Sizes) (offset : ℕ) (ws : List WalkForwardWindow)
      → z.out_of_sample_size ≤ step_of z
      → All (From (out_of_sample_start arange z (offset + step_of z))) ws
      → All (From (out_of_sample_start arange z offset)) ws
  From-earlier z offset ws k h =
      All-map_imp
        (λ w hw. All-map_imp (λ j hj. omega (arith, hj, start_steps z offset k)) w.out_of_sample hw)
        ws h

  windows_once :
      (fuel : ℕ) (z : Sizes) (number offset : ℕ) (ws : List WalkForwardWindow)
      → z.out_of_sample_size ≤ step_of z
      → windows arange fuel z number offset ≡ some ws
      → TestedOnce ws × All (From (out_of_sample_start arange z offset)) ws
  unfolding windows
  windows_once zero z number offset ws k h = absurd (ground arith)
  windows_once (suc fuel) z number offset ws k h =
      elim (windows_cases arange fuel z number offset ws h) [
        | inl e ↦ rw e (tt, tt)
        | inr (rest, r, e, fits) ↦
            let later = windows_once fuel z (suc number) (offset + step_of z) rest k r in
            rw e (
              (All-map_imp (λ x hx. first_before z number offset x k hx) rest later.1, later.0),
              (first-From z number offset, From-earlier z offset rest k later.1),
            )
      ]

  -- If the step is not below the size of a test, as it is when it is left out, no observation is
  -- tested twice, and the tests of the windows come one after the other.
  pub walk_forward_splits-TestedOnce :
      (z : Sizes) (ws : List WalkForwardWindow)
      → z.out_of_sample_size ≤ step_of z
      → walk_forward_splits arange z ≡ ok ws
      → TestedOnce ws
  unfolding walk_forward_splits
  walk_forward_splits-TestedOnce z ws k h =
      let found : windows arange (suc z.n_samples) z 0 0 ≡ some ws = ground arith in
      (windows_once (suc z.n_samples) z 0 0 ws k found).0
