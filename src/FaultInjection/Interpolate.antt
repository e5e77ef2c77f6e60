-- ===== src/FaultInjection/Interpolate.antt =====
-- `SampleWithValue` and `NewStatefulProbabilityDistribution` of
-- dynamic-fault-injection/internal/fault/distribution.go: linear interpolation between percentiles.
use mathlib.Core.List.{Perm}
use built_on_envoy.Prelude.{
  Bool, true, false, ℕ, zero, suc, ◌-◌, ◌≤◌, Option, none, some, List, [], ◌∷◌, ◌++◌, ◌≡◌, refl,
  ◌∙◌, arith, if◌then◌else◌, length, length-append, Bool-cases, inl, inr,
}
use built_on_envoy.Prelude.Int.{ℤ, pos, ◌+ℤ◌, ◌-ℤ◌, ltb_ℤ}
use built_on_envoy.FaultInjection.Floats.{Floats, Percentile}
use built_on_envoy.FaultInjection.Shuffle.{crypto_shuffle, IsFair, crypto_shuffle-IsReordering}
use built_on_envoy.FaultInjection.Stateful.{StatefulProbabilityDistribution}

module _ (F : Floats) where
  -- time.Duration(fraction * float64(d))
  unfoldable pub scale : F.Float → ℤ → ℤ
  scale fraction d = F.to_int (F.mul fraction (F.of_int d))

  -- From the second percentile on; `lower` is the one before, at the end the last.
  unfoldable pub sample_from : F.Float → Percentile F → List (Percentile F) → ℤ
  sample_from r lower [] =
      if F.le (F.of_int (pos 1)) lower.quantile
      then lower.duration
      else lower.duration
        +ℤ scale (F.div (F.sub r lower.quantile) (F.sub (F.of_int (pos 1)) lower.quantile))
            lower.duration
  sample_from r lower (upper ∷ ps) =
      let rest = sample_from r upper ps in
      if F.le r upper.quantile
      then lower.duration
        +ℤ scale (F.div (F.sub r lower.quantile) (F.sub upper.quantile lower.quantile))
            (upper.duration -ℤ lower.duration)
      else rest

  unfoldable pub sample_with_value : F.Float → List (Percentile F) → ℤ
  sample_with_value r [] = pos 0
  sample_with_value r (p ∷ ps) =
      if F.le r p.quantile
      then (if F.eq p.quantile (F.of_int (pos 0))
          then p.duration
          else F.to_int (F.mul (F.of_int p.duration) (F.div r p.quantile)))
      else sample_from r p ps

  -- The values from the i-th on of a percentile that has `count`, while there are slots left.
  unfoldable pub bucket : ℤ → ℤ → ℤ → ℕ → ℕ → List ℤ
  bucket count prev_duration duration zero i = []
  bucket count prev_duration duration (suc left) i =
      let rest = bucket count prev_duration duration left (suc i) in
      if ltb_ℤ (pos i) count
      then (prev_duration
          +ℤ scale (F.div (F.of_int (pos i)) (F.of_int count)) (duration -ℤ prev_duration))
        ∷ rest
      else []

  -- The tail beyond the last percentile, `left` of `remaining` values.
  unfoldable pub tail_values : ℕ → ℤ → ℕ → ℕ → List ℤ
  tail_values remaining last_duration zero i = []
  tail_values remaining last_duration (suc left) i =
      (last_duration +ℤ scale (F.div (F.of_int (pos i)) (F.of_int (pos remaining))) last_duration)
      ∷ tail_values remaining last_duration left (suc i)

  -- What is written into the slots, `left` of `resolution` being free.
  unfoldable pub fill : ℕ → F.Float → ℤ → ℕ → List (Percentile F) → List ℤ
  fill resolution prev_quantile prev_duration left [] = tail_values left prev_duration left 0
  fill resolution prev_quantile prev_duration left (p ∷ ps) =
      let count = F.to_int (F.mul (F.of_int (pos resolution)) (F.sub p.quantile prev_quantile)) in
      let written = bucket count prev_duration p.duration left 0 in
      written ++ fill resolution p.quantile p.duration (left - length written) ps

  unfoldable pub precomputed : List (Percentile F) → ℕ → List ℤ
  precomputed ps resolution = fill resolution (F.of_int (pos 0)) (pos 0) resolution ps

  -- `can_make` says whether the runtime makes a slice of that many values; a panic is `none`.
  unfoldable pub new_stateful_probability_distribution :
      (ℕ → Bool) → (ℕ → ℕ) → List (Percentile F) → ℕ → Option (StatefulProbabilityDistribution ℤ)
  new_stateful_probability_distribution can_make choose ps resolution = elim (can_make resolution) [
    | false ↦ none
    | true ↦ elim (crypto_shuffle choose (precomputed ps resolution)) [
      | none ↦ none
      | some values ↦ some (record { values = values; index = 0 })
    ]
  ]

  length-bucket_le :
      (count prev_duration duration : ℤ) (left i : ℕ)
      → length (bucket count prev_duration duration left i) ≤ left
  unfolding bucket
  length-bucket_le count pd d zero i = omega arith
  length-bucket_le count pd d (suc left) i = elim (Bool-cases (ltb_ℤ (pos i) count)) [
    | inl e ↦ rw (e, bucket) (omega (arith, length-bucket_le count pd d left (suc i)))
    | inr e ↦ rw (e, bucket) (omega arith)
  ]

  length-tail_values :
      (remaining : ℕ) (last_duration : ℤ) (left i : ℕ)
      → length (tail_values remaining last_duration left i) ≡ left
  unfolding tail_values
  length-tail_values remaining d zero i = refl
  length-tail_values remaining d (suc left) i =
      omega (arith, length-tail_values remaining d left (suc i))

  length-fill :
      (resolution : ℕ) (prev_quantile : F.Float) (prev_duration : ℤ) (left : ℕ)
      (ps : List (Percentile F))
      → length (fill resolution prev_quantile prev_duration left ps) ≡ left
  unfolding fill
  length-fill resolution q d left [] = length-tail_values left d left 0
  length-fill resolution q d left (p ∷ ps) =
      let count = F.to_int (F.mul (F.of_int (pos resolution)) (F.sub p.quantile q)) in
      let written = bucket count d p.duration left 0 in
      omega (
        arith,
        length-append written (fill resolution p.quantile p.duration (left - length written) ps),
        length-fill resolution p.quantile p.duration (left - length written) ps,
        length-bucket_le count d p.duration left 0,
      )

  pub length-precomputed :
      (ps : List (Percentile F)) (resolution : ℕ) → length (precomputed ps resolution) ≡ resolution
  unfolding precomputed
  length-precomputed ps resolution = length-fill resolution (F.of_int (pos 0)) (pos 0) resolution ps

  -- Whatever the rounding of the floats, a new distribution has exactly `resolution` values, those that are
  -- computed, and is at the start of a cycle, if a slice of that many values can be made.
  pub new_stateful :
      (can_make : ℕ → Bool) (choose : ℕ → ℕ) (ps : List (Percentile F)) (resolution : ℕ)
      → can_make resolution ≡ true
      → IsFair choose
      → (s : StatefulProbabilityDistribution ℤ) × (new_stateful_probability_distribution can_make
            choose ps resolution
          ≡ some s)
        × (s.index ≡ 0)
        × (length s.values ≡ resolution)
        × Perm s.values (precomputed ps resolution)
  unfolding new_stateful_probability_distribution
  new_stateful can_make choose ps resolution made fair =
      let (ys, e, n, p) = crypto_shuffle-IsReordering choose (precomputed ps resolution) fair in
      (
        record { values = ys; index = 0 },
        rw (made, new_stateful_probability_distribution, e) refl,
        refl,
        n ∙ length-precomputed ps resolution,
        p,
      )
