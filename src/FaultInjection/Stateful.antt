-- ===== src/FaultInjection/Stateful.antt =====
-- `StatefulProbabilityDistribution` of dynamic-fault-injection/internal/fault/distribution.go: samples that
-- are computed beforehand and handed out in shuffled order. `Sample` holds a lock from start to end, so a
-- state and its successor are the whole of it. Durations are any type here.

use built_on_envoy.Prelude.{
  ℕ, true, false, suc, ◌≤◌, Option, none, some, List, [], ◌∷◌, ◌≡◌, refl, ◌⊎◌, ltb, length,
  get_elem?,
}
use built_on_envoy.FaultInjection.Shuffle.{crypto_shuffle}

pub record StatefulProbabilityDistribution {ℓ} (A : Type ℓ) : Type ℓ where
  pub values : List A
  pub index : ℕ

module _ {ℓ} {A : Type ℓ} where
  -- val := spd.values[spd.index]; spd.index++; reading out of range is a panic, `none`
  unfoldable pub next :
      StatefulProbabilityDistribution A → Option (A × StatefulProbabilityDistribution A)
  next s = elim (get_elem? s.values s.index) [
    | none ↦ none
    | some val ↦ some (val, record { values = s.values; index = suc s.index })
  ]

  -- Sample; `choose` are the draws of the shuffle, when there is one.
  unfoldable pub sample :
      (ℕ → ℕ) → StatefulProbabilityDistribution A → Option (A × StatefulProbabilityDistribution A)
  sample choose s = elim (ltb s.index (length s.values)) [
    | true ↦ next s
    | false ↦ elim (crypto_shuffle choose s.values) [
      | none ↦ none
      | some values ↦ next (record { values = values; index = 0 })
    ]
  ]

  -- Successive calls of Sample, each with draws of its own.
  unfoldable pub samples :
      List (ℕ → ℕ)
      → StatefulProbabilityDistribution A
      → Option (List A × StatefulProbabilityDistribution A)
  samples [] s = some ([], s)
  samples (choose ∷ chooses) s = elim (sample choose s) [
    | none ↦ none
    | some (val, t) ↦ elim (samples chooses t) [
      | none ↦ none
      | some (vals, u) ↦ some (val ∷ vals, u)
    ]
  ]

  -- The index is in range, or one past the end.
  abbrev pub IsInCycle : StatefulProbabilityDistribution A → Type 0
  IsInCycle s = s.index ≤ length s.values

  -- At the start of a cycle: nothing of it is handed out yet, or all of it.
  abbrev pub IsBoundary : StatefulProbabilityDistribution A → Type 0
  IsBoundary s = (s.index ≡ 0) ⊎ (s.index ≡ length s.values)

  pub next_at :
      (values : List A) (i : ℕ) (a : A)
      → get_elem? values i ≡ some a
      → next (record { values = values; index = i })
        ≡ some (a, record { values = values; index = suc i })
  unfolding next
  next_at values i a h = rw (h, next) refl

  pub sample_within :
      (choose : ℕ → ℕ) (values : List A) (i : ℕ)
      → ltb i (length values) ≡ true
      → sample choose (record { values = values; index = i })
        ≡ next (record { values = values; index = i })
  unfolding sample
  sample_within choose values i h = rw (h, sample) refl

  pub sample_past :
      (choose : ℕ → ℕ) (values ys : List A) (i : ℕ)
      → ltb i (length values) ≡ false
      → crypto_shuffle choose values ≡ some ys
      → sample choose (record { values = values; index = i })
        ≡ next (record { values = ys; index = 0 })
  unfolding sample
  sample_past choose values ys i h e = rw (h, e, sample) refl
