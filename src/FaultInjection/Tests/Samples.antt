-- ===== src/FaultInjection/Tests/Samples.antt =====
-- The theorems on the distributions of fault injection at concrete inputs.
use mathlib.Core.List.{Perm}
use built_on_envoy.Prelude.{
  Bool, ltb, text, bytes_eq, ◌==◌, if◌then◌else◌, ℕ, ◌*◌, ◌/◌, ◌-◌, true, false, none, some, List,
  [], ◌∷◌, ◌≡◌, refl, inl, arith, length, ltb, leb, nat_beq, map, concat, All,
}
use built_on_envoy.Prelude.Int.{ℤ, pos, ◌+ℤ◌, ◌-ℤ◌, pos_part}
use built_on_envoy.FaultInjection.Floats.{Floats, Percentile}
use built_on_envoy.FaultInjection.Shuffle.{IsFair}
use built_on_envoy.FaultInjection.Stateful.{StatefulProbabilityDistribution, samples}
use built_on_envoy.FaultInjection.Cycles.{samples_rounds}
use built_on_envoy.FaultInjection.Interpolate.{
  precomputed, fill, bucket, tail_values, scale, new_stateful_probability_distribution,
  new_stateful,
}
use built_on_envoy.FaultInjection.Response.{
  DurationDistribution, ResponseEntry, ResponseDistribution, ResponseSample, Draws, sample_response,
  total, IsShare, IsValid,
}
use built_on_envoy.FaultInjection.Weights.{sample_response_total}

-- Hundredths, rounded down: enough of a float to compute with.
abbrev pub hundredths : Floats
hundredths = record {
  Float = ℕ;
  of_int = λ n. pos_part n * 100;
  to_int = λ x. pos (x / 100);
  sub = λ x y. x - y;
  mul = λ x y. x * y / 100;
  div = λ x y. x * 100 / y;
  min = λ x y. elim (leb x y) [ true ↦ x | false ↦ y ];
  max = λ x y. elim (leb x y) [ true ↦ y | false ↦ x ];
  lt = ltb;
  le = leb;
  eq = nat_beq;
  parse_float = λ s. if s == text "50" then some 5_000 else none;
}

-- Every draw is the lowest.
abbrev pub lowest : ℕ → ℕ
lowest n = 0

pub lowest-IsFair : IsFair lowest
lowest-IsFair n h = h

abbrev three : StatefulProbabilityDistribution ℕ
three = record { values = 10 ∷ 20 ∷ 30 ∷ []; index = 0 }

abbrev round : List (ℕ → ℕ)
round = lowest ∷ lowest ∷ lowest ∷ []

round-IsFair : All IsFair round
round-IsFair = (lowest-IsFair, (lowest-IsFair, (lowest-IsFair, tt)))

samples_rounds_example :
    (out : List ℕ) × (t : StatefulProbabilityDistribution ℕ) × (samples
        (concat (round ∷ round ∷ []))
        three
      ≡ some (out, t))
    × Perm out (concat (map (λ chooses. three.values) (round ∷ round ∷ [])))
samples_rounds_example =
    samples_rounds (round ∷ round ∷ []) three (inl refl)
      ((round-IsFair, refl), ((round-IsFair, refl), tt))

-- p50: 100, p100: 200
abbrev percentiles : List (Percentile hundredths)
percentiles =
    record { quantile = 50; duration = pos 100 }
    ∷ record { quantile = 100; duration = pos 200 }
    ∷ []

-- A runtime that makes slices of up to a thousand values.
abbrev pub plenty : ℕ → Bool
plenty n = ltb n 1_001

new_stateful_example :
    (s : StatefulProbabilityDistribution ℤ) × (new_stateful_probability_distribution hundredths
        plenty lowest percentiles 4
      ≡ some s)
    × (s.index ≡ 0)
    × (length s.values ≡ 4)
    × Perm s.values (precomputed hundredths percentiles 4)
new_stateful_example = new_stateful hundredths plenty lowest percentiles 4 refl lowest-IsFair

-- What is computed for the four slots: 0, 50, 100, 150.
precomputed_run : precomputed hundredths percentiles 4 ≡ pos 0 ∷ pos 50 ∷ pos 100 ∷ pos 150 ∷ []
unfolding precomputed fill bucket tail_values scale ◌+ℤ◌ ◌-ℤ◌
precomputed_run = refl

-- 200 for three of four requests, 503 for one.
abbrev pub entries : List (ResponseEntry hundredths)
entries =
    record {
      status = 200;
      weight = 3;
      distribution = DurationDistribution.stateful (record { values = pos 5 ∷ []; index = 0 });
      local_response = none;
    }
    ∷ record {
      status = 503;
      weight = 1;
      distribution = DurationDistribution.stateless percentiles;
      local_response = none;
    }
    ∷ []

abbrev pub distribution : ResponseDistribution hundredths
distribution = record { entries = entries; total_weight = 4 }

pub distribution-IsValid : IsValid hundredths distribution
unfolding total
distribution-IsValid = record {
  total_ok = refl;
  in_range = omega arith;
  sampleable = (omega arith, (tt, tt));
}

abbrev pub draws : Draws hundredths
draws = record { weight = 3; shuffle = lowest; fraction = 0 }

sample_response_total_example :
    (out : ResponseSample) × (after : ResponseDistribution hundredths) × (i : ℕ) × (share : IsShare
      hundredths 0 distribution.entries draws.weight i)
    × (sample_response hundredths draws distribution ≡ some (out, after))
    × (out.status ≡ share.entry.status)
    × (out.local_response ≡ share.entry.local_response)
    × (after.total_weight ≡ distribution.total_weight)
    × IsValid hundredths after
sample_response_total_example =
    sample_response_total hundredths draws distribution distribution-IsValid (omega arith)
      lowest-IsFair
