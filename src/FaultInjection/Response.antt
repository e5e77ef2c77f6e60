-- ===== src/FaultInjection/Response.antt =====
-- `ResponseDistribution` of dynamic-fault-injection/internal/fault/distribution.go: a status by weight, then
-- a latency from the distribution of that status. A panic is `none`.
use mathlib.Core.Option
use built_on_envoy.Prelude.{
  Bool, not, ◌&&◌, ◌^◌, ℕ, suc, ◌+◌, ◌-◌, ◌<◌, ◌≤◌, Option, none, some, true, false, Bytes, List,
  [], ◌∷◌, ◌≡◌, if◌then◌else◌, ltb, nat_beq, length, get_elem?, set, take, All,
}
use built_on_envoy.Prelude.Int.{ℤ}
use built_on_envoy.FaultInjection.Floats.{Floats, Percentile}
use built_on_envoy.FaultInjection.Interpolate.{sample_with_value}
use built_on_envoy.FaultInjection.Stateful
use built_on_envoy.FaultInjection.Stateful.{StatefulProbabilityDistribution}

pub record LocalResponseHeader : Type 0 where
  pub name : Bytes
  pub value : Bytes

pub record LocalResponseConfig : Type 0 where
  pub body : Option Bytes
  pub headers : List LocalResponseHeader

pub record ResponseSample : Type 0 where
  pub status : ℕ
  pub duration : ℤ
  pub local_response : Option LocalResponseConfig

-- Whether a word stands for a positive int.
unfoldable pub is_positive : ℕ → Bool
is_positive word = not (nat_beq word 0) && ltb word (2 ^ 63)

module _ (F : Floats) where
  -- durationDistribution
  pub data DurationDistribution : Type 0 where
    stateful : StatefulProbabilityDistribution ℤ → DurationDistribution
    stateless : List (Percentile F) → DurationDistribution

  pub record ResponseEntry : Type 0 where
    pub status : ℕ
    pub weight : ℕ
    pub distribution : DurationDistribution
    pub local_response : Option LocalResponseConfig

  -- The total is Go's int, as the 64-bit word that it is: from 2 ^ 63 on it stands for a negative number.
  pub record ResponseDistribution : Type 0 where
    pub entries : List ResponseEntry
    pub total_weight : ℕ

  -- What crypto/rand yields in one call of Sample: cryptoIntn(totalWeight), the draws of a shuffle and
  -- cryptoFloat64().
  pub record Draws : Type 0 where
    pub weight : ℕ
    pub shuffle : ℕ → ℕ
    pub fraction : F.Float

  unfoldable pub sample_duration : Draws → DurationDistribution → Option (ℤ × DurationDistribution)
  sample_duration draws (stateful s) = elim (Stateful.sample draws.shuffle s) [
    | none ↦ none
    | some (d, t) ↦ some (d, stateful t)
  ]
  sample_duration draws (stateless ps) = some (sample_with_value F draws.fraction ps, stateless ps)

  -- The entry at which the running sum of the weights exceeds `r`. The sum is taken not to wrap, as it cannot where `IsValid`
  -- holds.
  unfoldable pub select : ℕ → ℕ → List ResponseEntry → Option ℕ
  select r cumulative [] = none
  select r cumulative (e ∷ es) =
      let rest = select r (cumulative + e.weight) es in
      if ltb r (cumulative + e.weight) then some 0 else Option.map suc rest

  -- The last entry, where none is selected.
  unfoldable pub choose_entry : ℕ → List ResponseEntry → ℕ
  choose_entry r entries = elim (select r 0 entries) [ none ↦ length entries - 1 | some i ↦ i ]

  unfoldable pub sample_entry :
      Draws
      → ResponseDistribution
      → ℕ
      → ResponseEntry
      → Option (ResponseSample × ResponseDistribution)
  sample_entry draws rd i entry = elim (sample_duration draws entry.distribution) [
    | none ↦ none
    | some (d, distribution) ↦ some (
      record { status = entry.status; duration = d; local_response = entry.local_response },
      record {
        entries = set rd.entries i (record {
          status = entry.status;
          weight = entry.weight;
          distribution = distribution;
          local_response = entry.local_response;
        });
        total_weight = rd.total_weight;
      },
    )
  ]

  -- rand.Int panics on a bound that is not positive.
  unfoldable pub sample_response :
      Draws → ResponseDistribution → Option (ResponseSample × ResponseDistribution)
  sample_response draws rd = elim (is_positive rd.total_weight) [
    | false ↦ none
    | true ↦ elim (get_elem? rd.entries (choose_entry draws.weight rd.entries)) [
      | none ↦ none
      | some entry ↦ sample_entry draws rd (choose_entry draws.weight rd.entries) entry
    ]
  ]

  unfoldable pub total : List ResponseEntry → ℕ
  total [] = 0
  total (e ∷ es) = e.weight + total es

  -- Past `cumulative`, `r` falls into the share of the i-th entry: past the weights before it, by less than
  -- its own.
  pub record IsShare (cumulative : ℕ) (entries : List ResponseEntry) (r i : ℕ) : Type 0 where
    pub entry : ResponseEntry
    pub present : get_elem? entries i ≡ some entry
    pub above : cumulative + total (take i entries) ≤ r
    pub below : r < cumulative + total (take i entries) + entry.weight

  -- A stateful distribution has values.
  abbrev pub HasSamples : DurationDistribution → Type 0
  HasSamples (stateful s) = 0 < length s.values
  HasSamples (stateless ps) = Unit

  abbrev pub IsSampleable : ResponseEntry → Type 0
  IsSampleable e = HasSamples e.distribution

  -- The total is that of the weights and fits an int, and every entry can be sampled.
  pub record IsValid (rd : ResponseDistribution) : Type 0 where
    pub total_ok : rd.total_weight ≡ total rd.entries
    pub in_range : rd.total_weight < 2 ^ 63
    pub sampleable : All IsSampleable rd.entries
