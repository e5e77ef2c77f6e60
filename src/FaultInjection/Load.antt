-- ===== src/FaultInjection/Load.antt =====
-- `LoadBasedResponseDistribution` of dynamic-fault-injection/internal/fault/distribution.go: healthy below
-- one load, overloaded above another, and a mix of both between them. `Sample` holds a lock throughout.
use built_on_envoy.Prelude.{Option, none, some, if◌then◌else◌}
use built_on_envoy.Prelude.Int.{ℤ, pos, ◌+ℤ◌}
use built_on_envoy.FaultInjection.Floats.{Floats}
use built_on_envoy.FaultInjection.GreyZone.{GreyZoneState, calculate_grey_zone_penalty}
use built_on_envoy.FaultInjection.Response.{
  ResponseDistribution, ResponseSample, Draws, sample_response,
}

module _ (F : Floats) where
  pub record LoadBased : Type 0 where
    pub healthy : ResponseDistribution F
    pub tipping_point : ResponseDistribution F
    pub healthy_threshold : F.Float
    pub tipping_threshold : F.Float
    pub grey_zone : Option (GreyZoneState F)

  unfoldable pub grey_position : LoadBased → F.Float → F.Float
  grey_position lb load =
      F.div (F.sub load lb.healthy_threshold) (F.sub lb.tipping_threshold lb.healthy_threshold)

  -- The penalty and the grey zone after it.
  unfoldable pub penalize : Option (GreyZoneState F) → F.Float → ℤ → ℤ × Option (GreyZoneState F)
  penalize none position now = (pos 0, none)
  penalize (some gz) position now =
      let clamped = F.min (F.max position (F.of_int (pos 0))) (F.of_int (pos 1)) in
      let (penalty, after) = calculate_grey_zone_penalty F gz clamped now in (penalty, some after)

  pub data Tier : Type 0 where
    healthy_tier : Tier
    tipping_tier : Tier
    -- Between the thresholds, with the distribution that is sampled.
    grey_healthy : Tier
    grey_tipping : Tier

  -- `draw` is cryptoFloat64(), which decides between the thresholds.
  unfoldable pub tier : LoadBased → F.Float → F.Float → Tier
  tier lb load draw =
      if F.le load lb.healthy_threshold
      then Tier.healthy_tier
      else if F.le lb.tipping_threshold load
      then Tier.tipping_tier
      else if F.lt (grey_position lb load) draw
      then Tier.grey_healthy
      else Tier.grey_tipping

  unfoldable pub delayed : ℤ → ResponseSample → ResponseSample
  delayed penalty s = record {
    status = s.status;
    duration = s.duration +ℤ penalty;
    local_response = s.local_response;
  }

  abbrev pub with_healthy :
      ResponseDistribution F → Option (GreyZoneState F) → LoadBased → LoadBased
  with_healthy after gz lb = record {
    healthy = after;
    tipping_point = lb.tipping_point;
    healthy_threshold = lb.healthy_threshold;
    tipping_threshold = lb.tipping_threshold;
    grey_zone = gz;
  }

  abbrev pub with_tipping :
      ResponseDistribution F → Option (GreyZoneState F) → LoadBased → LoadBased
  with_tipping after gz lb = record {
    healthy = lb.healthy;
    tipping_point = after;
    healthy_threshold = lb.healthy_threshold;
    tipping_threshold = lb.tipping_threshold;
    grey_zone = gz;
  }

  unfoldable pub sample_healthy :
      Draws F → Option (GreyZoneState F) → LoadBased → Option (ResponseSample × LoadBased)
  sample_healthy draws gz lb = elim (sample_response F draws lb.healthy) [
    | none ↦ none
    | some (s, after) ↦ some (s, with_healthy after gz lb)
  ]

  unfoldable pub sample_tipping :
      Draws F → Option (GreyZoneState F) → LoadBased → Option (ResponseSample × LoadBased)
  sample_tipping draws gz lb = elim (sample_response F draws lb.tipping_point) [
    | none ↦ none
    | some (s, after) ↦ some (s, with_tipping after gz lb)
  ]

  unfoldable pub add_penalty :
      ℤ → Option (ResponseSample × LoadBased) → Option (ResponseSample × LoadBased)
  add_penalty penalty none = none
  add_penalty penalty (some (s, lb)) = some (delayed penalty s, lb)

  -- The penalty is added between the thresholds only.
  unfoldable pub sample_tier :
      Tier
      → Draws F
      → ℤ
      → Option (GreyZoneState F)
      → LoadBased
      → Option (ResponseSample × LoadBased)
  sample_tier Tier.healthy_tier draws penalty gz lb = sample_healthy draws gz lb
  sample_tier Tier.tipping_tier draws penalty gz lb = sample_tipping draws gz lb
  sample_tier Tier.grey_healthy draws penalty gz lb =
      add_penalty penalty (sample_healthy draws gz lb)
  sample_tier Tier.grey_tipping draws penalty gz lb =
      add_penalty penalty (sample_tipping draws gz lb)

  -- Sample
  unfoldable pub sample_load :
      Draws F → F.Float → ℤ → LoadBased → F.Float → Option (ResponseSample × LoadBased)
  sample_load draws draw now lb load =
      let penalized = penalize lb.grey_zone (grey_position lb load) now in
      sample_tier (tier lb load draw) draws penalized.0 penalized.1 lb
