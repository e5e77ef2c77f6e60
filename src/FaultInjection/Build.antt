-- ===== src/FaultInjection/Build.antt =====
-- The constructors of dynamic-fault-injection/internal/fault/distribution.go, and `buildFilterFactoryForSource` of
-- plugin.go, which build a filter factory from a configuration. time.ParseDuration, the draws of the shuffles
-- and the lengths of which the runtime makes a slice are parameters, and the total of the weights wraps as
-- Go's int does. Go panics on a negative resolution; where it would go on with a negative status or
-- weight, which validation refuses, the model stops too.
use built_on_envoy.Prelude.{
  ◌%◌, ◌^◌, Bool, ℕ, suc, Option, none, some, true, false, ◌||◌, Bytes, bytes_eq, text, ◌==◌, List,
  [], ◌∷◌, if◌then◌else◌,
}
use built_on_envoy.Prelude.Int.{ℤ, pos, negsuc}
use built_on_envoy.FaultInjection.Floats.{Floats, Percentile}
use built_on_envoy.FaultInjection.Interpolate.{new_stateful_probability_distribution}
use built_on_envoy.FaultInjection.Response.{
  LocalResponseConfig, DurationDistribution, stateful, stateless, ResponseEntry,
  ResponseDistribution, total,
}
use built_on_envoy.FaultInjection.GreyZone.{GreyZoneState}
use built_on_envoy.FaultInjection.Load.{LoadBased}
use built_on_envoy.FaultInjection.Percentiles.{
  Result, PercentileError, parse_percentile_distribution,
}
use built_on_envoy.FaultInjection.Config.{StatusDistribution, ConfigSource, no_items}
use built_on_envoy.FaultInjection.Validate.{
  LoadTier, GreyZoneConfig, LoadBasedConfig, EndpointConfig, FilterConfig, mode_of, is_per_route,
}
use built_on_envoy.FaultInjection.Filter.{EndpointEntry, Factory}

pub data BuildError : Type 0 where
  no_statuses : BuildError
  unparsed : PercentileError → BuildError
  unsupported_mode : Bytes → BuildError

-- What is built, an error, or a panic.
pub data Built {ℓ} (A : Type ℓ) : Type ℓ where
  built : A → Built A
  failed : BuildError → Built A
  panicked : Built A

abbrev pub and_then {ℓ κ} : {A : Type ℓ} {B : Type κ} → Built A → (A → Built B) → Built B
and_then (built x) f = f x
and_then (failed e) f = failed e
and_then panicked f = panicked

-- The draws of the shuffles of one distribution, for each of its entries.
abbrev pub Shuffles : Type 0
Shuffles = ℕ → ℕ → ℕ

-- The draws for the distributions of an endpoint.
pub record BuildDraws : Type 0 where
  pub responses : Shuffles
  pub healthy : Shuffles
  pub tipping : Shuffles

module _ (F : Floats) (parse_duration : Bytes → Option ℤ) (can_make : ℕ → Bool) where
  -- newDurationDistribution
  unfoldable pub new_duration_distribution :
      (ℕ → ℕ) → List (Percentile F) → ℤ → Bytes → Built (DurationDistribution F)
  new_duration_distribution choose ps resolution mode =
      if mode == text "stateful"
      then elim resolution [
        | pos n ↦ elim (new_stateful_probability_distribution F can_make choose ps n) [
          | none ↦ panicked
          | some s ↦ built (stateful s)
        ]
        | negsuc n ↦ panicked
      ]
      else if mode == text "stateless"
      then built (stateless ps)
      else failed (unsupported_mode mode)

  unfoldable pub new_entry :
      Option LocalResponseConfig → ℤ → ℤ → DurationDistribution F → Built (ResponseEntry F)
  new_entry local_response (pos status) (pos weight) distribution = built (record {
    status = status;
    weight = weight;
    distribution = distribution;
    local_response = local_response;
  })
  new_entry local_response (pos status) (negsuc n) distribution = panicked
  new_entry local_response (negsuc n) weight distribution = panicked

  -- One turn of the loop of NewResponseDistributionWithMode.
  unfoldable pub build_entry : (ℕ → ℕ) → Bytes → StatusDistribution → Built (ResponseEntry F)
  build_entry choose mode sd =
      elim (parse_percentile_distribution F parse_duration sd.distribution) [
        | Result.err e ↦ failed (unparsed e)
        | Result.ok ps ↦
            and_then (new_duration_distribution choose ps sd.resolution mode)
              (new_entry sd.local_response sd.status sd.resolution)
      ]

  unfoldable pub build_entries :
      Shuffles → ℕ → Bytes → List StatusDistribution → Built (List (ResponseEntry F))
  build_entries shuffles i mode [] = built []
  build_entries shuffles i mode (sd ∷ sds) =
      let rest = build_entries shuffles (suc i) mode sds in
      and_then (build_entry (shuffles i) mode sd) (λ e. and_then rest (λ es. built (e ∷ es)))

  -- NewResponseDistributionWithMode
  unfoldable pub new_response_distribution :
      Shuffles → List StatusDistribution → Bytes → Built (ResponseDistribution F)
  new_response_distribution shuffles [] mode = failed no_statuses
  new_response_distribution shuffles (sd ∷ sds) mode =
      and_then (build_entries shuffles 0 mode (sd ∷ sds))
        (λ entries. built (record { entries = entries; total_weight = total F entries % 2 ^ 64 }))

  abbrev pub duration_or_zero : Option ℤ → ℤ
  duration_or_zero none = pos 0
  duration_or_zero (some d) = d

  unfoldable pub new_grey_zone : Option (GreyZoneConfig F) → Option (GreyZoneState F)
  new_grey_zone none = none
  new_grey_zone (some gz) = some (record {
    penalty_base = duration_or_zero (parse_duration gz.penalty_base);
    spike_penalty_duration = duration_or_zero (parse_duration gz.spike_penalty_duration);
    spike_threshold = gz.spike_threshold;
    spike_penalty_multiplier = gz.spike_penalty_multiplier;
    recovery_rate = gz.recovery_rate;
    recovery_start = none;
    in_spike = false;
  })

  -- NewLoadBasedResponseDistributionWithMode
  unfoldable pub new_load_based :
      BuildDraws → LoadTier F → LoadTier F → Option (GreyZoneConfig F) → Bytes → Built (LoadBased F)
  new_load_based draws healthy tipping gz mode =
      and_then (new_response_distribution draws.healthy healthy.responses mode) (λ h.
        and_then (new_response_distribution draws.tipping tipping.responses mode) (λ t.
          built (record {
            healthy = h;
            tipping_point = t;
            healthy_threshold = healthy.threshold_in_flight;
            tipping_threshold = tipping.threshold_in_flight;
            grey_zone = new_grey_zone gz;
          })))

  abbrev some_built {ℓ} : {A : Type ℓ} → Built A → Built (Option A)
  some_built b = and_then b (λ x. built (some x))

  -- The distribution of responses, if there are any.
  unfoldable pub build_responses :
      BuildDraws → Bytes → List StatusDistribution → Built (Option (ResponseDistribution F))
  build_responses draws mode [] = built none
  build_responses draws mode (sd ∷ sds) =
      some_built (new_response_distribution draws.responses (sd ∷ sds) mode)

  -- The distribution by load, if it is configured; a tier that is not there is a nil pointer.
  unfoldable pub build_load :
      BuildDraws → Bytes → Option (LoadBasedConfig F) → Built (Option (LoadBased F))
  build_load draws mode none = built none
  build_load draws mode (some lb) = elim lb.healthy [
    | none ↦ panicked
    | some healthy ↦ elim lb.tipping_point [
      | none ↦ panicked
      | some tipping ↦ some_built (new_load_based draws healthy tipping lb.grey_zone mode)
    ]
  ]

  unfoldable pub build_endpoint : BuildDraws → Bytes → EndpointConfig F → Built (EndpointEntry F)
  build_endpoint draws mode ep = and_then (build_responses draws mode ep.responses) (λ distribution.
      and_then (build_load draws mode ep.load_based) (λ load. built (record {
        match_config = ep.match_config;
        distribution = distribution;
        load_based = load;
      })))

  unfoldable pub build_endpoints :
      (ℕ → BuildDraws) → ℕ → Bytes → List (EndpointConfig F) → Built (List (EndpointEntry F))
  build_endpoints draws i mode [] = built []
  build_endpoints draws i mode (ep ∷ eps) =
      let rest = build_endpoints draws (suc i) mode eps in
      and_then (build_endpoint (draws i) mode ep) (λ e. and_then rest (λ es. built (e ∷ es)))

  abbrev of_endpoints : List (EndpointEntry F) → Factory F
  of_endpoints entries = record {
    endpoints = entries;
    distribution = none;
    load_based = none;
    direct = false;
  }

  -- buildFilterFactoryForSource, for a configuration that is loaded: its own behavior, or its endpoints
  unfoldable pub build_filter_factory :
      BuildDraws → (ℕ → BuildDraws) → FilterConfig F → ConfigSource → Built (Factory F)
  build_filter_factory own draws cfg source =
      if is_per_route source || no_items cfg.endpoints
      then and_then (build_responses own (mode_of cfg.probability_distribution) cfg.responses)
          (λ distribution.
            and_then (build_load own (mode_of cfg.probability_distribution) cfg.load_based) (λ load.
              built (record {
                endpoints = [];
                distribution = distribution;
                load_based = load;
                direct = true;
              })))
      else and_then (build_endpoints draws 0 (mode_of cfg.probability_distribution) cfg.endpoints)
          (λ entries. built (of_endpoints entries))
