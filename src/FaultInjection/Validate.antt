-- ===== src/FaultInjection/Validate.antt =====
-- The checks of dynamic-fault-injection/internal/config/config.go on statuses, load tiers and the whole.
use built_on_envoy.Prelude.{
  Option, none, some, Bool, true, false, not, ◌&&◌, ◌||◌, Bytes, bytes_eq, text, ◌==◌, List, [],
  ◌∷◌, ◌++◌, ◌≡◌, arith, if◌then◌else◌, All, inl, inr, append_eq_nil,
}
use built_on_envoy.Prelude.Int.{ℤ, pos, ltb_ℤ, ◌≤ℤ◌}
use built_on_envoy.FaultInjection.Floats.{Floats, Percentile}
use built_on_envoy.FaultInjection.Match.{MatchConfig}
use built_on_envoy.FaultInjection.Percentiles.{Result, Result-cases, parse_percentile_distribution}
use built_on_envoy.FaultInjection.Config.{
  ConfigFault, ConfigSource, StatusDistribution, bad_mode, no_behavior, two_behaviors, bad_status,
  bad_resolution, no_distribution, bad_distribution, no_healthy, healthy_not_positive,
  no_tipping_point, tipping_not_greater, no_healthy_responses, no_tipping_responses,
  bad_penalty_base, bad_spike_duration, bad_spike_threshold, bad_multiplier, bad_recovery_rate,
  fault_if, is_present, no_items, local_response_faults,
}

pub fault_if_nil : (b : Bool) (e : ConfigFault) → fault_if b e ≡ [] → b ≡ false
unfolding fault_if
fault_if_nil b e h = ground arith

unfoldable pub is_per_route : ConfigSource → Bool
is_per_route ConfigSource.filter_source = false
is_per_route ConfigSource.per_route_source = true

-- The sampling mode, which defaults to stateful.
unfoldable pub mode_of : Bytes → Bytes
mode_of mode = if mode == [] then text "stateful" else mode

module _ (F : Floats) where
  pub record LoadTier : Type 0 where
    pub threshold_in_flight : F.Float
    pub responses : List StatusDistribution

  pub record GreyZoneConfig : Type 0 where
    pub penalty_base : Bytes
    pub spike_threshold : F.Float
    pub spike_penalty_duration : Bytes
    pub spike_penalty_multiplier : F.Float
    pub recovery_rate : F.Float

  pub record LoadBasedConfig : Type 0 where
    pub healthy : Option LoadTier
    pub tipping_point : Option LoadTier
    pub grey_zone : Option GreyZoneConfig

  pub record EndpointConfig : Type 0 where
    pub match_config : MatchConfig
    pub responses : List StatusDistribution
    pub load_based : Option LoadBasedConfig

  pub record FilterConfig : Type 0 where
    pub endpoints : List EndpointConfig
    pub probability_distribution : Bytes
    pub diagnostic : Bool
    pub responses : List StatusDistribution
    pub load_based : Option LoadBasedConfig

module _ (F : Floats) (parse_duration : Bytes → Option ℤ)
    (valid_name valid_value : Bytes → Bool) where
  unfoldable pub distribution_faults : List (Bytes × Bytes) → List ConfigFault
  distribution_faults dist = elim (parse_percentile_distribution F parse_duration dist) [
    | Result.err e ↦ bad_distribution e ∷ []
    | Result.ok ps ↦ []
  ]

  unfoldable pub validate_status_distribution : StatusDistribution → List ConfigFault
  validate_status_distribution sd =
      fault_if (ltb_ℤ sd.status (pos 200) || ltb_ℤ (pos 599) sd.status) (bad_status sd.status)
      ++ (fault_if (not (ltb_ℤ (pos 0) sd.resolution)) (bad_resolution sd.resolution)
          ++ (fault_if (no_items sd.distribution) no_distribution
              ++ (distribution_faults sd.distribution
                  ++ local_response_faults valid_name valid_value sd.status sd.local_response)))

  unfoldable pub statuses_faults : List StatusDistribution → List ConfigFault
  statuses_faults [] = []
  statuses_faults (sd ∷ sds) = validate_status_distribution sd ++ statuses_faults sds

  unfoldable pub healthy_faults : Option (LoadTier F) → List ConfigFault
  healthy_faults none = no_healthy ∷ []
  healthy_faults (some tier) =
      fault_if (F.le tier.threshold_in_flight (F.of_int (pos 0))) healthy_not_positive

  -- Only where both tiers are there are they looked into.
  unfoldable pub tiers_faults : Option (LoadTier F) → Option (LoadTier F) → List ConfigFault
  tiers_faults (some healthy) (some tipping) =
      fault_if (F.le tipping.threshold_in_flight healthy.threshold_in_flight) tipping_not_greater
      ++ (fault_if (no_items healthy.responses) no_healthy_responses
          ++ (fault_if (no_items tipping.responses) no_tipping_responses
              ++ (statuses_faults healthy.responses ++ statuses_faults tipping.responses)))
  tiers_faults none tipping = []
  tiers_faults (some healthy) none = []

  unfoldable pub grey_zone_faults : Option (GreyZoneConfig F) → List ConfigFault
  grey_zone_faults none = []
  grey_zone_faults (some gz) =
      fault_if (not (is_present (parse_duration gz.penalty_base))) bad_penalty_base
      ++ (fault_if (not (is_present (parse_duration gz.spike_penalty_duration))) bad_spike_duration
          ++ (fault_if
                (F.le gz.spike_threshold (F.of_int (pos 0))
                  || F.le (F.of_int (pos 1)) gz.spike_threshold)
                bad_spike_threshold
              ++ (fault_if (F.le gz.spike_penalty_multiplier (F.of_int (pos 0))) bad_multiplier
                  ++ fault_if
                      (F.le gz.recovery_rate (F.of_int (pos 0))
                        || F.lt (F.of_int (pos 1)) gz.recovery_rate)
                      bad_recovery_rate)))

  unfoldable pub validate_load_based : LoadBasedConfig F → List ConfigFault
  validate_load_based lb =
      healthy_faults lb.healthy
      ++ (fault_if (not (is_present lb.tipping_point)) no_tipping_point
          ++ (tiers_faults lb.healthy lb.tipping_point ++ grey_zone_faults lb.grey_zone))

  unfoldable pub load_faults : Option (LoadBasedConfig F) → List ConfigFault
  load_faults none = []
  load_faults (some lb) = validate_load_based lb

  unfoldable pub validate_behavior :
      List StatusDistribution → Option (LoadBasedConfig F) → List ConfigFault
  validate_behavior responses lb =
      fault_if (no_items responses && not (is_present lb)) no_behavior
      ++ (fault_if (not (no_items responses) && is_present lb) two_behaviors
          ++ (statuses_faults responses ++ load_faults lb))

  unfoldable pub endpoints_faults : List (EndpointConfig F) → List ConfigFault
  endpoints_faults [] = []
  endpoints_faults (ep ∷ eps) = validate_behavior ep.responses ep.load_based ++ endpoints_faults eps

  -- parseConfig: every fault of a decoded configuration; it is accepted if there are none
  unfoldable pub config_faults : FilterConfig F → ConfigSource → List ConfigFault
  config_faults cfg source =
      fault_if
        (not (mode_of cfg.probability_distribution == text "stateful")
          && not (mode_of cfg.probability_distribution == text "stateless"))
        (bad_mode (mode_of cfg.probability_distribution))
      ++ ((if is_per_route source || (not (no_items cfg.responses) || is_present cfg.load_based)
            then validate_behavior cfg.responses cfg.load_based
            else [])
          ++ endpoints_faults cfg.endpoints)

  -- What the sampling relies on in a status.
  pub record IsValidStatus (sd : StatusDistribution) : Type 0 where
    pub status_low : pos 200 ≤ℤ sd.status
    pub status_high : sd.status ≤ℤ pos 599
    pub resolution_positive : pos 1 ≤ℤ sd.resolution
    pub parsed :
        (ps : List (Percentile F)) × (parse_percentile_distribution F parse_duration sd.distribution
          ≡ Result.ok ps)

  distribution_faults_nil :
      (dist : List (Bytes × Bytes))
      → distribution_faults dist ≡ []
      → (ps : List (Percentile F)) × (parse_percentile_distribution F parse_duration dist
          ≡ Result.ok ps)
  unfolding distribution_faults
  distribution_faults_nil dist h =
      elim (Result-cases (parse_percentile_distribution F parse_duration dist)) [
        | inl (e, q) ↦ cc
        | inr r ↦ r
      ]

  validate_status-IsValidStatus :
      (sd : StatusDistribution) → validate_status_distribution sd ≡ [] → IsValidStatus sd
  unfolding validate_status_distribution
  validate_status-IsValidStatus sd h =
      let (a, rest) =
        append_eq_nil
          (fault_if (ltb_ℤ sd.status (pos 200) || ltb_ℤ (pos 599) sd.status) (bad_status sd.status))
          _ h in
      let (b, rest2) =
        append_eq_nil (fault_if (not (ltb_ℤ (pos 0) sd.resolution)) (bad_resolution sd.resolution))
          _ rest in
      let (c, rest3) =
        append_eq_nil (fault_if (no_items sd.distribution) no_distribution) _ rest2 in
      let (d, rest4) = append_eq_nil (distribution_faults sd.distribution) _ rest3 in
      let in_range = fault_if_nil _ _ a in
      let positive = fault_if_nil _ _ b in
      record {
        status_low = ground arith;
        status_high = ground arith;
        resolution_positive = ground arith;
        parsed = distribution_faults_nil sd.distribution d;
      }

  pub statuses_faults-IsValidStatus :
      (sds : List StatusDistribution) → statuses_faults sds ≡ [] → All IsValidStatus sds
  unfolding statuses_faults
  statuses_faults-IsValidStatus [] h = tt
  statuses_faults-IsValidStatus (sd ∷ sds) h =
      let (a, rest) = append_eq_nil (validate_status_distribution sd) (statuses_faults sds) h in
      (validate_status-IsValidStatus sd a, statuses_faults-IsValidStatus sds rest)
