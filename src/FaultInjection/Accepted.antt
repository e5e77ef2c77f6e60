-- ===== src/FaultInjection/Accepted.antt =====
-- What an accepted configuration of dynamic-fault-injection/internal/config/config.go is like.
use built_on_envoy.Prelude.{
  Option, none, some, Bool, false, not, ◌&&◌, ◌||◌, Bytes, text, bytes_eq, ◌==◌, List, [], ◌∷◌, ◌≡◌,
  ◌⊎◌, refl, arith, if◌then◌else◌, All, eq_iff, Bool-cases, Option-cases, inl, inr, append_eq_nil,
}
use built_on_envoy.Prelude.Int.{ℤ}
use built_on_envoy.FaultInjection.Floats.{Floats}
use built_on_envoy.FaultInjection.Config.{
  ConfigSource, StatusDistribution, bad_mode, no_tipping_point, tipping_not_greater,
  no_healthy_responses, no_tipping_responses, fault_if, is_present, no_items,
}
use built_on_envoy.FaultInjection.Validate.{
  LoadTier, LoadBasedConfig, EndpointConfig, FilterConfig, healthy_faults, tiers_faults,
  validate_load_based, load_faults, validate_behavior, endpoints_faults, is_per_route, mode_of,
  config_faults, statuses_faults, IsValidStatus, fault_if_nil, statuses_faults-IsValidStatus,
}

module _ (F : Floats) (parse_duration : Bytes → Option ℤ)
    (valid_name valid_value : Bytes → Bool) where
  abbrev AreValid : List StatusDistribution → Type 0
  AreValid = All (IsValidStatus F parse_duration valid_name valid_value)

  -- Both tiers are there and can be sampled, the tipping point not at or below the healthy one.
  pub record IsValidLoad (lb : LoadBasedConfig F) : Type 0 where
    pub healthy : LoadTier F
    pub tipping_point : LoadTier F
    pub healthy_there : lb.healthy ≡ some healthy
    pub tipping_there : lb.tipping_point ≡ some tipping_point
    pub in_order : F.le tipping_point.threshold_in_flight healthy.threshold_in_flight ≡ false
    pub healthy_some : no_items healthy.responses ≡ false
    pub tipping_some : no_items tipping_point.responses ≡ false
    pub healthy_valid :
        All (IsValidStatus F parse_duration valid_name valid_value) healthy.responses
    pub tipping_valid :
        All (IsValidStatus F parse_duration valid_name valid_value) tipping_point.responses

  -- Either responses or a load is configured, not both, and what is there is valid.
  abbrev pub IsValidBehavior : List StatusDistribution → Option (LoadBasedConfig F) → Type 0
  IsValidBehavior responses lb =
      ((no_items responses ≡ false)
        × (lb ≡ none)
        × All (IsValidStatus F parse_duration valid_name valid_value) responses)
      ⊎ ((load : LoadBasedConfig F) × (lb ≡ some load) × (responses ≡ []) × IsValidLoad load)

  tiers_faults-IsValidLoad :
      (lb : LoadBasedConfig F) (healthy tipping : LoadTier F)
      → lb.healthy ≡ some healthy
      → lb.tipping_point ≡ some tipping
      → tiers_faults F parse_duration valid_name valid_value (some healthy) (some tipping) ≡ []
      → IsValidLoad lb
  unfolding tiers_faults
  tiers_faults-IsValidLoad lb healthy tipping a b h =
      let (c, r) =
        append_eq_nil
          (fault_if (F.le tipping.threshold_in_flight healthy.threshold_in_flight)
            tipping_not_greater)
          _ h in
      let (d, r2) =
        append_eq_nil (fault_if (no_items healthy.responses) no_healthy_responses) _ r in
      let (e, r3) =
        append_eq_nil (fault_if (no_items tipping.responses) no_tipping_responses) _ r2 in
      let (f, g) =
        append_eq_nil (statuses_faults F parse_duration valid_name valid_value healthy.responses) _
          r3 in
      record {
        healthy = healthy;
        tipping_point = tipping;
        healthy_there = a;
        tipping_there = b;
        in_order = fault_if_nil _ _ c;
        healthy_some = fault_if_nil _ _ d;
        tipping_some = fault_if_nil _ _ e;
        healthy_valid =
            statuses_faults-IsValidStatus F parse_duration valid_name valid_value healthy.responses
              f;
        tipping_valid =
            statuses_faults-IsValidStatus F parse_duration valid_name valid_value tipping.responses
              g;
      }

  validate_load-IsValidLoad :
      (lb : LoadBasedConfig F)
      → validate_load_based F parse_duration valid_name valid_value lb ≡ []
      → IsValidLoad lb
  unfolding validate_load_based healthy_faults is_present fault_if
  validate_load-IsValidLoad lb h =
      let (a, r) =
        append_eq_nil (healthy_faults F parse_duration valid_name valid_value lb.healthy) _ h in
      let (b, r2) =
        append_eq_nil (fault_if (not (is_present lb.tipping_point)) no_tipping_point) _ r in
      let (c, d) =
        append_eq_nil
          (tiers_faults F parse_duration valid_name valid_value lb.healthy lb.tipping_point) _ r2 in
      elim (Option-cases lb.healthy) [
        | inl e ↦ absurd (ground arith)
        | inr (healthy, e) ↦ elim (Option-cases lb.tipping_point) [
          | inl f ↦ absurd (ground arith)
          | inr (tipping, f) ↦ tiers_faults-IsValidLoad lb healthy tipping e f (rw (e, f) at c)
        ]
      ]

  validate_behavior-IsValidBehavior :
      (responses : List StatusDistribution) (lb : Option (LoadBasedConfig F))
      → validate_behavior F parse_duration valid_name valid_value responses lb ≡ []
      → IsValidBehavior responses lb
  unfolding validate_behavior load_faults fault_if no_items is_present statuses_faults
  validate_behavior-IsValidBehavior [] none h = cc
  validate_behavior-IsValidBehavior [] (some load) h =
      inr (load, refl, refl, validate_load-IsValidLoad load h)
  validate_behavior-IsValidBehavior (sd ∷ sds) (some load) h = cc
  validate_behavior-IsValidBehavior (sd ∷ sds) none h =
      let (a, r) =
        append_eq_nil (statuses_faults F parse_duration valid_name valid_value (sd ∷ sds)) [] h in
      inl (
        refl,
        refl,
        statuses_faults-IsValidStatus F parse_duration valid_name valid_value (sd ∷ sds) a,
      )

  abbrev pub IsValidEndpoint : EndpointConfig F → Type 0
  IsValidEndpoint ep = IsValidBehavior ep.responses ep.load_based

  endpoints_faults-IsValidEndpoint :
      (eps : List (EndpointConfig F))
      → endpoints_faults F parse_duration valid_name valid_value eps ≡ []
      → All IsValidEndpoint eps
  unfolding endpoints_faults
  endpoints_faults-IsValidEndpoint [] h = tt
  endpoints_faults-IsValidEndpoint (ep ∷ eps) h =
      let (a, r) =
        append_eq_nil
          (validate_behavior F parse_duration valid_name valid_value ep.responses ep.load_based) _
          h in
      (
        validate_behavior-IsValidBehavior ep.responses ep.load_based a,
        endpoints_faults-IsValidEndpoint eps r,
      )

  top_level-IsValidBehavior :
      (source : ConfigSource) (responses : List StatusDistribution)
      (lb : Option (LoadBasedConfig F))
      → (if is_per_route source || (not (no_items responses) || is_present lb)
          then validate_behavior F parse_duration valid_name valid_value responses lb
          else [])
        ≡ []
      → IsValidBehavior responses lb
        ⊎ ((source ≡ ConfigSource.filter_source) × (responses ≡ []) × (lb ≡ none))
  unfolding is_per_route no_items is_present
  top_level-IsValidBehavior ConfigSource.per_route_source responses lb h =
      inl (validate_behavior-IsValidBehavior responses lb h)
  top_level-IsValidBehavior ConfigSource.filter_source [] none h = inr (refl, refl, refl)
  top_level-IsValidBehavior ConfigSource.filter_source [] (some load) h =
      inl (validate_behavior-IsValidBehavior [] (some load) h)
  top_level-IsValidBehavior ConfigSource.filter_source (sd ∷ sds) lb h =
      inl (validate_behavior-IsValidBehavior (sd ∷ sds) lb h)

  known_mode :
      (mode : Bytes)
      → (not (mode == text "stateful") && not (mode == text "stateless")) ≡ false
      → (mode ≡ text "stateful") ⊎ (mode ≡ text "stateless")
  known_mode mode h = elim (Bool-cases (mode == text "stateful")) [
    | inl e ↦ inl ((eq_iff mode (text "stateful")).0 e)
    | inr e ↦ inr ((eq_iff mode (text "stateless")).0 (ground arith))
  ]

  -- An accepted configuration has a known sampling mode; each endpoint has responses or a load, not both, and
  -- so has the top level of a route; and every status that can be sampled is valid: 200 to 599, a positive
  -- resolution, and a distribution that parses.
  pub config_faults_sound :
      (cfg : FilterConfig F) (source : ConfigSource)
      → config_faults F parse_duration valid_name valid_value cfg source ≡ []
      → ((mode_of cfg.probability_distribution ≡ text "stateful")
          ⊎ (mode_of cfg.probability_distribution ≡ text "stateless"))
        × All IsValidEndpoint cfg.endpoints
        × (IsValidBehavior cfg.responses cfg.load_based
            ⊎ ((source ≡ ConfigSource.filter_source)
                × (cfg.responses ≡ [])
                × (cfg.load_based ≡ none)))
  unfolding config_faults
  config_faults_sound cfg source h =
      let (a, r) =
        append_eq_nil
          (fault_if
            (not (mode_of cfg.probability_distribution == text "stateful")
              && not (mode_of cfg.probability_distribution == text "stateless"))
            (bad_mode (mode_of cfg.probability_distribution)))
          _ h in
      let (b, c) =
        append_eq_nil
          (if is_per_route source || (not (no_items cfg.responses) || is_present cfg.load_based)
            then validate_behavior F parse_duration valid_name valid_value cfg.responses
                cfg.load_based
            else [])
          _ r in
      (
        known_mode (mode_of cfg.probability_distribution) (fault_if_nil _ _ a),
        endpoints_faults-IsValidEndpoint cfg.endpoints c,
        top_level-IsValidBehavior source cfg.responses cfg.load_based b,
      )
