-- ===== src/FaultInjection/Factories.antt =====
-- The factory that is built from an accepted configuration of fault injection can be sampled.
use built_on_envoy.Prelude.{
  subst, ℕ, suc, Option, none, some, Bool, true, false, ◌||◌, Bytes, bytes_eq, List, [], ◌∷◌, ◌≡◌,
  ◌⊎◌, refl, ap, length, All, Bool-cases, inl, inr,
}
use built_on_envoy.Prelude.Int.{ℤ}
use built_on_envoy.FaultInjection.Floats.{Floats}
use built_on_envoy.FaultInjection.Response.{ResponseDistribution}
use built_on_envoy.FaultInjection.Load.{LoadBased}
use built_on_envoy.FaultInjection.Config.{StatusDistribution, ConfigSource, no_items}
use built_on_envoy.FaultInjection.Validate.{
  LoadBasedConfig, EndpointConfig, FilterConfig, mode_of, is_per_route, config_faults,
}
use built_on_envoy.FaultInjection.Accepted.{IsValidBehavior, IsValidEndpoint, config_faults_sound}
use built_on_envoy.FaultInjection.Filter.{EndpointEntry, Factory}
use built_on_envoy.FaultInjection.Build.{
  built, BuildDraws, build_responses, build_load, build_endpoint, build_endpoints,
  build_filter_factory,
}
use built_on_envoy.FaultInjection.Ready.{
  IsMode, AreFairDraws, Fits, FitsLoad, IsReady, IsReadyLoad, response_built, load_built,
}

module _ (F : Floats) (parse_duration : Bytes → Option ℤ) (can_make : ℕ → Bool)
    (valid_name valid_value : Bytes → Bool) where
  -- Exactly one of the two ways of choosing a response is there, and it can be sampled.
  abbrev pub IsReadyBehavior : Option (ResponseDistribution F) → Option (LoadBased F) → Type 0
  IsReadyBehavior distribution load =
      ((rd : ResponseDistribution F) × (distribution ≡ some rd)
        × (load ≡ none)
        × IsReady F parse_duration can_make valid_name valid_value rd)
      ⊎ ((lb : LoadBased F) × (distribution ≡ none)
          × (load ≡ some lb)
          × IsReadyLoad F parse_duration can_make valid_name valid_value lb)

  -- The resolutions of the responses and of both tiers of the load fit.
  abbrev pub FitsBehavior : Bytes → List StatusDistribution → Option (LoadBasedConfig F) → Type 0
  FitsBehavior mode sds lb =
      Fits can_make mode sds × FitsLoad F parse_duration can_make valid_name valid_value mode lb

  -- Those of the configuration and of each of its endpoints fit.
  abbrev pub FitsConfig : FilterConfig F → Type 0
  FitsConfig cfg =
      FitsBehavior (mode_of cfg.probability_distribution) cfg.responses cfg.load_based
      × All
          (λ (ep : EndpointConfig F).
            FitsBehavior (mode_of cfg.probability_distribution) ep.responses ep.load_based)
          cfg.endpoints

  behavior_built :
      (draws : BuildDraws) (mode : Bytes) (sds : List StatusDistribution)
      (lb : Option (LoadBasedConfig F))
      → IsMode mode
      → AreFairDraws draws
      → IsValidBehavior F parse_duration valid_name valid_value sds lb
      → FitsBehavior mode sds lb
      → (distribution : Option (ResponseDistribution F)) × (load : Option (LoadBased F))
        × (build_responses F parse_duration can_make draws mode sds ≡ built distribution)
        × (build_load F parse_duration can_make draws mode lb ≡ built load)
        × IsReadyBehavior distribution load
  unfolding build_responses build_load no_items
  behavior_built draws mode [] lb m fair (inl (n, e, v)) fits = cc
  behavior_built draws mode (sd ∷ sds) lb m fair (inl (n, e, v)) fits =
      let (rd, made, ready) =
        response_built F parse_duration can_make valid_name valid_value draws.responses (sd ∷ sds)
          mode m fair.0 n v fits.0 in
      (
        some rd,
        none,
        rw (made, build_responses) refl,
        rw (e, build_load) refl,
        inl (rd, refl, refl, ready),
      )
  behavior_built draws mode sds lb m fair (inr (load, e, n, v)) fits =
      let (l, made, ready) =
        load_built F parse_duration can_make valid_name valid_value draws mode load m fair v
          (subst (FitsLoad F parse_duration can_make valid_name valid_value mode) e fits.1) in
      (none, some l, rw (n, build_responses) refl, rw e made, inr (l, refl, refl, ready))

  abbrev pub IsReadyEntry : EndpointEntry F → Type 0
  IsReadyEntry entry = IsReadyBehavior entry.distribution entry.load_based

  endpoints_built :
      (draws : ℕ → BuildDraws) (i : ℕ) (mode : Bytes) (eps : List (EndpointConfig F))
      → IsMode mode
      → ((j : ℕ) → AreFairDraws (draws j))
      → All (IsValidEndpoint F parse_duration valid_name valid_value) eps
      → All (λ (ep : EndpointConfig F). FitsBehavior mode ep.responses ep.load_based) eps
      → (es : List (EndpointEntry F)) × (build_endpoints F parse_duration can_make draws i mode eps
          ≡ built es)
        × (length es ≡ length eps)
        × All IsReadyEntry es
  unfolding build_endpoints build_endpoint
  endpoints_built draws i mode [] m fair v fits = ([], refl, refl, tt)
  endpoints_built draws i mode (ep ∷ eps) m fair v fits =
      let (distribution, load, made_d, made_l, ready) =
        behavior_built (draws i) mode ep.responses ep.load_based m (fair i) v.0 fits.0 in
      let (es, rest, n, all) = endpoints_built draws (suc i) mode eps m fair v.1 fits.1 in
      let entry : EndpointEntry F = record {
        match_config = ep.match_config;
        distribution = distribution;
        load_based = load;
      } in
      let made : build_endpoint F parse_duration can_make (draws i) mode ep ≡ built entry =
        rw (made_d, build_endpoint, made_l) refl in
      (entry ∷ es, rw (made, build_endpoints, rest) refl, ap suc n, (ready, all))

  -- What a request relies on: the factory samples for itself, or it has an entry for each endpoint, each of
  -- which can be sampled.
  abbrev pub IsReadyFactory : FilterConfig F → Factory F → Type 0
  IsReadyFactory cfg factory =
      ((factory.direct ≡ true)
        × (IsReadyBehavior factory.distribution factory.load_based
            ⊎ ((cfg.responses ≡ []) × (cfg.load_based ≡ none))))
      ⊎ ((factory.direct ≡ false)
          × (length factory.endpoints ≡ length cfg.endpoints)
          × All IsReadyEntry factory.endpoints)

  -- The behavior of the configuration itself, which can be absent.
  own_built :
      (own : BuildDraws) (cfg : FilterConfig F)
      → IsMode (mode_of cfg.probability_distribution)
      → AreFairDraws own
      → IsValidBehavior F parse_duration valid_name valid_value cfg.responses cfg.load_based
        ⊎ ((cfg.responses ≡ []) × (cfg.load_based ≡ none))
      → FitsBehavior (mode_of cfg.probability_distribution) cfg.responses cfg.load_based
      → (distribution : Option (ResponseDistribution F)) × (load : Option (LoadBased F))
        × (build_responses F parse_duration can_make own
              (mode_of cfg.probability_distribution)
              cfg.responses
            ≡ built distribution)
        × (build_load F parse_duration can_make own
              (mode_of cfg.probability_distribution)
              cfg.load_based
            ≡ built load)
        × (IsReadyBehavior distribution load ⊎ ((cfg.responses ≡ []) × (cfg.load_based ≡ none)))
  unfolding build_responses build_load
  own_built own cfg m fair (inl v) fits =
      let (distribution, load, made_d, made_l, ready) =
        behavior_built own (mode_of cfg.probability_distribution) cfg.responses cfg.load_based m
          fair v fits in
      (distribution, load, made_d, made_l, inl ready)
  own_built own cfg m fair (inr (n, e)) fits =
      (none, none, rw (n, build_responses) refl, rw (e, build_load) refl, inr (n, e))

  -- From every accepted configuration a factory is built, if the draws of the shuffles are in range, the sum of
  -- the resolutions of each distribution is below 2 ^ 63, and, with stateful sampling, slices of as many values as
  -- the resolutions say can be made. Either it has a distribution of its own, or a load, and not both, unless
  -- nothing is configured; or it has an entry for each endpoint, which has one of them. Each distribution is
  -- valid, and its total weight is a positive int.
  pub build_filter_factory_total :
      (own : BuildDraws) (draws : ℕ → BuildDraws) (cfg : FilterConfig F) (source : ConfigSource)
      → AreFairDraws own
      → ((i : ℕ) → AreFairDraws (draws i))
      → config_faults F parse_duration valid_name valid_value cfg source ≡ []
      → FitsConfig cfg
      → (factory : Factory F) × (build_filter_factory F parse_duration can_make own draws cfg source
          ≡ built factory)
        × IsReadyFactory cfg factory
  unfolding build_filter_factory
  build_filter_factory_total own draws cfg source fair_own fair h fits =
      let (m, endpoints, top) =
        config_faults_sound F parse_duration valid_name valid_value cfg source h in
      elim (Bool-cases (is_per_route source || no_items cfg.endpoints)) [
        | inl e ↦
            let (distribution, load, made_d, made_l, ready) =
              own_built own cfg m fair_own (top_of top) fits.0 in
            (
              record {
                endpoints = [];
                distribution = distribution;
                load_based = load;
                direct = true;
              },
              rw (e, build_filter_factory, made_d, made_l) refl,
              inl (refl, ready),
            )
        | inr e ↦
            let (es, made, n, all) =
              endpoints_built draws 0 (mode_of cfg.probability_distribution) cfg.endpoints m fair
                endpoints fits.1 in
            (
              record { endpoints = es; distribution = none; load_based = none; direct = false },
              rw (e, build_filter_factory, made) refl,
              inr (refl, n, all),
            )
      ]
    where
      top_of :
          (IsValidBehavior F parse_duration valid_name valid_value cfg.responses cfg.load_based
            ⊎ ((source ≡ ConfigSource.filter_source)
                × (cfg.responses ≡ [])
                × (cfg.load_based ≡ none)))
          → IsValidBehavior F parse_duration valid_name valid_value cfg.responses cfg.load_based
            ⊎ ((cfg.responses ≡ []) × (cfg.load_based ≡ none))
      top_of (inl v) = inl v
      top_of (inr (s, n, e)) = inr (n, e)
