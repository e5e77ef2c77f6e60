-- ===== src/FaultInjection/Filter.antt =====
-- The request side of dynamic-fault-injection/plugin.go: `OnRequestHeaders`, `OnStreamComplete`, `OnDestroy`
-- and the global count of active requests. A panic in a sample is `none`. A handler is taken as one step:
-- what another worker does between its reading of the count and its own increment is not modelled.
use built_on_envoy.Prelude.{
  Option, none, some, Bool, true, false, Bytes, bytes_eq, text, List, [], ◌∷◌, if◌then◌else◌,
}
use built_on_envoy.Prelude.Int.{ℤ, pos, ◌+ℤ◌, ◌-ℤ◌}
use built_on_envoy.FaultInjection.Floats.{Floats}
use built_on_envoy.FaultInjection.Match.{MatchConfig, match_route}
use built_on_envoy.FaultInjection.Response.{
  ResponseDistribution, ResponseSample, Draws, sample_response,
}
use built_on_envoy.FaultInjection.Load.{LoadBased, sample_load}

-- latencyFaultFilter, without its handle and factory
pub record Filter : Type 0 where
  pub sample : ResponseSample
  pub matched : Bool
  pub counted : Bool
  pub request_entry_in_flight : ℤ
  pub request_start : ℤ

-- activeRequests and the filter that changes it.
pub record Counted : Type 0 where
  pub active_requests : ℤ
  pub filter : Filter

abbrev with_counted : Filter → Bool → Filter
with_counted f counted = record {
  sample = f.sample;
  matched = f.matched;
  counted = counted;
  request_entry_in_flight = f.request_entry_in_flight;
  request_start = f.request_start;
}

unfoldable pub start_request : ℤ → Filter → Counted
start_request active f =
    if f.counted
    then record { active_requests = active; filter = f }
    else record { active_requests = active +ℤ pos 1; filter = with_counted f true }

-- releaseRequest: OnStreamComplete and OnDestroy
unfoldable pub release_request : ℤ → Filter → Counted
release_request active f =
    if f.counted
    then record { active_requests = active -ℤ pos 1; filter = with_counted f false }
    else record { active_requests = active; filter = f }

-- f.sample and f.matched, which a request that is not sampled leaves alone
unfoldable pub record_sample : Option ResponseSample → Filter → Filter
record_sample none f = f
record_sample (some s) f = record {
  sample = s;
  matched = true;
  counted = f.counted;
  request_entry_in_flight = f.request_entry_in_flight;
  request_start = f.request_start;
}

-- The end of OnRequestHeaders.
unfoldable pub enter_request : ℤ → ℤ → Filter → Counted
enter_request active now f =
    if f.matched
    then start_request active (record {
      sample = f.sample;
      matched = f.matched;
      counted = f.counted;
      request_entry_in_flight = active;
      request_start = now;
    })
    else record { active_requests = active; filter = f }

module _ (F : Floats) where
  pub record EndpointEntry : Type 0 where
    pub match_config : MatchConfig
    pub distribution : Option (ResponseDistribution F)
    pub load_based : Option (LoadBased F)

  -- latencyFaultFilterFactory, without its parsed configuration
  pub record Factory : Type 0 where
    pub endpoints : List EndpointEntry
    pub distribution : Option (ResponseDistribution F)
    pub load_based : Option (LoadBased F)
    pub direct : Bool

  -- The randomness of a request and its time.
  pub record Chance : Type 0 where
    pub draws : Draws F
    pub tier_draw : F.Float
    pub now : ℤ

  -- A sample from the first of the two distributions that is there, and both after it.
  pub record Sampled : Type 0 where
    pub sample : Option ResponseSample
    pub distribution : Option (ResponseDistribution F)
    pub load_based : Option (LoadBased F)

  unfoldable pub sample_either :
      Chance → ℤ → Option (ResponseDistribution F) → Option (LoadBased F) → Option Sampled
  sample_either chance load (some rd) lb = elim (sample_response F chance.draws rd) [
    | none ↦ none
    | some (s, after) ↦
        some (record { sample = some s; distribution = some after; load_based = lb })
  ]
  sample_either chance load none (some lb) =
      elim (sample_load F chance.draws chance.tier_draw chance.now lb (F.of_int load)) [
        | none ↦ none
        | some (s, after) ↦
            some (record { sample = some s; distribution = none; load_based = some after })
      ]
  sample_either chance load none none =
      some (record { sample = none; distribution = none; load_based = none })

  -- latencyFaultFilterFactory.sample
  unfoldable pub sample_factory : Chance → ℤ → Factory → Option (Option ResponseSample × Factory)
  sample_factory chance load f =
      if f.direct
      then elim (sample_either chance load f.distribution f.load_based) [
        | none ↦ none
        | some s ↦ some (
          s.sample,
          record {
            endpoints = f.endpoints;
            distribution = s.distribution;
            load_based = s.load_based;
            direct = true;
          },
        )
      ]
      else some (none, f)

  unfoldable pub sample_endpoint :
      Chance → ℤ → EndpointEntry → Option (Option ResponseSample × EndpointEntry)
  sample_endpoint chance load ep = elim (sample_either chance load ep.distribution ep.load_based) [
    | none ↦ none
    | some s ↦ some (
      s.sample,
      record {
        match_config = ep.match_config;
        distribution = s.distribution;
        load_based = s.load_based;
      },
    )
  ]

  -- The first endpoint that matches is sampled, and no other.
  unfoldable pub sample_endpoints :
      Chance
      → ℤ
      → (Bytes → Bytes)
      → List EndpointEntry
      → Option (Option ResponseSample × List EndpointEntry)
  sample_endpoints chance load headers [] = some (none, [])
  sample_endpoints chance load headers (ep ∷ eps) =
      let rest = sample_endpoints chance load headers eps in
      if match_route ep.match_config (headers (text ":path")) headers
      then elim (sample_endpoint chance load ep) [
        | none ↦ none
        | some (s, after) ↦ some (s, after ∷ eps)
      ]
      else elim rest [ none ↦ none | some (s, after) ↦ some (s, ep ∷ after) ]

  -- What the request is to get, if anything, and the factory after it.
  unfoldable pub sample_request :
      Chance → ℤ → (Bytes → Bytes) → Factory → Option (Option ResponseSample × Factory)
  sample_request chance load headers f = elim (sample_factory chance load f) [
    | none ↦ none
    | some (some s, after) ↦ some (some s, after)
    | some (none, after) ↦ elim (sample_endpoints chance load headers after.endpoints) [
      | none ↦ none
      | some (s, endpoints) ↦ some (
        s,
        record {
          endpoints = endpoints;
          distribution = after.distribution;
          load_based = after.load_based;
          direct = after.direct;
        },
      )
    ]
  ]

  -- OnRequestHeaders; it always lets the request go on.
  unfoldable pub on_request_headers :
      Chance → (Bytes → Bytes) → ℤ → Factory → Filter → Option (Counted × Factory)
  on_request_headers chance headers active factory f =
      elim (sample_request chance active headers factory) [
        | none ↦ none
        | some (s, after) ↦ some (enter_request active chance.now (record_sample s f), after)
      ]
