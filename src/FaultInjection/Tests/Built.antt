-- ===== src/FaultInjection/Tests/Built.antt =====
-- The factory that is built from a concrete configuration of fault injection, with an endpoint.
use built_on_envoy.Prelude.{
  ◌^◌, Bytes, text, bytes_eq, bytes_beq, ◌==◌, Bool, true, Option, none, some, [], ◌∷◌, ◌≡◌,
  if◌then◌else◌, refl, arith,
}
use built_on_envoy.Prelude.Int.{ℤ, pos}
use built_on_envoy.Prelude.Sort.{sort_slice, insert_sorted}
use built_on_envoy.FaultInjection.Percentiles.{
  parse_percentile_distribution, parse_entries, parse_entry, parse_percentile_key, check_range,
  check_duration, check_sorted, is_decreasing, decreases,
}
use built_on_envoy.FaultInjection.Config.{
  StatusDistribution, ConfigSource, fault_if, is_present, no_items, local_response_faults,
}
use built_on_envoy.FaultInjection.Validate.{
  FilterConfig, mode_of, is_per_route, config_faults, validate_behavior, statuses_faults,
  load_faults, validate_status_distribution, distribution_faults, endpoints_faults,
}
use built_on_envoy.FaultInjection.Filter.{Factory}
use built_on_envoy.FaultInjection.Build.{
  BuildDraws, build_filter_factory, built, new_response_distribution, build_entries, build_entry,
  new_entry, new_duration_distribution,
}
use built_on_envoy.FaultInjection.Response.{
  ResponseEntry, ResponseDistribution, DurationDistribution, Draws, is_positive, sample_response,
  total,
}
use built_on_envoy.FaultInjection.Ready.{AreFairDraws}
use built_on_envoy.FaultInjection.Factories.{IsReadyFactory, FitsConfig, build_filter_factory_total}
use built_on_envoy.FaultInjection.Tests.Samples.{hundredths, lowest, lowest-IsFair, plenty}

abbrev parse_duration : Bytes → Option ℤ
parse_duration s = if s == text "10ms" then some (pos 10_000_000) else none

abbrev any : Bytes → Bool
any s = true

abbrev with_endpoint : FilterConfig hundredths
with_endpoint = record {
  endpoints =
      record {
        match_config = record { prefix = text "/"; exact = []; headers = [] };
        responses =
            record {
              status = pos 503;
              resolution = pos 10;
              distribution = (text "p50", text "10ms") ∷ [];
              local_response = none;
            }
            ∷ [];
        load_based = none;
      }
      ∷ [];
  probability_distribution = [];
  diagnostic = true;
  responses = [];
  load_based = none;
}

endpoint_run :
    config_faults hundredths parse_duration any any with_endpoint ConfigSource.filter_source ≡ []
unfolding config_faults mode_of is_per_route validate_behavior statuses_faults load_faults
    validate_status_distribution distribution_faults endpoints_faults fault_if is_present no_items
    local_response_faults parse_percentile_distribution parse_entries parse_entry
    parse_percentile_key check_range check_duration check_sorted is_decreasing decreases sort_slice
    insert_sorted bytes_beq
endpoint_run = refl

abbrev draws : BuildDraws
draws = record { responses = λ i. lowest; healthy = λ i. lowest; tipping = λ i. lowest }

draws-AreFairDraws : AreFairDraws draws
draws-AreFairDraws = (λ i. lowest-IsFair, λ i. lowest-IsFair, λ i. lowest-IsFair)

with_endpoint-FitsConfig : FitsConfig hundredths parse_duration plenty any any with_endpoint
with_endpoint-FitsConfig =
    (((omega arith, λ k. tt), tt), (((omega arith, λ k. (refl, tt)), tt), tt))

build_filter_factory_total_example :
    (factory : Factory hundredths) × (build_filter_factory hundredths parse_duration plenty draws
        (λ i. draws)
        with_endpoint
        ConfigSource.filter_source
      ≡ built factory)
    × IsReadyFactory hundredths parse_duration plenty any any with_endpoint factory
build_filter_factory_total_example =
    build_filter_factory_total hundredths parse_duration plenty any any draws (λ i. draws)
      with_endpoint ConfigSource.filter_source draws-AreFairDraws (λ i. draws-AreFairDraws)
      endpoint_run with_endpoint-FitsConfig

-- Two statuses of 2 ^ 62 each are accepted, but their total wraps to the word of the least int.
abbrev huge : Bytes → StatusDistribution
huge latency = record {
  status = pos 503;
  resolution = pos 4_611_686_018_427_387_904;
  distribution = (text "p50", latency) ∷ [];
  local_response = none;
}

huge_accepted :
    statuses_faults hundredths parse_duration any any (huge (text "10ms") ∷ huge (text "10ms") ∷ [])
    ≡ []
unfolding validate_status_distribution distribution_faults statuses_faults fault_if no_items
    local_response_faults parse_percentile_distribution parse_entries parse_entry
    parse_percentile_key check_range check_duration check_sorted is_decreasing decreases sort_slice
    insert_sorted bytes_beq
huge_accepted = refl

abbrev huge_entry : ResponseEntry hundredths
huge_entry = record {
  status = 503;
  weight = 4_611_686_018_427_387_904;
  distribution =
      DurationDistribution.stateless (record { quantile = 50; duration = pos 10_000_000 } ∷ []);
  local_response = none;
}

abbrev wrapped : ResponseDistribution hundredths
wrapped = record { entries = huge_entry ∷ huge_entry ∷ []; total_weight = 2 ^ 63 }

huge_run :
    new_response_distribution hundredths parse_duration plenty
      (λ i. lowest)
      (huge (text "10ms") ∷ huge (text "10ms") ∷ [])
      (text "stateless")
    ≡ built wrapped
unfolding new_response_distribution build_entries build_entry new_entry new_duration_distribution
    total parse_percentile_distribution parse_entries parse_entry parse_percentile_key check_range
    check_duration check_sorted is_decreasing decreases sort_slice insert_sorted bytes_beq
huge_run = refl

-- Every sample of it panics.
huge_sample : (d : Draws hundredths) → sample_response hundredths d wrapped ≡ none
unfolding sample_response is_positive
huge_sample d = refl
