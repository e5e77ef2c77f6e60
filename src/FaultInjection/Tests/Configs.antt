-- ===== src/FaultInjection/Tests/Configs.antt =====
-- The theorems on the configuration of fault injection at concrete inputs.
use mathlib.Core.List.{Permᴰ}
use built_on_envoy.Prelude.{
  Bytes, text, bytes_eq, bytes_beq, ◌==◌, Bool, true, Option, none, some, List, [], ◌∷◌, ◌≡◌, ◌≢◌,
  ◌⊎◌, refl, if◌then◌else◌, All,
}
use built_on_envoy.Prelude.Int.{ℤ, pos}
use built_on_envoy.Prelude.Sort.{sort_slice, insert_sorted}
use built_on_envoy.FaultInjection.Floats.{Percentile}
use built_on_envoy.FaultInjection.Percentiles.{
  Result, parse_percentile_distribution, parse_entries, parse_entry, parse_percentile_key,
  check_range, check_duration, check_sorted, is_decreasing, decreases, IsAscending, AreParsed,
  parse_percentile_distribution_sound,
}
use built_on_envoy.FaultInjection.Config.{
  ConfigSource, fault_if, is_present, no_items, local_response_faults,
}
use built_on_envoy.FaultInjection.Validate.{
  FilterConfig, mode_of, is_per_route, config_faults, validate_behavior, statuses_faults,
  load_faults, validate_status_distribution, distribution_faults, endpoints_faults,
}
use built_on_envoy.FaultInjection.Accepted.{IsValidBehavior, IsValidEndpoint, config_faults_sound}
use built_on_envoy.FaultInjection.Tests.Samples.{hundredths}

abbrev parse_duration : Bytes → Option ℤ
parse_duration s = if s == text "10ms" then some (pos 10_000_000) else none

abbrev entry : List (Bytes × Bytes)
entry = (text "p50", text "10ms") ∷ []

abbrev parsed : List (Percentile hundredths)
parsed = record { quantile = 50; duration = pos 10_000_000 } ∷ []

parse_run : parse_percentile_distribution hundredths parse_duration entry ≡ Result.ok parsed
unfolding parse_percentile_distribution parse_entries parse_entry parse_percentile_key check_range
    check_duration check_sorted is_decreasing decreases sort_slice insert_sorted bytes_beq
parse_run = refl

parse_percentile_distribution_sound_example :
    (entry ≢ [])
    × IsAscending hundredths parse_duration (pos 0) parsed
    × ((qs : List (Percentile hundredths)) × AreParsed hundredths parse_duration entry qs
        × Permᴰ parsed qs)
parse_percentile_distribution_sound_example =
    parse_percentile_distribution_sound hundredths parse_duration entry parsed parse_run

abbrev any : Bytes → Bool
any s = true

abbrev config : FilterConfig hundredths
config = record {
  endpoints = [];
  probability_distribution = [];
  diagnostic = true;
  responses =
      record { status = pos 503; resolution = pos 10; distribution = entry; local_response = none }
      ∷ [];
  load_based = none;
}

config_run :
    config_faults hundredths parse_duration any any config ConfigSource.per_route_source ≡ []
unfolding config_faults mode_of is_per_route validate_behavior statuses_faults load_faults
    validate_status_distribution distribution_faults endpoints_faults fault_if is_present no_items
    local_response_faults parse_percentile_distribution parse_entries parse_entry
    parse_percentile_key check_range check_duration check_sorted is_decreasing decreases sort_slice
    insert_sorted bytes_beq
config_run = refl

config_faults_sound_example :
    ((mode_of config.probability_distribution ≡ text "stateful")
      ⊎ (mode_of config.probability_distribution ≡ text "stateless"))
    × All (IsValidEndpoint hundredths parse_duration any any) config.endpoints
    × (IsValidBehavior hundredths parse_duration any any config.responses config.load_based
        ⊎ ((ConfigSource.per_route_source ≡ ConfigSource.filter_source)
            × (config.responses ≡ [])
            × (config.load_based ≡ none)))
config_faults_sound_example =
    config_faults_sound hundredths parse_duration any any config ConfigSource.per_route_source
      config_run
