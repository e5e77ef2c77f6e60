-- ===== src/FaultInjection/Tests/Requests.antt =====
-- The theorems on the filter of fault injection at concrete inputs.
use mathlib.Core.List.{Memᴰ}
use built_on_envoy.Prelude.{
  ◌<◌, Bytes, bytes_eq, bytes_beq, text, ◌==◌, true, false, Option, none, some, [], ◌∷◌, ◌≡◌, ◌↔◌,
  refl, arith, get_elem?, set, if◌then◌else◌,
}
use built_on_envoy.Prelude.Int.{ℤ, pos, ◌+ℤ◌, ◌-ℤ◌}
use built_on_envoy.FaultInjection.Match.{MatchConfig, Matches, match_route, match_route_iff}
use built_on_envoy.FaultInjection.GreyZone.{
  GreyZoneState, with_spike, after_calls, calculate_grey_zone_penalty, base_penalty,
  after_calls_recovery,
}
use built_on_envoy.FaultInjection.Interpolate.{sample_with_value, sample_from, scale}
use built_on_envoy.FaultInjection.Response.{
  is_positive, sample_response, choose_entry, select, sample_entry, sample_duration,
}
use built_on_envoy.FaultInjection.Load.{LoadBased, Tier, sample_load}
use built_on_envoy.FaultInjection.Tiers.{
  BothValid, IsTier, MovesOn, Samples, used, sample_load_total,
}
use built_on_envoy.FaultInjection.Filter.{
  Filter, Factory, Chance, Counted, on_request_headers, sample_request, sample_factory,
  sample_either, enter_request, record_sample, start_request,
}
use built_on_envoy.FaultInjection.InFlight.{
  System, Step, Reach, new_filter, count_active, active_requests-count_active,
}
use built_on_envoy.FaultInjection.Respond.{Attributes, max_ℤ, local_response, on_response_headers}
use built_on_envoy.FaultInjection.Outcome.{
  status_of, delay_of, on_response_headers_outcome, local_response_content_type,
}
use built_on_envoy.FaultInjection.Tests.Samples.{
  hundredths, lowest-IsFair, draws, distribution, distribution-IsValid,
}

abbrev config : MatchConfig
config = record {
  prefix = text "/api";
  exact = [];
  headers = record { name = text "x-user"; exact_match = []; present_match = true } ∷ [];
}

abbrev headers : Bytes → Bytes
headers name = if name == text "x-user" then text "u" else text "/api?q"

match_route_iff_example :
    (match_route config (text "/api?q") headers ≡ true) ↔ Matches config (text "/api?q") headers
match_route_iff_example = match_route_iff config (text "/api?q") headers

abbrev grey : GreyZoneState hundredths
grey = record {
  penalty_base = pos 10;
  spike_penalty_duration = pos 100;
  spike_threshold = 80;
  spike_penalty_multiplier = 200;
  recovery_rate = 100;
  recovery_start = none;
  in_spike = true;
}

after_calls_recovery_example :
    (after_calls hundredths ((50, pos 7) ∷ (60, pos 20) ∷ []) (with_spike hundredths grey none true)
      ≡ with_spike hundredths grey (some (pos 7)) true)
    × (calculate_grey_zone_penalty hundredths
          (after_calls hundredths
            ((50, pos 7) ∷ (60, pos 20) ∷ [])
            (with_spike hundredths grey none true))
          50
          (pos 107)
        ≡ (base_penalty hundredths grey 50, with_spike hundredths grey none false))
unfolding ◌-ℤ◌
after_calls_recovery_example =
    after_calls_recovery hundredths grey 50 50 (pos 7) (pos 107) ((60, pos 20) ∷ []) (refl, refl)
      ((refl, refl), tt) refl refl

abbrev load_based : LoadBased hundredths
load_based = record {
  healthy = distribution;
  tipping_point = distribution;
  healthy_threshold = 100;
  tipping_threshold = 300;
  grey_zone = some grey;
}

load_based-BothValid : BothValid hundredths load_based
load_based-BothValid = record {
  healthy_valid = distribution-IsValid;
  tipping_valid = distribution-IsValid;
}

draw_in_range :
    (t : Tier hundredths)
    → IsTier hundredths load_based 200 20 t
    → draws.weight < (used hundredths t load_based).total_weight
draw_in_range Tier.healthy_tier h = omega arith
draw_in_range Tier.tipping_tier h = omega arith
draw_in_range Tier.grey_healthy h = omega arith
draw_in_range Tier.grey_tipping h = omega arith

sample_load_total_example :
    (t : Tier hundredths) × (penalty : ℤ) × (gz : Option (GreyZoneState hundredths)) × IsTier
      hundredths load_based 200 20 t
    × MovesOn hundredths load_based 200 (pos 5) load_based.grey_zone penalty gz
    × Samples hundredths t draws penalty gz load_based
        (sample_load hundredths draws 20 (pos 5) load_based 200)
sample_load_total_example =
    sample_load_total hundredths draws 20 (pos 5) load_based 200 load_based-BothValid draw_in_range
      lowest-IsFair

-- A filter whose request was sampled with 503 for 40 and began at 10.
abbrev sampled : Filter
sampled = record {
  sample = record { status = 503; duration = pos 40; local_response = none };
  matched = true;
  counted = true;
  request_entry_in_flight = pos 0;
  request_start = pos 10;
}

abbrev digits : ℤ → Bytes
digits n = text "1"

abbrev parse_status : Bytes → Option ℤ
parse_status s = if s == text "200" then some (pos 200) else none

on_response_headers_outcome_example :
    (status_of
        (pos 200)
        (on_response_headers digits digits parse_status [] sampled (pos 25) (text "200"))
      ≡ pos 503)
    × ((pos 25 -ℤ pos 10)
          +ℤ delay_of
              (on_response_headers digits digits parse_status [] sampled (pos 25) (text "200"))
        ≡ max_ℤ (pos 40) (pos 25 -ℤ pos 10))
unfolding bytes_beq
on_response_headers_outcome_example =
    on_response_headers_outcome digits digits parse_status [] sampled (pos 25) (pos 200)
      (text "200") refl refl

abbrev attrs : Attributes
attrs = record {
  requests_in_flight = pos 0;
  added_delay = [];
  actual_upstream = text "15ns";
  injected_delay = text "40ns";
  injected = text "abort";
  status = text "503";
  upstream_status = text "200";
  worker_index = [];
}

local_response_content_type_example :
    (value : Bytes) × Memᴰ
      (text "content-type", value)
      (local_response digits digits parse_status sampled.sample attrs).headers
local_response_content_type_example =
    local_response_content_type digits digits parse_status sampled.sample attrs

abbrev direct : Factory hundredths
direct = record {
  endpoints = [];
  distribution = some distribution;
  load_based = none;
  direct = true;
}

abbrev one_stream : System hundredths
one_stream = record {
  active_requests = pos 0;
  factories = direct ∷ [];
  streams = record { factory = 0; filter = new_filter hundredths } ∷ [];
}

abbrev chance : Chance hundredths
chance = record { draws = draws; tier_draw = 20; now = pos 10 }

-- The stream with a request that is sampled, or as it was if that fails.
abbrev requested : Counted × Factory hundredths
requested =
    elim (on_request_headers hundredths chance headers (pos 0) direct (new_filter hundredths)) [
      | none ↦ (record { active_requests = pos 0; filter = new_filter hundredths }, direct)
      | some after ↦ after
    ]

abbrev in_flight : System hundredths
in_flight = record {
  active_requests = requested.0.active_requests;
  factories = set (direct ∷ []) 0 requested.1;
  streams = set one_stream.streams 0 (record { factory = 0; filter = requested.0.filter });
}

-- The request is counted.
in_flight_run : in_flight.active_requests ≡ pos 1
unfolding get_elem? set on_request_headers sample_request sample_factory sample_either
    sample_response is_positive choose_entry select sample_entry sample_duration enter_request
    record_sample start_request sample_with_value sample_from scale ◌+ℤ◌ ◌-ℤ◌
in_flight_run = refl

in_flight-Reach : Reach hundredths (direct ∷ []) in_flight
unfolding get_elem? set on_request_headers sample_request sample_factory sample_either
    sample_response is_positive choose_entry select sample_entry sample_duration enter_request
    record_sample start_request sample_with_value sample_from scale ◌+ℤ◌ ◌-ℤ◌
in_flight-Reach = Reach.then_step (Reach.then_step Reach.begin (Step.create 0)) (
    Step.request 0 (record { factory = 0; filter = new_filter hundredths }) direct requested.1
      chance headers requested.0 refl refl refl)

active_requests-count_active_example :
    in_flight.active_requests ≡ pos (count_active hundredths in_flight.streams)
active_requests-count_active_example =
    active_requests-count_active hundredths (direct ∷ []) in_flight in_flight-Reach
