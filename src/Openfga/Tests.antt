-- ===== src/Openfga/Tests.antt =====
-- The theorems on openfga at a concrete configuration.
use built_on_envoy.Prelude.{
  Bytes, bytes_eq, bytes_beq, text, ◌==◌, Bool, true, false, Option, none, some, List, [], ◌∷◌, ◌≡◌,
  refl, if◌then◌else◌,
}
use built_on_envoy.Prelude.Int.{pos, negsuc}
use built_on_envoy.Openfga.Source.{
  ValueSource, count_set, is_none, is_empty_source, validate_value_source,
}
use built_on_envoy.Openfga.Rules.{
  CheckRule, sources_errors, rule_errors, is_catch_all, parse_rule, build_rules_from, build_rules,
  build_tuples_from, build_contextual_tuples, build_context_from, build_context,
}
use built_on_envoy.Openfga.Config.{
  OpenfgaConfig, ParsedConfig, parsed, metadata_errors, is_valid_key, is_valid_status,
  is_valid_consistency, deny_status_of, field_errors, assemble, combine, check_config, parse_config,
}
use built_on_envoy.Openfga.Handler.{Metrics, CheckRequest, on_request_headers, on_http_callout_done}
use built_on_envoy.Openfga.Trace.{observe}
use built_on_envoy.Openfga.Decide.{
  Verdict, IsVerdict, decide, resolved_as, on_http_callout_done-decides,
}
use built_on_envoy.Openfga.Request.{Ends, on_request_headers-Ends}
use built_on_envoy.Openfga.Accepted.{IsAccepted, parse_config-IsAccepted}

abbrev from_header : Bytes → ValueSource
from_header name = record {
  value = [];
  header = name;
  path_segment = none;
  query_param = [];
  prefix = text "user:";
  resolved = [];
}

abbrev fixed : Bytes → ValueSource
fixed value = record {
  value = value;
  header = [];
  path_segment = none;
  query_param = [];
  prefix = [];
  resolved = [];
}

abbrev last_segment : ValueSource
last_segment = record {
  value = [];
  header = [];
  path_segment = some (negsuc 0);
  query_param = [];
  prefix = text "doc:";
  resolved = [];
}

abbrev rules : List CheckRule
rules =
    record {
      match_headers = some ((text ":method", text "GET") ∷ []);
      user = none;
      relation = fixed (text "reader");
      object = last_segment;
    }
    ∷ record {
      match_headers = none;
      user = none;
      relation = fixed (text "writer");
      object = last_segment;
    }
    ∷ []

abbrev config : OpenfgaConfig
config = record {
  cluster = text "fga";
  openfga_host = text "fga.io";
  store_id = text "s";
  authorization_model_id = [];
  user = from_header (text "x-user");
  relation = fixed [];
  object = fixed [];
  rules = rules;
  fail_open = true;
  dry_run = false;
  timeout_ms = 0;
  deny_status = pos 0;
  deny_body = [];
  consistency = [];
  metadata = some record { namespace = text "n"; key = text "k" };
  callout_headers = [];
  contextual_tuples = [];
  context = [];
}

abbrev built : ParsedConfig
built =
    assemble config
      (parse_rule (from_header (text "x-user")) (record {
        match_headers = some ((text ":method", text "GET") ∷ []);
        user = none;
        relation = fixed (text "reader");
        object = last_segment;
      })
        ∷ parse_rule (from_header (text "x-user")) (record {
          match_headers = none;
          user = none;
          relation = fixed (text "writer");
          object = last_segment;
        })
        ∷ [])
      [] []

abbrev unmarshal_config : Bytes → Option OpenfgaConfig
unmarshal_config s = some config

parse_run : parse_config unmarshal_config (text "x") ≡ parsed built
unfolding parse_config check_config combine field_errors metadata_errors is_valid_key
    is_valid_status is_valid_consistency deny_status_of build_rules is_empty_source build_rules_from
    rule_errors sources_errors is_catch_all validate_value_source count_set is_none
    build_contextual_tuples build_tuples_from build_context build_context_from bytes_beq
parse_run = refl

parse_config-IsAccepted_example : IsAccepted built
parse_config-IsAccepted_example =
    parse_config-IsAccepted unmarshal_config (text "x") built parse_run

abbrev metrics : Metrics
metrics = record { enabled = true; has_check_duration = true }

abbrev unmarshal : Bytes → Option Bool
unmarshal s = if s == text "yes" then some true else if s == text "no" then some false else none

on_http_callout_done-decides_example :
    (v : Verdict) × IsVerdict unmarshal true
      ((text ":status", text "200") ∷ [])
      (text "n" ∷ text "o" ∷ [])
      v
    × (observe (
          on_http_callout_done metrics built unmarshal 7 true
            ((text ":status", text "200") ∷ [])
            (text "n" ∷ text "o" ∷ []))
        ≡ resolved_as metrics built (decide built.dry_run built.fail_open v))
on_http_callout_done-decides_example =
    on_http_callout_done-decides metrics built unmarshal 7 true ((text ":status", text "200") ∷ [])
      (text "n" ∷ text "o" ∷ [])

abbrev marshal : CheckRequest → Option Bytes
marshal request = some request.tuple.user

abbrev request : Bytes → Bytes
request h =
    if h == text "x-user"
    then text "ann"
    else if h == text ":path"
    then text "/docs/7"
    else text "PUT"

on_request_headers-Ends_example :
    Ends metrics built marshal true request (on_request_headers metrics built marshal true request)
on_request_headers-Ends_example = on_request_headers-Ends metrics built marshal true request
