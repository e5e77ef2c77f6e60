-- ===== src/LlmProxy/Tests.antt =====
-- The theorem on llm-proxy at a concrete configuration.
use built_on_envoy.Prelude.{
  Bytes, bytes_eq, bytes_beq, text, Bool, true, Option, none, some, [], ◌∷◌, ◌≡◌, ◌≢◌, ◌⊎◌, inr,
  refl, All,
}
use built_on_envoy.LlmProxy.Config.{
  LlmConfig, LlmProxyConfig, LlmFactory, anthropic_factory, openai_factory, ConfigError, count_set,
  validate_matcher, factory_of, validate_rule, validate_rules, check_kinds, add_defaults,
  namespace_of, validate_and_parse,
}
use built_on_envoy.LlmProxy.Accepted.{count_kind, IsValidRule, validate_and_parse_sound}

abbrev rule : Option LlmFactory → LlmConfig
rule factory = record {
  matcher = record { prefix = text "/chat"; suffix = []; regex = []; re = none };
  kind = text "openai";
  factory = factory;
}

abbrev config : LlmProxyConfig
config = record {
  llm_configs = rule none ∷ [];
  metadata_namespace = [];
  llm_model_header = [];
  clear_route_cache = true;
}

-- With the default rule for messages in front.
abbrev parsed : LlmProxyConfig
parsed = record {
  llm_configs =
      record {
        matcher = record { prefix = []; suffix = text "/v1/messages"; regex = []; re = none };
        kind = text "anthropic";
        factory = some anthropic_factory;
      }
      ∷ rule (some openai_factory)
      ∷ [];
  metadata_namespace = text "io.builtonenvoy.llm-proxy";
  llm_model_header = [];
  clear_route_cache = true;
}

abbrev compile : Bytes → Option (Bytes → Bool)
compile s = none

run : Path (ConfigError ⊎ LlmProxyConfig) (validate_and_parse compile config) (inr parsed)
unfolding validate_and_parse check_kinds add_defaults validate_rules validate_rule factory_of
    validate_matcher count_set namespace_of bytes_beq
run = refl

validate_and_parse_sound_example :
    (count_kind (text "openai") parsed.llm_configs ≡ 1)
    × (count_kind (text "anthropic") parsed.llm_configs ≡ 1)
    × All (IsValidRule compile) parsed.llm_configs
    × (parsed.metadata_namespace ≢ [])
validate_and_parse_sound_example = validate_and_parse_sound compile config parsed run
