-- ===== src/LlmProxy/Config.antt =====
-- The configuration of llm-proxy/plugin.go and its `matchRule`, with `StringMatcher` of pkg/config.go. Compiling
-- a regular expression is a parameter, which yields the test that it stands for.
use built_on_envoy.Prelude.{
  ℕ, ◌+◌, Bytes, bytes_eq, nat_eq, text, ◌==◌, Bool, false, not, ◌&&◌, ◌||◌, List, [], ◌∷◌, Option,
  none, some, ◌⊎◌, inl, inr, if◌then◌else◌, has_prefix,
}

pub record StringMatcher : Type 0 where
  pub prefix : Bytes
  pub suffix : Bytes
  pub regex : Bytes
  pub re : Option (Bytes → Bool)

-- The factories of the kinds of API.
pub data LlmFactory : Type 0 where
  openai_factory anthropic_factory custom_factory : LlmFactory

pub record LlmConfig : Type 0 where
  pub matcher : StringMatcher
  pub kind : Bytes
  pub factory : Option LlmFactory

pub record LlmProxyConfig : Type 0 where
  pub llm_configs : List LlmConfig
  pub metadata_namespace : Bytes
  pub llm_model_header : Bytes
  pub clear_route_cache : Bool

pub data ConfigError : Type 0 where
  multiple_openai : ConfigError
  multiple_anthropic : ConfigError
  unsupported_kind : Bytes → ConfigError
  invalid_regex : Bytes → ConfigError
  not_one_set : ℕ → ConfigError

-- strings.HasSuffix
unfoldable pub has_suffix : Bytes → Bytes → Bool
has_suffix [] suffix = [] == suffix
has_suffix (c ∷ s) suffix = ((c ∷ s) == suffix) || has_suffix s suffix

-- Matches
unfoldable pub matches : StringMatcher → Bytes → Bool
matches m path =
    if not (m.prefix == [])
    then has_prefix path m.prefix
    else if not (m.suffix == [])
    then has_suffix path m.suffix
    else elim m.re [ none ↦ false | some test ↦ test path ]

-- matchRule: the first rule that matches
unfoldable pub match_rule : Bytes → List LlmConfig → Option LlmConfig
match_rule path [] = none
match_rule path (r ∷ rs) =
    let rest = match_rule path rs in if matches r.matcher path then some r else rest

abbrev pub one_if : Bool → ℕ
one_if b = if b then 1 else 0

unfoldable pub count_set : StringMatcher → ℕ
count_set m =
    one_if (not (m.prefix == [])) + (one_if (not (m.suffix == [])) + one_if (not (m.regex == [])))

abbrev pub check_count : StringMatcher → ConfigError ⊎ StringMatcher
check_count m = if count_set m == 1 then inr m else inl (not_one_set (count_set m))

abbrev pub with_test : StringMatcher → (Bytes → Bool) → StringMatcher
with_test m test = record { prefix = m.prefix; suffix = m.suffix; regex = m.regex; re = some test }

-- StringMatcher.ValidateAndParse: the error, or the matcher with its expression compiled
unfoldable pub validate_matcher :
    (Bytes → Option (Bytes → Bool)) → StringMatcher → ConfigError ⊎ StringMatcher
validate_matcher compile m = if m.regex == [] then check_count m else elim (compile m.regex) [
  | none ↦ inl (invalid_regex m.regex)
  | some test ↦ check_count (with_test m test)
]

unfoldable pub factory_of : Bytes → Option LlmFactory
factory_of kind =
    if kind == text "openai"
    then some openai_factory
    else if kind == text "anthropic"
    then some anthropic_factory
    else if kind == text "custom"
    then some custom_factory
    else none

abbrev pub with_matcher :
    LlmConfig → Option LlmFactory → ConfigError ⊎ StringMatcher → ConfigError ⊎ LlmConfig
with_matcher r factory (inl e) = inl e
with_matcher r factory (inr m) = inr (record { matcher = m; kind = r.kind; factory = factory })

-- llmConfig.ValidateAndParse
unfoldable pub validate_rule : (Bytes → Option (Bytes → Bool)) → LlmConfig → ConfigError ⊎ LlmConfig
validate_rule compile r = elim (factory_of r.kind) [
  | none ↦ inl (unsupported_kind r.kind)
  | some f ↦ with_matcher r (some f) (validate_matcher compile r.matcher)
]

abbrev pub cons_rule :
    ConfigError ⊎ LlmConfig → ConfigError ⊎ List LlmConfig → ConfigError ⊎ List LlmConfig
cons_rule (inl e) rs = inl e
cons_rule (inr r) (inl e) = inl e
cons_rule (inr r) (inr rs) = inr (r ∷ rs)

unfoldable pub validate_rules :
    (Bytes → Option (Bytes → Bool)) → List LlmConfig → ConfigError ⊎ List LlmConfig
validate_rules compile [] = inr []
validate_rules compile (r ∷ rs) =
    let rest = validate_rules compile rs in cons_rule (validate_rule compile r) rest

-- hasOpenAI and hasAnthropic, unless one of the kinds comes twice
unfoldable pub check_kinds : Bool → Bool → List LlmConfig → ConfigError ⊎ (Bool × Bool)
check_kinds has_openai has_anthropic [] = inr (has_openai, has_anthropic)
check_kinds has_openai has_anthropic (r ∷ rs) =
    let rest =
      check_kinds (has_openai || (r.kind == text "openai"))
        (has_anthropic || (r.kind == text "anthropic")) rs in
    if (r.kind == text "openai") && has_openai
    then inl multiple_openai
    else if (r.kind == text "anthropic") && has_anthropic
    then inl multiple_anthropic
    else rest

abbrev pub default_rule : Bytes → Bytes → LlmConfig
default_rule suffix kind = record {
  matcher = record { prefix = []; suffix = suffix; regex = []; re = none };
  kind = kind;
  factory = none;
}

-- The default rules stand before those that are configured.
unfoldable pub add_defaults : Bool → Bool → List LlmConfig → List LlmConfig
add_defaults has_openai has_anthropic rs =
    let with_openai =
      if has_openai then rs else default_rule (text "/v1/chat/completions") (text "openai") ∷ rs in
    if has_anthropic
    then with_openai
    else default_rule (text "/v1/messages") (text "anthropic") ∷ with_openai

unfoldable pub namespace_of : Bytes → Bytes
namespace_of namespace = if namespace == [] then text "io.builtonenvoy.llm-proxy" else namespace

abbrev pub assemble : LlmProxyConfig → List LlmConfig → LlmProxyConfig
assemble c rs = record {
  llm_configs = rs;
  metadata_namespace = namespace_of c.metadata_namespace;
  llm_model_header = c.llm_model_header;
  clear_route_cache = c.clear_route_cache;
}

abbrev pub with_rules : LlmProxyConfig → ConfigError ⊎ List LlmConfig → ConfigError ⊎ LlmProxyConfig
with_rules c (inl e) = inl e
with_rules c (inr rs) = inr (assemble c rs)

-- llmProxyConfig.ValidateAndParse
unfoldable pub validate_and_parse :
    (Bytes → Option (Bytes → Bool)) → LlmProxyConfig → ConfigError ⊎ LlmProxyConfig
validate_and_parse compile c = elim (check_kinds false false c.llm_configs) [
  | inl e ↦ inl e
  | inr kinds ↦ with_rules c (validate_rules compile (add_defaults kinds.0 kinds.1 c.llm_configs))
]
