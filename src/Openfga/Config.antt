-- ===== src/Openfga/Config.antt =====
-- `parseConfig` of openfga/config.go, with `MetadataKey` and `LocalResponse` of pkg/config.go. Decoding of JSON
-- is a parameter; the configured headers are a list, in the order in which Go happens to walk the map.
use built_on_envoy.Prelude.{
  ℕ, Bytes, bytes_eq, nat_eq, text, ◌==◌, Bool, false, not, ◌||◌, List, [], ◌∷◌, ◌++◌, Option, none,
  some, ◌⊎◌, inl, inr, if◌then◌else◌,
}
use built_on_envoy.Prelude.Int.{ℤ, pos, ltb_ℤ, eqb_ℤ}
use built_on_envoy.Openfga.Source.{ValueSource}
use built_on_envoy.Openfga.Rules.{
  CheckRule, ParsedRule, TupleSources, ConfigError, missing_cluster, missing_host, missing_store_id,
  bad_consistency, bad_deny_status, bad_metadata, build_rules, build_contextual_tuples,
  build_context,
}

pub record MetadataKey : Type 0 where
  pub namespace : Bytes
  pub key : Bytes

-- pkg.LocalResponse
pub record LocalResponse : Type 0 where
  pub status : ℤ
  pub body : Bytes
  pub headers : List (Bytes × Bytes)

pub record OpenfgaConfig : Type 0 where
  pub cluster : Bytes
  pub openfga_host : Bytes
  pub store_id : Bytes
  pub authorization_model_id : Bytes
  pub user : ValueSource
  pub relation : ValueSource
  pub object : ValueSource
  pub rules : List CheckRule
  pub fail_open : Bool
  pub dry_run : Bool
  pub timeout_ms : ℕ
  pub deny_status : ℤ
  pub deny_body : Bytes
  pub consistency : Bytes
  pub metadata : Option MetadataKey
  pub callout_headers : List (Bytes × Bytes)
  pub contextual_tuples : List TupleSources
  pub context : List (Bytes × ValueSource)

pub record ParsedConfig : Type 0 where
  pub cluster : Bytes
  pub store_id : Bytes
  pub authorization_model_id : Bytes
  pub fail_open : Bool
  pub dry_run : Bool
  pub timeout_ms : ℕ
  pub deny : LocalResponse
  pub deny_headers : List (Bytes × Bytes)
  pub deny_body_bytes : Bytes
  pub check_path : Bytes
  pub callout_headers : List (Bytes × Bytes)
  pub rules : List ParsedRule
  pub metadata : Option MetadataKey
  pub consistency : Bytes
  pub contextual_tuples : List TupleSources
  pub context : List (Bytes × ValueSource)

pub data ParseResult : Type 0 where
  no_config : ParseResult
  malformed : ParseResult
  invalid : List ConfigError → ParseResult
  parsed : ParsedConfig → ParseResult

abbrev pub error_if : Bool → ConfigError → List ConfigError
error_if b e = if b then e ∷ [] else []

abbrev pub errors_of {ℓ} : {A : Type ℓ} → List ConfigError ⊎ A → List ConfigError
errors_of (inl errs) = errs
errors_of (inr x) = []

-- MetadataKey.Validate
unfoldable pub is_valid_key : MetadataKey → Bool
is_valid_key k = not ((k.namespace == []) || (k.key == []))

unfoldable pub metadata_errors : Option MetadataKey → List ConfigError
metadata_errors none = []
metadata_errors (some k) = error_if (not (is_valid_key k)) bad_metadata

-- LocalResponse.Validate
unfoldable pub is_valid_status : ℤ → Bool
is_valid_status status = not (ltb_ℤ status (pos 100) || ltb_ℤ (pos 599) status)

-- validateConsistency
unfoldable pub is_valid_consistency : Bytes → Bool
is_valid_consistency s =
    (s == [])
    || ((s == text "UNSPECIFIED")
        || ((s == text "MINIMIZE_LATENCY") || (s == text "HIGHER_CONSISTENCY")))

unfoldable pub deny_status_of : OpenfgaConfig → ℤ
deny_status_of c = if eqb_ℤ c.deny_status (pos 0) then pos 403 else c.deny_status

unfoldable pub deny_body_of : OpenfgaConfig → Bytes
deny_body_of c = if c.deny_body == [] then text "Forbidden" else c.deny_body

unfoldable pub timeout_of : OpenfgaConfig → ℕ
timeout_of c = if c.timeout_ms == 0 then 5_000 else c.timeout_ms

unfoldable pub has_content_type : List (Bytes × Bytes) → Bool
has_content_type [] = false
has_content_type ((name, value) ∷ headers) =
    (name == text "content-type") || has_content_type headers

-- buildDenyHeaders
unfoldable pub build_deny_headers : LocalResponse → List (Bytes × Bytes)
build_deny_headers deny =
    if has_content_type deny.headers
    then deny.headers
    else (text "content-type", text "text/plain") ∷ deny.headers

unfoldable pub field_errors : OpenfgaConfig → List ConfigError
field_errors c =
    error_if (c.cluster == []) missing_cluster
    ++ (error_if (c.openfga_host == []) missing_host
        ++ (error_if (c.store_id == []) missing_store_id
            ++ (error_if (not (is_valid_consistency c.consistency)) (bad_consistency c.consistency)
                ++ (error_if (not (is_valid_status (deny_status_of c))) bad_deny_status
                    ++ metadata_errors c.metadata))))

unfoldable pub deny_response : OpenfgaConfig → LocalResponse
deny_response c = record { status = deny_status_of c; body = deny_body_of c; headers = [] }

-- The configuration that is accepted, with what is built from it.
unfoldable pub assemble :
    OpenfgaConfig → List ParsedRule → List TupleSources → List (Bytes × ValueSource) → ParsedConfig
assemble c rules tuples entries = record {
  cluster = c.cluster;
  store_id = c.store_id;
  authorization_model_id = c.authorization_model_id;
  fail_open = c.fail_open;
  dry_run = c.dry_run;
  timeout_ms = timeout_of c;
  deny = deny_response c;
  deny_headers = build_deny_headers (deny_response c);
  deny_body_bytes = deny_body_of c;
  check_path = text "/stores/" ++ (c.store_id ++ text "/check");
  callout_headers =
      (text ":method", text "POST")
      ∷ (text ":path", text "/stores/" ++ (c.store_id ++ text "/check"))
      ∷ (text "host", c.openfga_host)
      ∷ (text "content-type", text "application/json")
      ∷ c.callout_headers;
  rules = rules;
  metadata = c.metadata;
  consistency = c.consistency;
  contextual_tuples = tuples;
  context = entries;
}

-- All of the errors, or what is built.
unfoldable pub combine :
    OpenfgaConfig
    → List ConfigError
    → List ConfigError ⊎ List ParsedRule
    → List ConfigError ⊎ List TupleSources
    → List ConfigError ⊎ List (Bytes × ValueSource)
    → ParseResult
combine c [] (inr rules) (inr tuples) (inr entries) = parsed (assemble c rules tuples entries)
combine c [] (inr rules) (inr tuples) (inl errs) = invalid errs
combine c [] (inr rules) (inl errs) entries = invalid (errs ++ errors_of entries)
combine c [] (inl errs) tuples entries = invalid (errs ++ (errors_of tuples ++ errors_of entries))
combine c (e ∷ errs) rules tuples entries =
    invalid ((e ∷ errs) ++ (errors_of rules ++ (errors_of tuples ++ errors_of entries)))

unfoldable pub check_config : OpenfgaConfig → ParseResult
check_config c =
    combine c (field_errors c) (build_rules c.user c.relation c.object c.rules)
      (build_contextual_tuples c.contextual_tuples) (build_context c.context)

-- parseConfig
unfoldable pub parse_config : (Bytes → Option OpenfgaConfig) → Bytes → ParseResult
parse_config unmarshal [] = no_config
parse_config unmarshal (b ∷ rest) = elim (unmarshal (b ∷ rest)) [
  | none ↦ malformed
  | some c ↦ check_config c
]
