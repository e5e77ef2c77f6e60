-- ===== src/Openfga/Rules.antt =====
-- The rules, contextual tuples and context of openfga/config.go, and how they are built. An error says where it
-- is, in place of the text; a map is a list of its entries.
use built_on_envoy.Prelude.{
  ℕ, suc, Bytes, bytes_eq, text, ◌==◌, Bool, true, false, not, ◌&&◌, List, [], ◌∷◌, ◌++◌, Option,
  none, some, ◌⊎◌, inl, inr, if◌then◌else◌,
}
use built_on_envoy.Openfga.Source.{
  ValueSource, SourceError, is_empty_source, precompute, validate_value_source,
}

pub data Role : Type 0 where
  user_role : Role
  relation_role : Role
  object_role : Role

pub data Place : Type 0 where
  top_level : Role → Place
  in_rule : ℕ → Role → Place
  in_tuple : ℕ → Role → Place
  in_context : Bytes → Place

pub data ConfigError : Type 0 where
  missing_cluster : ConfigError
  missing_host : ConfigError
  missing_store_id : ConfigError
  bad_consistency : Bytes → ConfigError
  bad_deny_status : ConfigError
  bad_metadata : ConfigError
  no_default_user : ConfigError
  catch_all_not_last : ℕ → ConfigError
  bad_source : Place → SourceError → ConfigError

-- ruleMatch: header names, with what they must be
abbrev pub RuleMatch : Type 0
RuleMatch = List (Bytes × Bytes)

-- matches
unfoldable pub matches : (Bytes → Bytes) → RuleMatch → Bool
matches headers [] = true
matches headers ((name, want) ∷ rest) =
    let others = matches headers rest in
    if headers name == []
    then false
    else if not (want == text "*") && not (headers name == want)
    then false
    else others

-- checkRule
pub record CheckRule : Type 0 where
  pub match_headers : Option RuleMatch
  pub user : Option ValueSource
  pub relation : ValueSource
  pub object : ValueSource

-- parsedRule
pub record ParsedRule : Type 0 where
  pub match_headers : Option RuleMatch
  pub user : ValueSource
  pub relation : ValueSource
  pub object : ValueSource

-- contextualTupleCfg and parsedContextualTuple
pub record TupleSources : Type 0 where
  pub user : ValueSource
  pub relation : ValueSource
  pub object : ValueSource

abbrev pub source_error : Place → Option SourceError → List ConfigError
source_error place none = []
source_error place (some e) = bad_source place e ∷ []

-- The errors of three sources.
unfoldable pub sources_errors :
    (Role → Place) → ValueSource → ValueSource → ValueSource → List ConfigError
sources_errors place user relation object =
    source_error (place user_role) (validate_value_source user)
    ++ (source_error (place relation_role) (validate_value_source relation)
        ++ source_error (place object_role) (validate_value_source object))

-- cr.Match, unless it has no headers
unfoldable pub rule_match : Option RuleMatch → Option RuleMatch
rule_match none = none
rule_match (some []) = none
rule_match (some (h ∷ hs)) = some (h ∷ hs)

unfoldable pub is_catch_all : Option RuleMatch → Bool
is_catch_all none = true
is_catch_all (some []) = true
is_catch_all (some (h ∷ hs)) = false

abbrev pub user_or : ValueSource → Option ValueSource → ValueSource
user_or default none = default
user_or default (some v) = v

unfoldable pub rule_errors : ValueSource → ℕ → CheckRule → List ConfigError
rule_errors default i r = sources_errors (in_rule i) (user_or default r.user) r.relation r.object

unfoldable pub parse_rule : ValueSource → CheckRule → ParsedRule
parse_rule default r = record {
  match_headers = rule_match r.match_headers;
  user = precompute (user_or default r.user);
  relation = precompute r.relation;
  object = precompute r.object;
}

abbrev pub errors_or {ℓ} : {A : Type ℓ} → List ConfigError → A → List ConfigError ⊎ A
errors_or [] x = inr x
errors_or (e ∷ errs) x = inl (e ∷ errs)

-- append(rules, ...), if the rule has no errors
abbrev pub append_if_ok {ℓ} : {A : Type ℓ} → List ConfigError → List A → A → List A
append_if_ok [] xs x = xs ++ (x ∷ [])
append_if_ok (e ∷ errs) xs x = xs

-- The loop over the rules, from rule `i` on.
unfoldable pub build_rules_from :
    ValueSource
    → ℕ
    → Bool
    → List ConfigError
    → List ParsedRule
    → List CheckRule
    → List ConfigError ⊎ List ParsedRule
build_rules_from default i catch_all_seen errs rules [] = errors_or errs rules
build_rules_from default i catch_all_seen errs rules (r ∷ rs) =
    let rest =
      build_rules_from default (suc i) (is_catch_all r.match_headers)
        (errs ++ rule_errors default i r)
        (append_if_ok (rule_errors default i r) rules (parse_rule default r)) rs in
    if catch_all_seen then inl (catch_all_not_last i ∷ []) else rest

-- buildLegacyRule
unfoldable pub build_legacy_rule :
    ValueSource → ValueSource → ValueSource → List ConfigError ⊎ List ParsedRule
build_legacy_rule user relation object = errors_or (sources_errors top_level user relation object) (
    record {
      match_headers = none;
      user = precompute user;
      relation = precompute relation;
      object = precompute object;
    }
    ∷ [])

-- buildRules
unfoldable pub build_rules :
    ValueSource → ValueSource → ValueSource → List CheckRule → List ConfigError ⊎ List ParsedRule
build_rules user relation object [] = build_legacy_rule user relation object
build_rules user relation object (r ∷ rs) =
    if is_empty_source user
    then inl (no_default_user ∷ [])
    else build_rules_from user 0 false [] [] (r ∷ rs)

abbrev pub tuple_errors : ℕ → TupleSources → List ConfigError
tuple_errors i t = sources_errors (in_tuple i) t.user t.relation t.object

abbrev pub parse_tuple : TupleSources → TupleSources
parse_tuple t = record {
  user = precompute t.user;
  relation = precompute t.relation;
  object = precompute t.object;
}

unfoldable pub build_tuples_from :
    ℕ
    → List ConfigError
    → List TupleSources
    → List TupleSources
    → List ConfigError ⊎ List TupleSources
build_tuples_from i errs parsed [] = errors_or errs parsed
build_tuples_from i errs parsed (t ∷ ts) =
    build_tuples_from (suc i) (errs ++ tuple_errors i t)
      (append_if_ok (tuple_errors i t) parsed (parse_tuple t)) ts

-- buildContextualTuples
unfoldable pub build_contextual_tuples : List TupleSources → List ConfigError ⊎ List TupleSources
build_contextual_tuples tuples = build_tuples_from 0 [] [] tuples

unfoldable pub build_context_from :
    List ConfigError
    → List (Bytes × ValueSource)
    → List (Bytes × ValueSource)
    → List ConfigError ⊎ List (Bytes × ValueSource)
build_context_from errs parsed [] = errors_or errs parsed
build_context_from errs parsed ((name, v) ∷ rest) =
    let found = source_error (in_context name) (validate_value_source v) in
    build_context_from (errs ++ found) (append_if_ok found parsed (name, precompute v)) rest

-- buildContext
unfoldable pub build_context :
    List (Bytes × ValueSource) → List ConfigError ⊎ List (Bytes × ValueSource)
build_context entries = build_context_from [] [] entries
