-- ===== src/Openfga/Accepted.antt =====
-- What the configurations of openfga that are accepted have.
use built_on_envoy.Prelude.{
  text, ◌≤◌, Bytes, bytes_eq, nat_eq, eq_iff, ◌==◌, Bool, true, false, not, ◌||◌, List, [], ◌∷◌,
  Option, none, some, ◌≡◌, ◌≢◌, ◌⊎◌, inl, inr, refl, subst, arith, Option-cases, append_eq_nil, All,
}
use built_on_envoy.Prelude.Int.{ℤ, pos, ◌≤ℤ◌}
use built_on_envoy.Openfga.Source.{ValueSource}
use built_on_envoy.Openfga.Rules.{
  ConfigError, missing_cluster, missing_host, missing_store_id, bad_consistency, bad_deny_status,
  bad_metadata, ParsedRule, TupleSources, build_rules, build_contextual_tuples, build_context,
}
use built_on_envoy.Openfga.Config.{
  MetadataKey, OpenfgaConfig, ParsedConfig, ParseResult, parsed, error_if, is_valid_key,
  metadata_errors, is_valid_status, is_valid_consistency, deny_status_of, timeout_of, deny_response,
  field_errors, assemble, combine, check_config, parse_config,
}
use built_on_envoy.Openfga.Resolve.{IsOneSource}
use built_on_envoy.Openfga.Build.{
  AreRules, IsTuple, build_rules-AreRules, build_tuples-All, build_context-All,
}

-- The levels of consistency that the service knows, or none.
abbrev pub IsConsistency : Bytes → Type 0
IsConsistency s =
    (s ≡ [])
    ⊎ (s ≡ text "UNSPECIFIED")
    ⊎ (s ≡ text "MINIMIZE_LATENCY")
    ⊎ (s ≡ text "HIGHER_CONSISTENCY")

pub record IsAccepted (p : ParsedConfig) : Type 0 where
  pub has_cluster : p.cluster ≢ []
  pub has_store : p.store_id ≢ []
  pub deny_status : (pos 100 ≤ℤ p.deny.status) × (p.deny.status ≤ℤ pos 599)
  pub timeout : 1 ≤ p.timeout_ms
  pub consistency : IsConsistency p.consistency
  pub metadata : (k : MetadataKey) → p.metadata ≡ some k → (k.namespace ≢ []) × (k.key ≢ [])
  pub rules : AreRules p.rules
  pub tuples : All IsTuple p.contextual_tuples
  pub context : All (λ (x : Bytes × ValueSource). IsOneSource x.1) p.context

combine_parsed :
    (c : OpenfgaConfig) (errs : List ConfigError) (rules : List ConfigError ⊎ List ParsedRule)
    (tuples : List ConfigError ⊎ List TupleSources)
    (entries : List ConfigError ⊎ List (Bytes × ValueSource)) (p : ParsedConfig)
    → combine c errs rules tuples entries ≡ parsed p
    → (errs ≡ [])
      × ((rs : List ParsedRule) × (rules ≡ inr rs)
          × ((ts : List TupleSources) × (tuples ≡ inr ts)
              × ((es : List (Bytes × ValueSource)) × (entries ≡ inr es)
                  × (assemble c rs ts es ≡ p))))
unfolding combine
combine_parsed c [] (inr rs) (inr ts) (inr es) p h =
    (refl, (rs, refl, (ts, refl, (es, refl, parsed_eq (assemble c rs ts es) h))))
  where
    parsed_eq : (q : ParsedConfig) → Path ParseResult (parsed q) (parsed p) → q ≡ p
    parsed_eq q h = cc
combine_parsed c [] (inr rs) (inr ts) (inl es) p h = cc
combine_parsed c [] (inr rs) (inl es) entries p h = cc
combine_parsed c [] (inl es) tuples entries p h = cc
combine_parsed c (e ∷ errs) rules tuples entries p h = cc

error_if_nil : (b : Bool) (e : ConfigError) → error_if b e ≡ [] → b ≡ false
error_if_nil true e h = cc
error_if_nil false e h = refl

is_valid_status_sound :
    (status : ℤ) → is_valid_status status ≡ true → (pos 100 ≤ℤ status) × (status ≤ℤ pos 599)
unfolding is_valid_status
is_valid_status_sound status h = (ground arith, ground arith)

is_valid_consistency_sound : (s : Bytes) → is_valid_consistency s ≡ true → IsConsistency s
unfolding is_valid_consistency
is_valid_consistency_sound s h = ground (
  arith,
  eq_iff s [],
  eq_iff s (text "UNSPECIFIED"),
  eq_iff s (text "MINIMIZE_LATENCY"),
  eq_iff s (text "HIGHER_CONSISTENCY"),
)

not-false : (b : Bool) → not b ≡ false → b ≡ true
not-false true h = refl
not-false false h = cc

set_of : (s : Bytes) (e : ConfigError) → error_if (s == []) e ≡ [] → s ≢ []
set_of s e h k = cc (error_if_nil (s == []) e h, (eq_iff s []).1 k)

metadata_ok :
    (o : Option MetadataKey) (k : MetadataKey)
    → metadata_errors o ≡ []
    → o ≡ some k
    → (k.namespace ≢ []) × (k.key ≢ [])
unfolding metadata_errors is_valid_key
metadata_ok none k h e = cc
metadata_ok (some j) k h e =
    let same : j ≡ k = cc in
    let tests : not ((j.namespace == []) || (j.key == [])) ≡ true =
      not-false _ (error_if_nil (not (is_valid_key j)) bad_metadata h) in
    subst (λ (x : MetadataKey). (x.namespace ≢ []) × (x.key ≢ [])) same
      ((λ f. ground (arith, eq_iff j.namespace [])), (λ f. ground (arith, eq_iff j.key [])))

field_errors-IsAccepted :
    (c : OpenfgaConfig) (rs : List ParsedRule) (ts : List TupleSources)
    (es : List (Bytes × ValueSource))
    → field_errors c ≡ []
    → AreRules rs
    → All IsTuple ts
    → All (λ (x : Bytes × ValueSource). IsOneSource x.1) es
    → IsAccepted (assemble c rs ts es)
unfolding field_errors assemble deny_response timeout_of
field_errors-IsAccepted c rs ts es h rules tuples entries =
    let (cluster, h1) = append_eq_nil (error_if (c.cluster == []) missing_cluster) _ h in
    let (host, h2) = append_eq_nil (error_if (c.openfga_host == []) missing_host) _ h1 in
    let (store, h3) = append_eq_nil (error_if (c.store_id == []) missing_store_id) _ h2 in
    let (consistent, h4) =
      append_eq_nil
        (error_if (not (is_valid_consistency c.consistency)) (bad_consistency c.consistency)) _
        h3 in
    let (status, keys) =
      append_eq_nil (error_if (not (is_valid_status (deny_status_of c))) bad_deny_status) _ h4 in
    record {
      has_cluster = set_of c.cluster missing_cluster cluster;
      has_store = set_of c.store_id missing_store_id store;
      deny_status =
          is_valid_status_sound (deny_status_of c)
            (not-false _ (error_if_nil (not (is_valid_status (deny_status_of c))) _ status));
      timeout = ground arith;
      consistency =
          is_valid_consistency_sound c.consistency
            (not-false _ (error_if_nil (not (is_valid_consistency c.consistency)) _ consistent));
      metadata = λ k e. metadata_ok c.metadata k keys e;
      rules = rules;
      tuples = tuples;
      context = entries;
    }

-- An accepted configuration has a cluster, a store, a positive timeout, a deny status from 100 to 599, one of
-- the three levels of consistency or none, and a whole metadata key if it has one. It has a rule, and only its last rule can be without a
-- match; and each source of its rules, of its contextual tuples and of its context is exactly one of a fixed value, a
-- header, a segment of the path and a query parameter.
pub parse_config-IsAccepted :
    (unmarshal : Bytes → Option OpenfgaConfig) (data_ : Bytes) (p : ParsedConfig)
    → parse_config unmarshal data_ ≡ parsed p
    → IsAccepted p
unfolding parse_config check_config
parse_config-IsAccepted unmarshal [] p h = cc
parse_config-IsAccepted unmarshal (b ∷ rest) p h = elim (Option-cases (unmarshal (b ∷ rest))) [
  | inl e ↦ absurd (cc (rw (parse_config, e) at h))
  | inr (c, e) ↦
      let checked : check_config c ≡ parsed p = rw (parse_config, e) at h in
      let (clean, built) =
        combine_parsed c (field_errors c) (build_rules c.user c.relation c.object c.rules)
          (build_contextual_tuples c.contextual_tuples) (build_context c.context) p checked in
      let (rs, f, rest_built) = built in
      let (ts, g, last_built) = rest_built in
      let (es, k, same) = last_built in
      subst IsAccepted same (
        field_errors-IsAccepted c rs ts es clean
          (build_rules-AreRules c.user c.relation c.object c.rules rs f)
          (build_tuples-All c.contextual_tuples ts g) (build_context-All c.context es k))
]
