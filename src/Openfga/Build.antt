-- ===== src/Openfga/Build.antt =====
-- What openfga builds from rules, contextual tuples and a context that have no errors.
use mathlib.Core.List.{append_assoc, append-nil}
use built_on_envoy.Prelude.{
  ℕ, suc, Bytes, bytes_eq, nat_eq, Bool, true, false, List, [], ◌∷◌, ◌++◌, map, Option, none, some,
  ◌≡◌, ◌≢◌, ◌⊎◌, inl, inr, refl, sym, ap, ◌∙◌, subst, arith, Bool-cases, append_eq_nil, All,
  All-append,
}
use built_on_envoy.Openfga.Source.{
  ValueSource, SourceError, precompute, is_empty_source, validate_value_source,
}
use built_on_envoy.Openfga.Resolve.{
  IsOneSource, validate_value_source-IsOneSource, precompute-IsOneSource,
}
use built_on_envoy.Openfga.Rules.{
  build_tuples_from, build_contextual_tuples, build_context_from, build_context, tuple_errors,
  parse_tuple, Role, Place, ConfigError, user_role, relation_role, object_role, in_rule, in_tuple,
  in_context, top_level, CheckRule, ParsedRule, TupleSources, source_error, sources_errors,
  rule_match, is_catch_all, user_or, rule_errors, parse_rule, errors_or, append_if_ok,
  build_rules_from, build_legacy_rule, build_rules,
}

-- The three sources of a rule, or of a tuple.
abbrev pub AreSources : ValueSource → ValueSource → ValueSource → Type 0
AreSources user relation object = IsOneSource user × IsOneSource relation × IsOneSource object

source_error-none : (place : Place) (o : Option SourceError) → source_error place o ≡ [] → o ≡ none
source_error-none place none h = refl
source_error-none place (some e) h = cc

sources_errors-AreSources :
    (place : Role → Place) (user relation object : ValueSource)
    → sources_errors place user relation object ≡ []
    → AreSources (precompute user) (precompute relation) (precompute object)
unfolding sources_errors
sources_errors-AreSources place user relation object h =
    let (a, rest) =
      append_eq_nil (source_error (place user_role) (validate_value_source user)) _ h in
    let (b, d) =
      append_eq_nil (source_error (place relation_role) (validate_value_source relation)) _ rest in
    (
      one user (source_error-none (place user_role) _ a),
      one relation (source_error-none (place relation_role) _ b),
      one object (source_error-none (place object_role) _ d),
    )
  where
    one : (v : ValueSource) → validate_value_source v ≡ none → IsOneSource (precompute v)
    one v h = precompute-IsOneSource v (validate_value_source-IsOneSource v h)

abbrev pub IsRule : ParsedRule → Type 0
IsRule r = AreSources r.user r.relation r.object

-- A rule without a match stands last.
abbrev pub IsOrdered : List ParsedRule → Type 0
IsOrdered [] = Unit
IsOrdered (r ∷ []) = Unit
IsOrdered (r ∷ s ∷ rs) = (r.match_headers ≢ none) × IsOrdered (s ∷ rs)

rule_match_some : (o : Option (List (Bytes × Bytes))) → is_catch_all o ≡ false → rule_match o ≢ none
unfolding is_catch_all rule_match
rule_match_some none h e = cc
rule_match_some (some []) h e = cc
rule_match_some (some (x ∷ xs)) h e = cc

errors_or_right {ℓ} :
    {A : Type ℓ} (errs : List ConfigError) (x y : A)
    → Path (List ConfigError ⊎ A) (errors_or errs x) (inr y)
    → (errs ≡ []) × (x ≡ y)
errors_or_right [] x y h = (refl, cc)
errors_or_right (e ∷ errs) x y h = cc

append_if_ok_nil {ℓ} :
    {A : Type ℓ} (errs : List ConfigError) (xs : List A) (x : A)
    → errs ≡ []
    → append_if_ok errs xs x ≡ xs ++ (x ∷ [])
append_if_ok_nil [] xs x h = refl
append_if_ok_nil (e ∷ errs) xs x h = cc

-- What the loop over the rules builds, if it builds anything: the rules so far, and one for each that is left.
record IsBuilt (default : ValueSource) (seen : Bool) (errs : List ConfigError)
    (rules : List ParsedRule) (rs : List CheckRule) (out : List ParsedRule) : Type 0 where
  no_errors : errs ≡ []
  all_rules : out ≡ rules ++ map (parse_rule default) rs
  sources : All IsRule (map (parse_rule default) rs)
  ordered : IsOrdered (map (parse_rule default) rs)
  last_seen : (seen ≡ true) → rs ≡ []

parse_rule-IsRule :
    (default : ValueSource) (i : ℕ) (r : CheckRule)
    → rule_errors default i r ≡ []
    → IsRule (parse_rule default r)
unfolding rule_errors parse_rule
parse_rule-IsRule default i r h =
    sources_errors-AreSources (in_rule i) (user_or default r.user) r.relation r.object h

IsOrdered-cons :
    (default : ValueSource) (r : CheckRule) (rs : List CheckRule)
    → (is_catch_all r.match_headers ≡ true → rs ≡ [])
    → IsOrdered (map (parse_rule default) rs)
    → IsOrdered (map (parse_rule default) (r ∷ rs))
unfolding parse_rule
IsOrdered-cons default r [] last o = tt
IsOrdered-cons default r (s ∷ rs) last o = elim (Bool-cases (is_catch_all r.match_headers)) [
  | inl e ↦ absurd (cc (last e))
  | inr e ↦ (rule_match_some r.match_headers e, o)
]

build_rules_from-IsBuilt :
    (default : ValueSource) (i : ℕ) (seen : Bool) (errs : List ConfigError)
    (rules : List ParsedRule) (rs : List CheckRule) (out : List ParsedRule)
    → build_rules_from default i seen errs rules rs ≡ inr out
    → IsBuilt default seen errs rules rs out
unfolding build_rules_from
build_rules_from-IsBuilt default i seen errs rules [] out h =
    let (e, same) = errors_or_right errs rules out h in
    record {
      no_errors = e;
      all_rules = sym same ∙ sym (append-nil rules);
      sources = tt;
      ordered = tt;
      last_seen = λ k. refl;
    }
build_rules_from-IsBuilt default i true errs rules (r ∷ rs) out h = cc
build_rules_from-IsBuilt default i false errs rules (r ∷ rs) out h =
    let w =
      build_rules_from-IsBuilt default (suc i) (is_catch_all r.match_headers)
        (errs ++ rule_errors default i r)
        (append_if_ok (rule_errors default i r) rules (parse_rule default r)) rs out h in
    let (e, clean) = append_eq_nil errs (rule_errors default i r) w.no_errors in
    record {
      no_errors = e;
      all_rules =
          w.all_rules
          ∙ (ap (λ xs. xs ++ map (parse_rule default) rs)
                (append_if_ok_nil (rule_errors default i r) rules (parse_rule default r) clean)
              ∙ append_assoc rules (parse_rule default r ∷ []) (map (parse_rule default) rs));
      sources = (parse_rule-IsRule default i r clean, w.sources);
      ordered = IsOrdered-cons default r rs w.last_seen w.ordered;
      last_seen = λ k. cc;
    }

-- There is a rule, each has sources with exactly one field set, and only the last can be without a match.
abbrev pub AreRules : List ParsedRule → Type 0
AreRules rs = (rs ≢ []) × All IsRule rs × IsOrdered rs

pub build_rules-AreRules :
    (user relation object : ValueSource) (rs : List CheckRule) (out : List ParsedRule)
    → build_rules user relation object rs ≡ inr out
    → AreRules out
unfolding build_rules build_legacy_rule
build_rules-AreRules user relation object [] out h =
    let (clean, same) =
      errors_or_right (sources_errors top_level user relation object)
        (record {
          match_headers = none;
          user = precompute user;
          relation = precompute relation;
          object = precompute object;
        }
          ∷ [])
        out h in
    subst AreRules same
      ((λ e. cc), ((sources_errors-AreSources top_level user relation object clean), tt), tt)
build_rules-AreRules user relation object (r ∷ rs) out h =
    elim (Bool-cases (is_empty_source user)) [
      | inl e ↦ absurd (ground arith)
      | inr e ↦
          let built : build_rules_from user 0 false [] [] (r ∷ rs) ≡ inr out =
            rw (build_rules, e) at h in
          let w = build_rules_from-IsBuilt user 0 false [] [] (r ∷ rs) out built in
          subst AreRules (sym w.all_rules) ((λ k. cc), w.sources, w.ordered)
    ]

abbrev pub IsTuple : TupleSources → Type 0
IsTuple t = AreSources t.user t.relation t.object

append_if_ok-All {ℓ κ} :
    {A : Type ℓ} (P : A → Type κ) (errs : List ConfigError) (xs : List A) (x : A)
    → (errs ≡ [] → P x)
    → All P xs
    → All P (append_if_ok errs xs x)
append_if_ok-All P [] xs x f all = All-append P xs (x ∷ []) all (f refl, tt)
append_if_ok-All P (e ∷ errs) xs x f all = all

build_tuples_from-All :
    (i : ℕ) (errs : List ConfigError) (done ts out : List TupleSources)
    → build_tuples_from i errs done ts ≡ inr out
    → All IsTuple done
    → (errs ≡ []) × All IsTuple out
unfolding build_tuples_from
build_tuples_from-All i errs done [] out h all =
    let (e, same) = errors_or_right errs done out h in (e, subst (All IsTuple) same all)
build_tuples_from-All i errs done (t ∷ ts) out h all =
    let (e, w) =
      build_tuples_from-All (suc i) (errs ++ tuple_errors i t)
        (append_if_ok (tuple_errors i t) done (parse_tuple t)) ts out h
        (append_if_ok-All IsTuple (tuple_errors i t) done (parse_tuple t)
          (λ clean. sources_errors-AreSources (in_tuple i) t.user t.relation t.object clean) all) in
    ((append_eq_nil errs (tuple_errors i t) e).0, w)

build_context_from-All :
    (errs : List ConfigError) (done entries out : List (Bytes × ValueSource))
    → build_context_from errs done entries ≡ inr out
    → All (λ (x : Bytes × ValueSource). IsOneSource x.1) done
    → (errs ≡ []) × All (λ (x : Bytes × ValueSource). IsOneSource x.1) out
unfolding build_context_from
build_context_from-All errs done [] out h all =
    let (e, same) = errors_or_right errs done out h in
    (e, subst (All (λ (x : Bytes × ValueSource). IsOneSource x.1)) same all)
build_context_from-All errs done ((name, v) ∷ entries) out h all =
    let found = source_error (in_context name) (validate_value_source v) in
    let (e, w) =
      build_context_from-All (errs ++ found) (append_if_ok found done (name, precompute v)) entries
        out h
        (append_if_ok-All (λ (x : Bytes × ValueSource). IsOneSource x.1) found done
          (name, precompute v)
          (λ clean. precompute-IsOneSource v (
            validate_value_source-IsOneSource v
              (source_error-none (in_context name) (validate_value_source v) clean)))
          all) in
    ((append_eq_nil errs found e).0, w)

pub build_tuples-All :
    (ts out : List TupleSources) → build_contextual_tuples ts ≡ inr out → All IsTuple out
unfolding build_contextual_tuples
build_tuples-All ts out h = (build_tuples_from-All 0 [] [] ts out h tt).1

pub build_context-All :
    (entries out : List (Bytes × ValueSource))
    → build_context entries ≡ inr out
    → All (λ (x : Bytes × ValueSource). IsOneSource x.1) out
unfolding build_context
build_context-All entries out h = (build_context_from-All [] [] entries out h tt).1
