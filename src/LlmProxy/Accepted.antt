-- ===== src/LlmProxy/Accepted.antt =====
-- What an accepted configuration of llm-proxy has.
use built_on_envoy.Prelude.{
  ℕ, ◌+◌, Bytes, bytes_eq, bytes_beq, nat_eq, eq_iff, text, ◌==◌, Bool, true, false, ◌&&◌, ◌||◌,
  List, [], ◌∷◌, Option, some, ◌⊎◌, inl, inr, ◌≡◌, ◌≢◌, refl, ap, ◌∙◌, subst, arith, All,
  Bool-cases, Option-cases, Sum-cases,
}
use built_on_envoy.LlmProxy.Config.{
  StringMatcher, LlmFactory, LlmConfig, LlmProxyConfig, ConfigError, one_if, count_set, check_count,
  with_test, validate_matcher, factory_of, validate_rule, validate_rules, check_kinds, add_defaults,
  validate_and_parse, assemble, namespace_of,
}

-- How many rules are of a kind.
abbrev pub count_kind : Bytes → List LlmConfig → ℕ
count_kind kind [] = 0
count_kind kind (r ∷ rs) = one_if (r.kind == kind) + count_kind kind rs

check_kinds_counts :
    (a b : Bool) (rs : List LlmConfig) (kinds : Bool × Bool)
    → Path (ConfigError ⊎ (Bool × Bool)) (check_kinds a b rs) (inr kinds)
    → (one_if a + count_kind (text "openai") rs ≡ one_if kinds.0)
      × (one_if b + count_kind (text "anthropic") rs ≡ one_if kinds.1)
unfolding check_kinds
check_kinds_counts a b [] kinds h =
    let same : Path (Bool × Bool) (a, b) kinds = cc in
    subst (λ (k : Bool × Bool). (one_if a + 0 ≡ one_if k.0) × (one_if b + 0 ≡ one_if k.1)) same
      (omega arith, omega arith)
check_kinds_counts a b (r ∷ rs) kinds h =
    let later : Path (ConfigError ⊎ (Bool × Bool))
        (check_kinds (a || (r.kind == text "openai")) (b || (r.kind == text "anthropic")) rs)
        (inr kinds) =
      ground arith in
    let one_openai : ((r.kind == text "openai") && a) ≡ false = ground arith in
    let one_anthropic : ((r.kind == text "anthropic") && b) ≡ false = ground arith in
    let (openai, anthropic) =
      check_kinds_counts (a || (r.kind == text "openai")) (b || (r.kind == text "anthropic")) rs
        kinds later in
    (
      added a (r.kind == text "openai") _ _ one_openai openai,
      added b (r.kind == text "anthropic") _ _ one_anthropic anthropic,
    )
  where
    added :
        (x y : Bool) (n k : ℕ)
        → (y && x) ≡ false
        → one_if (x || y) + n ≡ k
        → one_if x + (one_if y + n) ≡ k
    added true true n k h e = cc
    added true false n k h e = omega (arith, e)
    added false true n k h e = omega (arith, e)
    added false false n k h e = omega (arith, e)

add_defaults_counts :
    (a b : Bool) (rs : List LlmConfig)
    → count_kind (text "openai") rs ≡ one_if a
    → count_kind (text "anthropic") rs ≡ one_if b
    → (count_kind (text "openai") (add_defaults a b rs) ≡ 1)
      × (count_kind (text "anthropic") (add_defaults a b rs) ≡ 1)
unfolding add_defaults bytes_beq
add_defaults_counts true true rs h k = (omega (arith, h), omega (arith, k))
add_defaults_counts true false rs h k = (omega (arith, h), omega (arith, k))
add_defaults_counts false true rs h k = (omega (arith, h), omega (arith, k))
add_defaults_counts false false rs h k = (omega (arith, h), omega (arith, k))

-- A matcher is a prefix, a suffix or an expression, and no two of them.
abbrev pub IsOneWay : StringMatcher → Type 0
IsOneWay m =
    ((m.prefix ≢ []) × (m.suffix ≡ []) × (m.regex ≡ []))
    ⊎ ((m.prefix ≡ []) × (m.suffix ≢ []) × (m.regex ≡ []))
    ⊎ ((m.prefix ≡ []) × (m.suffix ≡ []) × (m.regex ≢ []))

-- The factory that goes with a kind.
abbrev pub IsFactory : Bytes → Option LlmFactory → Type 0
IsFactory kind factory =
    ((kind ≡ text "openai") × (factory ≡ some LlmFactory.openai_factory))
    ⊎ ((kind ≡ text "anthropic") × (factory ≡ some LlmFactory.anthropic_factory))
    ⊎ ((kind ≡ text "custom") × (factory ≡ some LlmFactory.custom_factory))

-- An expression is compiled.
abbrev pub IsCompiled : (Bytes → Option (Bytes → Bool)) → StringMatcher → Type 0
IsCompiled compile m =
    m.regex ≢ [] → (test : Bytes → Bool) × (compile m.regex ≡ some test) × (m.re ≡ some test)

-- A rule that requests can be matched with: one way to match, compiled if it is an expression, and a kind with
-- its factory.
pub record IsValidRule (compile : Bytes → Option (Bytes → Bool)) (r : LlmConfig) : Type 0 where
  pub one_way : IsOneWay r.matcher
  pub compiled : IsCompiled compile r.matcher
  pub has_factory : IsFactory r.kind r.factory

abbrev IsOneSet : (Bytes → Option (Bytes → Bool)) → StringMatcher → Type 0
IsOneSet compile m = IsOneWay m × IsCompiled compile m

count_set-IsOneWay : (m : StringMatcher) → count_set m ≡ 1 → IsOneWay m
unfolding count_set
count_set-IsOneWay m h = ground (arith, eq_iff m.prefix [], eq_iff m.suffix [], eq_iff m.regex [])

factory_of-IsFactory :
    (kind : Bytes) (f : LlmFactory) → factory_of kind ≡ some f → IsFactory kind (some f)
unfolding factory_of
factory_of-IsFactory kind f h = ground (
  arith,
  eq_iff kind (text "openai"),
  eq_iff kind (text "anthropic"),
  eq_iff kind (text "custom"),
)

inr_eq {ℓ} : {A : Type ℓ} (x y : A) → Path (ConfigError ⊎ A) (inr x) (inr y) → x ≡ y
inr_eq x y h = cc

check_count-inr :
    (m n : StringMatcher)
    → Path (ConfigError ⊎ StringMatcher) (check_count m) (inr n)
    → (m ≡ n) × IsOneWay m
check_count-inr m n h = elim (Bool-cases (count_set m == 1)) [
  | inl e ↦ (inr_eq m n (rw e at h), count_set-IsOneWay m ((eq_iff (count_set m) 1).0 e))
  | inr e ↦ absurd (cc (rw e at h))
]

validate_matcher-IsOneSet :
    (compile : Bytes → Option (Bytes → Bool)) (m n : StringMatcher)
    → Path (ConfigError ⊎ StringMatcher) (validate_matcher compile m) (inr n)
    → IsOneSet compile n
unfolding validate_matcher
validate_matcher-IsOneSet compile m n h = elim (Bool-cases (m.regex == [])) [
  | inl e ↦
      let (same, one) = check_count-inr m n (rw (validate_matcher, e) at h) in
      subst (IsOneSet compile) same (one, λ k. absurd (k ((eq_iff m.regex []).0 e)))
  | inr e ↦ elim (Option-cases (compile m.regex)) [
    | inl f ↦ absurd (cc (rw (validate_matcher, e, f) at h))
    | inr (test, f) ↦
        let (same, one) = check_count-inr (with_test m test) n (rw (validate_matcher, e, f) at h) in
        subst (IsOneSet compile) same (one, λ k. (test, f, refl))
  ]
]

validate_rule-IsValidRule :
    (compile : Bytes → Option (Bytes → Bool)) (r s : LlmConfig)
    → Path (ConfigError ⊎ LlmConfig) (validate_rule compile r) (inr s)
    → IsValidRule compile s × (s.kind ≡ r.kind)
unfolding validate_rule
validate_rule-IsValidRule compile r s h = elim (Option-cases (factory_of r.kind)) [
  | inl e ↦ absurd (cc (rw (validate_rule, e) at h))
  | inr (f, e) ↦ elim (Sum-cases (validate_matcher compile r.matcher)) [
    | inl (err, g) ↦ absurd (cc (rw (validate_rule, e, g) at h))
    | inr (m, g) ↦
        let same =
          inr_eq (record { matcher = m; kind = r.kind; factory = some f }) s
            (rw (validate_rule, e, g) at h) in
        let (one, compiled) = validate_matcher-IsOneSet compile r.matcher m g in
        subst (λ (x : LlmConfig). IsValidRule compile x × (x.kind ≡ r.kind)) same
          (
            record {
              one_way = one;
              compiled = compiled;
              has_factory = factory_of-IsFactory r.kind f e;
            },
            refl,
          )
  ]
]

validate_rules-All :
    (compile : Bytes → Option (Bytes → Bool)) (rs out : List LlmConfig)
    → Path (ConfigError ⊎ List LlmConfig) (validate_rules compile rs) (inr out)
    → All (IsValidRule compile) out × ((kind : Bytes) → count_kind kind out ≡ count_kind kind rs)
unfolding validate_rules
validate_rules-All compile [] out h =
    let same = inr_eq [] out h in
    subst
      (λ (xs : List LlmConfig).
        All (IsValidRule compile) xs × ((kind : Bytes) → count_kind kind xs ≡ 0))
      same (tt, λ kind. refl)
validate_rules-All compile (r ∷ rs) out h = elim (Sum-cases (validate_rule compile r)) [
  | inl (err, e) ↦ absurd (cc (rw (validate_rules, e) at h))
  | inr (s, e) ↦ elim (Sum-cases (validate_rules compile rs)) [
    | inl (err, f) ↦ absurd (cc (rw (validate_rules, e, f) at h))
    | inr (ss, f) ↦
        let same = inr_eq (s ∷ ss) out (rw (validate_rules, e, f) at h) in
        let (valid, kind_same) = validate_rule-IsValidRule compile r s e in
        let (all, counts) = validate_rules-All compile rs ss f in
        subst
          (λ (xs : List LlmConfig).
            All (IsValidRule compile) xs
            × ((kind : Bytes) → count_kind kind xs ≡ count_kind kind (r ∷ rs)))
          same ((valid, all), λ kind. counted s ss kind (counts kind) kind_same)
  ]
]
  where
    counted :
        (s : LlmConfig) (ss : List LlmConfig) (kind : Bytes)
        → count_kind kind ss ≡ count_kind kind rs
        → s.kind ≡ r.kind
        → count_kind kind (s ∷ ss) ≡ count_kind kind (r ∷ rs)
    counted s ss kind e k =
        ap (λ b. one_if (b == kind) + count_kind kind ss) k
        ∙ ap (λ n. one_if (r.kind == kind) + n) e

namespace_of-ne-nil : (namespace : Bytes) → namespace_of namespace ≢ []
unfolding namespace_of
namespace_of-ne-nil namespace h = elim (Bool-cases (namespace == [])) [
  | inl e ↦ cc (rw (namespace_of, e) at h)
  | inr e ↦ ground (arith, eq_iff namespace [])
]

-- An accepted configuration has exactly one rule of kind openai and exactly one of kind anthropic, whichever of
-- them were configured; each of its rules is matched by exactly one of a prefix, a suffix and an expression,
-- which is compiled, and has the factory of its kind; and its metadata namespace is not empty.
pub validate_and_parse_sound :
    (compile : Bytes → Option (Bytes → Bool)) (c d : LlmProxyConfig)
    → Path (ConfigError ⊎ LlmProxyConfig) (validate_and_parse compile c) (inr d)
    → (count_kind (text "openai") d.llm_configs ≡ 1)
      × (count_kind (text "anthropic") d.llm_configs ≡ 1)
      × All (IsValidRule compile) d.llm_configs
      × (d.metadata_namespace ≢ [])
unfolding validate_and_parse
validate_and_parse_sound compile c d h = elim (Sum-cases (check_kinds false false c.llm_configs)) [
  | inl (err, e) ↦ absurd (cc (rw (validate_and_parse, e) at h))
  | inr (kinds, e) ↦
      elim (Sum-cases (validate_rules compile (add_defaults kinds.0 kinds.1 c.llm_configs))) [
        | inl (err, f) ↦ absurd (cc (rw (validate_and_parse, e, f) at h))
        | inr (rs, f) ↦
            let same = inr_eq (assemble c rs) d (rw (validate_and_parse, e, f) at h) in
            let (openai, anthropic) = check_kinds_counts false false c.llm_configs kinds e in
            let (one_openai, one_anthropic) =
              add_defaults_counts kinds.0 kinds.1 c.llm_configs (omega (arith, openai))
                (omega (arith, anthropic)) in
            let (valid, counts) =
              validate_rules-All compile (add_defaults kinds.0 kinds.1 c.llm_configs) rs f in
            subst
              (λ (x : LlmProxyConfig).
                (count_kind (text "openai") x.llm_configs ≡ 1)
                × (count_kind (text "anthropic") x.llm_configs ≡ 1)
                × All (IsValidRule compile) x.llm_configs
                × (x.metadata_namespace ≢ []))
              same
              (
                counts (text "openai") ∙ one_openai,
                counts (text "anthropic") ∙ one_anthropic,
                valid,
                namespace_of-ne-nil c.metadata_namespace,
              )
      ]
]
