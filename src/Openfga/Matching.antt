-- ===== src/Openfga/Matching.antt =====
-- Which rule of openfga/plugin.go a request falls under, said of the list of rules without the loop of
-- `matchRule`.
use built_on_envoy.Prelude.{
  Bytes, bytes_eq, eq_iff, text, true, false, List, [], ◌∷◌, ◌++◌, Option, none, some, ◌≡◌, ◌≢◌,
  ◌⊎◌, inl, inr, refl, ap, arith, All, Bool-cases, Option-cases, subst, sym, ◌∙◌,
}
use built_on_envoy.Openfga.Rules.{RuleMatch, ParsedRule, matches}
use built_on_envoy.Openfga.Handler.{match_rule}

-- The header is there, and has the value that is wanted unless any value will do.
abbrev pub HeaderHolds : (Bytes → Bytes) → Bytes × Bytes → Type 0
HeaderHolds headers (name, want) = (headers name ≢ []) × ((want ≡ text "*") ⊎ (headers name ≡ want))

abbrev pub Holds : (Bytes → Bytes) → Option RuleMatch → Type 0
Holds headers none = Unit
Holds headers (some conditions) = All (HeaderHolds headers) conditions

-- The rule holds, and none of those before it does.
abbrev pub IsFirstMatch : (Bytes → Bytes) → List ParsedRule → ParsedRule → Type 0
IsFirstMatch headers rules r =
    (before : List ParsedRule) × (after : List ParsedRule) × (rules ≡ before ++ (r ∷ after))
    × All (λ (x : ParsedRule). ¬ Holds headers x.match_headers) before
    × Holds headers r.match_headers

matches_sound :
    (headers : Bytes → Bytes) (m : RuleMatch) → matches headers m ≡ true → Holds headers (some m)
unfolding matches
matches_sound headers [] h = tt
matches_sound headers ((name, want) ∷ m) h = (
  (
    (λ e. ground (arith, eq_iff (headers name) [])),
    ground (arith, eq_iff want (text "*"), eq_iff (headers name) want),
  ),
  matches_sound headers m (ground arith),
)

matches_complete :
    (headers : Bytes → Bytes) (m : RuleMatch) → Holds headers (some m) → matches headers m ≡ true
unfolding matches
matches_complete headers [] h = refl
matches_complete headers ((name, want) ∷ m) ((there, same), rest) = ground (
  arith,
  there,
  same,
  eq_iff (headers name) [],
  eq_iff want (text "*"),
  eq_iff (headers name) want,
  matches_complete headers m rest,
)

-- One turn of the loop.
match_rule_step :
    (headers : Bytes → Bytes) (r : ParsedRule) (rs : List ParsedRule)
    → (Holds headers r.match_headers × (match_rule headers (r ∷ rs) ≡ some r))
      ⊎ ((¬ Holds headers r.match_headers) × (match_rule headers (r ∷ rs) ≡ match_rule headers rs))
unfolding match_rule
match_rule_step headers r rs = elim (Option-cases r.match_headers) [
  | inl e ↦ inl (subst (Holds headers) (sym e) tt, ground (arith, e))
  | inr (m, e) ↦ elim (Bool-cases (matches headers m)) [
    | inl f ↦ inl (subst (Holds headers) (sym e) (matches_sound headers m f), ground (arith, e, f))
    | inr f ↦ inr ((λ h. unheld m f (subst (Holds headers) e h)), ground (arith, e, f))
  ]
]
  where
    unheld : (m : RuleMatch) → matches headers m ≡ false → ¬ Holds headers (some m)
    unheld m f h = cc (f, matches_complete headers m h)

pub match_rule-IsFirstMatch :
    (headers : Bytes → Bytes) (rs : List ParsedRule) (r : ParsedRule)
    → match_rule headers rs ≡ some r
    → IsFirstMatch headers rs r
unfolding match_rule
match_rule-IsFirstMatch headers [] r h = cc
match_rule-IsFirstMatch headers (x ∷ rs) r h = elim (match_rule_step headers x rs) [
  | inl (holds, e) ↦
      let same : x ≡ r = cc (e, h) in
      subst (IsFirstMatch headers (x ∷ rs)) same ([], rs, refl, tt, holds)
  | inr (fails, e) ↦
      let (before, after, parts, unheld, holds) =
        match_rule-IsFirstMatch headers rs r (sym e ∙ h) in
      (x ∷ before, after, ap (λ (ys : List ParsedRule). x ∷ ys) parts, (fails, unheld), holds)
]

pub match_rule_of_IsFirstMatch :
    (headers : Bytes → Bytes) (before after : List ParsedRule) (r : ParsedRule)
    → All (λ (x : ParsedRule). ¬ Holds headers x.match_headers) before
    → Holds headers r.match_headers
    → match_rule headers (before ++ (r ∷ after)) ≡ some r
match_rule_of_IsFirstMatch headers [] after r unheld holds =
    elim (match_rule_step headers r after) [
      | inl (h, e) ↦ e
      | inr (fails, e) ↦ absurd (fails holds)
    ]
match_rule_of_IsFirstMatch headers (x ∷ before) after r unheld holds =
    elim (match_rule_step headers x (before ++ (r ∷ after))) [
      | inl (h, e) ↦ absurd (unheld.0 h)
      | inr (fails, e) ↦ e ∙ match_rule_of_IsFirstMatch headers before after r unheld.1 holds
    ]

-- The rule under which a request falls is found.
pub match_rule-eq :
    (headers : Bytes → Bytes) (rs : List ParsedRule) (r : ParsedRule)
    → IsFirstMatch headers rs r
    → match_rule headers rs ≡ some r
match_rule-eq headers rs r (before, after, parts, unheld, holds) =
    ap (match_rule headers) parts ∙ match_rule_of_IsFirstMatch headers before after r unheld holds
