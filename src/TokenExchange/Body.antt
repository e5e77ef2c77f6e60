-- ===== src/TokenExchange/Body.antt =====
-- The form that token-exchange posts: a receiver that parses it finds the fields of the configuration and the
-- subject token, whatever bytes they consist of.

use mathlib.Core.List.Permᴰ
use mathlib.Core.List.{Memᴰ, Permᴰ, append_assoc}
use built_on_envoy.Prelude.{
  Bytes, bytes_eq, nat_eq, eq_iff, text, ◌==◌, Bool, true, false, ◌&&◌, [], ◌∷◌, ◌++◌, some, ◌≡◌,
  ◌≢◌, inl, inr, refl, sym, ap, ◌∙◌, subst, arith, if◌then◌else◌, All-append, Bool-cases, ltb,
  ltb→lt, cut_prefix_complete,
}
use built_on_envoy.Prelude.Sort.{sort_slice, by_key, sort_slice-perm, All-perm, mem-perm}
use built_on_envoy.Prelude.Escape.{query_escape, is_unreserved}
use built_on_envoy.Prelude.Query.{
  Pairs, AreBytes, ArePairs, encode_pair, encode_pairs, encode_values, parse_query,
  parse_query-encode_pairs, encode_pairs-append,
}
use built_on_envoy.TokenExchange.Config.{
  Settings, is_set, set_if, static_fields, actor_fields, apply_defaults, build_callout_headers,
  precompute, sts_post_body, default_subject_token_type, grant_type_token_exchange,
}
use built_on_envoy.TokenExchange.Handler.{
  callout, stop, stop_all_and_buffer, Metrics, increment_exchanges, send_local_resp_error,
  start_exchange, on_request_headers,
}

-- The settings that go into the form are byte strings.
pub record AreTexts (s : Settings) : Type 0 where
  pub subject_token_type : AreBytes s.subject_token_type
  pub resource : AreBytes s.resource
  pub audience : AreBytes s.audience
  pub scope : AreBytes s.scope
  pub requested_token_type : AreBytes s.requested_token_type
  pub actor_token : AreBytes s.actor_token
  pub actor_token_type : AreBytes s.actor_token_type

-- A test, which computes on a literal.
abbrev are_bytes : Bytes → Bool
are_bytes [] = true
are_bytes (c ∷ s) = ltb c 256 && are_bytes s

are_bytes_sound : (s : Bytes) → are_bytes s ≡ true → AreBytes s
are_bytes_sound [] h = tt
are_bytes_sound (c ∷ s) h = (ltb→lt c 256 (ground arith), are_bytes_sound s (ground arith))

set_if-ArePairs : (key value : Bytes) → AreBytes key → AreBytes value → ArePairs (set_if key value)
unfolding set_if
set_if-ArePairs key value h k = elim (Bool-cases (is_set value)) [
  | inl e ↦ rw e ((h, k), tt)
  | inr e ↦ rw e tt
]

apply_defaults-AreTexts : (s : Settings) → AreTexts s → AreTexts (apply_defaults s)
unfolding apply_defaults
apply_defaults-AreTexts s t = record {
  subject_token_type = elim (Bool-cases (s.subject_token_type == [])) [
    | inl e ↦ rw e (are_bytes_sound default_subject_token_type refl)
    | inr e ↦ rw e t.subject_token_type
  ];
  resource = t.resource;
  audience = t.audience;
  scope = t.scope;
  requested_token_type = t.requested_token_type;
  actor_token = t.actor_token;
  actor_token_type = t.actor_token_type;
}

actor_fields-ArePairs : (s : Settings) → AreTexts s → ArePairs (actor_fields s)
unfolding actor_fields
actor_fields-ArePairs s t = elim (Bool-cases (is_set s.actor_token)) [
  | inl e ↦ rw e (
    (are_bytes_sound (text "actor_token") refl, t.actor_token),
    ((are_bytes_sound (text "actor_token_type") refl, t.actor_token_type), tt),
  )
  | inr e ↦ rw e tt
]

static_fields-ArePairs : (s : Settings) → AreTexts s → ArePairs (static_fields s)
unfolding static_fields
static_fields-ArePairs s t = (
  (are_bytes_sound (text "grant_type") refl, are_bytes_sound grant_type_token_exchange refl),
  (
    (are_bytes_sound (text "subject_token_type") refl, t.subject_token_type),
    All-append _ (set_if (text "requested_token_type") s.requested_token_type) _
        (set_if-ArePairs _ _ (are_bytes_sound (text "requested_token_type") refl)
          t.requested_token_type)
        (All-append _ (set_if (text "audience") s.audience) _
          (set_if-ArePairs _ _ (are_bytes_sound (text "audience") refl) t.audience)
          (All-append _ (set_if (text "resource") s.resource) _
            (set_if-ArePairs _ _ (are_bytes_sound (text "resource") refl) t.resource)
            (All-append _ (set_if (text "scope") s.scope) _
              (set_if-ArePairs _ _ (are_bytes_sound (text "scope") refl) t.scope)
              (actor_fields-ArePairs s t)))),
  ),
)

sort_slice-cons :
    (less : Bytes × Bytes → Bytes × Bytes → Bool) (p : Bytes × Bytes) (ps : Pairs)
    → (q : Bytes × Bytes) × ((qs : Pairs) × (sort_slice less (p ∷ ps) ≡ q ∷ qs))
sort_slice-cons less p ps =
    filled (sort_slice less (p ∷ ps))
      (mem-perm (Permᴰ.symm (sort_slice-perm less (p ∷ ps))) (Memᴰ.head refl))
  where
    filled : (qs : Pairs) → Memᴰ p qs → (q : Bytes × Bytes) × ((rest : Pairs) × (qs ≡ q ∷ rest))
    filled [] m = elim m [ ]
    filled (q ∷ qs) m = (q, (qs, refl))

subject_pair :
    (token : Bytes)
    → encode_pair (text "subject_token", token) ≡ text "subject_token=" ++ query_escape token
unfolding encode_pair query_escape is_unreserved
subject_pair token = refl

-- Encoded values and the subject token behind them are encoded pairs.
encode_values-subject :
    (p : Bytes × Bytes) (ps : Pairs) (token : Bytes)
    → (qs : Pairs) × Permᴰ qs (p ∷ ps)
      × ((encode_values (p ∷ ps) ++ text "&subject_token=") ++ query_escape token
          ≡ encode_pairs (qs ++ ((text "subject_token", token) ∷ [])))
unfolding encode_values
encode_values-subject p ps token =
    let order = by_key (λ (r : Bytes × Bytes). r.0) in
    let (q, (qs, e)) = sort_slice-cons order p ps in
    (
      q ∷ qs,
      subst (λ rs. Permᴰ rs (p ∷ ps)) e (sort_slice-perm order (p ∷ ps)),
      ap (λ rs. (encode_pairs rs ++ text "&subject_token=") ++ query_escape token) e
          ∙ (append_assoc (encode_pairs (q ∷ qs)) (text "&subject_token=") (query_escape token)
              ∙ (ap (λ s. encode_pairs (q ∷ qs) ++ (b'&' ∷ s)) (sym (subject_pair token))
                  ∙ sym (encode_pairs-append q qs (text "subject_token", token)))),
    )

-- What is posted with a token, for accepted settings.
sts_post_body-fields :
    (s : Settings) (host path token : Bytes)
    → AreTexts s
    → AreBytes token
    → (qs : Pairs) × Permᴰ qs (static_fields (apply_defaults s))
      × (parse_query (sts_post_body (precompute s host path) token)
          ≡ some (qs ++ ((text "subject_token", token) ∷ [])))
unfolding sts_post_body precompute static_fields
sts_post_body-fields s host path token t h =
    let texts = static_fields-ArePairs (apply_defaults s) (apply_defaults-AreTexts s t) in
    let (qs, p, e) = encode_values-subject (text "grant_type", grant_type_token_exchange) _ token in
    let pairs : ArePairs (qs ++ ((text "subject_token", token) ∷ [])) =
      All-append _ qs _ (All-perm _ (Permᴰ.symm p) texts)
        ((are_bytes_sound (text "subject_token") refl, h), tt) in
    (
      qs,
      p,
      ap parse_query e
          ∙ parse_query-encode_pairs (qs ++ ((text "subject_token", token) ∷ [])) pairs,
    )

-- A request with a bearer token causes one callout, to the configured cluster, whether it starts or not; its
-- body is parsed to the fields of the configuration, in some order, and then the token of the request. If it
-- starts, nothing is answered yet, and else the answer is 502.
pub on_request_headers-callout :
    (m : Metrics) (s : Settings) (host path token : Bytes) (started : Bool)
    → AreTexts s
    → AreBytes token
    → token ≢ []
    → (body : Bytes) × (on_request_headers m
          (precompute s host path)
          started
          (text "Bearer " ++ token)
        ≡ (if started
            then (
              callout s.cluster
                    (build_callout_headers (apply_defaults s) host path)
                    body
                    (apply_defaults s).timeout_ms
                  ∷ increment_exchanges m,
              stop_all_and_buffer,
            )
            else (
              callout s.cluster
                    (build_callout_headers (apply_defaults s) host path)
                    body
                    (apply_defaults s).timeout_ms
                  ∷ send_local_resp_error 502 (text "token exchange unavailable")
                  ∷ [],
              stop,
            )))
      × ((fields : Pairs) × Permᴰ fields (static_fields (apply_defaults s))
          × (parse_query body ≡ some (fields ++ ((text "subject_token", token) ∷ []))))
unfolding on_request_headers start_exchange precompute apply_defaults
on_request_headers-callout m s host path token started t h n =
    let filled : (token == []) ≡ false = elim (Bool-cases (token == [])) [
      | inl e ↦ absurd (n ((eq_iff token []).0 e))
      | inr e ↦ e
    ] in
    let given : ((text "Bearer " ++ token) == []) ≡ false =
      ground (arith, eq_iff (text "Bearer " ++ token) []) in
    (
      sts_post_body (precompute s host path) token,
      rw (given, on_request_headers, cut_prefix_complete (text "Bearer ") token, filled) refl,
      sts_post_body-fields s host path token t h,
    )
