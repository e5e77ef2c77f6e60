-- ===== src/TokenExchange/Outcome.antt =====
-- How token-exchange answers: requests without a bearer token, and the responses of the service.
use built_on_envoy.Prelude.{
  ℕ, Bytes, bytes_eq, nat_eq, eq_iff, text, ◌==◌, Bool, false, List, [], ◌∷◌, ◌++◌, ◌≡◌, ◌≢◌, ◌⊎◌,
  inl, inr, refl, sym, ap, ◌∙◌, subst, arith, Bool-cases, Option-cases, Sum-cases, ne_of_test,
  cut_prefix, cut_prefix_sound,
}
use built_on_envoy.TokenExchange.Config.{TokenExchangeConfig}
use built_on_envoy.TokenExchange.Handler.{
  Effect, set_header, continue_request, stop, Metrics, CalloutResult, callout_success,
  callout_failure, TokenResponse, join_body, header_value, send_local_resp_error,
  increment_exchange_result, on_request_headers, is_not_applicable, use_token, read_token,
  check_status, on_http_callout_done,
}

-- A request whose authorization header is not `Bearer ` and a token is answered with 401, and stops there: no
-- callout is made.
pub on_request_headers-refused :
    (m : Metrics) (c : TokenExchangeConfig) (started : Bool) (auth_header : Bytes)
    → ((token : Bytes) → token ≢ [] → auth_header ≢ text "Bearer " ++ token)
    → (msg : Bytes) × (on_request_headers m c started auth_header
        ≡ (send_local_resp_error 401 msg ∷ [], stop))
unfolding on_request_headers
on_request_headers-refused m c started auth_header n = elim (Bool-cases (auth_header == [])) [
  | inl e ↦ (text "missing Authorization header", rw (e, on_request_headers) refl)
  | inr e ↦ elim (Option-cases (cut_prefix auth_header (text "Bearer "))) [
    | inl f ↦ (text "invalid Authorization header", rw (e, on_request_headers, f) refl)
    | inr (token, f) ↦ elim (Bool-cases (token == [])) [
      | inl g ↦ (text "empty bearer token", rw (e, on_request_headers, f, g) refl)
      | inr g ↦ absurd (
          n token (λ k. ground (arith, eq_iff token []))
            (cut_prefix_sound auth_header (text "Bearer ") token f))
    ]
  ]
]

-- A token response that can be used.
abbrev pub IsUsable : TokenResponse → Type 0
IsUsable t =
    (t.access_token ≢ [])
    × (t.token_type ≢ [])
    × (t.issued_token_type ≢ [])
    × (is_not_applicable t.token_type ≡ false)

module _ (unmarshal_token : Bytes → Bytes ⊎ TokenResponse) where
  -- The callout succeeds with status 200 and a usable token.
  abbrev pub IsExchanged :
      CalloutResult → List (Bytes × Bytes) → List Bytes → TokenResponse → Type 0
  IsExchanged result headers body t =
      (result ≡ callout_success)
      × (header_value headers (text ":status") ≡ text "200")
      × (unmarshal_token (join_body body) ≡ inr t)
      × IsUsable t

-- The callout succeeds with a status of 4xx.
abbrev pub IsRejected : CalloutResult → List (Bytes × Bytes) → Type 0
IsRejected result headers =
    (result ≡ callout_success)
    × ((rest : Bytes) × (header_value headers (text ":status") ≡ b'4' ∷ rest))

-- One error is counted, and the answer is 502.
abbrev pub IsFailed : Metrics → List Effect → Type 0
IsFailed m effects =
    (msg : Bytes) × (effects
      ≡ increment_exchange_result m (text "error") ++ (send_local_resp_error 502 msg ∷ []))

abbrev pub replaced : Metrics → TokenResponse → List Effect
replaced m t =
    set_header (text "authorization") (t.token_type ++ (b' ' ∷ t.access_token))
    ∷ (increment_exchange_result m (text "success") ++ (continue_request ∷ []))

use_token_cases :
    (m : Metrics) (t : TokenResponse)
    → (IsUsable t × (use_token m t ≡ replaced m t)) ⊎ ((¬ IsUsable t) × IsFailed m (use_token m t))
unfolding use_token
use_token_cases m t = elim (Bool-cases (t.access_token == [])) [
  | inl e ↦ rw (e, use_token) (inr ((λ u. u.0 ((eq_iff t.access_token []).0 e)), (_, refl)))
  | inr e ↦ elim (Bool-cases (t.token_type == [])) [
    | inl f ↦ rw (e, use_token, f) (inr ((λ u. u.1 ((eq_iff t.token_type []).0 f)), (_, refl)))
    | inr f ↦ elim (Bool-cases (t.issued_token_type == [])) [
      | inl g ↦
          rw (e, use_token, f, g)
            (inr ((λ u. u.2 ((eq_iff t.issued_token_type []).0 g)), (_, refl)))
      | inr g ↦ elim (Bool-cases (is_not_applicable t.token_type)) [
        | inl k ↦ rw (e, use_token, f, g, k) (inr ((λ u. cc (u.3)), (_, refl)))
        | inr k ↦
            rw (e, use_token, f, g, k)
              (inl (
                (
                  ne_of_test t.access_token [] e,
                  ne_of_test t.token_type [] f,
                  ne_of_test t.issued_token_type [] g,
                  refl,
                ),
                refl,
              ))
      ]
    ]
  ]
]

module _ (unmarshal_token : Bytes → Bytes ⊎ TokenResponse) where
  -- The three ways in which a callout ends.
  abbrev pub Ends :
      Metrics → CalloutResult → List (Bytes × Bytes) → List Bytes → List Effect → Type 0
  Ends m result headers body effects =
      ((t : TokenResponse) × IsExchanged unmarshal_token result headers body t
        × (effects ≡ replaced m t))
      ⊎ (IsRejected result headers
          × ((msg : Bytes) × (effects
                ≡ increment_exchange_result m (text "rejected")
                  ++ (send_local_resp_error 401 msg ∷ []))))
      ⊎ (((t : TokenResponse) → ¬ IsExchanged unmarshal_token result headers body t)
          × (¬ IsRejected result headers)
          × IsFailed m effects)

  no_other_status :
      (headers : List (Bytes × Bytes)) (status : Bytes)
      → header_value headers (text ":status") ≡ status
      → status ≢ text "200"
      → (body : List Bytes) (t : TokenResponse)
      → ¬ IsExchanged unmarshal_token callout_success headers body t
  no_other_status headers status h n body t x = n (sym h ∙ x.1)

  not-IsRejected :
      (headers : List (Bytes × Bytes)) (c : ℕ) (status : Bytes)
      → header_value headers (text ":status") ≡ c ∷ status
      → (c == b'4') ≡ false
      → ¬ IsRejected callout_success headers
  not-IsRejected headers c status h e (f, (rest, g)) =
      let same : c ≡ b'4' = cc (h, g) in ground (arith, eq_iff c b'4')

  -- The status is 200.
  read_token_cases :
      (m : Metrics) (headers : List (Bytes × Bytes)) (body : List Bytes)
      → header_value headers (text ":status") ≡ text "200"
      → (¬ IsRejected callout_success headers)
      → Ends m callout_success headers body (read_token unmarshal_token m (join_body body))
  unfolding read_token
  read_token_cases m headers body h n = elim (Sum-cases (unmarshal_token (join_body body))) [
    | inl (err, e) ↦ rw (e, read_token) (inr (inr ((λ t x. cc (x.2)), n, (_, refl))))
    | inr (t, e) ↦ elim (use_token_cases m t) [
      | inl (usable, f) ↦ rw (e, read_token) (inl (t, (refl, h, refl, usable), f))
      | inr (unusable, f) ↦
          rw (e, read_token)
            (inr (inr ((λ r x. unusable (subst IsUsable (inr_eq t r x.2) x.3)), n, f)))
    ]
  ]
    where
      inr_eq : (t r : TokenResponse) → Path (Bytes ⊎ TokenResponse) (inr t) (inr r) → r ≡ t
      inr_eq t r h = cc

  check_status_cases :
      (m : Metrics) (headers : List (Bytes × Bytes)) (body : List Bytes) (status : Bytes)
      → header_value headers (text ":status") ≡ status
      → Ends m callout_success headers body (check_status unmarshal_token m status (join_body body))
  unfolding check_status
  check_status_cases m headers body [] h =
      inr (inr ((λ t x. cc (h, x.1)), (λ r. cc (h, r.1.1)), (_, refl)))
  check_status_cases m headers body (c ∷ status) h = elim (Bool-cases (c == b'4')) [
    | inl e ↦
        rw (e, check_status)
          (inr (inl ((refl, (status, h ∙ ap (λ k. k ∷ status) ((eq_iff c b'4').0 e))), (_, refl))))
    | inr e ↦ elim (Bool-cases ((c ∷ status) == text "200")) [
      | inl f ↦
          let same : c ∷ status ≡ text "200" = (eq_iff (c ∷ status) (text "200")).0 f in
          rw (e, check_status, f)
            (read_token_cases m headers body (h ∙ same) (not-IsRejected headers c status h e))
      | inr f ↦
          let other : c ∷ status ≢ text "200" =
            λ k. ground (arith, eq_iff (c ∷ status) (text "200")) in
          rw (e, check_status, f)
            (inr (
              inr (
                no_other_status headers (c ∷ status) h other body,
                not-IsRejected headers c status h e,
                (_, refl),
              )))
    ]
  ]

  -- Whatever the service answers, the request goes on exactly if the token is exchanged: with the new token in
  -- its authorization header, and counted as a success. Else one local response is sent and the headers stay
  -- as they are: 401, counted as rejected, if the service answers 4xx, and 502, counted as an error, in all
  -- other cases.
  pub on_http_callout_done_outcome :
      (m : Metrics) (result : CalloutResult) (headers : List (Bytes × Bytes)) (body : List Bytes)
      → Ends m result headers body (on_http_callout_done unmarshal_token m result headers body)
  unfolding on_http_callout_done
  on_http_callout_done_outcome m (callout_failure reason) headers body =
      inr (inr ((λ t x. cc (x.0)), (λ r. cc (r.0)), (_, refl)))
  on_http_callout_done_outcome m callout_success headers body =
      check_status_cases m headers body (header_value headers (text ":status")) refl
