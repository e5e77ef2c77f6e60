-- ===== src/TokenExchange/Tests.antt =====
-- The theorems on token-exchange at a concrete configuration.
use mathlib.Core.List.{Permᴰ}
use built_on_envoy.Prelude.{
  arith, Bytes, bytes_eq, text, ◌==◌, true, false, Option, none, some, List, [], ◌∷◌, ◌++◌, ◌≡◌,
  ◌≢◌, ◌⊎◌, inl, inr, refl, ap, if◌then◌else◌, has_prefix,
}
use built_on_envoy.Prelude.Query.{Pairs, parse_query}
use built_on_envoy.TokenExchange.Config.{
  Settings, Url, ConfigError, invalid, parsed, with_scheme, parse_config, precompute,
  apply_defaults, static_fields, build_callout_headers,
}
use built_on_envoy.TokenExchange.Valid.{IsValid, parse_config_cases}
use built_on_envoy.TokenExchange.Handler.{
  Metrics, callout_success, TokenResponse, callout, stop, stop_all_and_buffer, increment_exchanges,
  send_local_resp_error, on_request_headers, on_http_callout_done,
}
use built_on_envoy.TokenExchange.Body.{AreTexts, on_request_headers-callout}
use built_on_envoy.TokenExchange.Outcome.{
  Ends, on_request_headers-refused, on_http_callout_done_outcome,
}

abbrev settings : Settings
settings = record {
  cluster = text "sts";
  token_exchange_url = text "sts.io/token";
  client_id = text "me";
  client_secret = text "pw";
  subject_token_type = text "jwt";
  resource = [];
  audience = text "a";
  scope = [];
  requested_token_type = [];
  actor_token = [];
  actor_token_type = [];
  timeout_ms = 0;
}

abbrev unmarshal : Bytes → Option Settings
unmarshal s = some settings

abbrev parse_url : Bytes → Option Url
parse_url s =
    if s == text "scheme://sts.io/token"
    then some record {
      scheme = text "scheme";
      host = text "sts.io";
      path = text "/token";
      fragment = [];
      request_uri = text "/token";
    }
    else none

parse_config_cases_example :
    ((e : ConfigError) × (errors : List ConfigError) × (parse_config parse_url unmarshal (text "x")
        ≡ invalid (e ∷ errors))
      × (¬ IsValid parse_url settings))
    ⊎ (IsValid parse_url settings
        × ((u : Url) × (parse_url (with_scheme parse_url (text "sts.io/token")) ≡ some u)
            × (parse_config parse_url unmarshal (text "x")
                ≡ parsed (precompute settings u.host u.request_uri))))
parse_config_cases_example = parse_config_cases parse_url unmarshal b'x' [] settings refl

abbrev metrics : Metrics
metrics = record { has_exchanges = true; has_exchange_results = true }

texts : AreTexts settings
texts = record {
  subject_token_type = (omega arith, (omega arith, (omega arith, tt)));
  resource = tt;
  audience = (omega arith, tt);
  scope = tt;
  requested_token_type = tt;
  actor_token = tt;
  actor_token_type = tt;
}

on_request_headers-callout_example :
    (body : Bytes) × (on_request_headers metrics
        (precompute settings (text "sts.io") (text "/token"))
        true
        (text "Bearer " ++ text "t&")
      ≡ (if true
          then (
            callout
                  (text "sts")
                  (build_callout_headers (apply_defaults settings) (text "sts.io") (text "/token"))
                  body
                  (apply_defaults settings).timeout_ms
                ∷ increment_exchanges metrics,
            stop_all_and_buffer,
          )
          else (
            callout
                  (text "sts")
                  (build_callout_headers (apply_defaults settings) (text "sts.io") (text "/token"))
                  body
                  (apply_defaults settings).timeout_ms
                ∷ send_local_resp_error 502 (text "token exchange unavailable")
                ∷ [],
            stop,
          )))
    × ((fields : Pairs) × Permᴰ fields (static_fields (apply_defaults settings))
        × (parse_query body ≡ some (fields ++ ((text "subject_token", text "t&") ∷ []))))
on_request_headers-callout_example =
    on_request_headers-callout metrics settings (text "sts.io") (text "/token") (text "t&") true
      texts (omega arith, (omega arith, tt)) (λ e. cc)

not_bearer : (token : Bytes) → text "Basic x" ≢ text "Bearer " ++ token
unfolding has_prefix
not_bearer token e = let h : false ≡ true = ap (λ s. has_prefix s (text "Be")) e in cc h

on_request_headers-refused_example :
    (msg : Bytes) × (on_request_headers metrics (precompute settings [] []) true (text "Basic x")
      ≡ (send_local_resp_error 401 msg ∷ [], stop))
on_request_headers-refused_example =
    on_request_headers-refused metrics (precompute settings [] []) true (text "Basic x")
      (λ token n. not_bearer token)

abbrev unmarshal_token : Bytes → Bytes ⊎ TokenResponse
unmarshal_token s =
    if s == text "{}"
    then inr record {
      access_token = text "new";
      token_type = text "Bearer";
      issued_token_type = text "jwt";
    }
    else inl (text "bad")

on_http_callout_done_outcome_example :
    Ends unmarshal_token metrics callout_success
      ((text ":status", text "200") ∷ [])
      (text "{" ∷ text "}" ∷ [])
      (on_http_callout_done unmarshal_token metrics callout_success
        ((text ":status", text "200") ∷ [])
        (text "{" ∷ text "}" ∷ []))
on_http_callout_done_outcome_example =
    on_http_callout_done_outcome unmarshal_token metrics callout_success
      ((text ":status", text "200") ∷ []) (text "{" ∷ text "}" ∷ [])
