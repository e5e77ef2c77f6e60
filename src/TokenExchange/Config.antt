-- ===== src/TokenExchange/Config.antt =====
-- token-exchange/config.go. Decoding of JSON and url.Parse are parameters; the values of the form, whose keys
-- are distinct, stand in the order in which they are set.
use built_on_envoy.Prelude.{
  ℕ, Bytes, bytes_eq, nat_eq, text, ◌==◌, Bool, false, not, ◌&&◌, ◌||◌, List, [], ◌∷◌, ◌++◌, Option,
  none, some, ◌⊎◌, inl, inr, if◌then◌else◌, contains_text,
}
use built_on_envoy.Prelude.Base64.{base64_encode}
use built_on_envoy.Prelude.Escape.{query_escape}
use built_on_envoy.Prelude.Query.{Pairs, encode_values}

-- The fields of tokenExchangeConfig that the JSON has.
pub record Settings : Type 0 where
  pub cluster : Bytes
  pub token_exchange_url : Bytes
  pub client_id : Bytes
  pub client_secret : Bytes
  pub subject_token_type : Bytes
  pub resource : Bytes
  pub audience : Bytes
  pub scope : Bytes
  pub requested_token_type : Bytes
  pub actor_token : Bytes
  pub actor_token_type : Bytes
  pub timeout_ms : ℕ

-- tokenExchangeConfig, with what is computed from the fields.
pub record TokenExchangeConfig : Type 0 where
  pub settings : Settings
  pub token_exchange_host : Bytes
  pub token_exchange_path : Bytes
  pub callout_headers : List (Bytes × Bytes)
  pub sts_post_body_prefix : Bytes

-- What the code reads of a parsed URL.
pub record Url : Type 0 where
  pub scheme : Bytes
  pub host : Bytes
  pub path : Bytes
  pub fragment : Bytes
  pub request_uri : Bytes

pub data ConfigError : Type 0 where
  missing_cluster : ConfigError
  missing_url : ConfigError
  bad_url : Bytes → ConfigError
  missing_client_id : ConfigError
  missing_client_secret : ConfigError
  bad_resource : Bytes → ConfigError
  missing_actor_token_type : ConfigError

-- No configuration, an error, or a configuration.
pub data ParseResult : Type 0 where
  no_config : ParseResult
  malformed : ParseResult
  invalid : List ConfigError → ParseResult
  parsed : TokenExchangeConfig → ParseResult

abbrev pub grant_type_token_exchange : Bytes
grant_type_token_exchange = text "urn:ietf:params:oauth:grant-type:token-exchange"

abbrev pub default_subject_token_type : Bytes
default_subject_token_type = text "urn:ietf:params:oauth:token-type:access_token"

abbrev pub default_timeout_ms : ℕ
default_timeout_ms = 5_000

unfoldable pub is_set : Bytes → Bool
is_set s = not (s == [])

abbrev pub error_if : Bool → ConfigError → List ConfigError
error_if b e = if b then e ∷ [] else []

-- static.Set(key, value), if the value is set
unfoldable pub set_if : Bytes → Bytes → Pairs
set_if key value = if is_set value then (key, value) ∷ [] else []

-- stsPostBody
unfoldable pub sts_post_body : TokenExchangeConfig → Bytes → Bytes
sts_post_body c subject_token = c.sts_post_body_prefix ++ query_escape subject_token

unfoldable pub apply_defaults : Settings → Settings
apply_defaults s = record {
  cluster = s.cluster;
  token_exchange_url = s.token_exchange_url;
  client_id = s.client_id;
  client_secret = s.client_secret;
  subject_token_type =
      if s.subject_token_type == [] then default_subject_token_type else s.subject_token_type;
  resource = s.resource;
  audience = s.audience;
  scope = s.scope;
  requested_token_type = s.requested_token_type;
  actor_token = s.actor_token;
  actor_token_type = s.actor_token_type;
  timeout_ms = if s.timeout_ms == 0 then default_timeout_ms else s.timeout_ms;
}

unfoldable pub actor_fields : Settings → Pairs
actor_fields s =
    if is_set s.actor_token
    then (text "actor_token", s.actor_token) ∷ (text "actor_token_type", s.actor_token_type) ∷ []
    else []

unfoldable pub static_fields : Settings → Pairs
static_fields s =
    (text "grant_type", grant_type_token_exchange)
    ∷ (text "subject_token_type", s.subject_token_type)
    ∷ (set_if (text "requested_token_type") s.requested_token_type
        ++ (set_if (text "audience") s.audience
            ++ (set_if (text "resource") s.resource
                ++ (set_if (text "scope") s.scope ++ actor_fields s))))

unfoldable pub build_callout_headers : Settings → Bytes → Bytes → List (Bytes × Bytes)
build_callout_headers s host path =
    (text ":method", text "POST")
    ∷ (text ":path", path)
    ∷ (text "host", host)
    ∷ (text "content-type", text "application/x-www-form-urlencoded")
    ∷ (
      text "authorization",
      text "Basic " ++ base64_encode (s.client_id ++ (b':' ∷ s.client_secret)),
    )
    ∷ []

-- What is computed from the settings, once they are accepted.
unfoldable pub precompute : Settings → Bytes → Bytes → TokenExchangeConfig
precompute s host path =
    let defaulted = apply_defaults s in
    record {
      settings = defaulted;
      token_exchange_host = host;
      token_exchange_path = path;
      callout_headers = build_callout_headers defaulted host path;
      sts_post_body_prefix = encode_values (static_fields defaulted) ++ text "&subject_token=";
    }

module _ (parse_url : Bytes → Option Url) where
  unfoldable pub with_scheme : Bytes → Bytes
  with_scheme url = if contains_text url (text "://") then url else text "scheme://" ++ url

  -- parseTokenExchangeURL: the error, or the host and the path
  unfoldable pub parse_token_exchange_url : Bytes → ConfigError ⊎ (Bytes × Bytes)
  parse_token_exchange_url url =
      if url == [] then inl missing_url else elim (parse_url (with_scheme url)) [
        | none ↦ inl (bad_url url)
        | some u ↦
            if (u.host == []) || (u.path == [])
            then inl (bad_url url)
            else inr (u.host, u.request_uri)
      ]

  unfoldable pub is_absolute_uri : Bytes → Bool
  is_absolute_uri resource = elim (parse_url resource) [
    | none ↦ false
    | some u ↦ is_set u.scheme && (u.fragment == [])
  ]

  abbrev pub url_errors : ConfigError ⊎ (Bytes × Bytes) → List ConfigError
  url_errors (inl e) = e ∷ []
  url_errors (inr u) = []

  unfoldable pub config_errors : Settings → List ConfigError
  config_errors s =
      error_if (s.cluster == []) missing_cluster
      ++ (url_errors (parse_token_exchange_url s.token_exchange_url)
          ++ (error_if (s.client_id == []) missing_client_id
              ++ (error_if (s.client_secret == []) missing_client_secret
                  ++ (error_if (is_set s.resource && not (is_absolute_uri s.resource))
                        (bad_resource s.resource)
                      ++ error_if (is_set s.actor_token && (s.actor_token_type == []))
                          missing_actor_token_type))))

  abbrev pub accept : Settings → List ConfigError → ConfigError ⊎ (Bytes × Bytes) → ParseResult
  accept s (e ∷ errors) url = invalid (e ∷ errors)
  accept s [] (inl e) = invalid (e ∷ [])
  accept s [] (inr (host, path)) = parsed (precompute s host path)

  -- parseConfig
  unfoldable pub parse_config : (Bytes → Option Settings) → Bytes → ParseResult
  parse_config unmarshal [] = no_config
  parse_config unmarshal (c ∷ data_) = elim (unmarshal (c ∷ data_)) [
    | none ↦ malformed
    | some s ↦ accept s (config_errors s) (parse_token_exchange_url s.token_exchange_url)
  ]

-- CreatePerRoute: a configuration, or an error
unfoldable pub create_per_route : ParseResult → Option TokenExchangeConfig
create_per_route no_config = none
create_per_route malformed = none
create_per_route (invalid errors) = none
create_per_route (parsed c) = some c

-- Create of the filter factory: the configuration of a new filter, which is empty without one
unfoldable pub choose_config :
    Option TokenExchangeConfig → Option TokenExchangeConfig → Option TokenExchangeConfig
choose_config global (some per_route) = some per_route
choose_config global none = global
