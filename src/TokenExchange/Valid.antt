-- ===== src/TokenExchange/Valid.antt =====
-- Which configurations of token-exchange are accepted.
use built_on_envoy.Prelude.{
  ℕ, Bytes, bytes_eq, nat_eq, eq_iff, ◌==◌, Bool, true, false, not, ◌&&◌, ◌||◌, List, [], ◌∷◌,
  Option, none, some, ◌≡◌, ◌≢◌, ◌⊎◌, inl, inr, refl, arith, Bool-cases, Option-cases, append_eq_nil,
  ne_of_test, test_of_ne,
}
use built_on_envoy.TokenExchange.Config.{
  Settings, Url, ConfigError, missing_url, bad_url, missing_cluster, missing_client_id,
  missing_client_secret, bad_resource, parsed, invalid, error_if, is_set, with_scheme,
  is_absolute_uri, parse_token_exchange_url, url_errors, config_errors, accept, parse_config,
  precompute,
}

abbrev pub IsReachable : (Bytes → Option Url) → Bytes → Type 0
IsReachable parse_url url =
    (url ≢ [])
    × ((u : Url) × (parse_url (with_scheme parse_url url) ≡ some u) × (u.host ≢ []) × (u.path ≢ []))

abbrev pub IsAbsoluteUri : (Bytes → Option Url) → Bytes → Type 0
IsAbsoluteUri parse_url resource =
    (u : Url) × (parse_url resource ≡ some u) × (u.scheme ≢ []) × (u.fragment ≡ [])

-- What is required of a configuration.
pub record IsValid (parse_url : Bytes → Option Url) (s : Settings) : Type 0 where
  pub has_cluster : s.cluster ≢ []
  pub url : IsReachable parse_url s.token_exchange_url
  pub has_client_id : s.client_id ≢ []
  pub has_client_secret : s.client_secret ≢ []
  pub resource_uri : s.resource ≢ [] → IsAbsoluteUri parse_url s.resource
  pub actor : s.actor_token ≢ [] → s.actor_token_type ≢ []

List-cases {ℓ} :
    {A : Type ℓ} (xs : List A) → (xs ≡ []) ⊎ ((x : A) × ((others : List A) × (xs ≡ x ∷ others)))
List-cases [] = inl refl
List-cases (x ∷ xs) = inr (x, (xs, refl))

error_if_nil : (b : Bool) (e : ConfigError) → error_if b e ≡ [] → b ≡ false
error_if_nil true e h = cc
error_if_nil false e h = refl

module _ (parse_url : Bytes → Option Url) where
  -- An error, or the host and the request URI of the URL.
  UrlCases : Bytes → Type 0
  UrlCases url =
      ((e : ConfigError) × (parse_token_exchange_url parse_url url ≡ inl e)
        × (¬ IsReachable parse_url url))
      ⊎ (IsReachable parse_url url
          × ((u : Url) × (parse_url (with_scheme parse_url url) ≡ some u)
              × (parse_token_exchange_url parse_url url ≡ inr (u.host, u.request_uri))))

  parse_token_exchange_url-UrlCases : (url : Bytes) → UrlCases url
  unfolding UrlCases parse_token_exchange_url
  parse_token_exchange_url-UrlCases url = elim (Bool-cases (url == [])) [
    | inl e ↦
        inl (missing_url, rw (e, parse_token_exchange_url) refl, λ r. r.0 ((eq_iff url []).0 e))
    | inr e ↦ elim (Option-cases (parse_url (with_scheme parse_url url))) [
      | inl f ↦ inl (bad_url url, rw (e, parse_token_exchange_url, f) refl, λ r. unparsed r f)
      | inr (u, f) ↦ elim (Bool-cases ((u.host == []) || (u.path == []))) [
        | inl g ↦ inl (
          bad_url url,
          rw (e, parse_token_exchange_url, f, g) refl,
          λ r. no_host_and_path u r f g,
        )
        | inr g ↦ inr (
          (
            ne_of_test url [] e,
            (u, f, ne_of_test u.host [] (ground arith), ne_of_test u.path [] (ground arith)),
          ),
          (u, f, rw (e, parse_token_exchange_url, f, g) refl),
        )
      ]
    ]
  ]
    where
      unparsed : IsReachable parse_url url → parse_url (with_scheme parse_url url) ≡ none → ⊥
      unparsed (filled, (v, k, host, path)) f = cc (f, k)

      no_host_and_path :
          (u : Url)
          → IsReachable parse_url url
          → parse_url (with_scheme parse_url url) ≡ some u
          → ((u.host == []) || (u.path == [])) ≡ true
          → ⊥
      no_host_and_path u (filled, (v, k, host, path)) f g =
          let same : v ≡ u = ground arith in
          ground (arith, test_of_ne v.host [] host, test_of_ne v.path [] path)

  is_absolute_uri_sound :
      (resource : Bytes)
      → is_absolute_uri parse_url resource ≡ true
      → IsAbsoluteUri parse_url resource
  unfolding is_absolute_uri is_set
  is_absolute_uri_sound resource h = elim (Option-cases (parse_url resource)) [
    | inl e ↦ absurd (cc (rw (is_absolute_uri, e) at h))
    | inr (u, e) ↦
        let tests : (not (u.scheme == []) && (u.fragment == [])) ≡ true =
          rw (is_absolute_uri, e) at h in
        (u, e, ne_of_test u.scheme [] (ground arith), (eq_iff u.fragment []).0 (ground arith))
  ]

  is_absolute_uri_complete :
      (resource : Bytes)
      → IsAbsoluteUri parse_url resource
      → is_absolute_uri parse_url resource ≡ true
  unfolding is_absolute_uri is_set
  is_absolute_uri_complete resource (u, e, scheme, fragment) =
      rw (e, is_absolute_uri, test_of_ne u.scheme [] scheme, (eq_iff u.fragment []).1 fragment) refl

  config_errors_sound :
      (s : Settings)
      → IsReachable parse_url s.token_exchange_url
      → config_errors parse_url s ≡ []
      → IsValid parse_url s
  unfolding config_errors is_set
  config_errors_sound s r h =
      let (cluster, h1) = append_eq_nil (error_if (s.cluster == []) missing_cluster) _ h in
      let (url, h2) =
        append_eq_nil
          (url_errors parse_url (parse_token_exchange_url parse_url s.token_exchange_url)) _ h1 in
      let (client_id, h3) = append_eq_nil (error_if (s.client_id == []) missing_client_id) _ h2 in
      let (client_secret, h4) =
        append_eq_nil (error_if (s.client_secret == []) missing_client_secret) _ h3 in
      let (resource, actor) =
        append_eq_nil
          (error_if (is_set s.resource && not (is_absolute_uri parse_url s.resource))
            (bad_resource s.resource))
          _ h4 in
      let no_bad_resource =
        error_if_nil (is_set s.resource && not (is_absolute_uri parse_url s.resource)) _ resource in
      let no_bad_actor =
        error_if_nil (is_set s.actor_token && (s.actor_token_type == [])) _ actor in
      record {
        has_cluster = ne_of_test s.cluster [] (error_if_nil (s.cluster == []) _ cluster);
        url = r;
        has_client_id = ne_of_test s.client_id [] (error_if_nil (s.client_id == []) _ client_id);
        has_client_secret =
            ne_of_test s.client_secret [] (error_if_nil (s.client_secret == []) _ client_secret);
        resource_uri =
            λ n. is_absolute_uri_sound s.resource (ground (arith, test_of_ne s.resource [] n));
        actor =
            λ n. ne_of_test s.actor_token_type [] (ground (arith, test_of_ne s.actor_token [] n));
      }

  resource_test :
      (resource : Bytes)
      → (resource ≢ [] → IsAbsoluteUri parse_url resource)
      → (is_set resource && not (is_absolute_uri parse_url resource)) ≡ false
  unfolding is_set
  resource_test resource f = elim (Bool-cases (resource == [])) [
    | inl e ↦ rw e refl
    | inr e ↦ rw (e, is_absolute_uri_complete resource (f (ne_of_test resource [] e))) refl
  ]

  actor_test :
      (token kind : Bytes) → (token ≢ [] → kind ≢ []) → (is_set token && (kind == [])) ≡ false
  unfolding is_set
  actor_test token kind f = elim (Bool-cases (token == [])) [
    | inl e ↦ rw e refl
    | inr e ↦ rw (e, test_of_ne kind [] (f (ne_of_test token [] e))) refl
  ]

  config_errors_complete :
      (s : Settings) (u : Bytes × Bytes)
      → IsValid parse_url s
      → parse_token_exchange_url parse_url s.token_exchange_url ≡ inr u
      → config_errors parse_url s ≡ []
  unfolding config_errors
  config_errors_complete s u v h =
      rw
        (
          test_of_ne s.cluster [] v.has_cluster,
          config_errors,
          h,
          test_of_ne s.client_id [] v.has_client_id,
          test_of_ne s.client_secret [] v.has_client_secret,
          resource_test s.resource v.resource_uri,
          actor_test s.actor_token s.actor_token_type v.actor,
        )
        refl

  -- A configuration that decodes is either refused, with at least one error, and is not valid; or it is valid
  -- and is accepted, with its defaults, and with the host and the request URI that its URL is parsed to.
  pub parse_config_cases :
      (unmarshal : Bytes → Option Settings) (byte : ℕ) (rest : Bytes) (s : Settings)
      → unmarshal (byte ∷ rest) ≡ some s
      → ((e : ConfigError) × (errors : List ConfigError) × (parse_config parse_url unmarshal
              (byte ∷ rest)
            ≡ invalid (e ∷ errors))
          × (¬ IsValid parse_url s))
        ⊎ (IsValid parse_url s
            × ((u : Url) × (parse_url (with_scheme parse_url s.token_exchange_url) ≡ some u)
                × (parse_config parse_url unmarshal (byte ∷ rest)
                    ≡ parsed (precompute s u.host u.request_uri))))
  unfolding UrlCases parse_config
  parse_config_cases unmarshal byte rest s h =
      elim (parse_token_exchange_url-UrlCases s.token_exchange_url) [
        | inl (e, f, unreachable) ↦
            let (first, (others, g)) = refused_with (config_errors parse_url s) e in
            inl (first, others, rw (h, parse_config, f) g, λ v. unreachable v.url)
        | inr (reachable, (u, f, g)) ↦ elim (List-cases (config_errors parse_url s)) [
          | inl e ↦ inr (config_errors_sound s reachable e, (u, f, rw (h, parse_config, e, g) refl))
          | inr (first, (others, e)) ↦ inl (
            first,
            others,
            rw (h, parse_config, e) refl,
            λ v. cc (e, config_errors_complete s (u.host, u.request_uri) v g),
          )
        ]
      ]
    where
      refused_with :
          (errors : List ConfigError) (e : ConfigError)
          → (first : ConfigError) × ((others : List ConfigError) × (accept parse_url s errors
                  (inl e)
                ≡ invalid (first ∷ others)))
      refused_with [] e = (e, ([], refl))
      refused_with (x ∷ xs) e = (x, (xs, refl))
