-- ===== src/TokenExchange/Handler.antt =====
-- token-exchange/plugin.go: `OnRequestHeaders` and `OnHttpCalloutDone`. A handler yields what it does, in
-- order; logs are left out. Whether Envoy starts the callout, decoding of JSON, and how fmt prints a callout
-- result are parameters.
use built_on_envoy.Prelude.{
  ℕ, Bytes, bytes_eq, nat_eq, text, ◌==◌, Bool, not, ◌&&◌, List, [], ◌∷◌, ◌++◌, none, some, ◌⊎◌,
  inl, inr, if◌then◌else◌, cut_prefix, leb, map, ◌-◌,
}
use built_on_envoy.TokenExchange.Config.{TokenExchangeConfig, sts_post_body}

pub data Effect : Type 0 where
  -- status and message
  local_response : ℕ → List (Bytes × Bytes) → Bytes → Effect
  -- cluster, headers, body, timeout
  callout : Bytes → List (Bytes × Bytes) → Bytes → ℕ → Effect
  count_exchange : Effect
  count_result : Bytes → Effect
  set_header : Bytes → Bytes → Effect
  continue_request : Effect

pub data HeadersStatus : Type 0 where
  stop : HeadersStatus
  stop_all_and_buffer : HeadersStatus

-- Which of the two metrics could be defined.
pub record Metrics : Type 0 where
  pub has_exchanges : Bool
  pub has_exchange_results : Bool

pub data CalloutResult : Type 0 where
  callout_success : CalloutResult
  callout_failure : Bytes → CalloutResult

pub record TokenResponse : Type 0 where
  pub access_token : Bytes
  pub token_type : Bytes
  pub issued_token_type : Bytes

-- bytes.Join(body, nil)
unfoldable pub join_body : List Bytes → Bytes
join_body [] = []
join_body (b ∷ body) = b ++ join_body body

unfoldable pub header_value : List (Bytes × Bytes) → Bytes → Bytes
header_value [] key = []
header_value ((name, value) ∷ headers) key = if name == key then value else header_value headers key

-- sendLocalRespError
unfoldable pub send_local_resp_error : ℕ → Bytes → Effect
send_local_resp_error status msg =
    local_response status ((text "content-type", text "text/plain") ∷ []) msg

unfoldable pub increment_exchanges : Metrics → List Effect
increment_exchanges m = if m.has_exchanges then count_exchange ∷ [] else []

unfoldable pub increment_exchange_result : Metrics → Bytes → List Effect
increment_exchange_result m result = if m.has_exchange_results then count_result result ∷ [] else []

abbrev refused : ℕ → Bytes → List Effect × HeadersStatus
refused status msg = (send_local_resp_error status msg ∷ [], stop)

-- The callout, with the token of the request.
unfoldable pub start_exchange :
    Metrics → TokenExchangeConfig → Bool → Bytes → List Effect × HeadersStatus
start_exchange m c started subject_token =
    let call =
      callout c.settings.cluster c.callout_headers (sts_post_body c subject_token)
        c.settings.timeout_ms in
    if started
    then (call ∷ increment_exchanges m, stop_all_and_buffer)
    else (call ∷ send_local_resp_error 502 (text "token exchange unavailable") ∷ [], stop)

-- OnRequestHeaders; `started` says whether the callout is started.
unfoldable pub on_request_headers :
    Metrics → TokenExchangeConfig → Bool → Bytes → List Effect × HeadersStatus
on_request_headers m c started auth_header =
    if auth_header == []
    then refused 401 (text "missing Authorization header")
    else elim (cut_prefix auth_header (text "Bearer ")) [
      | none ↦ refused 401 (text "invalid Authorization header")
      | some subject_token ↦
          if subject_token == []
          then refused 401 (text "empty bearer token")
          else start_exchange m c started subject_token
    ]

-- strings.EqualFold(s, "N_A"): no other letter folds to these
unfoldable pub fold_byte : ℕ → ℕ
fold_byte c = if leb b'a' c && leb c b'z' then c - 32 else c

unfoldable pub is_not_applicable : Bytes → Bool
is_not_applicable s = map fold_byte s == text "N_A"

abbrev pub error_effects : Metrics → Bytes → List Effect
error_effects m msg =
    increment_exchange_result m (text "error") ++ (send_local_resp_error 502 msg ∷ [])

-- The checks of the token response, and the new header.
unfoldable pub use_token : Metrics → TokenResponse → List Effect
use_token m t =
    if t.access_token == []
    then error_effects m (text "invalid token exchange response: missing required access_token")
    else if t.token_type == []
    then error_effects m (text "invalid token exchange response: missing required token_type")
    else if t.issued_token_type == []
    then error_effects m
        (text "invalid token exchange response: missing required issued_token_type")
    else if is_not_applicable t.token_type
    then error_effects m (text "invalid token exchange response: returned token_type N_A")
    else set_header (text "authorization") (t.token_type ++ (b' ' ∷ t.access_token))
      ∷ (increment_exchange_result m (text "success") ++ (continue_request ∷ []))

module _ (unmarshal_token : Bytes → Bytes ⊎ TokenResponse) where
  unfoldable pub read_token : Metrics → Bytes → List Effect
  read_token m full_body = elim (unmarshal_token full_body) [
    | inl err ↦ error_effects m (text "invalid token exchange response: " ++ err)
    | inr t ↦ use_token m t
  ]

  -- The branches on the status of the response.
  unfoldable pub check_status : Metrics → Bytes → Bytes → List Effect
  check_status m [] full_body = error_effects m (text "token exchange failed: invalid response")
  check_status m (c ∷ status) full_body =
      if c == b'4'
      then increment_exchange_result m (text "rejected")
        ++ (send_local_resp_error 401
              (text "token exchange rejected: STS returned " ++ (c ∷ status))
            ∷ [])
      else if not ((c ∷ status) == text "200")
      then error_effects m (text "token exchange error: STS returned " ++ (c ∷ status))
      else read_token m full_body

  -- OnHttpCalloutDone
  unfoldable pub on_http_callout_done :
      Metrics → CalloutResult → List (Bytes × Bytes) → List Bytes → List Effect
  on_http_callout_done m (callout_failure result) headers body =
      error_effects m (text "callout failed, result=" ++ result)
  on_http_callout_done m callout_success headers body =
      check_status m (header_value headers (text ":status")) (join_body body)
