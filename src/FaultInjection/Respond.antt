-- ===== src/FaultInjection/Respond.antt =====
-- The response side of dynamic-fault-injection/plugin.go: `OnResponseHeaders`, the local response and the
-- attributes that are put on headers. A handler yields an action, in place of its calls of the SDK and of
-- the goroutine that sleeps. Span tags, which repeat the headers, are not modelled. Header names are ASCII.
use built_on_envoy.Prelude.{
  ℕ, ◌+◌, Option, none, some, Bool, false, ◌&&◌, ◌||◌, Bytes, bytes_eq, text, ◌==◌, List, [], ◌∷◌,
  ◌++◌, if◌then◌else◌, ltb, leb,
}
use built_on_envoy.Prelude.Int.{ℤ, pos, ◌-ℤ◌, ltb_ℤ, eqb_ℤ}
use built_on_envoy.FaultInjection.Response.{
  ResponseSample, LocalResponseConfig, LocalResponseHeader,
}
use built_on_envoy.FaultInjection.Filter.{Filter}

-- faultAttributes
pub record Attributes : Type 0 where
  pub requests_in_flight : ℤ
  pub added_delay : Bytes
  pub actual_upstream : Bytes
  pub injected_delay : Bytes
  pub injected : Bytes
  pub status : Bytes
  pub upstream_status : Bytes
  pub worker_index : Bytes

pub record LocalResponse : Type 0 where
  pub status : ℕ
  pub body : Bytes
  pub headers : List (Bytes × Bytes)
  pub details : Bytes

-- What happens to the response: it goes on with headers set, at once or after a delay, or a local response
-- takes its place, at once or after a delay.
pub data Action : Type 0 where
  continue_with : List (Bytes × Bytes) → Action
  continue_after : ℤ → List (Bytes × Bytes) → Action
  send_local : LocalResponse → Action
  send_local_after : ℤ → LocalResponse → Action

-- max of the built-ins
abbrev pub max_ℤ : ℤ → ℤ → ℤ
max_ℤ a b = if ltb_ℤ a b then b else a

unfoldable pub to_lower : Bytes → Bytes
to_lower [] = []
to_lower (c ∷ s) = (if leb b'A' c && leb c b'Z' then c + 32 else c) ∷ to_lower s

unfoldable pub injected_response_name : ℕ → Bytes
injected_response_name status = if ltb status 400 then text "response" else text "abort"

unfoldable pub local_response_detail : ℕ → Bytes
local_response_detail status = if ltb status 400 then text "fault_response" else text "fault_abort"

-- A header, unless its value is empty.
unfoldable pub if_set : Bytes → Bytes → List (Bytes × Bytes)
if_set name value = if value == [] then [] else (name, value) ∷ []

-- The configured headers, as they are appended.
unfoldable pub configured_headers : List LocalResponseHeader → List (Bytes × Bytes)
configured_headers [] = []
configured_headers (h ∷ hs) = (to_lower h.name, h.value) ∷ configured_headers hs

unfoldable pub configures_content_type : List LocalResponseHeader → Bool
configures_content_type [] = false
configures_content_type (h ∷ hs) =
    (to_lower h.name == text "content-type") || configures_content_type hs

unfoldable pub with_content_type : List LocalResponseHeader → List (Bytes × Bytes)
with_content_type hs =
    if configures_content_type hs
    then configured_headers hs
    else (text "content-type", text "text/plain") ∷ configured_headers hs

-- Duration.String, strconv.FormatInt and strconv.Atoi
module _ (duration_string : ℤ → Bytes) (format_int : ℤ → Bytes) (atoi : Bytes → Option ℤ) where
  unfoldable pub if_counted : Attributes → List (Bytes × Bytes)
  if_counted attrs =
      if ltb_ℤ attrs.requests_in_flight (pos 0)
      then []
      else (text "x-fault-requests-in-flight", format_int attrs.requests_in_flight) ∷ []

  -- setFaultAttributesOnHeaderMap: the calls of Set
  unfoldable pub set_fault_attributes_on_header_map : Attributes → List (Bytes × Bytes)
  set_fault_attributes_on_header_map attrs =
      if_set (text "x-fault-injected-delay") attrs.injected_delay
      ++ if_set (text "x-fault-actual-upstream") attrs.actual_upstream
      ++ if_set (text "x-fault-added-delay") attrs.added_delay
      ++ if_set (text "x-fault-status") attrs.status
      ++ if_set (text "x-fault-upstream-status") attrs.upstream_status
      ++ if_counted attrs
      ++ if_set (text "x-fault-injected") attrs.injected
      ++ if_set (text "x-fault-worker-index") attrs.worker_index

  -- What setFaultAttributesOnHeaderArray appends.
  unfoldable pub fault_headers : Attributes → List (Bytes × Bytes)
  fault_headers attrs =
      if_set (text "x-fault-injected") attrs.injected
      ++ if_set (text "x-fault-injected-delay") attrs.injected_delay
      ++ if_set (text "x-fault-actual-upstream") attrs.actual_upstream
      ++ if_set (text "x-fault-added-delay") attrs.added_delay
      ++ if_set (text "x-fault-status") attrs.status
      ++ if_set (text "x-fault-upstream-status") attrs.upstream_status
      ++ if_counted attrs
      ++ if_set (text "x-fault-worker-index") attrs.worker_index

  unfoldable pub set_fault_attributes_on_header_array :
      List (Bytes × Bytes) → Attributes → List (Bytes × Bytes)
  set_fault_attributes_on_header_array headers attrs = headers ++ fault_headers attrs

  unfoldable pub default_body : ℕ → Bytes
  default_body status =
      if ltb status 400
      then []
      else text "fault filter abort: " ++ format_int (pos status) ++ b'\n' ∷ []

  unfoldable pub response_body : ResponseSample → Bytes
  response_body s = elim s.local_response [
    | none ↦ default_body s.status
    | some config ↦ elim config.body [ none ↦ default_body s.status | some body ↦ body ]
  ]

  unfoldable pub response_headers : Option LocalResponseConfig → List (Bytes × Bytes)
  response_headers none = with_content_type []
  response_headers (some config) = with_content_type config.headers

  unfoldable pub local_response : ResponseSample → Attributes → LocalResponse
  local_response s attrs = record {
    status = s.status;
    body = response_body s;
    headers = set_fault_attributes_on_header_array (response_headers s.local_response) attrs;
    details = local_response_detail s.status;
  }

  -- The attributes of a response that took `elapsed`.
  unfoldable pub attributes : Bytes → Filter → ℤ → Bytes → Bytes → Bytes → Attributes
  attributes worker_index f elapsed upstream injected added = record {
    requests_in_flight = f.request_entry_in_flight;
    added_delay = added;
    actual_upstream = duration_string elapsed;
    injected_delay = duration_string f.sample.duration;
    injected = injected;
    status = format_int (pos f.sample.status);
    upstream_status = upstream;
    worker_index = worker_index;
  }

  unfoldable pub override_status : Bytes → Filter → ℤ → ℤ → Bytes → Action
  override_status worker_index f elapsed remaining upstream =
      let injected = injected_response_name f.sample.status in
      if ltb_ℤ (pos 0) remaining
      then Action.send_local_after remaining (
          local_response f.sample
            (attributes worker_index f elapsed upstream injected (duration_string remaining)))
      else Action.send_local
          (local_response f.sample (attributes worker_index f elapsed upstream injected []))

  unfoldable pub keep_status : Bytes → Filter → ℤ → ℤ → Bytes → Action
  keep_status worker_index f elapsed remaining upstream =
      if ltb_ℤ (pos 0) remaining
      then Action.continue_after remaining (
          set_fault_attributes_on_header_map
            (attributes worker_index f elapsed upstream [] (duration_string remaining)))
      else Action.continue_with
          (set_fault_attributes_on_header_map (attributes worker_index f elapsed upstream [] []))

  -- OnResponseHeaders, of a response with `status` at `now`; `worker_index` is empty without diagnostics.
  unfoldable pub on_response_headers : Bytes → Filter → ℤ → Bytes → Action
  on_response_headers worker_index f now status =
      if f.matched
      then elim (atoi status) [
        | none ↦ Action.continue_with []
        | some upstream ↦
            let elapsed = now -ℤ f.request_start in
            let remaining = max_ℤ (f.sample.duration -ℤ elapsed) (pos 0) in
            if eqb_ℤ (pos f.sample.status) upstream
            then keep_status worker_index f elapsed remaining status
            else override_status worker_index f elapsed remaining status
      ]
      else Action.continue_with []
