-- ===== src/FaultInjection/Config.antt =====
-- dynamic-fault-injection/internal/config/config.go after YAML decoding: the defaults and checks of
-- `parseConfig`. Errors are without the context that their text names. Header names and values are ASCII
-- here; time.ParseDuration and the checks of httpguts are parameters.

use built_on_envoy.Prelude.{
  has_prefix, ℕ, suc, ◌+◌, Option, none, some, Bool, true, false, not, ◌&&◌, ◌||◌, Bytes, bytes_eq,
  nat_eq, text, ◌==◌, List, [], ◌∷◌, ◌++◌, if◌then◌else◌, ltb, leb,
}
use built_on_envoy.Prelude.Int.{ℤ, pos, eqb_ℤ}
use built_on_envoy.FaultInjection.Response.{LocalResponseConfig, LocalResponseHeader}
use built_on_envoy.FaultInjection.Respond.{to_lower}
use built_on_envoy.FaultInjection.Percentiles.{PercentileError}

pub data ConfigFault : Type 0 where
  bad_mode : Bytes → ConfigFault
  no_behavior : ConfigFault
  two_behaviors : ConfigFault
  bad_status : ℤ → ConfigFault
  bad_resolution : ℤ → ConfigFault
  no_distribution : ConfigFault
  bad_distribution : PercentileError → ConfigFault
  body_not_allowed : ConfigFault
  bad_header_name : ℕ → Bytes → ConfigFault
  reserved_header : ℕ → Bytes → ConfigFault
  bad_header_value : ℕ → ConfigFault
  empty_content_type : ConfigFault
  two_content_types : ConfigFault
  no_healthy : ConfigFault
  healthy_not_positive : ConfigFault
  no_tipping_point : ConfigFault
  tipping_not_greater : ConfigFault
  no_healthy_responses : ConfigFault
  no_tipping_responses : ConfigFault
  bad_penalty_base : ConfigFault
  bad_spike_duration : ConfigFault
  bad_spike_threshold : ConfigFault
  bad_multiplier : ConfigFault
  bad_recovery_rate : ConfigFault

pub record StatusDistribution : Type 0 where
  pub status : ℤ
  pub resolution : ℤ
  pub distribution : List (Bytes × Bytes)
  pub local_response : Option LocalResponseConfig

-- Source
pub data ConfigSource : Type 0 where
  filter_source : ConfigSource
  per_route_source : ConfigSource

unfoldable pub fault_if : Bool → ConfigFault → List ConfigFault
fault_if b e = if b then e ∷ [] else []

-- strings.TrimSpace(s) == ""
unfoldable pub is_blank : Bytes → Bool
is_blank [] = true
is_blank (c ∷ s) = (c == b' ' || (leb 9 c && leb c 13)) && is_blank s

unfoldable pub is_reserved : Bytes → Bool
is_reserved name =
    name == text "content-length"
    || name == text "transfer-encoding"
    || name == text "connection"
    || name == text "keep-alive"
    || name == text "proxy-connection"
    || name == text "upgrade"
    || name == text "trailer"
    || name == text "te"
    || has_prefix name (text "x-fault-")

unfoldable pub is_present {ℓ} : {A : Type ℓ} → Option A → Bool
is_present none = false
is_present (some a) = true

unfoldable pub no_items {ℓ} : {A : Type ℓ} → List A → Bool
no_items [] = true
no_items (x ∷ xs) = false

module _ (valid_name : Bytes → Bool) (valid_value : Bytes → Bool) where
  abbrev is_bad_name : Bytes → Bool
  is_bad_name name = not (valid_name name) || has_prefix name (text ":")

  unfoldable pub header_faults : ℕ → LocalResponseHeader → List ConfigFault
  header_faults i h =
      if is_bad_name h.name
      then bad_header_name i h.name ∷ []
      else fault_if (is_reserved (to_lower h.name)) (reserved_header i h.name)
        ++ fault_if (not (valid_value h.value)) (bad_header_value i)
        ++ fault_if ((to_lower h.name == text "content-type") && is_blank h.value)
            empty_content_type

  unfoldable pub headers_faults : ℕ → List LocalResponseHeader → List ConfigFault
  headers_faults i [] = []
  headers_faults i (h ∷ hs) = header_faults i h ++ headers_faults (suc i) hs

  -- contentTypes, which a header with an invalid name does not add to
  unfoldable pub content_types : List LocalResponseHeader → ℕ
  content_types [] = 0
  content_types (h ∷ hs) =
      (if not (is_bad_name h.name) && (to_lower h.name == text "content-type") then 1 else 0)
      + content_types hs

  unfoldable pub has_body : Option Bytes → Bool
  has_body none = false
  has_body (some body) = not (body == [])

  unfoldable pub local_response_faults : ℤ → Option LocalResponseConfig → List ConfigFault
  local_response_faults status none = []
  local_response_faults status (some config) =
      fault_if
        ((eqb_ℤ status (pos 204) || eqb_ℤ status (pos 205) || eqb_ℤ status (pos 304))
          && has_body config.body)
        body_not_allowed
      ++ headers_faults 0 config.headers
      ++ fault_if (ltb 1 (content_types config.headers)) two_content_types
