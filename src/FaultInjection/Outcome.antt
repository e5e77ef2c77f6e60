-- ===== src/FaultInjection/Outcome.antt =====
-- What the client sees of a response that passes dynamic-fault-injection/plugin.go: its status, its delay and
-- its content type.
use mathlib.Core.List.Memᴰ
use mathlib.Core.List.{Memᴰ}
use built_on_envoy.Prelude.{
  Option, none, some, true, false, Bytes, bytes_eq, eq_iff, text, ◌==◌, List, [], ◌∷◌, ◌≡◌, refl,
  sym, ap, ◌∙◌, arith, Bool-cases, inl, inr,
}
use built_on_envoy.Prelude.Int.{ℤ, pos, ◌+ℤ◌, ◌-ℤ◌, ltb_ℤ, eqb_ℤ, +ℤ_parts, -ℤ_parts, eq_of_parts}
use built_on_envoy.FaultInjection.Response.{
  LocalResponseConfig, LocalResponseHeader, ResponseSample,
}
use built_on_envoy.FaultInjection.Filter.{Filter}
use built_on_envoy.FaultInjection.Respond.{
  Action, Attributes, LocalResponse, max_ℤ, to_lower, configured_headers, configures_content_type,
  with_content_type, keep_status, override_status, on_response_headers, response_headers,
  local_response, set_fault_attributes_on_header_array,
}

-- The status that the client gets where the upstream's was `upstream`, and how long it waits for it.
unfoldable pub status_of : ℤ → Action → ℤ
status_of upstream (Action.continue_with headers) = upstream
status_of upstream (Action.continue_after d headers) = upstream
status_of upstream (Action.send_local r) = pos r.status
status_of upstream (Action.send_local_after d r) = pos r.status

unfoldable pub delay_of : Action → ℤ
delay_of (Action.continue_with headers) = pos 0
delay_of (Action.continue_after d headers) = d
delay_of (Action.send_local r) = pos 0
delay_of (Action.send_local_after d r) = d

-- The local response that is sent, if one is.
unfoldable pub local_of : Action → Option LocalResponse
local_of (Action.continue_with headers) = none
local_of (Action.continue_after d headers) = none
local_of (Action.send_local r) = some r
local_of (Action.send_local_after d r) = some r

module _ (duration_string : ℤ → Bytes) (format_int : ℤ → Bytes) (atoi : Bytes → Option ℤ) where
  abbrev respond : Bytes → Filter → ℤ → Bytes → Action
  respond = on_response_headers duration_string format_int atoi

  remaining_sum :
      (target elapsed : ℤ) → elapsed +ℤ max_ℤ (target -ℤ elapsed) (pos 0) ≡ max_ℤ target elapsed
  remaining_sum target elapsed =
      eq_of_parts (elapsed +ℤ max_ℤ (target -ℤ elapsed) (pos 0)) (max_ℤ target elapsed) (
        ground (
          arith,
          -ℤ_parts target elapsed,
          +ℤ_parts elapsed (target -ℤ elapsed),
          +ℤ_parts elapsed (pos 0),
        ))

  none_remaining : (x : ℤ) → ltb_ℤ (pos 0) (max_ℤ x (pos 0)) ≡ false → pos 0 ≡ max_ℤ x (pos 0)
  none_remaining x h = eq_of_parts (pos 0) (max_ℤ x (pos 0)) (ground arith)

  keep_status_outcome :
      (worker_index : Bytes) (f : Filter) (elapsed x upstream : ℤ) (status : Bytes)
      → (status_of upstream (
            keep_status duration_string format_int atoi worker_index f elapsed
              (max_ℤ x (pos 0))
              status)
          ≡ upstream)
        × (delay_of (
              keep_status duration_string format_int atoi worker_index f elapsed
                (max_ℤ x (pos 0))
                status)
            ≡ max_ℤ x (pos 0))
  unfolding keep_status status_of delay_of
  keep_status_outcome worker_index f elapsed x upstream status =
      elim (Bool-cases (ltb_ℤ (pos 0) (max_ℤ x (pos 0)))) [
        | inl e ↦ (rw (e, keep_status) refl, rw (e, keep_status) refl)
        | inr e ↦ (rw (e, keep_status) refl, rw (e, keep_status) (none_remaining x e))
      ]

  override_status_outcome :
      (worker_index : Bytes) (f : Filter) (elapsed x upstream : ℤ) (status : Bytes)
      → (status_of upstream (
            override_status duration_string format_int atoi worker_index f elapsed
              (max_ℤ x (pos 0))
              status)
          ≡ pos f.sample.status)
        × (delay_of (
              override_status duration_string format_int atoi worker_index f elapsed
                (max_ℤ x (pos 0))
                status)
            ≡ max_ℤ x (pos 0))
  unfolding override_status status_of delay_of local_response
  override_status_outcome worker_index f elapsed x upstream status =
      elim (Bool-cases (ltb_ℤ (pos 0) (max_ℤ x (pos 0)))) [
        | inl e ↦ (rw (e, override_status) refl, rw (e, override_status) refl)
        | inr e ↦ (rw (e, override_status) refl, rw (e, override_status) (none_remaining x e))
      ]

  -- A response of a sampled request, whose status is a number, reaches the client with the sampled status,
  -- and as long after its request as the sampled duration or as the upstream took, whichever is longer.
  pub on_response_headers_outcome :
      (worker_index : Bytes) (f : Filter) (now upstream : ℤ) (status : Bytes)
      → f.matched ≡ true
      → atoi status ≡ some upstream
      → (status_of upstream
            (on_response_headers duration_string format_int atoi worker_index f now status)
          ≡ pos f.sample.status)
        × ((now -ℤ f.request_start)
              +ℤ delay_of
                  (on_response_headers duration_string format_int atoi worker_index f now status)
            ≡ max_ℤ f.sample.duration (now -ℤ f.request_start))
  unfolding on_response_headers
  on_response_headers_outcome worker_index f now upstream status m h =
      let elapsed = now -ℤ f.request_start in
      let x = f.sample.duration -ℤ elapsed in
      let goes_on = keep_status_outcome worker_index f elapsed x upstream status in
      let replaced = override_status_outcome worker_index f elapsed x upstream status in
      elim (Bool-cases (eqb_ℤ (pos f.sample.status) upstream)) [
        | inl e ↦ (
          rw (m, h, e, on_response_headers)
              (goes_on.0 ∙ eq_of_parts upstream (pos f.sample.status) (ground arith)),
          rw (m, h, e, on_response_headers)
              (rw goes_on.1 (remaining_sum f.sample.duration elapsed)),
        )
        | inr e ↦ (
          rw (m, h, e, on_response_headers) replaced.0,
          rw (m, h, e, on_response_headers)
              (rw replaced.1 (remaining_sum f.sample.duration elapsed)),
        )
      ]

  configured_content_type :
      (hs : List LocalResponseHeader)
      → configures_content_type hs ≡ true
      → (value : Bytes) × Memᴰ (text "content-type", value) (configured_headers hs)
  unfolding configures_content_type configured_headers
  configured_content_type [] h = cc
  configured_content_type (x ∷ hs) h = elim (Bool-cases (to_lower x.name == text "content-type")) [
    | inl e ↦
        let q : to_lower x.name ≡ text "content-type" =
          (eq_iff (to_lower x.name) (text "content-type")).0 e in
        (x.value, Memᴰ.head (ap (λ (n : Bytes). (n, x.value)) (sym q)))
    | inr e ↦ let (value, m) = configured_content_type hs (ground arith) in (value, Memᴰ.tail m)
  ]

  some_content_type :
      (hs : List LocalResponseHeader)
      → (value : Bytes) × Memᴰ (text "content-type", value) (with_content_type hs)
  unfolding with_content_type
  some_content_type hs = elim (Bool-cases (configures_content_type hs)) [
    | inl e ↦ rw (e, with_content_type) (configured_content_type hs e)
    | inr e ↦ rw (e, with_content_type) (text "text/plain", Memᴰ.head refl)
  ]

  -- A local response has a content type, whatever headers are configured.
  pub local_response_content_type :
      (s : ResponseSample) (attrs : Attributes)
      → (value : Bytes) × Memᴰ
          (text "content-type", value)
          (local_response duration_string format_int atoi s attrs).headers
  unfolding local_response response_headers set_fault_attributes_on_header_array
  local_response_content_type s attrs =
      let (value, m) = content_type_of s.local_response in (value, Memᴰ.append_left _ m)
    where
      content_type_of :
          (config : Option LocalResponseConfig)
          → (value : Bytes) × Memᴰ
              (text "content-type", value)
              (response_headers duration_string format_int atoi config)
      content_type_of none = some_content_type []
      content_type_of (some config) = some_content_type config.headers
