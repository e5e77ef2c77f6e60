-- ===== src/Openfga/Decide.antt =====
-- What openfga promises, apart from how its handlers do it: a decision from the answer of the service and the
-- two modes, and that the handlers implement it.
use built_on_envoy.Prelude.{
  ℕ, Bytes, bytes_eq, nat_eq, eq_iff, text, ◌==◌, Bool, true, false, List, [], ◌∷◌, Option, some,
  ◌≡◌, ◌≢◌, ◌⊎◌, inl, inr, refl, sym, ap, ◌∙◌, arith, if◌then◌else◌, Bool-cases, Option-cases,
}
use built_on_envoy.Prelude.Int.{ℤ, pos}
use built_on_envoy.Openfga.Config.{ParsedConfig}
use built_on_envoy.Openfga.Handler.{
  Decision, Effect, send_deny, continue_as, allowed, denied, failopen, dryrun_allow, error, Metrics,
  join_callout_body, callout_header_value, handle_callback_error, handle_answer, read_answer,
  on_http_callout_done,
}
use built_on_envoy.Openfga.Trace.{
  Trace, observe, decided, observe-continue, observe-answer_last, observe-record_check,
}

-- What is known of a request: the service allows it or not, there is nothing to ask, or no answer.
pub data Verdict : Type 0 where
  answered : Bool → Verdict
  not_asked : Verdict
  no_answer : Verdict

-- Dry-run mode lets everything pass; fail-open mode what the service does not deny.
abbrev pub decide : Bool → Bool → Verdict → Decision
decide dry_run fail_open (answered true) = allowed
decide dry_run fail_open (answered false) = if dry_run then dryrun_allow else denied
decide dry_run fail_open not_asked =
    if dry_run then dryrun_allow else if fail_open then failopen else denied
decide dry_run fail_open no_answer =
    if dry_run then dryrun_allow else if fail_open then failopen else error

abbrev pub passes : Decision → Bool
passes allowed = true
passes dryrun_allow = true
passes failopen = true
passes denied = false
passes error = false

-- The statuses that a decision is answered with.
abbrev pub answers : ParsedConfig → Decision → List ℤ
answers c denied = c.deny.status ∷ []
answers c error = pos 502 ∷ []
answers c allowed = []
answers c dryrun_allow = []
answers c failopen = []

-- The service answers a check with status 200 and a body that decodes.
abbrev pub Answers :
    (Bytes → Option Bool) → Bool → List (Bytes × Bytes) → List Bytes → Bool → Type 0
Answers unmarshal success headers body b =
    (success ≡ true)
    × (callout_header_value headers (text ":status") ≡ text "200")
    × (join_callout_body body ≢ [])
    × (unmarshal (join_callout_body body) ≡ some b)

abbrev pub IsVerdict :
    (Bytes → Option Bool) → Bool → List (Bytes × Bytes) → List Bytes → Verdict → Type 0
IsVerdict unmarshal success headers body (answered b) = Answers unmarshal success headers body b
IsVerdict unmarshal success headers body not_asked = ⊥
IsVerdict unmarshal success headers body no_answer =
    (b : Bool) → ¬ Answers unmarshal success headers body b

module _ (m : Metrics) (c : ParsedConfig) where
  -- What is seen of a callback that decides `d`.
  abbrev pub resolved_as : Decision → Trace
  resolved_as d = decided m c d (answers c d) (if passes d then 1 else 0)

  -- Effects that are known, with a decision that is known.
  resolved_by :
      (effects known : List Effect) (d e : Decision)
      → effects ≡ known
      → observe known ≡ resolved_as d
      → e ≡ d
      → observe effects ≡ resolved_as e
  resolved_by effects known d e h k same = ap observe h ∙ (k ∙ ap resolved_as (sym same))

  handle_answer_trace :
      (b : Bool)
      → observe (handle_answer m c b) ≡ resolved_as (decide c.dry_run c.fail_open (answered b))
  unfolding handle_answer send_deny
  handle_answer_trace true = observe-continue m c allowed
  handle_answer_trace false = elim (Bool-cases c.dry_run) [
    | inl e ↦
        resolved_by (handle_answer m c false) (continue_as m c dryrun_allow) dryrun_allow
          (decide c.dry_run c.fail_open (answered false)) (ground arith)
          (observe-continue m c dryrun_allow) (ground arith)
    | inr e ↦
        resolved_by (handle_answer m c false) _ denied
          (decide c.dry_run c.fail_open (answered false)) (ground arith)
          (observe-answer_last m c denied c.deny.status c.deny_headers c.deny_body_bytes
            (text "openfga_denied"))
          (ground arith)
  ]

  handle_callback_error_trace :
      (detail : Bytes)
      → observe (handle_callback_error m c detail)
        ≡ resolved_as (decide c.dry_run c.fail_open no_answer)
  unfolding handle_callback_error
  handle_callback_error_trace detail = elim (Bool-cases c.dry_run) [
    | inl e ↦
        resolved_by (handle_callback_error m c detail) (continue_as m c dryrun_allow) dryrun_allow
          (decide c.dry_run c.fail_open no_answer) (ground arith)
          (observe-continue m c dryrun_allow) (ground arith)
    | inr e ↦ elim (Bool-cases c.fail_open) [
      | inl f ↦
          resolved_by (handle_callback_error m c detail) (continue_as m c failopen) failopen
            (decide c.dry_run c.fail_open no_answer) (ground arith) (observe-continue m c failopen)
            (ground arith)
      | inr f ↦
          resolved_by (handle_callback_error m c detail) _ error
            (decide c.dry_run c.fail_open no_answer) (ground arith)
            (observe-answer_last m c error (pos 502) ((text "content-type", text "text/plain") ∷ [])
              (text "Authorization service error") detail)
            (ground arith)
    ]
  ]

  module _ (unmarshal : Bytes → Option Bool) where
    -- The decision of a callback is that of some verdict.
    abbrev pub IsResolved : Bool → List (Bytes × Bytes) → List Bytes → List Effect → Type 0
    IsResolved success headers body effects =
        (v : Verdict) × IsVerdict unmarshal success headers body v
        × (observe effects ≡ resolved_as (decide c.dry_run c.fail_open v))

    -- The branches on a status and a body, and what they do.
    AnswerCases : Bytes → Bytes → Type 0
    AnswerCases status full =
        ((b : Bool) × (status ≡ text "200")
          × (full ≢ [])
          × (unmarshal full ≡ some b)
          × (read_answer m c unmarshal status full ≡ handle_answer m c b))
        ⊎ ((detail : Bytes) × ((b : Bool)
              → status ≡ text "200"
              → full ≢ []
              → unmarshal full ≡ some b
              → ⊥)
            × (read_answer m c unmarshal status full ≡ handle_callback_error m c detail))

    read_answer-AnswerCases : (status full : Bytes) → AnswerCases status full
    unfolding read_answer AnswerCases
    read_answer-AnswerCases status full = elim (Bool-cases (status == text "200")) [
      | inr e ↦ inr (
        text "openfga_api_error",
        (λ b h n k. ground (arith, eq_iff status (text "200"))),
        rw (e, read_answer) refl,
      )
      | inl e ↦ elim (Bool-cases (full == [])) [
        | inl f ↦ inr (
          text "openfga_empty_body",
          (λ b h n k. n ((eq_iff full []).0 f)),
          rw (e, read_answer, f) refl,
        )
        | inr f ↦ elim (Option-cases (unmarshal full)) [
          | inl g ↦
              inr
                (text "openfga_parse_error", (λ b h n k. cc (g, k)), rw (e, read_answer, f, g) refl)
          | inr (b, g) ↦ inl (
            b,
            (eq_iff status (text "200")).0 e,
            (λ k. ground (arith, eq_iff full [])),
            g,
            rw (e, read_answer, f, g) refl,
          )
        ]
      ]
    ]

    -- A callback does what is decided from the answer of the service, if there is one, and the two modes: the
    -- decision is counted and written, as far as that is configured, and nothing else is; and either the request
    -- is continued, once, or it is answered, with the deny status, or with 502 if the service gave no answer.
    pub on_http_callout_done-decides :
        (ms : ℕ) (success : Bool) (headers : List (Bytes × Bytes)) (body : List Bytes)
        → (v : Verdict) × IsVerdict unmarshal success headers body v
          × (observe (on_http_callout_done m c unmarshal ms success headers body)
              ≡ resolved_as (decide c.dry_run c.fail_open v))
    unfolding on_http_callout_done AnswerCases
    on_http_callout_done-decides ms false headers body = (
      no_answer,
      (λ b x. cc (x.0)),
      observe-record_check m ms (handle_callback_error m c (text "openfga_callout_error"))
          ∙ handle_callback_error_trace (text "openfga_callout_error"),
    )
    on_http_callout_done-decides ms true headers body =
        let status = callout_header_value headers (text ":status") in
        let full = join_callout_body body in
        let seen = observe-record_check m ms (read_answer m c unmarshal status full) in
        elim (read_answer-AnswerCases status full) [
          | inl (b, h, n, k, e) ↦
              (answered b, (refl, h, n, k), seen ∙ (ap observe e ∙ handle_answer_trace b))
          | inr (detail, n, e) ↦ (
            no_answer,
            (λ b x. n b x.1 x.2 x.3),
            seen ∙ (ap observe e ∙ handle_callback_error_trace detail),
          )
        ]
