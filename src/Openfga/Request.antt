-- ===== src/Openfga/Request.antt =====
-- The request side of openfga: when a check is made, and what is decided without one.
use built_on_envoy.Prelude.{
  Bytes, bytes_eq, nat_eq, eq_iff, text, ◌==◌, Bool, true, false, ◌||◌, [], ◌∷◌, Option, none, some,
  ◌≡◌, ◌≢◌, ◌⊎◌, inl, inr, refl, sym, ap, ◌∙◌, subst, arith, if◌then◌else◌, Bool-cases,
  Option-cases,
}
use built_on_envoy.Prelude.Int.{pos}
use built_on_envoy.Openfga.Source.{resolve}
use built_on_envoy.Openfga.Rules.{ParsedRule}
use built_on_envoy.Openfga.Config.{ParsedConfig}
use built_on_envoy.Openfga.Handler.{
  Decision, send_deny, denied, failopen, dryrun_allow, error, Metrics, Handled, continue, stop,
  stop_all_and_buffer, CheckRequest, pass_as, match_rule, handle_deny, handle_callout_error,
  start_check, check_rule, check_request, on_request_headers,
}
use built_on_envoy.Openfga.Trace.{observe, decided, observe-pass, observe-answer}
use built_on_envoy.Openfga.Matching.{IsFirstMatch, match_rule-IsFirstMatch, match_rule-eq}
use built_on_envoy.Openfga.Decide.{not_asked, no_answer, decide, passes, answers}

-- The first rule whose conditions hold gives a check whose three parts are there.
abbrev pub IsAsked : Metrics → ParsedConfig → (Bytes → Bytes) → CheckRequest → Type 0
IsAsked m c headers request =
    (r : ParsedRule) × IsFirstMatch headers c.rules r
    × (resolve headers r.user ≢ [])
    × (resolve headers r.relation ≢ [])
    × (resolve headers r.object ≢ [])
    × (request
        ≡ check_request m c headers (resolve headers r.user) (resolve headers r.relation)
            (resolve headers r.object))

module _ (m : Metrics) (c : ParsedConfig) where
  -- A decision that is taken at once, after a callout that was tried, or none.
  abbrev pub IsDecided : Handled → Option Bytes → Decision → Type 0
  IsDecided h callout d =
      (h.callout ≡ callout)
      × (observe h.effects ≡ decided m c d (answers c d) 0)
      × (h.status ≡ (if passes d then continue else stop))

  IsDecided-by :
      (h known : Handled) (callout : Option Bytes) (d e : Decision)
      → h ≡ known
      → IsDecided known callout d
      → e ≡ d
      → IsDecided h callout e
  IsDecided-by h known callout d e same w k =
      subst (λ f. IsDecided h callout f) (sym k) (subst (λ g. IsDecided g callout d) (sym same) w)

  handle_deny-IsDecided :
      (detail : Bytes)
      → IsDecided (handle_deny m c detail denied) none (decide c.dry_run c.fail_open not_asked)
  unfolding handle_deny send_deny
  handle_deny-IsDecided detail = elim (Bool-cases c.dry_run) [
    | inl e ↦
        IsDecided-by (handle_deny m c detail denied) (pass_as m c none dryrun_allow) none
          dryrun_allow (decide c.dry_run c.fail_open not_asked) (ground arith)
          (refl, observe-pass m c dryrun_allow, refl) (ground arith)
    | inr e ↦ elim (Bool-cases c.fail_open) [
      | inl f ↦
          IsDecided-by (handle_deny m c detail denied) (pass_as m c none failopen) none failopen
            (decide c.dry_run c.fail_open not_asked) (ground arith)
            (refl, observe-pass m c failopen, refl) (ground arith)
      | inr f ↦
          IsDecided-by (handle_deny m c detail denied) _ none denied
            (decide c.dry_run c.fail_open not_asked) (ground arith)
            (
              refl,
              observe-answer m c denied c.deny.status c.deny_headers c.deny_body_bytes detail,
              refl,
            )
            (ground arith)
    ]
  ]

  handle_callout_error-IsDecided :
      (callout : Option Bytes)
      → IsDecided
          (handle_callout_error m c callout)
          callout
          (decide c.dry_run c.fail_open no_answer)
  unfolding handle_callout_error
  handle_callout_error-IsDecided callout = elim (Bool-cases c.dry_run) [
    | inl e ↦
        IsDecided-by (handle_callout_error m c callout) (pass_as m c callout dryrun_allow) callout
          dryrun_allow (decide c.dry_run c.fail_open no_answer) (ground arith)
          (refl, observe-pass m c dryrun_allow, refl) (ground arith)
    | inr e ↦ elim (Bool-cases c.fail_open) [
      | inl f ↦
          IsDecided-by (handle_callout_error m c callout) (pass_as m c callout failopen) callout
            failopen (decide c.dry_run c.fail_open no_answer) (ground arith)
            (refl, observe-pass m c failopen, refl) (ground arith)
      | inr f ↦
          IsDecided-by (handle_callout_error m c callout) _ callout error
            (decide c.dry_run c.fail_open no_answer) (ground arith)
            (
              refl,
              observe-answer m c error (pos 502) ((text "content-type", text "text/plain") ∷ [])
                  (text "Authorization service unavailable") (text "openfga_callout_failed"),
              refl,
            )
            (ground arith)
    ]
  ]

  module _ (marshal : CheckRequest → Option Bytes) (started : Bool) (headers : Bytes → Bytes) where
    -- The three ends of the handler of request headers.
    abbrev pub Ends : Handled → Type 0
    Ends h =
        ((request : CheckRequest) × IsAsked m c headers request
          × ((body : Bytes) × (marshal request ≡ some body)
              × (started ≡ true)
              × (h ≡ record { callout = some body; effects = []; status = stop_all_and_buffer })))
        ⊎ ((request : CheckRequest) × IsAsked m c headers request
            × ((marshal request ≡ none) ⊎ (started ≡ false))
            × IsDecided h (marshal request) (decide c.dry_run c.fail_open no_answer))
        ⊎ (((request : CheckRequest) → ¬ IsAsked m c headers request)
            × IsDecided h none (decide c.dry_run c.fail_open not_asked))

    error-Ends :
        (h : Handled) (request : CheckRequest) (o : Option Bytes)
        → IsAsked m c headers request
        → (marshal request ≡ none) ⊎ (started ≡ false)
        → marshal request ≡ o
        → h ≡ handle_callout_error m c o
        → Ends h
    error-Ends h request o asked failed e same = inr (
        inl (
          request,
          asked,
          failed,
          IsDecided-by h (handle_callout_error m c (marshal request)) (marshal request)
              (decide c.dry_run c.fail_open no_answer) (decide c.dry_run c.fail_open no_answer)
              (same ∙ ap (handle_callout_error m c) (sym e))
              (handle_callout_error-IsDecided (marshal request)) refl,
        ))

    start_check-Ends :
        (request : CheckRequest)
        → IsAsked m c headers request
        → Ends (start_check m c marshal started request)
    unfolding start_check
    start_check-Ends request asked = elim (Option-cases (marshal request)) [
      | inl e ↦
          error-Ends (start_check m c marshal started request) request none asked (inl e) e
            (rw (e, start_check) refl)
      | inr (body, e) ↦ elim (Bool-cases started) [
        | inl f ↦ inl (request, asked, (body, e, f, rw (e, start_check, f) refl))
        | inr f ↦
            error-Ends (start_check m c marshal started request) request (some body) asked (inr f) e
              (rw (e, start_check, f) refl)
      ]
    ]

    -- Nothing can be asked.
    deny-Ends :
        (h : Handled) (detail : Bytes)
        → h ≡ handle_deny m c detail denied
        → ((request : CheckRequest) → ¬ IsAsked m c headers request)
        → Ends h
    deny-Ends h detail same n = inr (
        inr (
          n,
          IsDecided-by h (handle_deny m c detail denied) none
              (decide c.dry_run c.fail_open not_asked) (decide c.dry_run c.fail_open not_asked) same
              (handle_deny-IsDecided detail) refl,
        ))

    -- A check is made exactly if the first rule whose header conditions all hold gives a user, a relation and an
    -- object; its callout leaves the request waiting. If there is no check to make, or its body cannot be built or its callout not be
    -- started, one decision is taken by the two modes, counted and written as far as that is configured, and the
    -- request continues or is answered, as decided.
    pub on_request_headers-Ends : Ends (on_request_headers m c marshal started headers)
    unfolding on_request_headers check_rule
    on_request_headers-Ends = elim (Option-cases (match_rule headers c.rules)) [
      | inl e ↦
          deny-Ends (on_request_headers m c marshal started headers) (text "openfga_no_rule")
            (rw (e, on_request_headers) refl)
            (λ request asked. cc (e, match_rule-eq headers c.rules asked.0 asked.1))
      | inr (r, e) ↦
          elim (Bool-cases (
            (resolve headers r.user == [])
            || ((resolve headers r.relation == []) || (resolve headers r.object == [])))) [
              | inl f ↦
                  deny-Ends (on_request_headers m c marshal started headers)
                    (text "openfga_missing_params") (rw (e, on_request_headers, f, check_rule) refl)
                    (λ request asked. incomplete request r e f asked)
              | inr f ↦
                  let known : on_request_headers m c marshal started headers
                      ≡ start_check m c marshal started (
                          check_request m c headers (resolve headers r.user)
                            (resolve headers r.relation) (resolve headers r.object)) =
                    rw (e, on_request_headers, f, check_rule) refl in
                  subst Ends (sym known) (
                    start_check-Ends
                      (check_request m c headers (resolve headers r.user)
                        (resolve headers r.relation) (resolve headers r.object))
                      (
                        r,
                        match_rule-IsFirstMatch headers c.rules r e,
                        (λ k. ground (arith, eq_iff (resolve headers r.user) [])),
                        (λ k. ground (arith, eq_iff (resolve headers r.relation) [])),
                        (λ k. ground (arith, eq_iff (resolve headers r.object) [])),
                        refl,
                      ))
            ]
    ]
      where
        missing :
            (a b o : Bytes)
            → a ≢ []
            → b ≢ []
            → o ≢ []
            → ((a == []) || ((b == []) || (o == []))) ≢ true
        missing a b o u v w f = ground (arith, eq_iff a [], eq_iff b [], eq_iff o [])

        incomplete :
            (request : CheckRequest) (r : ParsedRule)
            → match_rule headers c.rules ≡ some r
            → ((resolve headers r.user == [])
                || ((resolve headers r.relation == []) || (resolve headers r.object == [])))
              ≡ true
            → ¬ IsAsked m c headers request
        incomplete request r e f (q, g, u, v, w, k) =
            let same : q ≡ r = cc (e, match_rule-eq headers c.rules q g) in
            let user = subst (λ (x : ParsedRule). resolve headers x.user ≢ []) same u in
            let relation = subst (λ (x : ParsedRule). resolve headers x.relation ≢ []) same v in
            let object = subst (λ (x : ParsedRule). resolve headers x.object ≢ []) same w in
            missing (resolve headers r.user) (resolve headers r.relation) (resolve headers r.object)
              user relation object f
