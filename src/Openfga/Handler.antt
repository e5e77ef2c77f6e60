-- ===== src/Openfga/Handler.antt =====
-- openfga/plugin.go: `OnRequestHeaders` and `OnHttpCalloutDone`. A handler yields what it does, in order; logs
-- are left out. Encoding and decoding of JSON, whether Envoy starts the callout, and the time that it takes are
-- parameters.
use built_on_envoy.Prelude.{
  ℕ, Bytes, bytes_eq, nat_eq, text, ◌==◌, Bool, not, ◌&&◌, ◌||◌, List, [], ◌∷◌, ◌++◌, Option, none,
  some, if◌then◌else◌,
}
use built_on_envoy.Prelude.Int.{ℤ, pos}
use built_on_envoy.Openfga.Source.{ValueSource, resolve}
use built_on_envoy.Openfga.Rules.{ParsedRule, TupleSources, matches}
use built_on_envoy.Openfga.Config.{ParsedConfig}

-- The decisions that are counted and written.
pub data Decision : Type 0 where
  allowed denied failopen dryrun_allow error : Decision

pub data Effect : Type 0 where
  -- namespace, key, decision
  set_metadata : Bytes → Bytes → Decision → Effect
  count : Decision → Effect
  record_duration : ℕ → Effect
  -- status, headers, body, detail
  local_response : ℤ → List (Bytes × Bytes) → Bytes → Bytes → Effect
  continue_request : Effect

pub data HeadersStatus : Type 0 where
  continue stop stop_all_and_buffer : HeadersStatus

pub record Metrics : Type 0 where
  pub enabled : Bool
  pub has_check_duration : Bool

pub record ResolvedTuple : Type 0 where
  pub user : Bytes
  pub relation : Bytes
  pub object : Bytes

-- The fields of the JSON of a check; an empty one is left out of it.
pub record CheckRequest : Type 0 where
  pub tuple : ResolvedTuple
  pub authorization_model_id : Bytes
  pub consistency : Bytes
  pub contextual_tuples : List ResolvedTuple
  pub context : List (Bytes × Bytes)

-- What a handler of request headers does: a callout with a body, or an end without one.
pub record Handled : Type 0 where
  pub callout : Option Bytes
  pub effects : List Effect
  pub status : HeadersStatus

-- inc, recordDuration, writeMetadata, sendDeny
unfoldable pub inc : Metrics → Decision → List Effect
inc m d = if m.enabled then count d ∷ [] else []

unfoldable pub record_check : Metrics → ℕ → List Effect
record_check m ms = if m.has_check_duration then record_duration ms ∷ [] else []

unfoldable pub write_metadata : ParsedConfig → Decision → List Effect
write_metadata c d = elim c.metadata [ none ↦ [] | some k ↦ set_metadata k.namespace k.key d ∷ [] ]

unfoldable pub send_deny : ParsedConfig → Bytes → Effect
send_deny c detail = local_response c.deny.status c.deny_headers c.deny_body_bytes detail

abbrev pub send_error : Bytes → Bytes → Effect
send_error body detail =
    local_response (pos 502) ((text "content-type", text "text/plain") ∷ []) body detail

-- joinCalloutBody
unfoldable pub join_callout_body : List Bytes → Bytes
join_callout_body [] = []
join_callout_body (b ∷ body) = b ++ join_callout_body body

unfoldable pub callout_header_value : List (Bytes × Bytes) → Bytes → Bytes
callout_header_value [] key = []
callout_header_value ((name, value) ∷ headers) key =
    if name == key then value else callout_header_value headers key

-- matchRule: the first rule without a match, or whose match holds
unfoldable pub match_rule : (Bytes → Bytes) → List ParsedRule → Option ParsedRule
match_rule headers [] = none
match_rule headers (r ∷ rs) =
    let rest = match_rule headers rs in
    elim r.match_headers [ none ↦ some r | some m ↦ if matches headers m then some r else rest ]

-- The tuples of which all three parts are there.
unfoldable pub resolve_tuples : (Bytes → Bytes) → List TupleSources → List ResolvedTuple
resolve_tuples headers [] = []
resolve_tuples headers (t ∷ ts) =
    let rest = resolve_tuples headers ts in
    let u = resolve headers t.user in
    let r = resolve headers t.relation in
    let o = resolve headers t.object in
    if (u == []) || ((r == []) || (o == []))
    then rest
    else record { user = u; relation = r; object = o } ∷ rest

unfoldable pub resolve_context : (Bytes → Bytes) → List (Bytes × ValueSource) → List (Bytes × Bytes)
resolve_context headers [] = []
resolve_context headers ((name, v) ∷ entries) =
    let rest = resolve_context headers entries in
    if resolve headers v == [] then rest else (name, resolve headers v) ∷ rest

module _ (m : Metrics) (c : ParsedConfig) where
  abbrev pub pass_as : Option Bytes → Decision → Handled
  pass_as callout d = record {
    callout = callout;
    effects = write_metadata c d ++ inc m d;
    status = continue;
  }

  -- handleDeny
  unfoldable pub handle_deny : Bytes → Decision → Handled
  handle_deny detail d =
      if c.dry_run
      then pass_as none dryrun_allow
      else if c.fail_open
      then pass_as none failopen
      else record {
        callout = none;
        effects = write_metadata c d ++ (send_deny c detail ∷ inc m d);
        status = stop;
      }

  -- handleCalloutError, after a callout that was not started, or none
  unfoldable pub handle_callout_error : Option Bytes → Handled
  handle_callout_error callout =
      if c.dry_run
      then pass_as callout dryrun_allow
      else if c.fail_open
      then pass_as callout failopen
      else record {
        callout = callout;
        effects =
            write_metadata c error
            ++ (send_error (text "Authorization service unavailable")
                  (text "openfga_callout_failed")
                ∷ inc m error);
        status = stop;
      }

  unfoldable pub check_request : (Bytes → Bytes) → Bytes → Bytes → Bytes → CheckRequest
  check_request headers user relation object = record {
    tuple = record { user = user; relation = relation; object = object };
    authorization_model_id = c.authorization_model_id;
    consistency = c.consistency;
    contextual_tuples = resolve_tuples headers c.contextual_tuples;
    context = resolve_context headers c.context;
  }

  module _ (marshal : CheckRequest → Option Bytes) (started : Bool) where
    -- The callout, if the body can be built.
    unfoldable pub start_check : CheckRequest → Handled
    start_check request = elim (marshal request) [
      | none ↦ handle_callout_error none
      | some body ↦
          if started
          then record { callout = some body; effects = []; status = stop_all_and_buffer }
          else handle_callout_error (some body)
    ]

    unfoldable pub check_rule : (Bytes → Bytes) → ParsedRule → Handled
    check_rule headers r =
        let user = resolve headers r.user in
        let relation = resolve headers r.relation in
        let object = resolve headers r.object in
        if (user == []) || ((relation == []) || (object == []))
        then handle_deny (text "openfga_missing_params") denied
        else start_check (check_request headers user relation object)

    -- OnRequestHeaders
    unfoldable pub on_request_headers : (Bytes → Bytes) → Handled
    on_request_headers headers = elim (match_rule headers c.rules) [
      | none ↦ handle_deny (text "openfga_no_rule") denied
      | some r ↦ check_rule headers r
    ]

  abbrev pub continue_as : Decision → List Effect
  continue_as d = write_metadata c d ++ (inc m d ++ (continue_request ∷ []))

  -- handleCallbackError
  unfoldable pub handle_callback_error : Bytes → List Effect
  handle_callback_error detail =
      if c.dry_run
      then continue_as dryrun_allow
      else if c.fail_open
      then continue_as failopen
      else write_metadata c error
        ++ (inc m error ++ (send_error (text "Authorization service error") detail ∷ []))

  -- The answer of the service.
  unfoldable pub handle_answer : Bool → List Effect
  handle_answer is_allowed =
      if not is_allowed && c.dry_run
      then continue_as dryrun_allow
      else if not is_allowed
      then write_metadata c denied ++ (inc m denied ++ (send_deny c (text "openfga_denied") ∷ []))
      else continue_as allowed

  module _ (unmarshal : Bytes → Option Bool) where
    unfoldable pub read_answer : Bytes → Bytes → List Effect
    read_answer status full_body =
        if not (status == text "200")
        then handle_callback_error (text "openfga_api_error")
        else if full_body == []
        then handle_callback_error (text "openfga_empty_body")
        else elim (unmarshal full_body) [
          | none ↦ handle_callback_error (text "openfga_parse_error")
          | some is_allowed ↦ handle_answer is_allowed
        ]

    -- OnHttpCalloutDone; `success` says whether the callout succeeded
    unfoldable pub on_http_callout_done : ℕ → Bool → List (Bytes × Bytes) → List Bytes → List Effect
    on_http_callout_done ms success headers body =
        record_check m ms
        ++ (if not success
            then handle_callback_error (text "openfga_callout_error")
            else read_answer (callout_header_value headers (text ":status"))
                (join_callout_body body))
