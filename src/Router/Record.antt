-- ===== src/Router/Record.antt =====
-- domain/router.py and domain/cost_tracker.py: routes with the usage record and the event of their end.
use nova_project_bible.Common.{
  ℕ, ◌/◌, Uuid, String, Option, none, some, List, [], ◌∷◌, ◌++◌, Bool, true, false, if◌then◌else◌,
  leb, map,
}
use nova_project_bible.Common.Effects.{Result, ok, err, M, ◌>>=◌, ◌>>◌, pure, raise}
use nova_project_bible.Router.Model.{
  PrivacyLevel, ModelDescriptor, ScoredCandidate, RoutingDecision, GenerateRequest, GenerateResult,
  UsageRecord, UsageEvent, request_completed, request_failed, UsageOutcome, success, fallback,
  failed,
}
use nova_project_bible.Router.Plan.{Floats, or_zero, estimate_complexity}
use nova_project_bible.Router.Route.{
  Error, fallback_exhausted, key_error, connector_unavailable, repository_raised, State,
  GetConnector, ExecutionOutcome, route_and_execute, route_and_transcribe, route_and_synthesize,
}

-- The clock, and UsageRepository.record_usage, a transaction that may raise: `none`.
pub record Services (W F : Type 0) : Type 0 where
  pub perf_counter : W → F × W
  pub record_usage : UsageRecord F → UsageEvent → W → Option (Unit {0}) × W

-- Of a request, what its record holds.
pub record Caller : Type 0 where
  pub correlation_id : Uuid
  pub requesting_engine : String
  pub privacy_hint : PrivacyLevel

-- approximate_token_count, of the length of a text
abbrev pub approximate_token_count : ℕ → ℕ
approximate_token_count characters = if leb 1 (characters / 4) then characters / 4 else 1

-- `attempted_ids[0] if attempted_ids else UUID(int=0)`
abbrev pub first_id : List Uuid → Uuid
first_id [] = 0
first_id (i ∷ is) = i

abbrev pub caller_of : GenerateRequest → Caller
caller_of request = record {
  correlation_id = request.correlation_id;
  requesting_engine = request.requesting_engine;
  privacy_hint = request.privacy_hint;
}

abbrev pub ids_of : {F : Type 0} → List (ScoredCandidate F) → List Uuid
ids_of cs = map (λ c. c.model_id) cs

abbrev pub outcome_of : Bool → UsageOutcome
outcome_of fallback_used = if fallback_used then fallback else success

-- A call whose exception is caught.
unfoldable pub attempt : {S E A : Type 0} → M S E A → M S E (Result E A)
attempt m s = let (r, t) = m s in (ok r, t)

module _ {W F : Type 0} (floats : Floats F) (services : Services W F) where
  unfoldable pub perf_counter : M (State W F) (Error F) F
  perf_counter s = let (t, w) = services.perf_counter s.world in (ok t, record s { world = w })

  unfoldable pub record_usage : UsageRecord F → UsageEvent → M (State W F) (Error F) (Unit {0})
  record_usage r event s =
      let (answer, w) = services.record_usage r event s.world in
      elim answer [
        | some _ ↦ (
          ok tt,
          record s { world = w; usage = s.usage ++ r ∷ []; outbox = s.outbox ++ event ∷ [] },
        )
        | none ↦ (err repository_raised, record s { world = w })
      ]

  abbrev pub estimate_cost : ModelDescriptor F → (input_tokens output_tokens : ℕ) → F
  estimate_cost model input_tokens output_tokens =
      floats.add
        (floats.mul (or_zero floats model.cost_per_input_token) (floats.ratio input_tokens 1))
        (floats.mul (or_zero floats model.cost_per_output_token) (floats.ratio output_tokens 1))

  -- (now - start) * 1000
  abbrev pub latency : F → F → F
  latency start now = floats.mul (floats.sub now start) (floats.ratio 1000 1)

  abbrev pub bare_decision : List (ScoredCandidate F) → Uuid → F → RoutingDecision F
  bare_decision candidates i complexity = record {
    candidates = candidates;
    selected_model_id = i;
    fallback_from = none;
    privacy_constraint_applied = false;
    estimated_complexity = complexity;
  }

  abbrev pub failed_record :
      Caller → List (ScoredCandidate F) → F → F → ℕ → (max_attempts : ℕ) → UsageRecord F
  failed_record caller attempted complexity elapsed input_tokens max_attempts = record {
    correlation_id = caller.correlation_id;
    requesting_engine = caller.requesting_engine;
    provider = none;
    model_id = first_id (ids_of attempted);
    routing_decision = bare_decision attempted (first_id (ids_of attempted)) complexity;
    latency_ms = elapsed;
    input_tokens = input_tokens;
    output_tokens = 0;
    estimated_cost = floats.ratio 0 1;
    retry_count = max_attempts;
    fallback_used = true;
    privacy_classification = caller.privacy_hint;
    outcome = failed;
  }

  abbrev pub answered_record :
      Caller
      → ModelDescriptor F
      → RoutingDecision F
      → F
      → (input_tokens output_tokens retries : ℕ) → Bool
      → UsageRecord F
  answered_record caller model decision elapsed input_tokens output_tokens retries fallback_used =
      record {
        correlation_id = caller.correlation_id;
        requesting_engine = caller.requesting_engine;
        provider = some model.provider;
        model_id = model.id;
        routing_decision = decision;
        latency_ms = elapsed;
        input_tokens = input_tokens;
        output_tokens = output_tokens;
        estimated_cost = estimate_cost model input_tokens output_tokens;
        retry_count = retries;
        fallback_used = fallback_used;
        privacy_classification = caller.privacy_hint;
        outcome = outcome_of fallback_used;
      }

  -- The handler of FallbackExhaustedError; other exceptions pass.
  unfoldable pub record_failure :
      {R : Type 0} → Caller → F → ℕ → (max_attempts : ℕ) → F → Error F → M (State W F) (Error F) R
  record_failure caller complexity input_tokens max_attempts start (fallback_exhausted attempted) =
      do
        now ← perf_counter
        record_usage
            (failed_record caller attempted complexity (latency start now) input_tokens
              max_attempts)
            (request_failed caller.correlation_id (ids_of attempted))
        raise (fallback_exhausted attempted)
  record_failure caller complexity input_tokens max_attempts start key_error = raise key_error
  record_failure caller complexity input_tokens max_attempts start connector_unavailable =
      raise connector_unavailable
  record_failure caller complexity input_tokens max_attempts start repository_raised =
      raise repository_raised

  -- What `execute_and_record` does with the outcome.
  unfoldable pub record_execution :
      GenerateRequest
      → (max_attempts : ℕ) → F
      → Result (Error F) (ExecutionOutcome F GenerateResult)
      → M (State W F) (Error F) (ExecutionOutcome F GenerateResult)
  record_execution request max_attempts start (err e) =
      record_failure (caller_of request) (estimate_complexity floats request) 0 max_attempts start e
  record_execution request max_attempts start (ok o) = do
    now ← perf_counter
    record_usage
        (answered_record (caller_of request) o.model o.decision (latency start now)
          o.result.input_tokens o.result.output_tokens o.retry_count o.fallback_used)
        (request_completed request.correlation_id o.model.id o.retry_count o.fallback_used)
    pure o

  unfoldable pub execute_and_record :
      List (ModelDescriptor F)
      → GenerateRequest
      → GetConnector W F GenerateResult
      → (Uuid → Option F)
      → (max_attempts : ℕ) → M (State W F) (Error F) (ExecutionOutcome F GenerateResult)
  execute_and_record models request get_connector rates max_attempts = do
    start ← perf_counter
    outcome ← attempt (route_and_execute floats models request get_connector rates max_attempts)
    record_execution request max_attempts start outcome

  -- What the speech routes do with the outcome, for the tokens of the request and those of the result.
  unfoldable pub record_speech :
      {R : Type 0}
      → Caller
      → ℕ
      → (R → ℕ)
      → (max_attempts : ℕ) → F
      → Result (Error F) (ExecutionOutcome F R)
      → M (State W F) (Error F) (ExecutionOutcome F R)
  record_speech caller input_tokens output_tokens max_attempts start (err e) =
      record_failure caller (floats.ratio 0 1) input_tokens max_attempts start e
  record_speech caller input_tokens output_tokens max_attempts start (ok o) = do
    now ← perf_counter
    record_usage
        (answered_record caller o.model (bare_decision [] o.model.id (floats.ratio 0 1))
          (latency start now) input_tokens (output_tokens o.result) 0 false)
        (request_completed caller.correlation_id o.model.id 0 false)
    pure o

  -- `characters` is the length of the text of a transcription.
  unfoldable pub transcribe_and_record :
      {R : Type 0}
      → List (ModelDescriptor F)
      → Caller
      → (characters : R → ℕ) → GetConnector W F R
      → (max_attempts : ℕ) → M (State W F) (Error F) (ExecutionOutcome F R)
  transcribe_and_record models caller characters get_connector max_attempts = do
    start ← perf_counter
    outcome ← attempt (
        route_and_transcribe floats models caller.privacy_hint get_connector (λ _. none)
          max_attempts)
    record_speech caller 0 (λ r. approximate_token_count (characters r)) max_attempts start outcome

  -- `characters` is the length of the text to speak.
  unfoldable pub synthesize_and_record :
      {R : Type 0}
      → List (ModelDescriptor F)
      → Caller
      → (characters : ℕ) → GetConnector W F R
      → (max_attempts : ℕ) → M (State W F) (Error F) (ExecutionOutcome F R)
  synthesize_and_record models caller characters get_connector max_attempts = do
    start ← perf_counter
    outcome ← attempt (
        route_and_synthesize floats models caller.privacy_hint get_connector (λ _. none)
          max_attempts)
    record_speech caller (approximate_token_count characters) (λ _. 0) max_attempts start outcome
