-- ===== src/Router/Perceive.antt =====
-- domain/router.py: `_route_and_record_perception`, whose loop records as it goes.
pub mod Careful
pub mod Safety
use nova_project_bible.Common.{
  ℕ, zero, suc, Uuid, Option, none, some, List, [], ◌∷◌, ◌++◌, Bool, true, false,
}
use nova_project_bible.Common.Effects.{Result, ok, err, M, ◌>>=◌, ◌>>◌, pure, raise}
use nova_project_bible.Router.Model.{
  Modality, CapabilityDimension, ModelDescriptor, RoutingDecision, UsageRecord, UsageOutcome,
  failed, request_completed, request_failed, wake_phrase_detection, voice_embedding, face_embedding,
  gaze_estimation, wake_phrase_detection_accuracy, voice_embedding_quality, face_embedding_quality,
  gaze_estimation_accuracy,
}
use nova_project_bible.Router.Plan.{Floats, plan_perception_routing}
use nova_project_bible.Router.Route.{
  Error, fallback_exhausted, key_error, connector_unavailable, State, Connector, GetConnector,
  Planner, by_id,
}
use nova_project_bible.Router.Record.{
  Services, Caller, perf_counter, record_usage, bare_decision, answered_record, latency, first_id,
}

module _ {W F : Type 0} (floats : Floats F) (services : Services W F) where
  abbrev pub given_up_record : Caller → (max_attempts : ℕ) → List Uuid → F → UsageRecord F
  given_up_record caller max_attempts tried elapsed = record {
    correlation_id = caller.correlation_id;
    requesting_engine = caller.requesting_engine;
    provider = none;
    model_id = first_id tried;
    routing_decision = bare_decision floats services [] (first_id tried) (floats.ratio 0 1);
    latency_ms = elapsed;
    input_tokens = 0;
    output_tokens = 0;
    estimated_cost = floats.ratio 0 1;
    retry_count = max_attempts;
    fallback_used = true;
    privacy_classification = caller.privacy_hint;
    outcome = failed;
  }

  -- The record of the tried models, and the exception.
  unfoldable pub give_up :
      {R : Type 0}
      → Caller
      → (max_attempts : ℕ) → F
      → List Uuid
      → RoutingDecision F
      → M (State W F) (Error F) (ModelDescriptor F × R)
  give_up caller max_attempts start tried decision = do
    now ← perf_counter floats services
    record_usage floats services
        (given_up_record caller max_attempts tried (latency floats services start now))
        (request_failed caller.correlation_id tried)
    raise (fallback_exhausted decision.candidates)

  abbrev pub perceived_record : Caller → ModelDescriptor F → F → UsageRecord F
  perceived_record caller model elapsed =
      answered_record floats services caller model
        (bare_decision floats services [] model.id (floats.ratio 0 1)) elapsed 0 0 0 false

  -- The record of an answer.
  unfoldable pub record_answer :
      {R : Type 0}
      → Caller
      → F
      → ModelDescriptor F
      → R
      → M (State W F) (Error F) (ModelDescriptor F × R)
  record_answer caller start model result = do
    now ← perf_counter floats services
    record_usage floats services (perceived_record caller model (latency floats services start now))
        (request_completed caller.correlation_id model.id 0 false)
    pure (model, result)

  -- The body of the `try`: the call of the model, and the record of its answer.
  unfoldable pub call_and_record :
      {R : Type 0}
      → Caller
      → F
      → Connector W R
      → ModelDescriptor F
      → State W F
      → Option (ModelDescriptor F × R) × State W F
  call_and_record caller start connector model s =
      let (answer, w) = connector s.world in
      let after : State W F = record s { world = w; called = s.called ++ model.id ∷ [] } in
      elim answer [
        | none ↦ (none, after)
        | some result ↦
            let (r, t) = record_answer caller start model result after in
            elim r [ ok reply ↦ (some reply, t) | err _ ↦ (none, t) ]
      ]

  module _ {R : Type 0} (models : List (ModelDescriptor F)) (planner : Planner F)
      (get_connector : GetConnector W F R) (caller : Caller) (max_attempts : ℕ) (start : F) where
    unfoldable pub perceive_from :
        (remaining : ℕ)
        → List Uuid
        → RoutingDecision F
        → M (State W F) (Error F) (ModelDescriptor F × R)
    perceive_from zero tried decision s = give_up caller max_attempts start tried decision s
    perceive_from (suc remaining) tried decision s =
        elim (by_id decision.selected_model_id models) [
          | none ↦ (err key_error, s)
          | some model ↦
              let (got, v) = get_connector model s.world in
              let obtained : State W F = record s { world = v } in
              elim got [
                | none ↦ (err connector_unavailable, obtained)
                | some connector ↦
                    let (reply, t) = call_and_record caller start connector model obtained in
                    let tried_now = tried ++ decision.selected_model_id ∷ [] in
                    elim reply [
                      | some answer ↦ (ok answer, t)
                      | none ↦ elim (planner tried_now (some decision.selected_model_id)) [
                        | none ↦ give_up caller max_attempts start tried_now decision t
                        | some next ↦ perceive_from remaining tried_now next t
                      ]
                    ]
              ]
        ]

  -- The clock is read before the first plan, which is outside the loop's `try`.
  unfoldable pub route_and_record_perception :
      {R : Type 0}
      → List (ModelDescriptor F)
      → Modality
      → CapabilityDimension
      → Caller
      → GetConnector W F R
      → (max_attempts : ℕ) → M (State W F) (Error F) (ModelDescriptor F × R)
  route_and_record_perception models modality dimension caller get_connector max_attempts s =
      let planner = plan_perception_routing floats models modality dimension caller.privacy_hint in
      let (start, w) = services.perf_counter s.world in
      let begun : State W F = record s { world = w } in
      elim (planner [] none) [
        | none ↦ (err (fallback_exhausted []), begun)
        | some decision ↦
            perceive_from models planner get_connector caller max_attempts start max_attempts []
              decision begun
      ]

  unfoldable pub detect_wake_phrase_and_record :
      {R : Type 0}
      → List (ModelDescriptor F)
      → Caller
      → GetConnector W F R
      → (max_attempts : ℕ) → M (State W F) (Error F) (ModelDescriptor F × R)
  detect_wake_phrase_and_record models =
      route_and_record_perception models wake_phrase_detection wake_phrase_detection_accuracy

  unfoldable pub embed_voice_and_record :
      {R : Type 0}
      → List (ModelDescriptor F)
      → Caller
      → GetConnector W F R
      → (max_attempts : ℕ) → M (State W F) (Error F) (ModelDescriptor F × R)
  embed_voice_and_record models =
      route_and_record_perception models voice_embedding voice_embedding_quality

  unfoldable pub embed_face_and_record :
      {R : Type 0}
      → List (ModelDescriptor F)
      → Caller
      → GetConnector W F R
      → (max_attempts : ℕ) → M (State W F) (Error F) (ModelDescriptor F × R)
  embed_face_and_record models =
      route_and_record_perception models face_embedding face_embedding_quality

  unfoldable pub estimate_gaze_and_record :
      {R : Type 0}
      → List (ModelDescriptor F)
      → Caller
      → GetConnector W F R
      → (max_attempts : ℕ) → M (State W F) (Error F) (ModelDescriptor F × R)
  estimate_gaze_and_record models =
      route_and_record_perception models gaze_estimation gaze_estimation_accuracy
