-- ===== src/Router/Route.antt =====
-- domain/router.py: the attempts on the planned models, and the usage records.
use nova_project_bible.Common.{
  ℕ, zero, suc, Uuid, Option, none, some, List, [], ◌∷◌, ◌++◌, Bool, ◌==◌, if◌then◌else◌, ltb,
}
use nova_project_bible.Common.Effects.{ok, err, M}
use nova_project_bible.Router.Model.{
  PrivacyLevel, Modality, CapabilityDimension, ModelDescriptor, ScoredCandidate, RoutingDecision,
  GenerateRequest, GenerateResult, UsageRecord, UsageEvent, wake_phrase_detection, voice_embedding,
  face_embedding, gaze_estimation, wake_phrase_detection_accuracy, voice_embedding_quality,
  face_embedding_quality, gaze_estimation_accuracy,
}
use nova_project_bible.Router.Plan.{
  Floats, plan_routing, plan_transcribe_routing, plan_synthesize_routing, plan_perception_routing,
}

pub data Error (F : Type 0) : Type 0 where
  fallback_exhausted : (attempted : List (ScoredCandidate F)) → Error F
  key_error connector_unavailable repository_raised : Error F

-- The state of everything outside, the models whose connector was called, and what was recorded.
pub record State (W F : Type 0) : Type 0 where
  pub world : W
  pub called : List Uuid
  pub usage : List (UsageRecord F)
  pub outbox : List UsageEvent

-- A connector answers, or raises: `none`.
abbrev pub Connector : Type 0 → Type 0 → Type 0
Connector W R = W → Option R × W

-- `get_connector` gives the connector of a model, or raises ConnectorUnavailableError: `none`. The
-- loops call it outside their `try`.
abbrev pub GetConnector : Type 0 → Type 0 → Type 0 → Type 0
GetConnector W F R = ModelDescriptor F → W → Option (Connector W R) × W

abbrev pub Planner : Type 0 → Type 0
Planner F = (exclude : List Uuid) → (fallback_from : Option Uuid) → Option (RoutingDecision F)

-- ExecutionOutcome, with the model that the callers look up again.
pub record ExecutionOutcome (F R : Type 0) : Type 0 where
  pub result : R
  pub model : ModelDescriptor F
  pub decision : RoutingDecision F
  pub retry_count : ℕ
  pub fallback_used : Bool

-- models_by_id: of two models with one id, the last.
unfoldable pub by_id : {F : Type 0} → Uuid → List (ModelDescriptor F) → Option (ModelDescriptor F)
by_id i [] = none
by_id i (m ∷ ms) = elim (by_id i ms) [
  | some later ↦ some later
  | none ↦ if m.id == i then some m else none
]

module _ {W F R : Type 0} (models : List (ModelDescriptor F)) (planner : Planner F)
    (get_connector : GetConnector W F R) where
  -- The loop on attempts: what remains of `max_attempts`, the attempts made, and the models tried.
  unfoldable pub attempt_from :
      (remaining attempt : ℕ)
      → List Uuid
      → RoutingDecision F
      → M (State W F) (Error F) (ExecutionOutcome F R)
  attempt_from zero attempt tried decision s = (err (fallback_exhausted decision.candidates), s)
  attempt_from (suc remaining) attempt tried decision s =
      elim (by_id decision.selected_model_id models) [
        | none ↦ (err key_error, s)
        | some model ↦
            let (got, v) = get_connector model s.world in
            elim got [
              | none ↦ (err connector_unavailable, record s { world = v })
              | some connector ↦
                  let (answer, w) = connector v in
                  let after : State W F = record s {
                    world = w;
                    called = s.called ++ model.id ∷ [];
                  } in
                  let tried_now = tried ++ decision.selected_model_id ∷ [] in
                  elim answer [
                    | some result ↦ (
                      ok (record {
                        result = result;
                        model = model;
                        decision = decision;
                        retry_count = attempt;
                        fallback_used = ltb 0 attempt;
                      }),
                      after,
                    )
                    | none ↦ elim (planner tried_now (some decision.selected_model_id)) [
                      | none ↦ (err (fallback_exhausted decision.candidates), after)
                      | some next ↦ attempt_from remaining (suc attempt) tried_now next after
                    ]
                  ]
            ]
      ]

  -- The routine that the modalities share.
  unfoldable pub route : (max_attempts : ℕ) → M (State W F) (Error F) (ExecutionOutcome F R)
  route max_attempts s = elim (planner [] none) [
    | none ↦ (err (fallback_exhausted []), s)
    | some decision ↦ attempt_from max_attempts 0 [] decision s
  ]

module _ {W F : Type 0} (floats : Floats F) (models : List (ModelDescriptor F)) where
  unfoldable pub route_and_execute :
      GenerateRequest
      → GetConnector W F GenerateResult
      → (Uuid → Option F)
      → (max_attempts : ℕ) → M (State W F) (Error F) (ExecutionOutcome F GenerateResult)
  route_and_execute request get_connector rates =
      route models (plan_routing floats request models rates) get_connector

  unfoldable pub route_and_transcribe :
      {R : Type 0}
      → PrivacyLevel
      → GetConnector W F R
      → (Uuid → Option F)
      → (max_attempts : ℕ) → M (State W F) (Error F) (ExecutionOutcome F R)
  route_and_transcribe privacy get_connector rates =
      route models (plan_transcribe_routing floats models privacy rates) get_connector

  unfoldable pub route_and_synthesize :
      {R : Type 0}
      → PrivacyLevel
      → GetConnector W F R
      → (Uuid → Option F)
      → (max_attempts : ℕ) → M (State W F) (Error F) (ExecutionOutcome F R)
  route_and_synthesize privacy get_connector rates =
      route models (plan_synthesize_routing floats models privacy rates) get_connector

  abbrev pub route_perception :
      {R : Type 0}
      → Modality
      → CapabilityDimension
      → PrivacyLevel
      → GetConnector W F R
      → (max_attempts : ℕ) → M (State W F) (Error F) (ExecutionOutcome F R)
  route_perception modality dimension privacy get_connector =
      route models (plan_perception_routing floats models modality dimension privacy) get_connector

  unfoldable pub route_and_detect_wake_phrase :
      {R : Type 0}
      → PrivacyLevel
      → GetConnector W F R
      → (max_attempts : ℕ) → M (State W F) (Error F) (ExecutionOutcome F R)
  route_and_detect_wake_phrase =
      route_perception wake_phrase_detection wake_phrase_detection_accuracy

  unfoldable pub route_and_embed_voice :
      {R : Type 0}
      → PrivacyLevel
      → GetConnector W F R
      → (max_attempts : ℕ) → M (State W F) (Error F) (ExecutionOutcome F R)
  route_and_embed_voice = route_perception voice_embedding voice_embedding_quality

  unfoldable pub route_and_embed_face :
      {R : Type 0}
      → PrivacyLevel
      → GetConnector W F R
      → (max_attempts : ℕ) → M (State W F) (Error F) (ExecutionOutcome F R)
  route_and_embed_face = route_perception face_embedding face_embedding_quality

  unfoldable pub route_and_estimate_gaze :
      {R : Type 0}
      → PrivacyLevel
      → GetConnector W F R
      → (max_attempts : ℕ) → M (State W F) (Error F) (ExecutionOutcome F R)
  route_and_estimate_gaze = route_perception gaze_estimation gaze_estimation_accuracy
