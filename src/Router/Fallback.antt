-- ===== src/Router/Fallback.antt =====
-- Fallback in `route_and_execute` and its siblings.
use nova_project_bible.Common.{
  ℕ, Uuid, Option, none, List, [], ◌++◌, ◌≡◌, ◌≤◌, ◌⊎◌, refl, inl, inr, length,
}
use nova_project_bible.Common.Effects.{Result, err}
use nova_project_bible.Router.Model.{
  PrivacyLevel, ScoredCandidate, Modality, CapabilityDimension, ModelDescriptor, GenerateRequest,
  GenerateResult, speech_to_text, text_to_speech, speech_recognition_accuracy,
  speech_synthesis_quality, wake_phrase_detection, voice_embedding, face_embedding, gaze_estimation,
  wake_phrase_detection_accuracy, voice_embedding_quality, face_embedding_quality,
  gaze_estimation_accuracy,
}
use nova_project_bible.Router.Plan.{
  Floats, candidates_pool, estimate_complexity, task_type_to_dimension, modality_of, plan,
  plan_routing, plan_transcribe_routing, plan_synthesize_routing, plan_perception_routing,
}
use nova_project_bible.Router.Route.{
  Error, fallback_exhausted, connector_unavailable, State, GetConnector, ExecutionOutcome, route,
  route_and_execute, route_and_transcribe, route_and_synthesize, route_and_detect_wake_phrase,
  route_and_embed_voice, route_and_embed_face, route_and_estimate_gaze,
}
use nova_project_bible.Router.Pool.{IsDistinct, Serves, plan-Serves, plan-none}
use nova_project_bible.Router.Attempts.{Trail, route-Routed}

module _ {W F : Type 0} (floats : Floats F) (models : List (ModelDescriptor F)) where
  -- Why a route raises: its attempts are used up or no model that may serve the request is left, or
  -- `get_connector` has refused the next one.
  pub data Ends {R : Type 0} (modality : Modality) (privacy : PrivacyLevel) (max_attempts : ℕ)
      (get_connector : GetConnector W F R) (tried : List Uuid) (e : Error F) : Type 0 where
    used_up :
        (attempted : List (ScoredCandidate F))
        → e ≡ fallback_exhausted attempted
        → (length tried ≡ max_attempts) ⊎ (candidates_pool models modality privacy tried ≡ [])
        → Ends modality privacy max_attempts get_connector tried e
    refused :
        {i : Uuid} (serves : Serves models modality privacy tried i) (world : W)
        → e ≡ connector_unavailable
        → (get_connector serves.model world).0 ≡ none
        → Ends modality privacy max_attempts get_connector tried e

  -- Only models that may serve the request are called, each once, and it raises for a reason.
  pub record Careful {R : Type 0} (modality : Modality) (privacy : PrivacyLevel) (max_attempts : ℕ)
      (get_connector : GetConnector W F R) (before : List Uuid)
      (out : Result (Error F) (ExecutionOutcome F R) × State W F) : Type 0 where
    pub tried : List Uuid
    pub grows : out.1.called ≡ before ++ tried
    pub trail : Trail models modality privacy tried
    pub bounded : length tried ≤ max_attempts
    pub ends :
        (e : Error F) → out.0 ≡ err e → Ends modality privacy max_attempts get_connector tried e

  route-Careful :
      {R : Type 0} (rates : Uuid → Option F) (modality : Modality) (dimension : CapabilityDimension)
      (privacy : PrivacyLevel) (complexity : F) (get_connector : GetConnector W F R)
      (max_attempts : ℕ) (s : State W F)
      → IsDistinct models
      → Careful modality privacy max_attempts get_connector s.called (
          route models
            (plan floats models rates modality dimension privacy complexity)
            get_connector
            max_attempts
            s)
  route-Careful rates modality dimension privacy complexity get_connector max_attempts s distinct =
      let planner = plan floats models rates modality dimension privacy complexity in
      let routed =
        route-Routed models modality privacy planner get_connector max_attempts s.called
          (λ exclude fallback_from d e.
            plan-Serves floats models rates modality dimension privacy complexity exclude
              fallback_from d distinct e)
          s refl in
      record {
        tried = routed.tried;
        grows = routed.grows;
        trail = routed.trail;
        bounded = routed.bounded;
        ends = λ e q. elim (routed.gave_up e q) [
          | inl x ↦ used_up x.attempted x.is_exhausted (elim x.ran_out [
            | inl count ↦ inl count
            | inr (fallback_from, p) ↦ inr (
                plan-none floats models rates modality dimension privacy complexity routed.tried
                  fallback_from p)
          ])
          | inr x ↦ refused x.serves x.world x.is_unavailable x.refuses
        ];
      }

  module _ (distinct : IsDistinct models) (s : State W F) where
    -- Whatever the connectors answer and however models score, `route_and_execute` over models with
    -- distinct ids calls at most as many models as its attempts, only ones that have the modality of
    -- the request, are not unhealthy and are cleared for its privacy level, and none of them twice. It
    -- raises only when its attempts are used up, when no such model is left untried, or when
    -- `get_connector` refuses such a model.
    pub route_and_execute-Careful :
        (request : GenerateRequest) (get_connector : GetConnector W F GenerateResult)
        (rates : Uuid → Option F) (max_attempts : ℕ)
        → Careful
            (modality_of floats request)
            request.privacy_hint
            max_attempts
            get_connector
            s.called
            (route_and_execute floats models request get_connector rates max_attempts s)
    unfolding route_and_execute plan_routing
    route_and_execute-Careful request get_connector rates max_attempts =
        route-Careful rates (modality_of floats request) (task_type_to_dimension request.task_type)
          request.privacy_hint (estimate_complexity floats request) get_connector max_attempts s
          distinct

    -- The results for speech and for perception.
    pub record SensesCareful {R : Type 0} (privacy : PrivacyLevel)
        (get_connector : GetConnector W F R) (max_attempts : ℕ) : Type 0 where
      pub transcribe :
          Careful speech_to_text privacy max_attempts get_connector s.called
            (route_and_transcribe floats models privacy get_connector (λ _. none) max_attempts s)
      pub synthesize :
          Careful text_to_speech privacy max_attempts get_connector s.called
            (route_and_synthesize floats models privacy get_connector (λ _. none) max_attempts s)
      pub detect_wake_phrase :
          Careful wake_phrase_detection privacy max_attempts get_connector s.called
            (route_and_detect_wake_phrase floats models privacy get_connector max_attempts s)
      pub embed_voice :
          Careful voice_embedding privacy max_attempts get_connector s.called
            (route_and_embed_voice floats models privacy get_connector max_attempts s)
      pub embed_face :
          Careful face_embedding privacy max_attempts get_connector s.called
            (route_and_embed_face floats models privacy get_connector max_attempts s)
      pub estimate_gaze :
          Careful gaze_estimation privacy max_attempts get_connector s.called
            (route_and_estimate_gaze floats models privacy get_connector max_attempts s)

    -- The same holds of transcription, synthesis, wake phrases, voice and face embedding and gaze
    -- estimation, over models with distinct ids: a sample reaches only models cleared for its privacy
    -- level, none of them twice, and a route raises only when its attempts are used up, when no such
    -- model is left untried, or when `get_connector` refuses such a model.
    pub senses-SensesCareful :
        {R : Type 0} (privacy : PrivacyLevel) (get_connector : GetConnector W F R)
        (max_attempts : ℕ)
        → SensesCareful privacy get_connector max_attempts
    unfolding route_and_transcribe route_and_synthesize route_and_detect_wake_phrase
        route_and_embed_voice route_and_embed_face route_and_estimate_gaze plan_transcribe_routing
        plan_synthesize_routing plan_perception_routing
    senses-SensesCareful privacy get_connector max_attempts =
        let careful = λ (modality : Modality) (dimension : CapabilityDimension).
          route-Careful (λ _. none) modality dimension privacy (floats.ratio 0 1) get_connector
            max_attempts s distinct in
        record {
          transcribe = careful speech_to_text speech_recognition_accuracy;
          synthesize = careful text_to_speech speech_synthesis_quality;
          detect_wake_phrase = careful wake_phrase_detection wake_phrase_detection_accuracy;
          embed_voice = careful voice_embedding voice_embedding_quality;
          embed_face = careful face_embedding face_embedding_quality;
          estimate_gaze = careful gaze_estimation gaze_estimation_accuracy;
        }
