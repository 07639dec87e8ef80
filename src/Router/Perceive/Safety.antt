-- ===== src/Router/Perceive/Safety.antt =====
-- What may reach a model through the four perception routes.
use nova_project_bible.Common.{
  ℕ, Uuid, Option, none, some, List, [], ◌≡◌, sym, arith, append-nil, Option-cases, inl, inr,
}
use nova_project_bible.Router.Model.{
  Modality, CapabilityDimension, ModelDescriptor, RoutingDecision, wake_phrase_detection,
  voice_embedding, face_embedding, gaze_estimation,
}
use nova_project_bible.Router.Plan.{Floats, plan_perception_routing}
use nova_project_bible.Router.Route.{State, GetConnector}
use nova_project_bible.Router.Record.{Services, Caller}
use nova_project_bible.Router.Perceive.{
  route_and_record_perception, detect_wake_phrase_and_record, embed_voice_and_record,
  embed_face_and_record, estimate_gaze_and_record,
}
use nova_project_bible.Router.Perceive.Careful.{Perceived, perceive_from-Perceived}
use nova_project_bible.Router.Pool.{IsDistinct, Serves, plan-Serves}
use nova_project_bible.Router.Attempts.{start}

module _ {W F : Type 0} (floats : Floats F) (services : Services W F)
    (models : List (ModelDescriptor F)) (distinct : IsDistinct models) (caller : Caller)
    (max_attempts : ℕ) (s : State W F) where
  plan_perception_routing-Serves :
      (modality : Modality) (dimension : CapabilityDimension) (exclude : List Uuid)
      (fallback_from : Option Uuid) (d : RoutingDecision F)
      → plan_perception_routing floats models modality dimension caller.privacy_hint exclude
          fallback_from
        ≡ some d
      → Serves models modality caller.privacy_hint exclude d.selected_model_id
  unfolding plan_perception_routing
  plan_perception_routing-Serves modality dimension exclude fallback_from d e =
      plan-Serves floats models (λ _. none) modality dimension caller.privacy_hint
        (floats.ratio 0 1) exclude fallback_from d distinct e

  route_and_record_perception-Perceived :
      {R : Type 0} (modality : Modality) (dimension : CapabilityDimension)
      (get_connector : GetConnector W F R)
      → Perceived models modality caller.privacy_hint max_attempts s.called (
          route_and_record_perception floats services models modality dimension caller get_connector
            max_attempts s)
  unfolding route_and_record_perception
  route_and_record_perception-Perceived modality dimension get_connector =
      let planner = plan_perception_routing floats models modality dimension caller.privacy_hint in
      let (begin, w) = services.perf_counter s.world in
      let begun : State W F = record s { world = w } in
      elim (Option-cases (planner [] none)) [
        | inl e ↦
            rw (route_and_record_perception, e)
              (record {
                tried = [];
                grows = sym (append-nil s.called);
                trail = start;
                bounded = omega (arith);
              })
        | inr (d, e) ↦
            rw (route_and_record_perception, e)
              (perceive_from-Perceived floats services models modality caller.privacy_hint planner
                get_connector caller max_attempts begin s.called
                (plan_perception_routing-Serves modality dimension) max_attempts [] d begun
                (sym (append-nil s.called)) start (omega (arith))
                (plan_perception_routing-Serves modality dimension [] none d e))
      ]

  -- The four routes over one kind of sample each.
  pub record SamplesGuarded {R : Type 0} (get_connector : GetConnector W F R) : Type 0 where
    pub detect_wake_phrase :
        Perceived models wake_phrase_detection caller.privacy_hint max_attempts s.called
          (detect_wake_phrase_and_record floats services models caller get_connector max_attempts s)
    pub embed_voice :
        Perceived models voice_embedding caller.privacy_hint max_attempts s.called
          (embed_voice_and_record floats services models caller get_connector max_attempts s)
    pub embed_face :
        Perceived models face_embedding caller.privacy_hint max_attempts s.called
          (embed_face_and_record floats services models caller get_connector max_attempts s)
    pub estimate_gaze :
        Perceived models gaze_estimation caller.privacy_hint max_attempts s.called
          (estimate_gaze_and_record floats services models caller get_connector max_attempts s)

  -- Whatever models, clock and repository do, each of the four recording perception routes over
  -- models with distinct ids calls at most as many models as its attempts, only ones that have its
  -- modality, are not unhealthy and are cleared for the privacy level of the caller, and none twice.
  pub samples-SamplesGuarded :
      {R : Type 0} (get_connector : GetConnector W F R) → SamplesGuarded get_connector
  unfolding detect_wake_phrase_and_record embed_voice_and_record embed_face_and_record
      estimate_gaze_and_record
  samples-SamplesGuarded get_connector = record {
    detect_wake_phrase =
        route_and_record_perception-Perceived wake_phrase_detection _ get_connector;
    embed_voice = route_and_record_perception-Perceived voice_embedding _ get_connector;
    embed_face = route_and_record_perception-Perceived face_embedding _ get_connector;
    estimate_gaze = route_and_record_perception-Perceived gaze_estimation _ get_connector;
  }
