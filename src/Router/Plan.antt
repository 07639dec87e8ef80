-- ===== src/Router/Plan.antt =====
-- domain/capability_matrix.py, and the planning of domain/router.py.
use nova_project_bible.Common.{
  ℕ, ◌+◌, Uuid, String, Option, none, some, List, [], ◌∷◌, Bool, false, not, ◌&&◌, ◌||◌, ◌==◌, ltb,
  leb, if◌then◌else◌, str_eq, length, keep, contains, map,
}
use nova_project_bible.Router.Model.{
  PrivacyLevel, Modality, text_generation, tool_calling, CapabilityDimension, general_conversation,
  programming, reasoning, mathematics, translation, vision, speech, planning, creativity, research,
  tool_usage, long_context, ModelDescriptor, ScoredCandidate, RoutingDecision, GenerateRequest,
  modality_number, is_unhealthy, privacy_rank, speech_to_text, text_to_speech,
  speech_recognition_accuracy, speech_synthesis_quality,
}

-- Python's floats: `ratio n d` is the quotient of two integers, which also stands for a literal.
pub record Floats (F : Type 0) : Type 0 where
  pub ratio : ℕ → ℕ → F
  pub add : F → F → F
  pub sub : F → F → F
  pub mul : F → F → F
  pub div : F → F → F
  pub lt : F → F → Bool
  pub eq : F → F → Bool
  pub round : F → ℕ → F

-- _TASK_TYPE_DIMENSION, with the fixed _TASK_BASE_COMPLEXITY in tenths.
abbrev pub task_types : List (String × CapabilityDimension × ℕ)
task_types =
    ("general_conversation", general_conversation, 2)
    ∷ ("programming", programming, 6)
    ∷ ("code_review", programming, 6)
    ∷ ("reasoning", reasoning, 8)
    ∷ ("mathematics", mathematics, 7)
    ∷ ("translation", translation, 2)
    ∷ ("vision", vision, 4)
    ∷ ("speech", speech, 4)
    ∷ ("planning", planning, 8)
    ∷ ("creativity", creativity, 3)
    ∷ ("research", research, 6)
    ∷ ("tool_usage", tool_usage, 5)
    ∷ ("long_context", long_context, 5)
    ∷ []

unfoldable pub look_up_task :
    String → List (String × CapabilityDimension × ℕ) → CapabilityDimension × ℕ
look_up_task t [] = (general_conversation, 3)
look_up_task t ((name, dimension, tenths) ∷ rows) =
    if str_eq name t then (dimension, tenths) else look_up_task t rows

unfoldable pub task_type_to_dimension : String → CapabilityDimension
task_type_to_dimension t = (look_up_task t task_types).0

unfoldable pub has_modality : Modality → List Modality → Bool
has_modality modality [] = false
has_modality modality (m ∷ ms) =
    (modality_number m == modality_number modality) || has_modality modality ms

unfoldable pub total : List ℕ → ℕ
total [] = 0
total (n ∷ ns) = n + total ns

module _ {F : Type 0} where
  unfoldable pub is_available : Modality → ModelDescriptor F → Bool
  is_available modality m = has_modality modality m.modalities && not (is_unhealthy m.health_status)

  unfoldable pub is_eligible : Modality → PrivacyLevel → ModelDescriptor F → Bool
  is_eligible modality privacy m =
      is_available modality m && leb (privacy_rank privacy) (privacy_rank m.max_privacy_tier)

  unfoldable pub eligible_candidates :
      List (ModelDescriptor F) → Modality → PrivacyLevel → List (ModelDescriptor F)
  eligible_candidates models modality privacy = keep (is_eligible modality privacy) models

  unfoldable pub candidates_pool :
      List (ModelDescriptor F) → Modality → PrivacyLevel → List Uuid → List (ModelDescriptor F)
  candidates_pool models modality privacy exclude =
      keep (λ m. not (contains m.id exclude)) (eligible_candidates models modality privacy)

  abbrev pub decision_of :
      List (ScoredCandidate F) → Option Uuid → Bool → F → Option (RoutingDecision F)
  decision_of [] fallback_from constrained complexity = none
  decision_of (top ∷ rest) fallback_from constrained complexity = some (record {
    candidates = top ∷ rest;
    selected_model_id = top.model_id;
    fallback_from = fallback_from;
    privacy_constraint_applied = constrained;
    estimated_complexity = complexity;
  })

module _ {F : Type 0} (floats : Floats F) where
  abbrev pub or_zero : Option F → F
  or_zero none = floats.ratio 0 1
  or_zero (some c) = c

  abbrev pub cost_per_token : ModelDescriptor F → F
  cost_per_token model =
      floats.add (or_zero model.cost_per_input_token) (or_zero model.cost_per_output_token)

  abbrev pub latency_of : ModelDescriptor F → F
  latency_of model = elim model.avg_latency_ms [ none ↦ floats.ratio 2000 1 | some l ↦ l ]

  abbrev pub weighed : F → F → F → F → F
  weighed capability cost latency success =
      floats.add
        (floats.add
          (floats.add (floats.mul capability (floats.ratio 5 10))
            (floats.mul cost (floats.ratio 15 100)))
          (floats.mul latency (floats.ratio 15 100)))
        (floats.mul success (floats.ratio 2 10))

  -- 1.0 / (1.0 + x)
  abbrev pub inverted : F → F
  inverted x = floats.div (floats.ratio 1 1) (floats.add (floats.ratio 1 1) x)

  -- _score
  unfoldable pub score : ModelDescriptor F → CapabilityDimension → Option F → ScoredCandidate F
  score model dimension rate =
      let capability = or_zero (model.capability_scores dimension) in
      let cost = inverted (floats.mul (cost_per_token model) (floats.ratio 1000 1)) in
      let latency = inverted (floats.div (latency_of model) (floats.ratio 1000 1)) in
      let success : F = elim rate [ none ↦ floats.ratio 5 10 | some r ↦ r ] in
      record {
        model_id = model.id;
        capability_score = capability;
        cost_score = cost;
        latency_score = latency;
        historical_success_rate = rate;
        composite_score = floats.round (weighed capability cost latency success) 6;
      }

  abbrev pub at_most_one : F → F
  at_most_one x = if floats.lt (floats.ratio 1 1) x then floats.ratio 1 1 else x

  unfoldable pub estimate_complexity : GenerateRequest → F
  estimate_complexity request =
      let task = floats.ratio (look_up_task request.task_type task_types).1 10 in
      let context = at_most_one (floats.ratio (total request.context_tokens) 32000) in
      let tools = at_most_one (floats.ratio request.tools 5) in
      floats.round
        (floats.add
          (floats.add (floats.mul (floats.ratio 4 10) task)
            (floats.mul (floats.ratio 3 10) context))
          (floats.mul (floats.ratio 3 10) tools))
        4

  -- The sort key (-composite_score, str(model_id)); the text order of ids is that of the numbers.
  unfoldable pub precedes : ScoredCandidate F → ScoredCandidate F → Bool
  precedes a b =
      if floats.eq a.composite_score b.composite_score
      then ltb a.model_id b.model_id
      else floats.lt b.composite_score a.composite_score

  unfoldable pub insert_scored :
      ScoredCandidate F → List (ScoredCandidate F) → List (ScoredCandidate F)
  insert_scored c [] = c ∷ []
  insert_scored c (x ∷ xs) =
      let rest = insert_scored c xs in if precedes x c then x ∷ rest else c ∷ x ∷ xs

  unfoldable pub sort_scored : List (ScoredCandidate F) → List (ScoredCandidate F)
  sort_scored [] = []
  sort_scored (c ∷ cs) = insert_scored c (sort_scored cs)

  -- The planning that the modalities share; `none` is FallbackExhaustedError([]).
  unfoldable pub plan :
      List (ModelDescriptor F)
      → (Uuid → Option F)
      → Modality
      → CapabilityDimension
      → PrivacyLevel
      → F
      → (exclude : List Uuid) → (fallback_from : Option Uuid) → Option (RoutingDecision F)
  plan models rates modality dimension privacy complexity exclude fallback_from =
      let pool = candidates_pool models modality privacy exclude in
      decision_of (sort_scored (map (λ m. score m dimension (rates m.id)) pool)) fallback_from
        (ltb (length pool + length exclude) (length (keep (is_available modality) models)))
        complexity

  abbrev pub modality_of : GenerateRequest → Modality
  modality_of request = if request.tools == 0 then text_generation else tool_calling

  unfoldable pub plan_routing :
      GenerateRequest
      → List (ModelDescriptor F)
      → (Uuid → Option F)
      → List Uuid
      → Option Uuid
      → Option (RoutingDecision F)
  plan_routing request models rates =
      plan models rates (modality_of request) (task_type_to_dimension request.task_type)
        request.privacy_hint (estimate_complexity request)

  unfoldable pub plan_transcribe_routing :
      List (ModelDescriptor F)
      → PrivacyLevel
      → (Uuid → Option F)
      → List Uuid
      → Option Uuid
      → Option (RoutingDecision F)
  plan_transcribe_routing models privacy rates =
      plan models rates speech_to_text speech_recognition_accuracy privacy (floats.ratio 0 1)

  unfoldable pub plan_synthesize_routing :
      List (ModelDescriptor F)
      → PrivacyLevel
      → (Uuid → Option F)
      → List Uuid
      → Option Uuid
      → Option (RoutingDecision F)
  plan_synthesize_routing models privacy rates =
      plan models rates text_to_speech speech_synthesis_quality privacy (floats.ratio 0 1)

  -- _plan_perception_routing, without success rates as its callers leave them.
  unfoldable pub plan_perception_routing :
      List (ModelDescriptor F)
      → Modality
      → CapabilityDimension
      → PrivacyLevel
      → List Uuid
      → Option Uuid
      → Option (RoutingDecision F)
  plan_perception_routing models modality dimension privacy =
      plan models (λ _. none) modality dimension privacy (floats.ratio 0 1)
