-- ===== src/Router/Model.antt =====
-- domain/models.py: models, requests, decisions and records. `F` is the type of floats.
use nova_project_bible.Common.{ℕ, Uuid, String, Option, List, Bool, true, false}

pub data PrivacyLevel : Type 0 where
  public internal confidential highly_sensitive : PrivacyLevel

pub data Modality : Type 0 where
  text_generation streaming embedding tool_calling speech_to_text text_to_speech : Modality
  wake_phrase_detection voice_embedding face_embedding gaze_estimation : Modality

pub data HealthStatus : Type 0 where
  healthy degraded unhealthy unknown : HealthStatus

pub data CapabilityDimension : Type 0 where
  general_conversation programming reasoning mathematics translation vision : CapabilityDimension
  speech planning creativity research tool_usage long_context : CapabilityDimension
  speech_recognition_accuracy speech_synthesis_quality : CapabilityDimension
  wake_phrase_detection_accuracy voice_embedding_quality : CapabilityDimension
  face_embedding_quality gaze_estimation_accuracy : CapabilityDimension

-- Of a model descriptor, what the router reads.
pub record ModelDescriptor (F : Type 0) : Type 0 where
  pub id : Uuid
  pub provider : String
  pub modalities : List Modality
  pub capability_scores : CapabilityDimension → Option F
  pub avg_latency_ms : Option F
  pub cost_per_input_token : Option F
  pub cost_per_output_token : Option F
  pub max_privacy_tier : PrivacyLevel
  pub health_status : HealthStatus

pub record ScoredCandidate (F : Type 0) : Type 0 where
  pub model_id : Uuid
  pub capability_score : F
  pub cost_score : F
  pub latency_score : F
  pub historical_success_rate : Option F
  pub composite_score : F

-- Without the explanation, a text made of the other fields.
pub record RoutingDecision (F : Type 0) : Type 0 where
  pub candidates : List (ScoredCandidate F)
  pub selected_model_id : Uuid
  pub fallback_from : Option Uuid
  pub privacy_constraint_applied : Bool
  pub estimated_complexity : F

-- Of a request for text, what the router reads: the token estimates of its context, and its tools.
pub record GenerateRequest : Type 0 where
  pub context_tokens : List ℕ
  pub tools : ℕ
  pub task_type : String
  pub privacy_hint : PrivacyLevel
  pub requesting_engine : String
  pub correlation_id : Uuid

pub record GenerateResult : Type 0 where
  pub text : String
  pub input_tokens : ℕ
  pub output_tokens : ℕ

pub data UsageOutcome : Type 0 where
  success fallback failed : UsageOutcome

-- `none` is the provider "unknown".
pub record UsageRecord (F : Type 0) : Type 0 where
  pub correlation_id : Uuid
  pub requesting_engine : String
  pub provider : Option String
  pub model_id : Uuid
  pub routing_decision : RoutingDecision F
  pub latency_ms : F
  pub input_tokens : ℕ
  pub output_tokens : ℕ
  pub estimated_cost : F
  pub retry_count : ℕ
  pub fallback_used : Bool
  pub privacy_classification : PrivacyLevel
  pub outcome : UsageOutcome

-- ai_model.request.completed and ai_model.request.failed.
pub data UsageEvent : Type 0 where
  request_completed :
      (correlation_id : Uuid)
      → (model_id : Uuid) → (retry_count : ℕ) → (fallback_used : Bool) → UsageEvent
  request_failed : (correlation_id : Uuid) → (attempted_model_ids : List Uuid) → UsageEvent

-- `modality in m.modalities` compares these.
abbrev pub modality_number : Modality → ℕ
modality_number text_generation = 0
modality_number streaming = 1
modality_number embedding = 2
modality_number tool_calling = 3
modality_number speech_to_text = 4
modality_number text_to_speech = 5
modality_number wake_phrase_detection = 6
modality_number voice_embedding = 7
modality_number face_embedding = 8
modality_number gaze_estimation = 9

abbrev pub is_unhealthy : HealthStatus → Bool
is_unhealthy unhealthy = true
is_unhealthy _ = false

-- _privacy_rank
abbrev pub privacy_rank : PrivacyLevel → ℕ
privacy_rank public = 0
privacy_rank internal = 1
privacy_rank confidential = 2
privacy_rank highly_sensitive = 3
