-- ===== src/Action/Model.antt =====
-- events/action.py of nova-contracts, and domain/models.py. `J` is the type of JSON values and `F`
-- that of floats; a datetime is a number.
use nova_project_bible.Common.{ℕ, Uuid, String, Option, List, Bool, true, false}
use nova_project_bible.Contracts.{RiskLevel}

pub data ActionType : Type 0 where
  terminal filesystem : ActionType

pub data ActionPriority : Type 0 where
  emergency critical high normal low background : ActionPriority

pub data ActionStatus : Type 0 where
  pending approval_required approved denied executing completed failed rolled_back : ActionStatus

pub data RollbackStrategyKind : Type 0 where
  restore_file undo_configuration restart_service manual : RollbackStrategyKind

pub data ApprovalDecision : Type 0 where
  approve deny : ApprovalDecision

pub record RetryPolicy (F : Type 0) : Type 0 where
  pub max_retries : ℕ
  pub backoff_seconds : F

pub record RollbackStrategy : Type 0 where
  pub kind : RollbackStrategyKind
  pub detail : Option String

-- A JSON object.
abbrev pub Params : Type 0 → Type 0
Params J = List (String × J)

pub record ActionExecuteRequest (J F : Type 0) : Type 0 where
  pub action_id : Uuid
  pub action_type : ActionType
  pub priority : ActionPriority
  pub source : String
  pub requested_by : Uuid
  pub execution_target : String
  pub depends_on : List Uuid
  pub parameters : Params J
  pub expected_result : Option String
  pub timeout_seconds : ℕ
  pub retry_policy : RetryPolicy F
  pub rollback_strategy : Option RollbackStrategy
  pub required_permissions : List String
  pub verification_method : String
  pub requesting_engine : String
  pub correlation_id : Uuid

pub record Action (J F : Type 0) : Type 0 where
  pub id : Uuid
  pub action_type : ActionType
  pub priority : ActionPriority
  pub source : String
  pub requested_by : Uuid
  pub execution_target : String
  pub depends_on : List Uuid
  pub parameters : Params J
  pub expected_result : Option String
  pub risk : RiskLevel
  pub timeout_seconds : ℕ
  pub retry_policy : RetryPolicy F
  pub rollback_strategy : Option RollbackStrategy
  pub required_permissions : List String
  pub status : ActionStatus
  pub verification_method : String
  pub confidence : Option F

-- The texts of errors and details, by what they say.
pub data Message : Type 0 where
  missing_operation in_flight identity_confidence_denied : Message
  risk_is : RiskLevel → Message
  below_threshold : RiskLevel → Message
  capability_not_found : (name : String) → Message
  capability_unhealthy : (name health : String) → Message
  unhealthy : (health : String) → Message
  invalid_parameters : String → Message
  adapter_error : (text : String) → (rollback_also_failed : Bool) → Message
  text_is : String → Message
  kind_is : RollbackStrategyKind → Message
  no_rollback_strategy execution_succeeded execution_did_not_succeed : Message

pub record ActionResult (J : Type 0) : Type 0 where
  pub action_id : Uuid
  pub status : ActionStatus
  pub result : Option (Params J)
  pub error : Option Message

pub record PendingApproval : Type 0 where
  pub action_id : Uuid
  pub risk : RiskLevel
  pub requested_at : ℕ
  pub decided_at : Option ℕ
  pub decision : Option ApprovalDecision

-- The thresholds by risk: a dict.
pub record IdentityConfidencePolicy (F : Type 0) : Type 0 where
  pub user_id : Uuid
  pub minimum_confidence_by_risk : RiskLevel → Option F

pub data ActionStage : Type 0 where
  receive_request validate check_permissions estimate_risk prepare_resources execute : ActionStage
  monitor_progress detect_errors recover_if_necessary verify_result report_outcome : ActionStage
  store_experience : ActionStage

pub data StageOutcome : Type 0 where
  succeeded failure started blocked timed_out skipped nothing refused : StageOutcome
  decided : ApprovalDecision → StageOutcome

-- Of a capability, what the pipeline reads; the schema is a JSON object.
pub record Capability (J : Type 0) : Type 0 where
  pub id : Uuid
  pub name : String
  pub input_schema : Params J
  pub health_status : String

pub data InvokeOutcome : Type 0 where
  success invoke_failure sandbox_violation : InvokeOutcome

abbrev pub is_success : InvokeOutcome → Bool
is_success success = true
is_success _ = false

abbrev pub outcome_text : InvokeOutcome → String
outcome_text success = "success"
outcome_text invoke_failure = "failure"
outcome_text sandbox_violation = "sandbox_violation"

-- TERMINAL_STATUSES
abbrev pub is_terminal : ActionStatus → Bool
is_terminal completed = true
is_terminal failed = true
is_terminal denied = true
is_terminal rolled_back = true
is_terminal _ = false

abbrev pub is_critical : RiskLevel → Bool
is_critical RiskLevel.critical = true
is_critical _ = false
