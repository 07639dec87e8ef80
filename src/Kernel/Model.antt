-- ===== src/Kernel/Model.antt =====
-- domain/models.py, and the contracts that the kernel reads and publishes (entities.py and
-- events/agent_os.py of nova-contracts). A datetime is a number. `O` is the type of an agent's
-- output and confidence, which the kernel only passes on.
use nova_project_bible.Common.{ℕ, Uuid, String, Option, Bool, true, false}
use nova_project_bible.Contracts.{TaskNodeSnapshot}

pub data InstanceStatus : Type 0 where
  running completed failed : InstanceStatus

pub data HealthStatus : Type 0 where
  healthy degraded unhealthy unknown : HealthStatus

-- `execution_backend` has one value, and `supervisor_id` is never set.
pub record AgentInstance : Type 0 where
  pub id : Uuid
  pub agent_package_id : Uuid
  pub category : String
  pub status : InstanceStatus
  pub assigned_task_node_id : Option Uuid
  pub started_at : ℕ
  pub health_status : HealthStatus

pub data ResultStatus : Type 0 where
  success failure needs_revision : ResultStatus

pub record AgentResult (O : Type 0) : Type 0 where
  pub agent_instance_id : Uuid
  pub task_node_id : Uuid
  pub status : ResultStatus
  pub output : O
  pub self_validation_passed : Bool
  pub correlation_id : Uuid

pub record ValidationOutcome : Type 0 where
  pub passed : Bool
  pub requires_peer_review : Bool
  pub reason : Option String

pub record AgentInstanceHandle (O : Type 0) : Type 0 where
  pub instance_id : Uuid
  pub result : Option (AgentResult O)
  pub validation : Option ValidationOutcome
  pub error : Option String

-- Of the manifest only the reviewer's category is read.
pub record AgentPackage : Type 0 where
  pub id : Uuid
  pub category : String
  pub peer_reviewer_category : Option String

-- The memories, knowledge, permissions and capabilities are empty lists.
pub record AgentContext (F : Type 0) : Type 0 where
  pub task : TaskNodeSnapshot F
  pub user_id : Uuid
  pub degraded : Bool
  pub correlation_id : Uuid

pub data PeerValidation : Type 0 where
  approved rejected timed_out not_required : PeerValidation

-- What a reviewer answers: a result, if its payload is one, or a message of another type.
pub data Reply (O : Type 0) : Type 0 where
  peer_review_result : Option (AgentResult O) → Reply O
  other_message : Reply O

-- AgentOsTaskCompletedPayload; the result comes with the verdict that is added to it.
pub record TaskCompleted (O : Type 0) : Type 0 where
  pub task_node_id : Uuid
  pub agent_instance_id : Uuid
  pub outcome : String
  pub result : Option (AgentResult O × Option PeerValidation)
  pub correlation_id : Uuid

abbrev pub status_value : ResultStatus → String
status_value success = "success"
status_value failure = "failure"
status_value needs_revision = "needs_revision"

abbrev pub is_running : InstanceStatus → Bool
is_running running = true
is_running _ = false
