-- ===== src/Contracts.antt =====
-- Types of packages/nova-contracts that several engines share.

use nova_project_bible.Common.{ℕ, Uuid, String, Option, List}

-- events/planning.py: the risk scale of planning and of the action engine.
pub data RiskLevel : Type 0 where
  negligible low moderate high critical : RiskLevel

pub data TaskNodeStatus : Type 0 where
  pending ready running blocked completed failed : TaskNodeStatus

-- events/planning.py: a task node as it is published; `F` stands for Python's float.
pub record TaskNodeSnapshot (F : Type 0) : Type 0 where
  pub id : Uuid
  pub objective : String
  pub depends_on : List Uuid
  pub assigned_agent_category : Option String
  pub effort_hours : F
  pub confidence : F
  pub risk : RiskLevel
  pub status : TaskNodeStatus

pub record TaskGraphSnapshot (F : Type 0) : Type 0 where
  pub id : Uuid
  pub root_objective : String
  pub nodes : List (TaskNodeSnapshot F)
  pub critical_path : List Uuid
  pub approved_at : Option ℕ
