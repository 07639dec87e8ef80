-- ===== src/Planning/Model.antt =====
-- domain/models.py: the task node. `F` stands for Python's float, of which only the critical
-- path uses more than the type.
use nova_project_bible.Common.{
  Uuid, String, Option, none, some, List, [], ◌∷◌, Bool, true, false, ◌==◌, if◌then◌else◌,
}
use nova_project_bible.Contracts.{RiskLevel}

pub data TaskNodeStatus : Type 0 where
  pending ready running blocked completed failed : TaskNodeStatus

pub record Estimate (F : Type 0) : Type 0 where
  pub effort_hours : F
  pub confidence : F

pub record TaskNode (F : Type 0) : Type 0 where
  pub id : Uuid
  pub objective : String
  pub depends_on : List Uuid
  pub assigned_agent_category : Option String
  pub estimated_effort : Estimate F
  pub risk : RiskLevel
  pub status : TaskNodeStatus

abbrev pub is_pending : TaskNodeStatus → Bool
is_pending pending = true
is_pending _ = false

abbrev pub is_ready : TaskNodeStatus → Bool
is_ready ready = true
is_ready _ = false

abbrev pub is_completed : TaskNodeStatus → Bool
is_completed completed = true
is_completed _ = false

module _ {F : Type 0} where
  abbrev pub ids : List (TaskNode F) → List Uuid
  ids [] = []
  ids (n ∷ nodes) = n.id ∷ ids nodes

  -- `by_id = {node.id: node for node in nodes}` and its `get`: the last node of an id stays.
  unfoldable pub by_id : List (TaskNode F) → Uuid → Option (TaskNode F)
  by_id [] i = none
  by_id (n ∷ nodes) i = elim (by_id nodes i) [
    | some later ↦ some later
    | none ↦ if n.id == i then some n else none
  ]
