-- ===== src/Planning/Completion.antt =====
-- domain/task_completion.py: what a finished task changes in its graph.
pub mod Promote
pub mod Consistent
use nova_project_bible.Common.{
  Uuid, String, Option, none, some, List, [], ◌∷◌, Bool, true, false, ◌==◌, if◌then◌else◌, map,
  str_eq,
}
use nova_project_bible.Planning.Model.{
  TaskNode, TaskNodeStatus, pending, ready, running, blocked, completed, failed, is_completed,
}
use nova_project_bible.Planning.Admission.{promotable_ids}

-- TERMINAL_STATUSES
abbrev pub is_terminal : TaskNodeStatus → Bool
is_terminal completed = true
is_terminal failed = true
is_terminal _ = false

-- OUTCOME_TRANSITIONS.get(outcome)
unfoldable pub outcome_transition : String → Option TaskNodeStatus
outcome_transition outcome =
    if str_eq outcome "success"
    then some completed
    else if str_eq outcome "failure"
    then some failed
    else if str_eq outcome "interrupted"
    then some ready
    else if str_eq outcome "needs_revision"
    then some ready
    else none

abbrev pub Transition : Type 0
Transition = Uuid × TaskNodeStatus

abbrev pub to_ready : List Uuid → List Transition
to_ready [] = []
to_ready (i ∷ rest) = (i, ready) ∷ to_ready rest

module _ {F : Type 0} where
  -- next((c for c in nodes if c.id == i), None)
  unfoldable pub first_by_id : Uuid → List (TaskNode F) → Option (TaskNode F)
  first_by_id i [] = none
  first_by_id i (n ∷ nodes) = if n.id == i then some n else first_by_id i nodes

  abbrev pub with_status : TaskNodeStatus → TaskNode F → TaskNode F
  with_status status n = record n { status = status }

  -- The node of the given id with a new status; every other node as it is.
  abbrev pub restatus : Uuid → TaskNodeStatus → TaskNode F → TaskNode F
  restatus i status n = if n.id == i then with_status status n else n

  unfoldable pub set_status : Uuid → TaskNodeStatus → List (TaskNode F) → List (TaskNode F)
  set_status i status nodes = map (restatus i status) nodes

  -- The transitions of a node that is known and not terminal.
  unfoldable pub transitions_to : Uuid → TaskNodeStatus → List (TaskNode F) → List Transition
  transitions_to i status nodes =
      if is_completed status
      then (i, status) ∷ to_ready (promotable_ids (set_status i completed nodes))
      else (i, status) ∷ []

  unfoldable pub resolve_transitions : String → Uuid → List (TaskNode F) → List Transition
  resolve_transitions outcome i nodes = elim (first_by_id i nodes) [
    | none ↦ []
    | some node ↦ if is_terminal node.status then [] else elim (outcome_transition outcome) [
      | none ↦ []
      | some status ↦ transitions_to i status nodes
    ]
  ]
