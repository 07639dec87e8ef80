-- ===== src/Planning/Store.antt =====
-- repository/postgres_planning_repository.py and events/task_completed_handler.py: the stored
-- graphs, the outbox, and the handler of `agent_os.task.completed`. A transaction that raises
-- leaves the store as it was, so an error carries no store. Node ids are the table's primary key.
pub mod Advance
pub mod Safety
pub mod HandOff
pub mod Handler
pub mod Writes
use nova_project_bible.Common.{
  ℕ, Uuid, String, Option, none, some, List, [], ◌∷◌, ◌++◌, Bool, true, false, ◌==◌, if◌then◌else◌,
  map, keep, contains, is_some,
}
use nova_project_bible.Planning.Model.{
  TaskNode, TaskNodeStatus, ready, running, is_ready, ids, by_id,
}
use nova_project_bible.Planning.Completion.{
  Transition, first_by_id, with_status, set_status, resolve_transitions,
}

-- domain/models.py; a datetime is a number.
pub record TaskGraph (F : Type 0) : Type 0 where
  pub id : Uuid
  pub root_objective : String
  pub nodes : List (TaskNode F)
  pub critical_path : List Uuid
  pub approved_at : Option ℕ

-- `E` is the type of the rows of the outbox.
pub record Store (F E : Type 0) : Type 0 where
  pub graphs : List (TaskGraph F)
  pub outbox : List E

pub data Error : Type 0 where
  graph_not_found node_not_found : Error

pub data Result (A : Type 0) : Type 0 where
  ok : A → Result A
  err : Error → Result A

module _ {F : Type 0} where
  unfoldable pub find_graph : Uuid → List (TaskGraph F) → Option (TaskGraph F)
  find_graph i [] = none
  find_graph i (g ∷ graphs) = if g.id == i then some g else find_graph i graphs

  -- The graph that a node row names, with the node.
  unfoldable pub find_node : Uuid → List (TaskGraph F) → Option (TaskGraph F × TaskNode F)
  find_node i [] = none
  find_node i (g ∷ graphs) = elim (first_by_id i g.nodes) [
    | some n ↦ some (g, n)
    | none ↦ find_node i graphs
  ]

  -- `_hand_off` on one row.
  abbrev pub hand_off_node : TaskNode F → TaskNode F
  hand_off_node n = if is_ready n.status then with_status running n else n

  unfoldable pub hand_off : List (TaskNode F) → List (TaskNode F)
  hand_off nodes = map hand_off_node nodes

  -- The set of ids that `_hand_off` returns.
  unfoldable pub handed_off : List (TaskNode F) → List Uuid
  handed_off nodes = ids (keep (λ n. is_ready n.status) nodes)

  -- The graph that a write returns: the published one, the handed-off nodes running.
  unfoldable pub returned_nodes : List (TaskNode F) → List (TaskNode F)
  returned_nodes nodes =
      map (λ n. if contains n.id (handed_off nodes) then with_status running n else n) nodes

  -- The loop over the transitions of `apply_transitions`.
  unfoldable pub settle : List Transition → List (TaskNode F) → Result (List (TaskNode F))
  settle [] nodes = ok nodes
  settle ((i, status) ∷ rest) nodes =
      let later = settle rest (set_status i status nodes) in
      if is_some (by_id nodes i) then later else err node_not_found

  -- The rows of a graph, written back.
  unfoldable pub save_nodes : Uuid → List (TaskNode F) → List (TaskGraph F) → List (TaskGraph F)
  save_nodes i nodes graphs = map (λ g. if g.id == i then record g { nodes = nodes } else g) graphs

  module _ {E : Type 0} where
    unfoldable pub insert : TaskGraph F → (TaskGraph F → E) → Store F E → TaskGraph F × Store F E
    insert g builder s = (
      record g { nodes = returned_nodes g.nodes },
      record {
        graphs = s.graphs ++ record g { nodes = hand_off g.nodes } ∷ [];
        outbox = s.outbox ++ builder g ∷ [];
      },
    )

    unfoldable pub set_approved_at : Uuid → ℕ → Store F E → Result (TaskGraph F × Store F E)
    set_approved_at i at s = elim (find_graph i s.graphs) [
      | none ↦ err graph_not_found
      | some g ↦ ok (
        record g { approved_at = some at },
        record s {
          graphs = map (λ h. if h.id == i then record h { approved_at = some at } else h) s.graphs;
        },
      )
    ]

    unfoldable pub apply_transitions :
        Uuid → List Transition → (TaskGraph F → E) → Store F E → Result (TaskGraph F × Store F E)
    apply_transitions i transitions builder s = elim (find_graph i s.graphs) [
      | none ↦ err graph_not_found
      | some g ↦ elim (settle transitions g.nodes) [
        | err e ↦ err e
        | ok nodes ↦ ok (
          record g { nodes = returned_nodes nodes },
          record {
            graphs = save_nodes i (hand_off nodes) s.graphs;
            outbox = s.outbox ++ builder (record g { nodes = nodes }) ∷ [];
          },
        )
      ]
    ]

    -- `handle` of the task-completed handler, its metrics and log lines left out.
    unfoldable pub handle_task_completed :
        Uuid → String → (TaskGraph F → E) → Store F E → Result (Store F E)
    handle_task_completed i outcome builder s = elim (find_node i s.graphs) [
      | none ↦ ok s
      | some (g, _) ↦ elim (resolve_transitions outcome i g.nodes) [
        | [] ↦ ok s
        | t ∷ rest ↦ elim (apply_transitions g.id (t ∷ rest) builder s) [
          | err e ↦ err e
          | ok (_, s') ↦ ok s'
        ]
      ]
    ]
