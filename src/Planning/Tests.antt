-- ===== src/Planning/Tests.antt =====
-- The planning theorems at concrete graphs, and runs of the code.
use nova_project_bible.Common.{
  ℕ, Uuid, ◌≡◌, ◌≢◌, refl, subst, ap, ◌↔◌, ◌⊎◌, none, some, List, [], ◌∷◌, true, arith, length,
}
use nova_project_bible.Contracts.{low}
use nova_project_bible.Planning.Model.{
  TaskNode, TaskNodeStatus, pending, ready, running, completed, by_id, ids,
}
use nova_project_bible.Planning.Admission.{
  admit, promotable_ids, find_duplicate_ids, find_dangling_dependencies, is_done, may_start,
  admit_node, dependencies_satisfied,
}
use nova_project_bible.Planning.Admission.Checks.{
  IsUnique, IsLinked, find_duplicate_ids-eq-nil, find_dangling_dependencies-eq-nil,
}
use nova_project_bible.Planning.Admission.Laws.{admit_fixpoint}
use nova_project_bible.Planning.Cycle.{
  find_cycle, has_cycle, search_cycle, out_of_fuel, visit_all, visit, visit_deps, visit_dep, enter,
  leave, paint, pop, from_index, deps_of, known,
}
use nova_project_bible.Planning.Cycle.Walks.{IsCycle}
use nova_project_bible.Planning.Cycle.Visit.{Ends}
use nova_project_bible.Planning.Cycle.Correct.{
  search_cycle-ne-out_of_fuel, find_cycle-IsCycle, find_cycle-Ends, has_cycle_iff,
}
use nova_project_bible.Planning.Completion.{
  resolve_transitions, outcome_transition, transitions_to, first_by_id, set_status,
}
use nova_project_bible.Planning.Completion.Consistent.{is_started, IsConsistent}
use nova_project_bible.Planning.Store.{
  TaskGraph, Store, insert, ok, settle, find_graph, find_node, hand_off, returned_nodes,
  handle_task_completed, apply_transitions, save_nodes, handed_off,
}
use nova_project_bible.Planning.Store.Advance.{advance, settle-resolve_transitions}
use nova_project_bible.Planning.Store.Safety.{settle-terminal}
use nova_project_bible.Planning.Store.Writes.{Written, insert-Written}
use nova_project_bible.Planning.Store.Handler.{
  IsValid, IsValidGraph, advanced, handle_task_completed-IsValid,
}

abbrev node : Uuid → List Uuid → TaskNodeStatus → TaskNode ℕ
node id depends_on status = record {
  id = id;
  objective = "work";
  depends_on = depends_on;
  assigned_agent_category = some "coding";
  estimated_effort = record { effort_hours = 2; confidence = 1 };
  risk = low;
  status = status;
}

abbrev loop : List (TaskNode ℕ)
loop = node 1 (2 ∷ []) pending ∷ node 2 (3 ∷ []) pending ∷ node 3 (2 ∷ 9 ∷ []) pending ∷ []

abbrev plan : List (TaskNode ℕ)
plan =
    node 1 [] completed
    ∷ node 2 (1 ∷ []) running
    ∷ node 3 (1 ∷ 2 ∷ []) pending
    ∷ node 4 (3 ∷ []) pending
    ∷ []

program : Unit {0}
unfolding find_cycle has_cycle search_cycle visit_all visit visit_deps visit_dep enter leave paint
    pop from_index deps_of by_id admit promotable_ids admit_node may_start is_done
    dependencies_satisfied find_duplicate_ids find_dangling_dependencies resolve_transitions
    outcome_transition transitions_to first_by_id set_status settle hand_off returned_nodes
    handle_task_completed apply_transitions save_nodes find_graph find_node handed_off insert
program = tt

loop_found : find_cycle loop ≡ some (2 ∷ 3 ∷ 2 ∷ [])
unfolding program
loop_found = refl

plan_clear : find_cycle plan ≡ none
unfolding program
plan_clear = refl

find_cycle-IsCycle_example : IsCycle loop (2 ∷ 3 ∷ 2 ∷ [])
find_cycle-IsCycle_example = find_cycle-IsCycle loop (2 ∷ 3 ∷ 2 ∷ []) loop_found

plan-known : known plan 4 ≡ true
unfolding program
plan-known = refl

find_cycle-Ends_example : Ends plan 4
find_cycle-Ends_example = find_cycle-Ends plan plan_clear 4 plan-known

search_cycle-ne-out_of_fuel_example : search_cycle loop ≢ out_of_fuel
search_cycle-ne-out_of_fuel_example = search_cycle-ne-out_of_fuel loop

has_cycle_iff_example : (has_cycle loop ≡ true) ↔ ((c : List Uuid) × IsCycle loop c)
has_cycle_iff_example = has_cycle_iff loop

admit_fixpoint_example : (promotable_ids (admit plan) ≡ []) × (admit (admit plan) ≡ admit plan)
admit_fixpoint_example = admit_fixpoint plan

find_duplicate_ids-eq-nil_example : (find_duplicate_ids plan ≡ []) ↔ IsUnique (ids plan)
find_duplicate_ids-eq-nil_example = find_duplicate_ids-eq-nil plan

find_dangling_dependencies-eq-nil_example :
    (find_dangling_dependencies loop ≡ []) ↔ IsLinked loop loop
find_dangling_dependencies-eq-nil_example = find_dangling_dependencies-eq-nil loop

plan-IsUnique : IsUnique (ids plan)
plan-IsUnique = (refl, (refl, (refl, (refl, tt))))

settle-resolve_transitions_example :
    settle (resolve_transitions "success" 2 plan) plan ≡ ok (advance "success" 2 plan)
settle-resolve_transitions_example = settle-resolve_transitions 2 plan plan-IsUnique "success"

plan_first : by_id plan 1 ≡ some (node 1 [] completed)
unfolding program
plan_first = refl

settle-terminal_example :
    (nodes' : List (TaskNode ℕ)) × (settle (resolve_transitions "interrupted" 1 plan) plan
      ≡ ok nodes')
    × (by_id nodes' 1 ≡ some (node 1 [] completed))
settle-terminal_example =
    settle-terminal plan "interrupted" 1 1 (node 1 [] completed) plan-IsUnique plan_first refl

abbrev graph : TaskGraph ℕ
graph = record {
  id = 7;
  root_objective = "ship";
  nodes = plan;
  critical_path = [];
  approved_at = none;
}

abbrev store : Store ℕ ℕ
store = record { graphs = graph ∷ []; outbox = [] }

abbrev row : TaskGraph ℕ → ℕ
row g = length g.nodes

plan-IsConsistent : IsConsistent plan
unfolding program
plan-IsConsistent i n h s = ground arith

graph-IsValidGraph : IsValidGraph graph
unfolding program
graph-IsValidGraph = record {
  unique = plan-IsUnique;
  consistent = plan-IsConsistent;
  handed = refl;
}

store-IsValid : IsValid store
store-IsValid = record { keys = (refl, tt); each = (graph-IsValidGraph, tt) }

store_started :
    (g : TaskGraph ℕ) (n : TaskNode ℕ)
    → find_node 2 (graph ∷ []) ≡ some (g, n)
    → is_started n.status ≡ true
unfolding program
store_started g n h =
    let q : ◌≡◌ {A = TaskGraph ℕ × TaskNode ℕ} (graph, node 2 (1 ∷ []) running) (g, n) = cc in
    let p : node 2 (1 ∷ []) running ≡ n = ap (λ x. x.1) q in
    subst (λ (k : TaskNode ℕ). is_started k.status ≡ true) p refl

handle_task_completed-IsValid_example :
    (s' : Store ℕ ℕ) × (handle_task_completed 2 "success" row store ≡ ok s')
    × IsValid s'
    × ((s' ≡ store)
        ⊎ ((g : TaskGraph ℕ) × (find_graph g.id (graph ∷ []) ≡ some g)
            × (resolve_transitions "success" 2 g.nodes ≢ [])
            × (s' ≡ advanced 2 "success" row store g)))
handle_task_completed-IsValid_example =
    handle_task_completed-IsValid 2 "success" row store store-IsValid store_started

abbrev new_graph : TaskGraph ℕ
new_graph = record {
  id = 8;
  root_objective = "test";
  nodes = node 5 [] ready ∷ node 6 (5 ∷ []) pending ∷ [];
  critical_path = [];
  approved_at = none;
}

abbrev count_nodes : TaskGraph ℕ → ℕ
count_nodes g = length g.nodes

new_graph_absent : find_graph new_graph.id store.graphs ≡ none
unfolding program
new_graph_absent = refl

insert-Written_example :
    Written 8 count_nodes store
      (insert new_graph count_nodes store).1
      new_graph
      (insert new_graph count_nodes store).0
insert-Written_example =
    insert-Written count_nodes store new_graph new_graph_absent (refl, (refl, tt))

abbrev applied_graph : TaskGraph ℕ
applied_graph = record graph {
  nodes =
      node 1 [] completed
      ∷ node 2 (1 ∷ []) completed
      ∷ node 3 (1 ∷ 2 ∷ []) running
      ∷ node 4 (3 ∷ []) pending
      ∷ [];
}

abbrev applied_store : Store ℕ ℕ
applied_store = record { graphs = applied_graph ∷ []; outbox = 4 ∷ [] }
