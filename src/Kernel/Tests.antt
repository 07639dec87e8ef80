-- ===== src/Kernel/Tests.antt =====
-- The kernel theorems at concrete ports, and runs of the code.
use nova_project_bible.Kernel.Scheduler.Runs.{Reported}
use nova_project_bible.Kernel.Scheduler.Completion.{dispatch_task_node-Reported}
use nova_project_bible.Kernel.Scheduler.Answering.{IsAnswering}
use nova_project_bible.Common.{
  ℕ, Uuid, ◌≡◌, refl, Option, none, some, List, [], ◌∷◌, ◌++◌, Bool, true, false, ◌==◌,
  if◌then◌else◌, ◌+◌, ◌<◌, arith, inl, inr, Bool-cases,
}
use nova_project_bible.Contracts.{low, TaskNodeSnapshot, TaskGraphSnapshot, ready}
use nova_project_bible.Kernel.Model.{
  InstanceStatus, running, completed, unknown, AgentInstance, success, AgentInstanceHandle,
  AgentPackage, rejected, ResultStatus, failure,
}
use nova_project_bible.Kernel.State.{
  Ports, State, M, Result, ok, err, port_raised, ◌>>=◌, call, ask, insert, update_status,
  publish_event, find_row, set_row,
}
use nova_project_bible.Kernel.State.Gives.{Gives, Silent}
use nova_project_bible.Kernel.Scheduler.{
  handle_outcome, build_context, outcome_or_raise, reviewed, ask_reviewer, run_peer_review,
  publish_task_completed, finalize_outcome, plan_restart_or_decline, spawn_tracked, attempt, finish,
  run_agent, dispatch_task_node, dispatched, dispatch_ready_nodes,
}
use nova_project_bible.Kernel.Scheduler.Dispatch.{Dispatched, dispatch_task_node_lem}
use nova_project_bible.Kernel.Reconciliation.{
  list_running, report_interrupted, reconcile_each, reconcile_running_instances,
}
use nova_project_bible.Kernel.Reconciliation.Recovery.{
  row_ids, owed, reconcile_running_instances_lem,
}
use nova_project_bible.Kernel.Reconciliation.Lost.{Lost, reconcile_running_instances-Lost}

program : Unit {0}
unfolding find_row set_row ◌>>=◌ call ask insert update_status publish_event handle_outcome
    build_context outcome_or_raise reviewed ask_reviewer run_peer_review publish_task_completed
    finalize_outcome plan_restart_or_decline spawn_tracked attempt finish run_agent
    dispatch_task_node dispatched dispatch_ready_nodes list_running report_interrupted
    reconcile_each reconcile_running_instances
program = tt

-- A world that counts: the first agent crashes, later ones succeed, and every call is answered.
abbrev crashed : AgentInstanceHandle ℕ
crashed = record { instance_id = 0; result = none; validation = none; error = some "crash" }

abbrev succeeded : Uuid → AgentInstanceHandle ℕ
succeeded i = record {
  instance_id = i;
  result = some (record {
    agent_instance_id = i;
    task_node_id = 1;
    status = success;
    output = 9;
    self_validation_passed = true;
    correlation_id = 8;
  });
  validation = none;
  error = none;
}

abbrev coder : AgentPackage
coder = record { id = 4; category = "coding"; peer_reviewer_category = none }

-- `open_bus` says whether the bus takes events.
abbrev ports : Bool → Ports ℕ ℕ ℕ
ports open_bus = record {
  find_healthy_package = λ _ w. (some (some coder), w);
  plan_restart = λ i _ _ w. (some (i ∷ []), w);
  record_peer_review = λ _ _ _ _ w. (some rejected, w);
  next_instance_id = λ w. (100 + w, w + 1);
  spawn = λ _ _ i w. (some (if i == 100 then crashed else succeeded i), w);
  spawn_and_review = λ _ _ w. (some none, w);
  publish = λ _ w. (if open_bus then some tt else none, w);
  now = λ w. (w, w);
}

abbrev task : Uuid → TaskNodeSnapshot ℕ
task i = record {
  id = i;
  objective = "work";
  depends_on = [];
  assigned_agent_category = some "coding";
  effort_hours = 1;
  confidence = 1;
  risk = low;
  status = ready;
}

abbrev graph : TaskGraphSnapshot ℕ
graph = record {
  id = 7;
  root_objective = "ship";
  nodes = task 1 ∷ task 2 ∷ [];
  critical_path = [];
  approved_at = none;
}

abbrev fresh : State ℕ ℕ
fresh = record { world = 0; rows = []; published = [] }

-- Two schedules: in turn, and the last one first. Both give the results in the order of the nodes.
abbrev in_turn : List (M ℕ ℕ (Option Uuid)) → State ℕ ℕ → List (Result (Option Uuid)) × State ℕ ℕ
in_turn [] s = ([], s)
in_turn (m ∷ ms) s = let (r, s') = m s in let (rest, s'') = in_turn ms s' in (r ∷ rest, s'')

abbrev last_first : List (M ℕ ℕ (Option Uuid)) → State ℕ ℕ → List (Result (Option Uuid)) × State ℕ ℕ
last_first [] s = ([], s)
last_first (m ∷ ms) s = let (rest, s') = last_first ms s in let (r, s'') = m s' in (r ∷ rest, s'')

-- The node that runs first is retried, so three rows are written and two events published.
batch_ids : (dispatch_ready_nodes (ports true) 5 in_turn 6 graph fresh).0 ≡ 101 ∷ 102 ∷ []
unfolding program
batch_ids = refl

batch_ids_reversed :
    (dispatch_ready_nodes (ports true) 5 last_first 6 graph fresh).0 ≡ 102 ∷ 101 ∷ []
unfolding program
batch_ids_reversed = refl

batch_rows :
    row_ids (dispatch_ready_nodes (ports true) 5 in_turn 6 graph fresh).1.rows
    ≡ 100 ∷ 101 ∷ 102 ∷ []
unfolding program
batch_rows = refl

dispatch_task_node_lem_example :
    Gives (Dispatched 1 [] []) (Silent []) (dispatch_task_node (ports true) 5 6 (task 1) fresh)
dispatch_task_node_lem_example = dispatch_task_node_lem (ports true) 5 6 (task 1) fresh

abbrev row : Uuid → InstanceStatus → Option Uuid → AgentInstance
row i status assigned = record {
  id = i;
  agent_package_id = 4;
  category = "coding";
  status = status;
  assigned_task_node_id = assigned;
  started_at = 0;
  health_status = unknown;
}

abbrev restarted : State ℕ ℕ
restarted = record {
  world = 0;
  rows = row 1 running (some 11) ∷ row 2 completed (some 12) ∷ row 3 running none ∷ [];
  published = [];
}

abbrev new_id : Uuid → Uuid
new_id i = 1000 + i

reconcile_running_instances_lem_example :
    (s' : State ℕ ℕ) × (reconcile_running_instances (ports true) new_id restarted
      ≡ (ok (row_ids (list_running restarted.rows)), s'))
    × (list_running s'.rows ≡ [])
    × (s'.published ≡ [] ++ owed (ports true) new_id (list_running restarted.rows))
reconcile_running_instances_lem_example =
    reconcile_running_instances_lem (ports true) new_id (λ event w. refl) restarted

restarted_raises : (reconcile_running_instances (ports false) new_id restarted).0 ≡ err port_raised
unfolding program
restarted_raises = refl

reconcile_running_instances-Lost_example :
    Lost
      (ports false)
      new_id
      (list_running restarted.rows)
      restarted
      (reconcile_running_instances (ports false) new_id restarted).1
reconcile_running_instances-Lost_example =
    reconcile_running_instances-Lost (ports false) new_id restarted port_raised restarted_raises

-- A world has minted the ids from 100 on.
abbrev Minted : ℕ → Uuid → Type 0
Minted w i = i < 100 + w

spawned-judged :
    (i : Uuid)
    → (o : Bool × ResultStatus) × (handle_outcome (if i == 100 then crashed else succeeded i)
        ≡ some o)
unfolding handle_outcome
spawned-judged i = elim (Bool-cases (i == 100)) [
  | inl e ↦ rw e ((true, failure), refl)
  | inr e ↦ rw e ((false, success), refl)
]

ports-IsAnswering : IsAnswering (ports true) Minted
ports-IsAnswering = record {
  finds = λ c w. (some coder, w, refl, λ i h. h, tt);
  records = λ p c r a w. (rejected, w, refl, λ i h. h, tt);
  reviews = λ a p w. (none, w, refl, λ i h. h, refl);
  spawns =
      λ a c i w. (if i == 100 then crashed else succeeded i, w, refl, λ i h. h, spawned-judged i);
  publishes = λ e w. (tt, w, refl, λ i h. h, tt);
  mints = λ w. (λ h. omega (arith, h), omega arith, λ i h. omega (arith, h));
  clock = λ w i h. h;
  plans = λ i c s w j h. h;
}

dispatch_task_node-Reported_example :
    (i : Uuid) × (s' : State ℕ ℕ) × (dispatch_task_node (ports true) 5 6 (task 1) fresh
      ≡ (ok (some i), s'))
    × Reported 1 i [] s'.published
dispatch_task_node-Reported_example =
    dispatch_task_node-Reported (ports true) Minted ports-IsAnswering 5 6 (task 1) "coding" coder
      fresh tt refl refl
