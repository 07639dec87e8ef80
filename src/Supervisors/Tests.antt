-- ===== src/Supervisors/Tests.antt =====
-- The restart plans of a concrete group.
use nova_project_bible.Common.{
  ℕ, Uuid, String, suc, ◌≡◌, ◌↔◌, refl, none, some, List, [], ◌∷◌, true, contains,
}
use nova_project_bible.Kernel.Model.{
  InstanceStatus, running, completed, failed, ResultStatus, success, needs_revision, AgentResult,
}
use nova_project_bible.Supervisors.Restart.{
  one_for_one, one_for_all, rest_for_one, SupervisedInstance, find_instance, insert_by_order,
  sort_by_order, plan_of, plan_restart,
}
use nova_project_bible.Supervisors.Restart.Plan.{Exists, Due, plan_restart_lem}
use nova_project_bible.Common.Effects.{◌>>=◌}
use nova_project_bible.Supervisors.Conflict.{
  Ports, State, ask_reasoning, note_decision, conclude_conflict, resolve_conflict,
}
use nova_project_bible.Supervisors.Conflict.Resolved.{Settles, resolve_conflict-Settles}

program : Unit {0}
unfolding find_instance insert_by_order sort_by_order plan_of plan_restart ask_reasoning
    note_decision conclude_conflict resolve_conflict ◌>>=◌
program = tt

abbrev member : Uuid → ℕ → InstanceStatus → SupervisedInstance
member i order status = record {
  id = i;
  category = "coding";
  restart_strategy = one_for_one;
  started_order = order;
  status = status;
}

abbrev group : List SupervisedInstance
group = member 1 3 failed ∷ member 2 1 running ∷ member 3 2 completed ∷ member 4 4 running ∷ []

-- The failed instance does not come first.
all_restarted : plan_restart one_for_all 1 group ≡ some (2 ∷ 1 ∷ 4 ∷ [])
unfolding program
all_restarted = refl

rest_restarted : plan_restart rest_for_one 1 group ≡ some (1 ∷ 4 ∷ [])
unfolding program
rest_restarted = refl

-- A completed instance is restarted where it is the failed one.
completed_restarted : plan_restart one_for_one 3 group ≡ some (3 ∷ [])
unfolding program
completed_restarted = refl

group_found : find_instance 1 group ≡ some (member 1 3 failed)
unfolding program
group_found = refl

plan_restart_lem_example :
    (plan : List Uuid) × (plan_restart rest_for_one 1 group ≡ some plan)
    × (contains 1 plan ≡ true)
    × ((j : Uuid)
        → (contains j plan ≡ true) ↔ Exists (Due rest_for_one (member 1 3 failed) j) group)
plan_restart_lem_example =
    plan_restart_lem rest_for_one 1 group (member 1 3 failed) group_found λ e. cc

abbrev result_of : Uuid → ResultStatus → String → AgentResult String
result_of i status text = record {
  agent_instance_id = i;
  task_node_id = 1;
  status = status;
  output = text;
  self_validation_passed = true;
  correlation_id = 5;
}

-- The world is the number of calls.
abbrev ports : Ports ℕ String
ports = record {
  reason = λ _ a b _ _ w. (some (record { outcome = a.output; chosen_description = none }), suc w);
  record_decision = λ _ w. (some tt, suc w);
}

abbrev no_conflicts : State ℕ String
no_conflicts = record { world = 0; questions = []; decisions = [] }

abbrev coded : AgentResult String
coded = result_of 1 success "done"

abbrev tested : AgentResult String
tested = result_of 2 needs_revision "test fails"

trusts_the_failing_one : (resolve_conflict ports "merge" coded tested 3 5 no_conflicts).1.world ≡ 1
unfolding program
trusts_the_failing_one = refl

asks_of_two_successes :
    (resolve_conflict ports "merge" coded coded 3 5 no_conflicts).1.questions ≡ "merge" ∷ []
unfolding program
asks_of_two_successes = refl

resolve_conflict-Settles_example :
    Settles ports "merge" coded tested 3 5 no_conflicts
      (resolve_conflict ports "merge" coded tested 3 5 no_conflicts)
resolve_conflict-Settles_example =
    resolve_conflict-Settles ports "merge" coded tested 3 5 no_conflicts
