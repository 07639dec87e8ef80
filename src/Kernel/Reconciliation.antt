-- ===== src/Kernel/Reconciliation.antt =====
-- domain/reconciliation.py: at startup, the running rows of the process before.
pub mod Recovery
pub mod Lost
use nova_project_bible.Common.{
  ℕ, Uuid, String, Option, none, some, List, [], ◌∷◌, Bool, true, false, keep,
}
use nova_project_bible.Kernel.Model.{
  AgentInstance, InstanceStatus, failed, is_running, TaskCompleted,
}
use nova_project_bible.Kernel.State.{
  Ports, State, Result, ok, M, ◌>>=◌, ◌>>◌, pure, update_status, publish_event,
}

-- `list_by_status("running")`
unfoldable pub list_running : List AgentInstance → List AgentInstance
list_running rows = keep (λ r. is_running r.status) rows

module _ {W F O : Type 0} (ports : Ports W F O) (new_correlation_id : Uuid → Uuid) where
  abbrev pub interrupted : Uuid → Uuid → TaskCompleted O
  interrupted task_node_id i = record {
    task_node_id = task_node_id;
    agent_instance_id = i;
    outcome = "interrupted";
    result = none;
    correlation_id = new_correlation_id i;
  }

  unfoldable pub report_interrupted : AgentInstance → M W O (Unit {0})
  report_interrupted r = elim r.assigned_task_node_id [
    | none ↦ pure tt
    | some task_node_id ↦ publish_event ports (interrupted task_node_id r.id)
  ]

  -- The loop over the orphaned rows.
  unfoldable pub reconcile_each : List AgentInstance → M W O (List Uuid)
  reconcile_each [] = pure []
  reconcile_each (r ∷ rest) = do
    update_status r.id failed none
    report_interrupted r
    reconciled ← reconcile_each rest
    pure (r.id ∷ reconciled)

  unfoldable pub reconcile_running_instances : M W O (List Uuid)
  reconcile_running_instances s = reconcile_each (list_running s.rows) s
