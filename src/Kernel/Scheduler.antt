-- ===== src/Kernel/Scheduler.antt =====
-- domain/scheduler.py: one task to one agent, with a bounded retry and a peer review.
pub mod Runs
pub mod Attempts
pub mod Dispatch
pub mod Answering
pub mod Completion
use nova_project_bible.Common.{
  ℕ, Uuid, String, Option, none, some, List, [], ◌∷◌, ◌++◌, Bool, true, false, ◌==◌, if◌then◌else◌,
  not, ◌||◌, map, contains, keep,
}
use nova_project_bible.Contracts.{TaskNodeSnapshot, TaskGraphSnapshot, TaskNodeStatus, ready}
use nova_project_bible.Kernel.Model.{
  InstanceStatus, running, completed, failed, HealthStatus, healthy, unhealthy, unknown,
  AgentInstance, ResultStatus, success, failure, needs_revision, AgentResult, ValidationOutcome,
  AgentInstanceHandle, AgentPackage, AgentContext, PeerValidation, approved, rejected, timed_out,
  not_required, Reply, peer_review_result, other_message, TaskCompleted, status_value,
}
use nova_project_bible.Kernel.State.{
  Ports, State, Error, assertion_failed, invalid_payload, Result, ok, err, M, ◌>>=◌, ◌>>◌, pure,
  call, ask, row_values, insert, update_status, publish_event,
}

-- `handle.result.status == "failure" or (handle.validation is not None and not
-- handle.validation.passed)`
abbrev pub is_failure : ResultStatus → Bool
is_failure failure = true
is_failure _ = false

abbrev pub is_success : ResultStatus → Bool
is_success success = true
is_success _ = false

abbrev pub failed_validation : Option ValidationOutcome → Bool
failed_validation none = false
failed_validation (some v) = not v.passed

abbrev pub is_rejected : PeerValidation → Bool
is_rejected rejected = true
is_rejected _ = false

abbrev pub is_ready : TaskNodeStatus → Bool
is_ready ready = true
is_ready _ = false

-- `none` is a failed assertion.
unfoldable pub handle_outcome : {O : Type 0} → AgentInstanceHandle O → Option (Bool × ResultStatus)
handle_outcome handle = elim handle.error [
  | some _ ↦ some (true, failure)
  | none ↦ elim handle.result [
    | none ↦ none
    | some result ↦
        some (is_failure result.status || failed_validation handle.validation, result.status)
  ]
]

unfoldable pub build_context : {F : Type 0} → TaskNodeSnapshot F → Uuid → Uuid → AgentContext F
build_context node primary_user_id correlation_id = record {
  task = node;
  user_id = primary_user_id;
  degraded = true;
  correlation_id = correlation_id;
}

pub record Attempt (O : Type 0) : Type 0 where
  pub handle : AgentInstanceHandle O
  pub row : AgentInstance
  pub needs_restart : Bool
  pub outcome : ResultStatus

module _ {W F O : Type 0} (ports : Ports W F O) (correlation_id : Uuid) where
  -- A failed assertion raises.
  unfoldable pub outcome_or_raise : AgentInstanceHandle O → M W O (Bool × ResultStatus)
  outcome_or_raise handle s = elim (handle_outcome handle) [
    | some o ↦ (ok o, s)
    | none ↦ (err assertion_failed, s)
  ]

  -- What a reviewer's answer gives the supervisor: a result, if the answer is one.
  unfoldable pub reviewed : Option (Reply O) → M W O (Option (AgentResult O))
  reviewed none s = (ok none, s)
  reviewed (some other_message) s = (ok none, s)
  reviewed (some (peer_review_result (some result))) s = (ok (some result), s)
  reviewed (some (peer_review_result none)) s = (err invalid_payload, s)

  unfoldable pub ask_reviewer : Option AgentPackage → AgentResult O → M W O (Option (AgentResult O))
  ask_reviewer none primary = pure none
  ask_reviewer (some agent) primary = call (ports.spawn_and_review agent primary) >>= reviewed

  abbrev pub is_available : Option (AgentResult O) → Bool
  is_available none = false
  is_available (some _) = true

  unfoldable pub run_peer_review : AgentResult O → String → M W O PeerValidation
  run_peer_review primary reviewer_category = do
    reviewer ← call (ports.find_healthy_package reviewer_category)
    result ← ask_reviewer reviewer primary
    call (ports.record_peer_review primary reviewer_category result (is_available result))

  unfoldable pub publish_task_completed :
      Uuid → Uuid → ResultStatus → Option (AgentResult O × Option PeerValidation) → M W O (Unit {0})
  publish_task_completed task_node_id agent_instance_id outcome result =
      publish_event ports (record {
        task_node_id = task_node_id;
        agent_instance_id = agent_instance_id;
        outcome = status_value outcome;
        result = result;
        correlation_id = correlation_id;
      })

  -- The reviewer's category where the condition of `_finalize_outcome` holds.
  abbrev pub review_due :
      AgentInstanceHandle O → ResultStatus → AgentPackage → Option (AgentResult O × String)
  review_due handle outcome agent =
      if is_success outcome
      then elim handle.result [
        | none ↦ none
        | some result ↦ elim agent.peer_reviewer_category [
          | none ↦ none
          | some category ↦ some (result, category)
        ]
      ]
      else none

  abbrev pub unreviewed : Option (AgentResult O) → Option (AgentResult O × Option PeerValidation)
  unreviewed none = none
  unreviewed (some result) = some (result, none)

  unfoldable pub finalize_outcome :
      TaskNodeSnapshot F
      → AgentInstance
      → AgentInstanceHandle O
      → ResultStatus
      → AgentPackage
      → M W O (Unit {0})
  finalize_outcome node row handle outcome agent = elim (review_due handle outcome agent) [
    | none ↦ publish_task_completed node.id row.id outcome (unreviewed handle.result)
    | some (result, category) ↦ (do
      verdict ← run_peer_review result category
      publish_task_completed node.id row.id
          (if is_rejected verdict then needs_revision else success) (some (result, some verdict)))
  ]

  -- Any exception of the supervisor's port is a declined restart.
  unfoldable pub plan_restart_or_decline : Uuid → String → List AgentInstance → M W O (List Uuid)
  plan_restart_or_decline failed_id category siblings s =
      let (r, s') = call (ports.plan_restart failed_id category siblings) s in
      elim r [ ok restart_ids ↦ (ok restart_ids, s') | err _ ↦ (ok [], s') ]

  abbrev pub status_after : Bool → InstanceStatus
  status_after needs_restart = if needs_restart then failed else completed

  abbrev pub health_after : Bool → HealthStatus
  health_after needs_restart = if needs_restart then unhealthy else healthy

  -- The row that is written before the agent starts.
  abbrev pub new_instance : AgentPackage → TaskNodeSnapshot F → String → Uuid → ℕ → AgentInstance
  new_instance agent node category i at = record {
    id = i;
    agent_package_id = agent.id;
    category = category;
    status = running;
    assigned_task_node_id = some node.id;
    started_at = at;
    health_status = unknown;
  }

  unfoldable pub spawn_tracked :
      AgentPackage
      → AgentContext F
      → TaskNodeSnapshot F
      → String
      → M W O (AgentInstanceHandle O × AgentInstance)
  spawn_tracked agent context node category = do
    i ← ask ports.next_instance_id
    at ← ask ports.now
    insert (new_instance agent node category i at)
    handle ← call (ports.spawn agent context i)
    judged ← outcome_or_raise handle
    update_status i (status_after judged.0) (some (health_after judged.0))
    pure (
      handle,
      row_values (status_after judged.0) (some (health_after judged.0))
          (new_instance agent node category i at),
    )

  -- One attempt, and the outcome of its handle.
  unfoldable pub attempt :
      AgentPackage → AgentContext F → TaskNodeSnapshot F → String → M W O (Attempt O)
  attempt agent context node category = do
    spawned ← spawn_tracked agent context node category
    judged ← outcome_or_raise spawned.0
    pure (record {
      handle = spawned.0;
      row = spawned.1;
      needs_restart = judged.0;
      outcome = judged.1;
    })

  unfoldable pub finish : AgentPackage → TaskNodeSnapshot F → Attempt O → M W O (Option Uuid)
  finish agent node a = do
    finalize_outcome node a.row a.handle a.outcome agent
    pure (some a.row.id)

  -- The steps of `dispatch_task_node` once a package is found: a failed first attempt is retried
  -- once, if the supervisor says so.
  unfoldable pub run_agent :
      AgentPackage → AgentContext F → TaskNodeSnapshot F → String → M W O (Option Uuid)
  run_agent agent context node category = do
    first ← attempt agent context node category
    (if first.needs_restart
        then (do
          restart_ids ← plan_restart_or_decline first.row.id category (first.row ∷ [])
          (if contains first.row.id restart_ids
              then attempt agent context node category >>= finish agent node
              else finish agent node first))
        else finish agent node first)

  unfoldable pub dispatch_task_node : Uuid → TaskNodeSnapshot F → M W O (Option Uuid)
  dispatch_task_node primary_user_id node = elim node.assigned_agent_category [
    | none ↦ pure none
    | some category ↦ (do
      found ← call (ports.find_healthy_package category)
      (elim found [
        | none ↦ pure none
        | some agent ↦
            run_agent agent (build_context node primary_user_id correlation_id) node category
      ]))
  ]

  -- An exception of one node is logged, and the node left out.
  unfoldable pub dispatched : List (Result (Option Uuid)) → List Uuid
  dispatched [] = []
  dispatched (ok (some i) ∷ results) = i ∷ dispatched results
  dispatched (ok none ∷ results) = dispatched results
  dispatched (err _ ∷ results) = dispatched results

  -- `gather` is asyncio.gather, which interleaves the runs and returns their results in the order of
  -- its arguments.
  unfoldable pub dispatch_ready_nodes :
      (gather : List (M W O (Option Uuid)) → State W O → List (Result (Option Uuid)) × State W O)
      → Uuid
      → TaskGraphSnapshot F
      → State W O
      → List Uuid × State W O
  dispatch_ready_nodes gather primary_user_id graph s =
      elim (keep (λ n. is_ready n.status) graph.nodes) [
        | [] ↦ ([], s)
        | node ∷ nodes ↦
            let (results, s') =
              gather (map (λ n. dispatch_task_node primary_user_id n) (node ∷ nodes)) s in
            (dispatched results, s')
      ]
