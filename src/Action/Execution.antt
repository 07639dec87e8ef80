-- ===== src/Action/Execution.antt =====
-- domain/pipeline.py, from stage 5 of `execute_action` on: the last stages come first.
use nova_project_bible.Common.{
  Uuid, String, Option, none, some, Bool, true, false, if◌then◌else◌, not, str_eq,
}
use nova_project_bible.Common.Effects.{M, ◌>>=◌, ◌>>◌, pure, modify}
use nova_project_bible.Common.Words.{Text, codes}
use nova_project_bible.Action.Model.{
  ActionStatus, ActionExecuteRequest, RollbackStrategyKind, restore_file, RollbackStrategy, Params,
  ActionResult, Message, capability_not_found, capability_unhealthy, unhealthy, invalid_parameters,
  adapter_error, text_is, kind_is, no_rollback_strategy, execution_succeeded,
  execution_did_not_succeed, ActionStage, prepare_resources, execute, monitor_progress,
  detect_errors, recover_if_necessary, verify_result, report_outcome, store_experience,
  StageOutcome, succeeded, failure, started, skipped, nothing, Capability, is_success, outcome_text,
}
use nova_project_bible.Action.Store.{
  Ports, State, Error, InvokeReply, call, update_status, record_result, record_execution_history,
  invoke, without_operation,
}

abbrev pub is_restore_file : RollbackStrategyKind → Bool
is_restore_file restore_file = true
is_restore_file _ = false

abbrev pub reply_of :
    {J : Type 0} → Uuid → ActionStatus → Option (Params J) → Option Message → ActionResult J
reply_of i status result error = record {
  action_id = i;
  status = status;
  result = result;
  error = error;
}

-- `error or outcome`
abbrev pub error_text : {J : Type 0} → InvokeReply J → String
error_text reply = elim reply.error [
  | none ↦ outcome_text reply.outcome
  | some text ↦ if str_eq text "" then outcome_text reply.outcome else text
]

abbrev pub final_status : Bool → ActionStatus
final_status rolled_back = if rolled_back then ActionStatus.rolled_back else ActionStatus.failed

abbrev pub combined_error :
    {J F : Type 0} → ActionExecuteRequest J F → InvokeReply J → Bool → Message
combined_error request reply rolled_back =
    adapter_error (error_text reply)
      (elim request.rollback_strategy [ none ↦ false | some _ ↦ not rolled_back ])

module _ {W J F : Type 0} where
  abbrev pub stage :
      ActionExecuteRequest J F
      → ActionStage
      → StageOutcome
      → Option Message
      → M (State W J F) Error (Unit {0})
  stage request s outcome detail =
      modify (record_execution_history request.action_id s outcome detail)

  abbrev pub set_status : ActionExecuteRequest J F → ActionStatus → M (State W J F) Error (Unit {0})
  set_status request status = modify (update_status request.action_id status none)

  abbrev pub set_result :
      ActionExecuteRequest J F
      → Option (Params J)
      → Option Message
      → M (State W J F) Error (Unit {0})
  set_result request result error = modify (record_result request.action_id result error)

  -- The stages after an execution that succeeded.
  unfoldable pub finish_completed :
      ActionExecuteRequest J F → InvokeReply J → M (State W J F) Error (ActionResult J)
  finish_completed request reply = do
    stage request detect_errors nothing none
    stage request recover_if_necessary skipped (some execution_succeeded)
    stage request verify_result succeeded none
    set_status request ActionStatus.completed
    set_result request reply.result none
    stage request report_outcome succeeded none
    stage request store_experience succeeded none
    pure (reply_of request.action_id ActionStatus.completed reply.result none)

  -- The three refusals of stage 5: the detail of the stage, and the error stored and replied.
  unfoldable pub refuse_resources :
      ActionExecuteRequest J F → Message → Message → M (State W J F) Error (ActionResult J)
  refuse_resources request detail error = do
    set_status request ActionStatus.failed
    stage request prepare_resources failure (some detail)
    set_result request none (some error)
    pure (reply_of request.action_id ActionStatus.failed none (some error))

  abbrev pub recovered :
      ActionExecuteRequest J F → RollbackStrategy → Bool → M (State W J F) Error Bool
  recovered request strategy rolled_back = do
    stage request recover_if_necessary (if rolled_back then succeeded else failure)
        (some (kind_is strategy.kind))
    pure rolled_back

module _ {W J F : Type 0} (ports : Ports W J F) where
  -- _capture_rollback_pre_state
  unfoldable pub capture_rollback_pre_state :
      Option RollbackStrategy → Params J → Uuid → M (State W J F) Error (Option (Params J))
  capture_rollback_pre_state none parameters capability_id = pure none
  capture_rollback_pre_state (some strategy) parameters capability_id =
      if is_restore_file strategy.kind
      then (invoke ports (record {
        capability_id = capability_id;
        operation = codes "read";
        parameters = without_operation parameters;
      })
          >>= λ reply. pure (if is_success reply.outcome then reply.result else none))
      else pure none

  -- _attempt_rollback: the value set for "operation" is left out again.
  unfoldable pub attempt_rollback : RollbackStrategy → Params J → Uuid → M (State W J F) Error Bool
  attempt_rollback strategy pre_state capability_id =
      if is_restore_file strategy.kind
      then (invoke ports (record {
        capability_id = capability_id;
        operation = codes "write";
        parameters = without_operation pre_state;
      })
          >>= λ reply. pure (is_success reply.outcome))
      else pure false

  -- Recover: whether the action was rolled back.
  unfoldable pub recover :
      ActionExecuteRequest J F → Uuid → Option (Params J) → M (State W J F) Error Bool
  recover request capability_id pre_state = elim request.rollback_strategy [
    | none ↦ do stage request recover_if_necessary skipped (some no_rollback_strategy); pure false
    | some strategy ↦ elim pre_state [
      | none ↦ do stage request recover_if_necessary skipped (some no_rollback_strategy); pure false
      | some state ↦ attempt_rollback strategy state capability_id >>= recovered request strategy
    ]
  ]

  -- The stages after an execution that did not succeed.
  unfoldable pub finish_failed :
      ActionExecuteRequest J F
      → Uuid
      → Option (Params J)
      → InvokeReply J
      → M (State W J F) Error (ActionResult J)
  finish_failed request capability_id pre_state reply = do
    stage request detect_errors failure
        (elim reply.error [ none ↦ none | some text ↦ some (text_is text) ])
    rolled_back ← recover request capability_id pre_state
    set_status request (final_status rolled_back)
    stage request verify_result skipped (some execution_did_not_succeed)
    set_result request none (some (combined_error request reply rolled_back))
    stage request report_outcome succeeded none
    stage request store_experience succeeded none
    pure (
        reply_of request.action_id (final_status rolled_back) none
          (some (combined_error request reply rolled_back)))

  -- Stages 7 on, by the outcome.
  unfoldable pub conclude_execution :
      ActionExecuteRequest J F
      → Uuid
      → Option (Params J)
      → InvokeReply J
      → M (State W J F) Error (ActionResult J)
  conclude_execution request capability_id pre_state reply = do
    stage request monitor_progress succeeded none
    if is_success reply.outcome
        then finish_completed request reply
        else finish_failed request capability_id pre_state reply

  unfoldable pub invoke_capability :
      ActionExecuteRequest J F
      → Text
      → Uuid
      → Option (Params J)
      → M (State W J F) Error (ActionResult J)
  invoke_capability request operation capability_id pre_state = do
    stage request execute started none
    reply ← invoke ports (record {
      capability_id = capability_id;
      operation = operation;
      parameters = request.parameters;
    })
    conclude_execution request capability_id pre_state reply

  unfoldable pub execute_capability :
      ActionExecuteRequest J F → Text → Uuid → M (State W J F) Error (ActionResult J)
  execute_capability request operation capability_id = do
    stage request prepare_resources succeeded none
    set_status request ActionStatus.executing
    pre_state ←
        capture_rollback_pre_state request.rollback_strategy request.parameters capability_id
    invoke_capability request operation capability_id pre_state

  -- Deep parameter validation, by its error.
  unfoldable pub use_validated :
      ActionExecuteRequest J F
      → Text
      → Uuid
      → Option String
      → M (State W J F) Error (ActionResult J)
  use_validated request operation capability_id none =
      execute_capability request operation capability_id
  use_validated request operation capability_id (some error) =
      refuse_resources request (invalid_parameters error) (invalid_parameters error)

  unfoldable pub use_capability :
      ActionExecuteRequest J F
      → Text
      → Option (Capability J)
      → M (State W J F) Error (ActionResult J)
  use_capability request operation none =
      refuse_resources request (text_is "capability not found")
        (capability_not_found request.execution_target)
  use_capability request operation (some capability) =
      if str_eq capability.health_status "healthy"
      then use_validated request operation capability.id
          (ports.validate_parameters request.parameters capability.input_schema)
      else refuse_resources request (unhealthy capability.health_status)
          (capability_unhealthy capability.name capability.health_status)

  unfoldable pub prepare : ActionExecuteRequest J F → Text → M (State W J F) Error (ActionResult J)
  prepare request operation = do
    stage request prepare_resources started none
    capability ← call (ports.resolve request.execution_target)
    use_capability request operation capability
