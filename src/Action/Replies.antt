-- ===== src/Action/Replies.antt =====
-- What `execute_action` replies from stage 5 on, and what it leaves where a port raises.
use nova_project_bible.Common.{
  ℕ, Uuid, Option, none, some, Bool, true, false, ◌≤◌, ◌≡◌, refl, arith, str_eq, Option-cases, inl,
  inr, String,
}
use nova_project_bible.Common.Effects.{
  Result, ◌>>=◌, Gives, Gives-ok, >>=-Gives, Gives-if, Gives-then,
}
use nova_project_bible.Common.Words.{Text}
use nova_project_bible.Contracts.{RiskLevel}
use nova_project_bible.Action.Model.{
  ActionExecuteRequest, ActionStatus, Params, RollbackStrategy, Message, ActionResult,
  prepare_resources, execute, monitor_progress, detect_errors, recover_if_necessary, verify_result,
  report_outcome, store_experience, succeeded, failure, started, skipped, nothing, Capability,
  execution_succeeded, is_success, execution_did_not_succeed, is_terminal,
}
use nova_project_bible.Action.Store.{Ports, State, ActionRow, Error, InvokeReply}
use nova_project_bible.Action.Execution.{
  capture_rollback_pre_state, attempt_rollback, recover, finish_failed, finish_completed,
  is_restore_file, execute_capability, refuse_resources, use_validated, use_capability, prepare,
  final_status, combined_error, recovered, conclude_execution, invoke_capability,
}
use nova_project_bible.Action.Progress.{At, Along, Answers}
use nova_project_bible.Action.Steps.{At-stage, At-status, At-result, At-replied, At-call, At-invoke}

final_status-ends : (rolled_back : Bool) → is_terminal (final_status rolled_back) ≡ true
final_status-ends true = refl
final_status-ends false = refl

module _ {W J F : Type 0} (ports : Ports W J F) (request : ActionExecuteRequest J F)
    (risk : RiskLevel) (before : State W J F) where
  abbrev pub Here : Bool → ℕ → ActionRow J F → State W J F → Type 0
  Here = At ports request.requested_by risk request.action_id before

  abbrev pub Unfinished : State W J F → Type 0
  Unfinished = Along ports request.requested_by risk request.action_id before

  abbrev pub Replies : Result Error (ActionResult J) × State W J F → Type 0
  Replies = Answers ports request.requested_by risk request.action_id before

  pub finish_completed_lem :
      {k : ℕ} {row : ActionRow J F} {s : State W J F} (reply : InvokeReply J)
      → Here true k row s
      → k ≤ 8
      → Replies (finish_completed request reply s)
  unfolding finish_completed ◌>>=◌
  finish_completed_lem reply h le =
      let h1 = At-stage h detect_errors nothing none le in
      let h2 = At-stage h1 recover_if_necessary skipped (some execution_succeeded) (omega arith) in
      let h3 = At-stage h2 verify_result succeeded none (omega arith) in
      let h4 = At-result (At-status h3 ActionStatus.completed) reply.result none in
      let h5 = At-stage h4 report_outcome succeeded none (omega arith) in
      let h6 = At-stage h5 store_experience succeeded none (omega arith) in
      At-replied h6 _ refl refl refl refl refl

  pub capture_rollback_pre_state_lem :
      {k : ℕ} {row : ActionRow J F} {s : State W J F} (strategy : Option RollbackStrategy)
      (parameters : Params J) (capability_id : Uuid)
      → Here true k row s
      → Gives
          (λ _. Here true k row)
          (λ _. Unfinished)
          (capture_rollback_pre_state ports strategy parameters capability_id s)
  unfolding capture_rollback_pre_state
  capture_rollback_pre_state_lem none parameters c h = Gives-ok _ _ _ _ h
  capture_rollback_pre_state_lem {k} {row} {s} (some strategy) parameters c h =
      Gives-if (λ _. Here true k row) (λ _. Unfinished) (is_restore_file strategy.kind) _ _ s
        (λ _.
          >>=-Gives (λ _. Here true k row) (λ _. Unfinished) _ _ _ s (At-invoke h _)
            λ a t p. Gives-ok _ _ _ t p)
        (λ _. Gives-ok _ _ _ s h)

  pub attempt_rollback_lem :
      {k : ℕ} {row : ActionRow J F} {s : State W J F} (strategy : RollbackStrategy)
      (pre_state : Params J) (capability_id : Uuid)
      → Here true k row s
      → Gives
          (λ _. Here true k row)
          (λ _. Unfinished)
          (attempt_rollback ports strategy pre_state capability_id s)
  unfolding attempt_rollback
  attempt_rollback_lem {k} {row} {s} strategy pre_state c h =
      Gives-if (λ _. Here true k row) (λ _. Unfinished) (is_restore_file strategy.kind) _ _ s
        (λ _.
          >>=-Gives (λ _. Here true k row) (λ _. Unfinished) _ _ _ s (At-invoke h _)
            λ a t p. Gives-ok _ _ _ t p)
        (λ _. Gives-ok _ _ _ s h)

  pub recover_lem :
      {k : ℕ} {row : ActionRow J F} {s : State W J F} (capability_id : Uuid)
      (pre_state : Option (Params J))
      → Here true k row s
      → k ≤ 9
      → Gives
          (λ _. Here true 9 row)
          (λ _. Unfinished)
          (recover ports request capability_id pre_state s)
  unfolding recover ◌>>=◌
  recover_lem {k} {row} {s} c pre_state h le = elim (Option-cases request.rollback_strategy) [
    | inl e ↦ rw (recover, e) (Gives-ok _ _ _ _ (At-stage h recover_if_necessary skipped _ le))
    | inr (strategy, e) ↦ elim (Option-cases pre_state) [
      | inl q ↦ rw (recover, e, q) (Gives-ok _ _ _ _ (At-stage h recover_if_necessary skipped _ le))
      | inr (old, q) ↦
          rw (recover, e, q)
            (>>=-Gives _ _ _ (attempt_rollback ports strategy old c) (recovered request strategy) s
              (attempt_rollback_lem strategy old c h)
              λ b t p. Gives-ok _ _ _ _ (At-stage p recover_if_necessary _ _ le))
    ]
  ]

  pub finish_failed_lem :
      {k : ℕ} {row : ActionRow J F} {s : State W J F} (capability_id : Uuid)
      (pre_state : Option (Params J)) (reply : InvokeReply J)
      → Here true k row s
      → k ≤ 8
      → Replies (finish_failed ports request capability_id pre_state reply s)
  unfolding finish_failed ◌>>=◌
  finish_failed_lem c pre_state reply h le =
      Gives-then (recover_lem c pre_state (At-stage h detect_errors failure _ le) (omega arith))
        λ rolled_back t p.
          let h1 = At-status p (final_status rolled_back) in
          let h2 =
            At-stage h1 verify_result skipped (some execution_did_not_succeed) (omega arith) in
          let h3 = At-result h2 none (some (combined_error request reply rolled_back)) in
          let h4 = At-stage h3 report_outcome succeeded none (omega arith) in
          let h5 = At-stage h4 store_experience succeeded none (omega arith) in
          At-replied h5 _ refl (final_status-ends rolled_back) refl refl refl

  pub conclude_execution_lem :
      {k : ℕ} {row : ActionRow J F} {s : State W J F} (capability_id : Uuid)
      (pre_state : Option (Params J)) (reply : InvokeReply J)
      → Here true k row s
      → k ≤ 7
      → Replies (conclude_execution ports request capability_id pre_state reply s)
  unfolding conclude_execution ◌>>=◌
  conclude_execution_lem c pre_state reply h le =
      let h1 = At-stage h monitor_progress succeeded none le in
      Gives-if _ _ (is_success reply.outcome) _ _ _
        (λ _. finish_completed_lem reply h1 (omega arith))
        (λ _. finish_failed_lem c pre_state reply h1 (omega arith))

  pub invoke_capability_lem :
      {k : ℕ} {row : ActionRow J F} {s : State W J F} (operation : Text) (capability_id : Uuid)
      (pre_state : Option (Params J))
      → Here true k row s
      → k ≤ 6
      → Replies (invoke_capability ports request operation capability_id pre_state s)
  unfolding invoke_capability ◌>>=◌
  invoke_capability_lem operation c pre_state h le =
      Gives-then (At-invoke (At-stage h execute started none le) _)
        λ reply t p. conclude_execution_lem c pre_state reply p (omega arith)

  pub execute_capability_lem :
      {k : ℕ} {row : ActionRow J F} {s : State W J F} (operation : Text) (capability_id : Uuid)
      → Here true k row s
      → k ≤ 5
      → Replies (execute_capability ports request operation capability_id s)
  unfolding execute_capability ◌>>=◌
  execute_capability_lem operation c h le =
      let h1 = At-status (At-stage h prepare_resources succeeded none le) ActionStatus.executing in
      Gives-then (capture_rollback_pre_state_lem request.rollback_strategy request.parameters c h1)
        λ pre_state t p. invoke_capability_lem operation c pre_state p (omega arith)

  pub refuse_resources_lem :
      {k : ℕ} {row : ActionRow J F} {s : State W J F} (detail error : Message)
      → Here true k row s
      → k ≤ 5
      → Replies (refuse_resources request detail error s)
  unfolding refuse_resources ◌>>=◌
  refuse_resources_lem detail error h le =
      let h1 =
        At-stage (At-status h ActionStatus.failed) prepare_resources failure (some detail) le in
      At-replied (At-result h1 none (some error)) _ refl refl refl refl refl

  pub use_validated_lem :
      {row : ActionRow J F} {s : State W J F} (operation : Text) (capability_id : Uuid)
      (error : Option String)
      → Here true 5 row s
      → Replies (use_validated ports request operation capability_id error s)
  unfolding use_validated
  use_validated_lem operation c none h = execute_capability_lem operation c h (omega arith)
  use_validated_lem operation c (some e) h = refuse_resources_lem _ _ h (omega arith)

  pub use_capability_lem :
      {row : ActionRow J F} {s : State W J F} (operation : Text)
      (capability : Option (Capability J))
      → Here true 5 row s
      → Replies (use_capability ports request operation capability s)
  unfolding use_capability
  use_capability_lem operation none h = refuse_resources_lem _ _ h (omega arith)
  use_capability_lem operation (some capability) h =
      Gives-if _ _ (str_eq capability.health_status "healthy") _ _ _
        (λ _. use_validated_lem operation capability.id _ h)
        (λ _. refuse_resources_lem _ _ h (omega arith))

  pub prepare_lem :
      {k : ℕ} {row : ActionRow J F} {s : State W J F} (operation : Text)
      → Here true k row s
      → k ≤ 5
      → Replies (prepare ports request operation s)
  unfolding prepare ◌>>=◌
  prepare_lem operation h le =
      Gives-then (At-call (At-stage h prepare_resources started none le) _)
        λ capability t p. use_capability_lem operation capability p
