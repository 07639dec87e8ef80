-- ===== src/Action/Tests.antt =====
-- The action engine's theorems at concrete ports, and runs of the code.
use nova_project_bible.Common.{
  ℕ, ◌+◌, Uuid, String, Option, none, some, [], ◌∷◌, ◌++◌, Bool, true, false, ◌≡◌, ◌⊎◌, refl, ltb,
  arith, if◌then◌else◌,
}
use nova_project_bible.Common.Table.{find, update}
use nova_project_bible.Common.Effects.{Result, ok, err, ◌>>=◌}
use nova_project_bible.Common.Words.{
  codes, strip, lower, lower_char, drop_spaces, is_space, same_text,
}
use nova_project_bible.Action.Model.{
  filesystem, terminal, ActionPriority, ActionStatus, ApprovalDecision, restore_file,
  ActionExecuteRequest, ActionResult, success, invoke_failure, adapter_error,
}
use nova_project_bible.Action.Risk.{classify_risk, risk_of_word}
use nova_project_bible.Action.Store.{
  Ports, State, Error, returned, call, ask, call_or, get_result, insert, update_status,
  record_result, insert_pending_approval, decide_pending_approval, record_execution_history,
  publish_event, invoke, get_param, without_operation,
}
use nova_project_bible.Action.Approval.{
  decide_approval, decide_each, serve_endpoint, poll, await_until, await_decision, deliver_request,
  disclose, conclude, await_and_conclude, disclose_and_await, announce, run_approval_loop,
}
use nova_project_bible.Action.Execution.{
  reply_of, capture_rollback_pre_state, attempt_rollback, recover, finish_failed, finish_completed,
  conclude_execution, invoke_capability, execute_capability, refuse_resources, use_validated,
  use_capability, prepare,
}
use nova_project_bible.Action.Pipeline.{
  idempotent_reply_if_terminal, deny_unapproved, after_approval, seek_approval, threshold_for,
  deny_identity, pass_identity, judge_identity, check_identity, already_exists, try_insert, admit,
  operation_of, receive, execute_action,
}
use nova_project_bible.Action.Spelling.{classify_risk-spelling}
use nova_project_bible.Action.Polling.{Clock, await_decision-ends}
use nova_project_bible.Action.Clearance.{
  ClearedRow, HistoryOrdered, execute_action-Cleared, execute_action-HistoryOrdered,
}
use nova_project_bible.Action.Repeats.{execute_action-repeats}

program : Unit {0}
unfolding find update ◌>>=◌ strip lower lower_char drop_spaces is_space same_text classify_risk
    risk_of_word call ask call_or get_result insert update_status record_result
    insert_pending_approval decide_pending_approval record_execution_history publish_event invoke
    get_param without_operation decide_approval decide_each serve_endpoint poll await_until
    await_decision deliver_request disclose conclude await_and_conclude disclose_and_await announce
    run_approval_loop capture_rollback_pre_state attempt_rollback recover finish_failed
    finish_completed conclude_execution invoke_capability execute_capability refuse_resources
    use_validated use_capability prepare idempotent_reply_if_terminal deny_unapproved after_approval
    seek_approval threshold_for deny_identity pass_identity judge_identity check_identity
    already_exists try_insert admit operation_of receive execute_action
program = tt

-- The world is the time. From the time 3 on the endpoint receives `decision` for the action 7. An
-- adapter that fails reads and writes back, but does nothing else.
abbrev ports : Bool → Bool → Ports ℕ String ℕ
ports decision works = record {
  resolve = λ name w. (
    some (some (record { id = 5; name = name; input_schema = []; health_status = "healthy" })),
    w,
  );
  invoke = λ _ operation parameters w. (
    some (record {
      outcome =
          if works
          then success
          else if same_text operation (codes "Delete")
          then invoke_failure
          else success;
      result = some parameters;
      error = none;
    }),
    w,
  );
  get_confidence = λ user w. (some (some user), w);
  get_connected_session = λ _ w. (returned (some 2), w);
  deliver_intent = λ _ w. (returned true, w);
  publish = λ _ w. (some tt, w);
  now = λ w. (w, w);
  monotonic = λ w. (w, w);
  sleep = λ d w. d + w;
  arrivals = λ w. (if ltb w 3 then [] else (7, decision) ∷ [], w);
  str_of = codes;
  validate_parameters = λ _ _. none;
  lt = ltb;
  zero_confidence = 0;
  full_confidence = 10;
}

-- The user's number is the confidence.
abbrev request : Uuid → ActionExecuteRequest String ℕ
request user = record {
  action_id = 7;
  action_type = filesystem;
  priority = ActionPriority.normal;
  source = "agent";
  requested_by = user;
  execution_target = "files";
  depends_on = [];
  parameters = ("path", "a.txt") ∷ ("operation", " Delete ") ∷ [];
  expected_result = none;
  timeout_seconds = 30;
  retry_policy = record { max_retries = 0; backoff_seconds = 1 };
  rollback_strategy = some (record { kind = restore_file; detail = none });
  required_permissions = [];
  verification_method = "adapter";
  requesting_engine = "planning-engine";
  correlation_id = 1;
}

abbrev empty : State ℕ String ℕ
empty = record {
  world = 0;
  actions = [];
  approvals = [];
  history = [];
  policies = [];
  published = [];
  calls = [];
}

abbrev reply_status : Result Error (ActionResult String) → Option ActionStatus
reply_status (ok reply) = some reply.status
reply_status (err e) = none

-- Approved after the first poll.
approved_run :
    (execute_action (ports true true) 5 100000 (request 10) empty).0
    ≡ ok (reply_of 7 ActionStatus.completed (some (request 10).parameters) none)
unfolding program
approved_run = refl

-- Denied by the user.
denied_run :
    reply_status (execute_action (ports false true) 5 100000 (request 10) empty).0
    ≡ some ActionStatus.denied
unfolding program
denied_run = refl

-- The adapter fails, and the file is restored.
rolled_back_run :
    (execute_action (ports true false) 5 100000 (request 10) empty).0
    ≡ ok (reply_of 7 ActionStatus.rolled_back none (some (adapter_error "failure" false)))
unfolding program
rolled_back_run = refl

-- Not confident enough: nothing is called.
unsure_run :
    let out = execute_action (ports true true) 5 100000 (request 9) empty in
    (reply_status out.0 ≡ some ActionStatus.denied) × (out.1.calls ≡ [])
unfolding program
unsure_run = (refl, refl)

execute_action-Cleared_example :
    let after = (execute_action (ports true true) 5 100000 (request 10) empty).1 in
    (after.calls ≡ []) ⊎ ClearedRow (ports true true) (request 10) empty after
execute_action-Cleared_example =
    execute_action-Cleared (ports true true) (request 10) 5 100000 empty

execute_action-HistoryOrdered_example :
    HistoryOrdered
      (ports true true)
      (request 10)
      empty
      (execute_action (ports true true) 5 100000 (request 10) empty).1
execute_action-HistoryOrdered_example =
    execute_action-HistoryOrdered (ports true true) (request 10) 5 100000 empty

execute_action-repeats_example :
    let after = (execute_action (ports true false) 5 100000 (request 10) empty).1 in
    execute_action (ports true false) 1 0 (request 3) after
    ≡ (ok (reply_of 7 ActionStatus.rolled_back none (some (adapter_error "failure" false))), after)
unfolding program
execute_action-repeats_example =
    execute_action-repeats (ports true false) (request 10) empty 5 100000 _ refl refl refl
      (request 3) 1 0 refl

abbrev clock : Clock (ports true true)
clock = record {
  time = λ w. w;
  reads_time = λ w. refl;
  reading = λ w. omega arith;
  stamping = λ w. omega arith;
  arriving = λ w. omega arith;
  sleeping = λ d w. omega arith;
}

await_decision-ends_example :
    (d : Option ApprovalDecision) × ((await_decision (ports true true) 101 7 100 empty).0 ≡ ok d)
await_decision-ends_example = await_decision-ends (ports true true) clock 100 7 empty

classify_risk-spelling_example :
    classify_risk terminal (codes "  " ++ (codes "DeLeTe" ++ codes " "))
    ≡ classify_risk terminal (codes "delete")
unfolding program
classify_risk-spelling_example =
    classify_risk-spelling terminal (codes "  ") (codes " ") (codes "DeLeTe") (codes "delete")
      (refl, (refl, tt)) (refl, tt) refl
