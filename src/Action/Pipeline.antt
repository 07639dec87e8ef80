-- ===== src/Action/Pipeline.antt =====
-- domain/pipeline.py: `execute_action`, up to stage 4: the last stages come first.
use nova_project_bible.Common.{
  ℕ, Uuid, Option, none, some, List, [], ◌∷◌, Bool, true, false, if◌then◌else◌,
}
use nova_project_bible.Common.Table.{find}
use nova_project_bible.Common.Effects.{Result, ok, err, M, ◌>>=◌, ◌>>◌, pure, modify}
use nova_project_bible.Common.Words.{Text, strip}
use nova_project_bible.Contracts.{RiskLevel}
use nova_project_bible.Action.Model.{
  IdentityConfidencePolicy, ActionStatus, ActionExecuteRequest, Action, Params, ActionResult,
  Message, missing_operation, in_flight, identity_confidence_denied, risk_is, below_threshold,
  receive_request, validate, check_permissions, estimate_risk, succeeded, failure, refused,
  is_terminal, is_critical,
}
use nova_project_bible.Action.Risk.{classify_risk}
use nova_project_bible.Action.Store.{
  Ports, State, Error, action_already_exists, call, find_by_id, get_result, insert, update_status,
  policy_id, get_param,
}
use nova_project_bible.Action.Approval.{run_approval_loop}
use nova_project_bible.Action.Execution.{stage, set_status, set_result, reply_of, prepare}

abbrev pub is_empty : Text → Bool
is_empty [] = true
is_empty (_ ∷ _) = false

abbrev pub stored_reply :
    {J : Type 0}
    → Uuid
    → ActionStatus
    → Option (Option (Params J) × Option Message)
    → ActionResult J
stored_reply i status none = reply_of i status none none
stored_reply i status (some (result, error)) = reply_of i status result error

module _ {W J F : Type 0} where
  -- _idempotent_reply_if_terminal
  unfoldable pub idempotent_reply_if_terminal : Uuid → State W J F → Option (ActionResult J)
  idempotent_reply_if_terminal i s = elim (find_by_id i s) [
    | none ↦ none
    | some row ↦
        if is_terminal row.action.status
        then some (stored_reply i row.action.status (get_result i s))
        else none
  ]

  unfoldable pub deny_unapproved : ActionExecuteRequest J F → M (State W J F) Error (ActionResult J)
  deny_unapproved request = do
    set_status request ActionStatus.denied
    set_result request none none
    pure (reply_of request.action_id ActionStatus.denied none none)

  unfoldable pub deny_identity :
      ActionExecuteRequest J F → RiskLevel → F → M (State W J F) Error (ActionResult J)
  deny_identity request risk confidence = do
    modify (update_status request.action_id ActionStatus.denied (some confidence))
    stage request check_permissions refused (some (below_threshold risk))
    set_result request none (some identity_confidence_denied)
    pure (reply_of request.action_id ActionStatus.denied none (some identity_confidence_denied))

  -- The handler of ActionAlreadyExistsError.
  unfoldable pub already_exists : Uuid → M (State W J F) Error (ActionResult J)
  already_exists i s = elim (idempotent_reply_if_terminal i s) [
    | some reply ↦ (ok reply, s)
    | none ↦ (ok (reply_of i ActionStatus.failed none (some in_flight)), s)
  ]

  -- Whether the row was inserted: the `try` around `insert`.
  abbrev pub caught : Result Error (Unit {0}) × State W J F → Result Error Bool × State W J F
  caught (ok _, s) = (ok true, s)
  caught (err action_already_exists, s) = (ok false, s)
  caught (err e, s) = (err e, s)

  unfoldable pub try_insert : Action J F → M (State W J F) Error Bool
  try_insert action s = caught (insert action s)

module _ {W J F : Type 0} (ports : Ports W J F) where
  unfoldable pub after_approval :
      ActionExecuteRequest J F → Text → Bool → M (State W J F) Error (ActionResult J)
  after_approval request operation true = do
    set_status request ActionStatus.approved
    prepare ports request operation
  after_approval request operation false = deny_unapproved request

  unfoldable pub seek_approval :
      (fuel timeout : ℕ)
      → ActionExecuteRequest J F
      → Text
      → RiskLevel
      → M (State W J F) Error (ActionResult J)
  seek_approval fuel timeout request operation risk =
      if is_critical risk
      then run_approval_loop ports fuel timeout request risk >>= after_approval request operation
      else prepare ports request operation

  -- The confidence that the user's policy asks for: all of it where it names none.
  unfoldable pub threshold_for : Uuid → RiskLevel → List (IdentityConfidencePolicy F) → F
  threshold_for user risk policies = elim (find policy_id user policies) [
    | none ↦ ports.full_confidence
    | some policy ↦ elim (policy.minimum_confidence_by_risk risk) [
      | none ↦ ports.full_confidence
      | some c ↦ c
    ]
  ]

  abbrev pub effective : Option F → F
  effective none = ports.zero_confidence
  effective (some c) = c

  unfoldable pub pass_identity :
      (fuel timeout : ℕ)
      → ActionExecuteRequest J F
      → Text
      → RiskLevel
      → F
      → M (State W J F) Error (ActionResult J)
  pass_identity fuel timeout request operation risk confidence = do
    modify (update_status request.action_id ActionStatus.pending (some confidence))
    stage request check_permissions succeeded none
    stage request estimate_risk succeeded (some (risk_is risk))
    seek_approval fuel timeout request operation risk

  -- The identity gate, on the confidence that the identity engine reported.
  unfoldable pub judge_identity :
      (fuel timeout : ℕ)
      → ActionExecuteRequest J F
      → Text
      → RiskLevel
      → Option F
      → M (State W J F) Error (ActionResult J)
  judge_identity fuel timeout request operation risk confidence s =
      if ports.lt (effective confidence) (threshold_for request.requested_by risk s.policies)
      then deny_identity request risk (effective confidence) s
      else pass_identity fuel timeout request operation risk (effective confidence) s

  unfoldable pub check_identity :
      (fuel timeout : ℕ)
      → ActionExecuteRequest J F
      → Text
      → RiskLevel
      → M (State W J F) Error (ActionResult J)
  check_identity fuel timeout request operation risk = do
    confidence ← call (ports.get_confidence request.requested_by)
    judge_identity fuel timeout request operation risk confidence

  abbrev pub action_of : ActionExecuteRequest J F → RiskLevel → Action J F
  action_of request risk = record {
    id = request.action_id;
    action_type = request.action_type;
    priority = request.priority;
    source = request.source;
    requested_by = request.requested_by;
    execution_target = request.execution_target;
    depends_on = request.depends_on;
    parameters = request.parameters;
    expected_result = request.expected_result;
    risk = risk;
    timeout_seconds = request.timeout_seconds;
    retry_policy = request.retry_policy;
    rollback_strategy = request.rollback_strategy;
    required_permissions = request.required_permissions;
    status = ActionStatus.pending;
    verification_method = request.verification_method;
    confidence = none;
  }

  unfoldable pub admit :
      (fuel timeout : ℕ) → ActionExecuteRequest J F → Text → M (State W J F) Error (ActionResult J)
  admit fuel timeout request operation = do
    stage request validate succeeded none
    let risk = classify_risk request.action_type operation
    inserted ← try_insert (action_of request risk)
    if inserted
        then check_identity fuel timeout request operation risk
        else already_exists request.action_id

  -- str(parameters.get("operation", "")).strip()
  unfoldable pub operation_of : ActionExecuteRequest J F → Text
  operation_of request = elim (get_param "operation" request.parameters) [
    | none ↦ []
    | some v ↦ strip (ports.str_of v)
  ]

  unfoldable pub receive :
      (fuel timeout : ℕ) → ActionExecuteRequest J F → M (State W J F) Error (ActionResult J)
  receive fuel timeout request = do
    stage request receive_request succeeded none
    if is_empty (operation_of request)
        then (stage request validate failure (some missing_operation)
            >> pure (reply_of request.action_id ActionStatus.failed none (some missing_operation)))
        else admit fuel timeout request (operation_of request)

  unfoldable pub execute_action :
      (fuel timeout : ℕ) → ActionExecuteRequest J F → M (State W J F) Error (ActionResult J)
  execute_action fuel timeout request s = elim (idempotent_reply_if_terminal request.action_id s) [
    | some reply ↦ (ok reply, s)
    | none ↦ receive fuel timeout request s
  ]
