-- ===== src/Action/Approval.antt =====
-- The approval loop of domain/pipeline.py, and api/approvals.py.
use nova_project_bible.Common.{
  ℕ, zero, suc, ◌+◌, ◌/◌, Uuid, Option, none, some, List, [], ◌∷◌, Bool, true, false, if◌then◌else◌,
  ltb, leb, ◌==◌,
}
use nova_project_bible.Common.Effects.{ok, err, M, ◌>>=◌, ◌>>◌, pure, modify}
use nova_project_bible.Contracts.{RiskLevel}
use nova_project_bible.Action.Model.{
  ActionStatus, ApprovalDecision, approve, deny, ActionExecuteRequest, prepare_resources, blocked,
  timed_out, decided, risk_is,
}
use nova_project_bible.Action.Store.{
  Ports, State, Error, approval_requested, approval_decided, out_of_fuel, ask, call_or,
  find_pending_approval, insert_pending_approval, decide_pending_approval, update_status,
  record_execution_history, publish_event,
}

-- The endpoint's answers: 404, 409, and the decision recorded.
pub data DecideResponse : Type 0 where
  not_found conflict : DecideResponse
  decision_recorded : ApprovalDecision → DecideResponse

abbrev pub is_approve : ApprovalDecision → Bool
is_approve approve = true
is_approve deny = false

abbrev pub minimum : ℕ → ℕ → ℕ
minimum a b = if leb a b then a else b

abbrev pub decision_of : Bool → ApprovalDecision
decision_of true = approve
decision_of false = deny

module _ {W J F : Type 0} (ports : Ports W J F) where
  unfoldable pub decide_approval : Uuid → Bool → State W J F → DecideResponse × State W J F
  decide_approval i approved s = elim (find_pending_approval i s) [
    | none ↦ (not_found, s)
    | some p ↦ elim p.decision [
      | some _ ↦ (conflict, s)
      | none ↦
          let (at_time, w) = ports.now s.world in
          (
            decision_recorded (decision_of approved),
            decide_pending_approval i (decision_of approved) at_time (record s { world = w }),
          )
    ]
  ]

  unfoldable pub decide_each : List (Uuid × Bool) → State W J F → State W J F
  decide_each [] s = s
  decide_each ((i, approved) ∷ posts) s = decide_each posts (decide_approval i approved s).1

  -- The requests that the endpoint serves before the loop runs again.
  unfoldable pub serve_endpoint : State W J F → State W J F
  serve_endpoint s =
      let (posts, w) = ports.arrivals s.world in decide_each posts (record s { world = w })

  -- One poll of the loop: the decision, or a sleep.
  unfoldable pub poll : Uuid → ℕ → State W J F → Option ApprovalDecision × State W J F
  poll i interval s =
      let t = serve_endpoint s in
      elim (find_pending_approval i t) [
        | none ↦ (none, record t { world = ports.sleep interval t.world })
        | some p ↦ elim p.decision [
          | some d ↦ (some d, t)
          | none ↦ (none, record t { world = ports.sleep interval t.world })
        ]
      ]

  -- The `while` of `_await_decision`.
  unfoldable pub await_until :
      (fuel : ℕ) → Uuid → (deadline interval : ℕ) → M (State W J F) Error (Option ApprovalDecision)
  await_until zero i deadline interval s = (err out_of_fuel, s)
  await_until (suc fuel) i deadline interval s =
      let (t, w) = ports.monotonic s.world in
      let now_s : State W J F = record s { world = w } in
      let polled = poll i interval now_s in
      let rest = await_until fuel i deadline interval polled.1 in
      if ltb t deadline
      then elim polled.0 [ some d ↦ (ok (some d), polled.1) | none ↦ rest ]
      else (ok none, now_s)

  abbrev pub poll_interval : ℕ → ℕ
  poll_interval timeout =
      let wanted = if ltb 0 timeout then minimum 50000 (timeout / 10) else 50000 in
      if wanted == 0 then 50000 else wanted

  unfoldable pub await_decision :
      (fuel : ℕ) → Uuid → (timeout : ℕ) → M (State W J F) Error (Option ApprovalDecision)
  await_decision fuel i timeout = do
    t ← ask ports.monotonic
    await_until fuel i (t + timeout) (poll_interval timeout)

  abbrev pub publish_decision :
      ActionExecuteRequest J F → ApprovalDecision → ℕ → Bool → M (State W J F) Error (Unit {0})
  publish_decision request decision at_time by_timeout =
      publish_event ports
        (approval_decided request.correlation_id request.action_id decision at_time by_timeout)

  -- The message to the user's session, where there is one.
  unfoldable pub deliver_request :
      ActionExecuteRequest J F → RiskLevel → Option Uuid → M (State W J F) Error Bool
  deliver_request request risk none = pure false
  deliver_request request risk (some session_id) = call_or false (
      ports.deliver_intent (record {
        session_id = session_id;
        action_type = request.action_type;
        execution_target = request.execution_target;
        risk = risk;
      }))

  unfoldable pub disclose : ActionExecuteRequest J F → RiskLevel → M (State W J F) Error Bool
  disclose request risk = do
    session ← call_or none (ports.get_connected_session request.requested_by)
    deliver_request request risk session

  -- What follows the wait: `none` is a timeout, and denies.
  unfoldable pub conclude :
      ActionExecuteRequest J F → RiskLevel → Option ApprovalDecision → M (State W J F) Error Bool
  conclude request risk none = do
    at_time ← ask ports.now
    modify (λ s. decide_pending_approval request.action_id deny at_time (serve_endpoint s))
    publish_decision request deny at_time true
    modify (
        record_execution_history request.action_id prepare_resources timed_out
          (some (risk_is risk)))
    pure false
  conclude request risk (some decision) = do
    at_time ← ask ports.now
    publish_decision request decision at_time false
    modify (
        record_execution_history request.action_id prepare_resources (decided decision)
          (some (risk_is risk)))
    pure (is_approve decision)

  unfoldable pub await_and_conclude :
      (fuel timeout : ℕ) → ActionExecuteRequest J F → RiskLevel → M (State W J F) Error Bool
  await_and_conclude fuel timeout request risk = do
    decision ← await_decision fuel request.action_id timeout
    conclude request risk decision

  unfoldable pub disclose_and_await :
      (fuel timeout : ℕ) → ActionExecuteRequest J F → RiskLevel → M (State W J F) Error Bool
  disclose_and_await fuel timeout request risk = do
    disclose request risk
    await_and_conclude fuel timeout request risk

  unfoldable pub announce :
      (fuel timeout : ℕ)
      → ActionExecuteRequest J F
      → RiskLevel
      → (requested_at : ℕ) → M (State W J F) Error Bool
  announce fuel timeout request risk requested_at = do
    modify
        (record_execution_history request.action_id prepare_resources blocked (some (risk_is risk)))
    publish_event ports
        (approval_requested request.correlation_id request.action_id risk requested_at)
    disclose_and_await fuel timeout request risk

  unfoldable pub run_approval_loop :
      (fuel timeout : ℕ) → ActionExecuteRequest J F → RiskLevel → M (State W J F) Error Bool
  run_approval_loop fuel timeout request risk = do
    at_time ← ask ports.now
    modify (update_status request.action_id ActionStatus.approval_required none)
    insert_pending_approval (record {
      action_id = request.action_id;
      risk = risk;
      requested_at = at_time;
      decided_at = none;
      decision = none;
    })
    announce fuel timeout request risk at_time
