-- ===== src/Action/Concluding.antt =====
-- What the approval loop of `execute_action` returns.
use nova_project_bible.Common.{
  ℕ, ◌≤◌, Uuid, Option, none, some, List, Bool, true, false, ◌≡◌, arith, inl, inr, Option-cases,
}
use nova_project_bible.Common.Table.{find}
use nova_project_bible.Common.Effects.{◌>>=◌, Gives, Gives-ok, Gives-err, Gives-then}
use nova_project_bible.Contracts.{RiskLevel}
use nova_project_bible.Action.Model.{
  ActionExecuteRequest, ActionStatus, ApprovalDecision, approve, deny, PendingApproval,
  prepare_resources, blocked, timed_out, decided, risk_is,
}
use nova_project_bible.Action.Store.{
  Ports, State, ActionRow, ask, call_or, insert_pending_approval, decide_pending_approval,
  publish_event, approval_id, with_status, Event, Answer, Answer-cases, record_execution_history,
}
use nova_project_bible.Action.Approval.{
  await_decision, disclose, conclude, run_approval_loop, is_approve, deliver_request, announce,
  disclose_and_await, await_and_conclude,
}
use nova_project_bible.Action.Progress.{At, Along, HasDecision}
use nova_project_bible.Action.Steps.{At-Along, At-world, At-stage, At-status}
use nova_project_bible.Action.Waiting.{
  Waited, At-approvals, At-published, At-serve_endpoint, await_until_lem,
}

module _ {W J F : Type 0} (ports : Ports W J F) (request : ActionExecuteRequest J F)
    (risk : RiskLevel) (before : State W J F) where
  abbrev Here : Bool → ℕ → ActionRow J F → State W J F → Type 0
  Here = At ports request.requested_by risk request.action_id before

  abbrev WaitedHere : ℕ → ActionRow J F → Option ApprovalDecision → State W J F → Type 0
  WaitedHere = Waited ports request risk before

  abbrev Unfinished : State W J F → Type 0
  Unfinished = Along ports request.requested_by risk request.action_id before

  publish_event_lem :
      {k : ℕ} {row : ActionRow J F} {d : Option ApprovalDecision} {s : State W J F} (event : Event)
      → WaitedHere k row d s
      → Gives (λ _. WaitedHere k row d) (λ _. Unfinished) (publish_event ports event s)
  unfolding publish_event
  publish_event_lem {k} {row} {d} {s} event h =
      let (answer, w) = ports.publish event s.world in
      let after : (es : List Event) → WaitedHere k row d (record s { world = w; published = es }) =
        λ es. record {
          here = At-published ports request risk before h.here w es;
          on_record = h.on_record;
        } in
      elim (Option-cases (ports.publish event s.world).0) [
        | inl e ↦ rw (publish_event, e) (Gives-err _ _ _ _ (At-Along (At-world h.here w)))
        | inr (u, e) ↦ rw (publish_event, e) (Gives-ok _ _ _ _ (after _))
      ]

  call_or_lem :
      {k : ℕ} {row : ActionRow J F} {s : State W J F} {A : Type 0} (default : A)
      (f : W → Answer A × W)
      → Here false k row s
      → Gives (λ _. Here false k row) (λ _. Unfinished) (call_or default f s)
  unfolding call_or
  call_or_lem {s} default f h =
      let after = At-world h (f s.world).1 in
      elim (Answer-cases (f s.world).0) [
        | inl e ↦ rw (call_or, e) (Gives-err _ _ _ _ (At-Along after))
        | inr (inl e) ↦ rw (call_or, e) (Gives-ok _ _ _ _ after)
        | inr (inr (a, e)) ↦ rw (call_or, e) (Gives-ok _ _ _ _ after)
      ]

  disclose_lem :
      {k : ℕ} {row : ActionRow J F} {s : State W J F}
      → Here false k row s
      → Gives (λ _. Here false k row) (λ _. Unfinished) (disclose ports request risk s)
  unfolding disclose deliver_request ◌>>=◌
  disclose_lem {k} {row} h = Gives-then (call_or_lem none _ h) delivered
    where
      delivered :
          (session : Option Uuid) (t : State W J F)
          → Here false k row t
          → Gives
              (λ _. Here false k row)
              (λ _. Unfinished)
              (deliver_request ports request risk session t)
      delivered none t p = Gives-ok _ _ _ _ p
      delivered (some session) t p = call_or_lem false _ p

  -- What the approval loop returns: an approval is on record.
  pub record Approved (row : ActionRow J F) (approved : Bool) (s : State W J F) : Type 0 where
    pub here : Here false 5 row s
    pub on_record : approved ≡ true → HasDecision request.action_id approve s.approvals

  absurd_approval : {A : Type 0} → false ≡ true → A
  absurd_approval e = cc

  approved_only :
      (d : ApprovalDecision) (approvals : List PendingApproval)
      → HasDecision request.action_id d approvals
      → is_approve d ≡ true
      → HasDecision request.action_id approve approvals
  approved_only approve approvals q e = q
  approved_only deny approvals q e = cc

  conclude_lem :
      {row : ActionRow J F} {s : State W J F} (d : Option ApprovalDecision)
      → WaitedHere 5 row d s
      → Gives (Approved row) (λ _. Unfinished) (conclude ports request risk d s)
  unfolding conclude ◌>>=◌ ask decide_pending_approval record_execution_history
  conclude_lem none h =
      let denied =
        At-approvals ports request risk before
          (At-serve_endpoint ports request risk before (At-world h.here _)) _ _ in
      Gives-then (publish_event_lem {d = none} _ (record { here = denied; on_record = tt }))
        λ u t p. Gives-ok _ _ _ _ (record {
          here = At-stage p.here prepare_resources timed_out (some (risk_is risk)) (omega arith);
          on_record = λ e. absurd_approval e;
        })
  conclude_lem {s} (some d) h =
      let now_h : WaitedHere 5 _ (some d) _ = record {
        here = At-world h.here (ports.now s.world).1;
        on_record = h.on_record;
      } in
      Gives-then (publish_event_lem _ now_h) λ u t p. Gives-ok _ _ _ _ (record {
        here = At-stage p.here prepare_resources (decided d) (some (risk_is risk)) (omega arith);
        on_record = approved_only d t.approvals p.on_record;
      })

  await_and_conclude_lem :
      {row : ActionRow J F} {s : State W J F} (fuel timeout : ℕ)
      → Here false 5 row s
      → Gives
          (Approved row)
          (λ _. Unfinished)
          (await_and_conclude ports fuel timeout request risk s)
  unfolding await_and_conclude await_decision ◌>>=◌ ask
  await_and_conclude_lem fuel timeout h =
      Gives-then
        (await_until_lem ports request risk before fuel _ _ (At-world h (ports.monotonic _).1))
        λ d t p. conclude_lem d p

  disclose_and_await_lem :
      {row : ActionRow J F} {s : State W J F} (fuel timeout : ℕ)
      → Here false 5 row s
      → Gives
          (Approved row)
          (λ _. Unfinished)
          (disclose_and_await ports fuel timeout request risk s)
  unfolding disclose_and_await ◌>>=◌
  disclose_and_await_lem fuel timeout h =
      Gives-then (disclose_lem h) λ b t p. await_and_conclude_lem fuel timeout p

  announce_lem :
      {k : ℕ} {row : ActionRow J F} {s : State W J F} (fuel timeout requested_at : ℕ)
      → Here false k row s
      → k ≤ 5
      → Gives
          (Approved row)
          (λ _. Unfinished)
          (announce ports fuel timeout request risk requested_at s)
  unfolding announce ◌>>=◌
  announce_lem fuel timeout requested_at h le =
      let blocked_h = At-stage h prepare_resources blocked (some (risk_is risk)) le in
      Gives-then (publish_event_lem {d = none} _ (record { here = blocked_h; on_record = tt }))
        λ u t p. disclose_and_await_lem fuel timeout p.here

  insert_pending_approval_lem :
      {k : ℕ} {row : ActionRow J F} {s : State W J F} (approval : PendingApproval)
      → Here false k row s
      → Gives (λ _. Here false k row) (λ _. Unfinished) (insert_pending_approval approval s)
  unfolding insert_pending_approval
  insert_pending_approval_lem {s} approval h =
      elim (Option-cases (find approval_id approval.action_id s.approvals)) [
        | inl e ↦
            rw (insert_pending_approval, e)
              (Gives-ok _ _ _ _ (At-approvals ports request risk before h _ _))
        | inr (p, e) ↦ rw (insert_pending_approval, e) (Gives-err _ _ _ _ (At-Along h))
      ]

  pub run_approval_loop_lem :
      {k : ℕ} {row : ActionRow J F} {s : State W J F} (fuel timeout : ℕ)
      → Here false k row s
      → k ≤ 5
      → Gives
          (Approved (with_status ActionStatus.approval_required none row))
          (λ _. Unfinished)
          (run_approval_loop ports fuel timeout request risk s)
  unfolding run_approval_loop ◌>>=◌ ask
  run_approval_loop_lem {s} fuel timeout h le =
      let required_h =
        At-status (At-world h (ports.now s.world).1) ActionStatus.approval_required in
      Gives-then (insert_pending_approval_lem _ required_h)
        λ u t p. announce_lem fuel timeout (ports.now s.world).0 p le
