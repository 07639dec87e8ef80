-- ===== src/Action/Waiting.antt =====
-- What the wait for a decision returns.
use nova_project_bible.Common.{
  ℕ, zero, suc, Uuid, Option, none, some, List, [], ◌∷◌, Bool, false, ltb, inl, inr, Option-cases,
  Bool-cases,
}
use nova_project_bible.Common.Effects.{Gives, Gives-ok, Gives-err}
use nova_project_bible.Contracts.{RiskLevel}
use nova_project_bible.Action.Model.{ActionExecuteRequest, ApprovalDecision, PendingApproval}
use nova_project_bible.Action.Store.{
  Ports, State, ActionRow, find_pending_approval, decide_pending_approval, Event,
}
use nova_project_bible.Action.Approval.{
  decide_approval, decide_each, serve_endpoint, poll, await_until,
}
use nova_project_bible.Action.Progress.{At, Along, HasDecision}
use nova_project_bible.Action.Steps.{At-Along, At-world}

module _ {W J F : Type 0} (ports : Ports W J F) (request : ActionExecuteRequest J F)
    (risk : RiskLevel) (before : State W J F) where
  abbrev pub Here : Bool → ℕ → ActionRow J F → State W J F → Type 0
  Here = At ports request.requested_by risk request.action_id before

  abbrev pub Unfinished : State W J F → Type 0
  Unfinished = Along ports request.requested_by risk request.action_id before

  -- Before clearance the approvals are free to change.
  pub At-approvals :
      {k : ℕ} {row : ActionRow J F} {s : State W J F}
      → Here false k row s
      → (w : W) (approvals : List PendingApproval)
      → Here false k row (record s { world = w; approvals = approvals })
  At-approvals h w approvals = record {
    stored = h.stored;
    entries = h.entries;
    history_grows = h.history_grows;
    ascending = h.ascending;
    gate = h.gate;
    same_policies = h.same_policies;
  }

  pub At-published :
      {k : ℕ} {row : ActionRow J F} {s : State W J F}
      → Here false k row s
      → (w : W) (events : List Event)
      → Here false k row (record s { world = w; published = events })
  At-published h w events = record {
    stored = h.stored;
    entries = h.entries;
    history_grows = h.history_grows;
    ascending = h.ascending;
    gate = h.gate;
    same_policies = h.same_policies;
  }

  At-decide_approval :
      {k : ℕ} {row : ActionRow J F} {s : State W J F} (i : Uuid) (approved : Bool)
      → Here false k row s
      → Here false k row (decide_approval ports i approved s).1
  unfolding decide_approval decide_pending_approval
  At-decide_approval {s} i approved h = elim (Option-cases (find_pending_approval i s)) [
    | inl e ↦ rw (decide_approval, e) h
    | inr (p, e) ↦ elim (Option-cases p.decision) [
      | inl q ↦ rw (decide_approval, e, q) (At-approvals h _ _)
      | inr (d, q) ↦ rw (decide_approval, e, q) h
    ]
  ]

  At-decide_each :
      {k : ℕ} {row : ActionRow J F} (posts : List (Uuid × Bool)) {s : State W J F}
      → Here false k row s
      → Here false k row (decide_each ports posts s)
  unfolding decide_each
  At-decide_each [] h = h
  At-decide_each ((i, approved) ∷ posts) h = At-decide_each posts (At-decide_approval i approved h)

  pub At-serve_endpoint :
      {k : ℕ} {row : ActionRow J F} {s : State W J F}
      → Here false k row s
      → Here false k row (serve_endpoint ports s)
  unfolding serve_endpoint
  At-serve_endpoint h = At-decide_each _ (At-world h _)

  -- A decision that is returned is on record.
  abbrev pub Decided : Option ApprovalDecision → List PendingApproval → Type 0
  Decided none approvals = Unit
  Decided (some d) approvals = HasDecision request.action_id d approvals

  pub record Waited (k : ℕ) (row : ActionRow J F) (d : Option ApprovalDecision) (s : State W J F)
      : Type 0 where
    pub here : Here false k row s
    pub on_record : Decided d s.approvals

  poll_lem :
      {k : ℕ} {row : ActionRow J F} {s : State W J F} (interval : ℕ)
      → Here false k row s
      → let (d, t) = poll ports request.action_id interval s in Waited k row d t
  unfolding poll
  poll_lem {s} interval h =
      let served = At-serve_endpoint h in
      elim (Option-cases (find_pending_approval request.action_id (serve_endpoint ports s))) [
        | inl e ↦ rw (poll, e) (record { here = At-world served _; on_record = tt })
        | inr (p, e) ↦ elim (Option-cases p.decision) [
          | inl q ↦ rw (poll, e, q) (record { here = At-world served _; on_record = tt })
          | inr (d, q) ↦ rw (poll, e, q) (record { here = served; on_record = (p, e, q) })
        ]
      ]

  pub await_until_lem :
      {k : ℕ} {row : ActionRow J F} (fuel deadline interval : ℕ) {s : State W J F}
      → Here false k row s
      → Gives
          (Waited k row)
          (λ _. Unfinished)
          (await_until ports fuel request.action_id deadline interval s)
  unfolding await_until
  await_until_lem zero deadline interval h = Gives-err _ _ _ _ (At-Along h)
  await_until_lem {k} {row} (suc fuel) deadline interval {s} h =
      let w = (ports.monotonic s.world).1 in
      let now_s : State W J F = record s { world = w } in
      let polled = poll ports request.action_id interval now_s in
      let p = poll_lem interval (At-world h w) in
      let rest = await_until_lem fuel deadline interval p.here in
      elim (Bool-cases (ltb (ports.monotonic s.world).0 deadline)) [
        | inl e ↦ elim (Option-cases polled.0) [
          | inl q ↦ rw (await_until, e, q) rest
          | inr (d, q) ↦ rw (await_until, e, q) (Gives-ok _ _ _ _ (rw q at p))
        ]
        | inr e ↦
            rw (await_until, e) (Gives-ok _ _ _ _ (record { here = At-world h w; on_record = tt }))
      ]
