-- ===== src/Action/Gated.antt =====
-- What `execute_action` replies once its row is stored: the identity gate and the approval gate.
use nova_project_bible.Common.{
  ℕ, Option, none, some, List, Bool, true, false, ◌≡◌, refl, sym, ap, ◌∙◌, arith, inl, inr,
  Bool-cases,
}
use nova_project_bible.Common.Effects.{Result, ◌>>=◌, Gives-if, Gives-then}
use nova_project_bible.Common.Words.{Text}
use nova_project_bible.Contracts.{RiskLevel}
use nova_project_bible.Action.Model.{
  IdentityConfidencePolicy, ActionExecuteRequest, ActionStatus, ActionResult,
  identity_confidence_denied, risk_is, below_threshold, check_permissions, estimate_risk, succeeded,
  refused, is_critical,
}
use nova_project_bible.Action.Store.{Ports, State, ActionRow, Error}
use nova_project_bible.Action.Pipeline.{
  deny_unapproved, after_approval, seek_approval, threshold_for, effective, deny_identity,
  pass_identity, judge_identity, check_identity,
}
use nova_project_bible.Action.Progress.{At, Answers, Reaches}
use nova_project_bible.Action.Steps.{
  At-stage, At-status, At-result, At-replied, At-call, At-confidence, At-clear,
}
use nova_project_bible.Action.Replies.{prepare_lem}
use nova_project_bible.Action.Concluding.{Approved, run_approval_loop_lem}

module _ {W J F : Type 0} (ports : Ports W J F) (request : ActionExecuteRequest J F)
    (risk : RiskLevel) (before : State W J F) where
  abbrev Here : Bool → ℕ → ActionRow J F → State W J F → Type 0
  Here = At ports request.requested_by risk request.action_id before

  abbrev Replies : Result Error (ActionResult J) × State W J F → Type 0
  Replies = Answers ports request.requested_by risk request.action_id before

  abbrev Confident : ActionRow J F → Type 0
  Confident row = Reaches ports request.requested_by risk row.action.confidence before.policies

  deny_unapproved_lem :
      {k : ℕ} {row : ActionRow J F} {s : State W J F}
      → Here false k row s
      → Replies (deny_unapproved request s)
  unfolding deny_unapproved ◌>>=◌
  deny_unapproved_lem h =
      At-replied (At-result (At-status h ActionStatus.denied) none none) _ refl refl refl refl refl

  after_approval_lem :
      {row : ActionRow J F} {s : State W J F} (operation : Text) (approved : Bool)
      → Approved ports request risk before row approved s
      → Confident row
      → Replies (after_approval ports request operation approved s)
  unfolding after_approval ◌>>=◌
  after_approval_lem operation true h confident =
      prepare_lem ports request risk before operation
        (At-status (At-clear h.here confident (λ e. h.on_record refl)) ActionStatus.approved)
        (omega arith)
  after_approval_lem operation false h confident = deny_unapproved_lem h.here

  seek_approval_lem :
      {row : ActionRow J F} {s : State W J F} (fuel timeout : ℕ) (operation : Text)
      → Here false 4 row s
      → Confident row
      → Replies (seek_approval ports fuel timeout request operation risk s)
  unfolding seek_approval ◌>>=◌
  seek_approval_lem {row} {s} fuel timeout operation h confident =
      Gives-if _ _ (is_critical risk) _ _ s
        (λ _.
          Gives-then (run_approval_loop_lem ports request risk before fuel timeout h (omega arith))
            λ approved t p. after_approval_lem operation approved p confident)
        (λ e.
          prepare_lem ports request risk before operation
            (At-clear h confident (λ q. absurd (sym e ∙ q))) (omega arith))
    where
      absurd : {A : Type 0} → false ≡ true → A
      absurd e = cc

  deny_identity_lem :
      {row : ActionRow J F} {s : State W J F} (confidence : F)
      → Here false 2 row s
      → Replies (deny_identity request risk confidence s)
  unfolding deny_identity ◌>>=◌
  deny_identity_lem confidence h =
      let denied_h = At-confidence h ActionStatus.denied confidence in
      let refused_h =
        At-stage denied_h check_permissions refused (some (below_threshold risk)) (omega arith) in
      At-replied (At-result refused_h none (some identity_confidence_denied)) _ refl refl refl refl
        refl

  pass_identity_lem :
      {row : ActionRow J F} {s : State W J F} (fuel timeout : ℕ) (operation : Text) (confidence : F)
      → Here false 2 row s
      → ports.lt confidence (threshold_for ports request.requested_by risk before.policies) ≡ false
      → Replies (pass_identity ports fuel timeout request operation risk confidence s)
  unfolding pass_identity ◌>>=◌
  pass_identity_lem fuel timeout operation confidence h reaches =
      let passed = At-confidence h ActionStatus.pending confidence in
      let checked = At-stage passed check_permissions succeeded none (omega arith) in
      seek_approval_lem fuel timeout operation
        (At-stage checked estimate_risk succeeded (some (risk_is risk)) (omega arith))
        (record { level = confidence; stored_level = refl; reaches = reaches })

  judge_identity_lem :
      {row : ActionRow J F} {s : State W J F} (fuel timeout : ℕ) (operation : Text)
      (confidence : Option F)
      → Here false 2 row s
      → Replies (judge_identity ports fuel timeout request operation risk confidence s)
  unfolding judge_identity
  judge_identity_lem {s} fuel timeout operation confidence h =
      let below : List (IdentityConfidencePolicy F) → Bool = λ policies.
        ports.lt (effective ports confidence)
          (threshold_for ports request.requested_by risk policies) in
      elim (Bool-cases (below s.policies)) [
        | inl e ↦ rw (judge_identity, e) (deny_identity_lem (effective ports confidence) h)
        | inr e ↦
            rw (judge_identity, e)
              (pass_identity_lem fuel timeout operation (effective ports confidence) h
                (sym (ap below h.same_policies) ∙ e))
      ]

  pub check_identity_lem :
      {row : ActionRow J F} {s : State W J F} (fuel timeout : ℕ) (operation : Text)
      → Here false 2 row s
      → Replies (check_identity ports fuel timeout request operation risk s)
  unfolding check_identity ◌>>=◌
  check_identity_lem fuel timeout operation h =
      Gives-then (At-call h _)
        λ confidence t p. judge_identity_lem fuel timeout operation confidence p
