-- ===== src/Supervisors/Conflict/Resolved.antt =====
-- Which level resolves a conflict, and what is recorded of it.
use nova_project_bible.Common.{
  Uuid, String, List, [], ◌∷◌, ◌++◌, true, false, ◌≡◌, ◌≢◌, refl, sym, ◌∙◌, ap, subst, Option-cases,
  Bool-cases, inl, inr,
}
use nova_project_bible.Common.Effects.{
  Result, ◌>>=◌, pure, Gives, Gives-ok, Gives-raised, Gives-then, >>=-Gives,
}
use nova_project_bible.Kernel.Model.{ResultStatus, success, failure, needs_revision, AgentResult}
use nova_project_bible.Supervisors.Conflict.{
  Ports, State, PortError, ConflictRecord, Decision, Resolution, Verdict, trusted, reasoned,
  ReasoningOutcome, is_failing, ask_reasoning, note_decision, conclude_conflict, resolve_conflict,
  supervisor_resolved, escalated_to_reasoning,
}

-- How two results are settled, with the questions asked before and after.
pub data Way {O : Type 0} (description : String) (a b : AgentResult O)
    : Resolution → Verdict → (before after : List String) → Type 0 where
  trusts_first :
      {asked : List String}
      → a.status ≢ success
      → b.status ≡ success
      → Way description a b supervisor_resolved (trusted a.agent_instance_id a.status) asked asked
  trusts_second :
      {asked : List String}
      → b.status ≢ success
      → a.status ≡ success
      → Way description a b supervisor_resolved (trusted b.agent_instance_id b.status) asked asked
  escalates :
      {asked : List String} {outcome : ReasoningOutcome}
      → (a.status ≡ success → b.status ≡ success)
      → (b.status ≡ success → a.status ≡ success)
      → Way description a b escalated_to_reasoning
          (reasoned outcome)
          asked
          (asked ++ description ∷ [])

pub record Settled {W O : Type 0} (description : String) (a b : AgentResult O) (before : State W O)
    (r : ConflictRecord) (after : State W O) : Type 0 where
  pub decision : Decision O
  pub one_decision : after.decisions ≡ before.decisions ++ decision ∷ []
  pub same_choice : decision.chosen_alternative ≡ r.outcome
  pub way : Way description a b r.resolution r.outcome before.questions after.questions

is_failing-ne-success : (status : ResultStatus) → is_failing status ≡ true → status ≢ success
is_failing-ne-success status e q = let f = ap is_failing q in cc

not_failing-success : (status : ResultStatus) → is_failing status ≡ false → status ≡ success
not_failing-success success e = refl
not_failing-success failure e = cc
not_failing-success needs_revision e = cc

module _ {W O : Type 0} (ports : Ports W O) where
  note_decision-Gives :
      (decision : Decision O) (s : State W O)
      → Gives
          (λ _ t. (t.decisions ≡ s.decisions ++ decision ∷ []) × (t.questions ≡ s.questions))
          (λ _ t. t.decisions ≡ s.decisions)
          (note_decision ports decision s)
  unfolding note_decision
  note_decision-Gives decision s = elim (Option-cases (ports.record_decision decision s.world).0) [
    | inl e ↦ rw (note_decision, e) (Gives-raised refl)
    | inr (u, e) ↦ rw (note_decision, e) (Gives-ok _ _ _ _ (refl, refl))
  ]

  ask_reasoning-Gives :
      (description : String) (a b : AgentResult O) (user_id correlation_id : Uuid) (s : State W O)
      → Gives
          (λ _ t. (t.decisions ≡ s.decisions) × (t.questions ≡ s.questions ++ description ∷ []))
          (λ _ t. t.decisions ≡ s.decisions)
          (ask_reasoning ports description a b user_id correlation_id s)
  unfolding ask_reasoning
  ask_reasoning-Gives description a b user_id correlation_id s =
      elim (Option-cases (ports.reason description a b user_id correlation_id s.world).0) [
        | inl e ↦ rw (ask_reasoning, e) (Gives-raised refl)
        | inr (outcome, e) ↦ rw (ask_reasoning, e) (Gives-ok _ _ _ _ (refl, refl))
      ]

module _ {W O : Type 0} (ports : Ports W O) (description : String) (a b : AgentResult O)
    (user_id correlation_id : Uuid) (s : State W O) where
  abbrev pub Settles : Result PortError ConflictRecord × State W O → Type 0
  Settles out = Gives (Settled description a b s) (λ _ t. t.decisions ≡ s.decisions) out

  conclude_conflict-Settles :
      (resolution : Resolution) (outcome : Verdict) (t : State W O)
      → t.decisions ≡ s.decisions
      → Way description a b resolution outcome s.questions t.questions
      → Settles (conclude_conflict ports description a b resolution outcome correlation_id t)
  unfolding conclude_conflict ◌>>=◌
  conclude_conflict-Settles resolution outcome t same way =
      let decision : Decision O = record {
        objective = description;
        alternatives = a.output ∷ b.output ∷ [];
        chosen_alternative = outcome;
        correlation_id = correlation_id;
      } in
      let r : ConflictRecord = record {
        description = description;
        resolution = resolution;
        outcome = outcome;
        correlation_id = correlation_id;
      } in
      let kept = note_decision-Gives ports decision t in
      let remembered : Gives
          (λ _ u. (u.decisions ≡ t.decisions ++ decision ∷ []) × (u.questions ≡ t.questions))
          (λ _ u. u.decisions ≡ s.decisions) (note_decision ports decision t) =
        record { on_ok = kept.on_ok; on_err = λ e q. kept.on_err e q ∙ same } in
      Gives-then {f = λ _. pure r} remembered λ _ u (written, unasked). Gives-ok _ _ r u (record {
        decision = decision;
        one_decision = written ∙ ap (λ l. l ++ decision ∷ []) same;
        same_choice = refl;
        way = subst (Way description a b resolution outcome s.questions) (sym unasked) way;
      })

  escalation-Settles :
      (a.status ≡ success → b.status ≡ success)
      → (b.status ≡ success → a.status ≡ success)
      → Settles (
          (ask_reasoning ports description a b user_id correlation_id >>= λ outcome.
          conclude_conflict ports description a b escalated_to_reasoning
            (reasoned outcome)
            correlation_id)
            s)
  escalation-Settles h k =
      >>=-Gives _ _ _ (ask_reasoning ports description a b user_id correlation_id) _ s
        (ask_reasoning-Gives ports description a b user_id correlation_id s)
        λ outcome t (same, asked).
          conclude_conflict-Settles escalated_to_reasoning (reasoned outcome) t same (
            subst (Way description a b escalated_to_reasoning (reasoned outcome) s.questions)
              (sym asked) (escalates h k))

  -- Whatever the ports do, `resolve_conflict` that returns has recorded exactly one decision, of the
  -- outcome it returns, and one that raises has recorded none: of two results of which one is a
  -- success the other is trusted and nothing is asked, and otherwise the reasoning engine is asked once.
  pub resolve_conflict-Settles :
      Settles (resolve_conflict ports description a b user_id correlation_id s)
  unfolding resolve_conflict
  resolve_conflict-Settles = elim (Bool-cases (is_failing a.status)) [
    | inl p ↦ elim (Bool-cases (is_failing b.status)) [
      | inl q ↦
          rw (resolve_conflict, p, q)
            (escalation-Settles (λ e. absurd (is_failing-ne-success a.status p e))
              (λ e. absurd (is_failing-ne-success b.status q e)))
      | inr q ↦
          rw (resolve_conflict, p, q)
            (conclude_conflict-Settles supervisor_resolved (trusted a.agent_instance_id a.status) s
              refl
              (trusts_first (is_failing-ne-success a.status p) (not_failing-success b.status q)))
    ]
    | inr p ↦ elim (Bool-cases (is_failing b.status)) [
      | inl q ↦
          rw (resolve_conflict, p, q)
            (conclude_conflict-Settles supervisor_resolved (trusted b.agent_instance_id b.status) s
              refl
              (trusts_second (is_failing-ne-success b.status q) (not_failing-success a.status p)))
      | inr q ↦
          rw (resolve_conflict, p, q)
            (escalation-Settles (λ e. not_failing-success b.status q)
              (λ e. not_failing-success a.status p))
    ]
  ]
