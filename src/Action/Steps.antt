-- ===== src/Action/Steps.antt =====
-- What each step of `execute_action` keeps of what holds along a run.
use nova_project_bible.Common.{
  ℕ, Uuid, Option, none, some, [], ◌∷◌, ◌++◌, Bool, true, false, ==_self, ◌≤◌, ◌≡◌, refl,
  append_assoc, inl, inr, Option-cases,
}
use nova_project_bible.Common.Table.{update, find-update}
use nova_project_bible.Common.Effects.{Result, ok, Gives, Gives-ok, Gives-err}
use nova_project_bible.Contracts.{RiskLevel}
use nova_project_bible.Action.Model.{
  ActionStatus, approve, Params, Message, ActionResult, ActionStage, StageOutcome, is_terminal,
  is_critical,
}
use nova_project_bible.Action.Store.{
  Ports, State, ActionRow, Call, Error, call, ask, invoke, update_status, record_result,
  record_execution_history, row_id, with_status, with_result,
}
use nova_project_bible.Action.Progress.{
  Reaches, HasDecision, At, Along, Replied, Answers, IsAscending-append, stage_number,
}

module _ {W J F : Type 0} {ports : Ports W J F} {user : Uuid} {risk : RiskLevel} {i : Uuid}
    {before : State W J F} where
  module _ {cleared : Bool} {k : ℕ} {row : ActionRow J F} {s : State W J F}
      (h : At ports user risk i before cleared k row s) where
    pub At-Along : Along ports user risk i before s
    At-Along = record { cleared = cleared; reached = k; row = row; at_row = h }

    pub At-stage :
        (stage : ActionStage) (outcome : StageOutcome) (detail : Option Message)
        → k ≤ stage_number stage
        → At ports user risk i before cleared
            (stage_number stage)
            row
            (record_execution_history i stage outcome detail s)
    unfolding record_execution_history
    At-stage stage outcome detail le = record {
      stored = h.stored;
      entries =
          h.entries
          ++ record { action_id = i; stage = stage; outcome = outcome; detail = detail } ∷ [];
      history_grows = rw h.history_grows (append_assoc before.history h.entries _);
      ascending = IsAscending-append i 0 k h.entries _ h.ascending refl le;
      gate = h.gate;
      same_policies = h.same_policies;
    }

    pub At-world : (w : W) → At ports user risk i before cleared k row (record s { world = w })
    At-world w = record {
      stored = h.stored;
      entries = h.entries;
      history_grows = h.history_grows;
      ascending = h.ascending;
      gate = h.gate;
      same_policies = h.same_policies;
    }

    -- A change of the row that keeps its confidence.
    pub At-row :
        (f : ActionRow J F → ActionRow J F)
        → ((r : ActionRow J F) → row_id (f r) ≡ row_id r)
        → (f row).action.confidence ≡ row.action.confidence
        → At ports user risk i before cleared k
            (f row)
            (record s { actions = update row_id i f s.actions })
    At-row f same_id same = record {
      stored = rw (find-update row_id i i f s.actions same_id, ==_self, h.stored) refl;
      entries = h.entries;
      history_grows = h.history_grows;
      ascending = h.ascending;
      gate = rw same h.gate;
      same_policies = h.same_policies;
    }

    pub At-status :
        (status : ActionStatus)
        → At ports user risk i before cleared k
            (with_status status none row)
            (update_status i status none s)
    unfolding update_status
    At-status status = At-row (with_status status none) (λ r. refl) refl

    pub At-result :
        (result : Option (Params J)) (error : Option Message)
        → At ports user risk i before cleared k
            (with_result result error row)
            (record_result i result error s)
    unfolding record_result
    At-result result error = At-row (with_result result error) (λ r. refl) refl

    -- The reply that the row's last writes stored.
    pub At-replied :
        (reply : ActionResult J)
        → reply.action_id ≡ i
        → is_terminal reply.status ≡ true
        → row.action.status ≡ reply.status
        → row.result ≡ reply.result
        → row.error ≡ reply.error
        → Answers ports user risk i before (ok reply, s)
    At-replied reply same_id ended status result error =
        Gives-ok (Replied ports user risk i before) (λ _. Along ports user risk i before) reply s
          (record {
            along = record { cleared = cleared; reached = k; row = row; at_row = h };
            same_id = same_id;
            ended = ended;
            same_status = status;
            same_result = result;
            same_error = error;
          })

    abbrev pub Stays : {A : Type 0} → Result Error A × State W J F → Type 0
    Stays {A} out =
        Gives {A = A} (λ _. At ports user risk i before cleared k row)
          (λ _. Along ports user risk i before) out

    pub At-call : {A : Type 0} (f : W → Option A × W) → Stays (call f s)
    unfolding call
    At-call f = elim (Option-cases (f s.world).0) [
      | inl e ↦
          rw (call, e)
            (Gives-err _ _ _ _ (record {
              cleared = cleared;
              reached = k;
              row = row;
              at_row = At-world (f s.world).1;
            }))
      | inr (a, e) ↦ rw (call, e) (Gives-ok _ _ _ _ (At-world (f s.world).1))
    ]

    pub At-ask : {A : Type 0} (f : W → A × W) → Stays (ask f s)
    unfolding ask
    At-ask f = Gives-ok _ _ _ _ (At-world (f s.world).1)

  -- Before clearance the confidence is free to change.
  pub At-confidence :
      {k : ℕ} {row : ActionRow J F} {s : State W J F}
      → At ports user risk i before false k row s
      → (status : ActionStatus) (confidence : F)
      → At ports user risk i before false k
          (with_status status (some confidence) row)
          (update_status i status (some confidence) s)
  unfolding update_status
  At-confidence {s} h status confidence = record {
    stored =
        rw
          (
            find-update row_id i i (with_status status (some confidence)) s.actions (λ r. refl),
            ==_self,
            h.stored,
          )
          refl;
    entries = h.entries;
    history_grows = h.history_grows;
    ascending = h.ascending;
    gate = h.gate;
    same_policies = h.same_policies;
  }

  pub At-clear :
      {k : ℕ} {row : ActionRow J F} {s : State W J F}
      → At ports user risk i before false k row s
      → Reaches ports user risk row.action.confidence before.policies
      → (is_critical risk ≡ true → HasDecision i approve s.approvals)
      → At ports user risk i before true k row s
  At-clear h confident approved = record {
    stored = h.stored;
    entries = h.entries;
    history_grows = h.history_grows;
    ascending = h.ascending;
    gate = record { confident = confident; approved = approved };
    same_policies = h.same_policies;
  }

  -- A call after clearance.
  pub At-invoke :
      {k : ℕ} {row : ActionRow J F} {s : State W J F} (h : At ports user risk i before true k row s)
      (c : Call J)
      → Gives
          (λ _. At ports user risk i before true k row)
          (λ _. Along ports user risk i before)
          (invoke ports c s)
  unfolding invoke
  At-invoke {k} {row} {s} h c =
      let (answer, w) = ports.invoke c.capability_id c.operation c.parameters s.world in
      let after : At ports user risk i before true k row
          (record s { world = w; calls = s.calls ++ c ∷ [] }) =
        record {
          stored = h.stored;
          entries = h.entries;
          history_grows = h.history_grows;
          ascending = h.ascending;
          gate = h.gate;
          same_policies = h.same_policies;
        } in
      elim (Option-cases (ports.invoke c.capability_id c.operation c.parameters s.world).0) [
        | inl e ↦ rw (invoke, e) (Gives-err _ _ _ _ (At-Along after))
        | inr (a, e) ↦ rw (invoke, e) (Gives-ok _ _ _ _ after)
      ]
