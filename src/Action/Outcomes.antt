-- ===== src/Action/Outcomes.antt =====
-- `execute_action` as a whole: what it leaves, and what it replies when it is asked again.
use nova_project_bible.Common.{
  ℕ, Uuid, none, [], ◌∷◌, ◌++◌, Bool, true, false, ==_self, ◌≡◌, refl, sym, ap, ◌∙◌, arith,
  append_assoc, if◌then◌else◌,
}
use nova_project_bible.Common.Table.{find, find-append}
use nova_project_bible.Common.Effects.{ok, ◌>>=◌, Gives, Gives-ok, Gives-if, Gives-then}
use nova_project_bible.Contracts.{RiskLevel}
use nova_project_bible.Action.Model.{
  Action, ActionExecuteRequest, ActionStage, receive_request, validate, succeeded,
}
use nova_project_bible.Action.Risk.{classify_risk}
use nova_project_bible.Action.Store.{
  Ports, State, ActionRow, HistoryEntry, row_id, record_execution_history, insert,
}
use nova_project_bible.Action.Pipeline.{
  already_exists, caught, try_insert, check_identity, action_of, admit, operation_of, receive,
  is_empty,
}
use nova_project_bible.Action.Progress.{At, Along, Answers, IsAscending}
use nova_project_bible.Action.Gated.{check_identity_lem}

abbrev pub entry : Uuid → ActionStage → HistoryEntry
entry i stage = record { action_id = i; stage = stage; outcome = succeeded; detail = none }

insert-fresh :
    {W J F : Type 0} (a : Action J F) (s : State W J F)
    → find row_id a.id s.actions ≡ none
    → insert a s ≡ (
      ok tt,
      record s { actions = s.actions ++ record { action = a; result = none; error = none } ∷ [] },
    )
unfolding insert
insert-fresh a s absent = rw (insert, absent) refl

try_insert-fresh :
    {W J F : Type 0} (a : Action J F) (s : State W J F)
    → find row_id a.id s.actions ≡ none
    → try_insert a s ≡ (
      ok true,
      record s { actions = s.actions ++ record { action = a; result = none; error = none } ∷ [] },
    )
unfolding try_insert
try_insert-fresh a s absent = ap caught (insert-fresh a s absent)

absurd : {A : Type 0} → false ≡ true → A
absurd e = cc

module _ {W J F : Type 0} (ports : Ports W J F) (request : ActionExecuteRequest J F) where
  abbrev pub risk_of : RiskLevel
  risk_of = classify_risk request.action_type (operation_of ports request)

  abbrev fresh_row : ActionRow J F
  fresh_row = record { action = action_of ports request risk_of; result = none; error = none }

  -- The state after the first two stages.
  abbrev pub validated : State W J F → State W J F
  validated before = record before {
    history =
        (before.history ++ entry request.action_id receive_request ∷ [])
        ++ entry request.action_id validate ∷ [];
  }

  inserted_At :
      (before : State W J F)
      → find row_id request.action_id before.actions ≡ none
      → At ports request.requested_by risk_of request.action_id before false 2 fresh_row
          (record (validated before) { actions = before.actions ++ fresh_row ∷ [] })
  unfolding IsAscending
  inserted_At before absent = record {
    stored =
        rw (find-append row_id request.action_id before.actions fresh_row absent, ==_self) refl;
    entries = entry request.action_id receive_request ∷ entry request.action_id validate ∷ [];
    history_grows = append_assoc before.history _ _;
    ascending = (refl, omega arith, (refl, omega arith, omega arith));
    gate = refl;
    same_policies = refl;
  }

  abbrev Unfinished : State W J F → State W J F → Type 0
  Unfinished before = Along ports request.requested_by risk_of request.action_id before

  record Inserted (before : State W J F) (inserted : Bool) (s : State W J F) : Type 0 where
    is_new : inserted ≡ true
    here : At ports request.requested_by risk_of request.action_id before false 2 fresh_row s

  try_insert_lem :
      (before : State W J F)
      → find row_id request.action_id before.actions ≡ none
      → Gives
          (Inserted before)
          (λ _. Unfinished before)
          (try_insert (action_of ports request risk_of) (validated before))
  try_insert_lem before absent =
      rw (try_insert-fresh (action_of ports request risk_of) (validated before) absent)
        (Gives-ok _ _ _ _ (record { is_new = refl; here = inserted_At before absent }))

  admit_lem :
      (fuel timeout : ℕ) (before : State W J F)
      → find row_id request.action_id before.actions ≡ none
      → Answers ports request.requested_by risk_of request.action_id before (
          admit ports fuel timeout request
            (operation_of ports request)
            (record_execution_history request.action_id receive_request succeeded none before))
  unfolding admit ◌>>=◌ record_execution_history
  admit_lem fuel timeout before absent =
      let check = check_identity ports fuel timeout request (operation_of ports request) risk_of in
      let again = already_exists request.action_id in
      Gives-then {f = λ inserted. if inserted then check else again} (try_insert_lem before absent)
        λ inserted t p.
          Gives-if _ _ inserted check again t
            (λ _.
              check_identity_lem ports request risk_of before fuel timeout
                (operation_of ports request) p.here)
            (λ e. absurd (sym e ∙ p.is_new))

  pub receive_lem :
      (fuel timeout : ℕ) (before : State W J F)
      → is_empty (operation_of ports request) ≡ false
      → find row_id request.action_id before.actions ≡ none
      → Answers ports request.requested_by risk_of request.action_id before
          (receive ports fuel timeout request before)
  unfolding receive ◌>>=◌
  receive_lem fuel timeout before operation absent =
      rw operation (admit_lem fuel timeout before absent)
