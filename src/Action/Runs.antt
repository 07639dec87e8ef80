-- ===== src/Action/Runs.antt =====
-- The two kinds of run of `execute_action`, from any state of the tables.
use nova_project_bible.Common.{
  ℕ, Uuid, Option, none, some, List, [], ◌∷◌, ◌++◌, true, false, ◌≡◌, ◌⊎◌, refl, sym, ap, subst,
  ◌∙◌, arith, inl, inr, Bool-cases, Option-cases, append_assoc, append-nil, if◌then◌else◌,
}
use nova_project_bible.Common.Table.{find}
use nova_project_bible.Common.Effects.{Result, ok, err, ◌>>=◌, >>=-ok}
use nova_project_bible.Action.Model.{
  Action, ActionExecuteRequest, ActionResult, Message, is_terminal, StageOutcome, receive_request,
  validate, succeeded, failure, missing_operation,
}
use nova_project_bible.Action.Store.{
  Ports, State, ActionRow, Error, action_already_exists, HistoryEntry, row_id,
  record_execution_history, insert, get_result, stored_result,
}
use nova_project_bible.Action.Execution.{reply_of}
use nova_project_bible.Action.Pipeline.{
  idempotent_reply_if_terminal, already_exists, stored_reply, caught, try_insert, action_of, admit,
  operation_of, receive, execute_action, is_empty, check_identity,
}
use nova_project_bible.Action.Progress.{Answers, IsAscending}
use nova_project_bible.Action.Outcomes.{risk_of, entry, receive_lem}

stored_reply-row :
    {J F : Type 0} (i : Uuid) (row : ActionRow J F)
    → stored_reply i row.action.status (stored_result row)
      ≡ reply_of i row.action.status row.result row.error
stored_reply-row i row = elim (Option-cases row.result) [
  | inl r ↦ elim (Option-cases row.error) [ inl e ↦ rw (r, e) refl | inr (x, e) ↦ rw (r, e) refl ]
  | inr (v, r) ↦ rw r refl
]

module _ {W J F : Type 0} where
  get_result-row :
      (i : Uuid) (s : State W J F) (row : ActionRow J F)
      → find row_id i s.actions ≡ some row
      → get_result i s ≡ stored_result row
  unfolding get_result
  get_result-row i s row stored = rw (get_result, stored) refl

  -- The reply that a terminal row stores.
  pub idempotent_reply-stored :
      (i : Uuid) (s : State W J F) (row : ActionRow J F)
      → find row_id i s.actions ≡ some row
      → is_terminal row.action.status ≡ true
      → idempotent_reply_if_terminal i s ≡ some (reply_of i row.action.status row.result row.error)
  unfolding idempotent_reply_if_terminal
  idempotent_reply-stored i s row stored ended =
      let read : get_result i s ≡ stored_result row = get_result-row i s row stored in
      rw (idempotent_reply_if_terminal, stored, ended, read)
        (ap (λ r. some r) (stored_reply-row i row))

  try_insert-taken :
      (a : Action J F) (s : State W J F) (row : ActionRow J F)
      → find row_id a.id s.actions ≡ some row
      → try_insert a s ≡ (ok false, s)
  unfolding try_insert insert
  try_insert-taken a s row taken =
      let refused : insert a s ≡ (err action_already_exists, s) = rw (insert, taken) refl in
      ap caught refused

  -- A run that stores no row: two entries of history at most.
  pub record Quiet (i : Uuid) (before after : State W J F) : Type 0 where
    pub entries : List HistoryEntry
    pub is_appended : after ≡ record before { history = before.history ++ entries }
    pub ascending : IsAscending i 0 2 entries

  Quiet-none : (i : Uuid) (before : State W J F) → Quiet i before before
  unfolding IsAscending
  Quiet-none i before = record {
    entries = [];
    is_appended = ap (λ h. record before { history = h }) (sym (append-nil before.history));
    ascending = omega arith;
  }

  Quiet-two :
      (i : Uuid) (before : State W J F) (outcome : StageOutcome) (detail : Option Message)
      → Quiet i before (
          record_execution_history i validate outcome detail
            (record_execution_history i receive_request succeeded none before))
  unfolding record_execution_history IsAscending
  Quiet-two i before outcome detail = record {
    entries =
        entry i receive_request
        ∷ record { action_id = i; stage = validate; outcome = outcome; detail = detail }
        ∷ [];
    is_appended = ap (λ h. record before { history = h }) (append_assoc before.history _ _);
    ascending = (refl, omega arith, (refl, omega arith, omega arith));
  }

  pub record Stores (ports : Ports W J F) (request : ActionExecuteRequest J F)
      (before : State W J F) (out : Result Error (ActionResult J) × State W J F) : Type 0 where
    pub is_new : find row_id request.action_id before.actions ≡ none
    pub answers :
        Answers ports request.requested_by (risk_of ports request) request.action_id before out

  -- A run stores its row, or leaves all but the history as it was.
  abbrev pub Cases :
      (ports : Ports W J F) (request : ActionExecuteRequest J F) (before : State W J F)
      → Result Error (ActionResult J) × State W J F
      → Type 0
  Cases ports request before out =
      Stores ports request before out ⊎ Quiet request.action_id before out.1

  already_exists-quiet : (i : Uuid) (s : State W J F) → (already_exists i s).1 ≡ s
  unfolding already_exists
  already_exists-quiet i s = elim (Option-cases (idempotent_reply_if_terminal i s)) [
    | inl e ↦ rw (already_exists, e) refl
    | inr (reply, e) ↦ rw (already_exists, e) refl
  ]

  module _ (ports : Ports W J F) (request : ActionExecuteRequest J F) (fuel timeout : ℕ)
      (before : State W J F) where
    receive-blank :
        is_empty (operation_of ports request) ≡ true
        → Quiet request.action_id before (receive ports fuel timeout request before).1
    unfolding receive ◌>>=◌
    receive-blank blank =
        rw blank (Quiet-two request.action_id before failure (some missing_operation))

    admit-taken :
        (s : State W J F) (row : ActionRow J F)
        → find row_id request.action_id s.actions ≡ some row
        → (admit ports fuel timeout request (operation_of ports request) s).1
          ≡ record_execution_history request.action_id validate succeeded none s
    unfolding admit ◌>>=◌ record_execution_history
    admit-taken s row taken =
        let check =
          check_identity ports fuel timeout request (operation_of ports request)
            (risk_of ports request) in
        let again = already_exists request.action_id in
        let validated_s = record_execution_history request.action_id validate succeeded none s in
        let run =
          >>=-ok (try_insert (action_of ports request (risk_of ports request)))
            (λ inserted. if inserted then check else again) validated_s validated_s false
            (try_insert-taken _ validated_s row taken) in
        ap (λ out. out.1) run ∙ already_exists-quiet request.action_id validated_s

    receive-taken :
        (row : ActionRow J F)
        → is_empty (operation_of ports request) ≡ false
        → find row_id request.action_id before.actions ≡ some row
        → Quiet request.action_id before (receive ports fuel timeout request before).1
    unfolding receive ◌>>=◌ record_execution_history
    receive-taken row operation taken = rw operation (
        subst (Quiet request.action_id before) (sym (admit-taken _ row taken))
          (Quiet-two request.action_id before succeeded none))

    receive-Cases : Cases ports request before (receive ports fuel timeout request before)
    receive-Cases = elim (Bool-cases (is_empty (operation_of ports request))) [
      | inl blank ↦ inr (receive-blank blank)
      | inr operation ↦ elim (Option-cases (find row_id request.action_id before.actions)) [
        | inl absent ↦ inl (record {
          is_new = absent;
          answers = receive_lem ports request fuel timeout before operation absent;
        })
        | inr (row, taken) ↦ inr (receive-taken row operation taken)
      ]
    ]

    pub execute_action-Cases :
        Cases ports request before (execute_action ports fuel timeout request before)
    unfolding execute_action
    execute_action-Cases =
        elim (Option-cases (idempotent_reply_if_terminal request.action_id before)) [
          | inl e ↦ rw (execute_action, e) receive-Cases
          | inr (reply, e) ↦ rw (execute_action, e) (inr (Quiet-none request.action_id before))
        ]

    pub execute_action-fresh :
        is_empty (operation_of ports request) ≡ false
        → find row_id request.action_id before.actions ≡ none
        → Answers ports request.requested_by
            (risk_of ports request)
            request.action_id
            before
            (execute_action ports fuel timeout request before)
    unfolding execute_action idempotent_reply_if_terminal
    execute_action-fresh operation absent =
        rw (execute_action, absent) (receive_lem ports request fuel timeout before operation absent)
