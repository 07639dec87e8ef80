-- ===== src/Action/Repeats.antt =====
-- What `execute_action` replies when it is asked again.
use nova_project_bible.Common.{ℕ, none, some, true, false, ◌≡◌, refl, ap, sym, ◌∙◌}
use nova_project_bible.Common.Table.{find}
use nova_project_bible.Common.Effects.{ok}
use nova_project_bible.Action.Model.{ActionExecuteRequest, ActionResult, is_terminal}
use nova_project_bible.Action.Store.{Ports, State, row_id}
use nova_project_bible.Action.Execution.{reply_of}
use nova_project_bible.Action.Pipeline.{
  idempotent_reply_if_terminal, is_empty, operation_of, execute_action,
}
use nova_project_bible.Action.Progress.{Replied}
use nova_project_bible.Action.Outcomes.{risk_of}
use nova_project_bible.Action.Runs.{idempotent_reply-stored, execute_action-fresh}

module _ {W J F : Type 0} (ports : Ports W J F) (request : ActionExecuteRequest J F)
    (before : State W J F) where
  Replied-repeats :
      (reply : ActionResult J) (s : State W J F)
      → Replied ports request.requested_by (risk_of ports request) request.action_id before reply s
      → idempotent_reply_if_terminal request.action_id s ≡ some reply
  Replied-repeats reply s h =
      let row = h.along.row in
      let ended : is_terminal row.action.status ≡ true = rw h.same_status h.ended in
      let same : reply_of request.action_id row.action.status row.result row.error ≡ reply =
        rw (h.same_status, h.same_result, h.same_error, sym h.same_id) refl in
      idempotent_reply-stored request.action_id s row h.along.at_row.stored ended
      ∙ ap (λ r. some r) same

  execute_action-stored :
      (again : ActionExecuteRequest J F) (fuel timeout : ℕ) (s : State W J F)
      (reply : ActionResult J)
      → idempotent_reply_if_terminal again.action_id s ≡ some reply
      → execute_action ports fuel timeout again s ≡ (ok reply, s)
  unfolding execute_action
  execute_action-stored again fuel timeout s reply stored = rw (execute_action, stored) refl

  -- A run for an action that has no row yet, and names an operation, stores what it replies: any later
  -- request for the same action gets the same reply and changes nothing.
  pub execute_action-repeats :
      (fuel timeout : ℕ) (reply : ActionResult J)
      → is_empty (operation_of ports request) ≡ false
      → find row_id request.action_id before.actions ≡ none
      → (execute_action ports fuel timeout request before).0 ≡ ok reply
      → (again : ActionExecuteRequest J F) (later_fuel later_timeout : ℕ)
      → again.action_id ≡ request.action_id
      → let after = (execute_action ports fuel timeout request before).1 in
        execute_action ports later_fuel later_timeout again after ≡ (ok reply, after)
  execute_action-repeats fuel timeout reply operation absent replied again later_fuel later_timeout
        same =
      let first = execute_action ports fuel timeout request before in
      let answered = execute_action-fresh ports request fuel timeout before operation absent in
      let stored = Replied-repeats reply first.1 (answered.on_ok reply replied) in
      execute_action-stored again later_fuel later_timeout first.1 reply (rw same stored)
