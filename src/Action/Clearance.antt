-- ===== src/Action/Clearance.antt =====
-- When `execute_action` calls a capability, and the order of its history.
use nova_project_bible.Common.{ℕ, some, List, ◌++◌, Bool, true, false, ◌≡◌, ◌⊎◌, refl, ap, inl, inr}
use nova_project_bible.Common.Table.{find}
use nova_project_bible.Common.Effects.{Result, ok, err}
use nova_project_bible.Action.Model.{ActionExecuteRequest, ActionResult}
use nova_project_bible.Action.Store.{Ports, State, ActionRow, Error, HistoryEntry, row_id}
use nova_project_bible.Action.Pipeline.{execute_action}
use nova_project_bible.Action.Progress.{At, Along, Answers, Cleared, IsAscending}
use nova_project_bible.Action.Outcomes.{risk_of}
use nova_project_bible.Action.Runs.{Cases, execute_action-Cases}

module _ {W J F : Type 0} (ports : Ports W J F) (request : ActionExecuteRequest J F) where
  -- The row of the action, and its clearance by the policies of the start.
  pub record ClearedRow (before after : State W J F) : Type 0 where
    pub row : ActionRow J F
    pub stored : find row_id request.action_id after.actions ≡ some row
    pub clearance :
        Cleared ports request.action_id request.requested_by
          (risk_of ports request)
          row.action.confidence
          after.approvals
          before.policies

  -- The history grew by entries of this action, in the order of the stages.
  pub record HistoryOrdered (before after : State W J F) : Type 0 where
    pub entries : List HistoryEntry
    pub last : ℕ
    pub grows : after.history ≡ before.history ++ entries
    pub ascending : IsAscending request.action_id 0 last entries

  Answers-Along :
      {before : State W J F} (out : Result Error (ActionResult J) × State W J F)
      → Answers ports request.requested_by (risk_of ports request) request.action_id before out
      → Along ports request.requested_by (risk_of ports request) request.action_id before out.1
  Answers-Along (ok reply, s) h = (h.on_ok reply refl).along
  Answers-Along (err e, s) h = h.on_err e refl

  At-clearance :
      {before s : State W J F} (cleared : Bool) {k : ℕ} (row : ActionRow J F)
      → At ports request.requested_by
          (risk_of ports request)
          request.action_id
          before
          cleared
          k
          row
          s
      → (s.calls ≡ before.calls) ⊎ ClearedRow before s
  At-clearance true row h = inr (record { row = row; stored = h.stored; clearance = h.gate })
  At-clearance false row h = inl h.gate

  Along-clearance :
      {before s : State W J F}
      → Along ports request.requested_by (risk_of ports request) request.action_id before s
      → (s.calls ≡ before.calls) ⊎ ClearedRow before s
  Along-clearance along = At-clearance along.cleared along.row along.at_row

  module _ (fuel timeout : ℕ) (before : State W J F) where
    abbrev after : State W J F
    after = (execute_action ports fuel timeout request before).1

    -- Whatever the ports answer, where `execute_action` has called a capability, replying or raising,
    -- the stored confidence reaches the user's threshold for the risk of the action, and a critical
    -- action has its approval on record.
    pub execute_action-Cleared : (after.calls ≡ before.calls) ⊎ ClearedRow before after
    execute_action-Cleared = by_case (execute_action-Cases ports request fuel timeout before)
      where
        by_case :
            Cases ports request before (execute_action ports fuel timeout request before)
            → (after.calls ≡ before.calls) ⊎ ClearedRow before after
        by_case (inr quiet) = inl (ap (λ s. s.calls) quiet.is_appended)
        by_case (inl stores) = Along-clearance (Answers-Along _ stores.answers)

    -- The history of an action never goes back to an earlier stage within a run, replying or raising,
    -- and a run writes entries of its own action only.
    pub execute_action-HistoryOrdered : HistoryOrdered before after
    execute_action-HistoryOrdered = ordered (execute_action-Cases ports request fuel timeout before)
      where
        ordered :
            Cases ports request before (execute_action ports fuel timeout request before)
            → HistoryOrdered before after
        ordered (inl stores) =
            let along = Answers-Along _ stores.answers in
            record {
              entries = along.at_row.entries;
              last = along.reached;
              grows = along.at_row.history_grows;
              ascending = along.at_row.ascending;
            }
        ordered (inr quiet) = record {
          entries = quiet.entries;
          last = 2;
          grows = ap (λ s. s.history) quiet.is_appended;
          ascending = quiet.ascending;
        }
