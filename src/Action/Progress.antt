-- ===== src/Action/Progress.antt =====
-- What holds along a run of `execute_action` that has stored its row: the history so far, and the
-- calls made.
use nova_project_bible.Common.{
  ℕ, Uuid, Option, some, List, [], ◌∷◌, ◌++◌, Bool, true, false, ◌≤◌, ◌≡◌, arith,
}
use nova_project_bible.Common.Table.{find}
use nova_project_bible.Common.Effects.{Result, Gives}
use nova_project_bible.Contracts.{RiskLevel}
use nova_project_bible.Action.Model.{
  ApprovalDecision, approve, PendingApproval, IdentityConfidencePolicy, ActionResult, ActionStage,
  receive_request, validate, check_permissions, estimate_risk, prepare_resources, execute,
  monitor_progress, detect_errors, recover_if_necessary, verify_result, report_outcome,
  store_experience, is_terminal, is_critical,
}
use nova_project_bible.Action.Store.{
  Ports, State, ActionRow, HistoryEntry, Call, Error, row_id, approval_id,
}
use nova_project_bible.Action.Pipeline.{threshold_for}

-- The place of a stage among the twelve.
abbrev pub stage_number : ActionStage → ℕ
stage_number receive_request = 1
stage_number validate = 2
stage_number check_permissions = 3
stage_number estimate_risk = 4
stage_number prepare_resources = 5
stage_number execute = 6
stage_number monitor_progress = 7
stage_number detect_errors = 8
stage_number recover_if_necessary = 9
stage_number verify_result = 10
stage_number report_outcome = 11
stage_number store_experience = 12

-- Entries of one action whose stages never go back, from `lo` to `hi`.
unfoldable pub IsAscending : Uuid → (lo hi : ℕ) → List HistoryEntry → Type 0
IsAscending i lo hi [] = lo ≤ hi
IsAscending i lo hi (e ∷ es) =
    (e.action_id ≡ i) × (lo ≤ stage_number e.stage) × IsAscending i (stage_number e.stage) hi es

pub IsAscending-append :
    (i : Uuid) (lo hi : ℕ) (es : List HistoryEntry) (e : HistoryEntry)
    → IsAscending i lo hi es
    → e.action_id ≡ i
    → hi ≤ stage_number e.stage
    → IsAscending i lo (stage_number e.stage) (es ++ e ∷ [])
unfolding IsAscending
IsAscending-append i lo hi [] e h same le = (same, omega arith, omega arith)
IsAscending-append i lo hi (x ∷ es) e (is_i, above, rest) same le =
    (is_i, above, IsAscending-append i _ hi es e rest same le)

-- The stored confidence reaches the user's threshold.
pub record Reaches {W J F : Type 0} (ports : Ports W J F) (user : Uuid) (risk : RiskLevel)
    (confidence : Option F) (policies : List (IdentityConfidencePolicy F)) : Type 0 where
  pub level : F
  pub stored_level : confidence ≡ some level
  pub reaches : ports.lt level (threshold_for ports user risk policies) ≡ false

-- An approval is on record with this decision.
abbrev pub HasDecision : Uuid → ApprovalDecision → List PendingApproval → Type 0
HasDecision i decision approvals =
    (p : PendingApproval) × (find approval_id i approvals ≡ some p) × (p.decision ≡ some decision)

-- Confidence reached the threshold, and a critical action is approved.
pub record Cleared {W J F : Type 0} (ports : Ports W J F) (i user : Uuid) (risk : RiskLevel)
    (confidence : Option F) (approvals : List PendingApproval)
    (policies : List (IdentityConfidencePolicy F)) : Type 0 where
  pub confident : Reaches ports user risk confidence policies
  pub approved : is_critical risk ≡ true → HasDecision i approve approvals

module _ {W J F : Type 0} (ports : Ports W J F) (user : Uuid) (risk : RiskLevel) (i : Uuid)
    (before : State W J F) where
  -- Calls are made only after clearance.
  abbrev pub Gate : Bool → Option F → List PendingApproval → List (Call J) → Type 0
  Gate true confidence approvals calls =
      Cleared ports i user risk confidence approvals before.policies
  Gate false confidence approvals calls = calls ≡ before.calls

  pub record At (cleared : Bool) (k : ℕ) (row : ActionRow J F) (s : State W J F) : Type 0 where
    pub stored : find row_id i s.actions ≡ some row
    pub entries : List HistoryEntry
    pub history_grows : s.history ≡ before.history ++ entries
    pub ascending : IsAscending i 0 k entries
    pub gate : Gate cleared row.action.confidence s.approvals s.calls
    pub same_policies : s.policies ≡ before.policies

  pub record Along (s : State W J F) : Type 0 where
    pub cleared : Bool
    pub reached : ℕ
    pub row : ActionRow J F
    pub at_row : At cleared reached row s

  -- A reply that the row repeats.
  pub record Replied (reply : ActionResult J) (s : State W J F) : Type 0 where
    pub along : Along s
    pub same_id : reply.action_id ≡ i
    pub ended : is_terminal reply.status ≡ true
    pub same_status : along.row.action.status ≡ reply.status
    pub same_result : along.row.result ≡ reply.result
    pub same_error : along.row.error ≡ reply.error

  abbrev pub Answers : Result Error (ActionResult J) × State W J F → Type 0
  Answers out = Gives Replied (λ _. Along) out
