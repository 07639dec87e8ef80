-- ===== src/Action/Risk.antt =====
-- domain/risk.py
use nova_project_bible.Common.{Bool, true, false, ◌||◌, ◌&&◌, if◌then◌else◌}
use nova_project_bible.Common.Words.{Text, strip, lower, is_word}
use nova_project_bible.Contracts.{RiskLevel}
use nova_project_bible.Action.Model.{ActionType, terminal}

abbrev pub is_terminal_type : ActionType → Bool
is_terminal_type terminal = true
is_terminal_type _ = false

-- The tests of `classify_risk` on the lowered operation.
unfoldable pub risk_of_word : ActionType → Text → RiskLevel
risk_of_word action_type op =
    if is_word op "delete" || is_word op "remove" || is_word op "format"
    then RiskLevel.critical
    else if is_terminal_type action_type && is_word op "execute"
    then RiskLevel.high
    else if is_word op "write"
    then RiskLevel.moderate
    else if is_word op "read"
        || is_word op "list"
        || is_word op "status"
        || is_word op "log"
        || is_word op "diff"
    then RiskLevel.negligible
    else RiskLevel.low

unfoldable pub classify_risk : ActionType → Text → RiskLevel
classify_risk action_type operation = risk_of_word action_type (lower (strip operation))
