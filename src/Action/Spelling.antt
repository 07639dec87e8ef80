-- ===== src/Action/Spelling.antt =====
-- The risk of an action does not depend on how its operation is spelt.
use nova_project_bible.Common.{◌++◌, ◌≡◌, sym, ap, ◌∙◌, All}
use nova_project_bible.Common.Words.{Text, strip, lower}
use nova_project_bible.Common.Words.Padding.{IsSpace, strip-pad, strip-lower}
use nova_project_bible.Action.Model.{ActionType}
use nova_project_bible.Action.Risk.{classify_risk, risk_of_word}

-- Operations that agree up to the case of ASCII letters have the same risk, with any spaces before and
-- after one of them: neither passes a destructive operation for a harmless one.
pub classify_risk-spelling :
    (action_type : ActionType) (before after operation same : Text)
    → All IsSpace before
    → All IsSpace after
    → lower operation ≡ lower same
    → classify_risk action_type (before ++ (operation ++ after)) ≡ classify_risk action_type same
unfolding classify_risk
classify_risk-spelling action_type before after operation same h k e =
    let unpadded = strip-pad before operation after h k in
    ap (λ w. risk_of_word action_type w)
      (ap lower unpadded ∙ sym (strip-lower operation) ∙ ap strip e ∙ strip-lower same)
