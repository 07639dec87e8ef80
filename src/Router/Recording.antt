-- ===== src/Router/Recording.antt =====
-- The usage record and the event of a request for text.
use nova_project_bible.Common.{none, some, List, [], ◌∷◌, ◌++◌, ◌≡◌}
use nova_project_bible.Common.Effects.{Result, ok, err}
use nova_project_bible.Router.Model.{
  ModelDescriptor, GenerateResult, UsageRecord, UsageEvent, failed,
}
use nova_project_bible.Router.Plan.{Floats}
use nova_project_bible.Router.Route.{
  Error, connector_unavailable, State, GetConnector, Planner, ExecutionOutcome,
}
use nova_project_bible.Router.Record.{Services, Caller, outcome_of, record_usage}

module _ {W F R : Type 0} (models : List (ModelDescriptor F)) (planner : Planner F)
    (get_connector : GetConnector W F R) where
  -- The attempts record nothing.
  pub record Unrecorded (before after : State W F) : Type 0 where
    pub same_usage : after.usage ≡ before.usage
    pub same_outbox : after.outbox ≡ before.outbox

module _ {W F : Type 0} (floats : Floats F) (services : Services W F) where
  -- The repository takes every record.
  pub record Records : Type 0 where
    pub answers :
        (r : UsageRecord F) (event : UsageEvent) (w : W)
        → (services.record_usage r event w).0 ≡ some tt

  -- One record and one event more, and what they say of the end of the run.
  pub record Recorded (caller : Caller) (before : State W F)
      (out : Result (Error F) (ExecutionOutcome F GenerateResult) × State W F) : Type 0 where
    pub usage : UsageRecord F
    pub event : UsageEvent
    pub one_record : out.1.usage ≡ before.usage ++ usage ∷ []
    pub one_event : out.1.outbox ≡ before.outbox ++ event ∷ []
    pub of_caller : usage.correlation_id ≡ caller.correlation_id
    pub answered :
        (o : ExecutionOutcome F GenerateResult)
        → out.0 ≡ ok o
        → usage.outcome ≡ outcome_of o.fallback_used
    pub raised : (e : Error F) → out.0 ≡ err e → usage.outcome ≡ failed

  -- `get_connector` refused a model, and nothing is recorded.
  pub record Unrecordable (get_connector : GetConnector W F GenerateResult) (before : State W F)
      (out : Result (Error F) (ExecutionOutcome F GenerateResult) × State W F) : Type 0 where
    pub is_unavailable : out.0 ≡ err connector_unavailable
    pub model : ModelDescriptor F
    pub world : W
    pub refuses : (get_connector model world).0 ≡ none
    pub same_usage : out.1.usage ≡ before.usage
    pub same_outbox : out.1.outbox ≡ before.outbox
