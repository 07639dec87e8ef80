-- ===== src/Action/Store.antt =====
-- domain/ports.py and repository/postgres_action_repository.py: the four tables, the published
-- events, the calls of the capability port, and the operations of the other engines. `W` is the
-- state of everything outside the engine. A time is a number of microseconds.
use nova_project_bible.Common.{
  ℕ, Uuid, String, Option, none, some, List, [], ◌∷◌, ◌++◌, Bool, if◌then◌else◌, str_eq, ◌≡◌, refl,
  ◌⊎◌, inl, inr,
}
use nova_project_bible.Common.Table.{find, update}
use nova_project_bible.Common.Effects.{ok, err, M}
use nova_project_bible.Common.Words.{Text}
use nova_project_bible.Contracts.{RiskLevel}
use nova_project_bible.Action.Model.{
  ActionType, ActionStatus, ApprovalDecision, Action, Params, PendingApproval,
  IdentityConfidencePolicy, ActionStage, StageOutcome, Message, Capability, InvokeOutcome,
}

-- A call that waits for another engine.
pub data Answer (A : Type 0) : Type 0 where
  returned : A → Answer A
  timed_out raised : Answer A

pub Answer-cases :
    {A : Type 0} (x : Answer A) → (x ≡ raised) ⊎ ((x ≡ timed_out) ⊎ ((a : A) × (x ≡ returned a)))
Answer-cases raised = inl refl
Answer-cases timed_out = inr (inl refl)
Answer-cases (returned a) = inr (inr (a, refl))

pub record InvokeReply (J : Type 0) : Type 0 where
  pub outcome : InvokeOutcome
  pub result : Option (Params J)
  pub error : Option String

pub data Event : Type 0 where
  approval_requested : (correlation_id action_id : Uuid) → RiskLevel → (requested_at : ℕ) → Event
  approval_decided :
      (correlation_id action_id : Uuid)
      → ApprovalDecision
      → (decided_at : ℕ) → (by_timeout : Bool) → Event

-- The content of an approval request to the user.
pub record Intent : Type 0 where
  pub session_id : Uuid
  pub action_type : ActionType
  pub execution_target : String
  pub risk : RiskLevel

-- Where the answer is an option, `none` is an exception. `arrivals` are the decisions that the
-- approvals endpoint receives meanwhile: an action, and whether it is approved.
pub record Ports (W J F : Type 0) : Type 0 where
  pub resolve : String → W → Option (Option (Capability J)) × W
  pub invoke : Uuid → Text → Params J → W → Option (InvokeReply J) × W
  pub get_confidence : Uuid → W → Option (Option F) × W
  pub get_connected_session : Uuid → W → Answer (Option Uuid) × W
  pub deliver_intent : Intent → W → Answer Bool × W
  pub publish : Event → W → Option (Unit {0}) × W
  pub now : W → ℕ × W
  pub monotonic : W → ℕ × W
  pub sleep : ℕ → W → W
  pub arrivals : W → List (Uuid × Bool) × W
  pub str_of : J → Text
  pub validate_parameters : Params J → Params J → Option String
  pub lt : F → F → Bool
  pub zero_confidence : F
  pub full_confidence : F

pub record ActionRow (J F : Type 0) : Type 0 where
  pub action : Action J F
  pub result : Option (Params J)
  pub error : Option Message

pub record HistoryEntry : Type 0 where
  pub action_id : Uuid
  pub stage : ActionStage
  pub outcome : StageOutcome
  pub detail : Option Message

pub record Call (J : Type 0) : Type 0 where
  pub capability_id : Uuid
  pub operation : Text
  pub parameters : Params J

pub record State (W J F : Type 0) : Type 0 where
  pub world : W
  pub actions : List (ActionRow J F)
  pub approvals : List PendingApproval
  pub history : List HistoryEntry
  pub policies : List (IdentityConfidencePolicy F)
  pub published : List Event
  pub calls : List (Call J)

pub data Error : Type 0 where
  port_raised action_already_exists integrity_error out_of_fuel assertion_failed : Error

abbrev pub row_id : {J F : Type 0} → ActionRow J F → Uuid
row_id r = r.action.id

abbrev pub approval_id : PendingApproval → Uuid
approval_id a = a.action_id

abbrev pub policy_id : {F : Type 0} → IdentityConfidencePolicy F → Uuid
policy_id p = p.user_id

-- The values that `update_status` sets.
abbrev pub with_status : {J F : Type 0} → ActionStatus → Option F → ActionRow J F → ActionRow J F
with_status status none r = record r { action = record r.action { status = status } }
with_status status (some c) r = record r {
  action = record r.action { status = status; confidence = some c };
}

abbrev pub with_result :
    {J F : Type 0} → Option (Params J) → Option Message → ActionRow J F → ActionRow J F
with_result result error r = record r { result = result; error = error }

-- `(None, None)` is read as no stored result.
abbrev pub stored_result :
    {J F : Type 0} → ActionRow J F → Option (Option (Params J) × Option Message)
stored_result r = elim r.result [
  | none ↦ elim r.error [ none ↦ none | some e ↦ some (none, some e) ]
  | some v ↦ some (some v, r.error)
]

abbrev pub decided_as : ApprovalDecision → ℕ → PendingApproval → PendingApproval
decided_as decision at_time p = record p { decided_at = some at_time; decision = some decision }

module _ {W J F : Type 0} where
  -- An awaited call of a port.
  unfoldable pub call : {A : Type 0} → (W → Option A × W) → M (State W J F) Error A
  call f s =
      let (answer, w) = f s.world in
      elim answer [
        | some a ↦ (ok a, record s { world = w })
        | none ↦ (err port_raised, record s { world = w })
      ]

  -- A call that cannot raise.
  unfoldable pub ask : {A : Type 0} → (W → A × W) → M (State W J F) Error A
  ask f s = let (a, w) = f s.world in (ok a, record s { world = w })

  -- A call whose TimeoutError is caught: `default` in its place.
  unfoldable pub call_or : {A : Type 0} → A → (W → Answer A × W) → M (State W J F) Error A
  call_or default f s =
      let (answer, w) = f s.world in
      elim answer [
        | returned a ↦ (ok a, record s { world = w })
        | timed_out ↦ (ok default, record s { world = w })
        | raised ↦ (err port_raised, record s { world = w })
      ]

  abbrev pub find_by_id : Uuid → State W J F → Option (ActionRow J F)
  find_by_id i s = find row_id i s.actions

  unfoldable pub get_result : Uuid → State W J F → Option (Option (Params J) × Option Message)
  get_result i s = elim (find row_id i s.actions) [ none ↦ none | some r ↦ stored_result r ]

  unfoldable pub insert : Action J F → M (State W J F) Error (Unit {0})
  insert a s = elim (find row_id a.id s.actions) [
    | some _ ↦ (err action_already_exists, s)
    | none ↦ (
      ok tt,
      record s { actions = s.actions ++ record { action = a; result = none; error = none } ∷ [] },
    )
  ]

  unfoldable pub update_status : Uuid → ActionStatus → Option F → State W J F → State W J F
  update_status i status confidence s = record s {
    actions = update row_id i (with_status status confidence) s.actions;
  }

  unfoldable pub record_result :
      Uuid → Option (Params J) → Option Message → State W J F → State W J F
  record_result i result error s = record s {
    actions = update row_id i (with_result result error) s.actions;
  }

  unfoldable pub insert_pending_approval : PendingApproval → M (State W J F) Error (Unit {0})
  insert_pending_approval p s = elim (find approval_id p.action_id s.approvals) [
    | some _ ↦ (err integrity_error, s)
    | none ↦ (ok tt, record s { approvals = s.approvals ++ p ∷ [] })
  ]

  abbrev pub find_pending_approval : Uuid → State W J F → Option PendingApproval
  find_pending_approval i s = find approval_id i s.approvals

  unfoldable pub decide_pending_approval : Uuid → ApprovalDecision → ℕ → State W J F → State W J F
  decide_pending_approval i decision at_time s = record s {
    approvals = update approval_id i (decided_as decision at_time) s.approvals;
  }

  unfoldable pub record_execution_history :
      Uuid → ActionStage → StageOutcome → Option Message → State W J F → State W J F
  record_execution_history i stage outcome detail s = record s {
    history =
        s.history
        ++ record { action_id = i; stage = stage; outcome = outcome; detail = detail } ∷ [];
  }

  -- An event counts as published when the bus took it.
  unfoldable pub publish_event : Ports W J F → Event → M (State W J F) Error (Unit {0})
  publish_event ports event s =
      let (answer, w) = ports.publish event s.world in
      elim answer [
        | some _ ↦ (ok tt, record s { world = w; published = s.published ++ event ∷ [] })
        | none ↦ (err port_raised, record s { world = w })
      ]

  -- A capability is called with the call on record, whatever it answers.
  unfoldable pub invoke : Ports W J F → Call J → M (State W J F) Error (InvokeReply J)
  invoke ports c s =
      let (answer, w) = ports.invoke c.capability_id c.operation c.parameters s.world in
      let after : State W J F = record s { world = w; calls = s.calls ++ c ∷ [] } in
      elim answer [ some reply ↦ (ok reply, after) | none ↦ (err port_raised, after) ]

-- `parameters.get(name)`
unfoldable pub get_param : {J : Type 0} → String → Params J → Option J
get_param name [] = none
get_param name ((k, v) ∷ ps) = if str_eq k name then some v else get_param name ps

-- `{k: v for k, v in ps.items() if k != "operation"}`
unfoldable pub without_operation : {J : Type 0} → Params J → Params J
without_operation [] = []
without_operation ((k, v) ∷ ps) =
    let rest = without_operation ps in if str_eq k "operation" then rest else (k, v) ∷ rest
