-- ===== src/Supervisors/Conflict.antt =====
-- domain/conflict.py: two agent results that disagree. The text of an outcome is what it is made of.
pub mod Resolved
use nova_project_bible.Common.{
  Uuid, String, Option, none, some, List, [], ◌∷◌, ◌++◌, Bool, true, false, if◌then◌else◌,
}
use nova_project_bible.Common.Effects.{Result, ok, err, M, ◌>>=◌, ◌>>◌, pure}
use nova_project_bible.Kernel.Model.{ResultStatus, success, failure, needs_revision, AgentResult}

pub record ReasoningOutcome : Type 0 where
  pub outcome : String
  pub chosen_description : Option String

pub data Resolution : Type 0 where
  supervisor_resolved escalated_to_reasoning : Resolution

pub data Verdict : Type 0 where
  trusted : (agent_instance_id : Uuid) → ResultStatus → Verdict
  reasoned : ReasoningOutcome → Verdict

pub record ConflictRecord : Type 0 where
  pub description : String
  pub resolution : Resolution
  pub outcome : Verdict
  pub correlation_id : Uuid

-- The alternatives of a decision are the outputs.
pub record Decision (O : Type 0) : Type 0 where
  pub objective : String
  pub alternatives : List O
  pub chosen_alternative : Verdict
  pub correlation_id : Uuid

-- ReasoningPort and DecisionMemoryPort; `none` is an exception.
pub record Ports (W O : Type 0) : Type 0 where
  pub reason :
      String
      → AgentResult O
      → AgentResult O
      → (user_id correlation_id : Uuid) → W
      → Option ReasoningOutcome × W
  pub record_decision : Decision O → W → Option (Unit {0}) × W

-- The questions sent to the reasoning engine, and the decisions recorded.
pub record State (W O : Type 0) : Type 0 where
  pub world : W
  pub questions : List String
  pub decisions : List (Decision O)

pub data PortError : Type 0 where
  reasoning_raised decision_memory_raised : PortError

-- _FAILING_STATUSES
abbrev pub is_failing : ResultStatus → Bool
is_failing success = false
is_failing failure = true
is_failing needs_revision = true

abbrev differ : Bool → Bool → Bool
differ true b = if b then false else true
differ false b = b

module _ {W O : Type 0} (ports : Ports W O) where
  unfoldable pub ask_reasoning :
      String
      → AgentResult O
      → AgentResult O
      → (user_id correlation_id : Uuid) → M (State W O) PortError ReasoningOutcome
  ask_reasoning description a b user_id correlation_id s =
      let (answer, w) = ports.reason description a b user_id correlation_id s.world in
      let after : State W O = record s { world = w; questions = s.questions ++ description ∷ [] } in
      elim answer [ some outcome ↦ (ok outcome, after) | none ↦ (err reasoning_raised, after) ]

  unfoldable pub note_decision : Decision O → M (State W O) PortError (Unit {0})
  note_decision decision s =
      let (answer, w) = ports.record_decision decision s.world in
      elim answer [
        | some _ ↦ (ok tt, record s { world = w; decisions = s.decisions ++ decision ∷ [] })
        | none ↦ (err decision_memory_raised, record s { world = w })
      ]

  -- The call of the decision memory, which follows either way of resolving.
  unfoldable pub conclude_conflict :
      String
      → AgentResult O
      → AgentResult O
      → Resolution
      → Verdict
      → (correlation_id : Uuid) → M (State W O) PortError ConflictRecord
  conclude_conflict description a b resolution outcome correlation_id =
      note_decision (record {
        objective = description;
        alternatives = a.output ∷ b.output ∷ [];
        chosen_alternative = outcome;
        correlation_id = correlation_id;
      })
      >> pure (record {
        description = description;
        resolution = resolution;
        outcome = outcome;
        correlation_id = correlation_id;
      })

  unfoldable pub resolve_conflict :
      String
      → AgentResult O
      → AgentResult O
      → (user_id correlation_id : Uuid) → M (State W O) PortError ConflictRecord
  resolve_conflict description a b user_id correlation_id =
      if differ (is_failing a.status) (is_failing b.status)
      then (let result = if is_failing a.status then a else b in
          conclude_conflict description a b supervisor_resolved
            (trusted result.agent_instance_id result.status) correlation_id)
      else (ask_reasoning description a b user_id correlation_id >>= λ outcome.
          conclude_conflict description a b escalated_to_reasoning (reasoned outcome)
            correlation_id)
