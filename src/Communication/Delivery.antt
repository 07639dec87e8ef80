-- ===== src/Communication/Delivery.antt =====
-- domain/intent_gate.py, domain/conversation_memory.py and `deliver_content_to_session` of
-- events/handlers.py: an utterance from its candidate to the session it is spoken in. What the
-- personality engine, the channel and the synthesis answer is an argument; a channel that raises is
-- left out.
pub mod Trail
use nova_project_bible.Common.{
  ℕ, Uuid, String, str_eq, Option, none, some, List, [], ◌∷◌, ◌++◌, Bool, true, false,
  if◌then◌else◌, not, ltb, is_some, ◌&&◌,
}
use nova_project_bible.Communication.StateMachine.{
  ConversationState, ConversationEvent, completed, same_state,
}
use nova_project_bible.Communication.Store.{
  ChannelType, text, voice, outbound, ConversationTurn, ConversationMemory, ConversationSession, Db,
  Error, invalid_transition, Result, ok, err, M, ◌>>=◌, ◌>>◌, pure, append_turn,
  update_conversation_memory, set_interrupted_content, set_pending_questions,
}
use nova_project_bible.Communication.Lifecycle.{mark_content_ready, mark_delivered}
use nova_project_bible.Communication.Sessions.{if_session, hear_audio}

-- A dict with the keys that are read.
pub record Annotation : Type 0 where
  pub category : Option String
  pub content : Option String

-- Whether a `str | None` is truthy.
abbrev pub is_truthy : Option String → Bool
is_truthy none = false
is_truthy (some s) = not (str_eq s "")

-- `first or second`, where the second is a string.
abbrev pub or_else : Option String → String → String
or_else none second = second
or_else (some s) second = if str_eq s "" then second else s

-- One round of the loop over the annotations.
unfoldable pub annotate : ConversationMemory → Annotation → ConversationMemory
annotate memory a = if not (is_truthy a.content) then memory else elim a.category [
  | none ↦ memory
  | some c ↦
      let texts = or_else a.content "" ∷ [] in
      if str_eq c "decisions"
      then record memory { decisions = memory.decisions ++ texts }
      else if str_eq c "preferences"
      then record memory { preferences = memory.preferences ++ texts }
      else if str_eq c "corrections"
      then record memory { corrections = memory.corrections ++ texts }
      else if str_eq c "feedback"
      then record memory { feedback = memory.feedback ++ texts }
      else memory
]

unfoldable pub apply_memory_annotations : ConversationMemory → List Annotation → ConversationMemory
apply_memory_annotations memory [] = memory
apply_memory_annotations memory (a ∷ rest) = apply_memory_annotations (annotate memory a) rest

pub record Validation : Type 0 where
  pub passed : Bool
  pub adjusted_content : Option String
  pub rejection_reason : Option String

pub record SpeakResult : Type 0 where
  pub total_chunks : ℕ
  pub delivered_chunks : ℕ
  pub barged_in : Bool

-- What one delivery meets: no validation is a TimeoutError of the personality engine.
pub record Surroundings : Type 0 where
  pub validation : Option Validation
  pub is_connected : Bool
  pub speak_result : SpeakResult
  pub turn_id : Uuid
  pub ready_at : ℕ
  pub heard_at : ℕ
  pub delivered_at : ℕ
  -- clarification.resume_offer of the session's objective
  pub resume_offer : Option String → String

pub data Rejection : Type 0 where
  session_completed personality_validation_failed no_live_channel_connection : Rejection
  barged_in synthesis_failed : Rejection
  rejected_for : String → Rejection
  invalid_session_state : ConversationState → ConversationEvent → Rejection

pub record IntentDeliveryOutcome : Type 0 where
  pub delivered : Bool
  pub personality_validated : Bool
  pub degraded : Bool
  pub turn_id : Option Uuid
  pub rejection_reason : Option Rejection

abbrev pub rejected : Bool → Rejection → IntentDeliveryOutcome
rejected validated reason = record {
  delivered = false;
  personality_validated = validated;
  degraded = false;
  turn_id = none;
  rejection_reason = some reason;
}

-- validation.rejection_reason or "personality_validation_failed"
abbrev pub refusal : Option String → Rejection
refusal none = personality_validation_failed
refusal (some s) = if str_eq s "" then personality_validation_failed else rejected_for s

module _ (w : Surroundings) (session : ConversationSession) where
  abbrev pub outbound_turn : String → Bool → ConversationTurn
  outbound_turn content validated = record {
    turn_id = w.turn_id;
    session_id = session.session_id;
    direction = outbound;
    content = content;
    channel = session.channel;
    personality_validated = some validated;
    created_at = w.ready_at;
  }

  abbrev pub outcome_of : Bool → Bool → Bool → Option Rejection → IntentDeliveryOutcome
  outcome_of delivered validated degraded reason = record {
    delivered = delivered;
    personality_validated = validated;
    degraded = degraded;
    turn_id = some w.turn_id;
    rejection_reason = reason;
  }

  -- The voice branch of step 3. A barge-in is an audio chunk that the socket hears during the speech.
  unfoldable pub speak : String → Bool → Bool → M IntentDeliveryOutcome
  speak content validated degraded =
      let spoke = ltb 0 w.speak_result.delivered_chunks in
      if w.speak_result.barged_in
      then (do
        if_session session.session_id (λ s. hear_audio s w.heard_at)
        append_turn (outbound_turn content validated) none
        set_interrupted_content session.session_id (some content)
        pure (outcome_of spoke validated degraded (some barged_in)))
      else (do
        append_turn (outbound_turn content validated) none
        pure (
            if ltb w.speak_result.delivered_chunks w.speak_result.total_chunks
            then outcome_of spoke validated degraded (some synthesis_failed)
            else outcome_of true validated degraded none))

  -- Step 3.
  unfoldable pub hand_over : String → Bool → Bool → M IntentDeliveryOutcome
  hand_over content validated degraded =
      if not w.is_connected
      then (do
        append_turn (outbound_turn content validated) none
        pure (outcome_of false validated degraded (some no_live_channel_connection)))
      else elim session.channel [
        | voice ↦ speak content validated degraded
        | text ↦ (do
          append_turn (outbound_turn content validated) none
          pure (outcome_of true validated degraded none))
      ]

  unfoldable pub deliver_intent : String → M IntentDeliveryOutcome
  deliver_intent content =
      if same_state session.state completed
      then pure (rejected false session_completed)
      else elim w.validation [
        | none ↦ hand_over content false true
        | some v ↦
            if v.passed
            then hand_over (or_else v.adjusted_content content) true false
            else pure (rejected true (refusal v.rejection_reason))
      ]

-- `try: m except InvalidTransitionError: handler`, and then the rest.
unfoldable pub try_transition :
    {A B : Type 0} → M A → (ConversationState → ConversationEvent → M B) → (A → M B) → M B
try_transition m handler rest db =
    let (r, db') = m db in
    elim r [
      | ok a ↦ rest a db'
      | err (invalid_transition s e) ↦ handler s e db'
      | err e ↦ (err e, db')
    ]

-- The offer to resume content that an earlier barge-in interrupted.
unfoldable pub offer_to_resume :
    Surroundings
    → ConversationSession
    → Option String
    → IntentDeliveryOutcome
    → M IntentDeliveryOutcome
offer_to_resume w session pending outcome =
    if outcome.delivered && is_some pending
    then (do
      set_pending_questions session.session_id (some (w.resume_offer session.objective ∷ []))
      set_interrupted_content session.session_id none
      pure outcome)
    else pure outcome

abbrev pub was_barged_in : Option Rejection → Bool
was_barged_in (some barged_in) = true
was_barged_in _ = false

-- The steps after `deliver_intent`, but for the metrics.
unfoldable pub settle_delivery :
    Surroundings
    → ConversationSession
    → Option String
    → IntentDeliveryOutcome
    → M IntentDeliveryOutcome
settle_delivery w session pending outcome =
    if was_barged_in outcome.rejection_reason
    then pure outcome
    else try_transition (mark_delivered session w.delivered_at)
        (λ _ _. offer_to_resume w session pending outcome)
        (λ _. offer_to_resume w session pending outcome)

-- `if memory_annotations:`
unfoldable pub remember : ConversationSession → List Annotation → M ConversationSession
remember session [] = pure session
remember session (a ∷ rest) =
    update_conversation_memory session.session_id
      (apply_memory_annotations session.conversation_memory (a ∷ rest))

unfoldable pub deliver_content :
    Surroundings → String → List Annotation → ConversationSession → M IntentDeliveryOutcome
deliver_content w content annotations loaded = do
  session ← remember loaded annotations
  try_transition (mark_content_ready session w.ready_at)
      (λ s e. pure (rejected false (invalid_session_state s e)))
      (λ spoken.
        deliver_intent w spoken content >>= settle_delivery w spoken session.interrupted_content)
