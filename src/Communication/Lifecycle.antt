-- ===== src/Communication/Lifecycle.antt =====
-- domain/session_lifecycle.py: the operations that move a session. Times and new ids are arguments.
pub mod Stale
pub mod Trail
use nova_project_bible.Common.{
  ℕ, Uuid, String, Option, none, some, List, [], ◌∷◌, Bool, true, false, if◌then◌else◌, length,
  ◌||◌, not,
}
use nova_project_bible.Communication.StateMachine.{
  ConversationState, idle, listening, thinking, speaking, waiting, paused, completed, executing,
  monitoring, learning, ConversationEvent, trigger, captured, content_ready, clarification,
  delivered, barge_in, close, pause, resume, same_state, transition,
}
use nova_project_bible.Communication.Store.{
  ChannelType, TurnDirection, inbound, ConversationTurn, ConversationMemory, ConversationSession,
  OutboxEvent, session_created, state_changed, turn_received, session_completed, Db, Error,
  invalid_transition, invalid_close_state, session_not_found, Result, ok, err, M, ◌>>=◌, ◌>>◌, pure,
  raise, get_session, create_session, update_session_state, append_turn, enqueue_outbox,
}

-- `now` is `datetime.now(UTC)`.
unfoldable pub apply_transition :
    ConversationSession → ConversationEvent → Option ℕ → ℕ → M ConversationSession
apply_transition session event closed_at now = elim (transition session.state event) [
  | none ↦ raise (invalid_transition session.state event)
  | some to_state ↦
      update_session_state session.session_id to_state closed_at
        (state_changed session.session_id session.state to_state now)
]

abbrev pub no_memory : ConversationMemory
no_memory = record {
  questions = [];
  decisions = [];
  preferences = [];
  corrections = [];
  feedback = [];
}

-- `objective` is that of the world model's snapshot, or none without one.
unfoldable pub open_session :
    Uuid → Uuid → ChannelType → Uuid → Option String → ℕ → M ConversationSession
open_session session_id user_id channel device_id objective now = do
  created ← create_session (record {
    session_id = session_id;
    user_id = user_id;
    channel = channel;
    device_id = device_id;
    state = idle;
    created_at = now;
    turns = [];
    objective = objective;
    pending_questions = none;
    closed_at = none;
    conversation_memory = no_memory;
    interrupted_content = none;
  })
  enqueue_outbox (
      session_created created.session_id created.user_id created.channel created.device_id
        created.created_at)
  pure created

-- The `if` of `record_inbound_turn`: idle and waiting sessions are triggered first.
unfoldable pub trigger_if_resting : ConversationSession → ℕ → M ConversationSession
trigger_if_resting session now =
    if same_state session.state idle || same_state session.state waiting
    then apply_transition session trigger none now
    else pure session

unfoldable pub record_inbound_turn :
    ConversationSession → String → Uuid → ℕ → M (ConversationSession × ConversationTurn)
record_inbound_turn session content turn_id now = do
  triggered ← trigger_if_resting session now
  heard ← apply_transition triggered captured none now
  turn ←
      append_turn
        (record {
          turn_id = turn_id;
          session_id = heard.session_id;
          direction = inbound;
          content = content;
          channel = heard.channel;
          personality_validated = none;
          created_at = now;
        })
        (some (turn_received heard.session_id turn_id heard.user_id content heard.channel now))
  pure (heard, turn)

unfoldable pub mark_content_ready : ConversationSession → ℕ → M ConversationSession
mark_content_ready session now = apply_transition session content_ready none now

unfoldable pub mark_delivered : ConversationSession → ℕ → M ConversationSession
mark_delivered session now = apply_transition session delivered none now

unfoldable pub mark_barge_in : ConversationSession → ℕ → M ConversationSession
mark_barge_in session now = apply_transition session barge_in none now

unfoldable pub close_session : ConversationSession → ℕ → M ConversationSession
close_session session now =
    if not (same_state session.state waiting)
    then raise (invalid_close_state session.state)
    else (do
      updated ← apply_transition session close (some now) now
      enqueue_outbox (
          session_completed updated.session_id updated.user_id updated.objective
            (length updated.turns) now updated.conversation_memory)
      pure updated)

unfoldable pub pause_session : ConversationSession → ℕ → M ConversationSession
pause_session session now = apply_transition session pause none now

-- A direct write that the table does not check.
unfoldable pub recover_session_to_paused : ConversationSession → ℕ → M ConversationSession
recover_session_to_paused session now =
    if same_state session.state paused
    then pure session
    else update_session_state session.session_id paused none
        (state_changed session.session_id session.state paused now)

unfoldable pub resume_session : ConversationSession → ℕ → M ConversationSession
resume_session session now = apply_transition session resume none now
