-- ===== src/Communication/Lifecycle/Stale.antt =====
-- A step on a session value that was loaded before another request wrote the row.
use nova_project_bible.Common.{ℕ, Uuid, ◌≡◌, refl, ◌∙◌, Option, none, some, ==_self}
use nova_project_bible.Communication.StateMachine.{
  ConversationState, ConversationEvent, speaking, paused, waiting, pause, delivered, transition,
}
use nova_project_bible.Communication.Store.{
  ConversationSession, OutboxEvent, Db, find_session, update_session, state_values,
  update_session_state,
}
use nova_project_bible.Communication.Store.Trail.{find_session-update}
use nova_project_bible.Communication.Store.Writes.{state_values-id}
use nova_project_bible.Communication.Lifecycle.{apply_transition, pause_session, mark_delivered}

find-update_session_state :
    (i : Uuid) (to : ConversationState) (at : Option ℕ) (e : OutboxEvent) (db : Db)
    (x : ConversationSession)
    → find_session i db.sessions ≡ some x
    → find_session i (update_session_state i to at e db).1.sessions ≡ some (state_values to at x)
find-update_session_state i to at e db x found =
    let stored : find_session i (update_session i (state_values to at) db.sessions)
        ≡ some (state_values to at x) =
      find_session-update i i (state_values to at) db.sessions (state_values-id to at)
      ∙ rw (==_self, found) in
    unfold update_session_state in rw (update_session_state, stored) stored

apply_transition_lem :
    (s : ConversationSession) (e : ConversationEvent) (now : ℕ) (db : Db) (x : ConversationSession)
    (to : ConversationState)
    → transition s.state e ≡ some to
    → find_session s.session_id db.sessions ≡ some x
    → find_session s.session_id (apply_transition s e none now db).1.sessions
      ≡ some (state_values to none x)
apply_transition_lem s e now db x to t found =
    unfold apply_transition in
    rw (apply_transition, t) (find-update_session_state s.session_id to none _ db x found)

-- A delivery that ends after the user paused the session writes by the value that it loaded before:
-- the pause is stored, the delivery takes it back to the waiting state, and the table has no edge
-- for a delivery from the paused state.
pub pause-mark_delivered :
    (s : ConversationSession) (db : Db) (paused_at delivered_at : ℕ)
    → find_session s.session_id db.sessions ≡ some s
    → s.state ≡ speaking
    → (find_session s.session_id (pause_session s paused_at db).1.sessions
        ≡ some (state_values paused none s))
      × (find_session s.session_id
            (mark_delivered s delivered_at (pause_session s paused_at db).1).1.sessions
          ≡ some (state_values waiting none s))
      × (transition paused delivered ≡ none)
unfolding pause_session mark_delivered
pause-mark_delivered s db paused_at delivered_at loaded is_speaking = (
  first,
  apply_transition_lem s delivered delivered_at (apply_transition s pause none paused_at db).1
      (state_values paused none s) waiting (rw is_speaking (unfold transition in refl)) first,
  unfold transition in refl,
)
  where
    first :
        find_session s.session_id (apply_transition s pause none paused_at db).1.sessions
        ≡ some (state_values paused none s)
    first =
        apply_transition_lem s pause paused_at db s paused
          (rw is_speaking (unfold transition in refl)) loaded
