-- ===== src/Communication/Sessions.antt =====
-- Steps on a session as it is stored: `_get_session_or_404` of api/sessions.py, an audio chunk and
-- the end of a socket of api/websocket.py.
pub mod Trail
use nova_project_bible.Common.{
  ℕ, Uuid, String, Option, none, some, List, [], ◌∷◌, Bool, true, false, if◌then◌else◌, not,
}
use nova_project_bible.Communication.StateMachine.{
  ConversationState, speaking, completed, same_state,
}
use nova_project_bible.Communication.Store.{
  ChannelType, ConversationSession, Db, Error, session_not_found, Result, ok, err, M, ◌>>=◌, ◌>>◌,
  pure, raise, get_session, ignore,
}
use nova_project_bible.Communication.Lifecycle.{
  open_session, record_inbound_turn, mark_content_ready, mark_delivered, mark_barge_in,
  close_session, pause_session, recover_session_to_paused, resume_session,
}

-- `_get_session_or_404`
unfoldable pub get_session_or_404 : Uuid → M ConversationSession
get_session_or_404 i = do
  found ← get_session i
  (elim found [ none ↦ raise session_not_found | some s ↦ pure s ])

-- `current = await get_session(i)`, and nothing without a session.
unfoldable pub if_session : Uuid → (ConversationSession → M (Unit {0})) → M (Unit {0})
if_session i step = do found ← get_session i; (elim found [ none ↦ pure tt | some s ↦ step s ])

unfoldable pub disconnect_session : ConversationSession → ℕ → M (Unit {0})
disconnect_session s now =
    if not (same_state s.state completed) then ignore (recover_session_to_paused s now) else pure tt

unfoldable pub hear_audio : ConversationSession → ℕ → M (Unit {0})
hear_audio s now = if same_state s.state speaking then ignore (mark_barge_in s now) else pure tt
