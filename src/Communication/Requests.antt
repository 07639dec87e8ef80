-- ===== src/Communication/Requests.antt =====
-- The requests that load a session and call the life cycle: api/sessions.py, the audio and the end
-- of api/websocket.py, the recovery pass of main.py, and a delivery of events/handlers.py.

pub mod Trail
use nova_project_bible.Communication.Delivery.{Annotation, Surroundings, deliver_content}
use nova_project_bible.Communication.Sessions.{
  get_session_or_404, if_session, disconnect_session, hear_audio,
}
use nova_project_bible.Common.{
  ℕ, Uuid, String, Option, none, some, List, [], ◌∷◌, Bool, true, false, if◌then◌else◌, not,
}
use nova_project_bible.Communication.StateMachine.{
  ConversationState, speaking, completed, same_state,
}
use nova_project_bible.Communication.Store.{
  ChannelType, ConversationSession, Db, Error, session_not_found, Result, ok, err, M, ◌>>=◌, ◌>>◌,
  pure, raise, get_session, ignore,
}
use nova_project_bible.Communication.Lifecycle.{
  open_session, record_inbound_turn, mark_content_ready, mark_delivered, mark_barge_in,
  close_session, pause_session, recover_session_to_paused, resume_session,
}

pub data Request : Type 0 where
  create :
      (session_id user_id : Uuid) → ChannelType → (device_id : Uuid) → Option String → ℕ → Request
  message : (session_id : Uuid) → String → (turn_id : Uuid) → ℕ → Request
  pause resume close : (session_id : Uuid) → ℕ → Request
  audio_chunk : (session_id : Uuid) → ℕ → Request
  -- A delivery during which nothing else is served but the audio that interrupts it.
  deliver : (session_id : Uuid) → String → List Annotation → Surroundings → Request
  disconnect : (session_id : Uuid) → ℕ → Request

unfoldable pub handle : Request → M (Unit {0})
handle (create session_id user_id channel device_id objective now) =
    ignore (open_session session_id user_id channel device_id objective now)
handle (message i content turn_id now) =
    get_session_or_404 i >>= λ s. ignore (record_inbound_turn s content turn_id now)
handle (pause i now) = get_session_or_404 i >>= λ s. ignore (pause_session s now)
handle (resume i now) = get_session_or_404 i >>= λ s. ignore (resume_session s now)
handle (close i now) = get_session_or_404 i >>= λ s. ignore (close_session s now)
handle (audio_chunk i now) = if_session i (λ s. hear_audio s now)
handle (deliver i content annotations w) =
    if_session i (λ s. ignore (deliver_content w content annotations s))
handle (disconnect i now) = if_session i (λ s. disconnect_session s now)

-- Requests one after the other, each to its end; an error is answered and ends only its request.
unfoldable pub serve : List Request → Db → Db
serve [] db = db
serve (r ∷ requests) db = serve requests (handle r db).1
