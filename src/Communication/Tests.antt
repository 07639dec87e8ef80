-- ===== src/Communication/Tests.antt =====
-- The conversation theorems at concrete sessions, and runs of the code.
use nova_project_bible.Communication.Delivery.{
  Surroundings, annotate, apply_memory_annotations, speak, hand_over, deliver_intent,
  try_transition, offer_to_resume, settle_delivery, remember, deliver_content,
}
use nova_project_bible.Communication.Sessions.{
  get_session_or_404, if_session, disconnect_session, hear_audio,
}
use nova_project_bible.Common.{
  ◌≡◌, ◌≢◌, refl, none, some, List, [], ◌∷◌, true, false, ◌⊎◌, is_some, Bool,
}
use nova_project_bible.Communication.StateMachine.{
  ConversationState, idle, listening, thinking, speaking, waiting, paused, completed, trigger,
  captured, delivered, transition, valid_events_from, look_up, same_state, same_event, state_number,
  event_number,
}
use nova_project_bible.Communication.StateMachine.Table.{
  event_in, valid_events_from-transition, Reach, here, next, is_open, is_reserved, Reach-completed,
  Reach-bounds,
}
use nova_project_bible.Communication.Store.{
  text, ConversationSession, Db, find_session, update_session, update_session_state, state_values,
  get_session, create_session, append_turn, enqueue_outbox, empty, ◌>>=◌, update_session_column,
  update_conversation_memory, set_interrupted_content, set_pending_questions,
}
use nova_project_bible.Communication.Store.Trail.{trail, Chain}
use nova_project_bible.Communication.Lifecycle.{
  apply_transition, open_session, trigger_if_resting, record_inbound_turn, mark_content_ready,
  mark_delivered, mark_barge_in, close_session, pause_session, recover_session_to_paused,
  resume_session, no_memory,
}
use nova_project_bible.Communication.Lifecycle.Stale.{pause-mark_delivered}
use nova_project_bible.Communication.Requests.{
  Request, create, message, pause, resume, deliver, disconnect, close, handle, serve,
}
use nova_project_bible.Communication.Requests.Trail.{serve-trail}

program : Unit {0}
unfolding transition look_up same_state same_event state_number event_number find_session
    update_session update_session_state get_session create_session append_turn enqueue_outbox
    apply_transition open_session trigger_if_resting record_inbound_turn mark_content_ready
    mark_delivered mark_barge_in close_session pause_session recover_session_to_paused
    resume_session update_session_column update_conversation_memory set_interrupted_content
    set_pending_questions get_session_or_404 if_session disconnect_session hear_audio annotate
    apply_memory_annotations speak hand_over deliver_intent try_transition offer_to_resume
    settle_delivery remember deliver_content handle serve trail ◌>>=◌
program = tt

abbrev surroundings : Bool → Surroundings
surroundings barged_in = record {
  validation = none;
  is_connected = true;
  speak_result = record { total_chunks = 2; delivered_chunks = 1; barged_in = barged_in };
  turn_id = 5;
  ready_at = 12;
  heard_at = 13;
  delivered_at = 14;
  resume_offer = λ _. "continue?";
}

-- A conversation with a disconnection in the middle, and a second close that is refused.
abbrev requests : List Request
requests =
    create 1 2 text 3 none 10
    ∷ message 1 "hello" 4 11
    ∷ deliver 1 "hi" [] (surroundings false)
    ∷ disconnect 1 14
    ∷ resume 1 15
    ∷ close 1 16
    ∷ []

abbrev session : ConversationState → ConversationSession
session state = record {
  session_id = 1;
  user_id = 2;
  channel = text;
  device_id = 3;
  state = state;
  created_at = 10;
  turns = [];
  objective = none;
  pending_questions = none;
  closed_at = none;
  conversation_memory = no_memory;
  interrupted_content = none;
}

abbrev ended : Db
ended = serve requests empty

trail_served :
    trail 1 ended.outbox
    ≡ (idle, listening)
      ∷ (listening, thinking)
      ∷ (thinking, speaking)
      ∷ (speaking, waiting)
      ∷ (waiting, paused)
      ∷ (paused, listening)
      ∷ []
unfolding program
trail_served = refl

found_after_create :
    find_session 1 (serve (create 1 2 text 3 none 10 ∷ pause 1 11 ∷ []) empty).sessions
    ≡ some (session idle)
unfolding program
found_after_create = refl

disconnected :
    find_session 1 (serve (create 1 2 text 3 none 10 ∷ disconnect 1 11 ∷ []) empty).sessions
    ≡ some (session paused)
unfolding program
disconnected = refl

serve-trail_example :
    Chain idle
      (trail 1 (serve (create 1 2 text 3 none 10 ∷ disconnect 1 11 ∷ []) empty).outbox)
      paused
serve-trail_example =
    serve-trail (create 1 2 text 3 none 10 ∷ disconnect 1 11 ∷ []) 1 (session paused) disconnected

valid_events_from-transition_example :
    event_in delivered (valid_events_from speaking) ≡ is_some (transition speaking delivered)
valid_events_from-transition_example = valid_events_from-transition speaking delivered

Reach-completed_example : Reach paused completed
Reach-completed_example = Reach-completed paused refl

heard : Reach idle thinking
unfolding program
heard = next (next here trigger refl) captured refl

Reach-bounds_example :
    (thinking ≡ idle) ⊎ ((is_open idle ≡ true) × (is_reserved thinking ≡ false) × (thinking ≢ idle))
Reach-bounds_example = Reach-bounds heard

abbrev talking : Db
talking = record { sessions = session speaking ∷ []; outbox = [] }

talking-found : find_session 1 talking.sessions ≡ some (session speaking)
unfolding program
talking-found = refl

pause-mark_delivered_example :
    (find_session 1 (pause_session (session speaking) 20 talking).1.sessions
      ≡ some (state_values paused none (session speaking)))
    × (find_session 1
          (mark_delivered
            (session speaking)
            21
            (pause_session (session speaking) 20 talking).1).1.sessions
        ≡ some (state_values waiting none (session speaking)))
    × (transition paused delivered ≡ none)
pause-mark_delivered_example =
    pause-mark_delivered (session speaking) talking 20 21 talking-found refl
