-- ===== src/Communication/StateMachine.antt =====
-- domain/state_machine.py: the transition table of a conversation session.
pub mod Table
use nova_project_bible.Common.{
  ℕ, Option, none, some, List, [], ◌∷◌, Bool, true, false, ◌&&◌, ◌==◌, if◌then◌else◌,
}

pub data ConversationState : Type 0 where
  idle listening thinking speaking waiting paused completed : ConversationState
  executing monitoring learning : ConversationState

pub data ConversationEvent : Type 0 where
  trigger captured content_ready clarification delivered barge_in close pause resume :
      ConversationEvent

-- An enumeration member by its position, to compare members.
unfoldable pub state_number : ConversationState → ℕ
state_number idle = 0
state_number listening = 1
state_number thinking = 2
state_number speaking = 3
state_number waiting = 4
state_number paused = 5
state_number completed = 6
state_number executing = 7
state_number monitoring = 8
state_number learning = 9

unfoldable pub event_number : ConversationEvent → ℕ
event_number trigger = 0
event_number captured = 1
event_number content_ready = 2
event_number clarification = 3
event_number delivered = 4
event_number barge_in = 5
event_number close = 6
event_number pause = 7
event_number resume = 8

unfoldable pub same_state : ConversationState → ConversationState → Bool
unfolding state_number
same_state a b = state_number a == state_number b

unfoldable pub same_event : ConversationEvent → ConversationEvent → Bool
unfolding event_number
same_event a b = event_number a == event_number b

pub record Entry : Type 0 where
  pub source : ConversationState
  pub event : ConversationEvent
  pub target : ConversationState

abbrev pub entry : ConversationState → ConversationEvent → ConversationState → Entry
entry source event target = record { source = source; event = event; target = target }

-- _TRANSITIONS
abbrev pub transitions : List Entry
transitions =
    entry idle trigger listening
    ∷ entry waiting trigger listening
    ∷ entry listening captured thinking
    ∷ entry thinking content_ready speaking
    ∷ entry thinking clarification waiting
    ∷ entry speaking delivered waiting
    ∷ entry speaking barge_in listening
    ∷ entry waiting close completed
    ∷ entry listening pause paused
    ∷ entry thinking pause paused
    ∷ entry speaking pause paused
    ∷ entry waiting pause paused
    ∷ entry paused resume listening
    ∷ []

-- The dict lookup of a (state, event) pair.
unfoldable pub look_up :
    List Entry → ConversationState → ConversationEvent → Option ConversationState
look_up [] s e = none
look_up (t ∷ table) s e =
    if same_state t.source s && same_event t.event e then some t.target else look_up table s e

-- `none` is a raised InvalidTransitionError.
unfoldable pub transition : ConversationState → ConversationEvent → Option ConversationState
unfolding look_up same_state same_event
transition current event = look_up transitions current event

unfoldable pub events_of : List Entry → ConversationState → List ConversationEvent
events_of [] s = []
events_of (t ∷ table) s =
    let rest = events_of table s in if same_state t.source s then t.event ∷ rest else rest

unfoldable pub valid_events_from : ConversationState → List ConversationEvent
unfolding events_of same_state same_event
valid_events_from current = events_of transitions current
