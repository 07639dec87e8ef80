-- ===== src/Communication/Store.antt =====
-- domain/models.py, and the part of repository/postgres_communication_repository.py that moves and
-- fills a session. Each method is one transaction: what it wrote stays when a later step raises.

pub mod Trail
pub mod Writes
pub mod Rows
use nova_project_bible.Common.{
  ℕ, Uuid, String, Option, none, some, List, [], ◌∷◌, ◌++◌, Bool, true, false, ◌==◌, if◌then◌else◌,
  map, length,
}
use nova_project_bible.Communication.StateMachine.{ConversationState, ConversationEvent}

pub data ChannelType : Type 0 where
  text voice : ChannelType

pub data TurnDirection : Type 0 where
  inbound outbound : TurnDirection

pub record ConversationTurn : Type 0 where
  pub turn_id : Uuid
  pub session_id : Uuid
  pub direction : TurnDirection
  pub content : String
  pub channel : ChannelType
  pub personality_validated : Option Bool
  pub created_at : ℕ

pub record ConversationMemory : Type 0 where
  pub questions : List String
  pub decisions : List String
  pub preferences : List String
  pub corrections : List String
  pub feedback : List String

-- A datetime is a number. `updated_at` and `dnd_override`, which no step below reads, are left out.
pub record ConversationSession : Type 0 where
  pub session_id : Uuid
  pub user_id : Uuid
  pub channel : ChannelType
  pub device_id : Uuid
  pub state : ConversationState
  pub created_at : ℕ
  pub turns : List ConversationTurn
  pub objective : Option String
  pub pending_questions : Option (List String)
  pub closed_at : Option ℕ
  pub conversation_memory : ConversationMemory
  pub interrupted_content : Option String

-- The payloads that the life cycle puts into the outbox, by their subjects.
pub data OutboxEvent : Type 0 where
  session_created :
      (session_id user_id : Uuid)
      → ChannelType
      → (device_id : Uuid) → (created_at : ℕ) → OutboxEvent
  state_changed :
      (session_id : Uuid)
      → (from_state to_state : ConversationState) → (changed_at : ℕ) → OutboxEvent
  turn_received :
      (session_id turn_id user_id : Uuid) → String → ChannelType → (created_at : ℕ) → OutboxEvent
  session_completed :
      (session_id user_id : Uuid)
      → (objective : Option String) → (turn_count closed_at : ℕ) → ConversationMemory
      → OutboxEvent

pub record Db : Type 0 where
  pub sessions : List ConversationSession
  pub outbox : List OutboxEvent

abbrev pub empty : Db
empty = record { sessions = []; outbox = [] }

pub data Error : Type 0 where
  invalid_transition : ConversationState → ConversationEvent → Error
  invalid_close_state : ConversationState → Error
  duplicate_key no_result_found missing_foreign_key session_not_found : Error

pub data Result (A : Type 0) : Type 0 where
  ok : A → Result A
  err : Error → Result A

-- A coroutine over the database: its result or exception, and what it left behind.
abbrev pub M : Type 0 → Type 0
M A = Db → Result A × Db

infixl 5 ◌>>=◌ ◌>>◌
unfoldable pub ◌>>=◌ : {A B : Type 0} → M A → (A → M B) → M B
◌>>=◌ m f db = let (r, db') = m db in elim r [ ok a ↦ f a db' | err e ↦ (err e, db') ]

abbrev pub ◌>>◌ : {A B : Type 0} → M A → M B → M B
m >> k = m >>= λ _. k

abbrev pub pure : {A : Type 0} → A → M A
pure a db = (ok a, db)

abbrev pub raise : {A : Type 0} → Error → M A
raise e db = (err e, db)

-- The result of a step that the caller drops.
abbrev pub ignore : {A : Type 0} → M A → M (Unit {0})
ignore m = m >> pure tt

unfoldable pub find_session : Uuid → List ConversationSession → Option ConversationSession
find_session i [] = none
find_session i (s ∷ sessions) = if s.session_id == i then some s else find_session i sessions

-- `update(...).where(session_id == i)`
unfoldable pub update_session :
    Uuid
    → (ConversationSession → ConversationSession)
    → List ConversationSession
    → List ConversationSession
update_session i f sessions = map (λ s. if s.session_id == i then f s else s) sessions

unfoldable pub get_session : Uuid → M (Option ConversationSession)
get_session i db = (ok (find_session i db.sessions), db)

-- The id is the table's primary key.
unfoldable pub create_session : ConversationSession → M ConversationSession
create_session s db = elim (find_session s.session_id db.sessions) [
  | some _ ↦ (err duplicate_key, db)
  | none ↦ (ok s, record db { sessions = db.sessions ++ s ∷ [] })
]

-- The values of the update: the state, and the closing time where one is given.
abbrev pub state_values : ConversationState → Option ℕ → ConversationSession → ConversationSession
state_values state none s = record s { state = state }
state_values state (some at) s = record s { state = state; closed_at = some at }

-- `scalar_one` raises, and the transaction is rolled back, where no row has the id.
unfoldable pub update_session_state :
    Uuid → ConversationState → Option ℕ → OutboxEvent → M ConversationSession
update_session_state i state closed_at event db =
    let sessions = update_session i (state_values state closed_at) db.sessions in
    elim (find_session i sessions) [
      | none ↦ (err no_result_found, db)
      | some s ↦ (ok s, record { sessions = sessions; outbox = db.outbox ++ event ∷ [] })
    ]

-- The event that a write adds to the outbox, if it has one.
abbrev pub enqueued : Option OutboxEvent → List OutboxEvent → List OutboxEvent
enqueued none events = events
enqueued (some event) events = events ++ event ∷ []

abbrev pub with_turn : ConversationTurn → ConversationSession → ConversationSession
with_turn turn s = record s { turns = s.turns ++ turn ∷ [] }

-- The id of a turn is new; its session is a foreign key.
unfoldable pub append_turn : ConversationTurn → Option OutboxEvent → M ConversationTurn
append_turn turn event db = elim (find_session turn.session_id db.sessions) [
  | none ↦ (err missing_foreign_key, db)
  | some _ ↦ (
    ok turn,
    record {
      sessions = update_session turn.session_id (with_turn turn) db.sessions;
      outbox = enqueued event db.outbox;
    },
  )
]

-- `_update_session_column`
unfoldable pub update_session_column :
    Uuid → (ConversationSession → ConversationSession) → M ConversationSession
update_session_column i f db =
    let sessions = update_session i f db.sessions in
    elim (find_session i sessions) [
      | none ↦ (err no_result_found, db)
      | some s ↦ (ok s, record db { sessions = sessions })
    ]

unfoldable pub update_conversation_memory : Uuid → ConversationMemory → M ConversationSession
update_conversation_memory i memory =
    update_session_column i (λ s. record s { conversation_memory = memory })

unfoldable pub set_interrupted_content : Uuid → Option String → M ConversationSession
set_interrupted_content i content =
    update_session_column i (λ s. record s { interrupted_content = content })

unfoldable pub set_pending_questions : Uuid → Option (List String) → M ConversationSession
set_pending_questions i questions =
    update_session_column i (λ s. record s { pending_questions = questions })

unfoldable pub enqueue_outbox : OutboxEvent → M (Unit {0})
enqueue_outbox event db = (ok tt, record db { outbox = db.outbox ++ event ∷ [] })
