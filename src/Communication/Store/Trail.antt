-- ===== src/Communication/Store/Trail.antt =====
-- The `communication.session.state_changed` events of a session, as a path of its states.
use nova_project_bible.Common.{
  Uuid, ◌≡◌, ◌≢◌, refl, none, some, List, [], ◌∷◌, ◌++◌, ◌==◌, arith, if◌then◌else◌, ◌⊎◌,
}
use mathlib.Core.Option
use nova_project_bible.Communication.StateMachine.{
  ConversationState, idle, paused, completed, ConversationEvent, transition,
}
use nova_project_bible.Communication.Store.{
  ConversationSession, OutboxEvent, session_created, state_changed, turn_received,
  session_completed, Db, Result, ok, err, M, ◌>>=◌, find_session, update_session, empty,
}

abbrev pub Step : Type 0
Step = ConversationState × ConversationState

-- The changes of one session, oldest first.
unfoldable pub trail : Uuid → List OutboxEvent → List Step
trail i [] = []
trail i (state_changed j a b at ∷ events) =
    let rest = trail i events in if j == i then (a, b) ∷ rest else rest
trail i (session_created _ _ _ _ _ ∷ events) = trail i events
trail i (turn_received _ _ _ _ _ _ ∷ events) = trail i events
trail i (session_completed _ _ _ _ _ _ ∷ events) = trail i events

-- A change is one that the table allows, or the pause of a session that is not completed.
abbrev pub Link : ConversationState → ConversationState → Type 0
Link a b = ((e : ConversationEvent) × (transition a e ≡ some b)) ⊎ ((b ≡ paused) × (a ≢ completed))

abbrev pub Chain : ConversationState → List Step → ConversationState → Type 0
Chain a [] b = a ≡ b
Chain a ((c, d) ∷ steps) b = (a ≡ c) × Link c d × Chain d steps b

pub Chain-snoc :
    (a b c : ConversationState) (steps : List Step)
    → Chain a steps b
    → Link b c
    → Chain a (steps ++ (b, c) ∷ []) c
Chain-snoc a b c [] h l = (h, l, refl)
Chain-snoc a b c ((d, e) ∷ steps) h l = (h.0, h.1, Chain-snoc e b c steps h.2 l)

pub trail-append :
    (i : Uuid) (xs ys : List OutboxEvent) → trail i (xs ++ ys) ≡ trail i xs ++ trail i ys
unfolding trail
trail-append i [] ys = refl
trail-append i (state_changed j a b at ∷ xs) ys = ground (arith, trail-append i xs ys)
trail-append i (session_created _ _ _ _ _ ∷ xs) ys = trail-append i xs ys
trail-append i (turn_received _ _ _ _ _ _ ∷ xs) ys = trail-append i xs ys
trail-append i (session_completed _ _ _ _ _ _ ∷ xs) ys = trail-append i xs ys

-- Every stored session's events lead from the idle state to its stored state.
pub record Inv (db : Db) : Type 0 where
  pub traced :
      (i : Uuid) (s : ConversationSession)
      → find_session i db.sessions ≡ some s
      → Chain idle (trail i db.outbox) s.state
  pub fresh : (i : Uuid) → find_session i db.sessions ≡ none → trail i db.outbox ≡ []

pub Inv-empty : Inv empty
unfolding find_session trail
Inv-empty = record { traced = λ i s h. cc; fresh = λ i h. refl }

-- A session value that still says what state its row is in.
abbrev pub Loaded : ConversationSession → Db → Type 0
Loaded s db =
    (row : ConversationSession) × (find_session s.session_id db.sessions ≡ some row)
    × (row.state ≡ s.state)

pub find_session-id :
    (i : Uuid) (sessions : List ConversationSession) (s : ConversationSession)
    → find_session i sessions ≡ some s
    → s.session_id ≡ i
unfolding find_session
find_session-id i [] s h = cc
find_session-id i (k ∷ sessions) s h = ground (arith, find_session-id i sessions s)

pub find_session-update :
    (i j : Uuid) (f : ConversationSession → ConversationSession)
    (sessions : List ConversationSession)
    → ((s : ConversationSession) → (f s).session_id ≡ s.session_id)
    → find_session j (update_session i f sessions)
      ≡ (if i == j then Option.map f (find_session j sessions) else find_session j sessions)
unfolding find_session update_session
find_session-update i j f [] same = ground arith
find_session-update i j f (s ∷ sessions) same =
    ground (arith, find_session-update i j f sessions same, same s)

pub find_session-append :
    (j : Uuid) (sessions : List ConversationSession) (s : ConversationSession)
    → find_session s.session_id sessions ≡ none
    → find_session j (sessions ++ s ∷ [])
      ≡ (if s.session_id == j then some s else find_session j sessions)
unfolding find_session
find_session-append j [] s h = refl
find_session-append j (k ∷ sessions) s h = ground (arith, find_session-append j sessions s)

-- What a coroutine ensures: the invariant, raised or not, and `Q` of what it returns.
pub record Ensures {A : Type 0} (Q : A → Db → Type 0) (out : Result A × Db) : Type 0 where
  pub inv : Inv out.1
  pub post : (a : A) → out.0 ≡ ok a → Q a out.1

pub >>=-Ensures :
    {A B : Type 0} (P : A → Db → Type 0) (Q : B → Db → Type 0) (m : M A) (f : A → M B) (db : Db)
    → Ensures P (m db)
    → ((a : A) (db' : Db) → Inv db' → P a db' → Ensures Q (f a db'))
    → Ensures Q ((m >>= f) db)
unfolding ◌>>=◌
>>=-Ensures {A} {B} P Q m f db h k = go (m db) h
  where
    go :
        (out : Result A × Db)
        → Ensures P out
        → Ensures Q (let (r, db') = out in elim r [ ok a ↦ f a db' | err e ↦ (err e, db') ])
    go (ok a, db') h = k a db' h.inv (h.post a refl)
    go (err e, db') h = record { inv = h.inv; post = λ a p. cc }
