-- ===== src/Communication/StateMachine/Table.antt =====
-- The table as a transition system: where sessions can go.
use nova_project_bible.Common.{
  ℕ, ◌≡◌, ◌≢◌, refl, some, List, [], ◌∷◌, Bool, true, false, ◌||◌, arith, is_some, ◌⊎◌, inl, inr,
  subst, sym, ap, ◌∙◌, ==_iff, ◌==◌, ◌&&◌, All, Bool-cases, if◌then◌else◌,
}
use nova_project_bible.Communication.StateMachine.{
  ConversationState, idle, listening, thinking, speaking, waiting, paused, completed, executing,
  monitoring, learning, ConversationEvent, trigger, captured, clarification, delivered, close,
  resume, same_event, transition, valid_events_from, Entry, look_up, events_of, transitions,
  same_state, state_number,
}

abbrev pub event_in : ConversationEvent → List ConversationEvent → Bool
event_in e [] = false
event_in e (x ∷ xs) = same_event x e || event_in e xs

event_in-events_of :
    (table : List Entry) (s : ConversationState) (e : ConversationEvent)
    → event_in e (events_of table s) ≡ is_some (look_up table s e)
unfolding events_of look_up
event_in-events_of [] s e = refl
event_in-events_of (t ∷ table) s e = ground (arith, event_in-events_of table s e)

-- `valid_events_from` lists exactly the events that `transition` accepts.
pub valid_events_from-transition :
    (s : ConversationState) (e : ConversationEvent)
    → event_in e (valid_events_from s) ≡ is_some (transition s e)
valid_events_from-transition s e =
    unfold valid_events_from transition in event_in-events_of transitions s e

-- States that a chain of accepted events leads to.
pub data Reach (s : ConversationState) : ConversationState → Type 0 where
  here : Reach s s
  next :
      {t u : ConversationState}
      → Reach s t
      → (e : ConversationEvent) → transition t e ≡ some u
      → Reach s u

-- The states that this version of the engine produces, but for the last one.
abbrev pub is_open : ConversationState → Bool
is_open idle = true
is_open listening = true
is_open thinking = true
is_open speaking = true
is_open waiting = true
is_open paused = true
is_open _ = false

abbrev pub is_reserved : ConversationState → Bool
is_reserved executing = true
is_reserved monitoring = true
is_reserved learning = true
is_reserved _ = false

pub waiting-Reach : Reach waiting completed
unfolding transition
waiting-Reach = next here close refl

Reach-trans : {s t u : ConversationState} → Reach s t → Reach t u → Reach s u
Reach-trans r here = r
Reach-trans r (next q e h) = next (Reach-trans r q) e h

listening-Reach : Reach listening completed
unfolding transition
listening-Reach = Reach-trans (next (next here captured refl) clarification refl) waiting-Reach

-- A session in an open state is never stuck: some chain of events completes it.
pub Reach-completed : (s : ConversationState) → is_open s ≡ true → Reach s completed
unfolding transition
Reach-completed idle h = Reach-trans (next here trigger refl) listening-Reach
Reach-completed listening h = listening-Reach
Reach-completed thinking h = Reach-trans (next here clarification refl) waiting-Reach
Reach-completed speaking h = Reach-trans (next here delivered refl) waiting-Reach
Reach-completed waiting h = waiting-Reach
Reach-completed paused h = Reach-trans (next here resume refl) listening-Reach
Reach-completed completed h = cc
Reach-completed executing h = cc
Reach-completed monitoring h = cc
Reach-completed learning h = cc

from_number : ℕ → ConversationState
from_number n =
    if n == 0
    then idle
    else if n == 1
    then listening
    else if n == 2
    then thinking
    else if n == 3
    then speaking
    else if n == 4
    then waiting
    else if n == 5
    then paused
    else if n == 6
    then completed
    else if n == 7
    then executing
    else if n == 8
    then monitoring
    else learning

from_number-state_number : (s : ConversationState) → from_number (state_number s) ≡ s
unfolding from_number state_number
from_number-state_number idle = refl
from_number-state_number _ = refl

pub same_state-eq : (a b : ConversationState) → same_state a b ≡ true → a ≡ b
same_state-eq a b h =
    sym (from_number-state_number a)
    ∙ ap from_number ((==_iff (state_number a) (state_number b)).0 (unfold same_state in h))
    ∙ from_number-state_number b

-- A property of every entry is one of every accepted event.
look_up-All :
    (P : ConversationState → ConversationState → Type 0) (table : List Entry)
    (s t : ConversationState) (e : ConversationEvent)
    → All (λ x. P x.source x.target) table
    → look_up table s e ≡ some t
    → P s t
unfolding look_up
look_up-All P [] s t e all h = cc
look_up-All P (x ∷ table) s t e all h =
    elim (Bool-cases (same_state x.source s && same_event x.event e)) [
      | inl q ↦
          let p : some x.target ≡ some t = (rw (look_up, q) at h) in
          let r : x.target ≡ t = cc in
          subst (P s) r (subst (λ k. P k x.target) (same_state-eq x.source s (ground arith)) all.0)
      | inr q ↦ look_up-All P table s t e all.1 (rw (look_up, q) at h)
    ]

abbrev Allowed : ConversationState → ConversationState → Type 0
Allowed s t = (is_open s ≡ true) × (is_reserved t ≡ false) × (t ≢ idle)

transition-closed :
    (s t : ConversationState) (e : ConversationEvent) → transition s e ≡ some t → Allowed s t
transition-closed s t e h =
    look_up-All Allowed transitions s t e (ground arith) (unfold transition in h)

-- What a chain of events can do: it never enters a reserved state, never returns to the idle
-- state, and never leaves a state that is not open.
pub Reach-bounds :
    {s t : ConversationState}
    → Reach s t
    → (t ≡ s) ⊎ ((is_open s ≡ true) × (is_reserved t ≡ false) × (t ≢ idle))
Reach-bounds here = inl refl
Reach-bounds (next {t} {u} r e h) =
    let (was_open, allowed, moved) = transition-closed t u e h in
    elim (Reach-bounds r) [
      | inl same ↦ inr (subst (λ k. is_open k ≡ true) same was_open, allowed, moved)
      | inr (first, _, _) ↦ inr (first, allowed, moved)
    ]
