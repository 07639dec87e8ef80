-- ===== src/Communication/Store/Writes.antt =====
-- Each write keeps the trail of every session.
use nova_project_bible.Common.{
  ℕ, Uuid, String, ◌≡◌, refl, sym, ap, ◌∙◌, Option, none, some, List, [], ◌∷◌, ◌++◌, append-nil,
  ◌==◌, if◌then◌else◌, Bool-cases, inl, inr, ==_iff, ==_self, subst,
}
use mathlib.Core.Option
use nova_project_bible.Communication.StateMachine.{ConversationState, idle}
use nova_project_bible.Communication.Store.{
  ChannelType, ConversationMemory, ConversationSession, OutboxEvent, session_created, state_changed,
  turn_received, session_completed, Db, ok, find_session, update_session, state_values,
  update_session_state, enqueue_outbox,
}
use nova_project_bible.Communication.Store.Trail.{
  find_session-id, trail, Link, Chain, Chain-snoc, trail-append, Inv, Loaded, find_session-update,
  Ensures,
}

pub state_values-id :
    (state : ConversationState) (at : Option ℕ) (s : ConversationSession)
    → (state_values state at s).session_id ≡ s.session_id
state_values-id state none s = refl
state_values-id state (some t) s = refl

pub state_values-state :
    (state : ConversationState) (at : Option ℕ) (s : ConversationSession)
    → (state_values state at s).state ≡ state
state_values-state state none s = refl
state_values-state state (some t) s = refl

-- An event that is no change of state.
abbrev pub IsSilent : OutboxEvent → Type 0
IsSilent e = (i : Uuid) → trail i (e ∷ []) ≡ []

pub session_created-IsSilent :
    (i u : Uuid) (c : ChannelType) (d : Uuid) (at : ℕ) → IsSilent (session_created i u c d at)
unfolding trail
session_created-IsSilent i u c d at j = refl

pub turn_received-IsSilent :
    (i t u : Uuid) (content : String) (c : ChannelType) (at : ℕ)
    → IsSilent (turn_received i t u content c at)
unfolding trail
turn_received-IsSilent i t u content c at j = refl

pub session_completed-IsSilent :
    (i u : Uuid) (o : Option String) (n at : ℕ) (m : ConversationMemory)
    → IsSilent (session_completed i u o n at m)
unfolding trail
session_completed-IsSilent i u o n at m j = refl

trail-silent :
    (i : Uuid) (events : List OutboxEvent) (e : OutboxEvent)
    → IsSilent e
    → trail i (events ++ e ∷ []) ≡ trail i events
trail-silent i events e h =
    trail-append i events (e ∷ []) ∙ ap (λ l. trail i events ++ l) (h i) ∙ append-nil _

pub enqueue-Inv :
    (db : Db) (e : OutboxEvent)
    → IsSilent e
    → Inv db
    → Inv (record db { outbox = db.outbox ++ e ∷ [] })
enqueue-Inv db e h inv = record {
  traced = λ i s found. rw (trail-silent i db.outbox e h) (inv.traced i s found);
  fresh = λ i none_found. rw (trail-silent i db.outbox e h) (inv.fresh i none_found);
}

pub enqueue_outbox-Ensures :
    (e : OutboxEvent) (Q : Db → Type 0) (db : Db)
    → IsSilent e
    → Inv db
    → Q (record db { outbox = db.outbox ++ e ∷ [] })
    → Ensures (λ _. Q) (enqueue_outbox e db)
unfolding enqueue_outbox
enqueue_outbox-Ensures e Q db h inv q = record { inv = enqueue-Inv db e h inv; post = λ a p. q }

module _ (s row : ConversationSession) (to : ConversationState) (at : Option ℕ) (now : ℕ) (db : Db)
    (inv : Inv db) (loaded : find_session s.session_id db.sessions ≡ some row)
    (agrees : row.state ≡ s.state) where
  abbrev new : ConversationSession
  new = state_values to at row

  abbrev after : Db
  after = record {
    sessions = update_session s.session_id (state_values to at) db.sessions;
    outbox = db.outbox ++ state_changed s.session_id s.state to now ∷ [];
  }

  find-after :
      (j : Uuid)
      → find_session j after.sessions
        ≡ (if s.session_id == j then some new else find_session j db.sessions)
  find-after j = elim (Bool-cases (s.session_id == j)) [
    | inl e ↦
        find_session-update s.session_id j (state_values to at) db.sessions (state_values-id to at)
        ∙ rw e (
            ap (Option.map (state_values to at))
              (ap (λ k. find_session k db.sessions) (sym ((==_iff s.session_id j).0 e)) ∙ loaded))
    | inr e ↦
        find_session-update s.session_id j (state_values to at) db.sessions (state_values-id to at)
        ∙ rw e
  ]

  trail-after :
      (j : Uuid)
      → trail j after.outbox
        ≡ (if s.session_id == j then trail j db.outbox ++ (s.state, to) ∷ [] else trail j db.outbox)
  unfolding trail
  trail-after j = elim (Bool-cases (s.session_id == j)) [
    | inl e ↦ rw (trail-append j db.outbox (state_changed s.session_id s.state to now ∷ []), e)
    | inr e ↦
        rw (trail-append j db.outbox (state_changed s.session_id s.state to now ∷ []), e)
          (append-nil _)
  ]

  Inv-after : Link s.state to → Inv after
  Inv-after link = record {
    traced = λ j k found. elim (Bool-cases (s.session_id == j)) [
      | inl e ↦
          let same : s.session_id ≡ j = (==_iff s.session_id j).0 e in
          let p : some new ≡ some k = (rw e at (sym (find-after j))) ∙ found in
          let q : new ≡ k = cc in
          rw (trail-after j, e)
            (subst
              (λ (x : ConversationSession).
                Chain idle (trail j db.outbox ++ (s.state, to) ∷ []) x.state)
              q
              (rw (state_values-state to at row) (
                Chain-snoc idle s.state to (trail j db.outbox)
                  (subst (Chain idle (trail j db.outbox)) agrees
                    (inv.traced j row (ap (λ x. find_session x db.sessions) (sym same) ∙ loaded)))
                  link)))
      | inr e ↦ rw (trail-after j, e) (inv.traced j k ((rw e at (sym (find-after j))) ∙ found))
    ];
    fresh = λ j missing. elim (Bool-cases (s.session_id == j)) [
      | inl e ↦
          let p : ◌≡◌ {A = Option ConversationSession} (some new) none =
            (rw e at (sym (find-after j))) ∙ missing in
          cc
      | inr e ↦ rw (trail-after j, e) (inv.fresh j ((rw e at (sym (find-after j))) ∙ missing))
    ];
  }

  found-after : find_session s.session_id after.sessions ≡ some new
  found-after = find-after s.session_id ∙ rw ==_self

  written :
      update_session_state s.session_id to at (state_changed s.session_id s.state to now) db
      ≡ (ok new, after)
  written = unfold update_session_state in rw (update_session_state, found-after)

  Loaded-new : Loaded new after
  Loaded-new = (
    new,
    ap (λ i. find_session i after.sessions)
          (state_values-id to at row ∙ find_session-id s.session_id db.sessions row loaded)
        ∙ found-after,
    refl,
  )

-- A change of a session whose value still says its state.
pub update_session_state-Ensures :
    (s : ConversationSession) (to : ConversationState) (at : Option ℕ) (now : ℕ) (db : Db)
    → Inv db
    → Loaded s db
    → Link s.state to
    → Ensures Loaded
        (update_session_state s.session_id to at (state_changed s.session_id s.state to now) db)
update_session_state-Ensures s to at now db inv (row, found, agrees) link =
    subst (Ensures Loaded) (sym (written s row to at now db inv found agrees)) (record {
      inv = Inv-after s row to at now db inv found agrees link;
      post = λ a p.
          let q : state_values to at row ≡ a = cc in
          subst (λ (x : ConversationSession). Loaded x (after s row to at now db inv found agrees))
            q (Loaded-new s row to at now db inv found agrees);
    })
