-- ===== src/Communication/Lifecycle/Trail.antt =====
-- The life-cycle operations keep the trail of every session.
use nova_project_bible.Common.{
  ℕ, Uuid, String, ◌≡◌, ◌≢◌, refl, Option, none, some, Bool-cases, inl, inr, subst, Option-cases,
  ◌||◌,
}
use nova_project_bible.Communication.StateMachine.{
  ConversationEvent, idle, waiting, paused, completed, trigger, captured, close, same_state,
  transition,
}
use nova_project_bible.Communication.Store.{
  ChannelType, ConversationSession, Db, M, pure, ignore, OutboxEvent,
}
use nova_project_bible.Communication.Store.Trail.{Inv, Loaded, Ensures, >>=-Ensures}
use nova_project_bible.Communication.Store.Writes.{
  update_session_state-Ensures, enqueue_outbox-Ensures, session_created-IsSilent,
  turn_received-IsSilent, session_completed-IsSilent, IsSilent,
}
use nova_project_bible.Communication.Store.Rows.{append_turn-Ensures, create_session-Ensures, Keeps}
use nova_project_bible.Communication.Lifecycle.{
  apply_transition, open_session, trigger_if_resting, record_inbound_turn, close_session,
  recover_session_to_paused,
}

abbrev pub Any : {A : Type 0} → A → Db → Type 0
Any a db = Unit

pub Ensures-pure :
    {A : Type 0} (a : A) (Q : A → Db → Type 0) (db : Db) → Inv db → Q a db → Ensures Q (pure a db)
Ensures-pure a Q db inv q = record {
  inv = inv;
  post = λ b p. let e : a ≡ b = cc in subst (λ x. Q x db) e q;
}

pub ignore-Ensures :
    {A : Type 0} (Q : A → Db → Type 0) (m : M A) (db : Db)
    → Ensures Q (m db)
    → Ensures Any (ignore m db)
ignore-Ensures Q m db h =
    >>=-Ensures Q Any m (λ _. pure tt) db h (λ a db' inv q. Ensures-pure tt Any db' inv tt)

-- A transition that the table does not allow raises, and writes nothing.
pub apply_transition-Ensures :
    (s : ConversationSession) (e : ConversationEvent) (at : Option ℕ) (now : ℕ) (db : Db)
    → Inv db
    → Loaded s db
    → Ensures Loaded (apply_transition s e at now db)
apply_transition-Ensures s e at now db inv loaded = elim (Option-cases (transition s.state e)) [
  | inl t ↦
      unfold apply_transition in rw (apply_transition, t) (record { inv = inv; post = λ a p. cc })
  | inr (to, t) ↦
      unfold apply_transition in
      rw (apply_transition, t) (update_session_state-Ensures s to at now db inv loaded (inl (e, t)))
]

-- The one event of a write is silent.
only-IsSilent : (e : OutboxEvent) → IsSilent e → (x : OutboxEvent) → some e ≡ some x → IsSilent x
only-IsSilent e h x p = let q : e ≡ x = cc in subst IsSilent q h

module _ (s : ConversationSession) (now : ℕ) (db : Db) (inv : Inv db) (loaded : Loaded s db) where
  trigger_if_resting-Ensures : Ensures Loaded (trigger_if_resting s now db)
  trigger_if_resting-Ensures =
      elim (Bool-cases (same_state s.state idle || same_state s.state waiting)) [
        | inl e ↦
            unfold trigger_if_resting in
            rw (trigger_if_resting, e) (apply_transition-Ensures s trigger none now db inv loaded)
        | inr e ↦
            unfold trigger_if_resting in
            rw (trigger_if_resting, e) (Ensures-pure s Loaded db inv loaded)
      ]

  pub record_inbound_turn-Ensures :
      (content : String) (turn_id : Uuid)
      → Ensures Any (record_inbound_turn s content turn_id now db)
  unfolding record_inbound_turn
  record_inbound_turn-Ensures content turn_id =
      >>=-Ensures Loaded Any _ _ db trigger_if_resting-Ensures λ t db1 inv1 l1.
        >>=-Ensures Loaded Any _ _ db1 (apply_transition-Ensures t captured none now db1 inv1 l1)
          λ h db2 inv2 l2.
            >>=-Ensures (Keeps db2) Any _ _ db2
              (append_turn-Ensures _ _ db2 (only-IsSilent _ (turn_received-IsSilent _ _ _ _ _ _))
                inv2)
              λ turn db3 inv3 l3. Ensures-pure (h, turn) Any db3 inv3 tt

  pub close_session-Ensures : Ensures Any (close_session s now db)
  close_session-Ensures = elim (Bool-cases (same_state s.state waiting)) [
    | inr e ↦ unfold close_session in rw (close_session, e) (record { inv = inv; post = λ a p. tt })
    | inl e ↦
        unfold close_session in
        rw (close_session, e)
          (>>=-Ensures Loaded Any _ _ db
            (apply_transition-Ensures s close (some now) now db inv loaded)
            λ u db1 inv1 l1.
              >>=-Ensures Any Any _ _ db1
                (enqueue_outbox-Ensures _ (λ _. Unit {0}) db1
                  (session_completed-IsSilent _ _ _ _ _ _) inv1 tt)
                λ x db2 inv2 l2. Ensures-pure u Any db2 inv2 tt)
  ]

  pub recover_session_to_paused-Ensures :
      s.state ≢ completed → Ensures Any (recover_session_to_paused s now db)
  recover_session_to_paused-Ensures not_done = elim (Bool-cases (same_state s.state paused)) [
    | inl e ↦
        unfold recover_session_to_paused in
        rw (recover_session_to_paused, e) (record { inv = inv; post = λ a p. tt })
    | inr e ↦
        unfold recover_session_to_paused in
        rw (recover_session_to_paused, e)
          (record {
            inv =
                (update_session_state-Ensures s paused none now db inv loaded
                  (inr (refl, not_done))).inv;
            post = λ a p. tt;
          })
  ]

pub open_session-Ensures :
    (i u : Uuid) (c : ChannelType) (d : Uuid) (o : Option String) (now : ℕ) (db : Db)
    → Inv db
    → Ensures Any (open_session i u c d o now db)
unfolding open_session
open_session-Ensures i u c d o now db inv =
    >>=-Ensures Any Any _ _ db (create_session-Ensures _ db refl inv) λ s db1 inv1 l1.
      >>=-Ensures Any Any _ _ db1
        (enqueue_outbox-Ensures _ (λ _. Unit {0}) db1 (session_created-IsSilent _ _ _ _ _) inv1 tt)
        λ x db2 inv2 l2. Ensures-pure s Any db2 inv2 tt
