-- ===== src/Communication/Sessions/Trail.antt =====
-- Steps on a session as it is stored keep the trail of every session.
use nova_project_bible.Common.{
  ℕ, Uuid, ◌≡◌, refl, ap, ◌∙◌, Option, none, some, true, false, Bool-cases, inl, inr, subst,
}
use nova_project_bible.Communication.StateMachine.{speaking, completed, barge_in, same_state}
use nova_project_bible.Communication.Store.{
  ConversationSession, Db, M, ◌>>=◌, pure, get_session, find_session,
}
use nova_project_bible.Communication.Store.Trail.{
  Inv, Loaded, find_session-id, Ensures, >>=-Ensures,
}
use nova_project_bible.Communication.Lifecycle.{mark_barge_in, recover_session_to_paused}
use nova_project_bible.Communication.Lifecycle.Trail.{
  Any, Ensures-pure, ignore-Ensures, apply_transition-Ensures, recover_session_to_paused-Ensures,
}
use nova_project_bible.Communication.Sessions.{
  get_session_or_404, if_session, disconnect_session, hear_audio,
}

module _ (s : ConversationSession) (now : ℕ) (db : Db) (inv : Inv db) (loaded : Loaded s db) where
  pub disconnect_session-Ensures : Ensures Any (disconnect_session s now db)
  disconnect_session-Ensures = elim (Bool-cases (same_state s.state completed)) [
    | inl e ↦
        unfold disconnect_session in
        rw (disconnect_session, e) (record { inv = inv; post = λ a p. tt })
    | inr e ↦
        unfold disconnect_session in
        rw (disconnect_session, e)
          (ignore-Ensures Any (recover_session_to_paused s now) db (
            recover_session_to_paused-Ensures s now db inv loaded (λ q.
              let p : same_state completed completed ≡ false =
                subst (λ k. same_state k completed ≡ false) q e in
              let impossible : true ≡ false = (unfold same_state in p) in cc)))
  ]

  pub hear_audio-Ensures : Ensures Any (hear_audio s now db)
  hear_audio-Ensures = elim (Bool-cases (same_state s.state speaking)) [
    | inr e ↦ unfold hear_audio in rw (hear_audio, e) (record { inv = inv; post = λ a p. tt })
    | inl e ↦
        unfold hear_audio in
        rw (hear_audio, e)
          (ignore-Ensures Loaded (mark_barge_in s now) db
            (unfold mark_barge_in in apply_transition-Ensures s barge_in none now db inv loaded))
  ]

-- What `get_session` returns, and that it writes nothing.
abbrev Found : Uuid → Db → Option ConversationSession → Db → Type 0
Found i db found db' = (find_session i db.sessions ≡ found) × (db ≡ db')

get_session-Ensures : (i : Uuid) (db : Db) → Inv db → Ensures (Found i db) (get_session i db)
unfolding get_session
get_session-Ensures i db inv = record { inv = inv; post = λ a p. (cc, refl) }

-- A step on a session as it is stored.
module _ {A : Type 0} (Q : A → Db → Type 0) (i : Uuid) (db : Db) (inv : Inv db) (absent : M A)
    (step : ConversationSession → M A) (nothing : Ensures Q (absent db))
    (keeps : (s : ConversationSession) → Loaded s db → Ensures Q (step s db)) where
  found-Ensures :
      (found : Option ConversationSession)
      → find_session i db.sessions ≡ found
      → Ensures Q ((elim found as (λ _. M A) [ none ↦ absent | some s ↦ step s ]) db)
  found-Ensures none e = nothing
  found-Ensures (some s) e =
      keeps s
        (s, ap (λ j. find_session j db.sessions) (find_session-id i db.sessions s e) ∙ e, refl)

  loaded-Ensures :
      Ensures Q ((get_session i >>= λ found. elim found [ none ↦ absent | some s ↦ step s ]) db)
  loaded-Ensures =
      >>=-Ensures (Found i db) Q _ _ db (get_session-Ensures i db inv) λ found db' inv' at.
        subst (λ d. Ensures Q ((elim found as (λ _. M A) [ none ↦ absent | some s ↦ step s ]) d))
          at.1 (found-Ensures found at.0)

pub or_404-Ensures :
    (i : Uuid) (db : Db) (step : ConversationSession → M (Unit {0}))
    → Inv db
    → ((s : ConversationSession) (db' : Db) → Inv db' → Loaded s db' → Ensures Any (step s db'))
    → Ensures Any ((get_session_or_404 i >>= step) db)
or_404-Ensures i db step inv keeps = >>=-Ensures Loaded Any _ _ db loaded keeps
  where
    loaded : Ensures Loaded (get_session_or_404 i db)
    loaded =
        unfold get_session_or_404 in
        loaded-Ensures Loaded i db inv _ _ (record { inv = inv; post = λ a p. cc })
          (λ s l. Ensures-pure s Loaded db inv l)

module _ (i : Uuid) (db : Db) (inv : Inv db) (step : ConversationSession → M (Unit {0})) where
  pub if_session-Ensures :
      ((s : ConversationSession) → Loaded s db → Ensures Any (step s db))
      → Ensures Any (if_session i step db)
  unfolding if_session
  if_session-Ensures keeps =
      loaded-Ensures Any i db inv (pure tt) step (Ensures-pure tt Any db inv tt) keeps
