-- ===== src/Communication/Store/Rows.antt =====
-- New rows, appended turns and other columns keep the trail of every session.
use nova_project_bible.Common.{
  Uuid, ◌≡◌, refl, sym, ap, ◌∙◌, Option, none, some, [], ◌∷◌, ◌++◌, Bool, true, false, ◌==◌,
  Bool-cases, inl, inr, ==_iff, subst, Option-cases,
}
use nova_project_bible.Communication.StateMachine.{idle}
use nova_project_bible.Communication.Store.{
  ConversationSession, ConversationTurn, OutboxEvent, Db, find_session, update_session,
  create_session, append_turn, update_session_column, with_turn, enqueued, ok, err, no_result_found,
}
use nova_project_bible.Communication.Store.Trail.{
  Loaded, find_session-id, trail, Chain, Inv, find_session-update, find_session-append, Ensures,
}
use nova_project_bible.Communication.Store.Writes.{IsSilent, enqueue-Inv}

-- An update of other columns keeps every trail.
update_session-Inv :
    (i : Uuid) (f : ConversationSession → ConversationSession) (db : Db)
    → ((s : ConversationSession) → (f s).session_id ≡ s.session_id)
    → ((s : ConversationSession) → (f s).state ≡ s.state)
    → Inv db
    → Inv (record db { sessions = update_session i f db.sessions })
update_session-Inv i f db same keeps inv = record {
  traced = λ j k found. elim (Option-cases (find_session j db.sessions)) [
    | inl e ↦
        let p : ◌≡◌ {A = Option ConversationSession} none (some k) = elim (Bool-cases (i == j)) [
          | inl c ↦ (rw (find_session-update i j f db.sessions same, c, e) at found)
          | inr c ↦ (rw (find_session-update i j f db.sessions same, c, e) at found)
        ] in
        cc
    | inr (x, e) ↦ elim (Bool-cases (i == j)) [
      | inl c ↦
          let p : some (f x) ≡ some k =
            (rw (find_session-update i j f db.sessions same, c, e) at found) in
          let q : f x ≡ k = cc in
          subst (λ (y : ConversationSession). Chain idle (trail j db.outbox) y.state) q
            (rw (keeps x) (inv.traced j x e))
      | inr c ↦
          let p : some x ≡ some k =
            (rw (find_session-update i j f db.sessions same, c, e) at found) in
          let q : x ≡ k = cc in
          subst (λ (y : ConversationSession). Chain idle (trail j db.outbox) y.state) q
            (inv.traced j x e)
    ]
  ];
  fresh = λ j missing. elim (Option-cases (find_session j db.sessions)) [
    | inl e ↦ inv.fresh j e
    | inr (x, e) ↦
        let p : ◌≡◌ {A = Bool} true false = elim (Bool-cases (i == j)) [
          | inl c ↦
              let p : ◌≡◌ {A = Option ConversationSession} (some (f x)) none =
                (rw (find_session-update i j f db.sessions same, c, e) at missing) in
              cc
          | inr c ↦
              let p : ◌≡◌ {A = Option ConversationSession} (some x) none =
                (rw (find_session-update i j f db.sessions same, c, e) at missing) in
              cc
        ] in
        cc
  ];
}

-- What a write of other columns leaves: every loaded value still says its state.
abbrev pub Keeps : {A : Type 0} → Db → A → Db → Type 0
Keeps db a db' = (s : ConversationSession) → Loaded s db → Loaded s db'

module _ (i : Uuid) (f : ConversationSession → ConversationSession)
    (same : (s : ConversationSession) → (f s).session_id ≡ s.session_id)
    (keeps : (s : ConversationSession) → (f s).state ≡ s.state) (db : Db) where
  update_session-Keeps :
      (s : ConversationSession)
      → Loaded s db
      → Loaded s (record db { sessions = update_session i f db.sessions })
  update_session-Keeps s (row, found, agrees) = elim (Bool-cases (i == s.session_id)) [
    | inl c ↦ (
      f row,
      find_session-update i s.session_id f db.sessions same ∙ rw (c, found),
      keeps row ∙ agrees,
    )
    | inr c ↦ (row, find_session-update i s.session_id f db.sessions same ∙ rw (c, found), agrees)
  ]

  -- A write of one row's other columns.
  pub update_session_column-Ensures : Inv db → Ensures (Keeps db) (update_session_column i f db)
  unfolding update_session_column
  update_session_column-Ensures inv =
      elim (Option-cases (find_session i (update_session i f db.sessions))) [
        | inl e ↦ rw (update_session_column, e) (record { inv = inv; post = λ a p. cc })
        | inr (row, e) ↦
            rw (update_session_column, e)
              (record {
                inv = update_session-Inv i f db same keeps inv;
                post = λ a p. update_session-Keeps;
              })
      ]

  -- Its result is the row, which says the state it has now.
  pub update_session_column-Loaded :
      (a : ConversationSession)
      → (update_session_column i f db).0 ≡ ok a
      → Loaded a (update_session_column i f db).1
  unfolding update_session_column
  update_session_column-Loaded a p =
      elim (Option-cases (find_session i (update_session i f db.sessions))) [
        | inl e ↦ let q : err no_result_found ≡ ok a = (rw (update_session_column, e) at p) in cc
        | inr (row, e) ↦
            let q : ok row ≡ ok a = (rw (update_session_column, e) at p) in
            let r : row ≡ a = cc in
            rw (update_session_column, e)
              (subst
                (λ (x : ConversationSession).
                  Loaded x (record db { sessions = update_session i f db.sessions }))
                r
                (
                  row,
                  ap (λ j. find_session j (update_session i f db.sessions))
                        (find_session-id i (update_session i f db.sessions) row e)
                      ∙ e,
                  refl,
                ))
      ]

-- An appended turn changes no state.
pub append_turn-Ensures :
    (turn : ConversationTurn) (event : Option OutboxEvent) (db : Db)
    → ((e : OutboxEvent) → event ≡ some e → IsSilent e)
    → Inv db
    → Ensures (Keeps db) (append_turn turn event db)
unfolding append_turn
append_turn-Ensures turn event db silent inv =
    elim (Option-cases (find_session turn.session_id db.sessions)) [
      | inl e ↦ rw (append_turn, e) (record { inv = inv; post = λ a p. cc })
      | inr (row, e) ↦
          rw (append_turn, e)
            (record {
              inv = enqueued-Inv event silent;
              post = λ a p. update_session-Keeps i (with_turn turn) (λ s. refl) (λ s. refl) db;
            })
    ]
  where
    i : Uuid
    i = turn.session_id

    added : Db
    added = record db { sessions = update_session turn.session_id (with_turn turn) db.sessions }

    added_Inv : Inv added
    added_Inv = update_session-Inv turn.session_id (with_turn turn) db (λ s. refl) (λ s. refl) inv

    enqueued-Inv :
        (event : Option OutboxEvent)
        → ((e : OutboxEvent) → event ≡ some e → IsSilent e)
        → Inv (record added { outbox = enqueued event db.outbox })
    enqueued-Inv none silent = added_Inv
    enqueued-Inv (some e) silent = enqueue-Inv added e (silent e refl) added_Inv

added-Inv :
    (s : ConversationSession) (db : Db)
    → find_session s.session_id db.sessions ≡ none
    → s.state ≡ idle
    → Inv db
    → Inv (record db { sessions = db.sessions ++ s ∷ [] })
added-Inv s db absent is_idle inv = record {
  traced = λ j k found. elim (Bool-cases (s.session_id == j)) [
    | inl c ↦
        let p : some s ≡ some k = (rw (find_session-append j db.sessions s absent, c) at found) in
        let q : s ≡ k = cc in
        let same : s.session_id ≡ j = (==_iff s.session_id j).0 c in
        subst (λ (y : ConversationSession). Chain idle (trail j db.outbox) y.state) q
          (rw (inv.fresh j (ap (λ x. find_session x db.sessions) (sym same) ∙ absent))
            (sym is_idle))
    | inr c ↦ inv.traced j k (rw (find_session-append j db.sessions s absent, c) at found)
  ];
  fresh = λ j missing. elim (Bool-cases (s.session_id == j)) [
    | inl c ↦
        let p : ◌≡◌ {A = Option ConversationSession} (some s) none =
          (rw (find_session-append j db.sessions s absent, c) at missing) in
        cc
    | inr c ↦ inv.fresh j (rw (find_session-append j db.sessions s absent, c) at missing)
  ];
}

-- A new session is idle and has no trail.
pub create_session-Ensures :
    (s : ConversationSession) (db : Db)
    → s.state ≡ idle
    → Inv db
    → Ensures (λ _ _. Unit {0}) (create_session s db)
create_session-Ensures s db is_idle inv =
    elim (Option-cases (find_session s.session_id db.sessions)) [
      | inr (x, e) ↦
          unfold create_session in rw (create_session, e) (record { inv = inv; post = λ a p. tt })
      | inl e ↦
          unfold create_session in
          rw (create_session, e) (record { inv = added-Inv s db e is_idle inv; post = λ a p. tt })
    ]
