-- ===== src/Communication/Delivery/Trail.antt =====
-- A delivery keeps the trail of every session, barged in or not.
use nova_project_bible.Common.{
  Uuid, String, ◌≡◌, refl, Option, none, some, List, [], ◌∷◌, Bool, true, false, Bool-cases, inl,
  inr, Option-cases, ◌&&◌, is_some,
}
use nova_project_bible.Communication.StateMachine.{
  ConversationState, ConversationEvent, completed, content_ready, delivered, same_state,
}
use nova_project_bible.Communication.Store.{
  ChannelType, ConversationSession, Db, Result, ok, err, M, ◌>>◌, pure, text, voice, OutboxEvent,
  invalid_transition, invalid_close_state, duplicate_key, no_result_found, missing_foreign_key,
  session_not_found, append_turn, set_interrupted_content, set_pending_questions,
  update_conversation_memory,
}
use nova_project_bible.Communication.Store.Trail.{Inv, Loaded, Ensures, >>=-Ensures}
use nova_project_bible.Communication.Store.Writes.{IsSilent}
use nova_project_bible.Communication.Store.Rows.{
  append_turn-Ensures, Keeps, update_session_column-Ensures, update_session_column-Loaded,
}
use nova_project_bible.Communication.Lifecycle.{mark_content_ready, mark_delivered}
use nova_project_bible.Communication.Lifecycle.Trail.{Any, Ensures-pure, apply_transition-Ensures}
use nova_project_bible.Communication.Sessions.Trail.{if_session-Ensures, hear_audio-Ensures}
use nova_project_bible.Communication.Delivery.{
  Annotation, Surroundings, IntentDeliveryOutcome, outbound_turn, outcome_of, speak, hand_over,
  deliver_intent, try_transition, offer_to_resume, was_barged_in, settle_delivery, remember,
  deliver_content, or_else,
}

abbrev SaysState : ConversationSession → IntentDeliveryOutcome → Db → Type 0
SaysState s o db = was_barged_in o.rejection_reason ≡ false → Loaded s db

no_event : (e : OutboxEvent) → none ≡ some e → IsSilent e
no_event e p = cc

set_interrupted_content-Ensures :
    (i : Uuid) (content : Option String) (db : Db)
    → Inv db
    → Ensures (Keeps db) (set_interrupted_content i content db)
unfolding set_interrupted_content
set_interrupted_content-Ensures i content db inv =
    update_session_column-Ensures i _ (λ s. refl) (λ s. refl) db inv

module _ {A B : Type 0} (P : A → Db → Type 0) (Q : B → Db → Type 0) (m : M A)
    (handler : ConversationState → ConversationEvent → M B) (rest : A → M B) where
  -- A step that may be refused: the handler starts where the step left off.
  try_transition-Ensures :
      (db : Db)
      → Ensures P (m db)
      → ((s : ConversationState) (e : ConversationEvent) (db' : Db)
          → Inv db'
          → Ensures Q (handler s e db'))
      → ((a : A) (db' : Db) → Inv db' → P a db' → Ensures Q (rest a db'))
      → Ensures Q (try_transition m handler rest db)
  unfolding try_transition
  try_transition-Ensures db h caught k = go (m db) h
    where
      go :
          (out : Result A × Db)
          → Ensures P out
          → Ensures Q (
              let (r, db') = out in
              elim r [
                | ok a ↦ rest a db'
                | err (invalid_transition s e) ↦ handler s e db'
                | err e ↦ (err e, db')
              ])
      go (ok a, db') h = k a db' h.inv (h.post a refl)
      go (err (invalid_transition s e), db') h = caught s e db' h.inv
      go (err (invalid_close_state s), db') h = record { inv = h.inv; post = λ a p. cc }
      go (err duplicate_key, db') h = record { inv = h.inv; post = λ a p. cc }
      go (err no_result_found, db') h = record { inv = h.inv; post = λ a p. cc }
      go (err missing_foreign_key, db') h = record { inv = h.inv; post = λ a p. cc }
      go (err session_not_found, db') h = record { inv = h.inv; post = λ a p. cc }

module _ (w : Surroundings) (s : ConversationSession) where
  -- The appended turn, and then an outcome.
  said-Ensures :
      (content : String) (validated : Bool) (o : IntentDeliveryOutcome) (db : Db)
      → Inv db
      → Loaded s db
      → Ensures
          (SaysState s)
          ((append_turn (outbound_turn w s content validated) none >> pure o) db)
  said-Ensures content validated o db inv loaded =
      >>=-Ensures (Keeps db) (SaysState s) _ _ db (append_turn-Ensures _ none db no_event inv)
        λ turn db1 inv1 keeps. Ensures-pure o (SaysState s) db1 inv1 (λ q. keeps s loaded)

  speak-Ensures :
      (content : String) (validated degraded : Bool) (db : Db)
      → Inv db
      → Loaded s db
      → Ensures (SaysState s) (speak w s content validated degraded db)
  speak-Ensures content validated degraded db inv loaded =
      elim (Bool-cases w.speak_result.barged_in) [
        | inr e ↦ unfold speak in rw (speak, e) (said-Ensures content validated _ db inv loaded)
        | inl e ↦
            unfold speak in
            rw (speak, e)
              (>>=-Ensures Any (SaysState s) _ _ db
                (if_session-Ensures s.session_id db inv _
                  (λ t l. hear_audio-Ensures t w.heard_at db inv l))
                λ x db1 inv1 l1.
                  >>=-Ensures (Keeps db1) (SaysState s) _ _ db1
                    (append_turn-Ensures _ none db1 no_event inv1)
                    λ turn db2 inv2 l2.
                      >>=-Ensures (Keeps db2) (SaysState s) _ _ db2
                        (set_interrupted_content-Ensures s.session_id (some content) db2 inv2)
                        λ y db3 inv3 l3. Ensures-pure _ (SaysState s) db3 inv3 (λ q. cc))
      ]

  hand_over-Ensures :
      (content : String) (validated degraded : Bool) (db : Db)
      → Inv db
      → Loaded s db
      → Ensures (SaysState s) (hand_over w s content validated degraded db)
  hand_over-Ensures content validated degraded db inv loaded = elim (Bool-cases w.is_connected) [
    | inr e ↦ unfold hand_over in rw (hand_over, e) (said-Ensures content validated _ db inv loaded)
    | inl e ↦ unfold hand_over in rw (hand_over, e) (by_channel s.channel)
  ]
    where
      by_channel :
          (c : ChannelType)
          → Ensures (SaysState s) (
              (elim c as (λ _. M IntentDeliveryOutcome) [
                | voice ↦ speak w s content validated degraded
                | text ↦
                    append_turn (outbound_turn w s content validated) none
                    >> pure (outcome_of w s true validated degraded none)
              ])
                db)
      by_channel voice = speak-Ensures content validated degraded db inv loaded
      by_channel text = said-Ensures content validated _ db inv loaded

  deliver_intent-Ensures :
      (content : String) (db : Db)
      → Inv db
      → Loaded s db
      → Ensures (SaysState s) (deliver_intent w s content db)
  deliver_intent-Ensures content db inv loaded = elim (Bool-cases (same_state s.state completed)) [
    | inl e ↦
        unfold deliver_intent in
        rw (deliver_intent, e) (Ensures-pure _ (SaysState s) db inv (λ q. loaded))
    | inr e ↦ elim (Option-cases w.validation) [
      | inl none_came ↦
          unfold deliver_intent in
          rw (deliver_intent, e, none_came) (hand_over-Ensures content false true db inv loaded)
      | inr (v, came) ↦ elim (Bool-cases v.passed) [
        | inl p ↦
            unfold deliver_intent in
            rw (deliver_intent, e, came, p)
              (hand_over-Ensures (or_else v.adjusted_content content) true false db inv loaded)
        | inr p ↦
            unfold deliver_intent in
            rw (deliver_intent, e, came, p) (Ensures-pure _ (SaysState s) db inv (λ q. loaded))
      ]
    ]
  ]

  offer_to_resume-Ensures :
      (pending : Option String) (o : IntentDeliveryOutcome) (db : Db)
      → Inv db
      → Ensures Any (offer_to_resume w s pending o db)
  offer_to_resume-Ensures pending o db inv = elim (Bool-cases (o.delivered && is_some pending)) [
    | inr e ↦ unfold offer_to_resume in rw (offer_to_resume, e) (Ensures-pure o Any db inv tt)
    | inl e ↦
        unfold offer_to_resume set_pending_questions in
        rw (offer_to_resume, e)
          (>>=-Ensures (Keeps db) Any _ _ db
            (update_session_column-Ensures s.session_id _ (λ k. refl) (λ k. refl) db inv)
            λ x db1 inv1 l1.
              >>=-Ensures (Keeps db1) Any _ _ db1
                (set_interrupted_content-Ensures s.session_id none db1 inv1)
                λ y db2 inv2 l2. Ensures-pure o Any db2 inv2 tt)
  ]

  settle_delivery-Ensures :
      (pending : Option String) (o : IntentDeliveryOutcome) (db : Db)
      → Inv db
      → SaysState s o db
      → Ensures Any (settle_delivery w s pending o db)
  settle_delivery-Ensures pending o db inv says =
      elim (Bool-cases (was_barged_in o.rejection_reason)) [
        | inl e ↦ unfold settle_delivery in rw (settle_delivery, e) (Ensures-pure o Any db inv tt)
        | inr e ↦
            unfold settle_delivery in
            rw (settle_delivery, e)
              (try_transition-Ensures Loaded Any (mark_delivered s w.delivered_at) _ _ db
                (unfold mark_delivered in
                  apply_transition-Ensures s delivered none w.delivered_at db inv (says e))
                (λ _ _ db1 inv1. offer_to_resume-Ensures pending o db1 inv1)
                (λ _ db1 inv1 l1. offer_to_resume-Ensures pending o db1 inv1))
      ]

remember-Ensures :
    (s : ConversationSession) (annotations : List Annotation) (db : Db)
    → Inv db
    → Loaded s db
    → Ensures Loaded (remember s annotations db)
unfolding remember update_conversation_memory
remember-Ensures s [] db inv loaded = Ensures-pure s Loaded db inv loaded
remember-Ensures s (a ∷ rest) db inv loaded = record {
  inv = (update_session_column-Ensures s.session_id _ (λ k. refl) (λ k. refl) db inv).inv;
  post = update_session_column-Loaded s.session_id _ (λ k. refl) (λ k. refl) db;
}

pub deliver_content-Ensures :
    (w : Surroundings) (content : String) (annotations : List Annotation) (s : ConversationSession)
    (db : Db)
    → Inv db
    → Loaded s db
    → Ensures Any (deliver_content w content annotations s db)
unfolding deliver_content
deliver_content-Ensures w content annotations s db inv loaded =
    >>=-Ensures Loaded Any _ _ db (remember-Ensures s annotations db inv loaded) λ t db1 inv1 l1.
      try_transition-Ensures Loaded Any (mark_content_ready t w.ready_at) _ _ db1
        (unfold mark_content_ready in
          apply_transition-Ensures t content_ready none w.ready_at db1 inv1 l1)
        (λ st ev db2 inv2. Ensures-pure _ Any db2 inv2 tt)
        (λ k db2 inv2 l2.
          >>=-Ensures (SaysState k) Any _ _ db2 (deliver_intent-Ensures w k content db2 inv2 l2)
            λ o db3 inv3 says. settle_delivery-Ensures w k t.interrupted_content o db3 inv3 says)
