-- ===== src/Router/Perceive/Careful.antt =====
-- A biometric sample reaches only models that are cleared for it, and none of them twice.
use nova_project_bible.Common.{
  ℕ, zero, suc, ◌+◌, ◌≤◌, Uuid, Option, none, some, false, List, [], ◌∷◌, ◌++◌, ◌≡◌, refl, ap, ◌∙◌,
  arith, length, length-append, append_assoc, Option-cases, inl, inr,
}
use nova_project_bible.Common.Effects.{
  Result, ok, err, ◌>>=◌, pure, raise, Gives, Gives-ok, Gives-raised, Gives-then, Gives-either,
}
use nova_project_bible.Router.Model.{
  PrivacyLevel, Modality, ModelDescriptor, RoutingDecision, UsageRecord, UsageEvent, request_failed,
  request_completed,
}
use nova_project_bible.Router.Plan.{Floats}
use nova_project_bible.Router.Route.{
  Error, fallback_exhausted, State, Connector, GetConnector, Planner,
}
use nova_project_bible.Router.Record.{Services, Caller, perf_counter, record_usage, latency}
use nova_project_bible.Router.Perceive.{
  given_up_record, perceived_record, give_up, record_answer, call_and_record, perceive_from,
}
use nova_project_bible.Router.Pool.{Serves}
use nova_project_bible.Router.Attempts.{Trail, try_next}

module _ {W F : Type 0} (floats : Floats F) (services : Services W F) (called : List Uuid) where
  -- These keep the log of calls.
  abbrev Keeps : {A : Type 0} → Result (Error F) A × State W F → Type 0
  Keeps {A} out = Gives {A = A} (λ _ t. t.called ≡ called) (λ _ t. t.called ≡ called) out

  record_usage-Keeps :
      (r : UsageRecord F) (event : UsageEvent) (s : State W F)
      → s.called ≡ called
      → Keeps (record_usage floats services r event s)
  unfolding record_usage
  record_usage-Keeps r event s h = elim (Option-cases (services.record_usage r event s.world).0) [
    | inl e ↦ rw (record_usage, e) (Gives-raised h)
    | inr (u, e) ↦ rw (record_usage, e) (Gives-ok _ _ _ _ h)
  ]

  give_up-Keeps :
      {R : Type 0} (caller : Caller) (max_attempts : ℕ) (begin : F) (tried : List Uuid)
      (d : RoutingDecision F) (s : State W F)
      → s.called ≡ called
      → Keeps (give_up floats services {R = R} caller max_attempts begin tried d s)
  unfolding give_up perf_counter ◌>>=◌
  give_up-Keeps caller max_attempts begin tried d s h =
      let (now, w) = services.perf_counter s.world in
      Gives-then {f = λ _. raise (fallback_exhausted d.candidates)}
        (record_usage-Keeps
          (given_up_record floats services caller max_attempts tried
            (latency floats services begin now))
          (request_failed caller.correlation_id tried) (record s { world = w }) h)
        λ u t p. Gives-raised p

  record_answer-Keeps :
      {R : Type 0} (caller : Caller) (begin : F) (model : ModelDescriptor F) (result : R)
      (s : State W F)
      → s.called ≡ called
      → Keeps (record_answer floats services caller begin model result s)
  unfolding record_answer perf_counter ◌>>=◌
  record_answer-Keeps caller begin model result s h =
      let (now, w) = services.perf_counter s.world in
      Gives-then {f = λ _. pure (model, result)}
        (record_usage-Keeps
          (perceived_record floats services caller model (latency floats services begin now))
          (request_completed caller.correlation_id model.id 0 false) (record s { world = w }) h)
        λ u t p. Gives-ok _ _ (model, result) t p

module _ {W F R : Type 0} (floats : Floats F) (services : Services W F) where
  call_and_record-called :
      (caller : Caller) (begin : F) (connector : Connector W R) (model : ModelDescriptor F)
      (s : State W F)
      → (call_and_record floats services caller begin connector model s).1.called
        ≡ s.called ++ model.id ∷ []
  unfolding call_and_record
  call_and_record-called caller begin connector model s =
      let w = (connector s.world).1 in
      let after : State W F = record s { world = w; called = s.called ++ model.id ∷ [] } in
      elim (Option-cases (connector s.world).0) [
        | inl e ↦ rw (call_and_record, e) refl
        | inr (result, e) ↦
            rw (call_and_record, e)
              (split (record_answer floats services caller begin model result after) (
                Gives-either _ _ (
                  record_answer-Keeps floats services after.called caller begin model result after
                    refl)))
      ]
    where
      split :
          (out : Result (Error F) (ModelDescriptor F × R) × State W F)
          → out.1.called ≡ s.called ++ model.id ∷ []
          → (let (r, t) = out in
              elim r as (λ _. Option (ModelDescriptor F × R) × State W F) [
                | ok reply ↦ (some reply, t)
                | err _ ↦ (none, t)
              ]).1.called
            ≡ s.called ++ model.id ∷ []
      split (ok reply, t) h = h
      split (err e, t) h = h

-- The models called, in order, are at most as many as the attempts.
pub record Perceived {W F R : Type 0} (models : List (ModelDescriptor F)) (modality : Modality)
    (privacy : PrivacyLevel) (max_attempts : ℕ) (before : List Uuid)
    (out : Result (Error F) (ModelDescriptor F × R) × State W F) : Type 0 where
  pub tried : List Uuid
  pub grows : out.1.called ≡ before ++ tried
  pub trail : Trail models modality privacy tried
  pub bounded : length tried ≤ max_attempts

module _ {W F R : Type 0} (floats : Floats F) (services : Services W F)
    (models : List (ModelDescriptor F)) (modality : Modality) (privacy : PrivacyLevel)
    (planner : Planner F) (get_connector : GetConnector W F R) (caller : Caller) (max_attempts : ℕ)
    (begin : F) (before : List Uuid)
    (sound : (exclude : List Uuid) (fallback_from : Option Uuid) (d : RoutingDecision F)
      → planner exclude fallback_from ≡ some d
      → Serves models modality privacy exclude d.selected_model_id) where
  given_up :
      (tried : List Uuid) (d : RoutingDecision F) (s : State W F)
      → s.called ≡ before ++ tried
      → Trail models modality privacy tried
      → length tried ≤ max_attempts
      → Perceived {R = R} models modality privacy max_attempts before
          (give_up floats services caller max_attempts begin tried d s)
  given_up tried d s grows trail bounded =
      let kept =
        give_up-Keeps floats services s.called {R = R} caller max_attempts begin tried d s refl in
      record {
        tried = tried;
        grows = Gives-either (λ t. t.called ≡ s.called) _ kept ∙ grows;
        trail = trail;
        bounded = bounded;
      }

  pub perceive_from-Perceived :
      (remaining : ℕ) (tried : List Uuid) (d : RoutingDecision F) (s : State W F)
      → s.called ≡ before ++ tried
      → Trail models modality privacy tried
      → remaining + length tried ≡ max_attempts
      → Serves models modality privacy tried d.selected_model_id
      → Perceived models modality privacy max_attempts before (
          perceive_from floats services models planner get_connector caller max_attempts begin
            remaining tried d s)
  unfolding perceive_from
  perceive_from-Perceived zero tried d s grows trail room serves =
      given_up tried d s grows trail (omega (arith, room))
  perceive_from-Perceived (suc remaining) tried d s grows trail room serves =
      let v = (get_connector serves.model s.world).1 in
      let obtained : State W F = record s { world = v } in
      let tried_now = tried ++ d.selected_model_id ∷ [] in
      elim (Option-cases (get_connector serves.model s.world).0) [
        | inl g ↦
            rw (perceive_from, serves.found, g)
              (record {
                tried = tried;
                grows = grows;
                trail = trail;
                bounded = omega (arith, room);
              })
        | inr (connector, g) ↦
            let out =
              call_and_record floats services caller begin connector serves.model obtained in
            let grows_now : out.1.called ≡ before ++ tried_now =
              call_and_record-called floats services caller begin connector serves.model obtained
              ∙ ap (λ l. l ++ serves.model.id ∷ []) grows
              ∙ ap (λ i. (before ++ tried) ++ i ∷ []) serves.same_id
              ∙ append_assoc before tried (d.selected_model_id ∷ []) in
            let trail_now = try_next trail serves in
            let room_now : remaining + length tried_now ≡ max_attempts =
              omega (arith, length-append tried (d.selected_model_id ∷ []), room) in
            elim (Option-cases out.0) [
              | inr (answer, e) ↦
                  rw (perceive_from, serves.found, g, e)
                    (record {
                      tried = tried_now;
                      grows = grows_now;
                      trail = trail_now;
                      bounded = omega (arith, room_now);
                    })
              | inl e ↦ elim (Option-cases (planner tried_now (some d.selected_model_id))) [
                | inl q ↦
                    rw (perceive_from, serves.found, g, e, q)
                      (given_up tried_now d out.1 grows_now trail_now (omega (arith, room_now)))
                | inr (next, q) ↦
                    rw (perceive_from, serves.found, g, e, q)
                      (perceive_from-Perceived remaining tried_now next out.1 grows_now trail_now
                        room_now (sound tried_now _ next q))
              ]
            ]
      ]
