-- ===== src/Router/Attempts.antt =====
-- The attempts of a route: which models are called, and where it gives up.
use nova_project_bible.Common.{
  ℕ, zero, suc, ◌+◌, ◌≤◌, Uuid, Option, none, some, List, [], ◌∷◌, ◌++◌, ◌≡◌, ◌⊎◌, refl, sym, ap,
  subst, ◌∙◌, arith, length, length-append, append_assoc, append-nil, Option-cases, inl, inr,
}
use nova_project_bible.Common.Effects.{Result, ok, err}
use nova_project_bible.Router.Model.{
  PrivacyLevel, Modality, ModelDescriptor, ScoredCandidate, RoutingDecision,
}
use nova_project_bible.Router.Route.{
  Error, fallback_exhausted, connector_unavailable, State, GetConnector, Planner, ExecutionOutcome,
  attempt_from, route,
}
use nova_project_bible.Router.Pool.{Serves}

module _ {F : Type 0} (models : List (ModelDescriptor F)) (modality : Modality)
    (privacy : PrivacyLevel) where
  -- The models called, in order: each may serve the request, and was not called before.
  pub data Trail : List Uuid → Type 0 where
    start : Trail []
    try_next :
        {tried : List Uuid} {i : Uuid}
        → Trail tried
        → Serves models modality privacy tried i
        → Trail (tried ++ i ∷ [])

  -- Attempts or models have run out.
  pub record Exhausted (planner : Planner F) (max_attempts : ℕ) (tried : List Uuid) (e : Error F)
      : Type 0 where
    pub attempted : List (ScoredCandidate F)
    pub is_exhausted : e ≡ fallback_exhausted attempted
    pub ran_out :
        (length tried ≡ max_attempts)
        ⊎ ((fallback_from : Option Uuid) × (planner tried fallback_from ≡ none))

  -- `get_connector` has refused the next model.
  pub record Refused {W R : Type 0} (get_connector : GetConnector W F R) (tried : List Uuid)
      (e : Error F) : Type 0 where
    pub is_unavailable : e ≡ connector_unavailable
    pub next : Uuid
    pub serves : Serves models modality privacy tried next
    pub world : W
    pub refuses : (get_connector serves.model world).0 ≡ none

  pub record Routed {W R : Type 0} (planner : Planner F) (get_connector : GetConnector W F R)
      (max_attempts : ℕ) (before : List Uuid)
      (out : Result (Error F) (ExecutionOutcome F R) × State W F) : Type 0 where
    pub tried : List Uuid
    pub grows : out.1.called ≡ before ++ tried
    pub trail : Trail tried
    pub bounded : length tried ≤ max_attempts
    pub answered : (o : ExecutionOutcome F R) → out.0 ≡ ok o → length tried ≡ suc o.retry_count
    pub gave_up :
        (e : Error F)
        → out.0 ≡ err e
        → Exhausted planner max_attempts tried e ⊎ Refused get_connector tried e

  module _ {W R : Type 0} (planner : Planner F) (get_connector : GetConnector W F R)
      (max_attempts : ℕ) (before : List Uuid)
      (sound : (exclude : List Uuid) (fallback_from : Option Uuid) (d : RoutingDecision F)
        → planner exclude fallback_from ≡ some d
        → Serves models modality privacy exclude d.selected_model_id) where
    raised :
        (tried : List Uuid) (x : Error F) (s : State W F)
        → s.called ≡ before ++ tried
        → Trail tried
        → length tried ≤ max_attempts
        → Exhausted planner max_attempts tried x ⊎ Refused get_connector tried x
        → Routed planner get_connector max_attempts before (err x, s)
    raised tried x s grows trail bounded why = record {
      tried = tried;
      grows = grows;
      trail = trail;
      bounded = bounded;
      answered = λ o e. cc;
      gave_up = λ e q.
          let same : x ≡ e = err_of q in
          subst (λ y. Exhausted planner max_attempts tried y ⊎ Refused get_connector tried y) same
            why;
    }
      where
        err_of :
            {e : Error F}
            → ◌≡◌ {A = Result (Error F) (ExecutionOutcome F R)} (err x) (err e)
            → x ≡ e
        err_of q = cc

    exhausted :
        (tried : List Uuid) (candidates : List (ScoredCandidate F)) (s : State W F)
        → s.called ≡ before ++ tried
        → Trail tried
        → length tried ≤ max_attempts
        → (length tried ≡ max_attempts)
          ⊎ ((fallback_from : Option Uuid) × (planner tried fallback_from ≡ none))
        → Routed planner get_connector max_attempts before (err (fallback_exhausted candidates), s)
    exhausted tried candidates s grows trail bounded ran_out =
        raised tried (fallback_exhausted candidates) s grows trail bounded
          (inl (record { attempted = candidates; is_exhausted = refl; ran_out = ran_out }))

    retries : Result (Error F) (ExecutionOutcome F R) → ℕ
    retries (ok o) = o.retry_count
    retries (err e) = 0

    replied :
        (tried : List Uuid) (o : ExecutionOutcome F R) (s : State W F)
        → s.called ≡ before ++ tried
        → Trail tried
        → length tried ≤ max_attempts
        → length tried ≡ suc o.retry_count
        → Routed planner get_connector max_attempts before (ok o, s)
    unfolding retries
    replied tried o s grows trail bounded count = record {
      tried = tried;
      grows = grows;
      trail = trail;
      bounded = bounded;
      answered = λ p e. count ∙ ap (λ r. suc (retries r)) e;
      gave_up = λ e q. cc;
    }

    attempt_from-Routed :
        (remaining attempt : ℕ) (tried : List Uuid) (d : RoutingDecision F) (s : State W F)
        → s.called ≡ before ++ tried
        → Trail tried
        → length tried ≡ attempt
        → remaining + attempt ≡ max_attempts
        → Serves models modality privacy tried d.selected_model_id
        → Routed planner get_connector max_attempts before
            (attempt_from models planner get_connector remaining attempt tried d s)
    unfolding attempt_from
    attempt_from-Routed zero attempt tried d s grows trail count room serves =
        exhausted tried d.candidates s grows trail (omega (arith, count, room))
          (inl (omega (arith, count, room)))
    attempt_from-Routed (suc remaining) attempt tried d s grows trail count room serves =
        let v = (get_connector serves.model s.world).1 in
        let tried_now = tried ++ d.selected_model_id ∷ [] in
        let called_now = s.called ++ serves.model.id ∷ [] in
        let grows_now : called_now ≡ before ++ tried_now =
          ap (λ l. l ++ serves.model.id ∷ []) grows
          ∙ ap (λ i. (before ++ tried) ++ i ∷ []) serves.same_id
          ∙ append_assoc before tried (d.selected_model_id ∷ []) in
        let trail_now = try_next trail serves in
        let count_now : length tried_now ≡ suc attempt =
          omega (arith, length-append tried (d.selected_model_id ∷ []), count) in
        let bounded_now : length tried_now ≤ max_attempts = omega (arith, count_now, room) in
        elim (Option-cases (get_connector serves.model s.world).0) [
          | inl g ↦
              rw (attempt_from, serves.found, g)
                (raised tried connector_unavailable (record s { world = v }) grows trail
                  (omega (arith, count, room))
                  (inr (record {
                    is_unavailable = refl;
                    next = d.selected_model_id;
                    serves = serves;
                    world = s.world;
                    refuses = g;
                  })))
          | inr (connector, g) ↦
              let after : State W F = record s { world = (connector v).1; called = called_now } in
              elim (Option-cases (connector v).0) [
                | inr (result, e) ↦
                    rw (attempt_from, serves.found, g, e)
                      (replied tried_now _ after grows_now trail_now bounded_now count_now)
                | inl e ↦ elim (Option-cases (planner tried_now (some d.selected_model_id))) [
                  | inl q ↦
                      rw (attempt_from, serves.found, g, e, q)
                        (exhausted tried_now d.candidates after grows_now trail_now bounded_now
                          (inr (some d.selected_model_id, q)))
                  | inr (next, q) ↦
                      rw (attempt_from, serves.found, g, e, q)
                        (attempt_from-Routed remaining (suc attempt) tried_now next after grows_now
                          trail_now count_now (omega (arith, room)) (sound tried_now _ next q))
                ]
              ]
        ]

    pub route-Routed :
        (s : State W F)
        → s.called ≡ before
        → Routed planner get_connector max_attempts before
            (route models planner get_connector max_attempts s)
    unfolding route
    route-Routed s start_here = elim (Option-cases (planner [] none)) [
      | inl e ↦
          rw (route, e)
            (exhausted [] [] s (start_here ∙ sym (append-nil before)) start (omega arith)
              (inr (none, e)))
      | inr (d, e) ↦
          rw (route, e)
            (attempt_from-Routed max_attempts 0 [] d s (start_here ∙ sym (append-nil before)) start
              refl (omega arith) (sound [] none d e))
    ]
