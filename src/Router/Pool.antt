-- ===== src/Router/Pool.antt =====
-- The models that a plan selects: eligible, not excluded, and found again by their id.
use nova_project_bible.Common.{
  ◌≤◌, Uuid, Option, none, some, List, [], ◌∷◌, Bool, true, false, not, ◌==◌, ==_self, ◌≡◌, refl,
  ap, subst, arith, All, keep, cons-ne-nil, ◌≢◌, contains, map, Bool-cases, inl, inr,
}
use nova_project_bible.Router.Model.{
  unhealthy, is_unhealthy, privacy_rank, PrivacyLevel, Modality, CapabilityDimension,
  ModelDescriptor, ScoredCandidate, RoutingDecision,
}
use nova_project_bible.Router.Plan.{
  Floats, has_modality, is_available, is_eligible, eligible_candidates, candidates_pool, score,
  precedes, insert_scored, sort_scored, decision_of, plan,
}
use nova_project_bible.Router.Route.{by_id}

module _ {ℓ} {A : Type ℓ} where
  pub All-map : {P Q : A → Type 0} (xs : List A) → ((x : A) → P x → Q x) → All P xs → All Q xs
  All-map [] f h = tt
  All-map (x ∷ xs) f (p, h) = (f x p, All-map xs f h)

  All-keep :
      (P : A → Type 0) (p : A → Bool) (xs : List A)
      → All P xs
      → All (λ x. P x × (p x ≡ true)) (keep p xs)
  All-keep P p [] h = tt
  All-keep P p (x ∷ xs) (q, h) = elim (Bool-cases (p x)) [
    | inl e ↦ rw e ((q, e), All-keep P p xs h)
    | inr e ↦ rw e (All-keep P p xs h)
  ]

All-of_map :
    {A B : Type 0} (P : B → Type 0) (f : A → B) (xs : List A)
    → All (λ x. P (f x)) xs
    → All P (map f xs)
All-of_map P f [] h = tt
All-of_map P f (x ∷ xs) (p, h) = (p, All-of_map P f xs h)

module _ {F : Type 0} where
  -- The ids are a primary key.
  abbrev pub IsDistinct : List (ModelDescriptor F) → Type 0
  IsDistinct [] = Unit
  IsDistinct (m ∷ ms) = All (λ x. (x.id == m.id) ≡ false) ms × IsDistinct ms

  by_id-absent :
      (i : Uuid) (ms : List (ModelDescriptor F))
      → All (λ x. (x.id == i) ≡ false) ms
      → by_id i ms ≡ none
  unfolding by_id
  by_id-absent i [] h = refl
  by_id-absent i (m ∷ ms) (e, h) = rw (by_id-absent i ms h, e) refl

  by_id-later :
      (i : Uuid) (m x : ModelDescriptor F) (ms : List (ModelDescriptor F))
      → by_id i ms ≡ some x
      → by_id i (m ∷ ms) ≡ some x
  unfolding by_id
  by_id-later i m x ms h = rw h refl

  by_id-All : (ms : List (ModelDescriptor F)) → IsDistinct ms → All (λ m. by_id m.id ms ≡ some m) ms
  unfolding by_id
  by_id-All [] h = tt
  by_id-All (m ∷ ms) (new, h) = (
    rw (by_id-absent m.id ms new, ==_self) refl,
    All-map ms (λ x e. by_id-later x.id m x ms e) (by_id-All ms h),
  )

  -- A model that may serve the request, and was not tried.
  pub record Serves (models : List (ModelDescriptor F)) (modality : Modality)
      (privacy : PrivacyLevel) (exclude : List Uuid) (i : Uuid) : Type 0 where
    pub model : ModelDescriptor F
    pub found : by_id i models ≡ some model
    pub same_id : model.id ≡ i
    pub offers : has_modality modality model.modalities ≡ true
    pub alive : model.health_status ≢ unhealthy
    pub cleared : privacy_rank privacy ≤ privacy_rank model.max_privacy_tier
    pub untried : contains i exclude ≡ false

  is_eligible-offers :
      (modality : Modality) (privacy : PrivacyLevel) (m : ModelDescriptor F)
      → is_eligible modality privacy m ≡ true
      → has_modality modality m.modalities ≡ true
  unfolding is_eligible is_available
  is_eligible-offers modality privacy m e = grind arith

  is_eligible-alive :
      (modality : Modality) (privacy : PrivacyLevel) (m : ModelDescriptor F)
      → is_eligible modality privacy m ≡ true
      → m.health_status ≢ unhealthy
  unfolding is_eligible is_available
  is_eligible-alive modality privacy m e is_down =
      let down : is_unhealthy m.health_status ≡ true = ap is_unhealthy is_down in ground arith

  is_eligible-cleared :
      (modality : Modality) (privacy : PrivacyLevel) (m : ModelDescriptor F)
      → is_eligible modality privacy m ≡ true
      → privacy_rank privacy ≤ privacy_rank m.max_privacy_tier
  unfolding is_eligible is_available
  is_eligible-cleared modality privacy m e = ground arith

  pub pool-Serves :
      (models : List (ModelDescriptor F)) (modality : Modality) (privacy : PrivacyLevel)
      (exclude : List Uuid)
      → IsDistinct models
      → All
          (λ m. Serves models modality privacy exclude m.id)
          (candidates_pool models modality privacy exclude)
  unfolding candidates_pool eligible_candidates
  pool-Serves models modality privacy exclude distinct =
      All-map _
        (λ m ((found, eligible), untried). record {
          model = m;
          found = found;
          same_id = refl;
          offers = is_eligible-offers modality privacy m eligible;
          alive = is_eligible-alive modality privacy m eligible;
          cleared = is_eligible-cleared modality privacy m eligible;
          untried = untried_of _ untried;
        })
        (All-keep _ _ _ (All-keep _ _ models (by_id-All models distinct)))
    where
      untried_of : (b : Bool) → not b ≡ true → b ≡ false
      untried_of true e = cc
      untried_of false e = refl

module _ {F : Type 0} (floats : Floats F) where
  insert_scored-All :
      (P : ScoredCandidate F → Type 0) (c : ScoredCandidate F) (cs : List (ScoredCandidate F))
      → P c
      → All P cs
      → All P (insert_scored floats c cs)
  unfolding insert_scored
  insert_scored-All P c [] p h = (p, tt)
  insert_scored-All P c (x ∷ xs) p (q, h) = elim (Bool-cases (precedes floats x c)) [
    | inl e ↦ rw e (q, insert_scored-All P c xs p h)
    | inr e ↦ rw e (p, (q, h))
  ]

  sort_scored-All :
      (P : ScoredCandidate F → Type 0) (cs : List (ScoredCandidate F))
      → All P cs
      → All P (sort_scored floats cs)
  unfolding sort_scored
  sort_scored-All P [] h = tt
  sort_scored-All P (c ∷ cs) (p, h) =
      insert_scored-All P c (sort_scored floats cs) p (sort_scored-All P cs h)

  decision_of-All :
      (P : ScoredCandidate F → Type 0) (cs : List (ScoredCandidate F)) (fallback_from : Option Uuid)
      (constrained : Bool) (complexity : F) (d : RoutingDecision F)
      → All P cs
      → decision_of cs fallback_from constrained complexity ≡ some d
      → (c : ScoredCandidate F) × P c × (c.model_id ≡ d.selected_model_id)
  decision_of-All P [] fallback_from constrained complexity d h e = cc
  decision_of-All P (c ∷ cs) fallback_from constrained complexity d (p, h) e = (c, p, ap selected e)
    where
      selected : Option (RoutingDecision F) → Uuid
      selected none = c.model_id
      selected (some r) = r.selected_model_id

  -- What a plan selects may serve the request, and is not excluded.
  pub plan-Serves :
      (models : List (ModelDescriptor F)) (rates : Uuid → Option F) (modality : Modality)
      (dimension : CapabilityDimension) (privacy : PrivacyLevel) (complexity : F)
      (exclude : List Uuid) (fallback_from : Option Uuid) (d : RoutingDecision F)
      → IsDistinct models
      → plan floats models rates modality dimension privacy complexity exclude fallback_from
        ≡ some d
      → Serves models modality privacy exclude d.selected_model_id
  unfolding plan score
  plan-Serves models rates modality dimension privacy complexity exclude fallback_from d distinct
        e =
      let Right = λ (c : ScoredCandidate F). Serves models modality privacy exclude c.model_id in
      let scored =
        All-of_map Right (λ m. score floats m dimension (rates m.id)) _
          (pool-Serves models modality privacy exclude distinct) in
      let (c, p, same) =
        decision_of-All Right _ fallback_from _ complexity d (sort_scored-All Right _ scored) e in
      subst (Serves models modality privacy exclude) same p

  decision_of-none :
      (cs : List (ScoredCandidate F)) (fallback_from : Option Uuid) (constrained : Bool)
      (complexity : F)
      → decision_of cs fallback_from constrained complexity ≡ none
      → cs ≡ []
  decision_of-none [] fallback_from constrained complexity e = refl
  decision_of-none (c ∷ cs) fallback_from constrained complexity e = cc

  insert_scored-ne-nil :
      (c : ScoredCandidate F) (cs : List (ScoredCandidate F)) → insert_scored floats c cs ≢ []
  unfolding insert_scored
  insert_scored-ne-nil c [] e = cc
  insert_scored-ne-nil c (x ∷ xs) e = elim (Bool-cases (precedes floats x c)) [
    | inl q ↦ cons-ne-nil _ _ (rw q at e)
    | inr q ↦ cons-ne-nil _ _ (rw q at e)
  ]

  map-sort_scored-nil :
      {A : Type 0} (f : A → ScoredCandidate F) (xs : List A)
      → sort_scored floats (map f xs) ≡ []
      → xs ≡ []
  unfolding sort_scored
  map-sort_scored-nil f [] e = refl
  map-sort_scored-nil f (x ∷ xs) e =
      absurd (insert_scored-ne-nil (f x) (sort_scored floats (map f xs)) e)

  -- A plan is refused only where no model is left.
  pub plan-none :
      (models : List (ModelDescriptor F)) (rates : Uuid → Option F) (modality : Modality)
      (dimension : CapabilityDimension) (privacy : PrivacyLevel) (complexity : F)
      (exclude : List Uuid) (fallback_from : Option Uuid)
      → plan floats models rates modality dimension privacy complexity exclude fallback_from ≡ none
      → candidates_pool models modality privacy exclude ≡ []
  unfolding plan
  plan-none models rates modality dimension privacy complexity exclude fallback_from e =
      map-sort_scored-nil _ _ (decision_of-none _ fallback_from _ complexity e)
