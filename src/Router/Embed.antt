-- ===== src/Router/Embed.antt =====
-- domain/router.py: the embedding routes, ranked by cost and latency alone.
pub mod Cheapest
use nova_project_bible.Common.{
  ℕ, zero, suc, Uuid, Option, none, some, List, [], ◌∷◌, ◌++◌, Bool, true, false, ltb, not, keep,
  map, if◌then◌else◌, contains,
}
use nova_project_bible.Common.Effects.{Result, ok, err, M, ◌>>=◌, ◌>>◌, pure}
use nova_project_bible.Router.Model.{
  PrivacyLevel, embedding, ModelDescriptor, UsageOutcome, request_completed,
}
use nova_project_bible.Router.Plan.{Floats, candidates_pool, cost_per_token, latency_of, total}
use nova_project_bible.Router.Route.{
  Error, fallback_exhausted, connector_unavailable, State, GetConnector,
}
use nova_project_bible.Router.Record.{
  Services, Caller, approximate_token_count, attempt, perf_counter, record_usage, bare_decision,
  answered_record, latency, record_failure,
}

module _ {F : Type 0} (floats : Floats F) where
  -- The order of (*_embedding_score(m), str(m.id)).
  unfoldable pub cheaper : ModelDescriptor F → ModelDescriptor F → Bool
  cheaper a b =
      if floats.eq (cost_per_token floats a) (cost_per_token floats b)
      then if floats.eq (latency_of floats a) (latency_of floats b)
        then ltb a.id b.id
        else floats.lt (latency_of floats a) (latency_of floats b)
      else floats.lt (cost_per_token floats a) (cost_per_token floats b)

  unfoldable pub insert_model :
      ModelDescriptor F → List (ModelDescriptor F) → List (ModelDescriptor F)
  insert_model c [] = c ∷ []
  insert_model c (x ∷ xs) =
      let rest = insert_model c xs in if cheaper x c then x ∷ rest else c ∷ x ∷ xs

  unfoldable pub sort_models : List (ModelDescriptor F) → List (ModelDescriptor F)
  sort_models [] = []
  sort_models (c ∷ cs) = insert_model c (sort_models cs)

  abbrev pub head_of : List (ModelDescriptor F) → Option (ModelDescriptor F)
  head_of [] = none
  head_of (m ∷ ms) = some m

  -- `none` is FallbackExhaustedError([]).
  unfoldable pub plan_embedding_routing :
      List (ModelDescriptor F) → PrivacyLevel → (exclude : List Uuid) → Option (ModelDescriptor F)
  plan_embedding_routing models privacy exclude =
      head_of (sort_models (candidates_pool models embedding privacy exclude))

  module _ {W R : Type 0} (models : List (ModelDescriptor F)) (privacy : PrivacyLevel)
      (get_connector : GetConnector W F R) where
    unfoldable pub embed_from :
        (remaining : ℕ) → List Uuid → M (State W F) (Error F) (ModelDescriptor F × R)
    embed_from zero tried s = (err (fallback_exhausted []), s)
    embed_from (suc remaining) tried s = elim (plan_embedding_routing models privacy tried) [
      | none ↦ (err (fallback_exhausted []), s)
      | some model ↦
          let (got, v) = get_connector model s.world in
          elim got [
            | none ↦ (err connector_unavailable, record s { world = v })
            | some connector ↦
                let (answer, w) = connector v in
                let after : State W F = record s {
                  world = w;
                  called = s.called ++ model.id ∷ [];
                } in
                elim answer [
                  | some result ↦ (ok (model, result), after)
                  | none ↦ embed_from remaining (tried ++ model.id ∷ []) after
                ]
          ]
    ]

    unfoldable pub route_and_embed :
        (max_attempts : ℕ) → M (State W F) (Error F) (ModelDescriptor F × R)
    route_and_embed max_attempts = embed_from max_attempts []

module _ {W F R : Type 0} (floats : Floats F) (services : Services W F) where
  -- What `embed_and_record` does with the outcome.
  unfoldable pub record_embedding :
      Caller
      → ℕ
      → (max_attempts : ℕ) → F
      → Result (Error F) (ModelDescriptor F × R)
      → M (State W F) (Error F) (ModelDescriptor F × R)
  record_embedding caller input_tokens max_attempts start (err e) =
      record_failure floats services caller (floats.ratio 0 1) 0 max_attempts start e
  record_embedding caller input_tokens max_attempts start (ok (model, result)) = do
    now ← perf_counter floats services
    record_usage floats services
        (answered_record floats services caller model
          (bare_decision floats services [] model.id (floats.ratio 0 1))
          (latency floats services start now) input_tokens 0 0 false)
        (request_completed caller.correlation_id model.id 0 false)
    pure (model, result)

  -- `characters` are the lengths of the texts.
  unfoldable pub embed_and_record :
      List (ModelDescriptor F)
      → Caller
      → (characters : List ℕ) → GetConnector W F R
      → (max_attempts : ℕ) → M (State W F) (Error F) (ModelDescriptor F × R)
  embed_and_record models caller characters get_connector max_attempts = do
    start ← perf_counter floats services
    outcome ← attempt (route_and_embed floats models caller.privacy_hint get_connector max_attempts)
    record_embedding caller (total (map (λ n. approximate_token_count n) characters)) max_attempts
        start outcome
