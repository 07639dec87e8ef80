-- ===== src/Router/Tests.antt =====
-- The router's theorems at concrete models, and runs of the code.
use nova_project_bible.Common.{
  ℕ, ◌+◌, ◌*◌, ◌-◌, ◌/◌, Uuid, none, some, List, [], ◌∷◌, Bool, true, false, ◌≡◌, refl, ltb, ◌==◌,
  if◌then◌else◌,
}
use nova_project_bible.Common.Effects.{◌>>=◌}
use nova_project_bible.Router.Model.{
  PrivacyLevel, internal, confidential, text_generation, voice_embedding, embedding, healthy,
  unhealthy, ModelDescriptor, GenerateRequest, GenerateResult, request_failed,
}
use nova_project_bible.Router.Plan.{
  Floats, look_up_task, task_type_to_dimension, has_modality, total, is_available, is_eligible,
  eligible_candidates, candidates_pool, score, estimate_complexity, precedes, insert_scored,
  sort_scored, plan, plan_routing, plan_perception_routing,
}
use nova_project_bible.Router.Route.{
  State, Connector, GetConnector, by_id, attempt_from, route, route_and_execute,
}
use nova_project_bible.Router.Pool.{IsDistinct}
use nova_project_bible.Router.Fallback.{
  Careful, SensesCareful, route_and_execute-Careful, senses-SensesCareful,
}
use nova_project_bible.Router.Record.{
  Services, attempt, perf_counter, record_usage, record_failure, record_execution,
  execute_and_record, caller_of,
}
use nova_project_bible.Router.Perceive.{
  give_up, record_answer, call_and_record, perceive_from, route_and_record_perception,
  embed_voice_and_record,
}
use nova_project_bible.Router.Perceive.Safety.{SamplesGuarded, samples-SamplesGuarded}
use nova_project_bible.Router.Embed.{
  plan_embedding_routing, insert_model, sort_models, cheaper, embed_from, route_and_embed,
}
use nova_project_bible.Router.Embed.Cheapest.{Ordered, Selects, plan_embedding_routing-Selects}
use nova_project_bible.Router.Recording.{Records}

program : Unit {0}
unfolding look_up_task task_type_to_dimension has_modality total is_available is_eligible
    eligible_candidates candidates_pool score estimate_complexity precedes insert_scored sort_scored
    plan plan_routing by_id attempt_from route route_and_execute attempt perf_counter record_usage
    record_failure record_execution execute_and_record ◌>>=◌ plan_perception_routing give_up
    record_answer call_and_record perceive_from route_and_record_perception embed_voice_and_record
    plan_embedding_routing insert_model sort_models cheaper embed_from route_and_embed
program = tt

-- Millionths, rounded down.
abbrev floats : Floats ℕ
floats = record {
  ratio = λ n d. (n * 1000000) / d;
  add = λ a b. a + b;
  sub = λ a b. a - b;
  mul = λ a b. (a * b) / 1000000;
  div = λ a b. (a * 1000000) / b;
  lt = ltb;
  eq = λ a b. a == b;
  round = λ a _. a;
}

abbrev model : Uuid → (skill : ℕ) → PrivacyLevel → Bool → ModelDescriptor ℕ
model i skill tier works = record {
  id = i;
  provider = "local";
  modalities = text_generation ∷ voice_embedding ∷ embedding ∷ [];
  capability_scores = λ _. some skill;
  avg_latency_ms = none;
  cost_per_input_token = none;
  cost_per_output_token = none;
  max_privacy_tier = tier;
  health_status = if works then healthy else unhealthy;
}

-- The best model is not cleared, the second best is unhealthy.
abbrev models : List (ModelDescriptor ℕ)
models =
    model 1 900000 internal true
    ∷ model 2 800000 confidential false
    ∷ model 3 500000 confidential true
    ∷ model 4 600000 confidential true
    ∷ []

abbrev request : GenerateRequest
request = record {
  context_tokens = 100 ∷ [];
  tools = 0;
  task_type = "programming";
  privacy_hint = confidential;
  requesting_engine = "planning-engine";
  correlation_id = 8;
}

-- The world is a number of failures still to come.
abbrev connector : Connector ℕ GenerateResult
connector w =
    if w == 0
    then (some (record { text = "done"; input_tokens = 3; output_tokens = 5 }), 0)
    else (none, w - 1)

abbrev get_connector : GetConnector ℕ ℕ GenerateResult
get_connector _ w = (some connector, w)

-- A factory without the key that the best model needs.
abbrev without_key : GetConnector ℕ ℕ GenerateResult
without_key m w = (if m.id == 4 then none else some connector, w)

abbrev start_with : ℕ → State ℕ ℕ
start_with failures = record { world = failures; called = []; usage = []; outbox = [] }

best_first :
    (route_and_execute floats models request get_connector (λ _. none) 3 (start_with 0)).1.called
    ≡ 4 ∷ []
unfolding program
best_first = refl

falls_back :
    (route_and_execute floats models request get_connector (λ _. none) 3 (start_with 1)).1.called
    ≡ 4 ∷ 3 ∷ []
unfolding program
falls_back = refl

-- One attempt: the models named as attempted are those that were not.
abbrev attempted_after_one : List Uuid
attempted_after_one = 3 ∷ []

abbrev services : Services ℕ ℕ
services = record { perf_counter = λ w. (7, w); record_usage = λ _ _ w. (some tt, w) }

reports_the_untried :
    (execute_and_record floats services models request get_connector
      (λ _. none)
      1
      (start_with 9)).1.outbox
    ≡ request_failed 8 attempted_after_one ∷ []
unfolding program
reports_the_untried = refl

-- The second model is not called, and nothing is recorded.
refused_without_fallback :
    (execute_and_record floats services models request without_key (λ _. none) 3 (start_with 0)).1
    ≡ start_with 0
unfolding program
refused_without_fallback = refl

abbrev distinct : IsDistinct models
distinct = ((refl, (refl, (refl, tt))), ((refl, (refl, tt)), ((refl, tt), (tt, tt))))

abbrev records : Records floats services
records = record { answers = λ r event w. refl }

route_and_execute-Careful_example :
    Careful floats models text_generation confidential 3 get_connector []
      (route_and_execute floats models request get_connector (λ _. none) 3 (start_with 1))
route_and_execute-Careful_example =
    route_and_execute-Careful floats models distinct (start_with 1) request get_connector
      (λ _. none) 3

senses-SensesCareful_example :
    SensesCareful floats models distinct (start_with 1) confidential get_connector 3
senses-SensesCareful_example =
    senses-SensesCareful floats models distinct (start_with 1) confidential get_connector 3

-- A voice sample that no model answers.
voice_exhausted :
    (embed_voice_and_record floats services models
      (caller_of request)
      get_connector
      2
      (start_with 9)).1.outbox
    ≡ request_failed 8 (4 ∷ 3 ∷ []) ∷ []
unfolding program
voice_exhausted = refl

samples-SamplesGuarded_example :
    SamplesGuarded floats services models distinct
      (caller_of request)
      2
      (start_with 1)
      get_connector
samples-SamplesGuarded_example =
    samples-SamplesGuarded floats services models distinct (caller_of request) 2 (start_with 1)
      get_connector

-- The models answer, and the repository raises: the sample goes to every model in turn.
sample_sent_again :
    (embed_voice_and_record floats
      (record { perf_counter = λ w. (7, w); record_usage = λ _ _ w. (none, w) })
      models
      (caller_of request)
      get_connector
      3
      (start_with 0)).1.called
    ≡ 4 ∷ 3 ∷ []
unfolding program
sample_sent_again = refl

-- Equal in cost and latency: the smaller id.
embeds_with_the_third :
    (route_and_embed floats models confidential get_connector 3 (start_with 1)).1.called
    ≡ 3 ∷ 4 ∷ []
unfolding program
embeds_with_the_third = refl

abbrev ordered : Ordered floats
ordered = record { rank = λ a. a; lt_rank = λ a b. refl; eq_rank = λ a b. refl }

plan_embedding_routing-Selects_example :
    Selects floats ordered models confidential
      (4 ∷ [])
      (plan_embedding_routing floats models confidential (4 ∷ []))
plan_embedding_routing-Selects_example =
    plan_embedding_routing-Selects floats ordered models confidential (4 ∷ []) distinct
