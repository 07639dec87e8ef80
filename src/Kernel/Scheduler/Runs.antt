-- ===== src/Kernel/Scheduler/Runs.antt =====
-- What each step of a dispatch writes and publishes.
use nova_project_bible.Common.{
  Uuid, String, ◌≡◌, refl, ap, Option, none, some, List, [], ◌∷◌, ◌++◌, false, if◌then◌else◌,
  Option-cases, inl, inr,
}
use nova_project_bible.Contracts.{TaskNodeSnapshot}
use nova_project_bible.Planning.Model.{TaskNodeStatus, ready, completed, failed}
use nova_project_bible.Planning.Completion.{outcome_transition}
use nova_project_bible.Kernel.Model.{
  AgentInstance, is_running, AgentInstanceHandle, AgentPackage, ResultStatus, success, failure,
  needs_revision, AgentResult, PeerValidation, Reply, peer_review_result, other_message,
  TaskCompleted, status_value,
}
use nova_project_bible.Kernel.State.{
  Ports, State, Result, ok, err, call, publish_event, invalid_payload, port_raised,
}
use nova_project_bible.Kernel.State.Gives.{
  Gives, Gives-ok, Gives-err, >>=-Gives, At, Silent, call-Gives,
}
use nova_project_bible.Kernel.Scheduler.{
  Attempt, handle_outcome, outcome_or_raise, reviewed, ask_reviewer, is_available, run_peer_review,
  publish_task_completed, review_due, unreviewed, is_rejected, finalize_outcome,
  plan_restart_or_decline, finish,
}

-- An outcome that the planning engine turns into a transition.
abbrev pub IsKnown : String → Type 0
IsKnown outcome = (to : TaskNodeStatus) × (outcome_transition outcome ≡ some to)

status_value-IsKnown : (status : ResultStatus) → IsKnown (status_value status)
unfolding outcome_transition
status_value-IsKnown success = (completed, refl)
status_value-IsKnown failure = (failed, refl)
status_value-IsKnown needs_revision = (ready, refl)

-- A row that the dispatch of a node has finished.
pub record IsRun (node_id : Uuid) (row : AgentInstance) : Type 0 where
  pub assigned : row.assigned_task_node_id ≡ some node_id
  pub ended : is_running row.status ≡ false

module _ {W F O : Type 0} (ports : Ports W F O) (correlation_id : Uuid) (rows : List AgentInstance)
    (events : List (TaskCompleted O)) where
  pub outcome_or_raise-Gives :
      (handle : AgentInstanceHandle O) (s : State W O)
      → At rows events tt s
      → Gives (At rows events) (Silent events) (outcome_or_raise ports correlation_id handle s)
  outcome_or_raise-Gives handle s at = elim (Option-cases (handle_outcome handle)) [
    | inl e ↦ unfold outcome_or_raise in rw (outcome_or_raise, e) (Gives-err _ _ _ _ at.1)
    | inr (o, e) ↦ unfold outcome_or_raise in rw (outcome_or_raise, e) (Gives-ok _ _ o _ at)
  ]

  reviewed-Gives :
      (reply : Option (Reply O)) (s : State W O)
      → At rows events tt s
      → Gives (At rows events) (Silent events) (reviewed ports correlation_id reply s)
  unfolding reviewed
  reviewed-Gives none s at = Gives-ok _ _ none s at
  reviewed-Gives (some other_message) s at = Gives-ok _ _ none s at
  reviewed-Gives (some (peer_review_result (some r))) s at = Gives-ok _ _ (some r) s at
  reviewed-Gives (some (peer_review_result none)) s at = Gives-err _ _ invalid_payload s at.1

  ask_reviewer-Gives :
      (agent : Option AgentPackage) (primary : AgentResult O) (s : State W O)
      → At rows events tt s
      → Gives (At rows events) (Silent events) (ask_reviewer ports correlation_id agent primary s)
  unfolding ask_reviewer
  ask_reviewer-Gives none primary s at = Gives-ok _ _ none s at
  ask_reviewer-Gives (some agent) primary s at =
      >>=-Gives (At rows events) (At rows events) (Silent events) _ _ s
        (call-Gives rows events s at.0 at.1 (ports.spawn_and_review agent primary))
        λ reply s1 at1. reviewed-Gives reply s1 at1

  run_peer_review-Gives :
      (primary : AgentResult O) (category : String) (s : State W O)
      → At rows events tt s
      → Gives
          (At rows events)
          (Silent events)
          (run_peer_review ports correlation_id primary category s)
  unfolding run_peer_review
  run_peer_review-Gives primary category s at =
      >>=-Gives (At rows events) (At rows events) (Silent events) _ _ s
        (call-Gives rows events s at.0 at.1 (ports.find_healthy_package category))
        λ reviewer s1 at1.
          >>=-Gives (At rows events) (At rows events) (Silent events) _ _ s1
            (ask_reviewer-Gives reviewer primary s1 at1)
            λ result s2 at2. call-Gives rows events s2 at2.0 at2.1 (
              ports.record_peer_review primary category result
                (is_available ports correlation_id result))

-- One event was published: of this node and instance, with an outcome that the planning engine
-- knows.
pub record Reported {O : Type 0} (node_id i : Uuid) (events : List (TaskCompleted O))
    (published : List (TaskCompleted O)) : Type 0 where
  pub event : TaskCompleted O
  pub added : published ≡ events ++ event ∷ []
  pub of_node : event.task_node_id ≡ node_id
  pub of_instance : event.agent_instance_id ≡ i
  pub known : IsKnown event.outcome

module _ {W F O : Type 0} (ports : Ports W F O) (correlation_id : Uuid) (rows : List AgentInstance)
    (events : List (TaskCompleted O)) where
  abbrev After : Uuid → Uuid → Unit {0} → State W O → Type 0
  After node_id i x s = (s.rows ≡ rows) × Reported node_id i events s.published

  publish_task_completed-Gives :
      (node_id i : Uuid) (outcome : ResultStatus)
      (result : Option (AgentResult O × Option PeerValidation)) (s : State W O)
      → At rows events tt s
      → Gives
          (After node_id i)
          (Silent events)
          (publish_task_completed ports correlation_id node_id i outcome result s)
  unfolding publish_task_completed publish_event
  publish_task_completed-Gives node_id i outcome result s at = go (ports.publish sent s.world)
    where
      sent : TaskCompleted O
      sent = record {
        task_node_id = node_id;
        agent_instance_id = i;
        outcome = status_value outcome;
        result = result;
        correlation_id = correlation_id;
      }

      go :
          (out : Option (Unit {0}) × W)
          → Gives {A = Unit {0}} (After node_id i) (Silent events) (
              let (answer, w) = out in
              elim answer [
                | some _ ↦ (
                  ok tt,
                  record { world = w; rows = s.rows; published = s.published ++ sent ∷ [] },
                )
                | none ↦ (err port_raised, record s { world = w })
              ])
      go (none, w) =
          Gives-err (After node_id i) (Silent events) port_raised (record s { world = w }) at.1
      go (some x, w) =
          Gives-ok (After node_id i) (Silent events) tt
            (record { world = w; rows = s.rows; published = s.published ++ sent ∷ [] })
            (
              at.0,
              record {
                event = sent;
                added = ap (λ l. l ++ sent ∷ []) at.1;
                of_node = refl;
                of_instance = refl;
                known = status_value-IsKnown outcome;
              },
            )

  finalize_outcome-Gives :
      (node : TaskNodeSnapshot F) (row : AgentInstance) (handle : AgentInstanceHandle O)
      (outcome : ResultStatus) (agent : AgentPackage) (s : State W O)
      → At rows events tt s
      → Gives
          (After node.id row.id)
          (Silent events)
          (finalize_outcome ports correlation_id node row handle outcome agent s)
  finalize_outcome-Gives node row handle outcome agent s at =
      elim (Option-cases (review_due ports correlation_id handle outcome agent)) [
        | inl e ↦
            unfold finalize_outcome in
            rw (finalize_outcome, e)
              (publish_task_completed-Gives node.id row.id outcome
                (unreviewed ports correlation_id handle.result) s at)
        | inr ((result, category), e) ↦
            unfold finalize_outcome in
            rw (finalize_outcome, e)
              (>>=-Gives (At rows events) (After node.id row.id) (Silent events) _ _ s
                (run_peer_review-Gives ports correlation_id rows events result category s at)
                λ verdict s1 at1.
                  publish_task_completed-Gives node.id row.id
                    (if is_rejected verdict then needs_revision else success)
                    (some (result, some verdict)) s1 at1)
      ]

  pub finish-Gives :
      (agent : AgentPackage) (node : TaskNodeSnapshot F) (a : Attempt O) (s : State W O)
      → At rows events tt s
      → Gives
          (λ r s'. (r ≡ some a.row.id) × After node.id a.row.id tt s')
          (Silent events)
          (finish ports correlation_id agent node a s)
  unfolding finish
  finish-Gives agent node a s at =
      >>=-Gives (After node.id a.row.id)
        (λ r s'. (r ≡ some a.row.id) × After node.id a.row.id tt s') (Silent events) _ _ s
        (finalize_outcome-Gives node a.row a.handle a.outcome agent s at)
        λ x s1 done. Gives-ok _ _ (some a.row.id) s1 (refl, done)

  -- The supervisor's answer, or an empty one.
  pub plan_restart_or_decline-Gives :
      (i : Uuid) (category : String) (siblings : List AgentInstance) (s : State W O)
      → At rows events tt s
      → Gives
          (At rows events)
          (Silent events)
          (plan_restart_or_decline ports correlation_id i category siblings s)
  unfolding plan_restart_or_decline call
  plan_restart_or_decline-Gives i category siblings s at =
      go (ports.plan_restart i category siblings s.world)
    where
      go :
          (out : Option (List Uuid) × W)
          → Gives {A = List Uuid} (At rows events) (Silent events) (
              let (r, s') =
                (let (answer, w) = out in
                  elim answer as (λ _. Result (List Uuid) × State W O) [
                    | some a ↦ (ok a, record s { world = w })
                    | none ↦ (err port_raised, record s { world = w })
                  ]) in
              elim r as (λ _. Result (List Uuid) × State W O) [
                | ok restart_ids ↦ (ok restart_ids, s')
                | err _ ↦ (ok [], s')
              ])
      go (some a, w) = Gives-ok (At rows events) (Silent events) a (record s { world = w }) at
      go (none, w) = Gives-ok (At rows events) (Silent events) [] (record s { world = w }) at
