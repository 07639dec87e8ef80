-- ===== src/Kernel/Scheduler/Answering.antt =====
-- Reviews and reports return, where the ports answer.
use nova_project_bible.Common.{
  Uuid, String, ◌≡◌, refl, ap, Option, none, some, List, [], ◌∷◌, ◌++◌, Bool, true, if◌then◌else◌,
  Option-cases, inl, inr,
}
use nova_project_bible.Contracts.{TaskNodeSnapshot}
use nova_project_bible.Kernel.Model.{
  AgentInstance, AgentPackage, AgentContext, ResultStatus, success, needs_revision, AgentResult,
  PeerValidation, Reply, peer_review_result, other_message, TaskCompleted, status_value,
}
use nova_project_bible.Kernel.State.{Ports, State, Result, ok, err, publish_event, port_raised}
use nova_project_bible.Kernel.State.Yields.{
  is_readable, Used-mono, Later, Answers, Yields, Yields-pure, >>=-Yields, Good, call-Yields,
}
use nova_project_bible.Kernel.Scheduler.{
  Attempt, handle_outcome, reviewed, ask_reviewer, is_available, run_peer_review,
  publish_task_completed, review_due, unreviewed, is_rejected, finalize_outcome, finish,
}

abbrev pub Any : {A : Type 0} → A → Type 0
Any a = Unit

-- Ports that answer. The supervisor's restart plan may raise, a handle carries an error or a
-- result, and a reviewer's result can be read.
pub record IsAnswering {W F O : Type 0} (ports : Ports W F O) (used : W → Uuid → Type 0)
    : Type 0 where
  pub finds : (category : String) → Answers used Any (ports.find_healthy_package category)
  pub records :
      (primary : AgentResult O) (category : String) (reviewer : Option (AgentResult O))
      (available : Bool)
      → Answers used Any (ports.record_peer_review primary category reviewer available)
  pub reviews :
      (agent : AgentPackage) (primary : AgentResult O)
      → Answers used (λ reply. is_readable reply ≡ true) (ports.spawn_and_review agent primary)
  pub spawns :
      (agent : AgentPackage) (context : AgentContext F) (i : Uuid)
      → Answers used
          (λ handle. (o : Bool × ResultStatus) × (handle_outcome handle ≡ some o))
          (ports.spawn agent context i)
  pub publishes : (event : TaskCompleted O) → Answers used Any (ports.publish event)
  -- A minted id is new, and used from then on.
  pub mints :
      (w : W)
      → (¬ used w (ports.next_instance_id w).0)
        × used (ports.next_instance_id w).1 (ports.next_instance_id w).0
        × Later used w (ports.next_instance_id w).1
  pub clock : (w : W) → Later used w (ports.now w).1
  pub plans :
      (i : Uuid) (category : String) (siblings : List AgentInstance) (w : W)
      → Later used w (ports.plan_restart i category siblings w).1

module _ {W F O : Type 0} (ports : Ports W F O) (used : W → Uuid → Type 0)
    (answering : IsAnswering ports used) (correlation_id : Uuid) where
  reviewed-Yields :
      (reply : Option (Reply O)) (s : State W O)
      → is_readable reply ≡ true
      → Good used tt s
      → Yields (Good used) (reviewed ports correlation_id reply s)
  unfolding reviewed
  reviewed-Yields none s h good = Yields-pure (Good used) none s good
  reviewed-Yields (some other_message) s h good = Yields-pure (Good used) none s good
  reviewed-Yields (some (peer_review_result (some r))) s h good =
      Yields-pure (Good used) (some r) s good
  reviewed-Yields (some (peer_review_result none)) s h good = cc

  ask_reviewer-Yields :
      (agent : Option AgentPackage) (primary : AgentResult O) (s : State W O)
      → Good used tt s
      → Yields (Good used) (ask_reviewer ports correlation_id agent primary s)
  unfolding ask_reviewer
  ask_reviewer-Yields none primary s good = Yields-pure (Good used) none s good
  ask_reviewer-Yields (some agent) primary s good =
      >>=-Yields (λ reply s'. (is_readable reply ≡ true) × Good used reply s') (Good used) _ _ s
        (call-Yields used (λ reply. is_readable reply ≡ true) _ s (answering.reviews agent primary)
          good)
        λ reply s1 h. reviewed-Yields reply s1 h.0 h.1

  run_peer_review-Yields :
      (primary : AgentResult O) (category : String) (s : State W O)
      → Good used tt s
      → Yields (Good used) (run_peer_review ports correlation_id primary category s)
  unfolding run_peer_review
  run_peer_review-Yields primary category s good =
      >>=-Yields (λ a s'. Any a × Good used a s') (Good used) _ _ s
        (call-Yields used Any _ s (answering.finds category) good)
        λ reviewer s1 h1.
          >>=-Yields (Good used) (Good used) _ _ s1 (ask_reviewer-Yields reviewer primary s1 h1.1)
            λ result s2 h2.
              let c =
                call-Yields used Any _ s2
                  (answering.records primary category result
                    (is_available ports correlation_id result))
                  h2 in
              record { value = c.value; final = c.final; runs = c.runs; holds = c.holds.1 }

  publish_task_completed-Yields :
      (node_id i : Uuid) (outcome : ResultStatus)
      (result : Option (AgentResult O × Option PeerValidation)) (s : State W O)
      → Good used tt s
      → Yields (Good used) (publish_task_completed ports correlation_id node_id i outcome result s)
  unfolding publish_task_completed publish_event
  publish_task_completed-Yields node_id i outcome result s good =
      go (answering.publishes sent s.world)
    where
      sent : TaskCompleted O
      sent = record {
        task_node_id = node_id;
        agent_instance_id = i;
        outcome = status_value outcome;
        result = result;
        correlation_id = correlation_id;
      }

      continue : Option (Unit {0}) × W → Result (Unit {0}) × State W O
      continue out =
          let (answer, w) = out in
          elim answer [
            | some _ ↦
                (ok tt, record { world = w; rows = s.rows; published = s.published ++ sent ∷ [] })
            | none ↦ (err port_raised, record s { world = w })
          ]

      go :
          (a : Unit {0}) × (w' : W) × (ports.publish sent s.world ≡ (some a, w'))
            × (Later used s.world w')
            × Any a
          → Yields {A = Unit {0}} (Good used) (continue (ports.publish sent s.world))
      go (a, w', answered, later, q) = record {
        value = tt;
        final = record { world = w'; rows = s.rows; published = s.published ++ sent ∷ [] };
        runs = ap continue answered;
        holds = Used-mono (used s.world) (used w') s.rows later good;
      }

  pub finish-Yields :
      (agent : AgentPackage) (node : TaskNodeSnapshot F) (a : Attempt O) (s : State W O)
      → Good used tt s
      → Yields
          (λ r s'. (r ≡ some a.row.id) × Good used r s')
          (finish ports correlation_id agent node a s)
  unfolding finish
  finish-Yields agent node a s good =
      >>=-Yields (Good used) (λ r s'. (r ≡ some a.row.id) × Good used r s') _ _ s finalized
        λ x s1 h1. Yields-pure _ (some a.row.id) s1 (refl, h1)
    where
      finalized :
          Yields
            (Good used)
            (finalize_outcome ports correlation_id node a.row a.handle a.outcome agent s)
      finalized = elim (Option-cases (review_due ports correlation_id a.handle a.outcome agent)) [
        | inl e ↦
            unfold finalize_outcome in
            rw (finalize_outcome, e)
              (publish_task_completed-Yields node.id a.row.id a.outcome
                (unreviewed ports correlation_id a.handle.result) s good)
        | inr ((result, category), e) ↦
            unfold finalize_outcome in
            rw (finalize_outcome, e)
              (>>=-Yields (Good used) (Good used) _ _ s
                (run_peer_review-Yields result category s good)
                λ verdict s1 h1.
                  publish_task_completed-Yields node.id a.row.id
                    (if is_rejected verdict then needs_revision else success)
                    (some (result, some verdict)) s1 h1)
      ]
