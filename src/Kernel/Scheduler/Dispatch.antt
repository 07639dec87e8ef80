-- ===== src/Kernel/Scheduler/Dispatch.antt =====
-- A dispatch publishes one event for the id that it returns, and none otherwise.
use nova_project_bible.Common.{
  Uuid, String, ◌≡◌, refl, sym, ◌∙◌, subst, Option, none, some, List, [], ◌∷◌, ◌++◌, arith,
  Option-cases, Bool-cases, inl, inr, contains, All, length, append_assoc, ◌≤◌,
}
use nova_project_bible.Contracts.{TaskNodeSnapshot}
use nova_project_bible.Kernel.Model.{AgentInstance, AgentPackage, AgentContext, TaskCompleted}
use nova_project_bible.Kernel.State.{Ports, State, M, ◌>>=◌, pure}
use nova_project_bible.Kernel.State.Gives.{Gives, Gives-ok, >>=-Gives, At, Silent, call-Gives}
use nova_project_bible.Kernel.Scheduler.{
  Attempt, attempt, finish, run_agent, build_context, dispatch_task_node,
}
use nova_project_bible.Kernel.Scheduler.Runs.{
  IsRun, Reported, finish-Gives, plan_restart_or_decline-Gives,
}
use nova_project_bible.Kernel.Scheduler.Attempts.{Tried, attempt-Gives}

-- The dispatch returned the id of an instance: it wrote one or two rows, all of them ended, and
-- published one event, of that instance.
pub record Ran {W O : Type 0} (node_id : Uuid) (rows : List AgentInstance)
    (events : List (TaskCompleted O)) (i : Uuid) (s : State W O) : Type 0 where
  pub runs : List AgentInstance
  pub written : s.rows ≡ rows ++ runs
  pub ended : All (IsRun node_id) runs
  pub bounded : (1 ≤ length runs) × (length runs ≤ 2)
  pub reported : Reported node_id i events s.published

abbrev pub Dispatched :
    {W O : Type 0}
    → Uuid
    → List AgentInstance
    → List (TaskCompleted O)
    → Option Uuid
    → State W O
    → Type 0
Dispatched node_id rows events none s = (s.rows ≡ rows) × (s.published ≡ events)
Dispatched node_id rows events (some i) s = Ran node_id rows events i s

module _ {W F O : Type 0} (ports : Ports W F O) (correlation_id : Uuid) (rows : List AgentInstance)
    (events : List (TaskCompleted O)) (agent : AgentPackage) (node : TaskNodeSnapshot F) where
  -- The end of a dispatch whose runs are known.
  finish_runs-Gives :
      (runs : List AgentInstance) (a : Attempt O) (s : State W O)
      → All (IsRun node.id) runs
      → (1 ≤ length runs) × (length runs ≤ 2)
      → At (rows ++ runs) events tt s
      → Gives
          (Dispatched node.id rows events)
          (Silent events)
          (finish ports correlation_id agent node a s)
  finish_runs-Gives runs a s ended bounded h =
      let g = finish-Gives ports correlation_id (rows ++ runs) events agent node a s h in
      record {
        on_ok = λ r p.
            let (is_id, (same, reported)) = g.on_ok r p in
            subst
              (λ x. Dispatched node.id rows events x (finish ports correlation_id agent node a s).1)
              (sym is_id)
              (record {
                runs = runs;
                written = same;
                ended = ended;
                bounded = bounded;
                reported = reported;
              });
        on_err = g.on_err;
      }

  module _ (context : AgentContext F) (category : String) where
    -- The retry: a second row after the first.
    retry-Gives :
        (first : Attempt O) (s : State W O)
        → IsRun node.id first.row
        → At (rows ++ first.row ∷ []) events tt s
        → Gives (Dispatched node.id rows events) (Silent events) (
            (attempt ports correlation_id agent context node category
                >>= finish ports correlation_id agent node)
              s)
    retry-Gives first s was_run h =
        >>=-Gives (Tried ports correlation_id (rows ++ first.row ∷ []) events node.id)
          (Dispatched node.id rows events) (Silent events) _ _ s
          (attempt-Gives ports correlation_id (rows ++ first.row ∷ []) events agent context node
            category s h)
          λ second s1 h1.
            finish_runs-Gives (first.row ∷ second.row ∷ []) second s1 (was_run, (h1.2, tt))
              (ground arith) (h1.0 ∙ append_assoc rows (first.row ∷ []) (second.row ∷ []), h1.1)

    run_agent-Gives :
        (s : State W O)
        → At rows events tt s
        → Gives
            (Dispatched node.id rows events)
            (Silent events)
            (run_agent ports correlation_id agent context node category s)
    unfolding run_agent finish
    run_agent-Gives s h =
        >>=-Gives (Tried ports correlation_id rows events node.id) (Dispatched node.id rows events)
          (Silent events) _ _ s
          (attempt-Gives ports correlation_id rows events agent context node category s h)
          λ first s1 h1. elim (Bool-cases first.needs_restart) [
            | inr e ↦
                rw e (
                  finish_runs-Gives (first.row ∷ []) first s1 (h1.2, tt) (ground arith)
                    (h1.0, h1.1))
            | inl e ↦ rw e (
                >>=-Gives (At (rows ++ first.row ∷ []) events) (Dispatched node.id rows events)
                  (Silent events) _ _ s1
                  (plan_restart_or_decline-Gives ports correlation_id (rows ++ first.row ∷ [])
                    events first.row.id category (first.row ∷ []) s1 (h1.0, h1.1))
                  λ restart_ids s2 h2. elim (Bool-cases (contains first.row.id restart_ids)) [
                    | inl c ↦ rw c (retry-Gives first s2 h1.2 h2)
                    | inr c ↦
                        rw c
                          (finish_runs-Gives (first.row ∷ []) first s2 (h1.2, tt) (ground arith) h2)
                  ])
          ]

module _ {W F O : Type 0} (ports : Ports W F O) (correlation_id primary_user_id : Uuid) where
  -- A dispatch that returns no id writes and publishes nothing; one that returns the id of an
  -- instance has written one or two rows, all of them ended and assigned to the node, and published
  -- one event, of the node and that instance, with an outcome that the planning engine knows; one
  -- that raises has published nothing.
  pub dispatch_task_node_lem :
      (node : TaskNodeSnapshot F) (s : State W O)
      → Gives
          (Dispatched node.id s.rows s.published)
          (Silent s.published)
          (dispatch_task_node ports correlation_id primary_user_id node s)
  dispatch_task_node_lem node s = elim (Option-cases node.assigned_agent_category) [
    | inl e ↦
        unfold dispatch_task_node in
        rw (dispatch_task_node, e)
          (Gives-ok (Dispatched node.id s.rows s.published) (Silent s.published) none s
            (refl, refl))
    | inr (category, e) ↦
        unfold dispatch_task_node in
        rw (dispatch_task_node, e)
          (>>=-Gives (At s.rows s.published) (Dispatched node.id s.rows s.published)
            (Silent s.published) _ _ s
            (call-Gives s.rows s.published s refl refl (ports.find_healthy_package category))
            (found-Gives category))
  ]
    where
      found-Gives :
          (category : String) (found : Option AgentPackage) (s' : State W O)
          → At s.rows s.published found s'
          → Gives (Dispatched node.id s.rows s.published) (Silent s.published) (
              (elim found as (λ _. M W O (Option Uuid)) [
                | none ↦ pure none
                | some agent ↦
                    run_agent ports correlation_id agent
                      (build_context node primary_user_id correlation_id)
                      node
                      category
              ])
                s')
      found-Gives category none s' h =
          Gives-ok (Dispatched node.id s.rows s.published) (Silent s.published) none s' h
      found-Gives category (some agent) s' h =
          run_agent-Gives ports correlation_id s.rows s.published agent node
            (build_context node primary_user_id correlation_id) category s' h
