-- ===== src/Kernel/Scheduler/Completion.antt =====
-- A dispatch reports, where the ports answer and an agent is found; the supervisor may raise.
use nova_project_bible.Kernel.State.Gives.{Gives, Silent}
use nova_project_bible.Common.{
  ℕ, Uuid, String, ◌≡◌, refl, sym, ap, ◌∙◌, subst, Option, none, some, List, [], ◌∷◌, ◌++◌, Bool,
  Bool-cases, inl, inr, contains,
}
use nova_project_bible.Contracts.{TaskNodeSnapshot}
use nova_project_bible.Kernel.Model.{
  AgentInstance, AgentInstanceHandle, AgentPackage, AgentContext, ResultStatus,
}
use nova_project_bible.Kernel.State.{
  Ports, State, Result, ok, err, M, pure, call, ask, insert, update_status, port_raised, find_row,
  set_row,
}
use nova_project_bible.Kernel.State.Yields.{
  Used, Used-mono, find_row-Used, Used-append, Used-set_row, Yields, Yields-pure, >>=-Yields, Good,
  call-Yields, answered-Yields,
}
use nova_project_bible.Kernel.Scheduler.{
  Attempt, handle_outcome, outcome_or_raise, plan_restart_or_decline, status_after, health_after,
  new_instance, spawn_tracked, attempt, finish, run_agent, build_context, dispatch_task_node,
}
use nova_project_bible.Kernel.Scheduler.Runs.{Reported}
use nova_project_bible.Kernel.Scheduler.Dispatch.{Dispatched, dispatch_task_node_lem, Ran}
use nova_project_bible.Kernel.Scheduler.Answering.{IsAnswering, finish-Yields}

module _ {W F O : Type 0} (ports : Ports W F O) (used : W → Uuid → Type 0)
    (answering : IsAnswering ports used) (correlation_id : Uuid) where
  outcome_or_raise-Yields :
      (handle : AgentInstanceHandle O) (o : Bool × ResultStatus) (s : State W O)
      → handle_outcome handle ≡ some o
      → Good used tt s
      → Yields (Good used) (outcome_or_raise ports correlation_id handle s)
  outcome_or_raise-Yields handle o s h good =
      unfold outcome_or_raise in rw (outcome_or_raise, h) (Yields-pure (Good used) o s good)

  -- A handle whose outcome can be read.
  abbrev IsJudged : AgentInstanceHandle O → Type 0
  IsJudged handle = (o : Bool × ResultStatus) × (handle_outcome handle ≡ some o)

  abbrev Minted : Uuid → State W O → Type 0
  Minted i s = (find_row i s.rows ≡ none) × Used (used s.world) s.rows × used s.world i

  module _ (agent : AgentPackage) (context : AgentContext F) (node : TaskNodeSnapshot F)
      (category : String) where
    insert-Yields :
        (i : Uuid) (at : ℕ) (s : State W O)
        → Minted i s
        → Yields (Good used) (insert (new_instance ports correlation_id agent node category i at) s)
    insert-Yields i at s (absent, all, fresh) =
        let row : AgentInstance = new_instance ports correlation_id agent node category i at in
        unfold insert in
        rw (insert, absent)
          (Yields-pure {W = W} {O = O} (Good used) tt (record s { rows = s.rows ++ row ∷ [] })
            (Used-append (used s.world) s.rows row all fresh))

    spawn_tracked-Yields :
        (s : State W O)
        → Good used tt s
        → Yields
            (λ spawned s'. IsJudged spawned.0 × Good used spawned s')
            (spawn_tracked ports correlation_id agent context node category s)
    unfolding spawn_tracked ask update_status
    spawn_tracked-Yields s good = >>=-Yields Minted After _ _ s minted λ i s1 h1.
        >>=-Yields (λ at s'. Minted i s') After _ _ s1 (timed i s1 h1)
          λ at s2 h2. >>=-Yields (Good used) After _ _ s2 (insert-Yields i at s2 h2) λ x s3 h3.
            >>=-Yields (λ handle s'. IsJudged handle × Good used handle s') After _ _ s3
              (call-Yields used IsJudged _ s3 (answering.spawns agent context i) h3)
              λ handle s4 h4.
                >>=-Yields (Good used) After _ _ s4
                  (outcome_or_raise-Yields handle h4.0.0 s4 h4.0.1 h4.1)
                  λ judged s5 h5.
                    >>=-Yields (Good used) After _ _ s5
                      (Yields-pure (Good used) tt
                        (record s5 {
                          rows =
                              set_row i (status_after ports correlation_id judged.0)
                                (some (health_after ports correlation_id judged.0)) s5.rows;
                        })
                        (Used-set_row (used s5.world) i _ _ s5.rows h5))
                      λ y s6 h6. Yields-pure After _ s6 (h4.0, h6)
      where
        After : AgentInstanceHandle O × AgentInstance → State W O → Type 0
        After spawned s' = IsJudged spawned.0 × Good used spawned s'

        minted : Yields Minted (ask ports.next_instance_id s)
        minted =
            let (i, w) = ports.next_instance_id s.world in
            let (new, fresh, later) = answering.mints s.world in
            Yields-pure Minted i (record s { world = w })
              (
                find_row-Used (used s.world) i s.rows new good,
                Used-mono (used s.world) (used w) s.rows later good,
                fresh,
              )

        timed :
            (i : Uuid) (s1 : State W O)
            → Minted i s1
            → Yields (λ at s'. Minted i s') (ask ports.now s1)
        timed i s1 h1 =
            let later = answering.clock s1.world in
            Yields-pure (λ at s'. Minted i s') (ports.now s1.world).0
              (record s1 { world = (ports.now s1.world).1 })
              (
                h1.0,
                Used-mono (used s1.world) (used (ports.now s1.world).1) s1.rows later h1.1,
                later i h1.2,
              )

    attempt-Yields :
        (s : State W O)
        → Good used tt s
        → Yields (Good used) (attempt ports correlation_id agent context node category s)
    unfolding attempt
    attempt-Yields s good =
        >>=-Yields (λ spawned s'. IsJudged spawned.0 × Good used spawned s') (Good used) _ _ s
          (spawn_tracked-Yields s good)
          λ spawned s1 h1.
            >>=-Yields (Good used) (Good used) _ _ s1
              (outcome_or_raise-Yields spawned.0 h1.0.0 s1 h1.0.1 h1.1)
              λ judged s2 h2. Yields-pure (Good used) _ s2 h2

    -- The supervisor answers or raises: either way the plan returns.
    plan_restart_or_decline-Yields :
        (i : Uuid) (siblings : List AgentInstance) (s : State W O)
        → Good used tt s
        → Yields (Good used) (plan_restart_or_decline ports correlation_id i category siblings s)
    unfolding plan_restart_or_decline call
    plan_restart_or_decline-Yields i siblings s good =
        go (ports.plan_restart i category siblings s.world)
          (Used-mono (used s.world) _ s.rows (answering.plans i category siblings s.world) good)
      where
        go :
            (out : Option (List Uuid) × W)
            → Used (used out.1) s.rows
            → Yields {A = List Uuid} (Good used) (
                let (r, s') =
                  (let (answer, w) = out in
                    elim answer as (λ _. Result (List Uuid) × State W O) [
                      | some a ↦ (ok a, record s { world = w })
                      | none ↦ (err port_raised, record s { world = w })
                    ]) in
                elim r as (λ _. Result (List Uuid) × State W O) [
                  | ok restart_ids ↦ (ok restart_ids, s')
                  | err _ ↦ (ok [], s')
                ])
        go (some a, w) below =
            Yields-pure {W = W} {O = O} (Good used) a (record s { world = w }) below
        go (none, w) below =
            Yields-pure {W = W} {O = O} (Good used) [] (record s { world = w }) below

    abbrev IsSome : Option Uuid → State W O → Type 0
    IsSome r s = (i : Uuid) × (r ≡ some i)

    finish-IsSome :
        (a : Attempt O) (s : State W O)
        → Good used tt s
        → Yields IsSome (finish ports correlation_id agent node a s)
    finish-IsSome a s good =
        let f = finish-Yields ports used answering correlation_id agent node a s good in
        record { value = f.value; final = f.final; runs = f.runs; holds = (a.row.id, f.holds.0) }

    run_agent-Yields :
        (s : State W O)
        → Good used tt s
        → Yields IsSome (run_agent ports correlation_id agent context node category s)
    unfolding run_agent finish
    run_agent-Yields s good =
        >>=-Yields (Good used) IsSome _ _ s (attempt-Yields s good) λ first s1 h1.
          elim (Bool-cases first.needs_restart) [
            | inr e ↦ rw e (finish-IsSome first s1 h1)
            | inl e ↦ rw e (
                >>=-Yields (Good used) IsSome _ _ s1
                  (plan_restart_or_decline-Yields first.row.id (first.row ∷ []) s1 h1)
                  λ restart_ids s2 h2. elim (Bool-cases (contains first.row.id restart_ids)) [
                    | inr c ↦ rw c (finish-IsSome first s2 h2)
                    | inl c ↦ rw c (
                        >>=-Yields (Good used) IsSome _ _ s2 (attempt-Yields s2 h2)
                          λ second s3 h3. finish-IsSome second s3 h3)
                  ])
          ]

module _ {W F O : Type 0} (ports : Ports W F O) (used : W → Uuid → Type 0)
    (answering : IsAnswering ports used) (correlation_id primary_user_id : Uuid) where
  found-Yields :
      (node : TaskNodeSnapshot F) (category : String) (agent : AgentPackage) (s : State W O)
      → Used (used s.world) s.rows
      → node.assigned_agent_category ≡ some category
      → (ports.find_healthy_package category s.world).0 ≡ some (some agent)
      → Yields
          (λ r s'. (i : Uuid) × (r ≡ some i))
          (dispatch_task_node ports correlation_id primary_user_id node s)
  found-Yields node category agent s good assigned found =
      unfold dispatch_task_node in
      rw (dispatch_task_node, assigned)
        (>>=-Yields (λ a s'. (a ≡ some agent) × Good used a s') (λ r s'. (i : Uuid) × (r ≡ some i))
          _ _ s called run)
    where
      called :
          Yields
            (λ a s'. (a ≡ some agent) × Good used a s')
            (call (ports.find_healthy_package category) s)
      called =
          let (a, w', answered, later, q) = answering.finds category s.world in
          let same : some a ≡ some (some agent) =
            sym (ap (λ (x : Option (Option AgentPackage) × W). x.0) answered) ∙ found in
          let is_agent : a ≡ some agent = cc in
          answered-Yields used (λ x. x ≡ some agent) (ports.find_healthy_package category) s a w'
            answered later is_agent good

      run :
          (a : Option AgentPackage) (s' : State W O)
          → (a ≡ some agent) × Good used a s'
          → Yields
              (λ r s''. (i : Uuid) × (r ≡ some i))
              ((elim a as (λ _. M W O (Option Uuid)) [
                | none ↦ pure none
                | some agent ↦
                    run_agent ports correlation_id agent
                      (build_context node primary_user_id correlation_id)
                      node
                      category
              ])
                s')
      run a s' (is_agent, good') = rw is_agent (
          run_agent-Yields ports used answering correlation_id agent
            (build_context node primary_user_id correlation_id) node category s' good')

  -- If the ports answer (the supervisor's restart plan may raise), every minted id is new among the ids
  -- minted before and those of the rows, and the registry has an agent for the node's category, then
  -- the dispatch returns the id of an instance and has published one event, of the node and that
  -- instance.
  pub dispatch_task_node-Reported :
      (node : TaskNodeSnapshot F) (category : String) (agent : AgentPackage) (s : State W O)
      → Used (used s.world) s.rows
      → node.assigned_agent_category ≡ some category
      → (ports.find_healthy_package category s.world).0 ≡ some (some agent)
      → (i : Uuid) × (s' : State W O) × (dispatch_task_node ports correlation_id primary_user_id
            node s
          ≡ (ok (some i), s'))
        × Reported node.id i s.published s'.published
  dispatch_task_node-Reported node category agent s good assigned found =
      let y = found-Yields node category agent s good assigned found in
      let (i, is_some) = y.holds in
      let runs : dispatch_task_node ports correlation_id primary_user_id node s
          ≡ (ok (some i), y.final) =
        y.runs ∙ ap (λ r. (ok r, y.final)) is_some in
      let given =
        subst (λ out. Gives (Dispatched node.id s.rows s.published) (Silent s.published) out) runs
          (dispatch_task_node_lem ports correlation_id primary_user_id node s) in
      let ran : Ran node.id s.rows s.published i y.final = given.on_ok (some i) refl in
      (i, y.final, runs, ran.reported)
