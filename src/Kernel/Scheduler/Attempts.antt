-- ===== src/Kernel/Scheduler/Attempts.antt =====
-- An attempt writes one row, which it ends.
use nova_project_bible.Common.{
  ℕ, Uuid, String, ◌≡◌, refl, ap, ◌∙◌, none, some, List, [], ◌∷◌, ◌++◌, Bool, true, false,
}
use nova_project_bible.Contracts.{TaskNodeSnapshot}
use nova_project_bible.Kernel.Model.{
  AgentInstance, AgentInstanceHandle, AgentPackage, AgentContext, ResultStatus, TaskCompleted,
}
use nova_project_bible.Kernel.State.{
  Ports, State, ◌>>=◌, pure, update_status, find_row, set_row, row_values,
}
use nova_project_bible.Kernel.State.Gives.{
  Gives, Gives-ok, >>=-Gives, At, Silent, call-Gives, ask-Gives, insert-Gives, set_row-append,
}
use nova_project_bible.Kernel.Scheduler.{
  Attempt, status_after, health_after, new_instance, spawn_tracked, attempt,
}
use nova_project_bible.Kernel.Scheduler.Runs.{IsRun, outcome_or_raise-Gives}

module _ {W F O : Type 0} (ports : Ports W F O) (correlation_id : Uuid) (rows : List AgentInstance)
    (events : List (TaskCompleted O)) where
  -- A finished attempt, whose row is the last one.
  abbrev pub Tried : Uuid → Attempt O → State W O → Type 0
  Tried node_id a s = (s.rows ≡ rows ++ a.row ∷ []) × (s.published ≡ events) × IsRun node_id a.row

  abbrev Spawned : Uuid → AgentInstanceHandle O × AgentInstance → State W O → Type 0
  Spawned node_id out s =
      (s.rows ≡ rows ++ out.1 ∷ []) × (s.published ≡ events) × IsRun node_id out.1

  ended_row :
      (agent : AgentPackage) (node : TaskNodeSnapshot F) (category : String) (i : Uuid) (at : ℕ)
      (needs_restart : Bool)
      → IsRun node.id (
          row_values
            (status_after ports correlation_id needs_restart)
            (some (health_after ports correlation_id needs_restart))
            (new_instance ports correlation_id agent node category i at))
  ended_row agent node category i at true = record { assigned = refl; ended = refl }
  ended_row agent node category i at false = record { assigned = refl; ended = refl }

  -- The row is set, and the handle returned with it.
  close_run-Gives :
      (agent : AgentPackage) (node : TaskNodeSnapshot F) (category : String) (i : Uuid) (at : ℕ)
      (handle : AgentInstanceHandle O) (judged : Bool × ResultStatus) (s : State W O)
      → find_row i rows ≡ none
      → At (rows ++ new_instance ports correlation_id agent node category i at ∷ []) events tt s
      → Gives (Spawned node.id) (Silent events) (
          (update_status i
                (status_after ports correlation_id judged.0)
                (some (health_after ports correlation_id judged.0))
              >>= λ _. pure (
                handle,
                row_values
                    (status_after ports correlation_id judged.0)
                    (some (health_after ports correlation_id judged.0))
                    (new_instance ports correlation_id agent node category i at),
              ))
            s)
  unfolding ◌>>=◌ update_status
  close_run-Gives agent node category i at handle judged s absent h =
      Gives-ok (Spawned node.id) (Silent events) _ _ (
        ap
              (set_row i (status_after ports correlation_id judged.0)
                (some (health_after ports correlation_id judged.0)))
              h.0
            ∙ set_row-append i (status_after ports correlation_id judged.0)
                (some (health_after ports correlation_id judged.0)) rows
                (new_instance ports correlation_id agent node category i at) absent refl,
        h.1,
        ended_row agent node category i at judged.0,
      )

  spawn_tracked-Gives :
      (agent : AgentPackage) (context : AgentContext F) (node : TaskNodeSnapshot F)
      (category : String) (s : State W O)
      → At rows events tt s
      → Gives
          (Spawned node.id)
          (Silent events)
          (spawn_tracked ports correlation_id agent context node category s)
  unfolding spawn_tracked
  spawn_tracked-Gives agent context node category s h =
      >>=-Gives (At rows events) (Spawned node.id) (Silent events) _ _ s
        (ask-Gives rows events s h.0 h.1 ports.next_instance_id)
        λ i s1 h1.
          >>=-Gives (At rows events) (Spawned node.id) (Silent events) _ _ s1
            (ask-Gives rows events s1 h1.0 h1.1 ports.now)
            λ at s2 h2.
              let row : AgentInstance =
                new_instance ports correlation_id agent node category i at in
              >>=-Gives
                (λ _ s'.
                  (find_row row.id rows ≡ none)
                  × (s'.rows ≡ rows ++ row ∷ [])
                  × (s'.published ≡ events))
                (Spawned node.id) (Silent events) _ _ s2 (insert-Gives rows events s2 h2.0 h2.1 row)
                λ x s3 h3.
                  >>=-Gives (At (rows ++ row ∷ []) events) (Spawned node.id) (Silent events) _ _ s3
                    (call-Gives (rows ++ row ∷ []) events s3 h3.1 h3.2
                      (ports.spawn agent context i))
                    λ handle s4 h4.
                      >>=-Gives (At (rows ++ row ∷ []) events) (Spawned node.id) (Silent events) _ _
                        s4
                        (outcome_or_raise-Gives ports correlation_id (rows ++ row ∷ []) events
                          handle s4 h4)
                        λ judged s5 h5.
                          close_run-Gives agent node category i at handle judged s5 h3.0 h5

  pub attempt-Gives :
      (agent : AgentPackage) (context : AgentContext F) (node : TaskNodeSnapshot F)
      (category : String) (s : State W O)
      → At rows events tt s
      → Gives
          (Tried node.id)
          (Silent events)
          (attempt ports correlation_id agent context node category s)
  unfolding attempt
  attempt-Gives agent context node category s h =
      >>=-Gives (Spawned node.id) (Tried node.id) (Silent events) _ _ s
        (spawn_tracked-Gives agent context node category s h)
        λ spawned s1 h1.
          >>=-Gives (At (rows ++ spawned.1 ∷ []) events) (Tried node.id) (Silent events) _ _ s1
            (outcome_or_raise-Gives ports correlation_id (rows ++ spawned.1 ∷ []) events spawned.0
              s1 (h1.0, h1.1))
            λ judged s2 h2. Gives-ok _ _ _ s2 (h2.0, h2.1, h1.2)
