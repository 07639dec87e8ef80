-- ===== src/Kernel/State.antt =====
-- domain/ports.py and repository/postgres_kernel_repository.py: the rows of agent_instance, the
-- published events, and the operations of the other components. `W` is the state of everything
-- outside the kernel, and `none` an exception that a port raises.
pub mod Gives
pub mod Yields
use nova_project_bible.Common.{
  ℕ, Uuid, String, Option, none, some, List, [], ◌∷◌, ◌++◌, Bool, true, false, ◌==◌, if◌then◌else◌,
  map,
}
use nova_project_bible.Kernel.Model.{
  InstanceStatus, HealthStatus, AgentInstance, AgentResult, AgentInstanceHandle, AgentPackage,
  AgentContext, PeerValidation, Reply, TaskCompleted,
}

-- RegistryPort, SupervisorPort, AgentExecutionBackend, EventPublisher, and the clock.
pub record Ports (W F O : Type 0) : Type 0 where
  pub find_healthy_package : String → W → Option (Option AgentPackage) × W
  pub plan_restart : Uuid → String → List AgentInstance → W → Option (List Uuid) × W
  pub record_peer_review :
      AgentResult O → String → Option (AgentResult O) → Bool → W → Option PeerValidation × W
  pub next_instance_id : W → Uuid × W
  pub spawn : AgentPackage → AgentContext F → Uuid → W → Option (AgentInstanceHandle O) × W
  pub spawn_and_review : AgentPackage → AgentResult O → W → Option (Option (Reply O)) × W
  pub publish : TaskCompleted O → W → Option (Unit {0}) × W
  pub now : W → ℕ × W

pub record State (W O : Type 0) : Type 0 where
  pub world : W
  pub rows : List AgentInstance
  pub published : List (TaskCompleted O)

pub data Error : Type 0 where
  port_raised instance_already_exists assertion_failed invalid_payload : Error

pub data Result (A : Type 0) : Type 0 where
  ok : A → Result A
  err : Error → Result A

abbrev pub M : Type 0 → Type 0 → Type 0 → Type 0
M W O A = State W O → Result A × State W O

unfoldable pub find_row : Uuid → List AgentInstance → Option AgentInstance
find_row i [] = none
find_row i (r ∷ rows) = if r.id == i then some r else find_row i rows

-- The status of a row, and its health where one is given.
abbrev pub row_values : InstanceStatus → Option HealthStatus → AgentInstance → AgentInstance
row_values status none r = record r { status = status }
row_values status (some health) r = record r { status = status; health_status = health }

unfoldable pub set_row :
    Uuid → InstanceStatus → Option HealthStatus → List AgentInstance → List AgentInstance
set_row i status health rows = map (λ r. if r.id == i then row_values status health r else r) rows

module _ {W O : Type 0} where
  infixl 5 ◌>>=◌ ◌>>◌
  unfoldable pub ◌>>=◌ : {A B : Type 0} → M W O A → (A → M W O B) → M W O B
  ◌>>=◌ m f s = let (r, s') = m s in elim r [ ok a ↦ f a s' | err e ↦ (err e, s') ]

  abbrev pub ◌>>◌ : {A B : Type 0} → M W O A → M W O B → M W O B
  m >> k = m >>= λ _. k

  abbrev pub pure : {A : Type 0} → A → M W O A
  pure a s = (ok a, s)

  -- An awaited call of a port.
  unfoldable pub call : {A : Type 0} → (W → Option A × W) → M W O A
  call f s =
      let (answer, w) = f s.world in
      elim answer [
        | some a ↦ (ok a, record s { world = w })
        | none ↦ (err port_raised, record s { world = w })
      ]

  -- A call that cannot raise.
  unfoldable pub ask : {A : Type 0} → (W → A × W) → M W O A
  ask f s = let (a, w) = f s.world in (ok a, record s { world = w })

  unfoldable pub insert : AgentInstance → M W O (Unit {0})
  insert r s = elim (find_row r.id s.rows) [
    | some _ ↦ (err instance_already_exists, s)
    | none ↦ (ok tt, record s { rows = s.rows ++ r ∷ [] })
  ]

  unfoldable pub update_status : Uuid → InstanceStatus → Option HealthStatus → M W O (Unit {0})
  update_status i status health s = (ok tt, record s { rows = set_row i status health s.rows })

  -- An event counts as published when the bus took it.
  unfoldable pub publish_event : {F : Type 0} → Ports W F O → TaskCompleted O → M W O (Unit {0})
  publish_event ports event s =
      let (answer, w) = ports.publish event s.world in
      elim answer [
        | some _ ↦
            (ok tt, record { world = w; rows = s.rows; published = s.published ++ event ∷ [] })
        | none ↦ (err port_raised, record s { world = w })
      ]
