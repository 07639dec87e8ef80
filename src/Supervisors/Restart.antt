-- ===== src/Supervisors/Restart.antt =====
-- domain/restart.py: the restart plan of each strategy.
pub mod Plan
use nova_project_bible.Common.{
  ℕ, Uuid, String, Option, none, some, List, [], ◌∷◌, Bool, true, false, ◌==◌, if◌then◌else◌, leb,
  not, ◌&&◌, keep,
}
use nova_project_bible.Kernel.Model.{InstanceStatus, running, completed, failed}

pub data RestartStrategy : Type 0 where
  one_for_one one_for_all rest_for_one : RestartStrategy

pub record SupervisedInstance : Type 0 where
  pub id : Uuid
  pub category : String
  pub restart_strategy : RestartStrategy
  pub started_order : ℕ
  pub status : InstanceStatus

abbrev pub is_completed : InstanceStatus → Bool
is_completed completed = true
is_completed _ = false

abbrev pub instance_ids : List SupervisedInstance → List Uuid
instance_ids [] = []
instance_ids (s ∷ rest) = s.id ∷ instance_ids rest

unfoldable pub find_instance : Uuid → List SupervisedInstance → Option SupervisedInstance
find_instance i [] = none
find_instance i (s ∷ rest) = if s.id == i then some s else find_instance i rest

-- sorted(..., key=lambda s: s.started_order), which is stable.
unfoldable pub insert_by_order :
    SupervisedInstance → List SupervisedInstance → List SupervisedInstance
insert_by_order s [] = s ∷ []
insert_by_order s (x ∷ rest) =
    let later = insert_by_order s rest in
    if leb s.started_order x.started_order then s ∷ x ∷ rest else x ∷ later

unfoldable pub sort_by_order : List SupervisedInstance → List SupervisedInstance
sort_by_order [] = []
sort_by_order (s ∷ rest) = insert_by_order s (sort_by_order rest)

abbrev pub candidates : List SupervisedInstance → List SupervisedInstance
candidates siblings = keep (λ s. not (is_completed s.status)) siblings

unfoldable pub plan_of : RestartStrategy → SupervisedInstance → List SupervisedInstance → List Uuid
plan_of one_for_one f siblings = f.id ∷ []
plan_of one_for_all f siblings = instance_ids (sort_by_order (candidates siblings))
plan_of rest_for_one f siblings =
    instance_ids
      (sort_by_order (keep (λ s. leb f.started_order s.started_order) (candidates siblings)))

-- `none` is a raised ValueError.
unfoldable pub plan_restart : RestartStrategy → Uuid → List SupervisedInstance → Option (List Uuid)
plan_restart strategy failed_instance_id siblings =
    elim (find_instance failed_instance_id siblings) [
      | none ↦ none
      | some f ↦ some (plan_of strategy f siblings)
    ]
