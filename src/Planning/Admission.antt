-- ===== src/Planning/Admission.antt =====
-- domain/task_graph.py: which nodes may start.
pub mod Laws
pub mod Checks
use nova_project_bible.Common.{
  Uuid, Option, none, some, List, [], ◌∷◌, Bool, true, false, ◌&&◌, not, ◌==◌, if◌then◌else◌,
  all_of, contains, ◌++◌, map, keep, is_some,
}
use nova_project_bible.Common.Dict
use nova_project_bible.Common.Dict.{Dict}
use nova_project_bible.Planning.Model.{
  TaskNode, TaskNodeStatus, ready, is_pending, is_completed, by_id, ids,
}

module _ {F : Type 0} where
  -- `dep_id in by_id and by_id[dep_id].status == "completed"`
  unfoldable pub is_done : List (TaskNode F) → Uuid → Bool
  is_done nodes dep = elim (by_id nodes dep) [ none ↦ false | some n ↦ is_completed n.status ]

  unfoldable pub dependencies_satisfied : List (TaskNode F) → TaskNode F → Bool
  dependencies_satisfied nodes node = all_of (is_done nodes) node.depends_on

  -- The test that `admit` and `promotable_ids` share.
  unfoldable pub may_start : List (TaskNode F) → TaskNode F → Bool
  may_start nodes node = is_pending node.status && dependencies_satisfied nodes node

  unfoldable pub admit_node : List (TaskNode F) → TaskNode F → TaskNode F
  admit_node nodes node = if may_start nodes node then record node { status = ready } else node

  unfoldable pub admit : List (TaskNode F) → List (TaskNode F)
  admit nodes = map (admit_node nodes) nodes

  unfoldable pub promotable_ids : List (TaskNode F) → List Uuid
  promotable_ids nodes = ids (keep (may_start nodes) nodes)

  -- The loop of `find_duplicate_ids` over `seen` and `duplicates`.
  unfoldable pub duplicates_from : List Uuid → List Uuid → List (TaskNode F) → List Uuid
  duplicates_from seen duplicates [] = duplicates
  duplicates_from seen duplicates (n ∷ nodes) =
      duplicates_from (n.id ∷ seen)
        (if contains n.id seen && not (contains n.id duplicates)
          then duplicates ++ n.id ∷ []
          else duplicates)
        nodes

  unfoldable pub find_duplicate_ids : List (TaskNode F) → List Uuid
  unfolding duplicates_from
  find_duplicate_ids nodes = duplicates_from [] [] nodes

  abbrev pub missing_of : List (TaskNode F) → List Uuid → List Uuid
  missing_of nodes deps = keep (λ d. not (is_some (by_id nodes d))) deps

  -- The loop of `find_dangling_dependencies`: a dict of the missing ids of each node.
  unfoldable pub dangling_from :
      List (TaskNode F) → Dict (List Uuid) → List (TaskNode F) → Dict (List Uuid)
  dangling_from all dangling [] = dangling
  dangling_from all dangling (n ∷ nodes) =
      dangling_from all
        (elim (missing_of all n.depends_on) [
          | [] ↦ dangling
          | d ∷ rest ↦ Dict.put dangling n.id (d ∷ rest)
        ])
        nodes

  unfoldable pub find_dangling_dependencies : List (TaskNode F) → Dict (List Uuid)
  unfolding dangling_from
  find_dangling_dependencies nodes = dangling_from nodes [] nodes
