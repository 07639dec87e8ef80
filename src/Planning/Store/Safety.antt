-- ===== src/Planning/Store/Safety.antt =====
-- What no outcome can do to a graph: change a terminal node, or start a node too early.
use nova_project_bible.Common.{
  Uuid, String, ◌≡◌, refl, sym, ap, ◌∙◌, some, List, true, false, ◌==◌, arith, Bool-cases, inl, inr,
  ==_iff, Option-cases,
}
use mathlib.Core.Option
use nova_project_bible.Planning.Model.{
  TaskNode, TaskNodeStatus, pending, ready, running, blocked, completed, failed, by_id, ids,
}
use nova_project_bible.Planning.Admission.{may_start, admit_node, admit}
use nova_project_bible.Planning.Admission.Laws.{by_id-map, admit_node-id}
use nova_project_bible.Planning.Completion.{
  is_terminal, outcome_transition, restatus, set_status, resolve_transitions,
}
use nova_project_bible.Planning.Completion.Promote.{ids-admit}
use nova_project_bible.Planning.Completion.Consistent.{
  is_started, by_id-id, IsConsistent, admit-IsConsistent, restatus-id, set_status-IsConsistent,
}
use nova_project_bible.Planning.Admission.Checks.{IsUnique}
use nova_project_bible.Planning.Store.{ok, settle}
use nova_project_bible.Planning.Store.Advance.{
  advance_to, advance, ids-set_status, settle-resolve_transitions,
}

admit_node-terminal :
    {F : Type 0} (nodes : List (TaskNode F)) (n : TaskNode F)
    → is_terminal n.status ≡ true
    → admit_node nodes n ≡ n
unfolding admit_node may_start
admit_node-terminal nodes n h = ground arith

module _ {F : Type 0} (nodes : List (TaskNode F)) where
  -- A property that each update of a known and not terminal node has is one of `advance`.
  advance_ind :
      (P : List (TaskNode F) → Type 0) (outcome : String) (i : Uuid)
      → P nodes
      → ((m : TaskNode F) (st : TaskNodeStatus)
          → by_id nodes i ≡ some m
          → is_terminal m.status ≡ false
          → P (advance_to i st nodes))
      → P (advance outcome i nodes)
  advance_ind P outcome i same new = elim (Option-cases (by_id nodes i)) [
    | inl e ↦ rw (advance, e) same
    | inr (n, e) ↦ elim (Bool-cases (is_terminal n.status)) [
      | inl t ↦ rw (advance, e, t) same
      | inr t ↦ elim (Option-cases (outcome_transition outcome)) [
        | inl o ↦ rw (advance, e, t, o) same
        | inr (st, o) ↦ rw (advance, e, t, o) (new n st e t)
      ]
    ]
  ]

  -- And one that the two kinds of update have is one of `advance_to`.
  advance_to_ind :
      (P : List (TaskNode F) → Type 0) (i : Uuid) (st : TaskNodeStatus)
      → ((st' : TaskNodeStatus) → P (set_status i st' nodes))
      → (P (set_status i completed nodes) → P (admit (set_status i completed nodes)))
      → P (advance_to i st nodes)
  advance_to_ind P i completed plain admitted = admitted (plain completed)
  advance_to_ind P i pending plain admitted = plain pending
  advance_to_ind P i ready plain admitted = plain ready
  advance_to_ind P i running plain admitted = plain running
  advance_to_ind P i blocked plain admitted = plain blocked
  advance_to_ind P i failed plain admitted = plain failed

  -- Whatever the outcome and whichever node it names, a completed or failed node stays as it is.
  pub advance-terminal :
      (outcome : String) (i j : Uuid) (n : TaskNode F)
      → by_id nodes j ≡ some n
      → is_terminal n.status ≡ true
      → by_id (advance outcome i nodes) j ≡ some n
  advance-terminal outcome i j n found done =
      advance_ind (λ g. by_id g j ≡ some n) outcome i found
        λ m st at_i open_m.
          advance_to_ind (λ g. by_id g j ≡ some n) i st
            (λ st'.
              unfold set_status in
              by_id-map (restatus i st') nodes j (restatus-id i st')
              ∙ ap (Option.map (restatus i st')) found
              ∙ ap some (other m at_i open_m st'))
            (λ p.
              unfold admit in
              by_id-map (admit_node (set_status i completed nodes)) (set_status i completed nodes) j
                (admit_node-id (set_status i completed nodes))
              ∙ ap (Option.map (admit_node (set_status i completed nodes))) p
              ∙ ap some (admit_node-terminal (set_status i completed nodes) n done))
    where
      other :
          (m : TaskNode F)
          → by_id nodes i ≡ some m
          → is_terminal m.status ≡ false
          → (st' : TaskNodeStatus) → restatus i st' n ≡ n
      other m at_i open_m st' = elim (Bool-cases (n.id == i)) [
        | inr e ↦ rw e
        | inl e ↦
            let here : j ≡ i = sym (by_id-id nodes j n found) ∙ (==_iff n.id i).0 e in
            let p : some n ≡ some m = sym found ∙ ap (by_id nodes) here ∙ at_i in
            let q : n ≡ m = cc in let r : is_terminal n.status ≡ false = rw q open_m in cc
      ]

  -- If the finished node had been started, the graph stays consistent.
  pub advance-IsConsistent :
      (outcome : String) (i : Uuid)
      → ((m : TaskNode F) → by_id nodes i ≡ some m → is_started m.status ≡ true)
      → IsConsistent nodes
      → IsConsistent (advance outcome i nodes)
  advance-IsConsistent outcome i started was_consistent =
      advance_ind IsConsistent outcome i was_consistent λ m st at_i open_m.
        advance_to_ind IsConsistent i st
          (λ st'.
            set_status-IsConsistent nodes i st' m at_i (started m at_i) (ground arith)
              was_consistent)
          (admit-IsConsistent (set_status i completed nodes))

  pub ids-advance : (outcome : String) (i : Uuid) → ids (advance outcome i nodes) ≡ ids nodes
  ids-advance outcome i =
      advance_ind (λ g. ids g ≡ ids nodes) outcome i refl
        λ m st at_i open_m.
          advance_to_ind (λ g. ids g ≡ ids nodes) i st (λ st'. ids-set_status i st' nodes)
            (λ p. ids-admit (set_status i completed nodes) ∙ p)

-- Whatever the outcome and whichever node it names, applying its transitions leaves every
-- completed or failed node of a graph with unique ids as it is.
pub settle-terminal :
    {F : Type 0} (nodes : List (TaskNode F)) (outcome : String) (i j : Uuid) (n : TaskNode F)
    → IsUnique (ids nodes)
    → by_id nodes j ≡ some n
    → is_terminal n.status ≡ true
    → (nodes' : List (TaskNode F)) × (settle (resolve_transitions outcome i nodes) nodes
        ≡ ok nodes')
      × (by_id nodes' j ≡ some n)
settle-terminal nodes outcome i j n unique found done = (
  advance outcome i nodes,
  settle-resolve_transitions i nodes unique outcome,
  advance-terminal nodes outcome i j n found done,
)
