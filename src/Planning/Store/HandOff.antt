-- ===== src/Planning/Store/HandOff.antt =====
-- `_hand_off`: each ready node becomes running in the transaction that publishes it.
use nova_project_bible.Common.{◌≡◌, refl, sym, ap, ◌∙◌, List, [], ◌∷◌, true, false, arith, subst}
use nova_project_bible.Planning.Model.{TaskNode, running, ids, is_completed, is_ready}
use nova_project_bible.Planning.Admission.Laws.{dependencies_satisfied-map_mono}
use nova_project_bible.Planning.Admission.Checks.{IsUnique}
use nova_project_bible.Planning.Completion.Promote.{ids-map, status_if-keep}
use nova_project_bible.Planning.Completion.Consistent.{is_started, IsConsistent, by_id-map_inv}
use nova_project_bible.Planning.Store.{hand_off_node, hand_off, handed_off, returned_nodes}

module _ {F : Type 0} where
  hand_off_node-id : (n : TaskNode F) → (hand_off_node n).id ≡ n.id
  hand_off_node-id n = ground arith

  hand_off_node-started :
      (n : TaskNode F) → is_started (hand_off_node n).status ≡ is_started n.status
  hand_off_node-started n = ground arith

  hand_off_node-completed :
      (n : TaskNode F) → is_completed (hand_off_node n).status ≡ is_completed n.status
  hand_off_node-completed n = ground arith

  depends_on-hand_off_node : (n : TaskNode F) → (hand_off_node n).depends_on ≡ n.depends_on
  depends_on-hand_off_node n = ground arith

  hand_off_node-not_ready : (n : TaskNode F) → is_ready (hand_off_node n).status ≡ false
  hand_off_node-not_ready n = ground arith

  pub ids-hand_off : (nodes : List (TaskNode F)) → ids (hand_off nodes) ≡ ids nodes
  unfolding hand_off
  ids-hand_off nodes = ids-map hand_off_node nodes hand_off_node-id

  -- After the hand-off no row is ready, so no later event publishes a node for a second dispatch.
  pub handed_off-hand_off : (nodes : List (TaskNode F)) → handed_off (hand_off nodes) ≡ []
  unfolding handed_off hand_off
  handed_off-hand_off [] = refl
  handed_off-hand_off (n ∷ nodes) = rw (hand_off_node-not_ready n) (handed_off-hand_off nodes)

  pub hand_off-IsConsistent :
      (nodes : List (TaskNode F)) → IsConsistent nodes → IsConsistent (hand_off nodes)
  unfolding hand_off
  hand_off-IsConsistent nodes ok i n' h started =
      let (n, e, p) = by_id-map_inv hand_off_node nodes i n' hand_off_node-id h in
      dependencies_satisfied-map_mono hand_off_node nodes n n'
        (ap (λ (m : TaskNode F). m.depends_on) (sym p) ∙ depends_on-hand_off_node n)
        hand_off_node-id (λ d m at_d was. hand_off_node-completed m ∙ was)
        (ok i n e (
          sym (hand_off_node-started n)
          ∙ subst (λ (m : TaskNode F). is_started m.status ≡ true) (sym p) started))

  -- The graph that a write returns is the one that it stored.
  pub returned_nodes-eq-hand_off :
      (nodes : List (TaskNode F)) → IsUnique (ids nodes) → returned_nodes nodes ≡ hand_off nodes
  unfolding returned_nodes hand_off handed_off
  returned_nodes-eq-hand_off nodes u = status_if-keep running (λ n. is_ready n.status) nodes u
