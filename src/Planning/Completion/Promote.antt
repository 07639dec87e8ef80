-- ===== src/Planning/Completion/Promote.antt =====
-- Promotion by ids, as the task-completed handler does it, is admission.
use nova_project_bible.Common.{
  Uuid, ◌≡◌, refl, ap, ◌∙◌, List, [], ◌∷◌, Bool, true, false, contains, arith, if◌then◌else◌,
  Bool-cases, inl, inr, map, keep, ==_self,
}
use nova_project_bible.Planning.Model.{TaskNode, TaskNodeStatus, ready, ids}
use nova_project_bible.Planning.Admission.Laws.{admit_node-id}
use nova_project_bible.Planning.Admission.{may_start, admit_node, admit, promotable_ids}
use nova_project_bible.Planning.Admission.Checks.{IsUnique}
use nova_project_bible.Planning.Completion.{with_status, restatus}

module _ {F : Type 0} where
  -- A node of the listed ids with the new status.
  abbrev pub status_if : TaskNodeStatus → List Uuid → TaskNode F → TaskNode F
  status_if st l n = if contains n.id l then with_status st n else n

  abbrev pub status_where : TaskNodeStatus → (TaskNode F → Bool) → TaskNode F → TaskNode F
  status_where st p n = if p n then with_status st n else n

  pub status_if-restatus :
      (st : TaskNodeStatus) (i : Uuid) (l : List Uuid) (nodes : List (TaskNode F))
      → map (status_if st l) (map (restatus i st) nodes) ≡ map (status_if st (i ∷ l)) nodes
  status_if-restatus st i l [] = refl
  status_if-restatus st i l (n ∷ nodes) = ground (arith, status_if-restatus st i l nodes)

  pub map-status_if-nil :
      (st : TaskNodeStatus) (nodes : List (TaskNode F)) → map (status_if st []) nodes ≡ nodes
  map-status_if-nil st [] = refl
  map-status_if-nil st (n ∷ nodes) = ap (λ t. n ∷ t) (map-status_if-nil st nodes)

  -- An id that no node has makes no difference.
  status_if-absent :
      (st : TaskNodeStatus) (i : Uuid) (l : List Uuid) (nodes : List (TaskNode F))
      → contains i (ids nodes) ≡ false
      → map (status_if st (i ∷ l)) nodes ≡ map (status_if st l) nodes
  status_if-absent st i l [] h = refl
  status_if-absent st i l (n ∷ nodes) h = ground (arith, status_if-absent st i l nodes)

  contains-keep :
      (p : TaskNode F → Bool) (i : Uuid) (nodes : List (TaskNode F))
      → contains i (ids nodes) ≡ false
      → contains i (ids (keep p nodes)) ≡ false
  contains-keep p i [] h = refl
  contains-keep p i (n ∷ nodes) h = ground (arith, contains-keep p i nodes)

  keep_pass :
      (p : TaskNode F → Bool) (n : TaskNode F) (nodes : List (TaskNode F))
      → p n ≡ true
      → keep p (n ∷ nodes) ≡ n ∷ keep p nodes
  keep_pass p n nodes e = rw e

  keep_drop :
      (p : TaskNode F → Bool) (n : TaskNode F) (nodes : List (TaskNode F))
      → p n ≡ false
      → keep p (n ∷ nodes) ≡ keep p nodes
  keep_drop p n nodes e = rw e

  pub status_if-keep :
      (st : TaskNodeStatus) (p : TaskNode F → Bool) (nodes : List (TaskNode F))
      → IsUnique (ids nodes)
      → map (status_if st (ids (keep p nodes))) nodes ≡ map (status_where st p) nodes
  status_if-keep st p [] u = refl
  status_if-keep st p (n ∷ nodes) u = elim (Bool-cases (p n)) [
    | inl e ↦
        ap (λ l. map (status_if st (ids l)) (n ∷ nodes)) (keep_pass p n nodes e)
        ∙ rw (==_self, e, status_if-absent st n.id (ids (keep p nodes)) nodes u.0)
            (ap (λ t. with_status st n ∷ t) (status_if-keep st p nodes u.1))
    | inr e ↦
        ap (λ l. map (status_if st (ids l)) (n ∷ nodes)) (keep_drop p n nodes e)
        ∙ rw (e, contains-keep p n.id nodes u.0) (ap (λ t. n ∷ t) (status_if-keep st p nodes u.1))
  ]

  -- To make the promotable ids ready is to admit the graph, where no id occurs twice.
  pub promote-eq-admit :
      (nodes : List (TaskNode F))
      → IsUnique (ids nodes)
      → map (status_if ready (promotable_ids nodes)) nodes ≡ admit nodes
  unfolding promotable_ids admit admit_node
  promote-eq-admit nodes u = status_if-keep ready (may_start nodes) nodes u

  pub ids-map :
      (f : TaskNode F → TaskNode F) (nodes : List (TaskNode F))
      → ((n : TaskNode F) → (f n).id ≡ n.id)
      → ids (map f nodes) ≡ ids nodes
  ids-map f [] same = refl
  ids-map f (n ∷ nodes) same = rw (same n, ids-map f nodes same)

  pub ids-admit : (nodes : List (TaskNode F)) → ids (admit nodes) ≡ ids nodes
  unfolding admit
  ids-admit nodes = ids-map (admit_node nodes) nodes (admit_node-id nodes)
