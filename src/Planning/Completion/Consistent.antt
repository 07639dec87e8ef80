-- ===== src/Planning/Completion/Consistent.antt =====
-- The invariant of a task graph: a node that has been started has its dependencies completed.
use nova_project_bible.Common.{
  Uuid, ◌≡◌, refl, sym, ap, ◌∙◌, Option, none, some, List, [], ◌∷◌, Bool, true, false, ◌==◌,
  contains, arith, Bool-cases, inl, inr, map, ==_iff, Option-cases, subst,
}
use mathlib.Core.Option
use nova_project_bible.Planning.Model.{
  TaskNode, TaskNodeStatus, pending, blocked, by_id, ids, is_completed,
}
use nova_project_bible.Planning.Admission.{dependencies_satisfied, may_start, admit_node, admit}
use nova_project_bible.Planning.Admission.Laws.{
  by_id-map, admit_node-id, dependencies_satisfied-map_mono, dependencies_satisfied-admit,
}
use nova_project_bible.Planning.Admission.Checks.{IsUnique}
use nova_project_bible.Planning.Completion.{first_by_id, restatus, set_status}

-- Neither waiting for its dependencies nor blocked.
abbrev pub is_started : TaskNodeStatus → Bool
is_started pending = false
is_started blocked = false
is_started _ = true

module _ {F : Type 0} where
  pub by_id-id :
      (nodes : List (TaskNode F)) (i : Uuid) (n : TaskNode F) → by_id nodes i ≡ some n → n.id ≡ i
  unfolding by_id
  by_id-id [] i n h = cc
  by_id-id (m ∷ nodes) i n h = ground (arith, by_id-id nodes i n)

  pub by_id-absent :
      (nodes : List (TaskNode F)) (i : Uuid) → contains i (ids nodes) ≡ false → by_id nodes i ≡ none
  unfolding by_id
  by_id-absent [] i h = refl
  by_id-absent (n ∷ nodes) i h = ground (arith, by_id-absent nodes i)

  -- Where no id occurs twice, the first node of an id is the only one.
  pub first_by_id-eq-by_id :
      (i : Uuid) (nodes : List (TaskNode F))
      → IsUnique (ids nodes)
      → first_by_id i nodes ≡ by_id nodes i
  unfolding by_id first_by_id
  first_by_id-eq-by_id i [] u = refl
  first_by_id-eq-by_id i (n ∷ nodes) u =
      ground (arith, first_by_id-eq-by_id i nodes u.1, by_id-absent nodes n.id u.0)

  abbrev pub IsConsistent : List (TaskNode F) → Type 0
  IsConsistent nodes =
      (i : Uuid) (n : TaskNode F)
      → by_id nodes i ≡ some n
      → is_started n.status ≡ true
      → dependencies_satisfied nodes n ≡ true

  -- A node of the changed graph comes from a node of the old one.
  pub by_id-map_inv :
      (f : TaskNode F → TaskNode F) (nodes : List (TaskNode F)) (i : Uuid) (n' : TaskNode F)
      → ((m : TaskNode F) → (f m).id ≡ m.id)
      → by_id (map f nodes) i ≡ some n'
      → (n : TaskNode F) × (by_id nodes i ≡ some n) × (f n ≡ n')
  by_id-map_inv f nodes i n' same h = elim (Option-cases (by_id nodes i)) [
    | inl e ↦
        (let p : ◌≡◌ {A = Option (TaskNode F)} none (some n') =
            ap (Option.map f) (sym e) ∙ sym (by_id-map f nodes i same) ∙ h in
          cc)
    | inr (n, e) ↦ (
      n,
      e,
      (let p : some (f n) ≡ some n' =
            ap (Option.map f) (sym e) ∙ sym (by_id-map f nodes i same) ∙ h in
          cc),
    )
  ]

  dependencies_satisfied-ext :
      (nodes : List (TaskNode F)) (n n' : TaskNode F)
      → n'.depends_on ≡ n.depends_on
      → dependencies_satisfied nodes n' ≡ dependencies_satisfied nodes n
  unfolding dependencies_satisfied
  dependencies_satisfied-ext nodes n n' e = rw e

  admit_node-started :
      (nodes : List (TaskNode F)) (n : TaskNode F)
      → (is_started n.status ≡ true → dependencies_satisfied nodes n ≡ true)
      → is_started (admit_node nodes n).status ≡ true
      → dependencies_satisfied nodes n ≡ true
  unfolding admit_node may_start
  admit_node-started nodes n h started = ground (arith, h)

  depends_on-admit_node :
      (nodes : List (TaskNode F)) (n : TaskNode F) → (admit_node nodes n).depends_on ≡ n.depends_on
  unfolding admit_node
  depends_on-admit_node nodes n = ground arith

  -- Admission keeps a graph consistent.
  pub admit-IsConsistent :
      (nodes : List (TaskNode F)) → IsConsistent nodes → IsConsistent (admit nodes)
  admit-IsConsistent nodes ok i n' h started =
      let (n, e, p) =
        by_id-map_inv (admit_node nodes) nodes i n' (admit_node-id nodes) (unfold admit in h) in
      dependencies_satisfied-ext (admit nodes) n n'
        (ap (λ (m : TaskNode F). m.depends_on) (sym p) ∙ depends_on-admit_node nodes n)
      ∙ dependencies_satisfied-admit nodes n
      ∙ admit_node-started nodes n (ok i n e)
          (subst (λ (m : TaskNode F). is_started m.status ≡ true) (sym p) started)

  pub restatus-id : (i : Uuid) (st : TaskNodeStatus) (n : TaskNode F) → (restatus i st n).id ≡ n.id
  restatus-id i st n = ground arith

  depends_on-restatus :
      (i : Uuid) (st : TaskNodeStatus) (n : TaskNode F)
      → (restatus i st n).depends_on ≡ n.depends_on
  depends_on-restatus i st n = ground arith

  -- The node `m` of id `i` may take a new status if it had been started and was not completed.
  restatus-started :
      (i : Uuid) (st : TaskNodeStatus) (n m : TaskNode F)
      → (n.id ≡ i → n ≡ m)
      → is_started m.status ≡ true
      → is_started (restatus i st n).status ≡ true
      → is_started n.status ≡ true
  restatus-started i st n m same was h = elim (Bool-cases (n.id == i)) [
    | inl e ↦ rw (same ((==_iff n.id i).0 e)) was
    | inr e ↦ (rw e at h)
  ]

  restatus-completed :
      (i : Uuid) (st : TaskNodeStatus) (n m : TaskNode F)
      → (n.id ≡ i → n ≡ m)
      → is_completed m.status ≡ false
      → is_completed n.status ≡ true
      → is_completed (restatus i st n).status ≡ true
  restatus-completed i st n m same not_yet h = elim (Bool-cases (n.id == i)) [
    | inl e ↦
        (let p : is_completed m.status ≡ true =
            subst (λ (k : TaskNode F). is_completed k.status ≡ true) (same ((==_iff n.id i).0 e))
              h in
          cc)
    | inr e ↦ rw e h
  ]

  -- A started node that is not completed may take any status.
  pub set_status-IsConsistent :
      (nodes : List (TaskNode F)) (i : Uuid) (st : TaskNodeStatus) (m : TaskNode F)
      → by_id nodes i ≡ some m
      → is_started m.status ≡ true
      → is_completed m.status ≡ false
      → IsConsistent nodes
      → IsConsistent (set_status i st nodes)
  set_status-IsConsistent nodes i st m found was not_yet ok j n' h started =
      let (n, e, p) =
        by_id-map_inv (restatus i st) nodes j n' (restatus-id i st) (unfold set_status in h) in
      unfold set_status in
      dependencies_satisfied-map_mono (restatus i st) nodes n n'
        (ap (λ (k : TaskNode F). k.depends_on) (sym p) ∙ depends_on-restatus i st n)
        (restatus-id i st) (λ d k at_d. restatus-completed i st k m (only d k at_d) not_yet)
        (ok j n e (
          restatus-started i st n m (only j n e) was
            (subst (λ (k : TaskNode F). is_started k.status ≡ true) (sym p) started)))
    where
      only : (d : Uuid) (k : TaskNode F) → by_id nodes d ≡ some k → k.id ≡ i → k ≡ m
      only d k at_d e =
          let here : d ≡ i = sym (by_id-id nodes d k at_d) ∙ e in
          let p : some k ≡ some m = sym at_d ∙ ap (by_id nodes) here ∙ found in cc
