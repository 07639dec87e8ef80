-- ===== src/Planning/Admission/Laws.antt =====
-- What admission does to a graph.
use nova_project_bible.Common.{
  Uuid, ◌≡◌, refl, sym, ap, ◌∙◌, some, List, [], ◌∷◌, Bool, true, false, arith, if◌then◌else◌, inl,
  inr, map, keep, all_of, Option-cases, subst,
}
use mathlib.Core.Option
use nova_project_bible.Planning.Model.{TaskNode, ready, by_id, ids, is_completed}
use nova_project_bible.Planning.Admission.{
  is_done, dependencies_satisfied, may_start, admit_node, admit, promotable_ids,
}

pub all_of-ext {ℓ} :
    {A : Type ℓ} (p q : A → Bool) (xs : List A) → ((x : A) → p x ≡ q x) → all_of p xs ≡ all_of q xs
all_of-ext p q [] h = refl
all_of-ext p q (x ∷ xs) h = rw (h x, all_of-ext p q xs h)

pub all_of_mono {ℓ} :
    {A : Type ℓ} (p q : A → Bool) (xs : List A)
    → ((x : A) → p x ≡ true → q x ≡ true)
    → all_of p xs ≡ true
    → all_of q xs ≡ true
all_of_mono p q [] h k = refl
all_of_mono p q (x ∷ xs) h k = ground (arith, h x, all_of_mono p q xs h)

module _ {F : Type 0} where
  pub by_id-map :
      (f : TaskNode F → TaskNode F) (nodes : List (TaskNode F)) (i : Uuid)
      → ((n : TaskNode F) → (f n).id ≡ n.id)
      → by_id (map f nodes) i ≡ Option.map f (by_id nodes i)
  unfolding by_id
  by_id-map f [] i same = refl
  by_id-map f (n ∷ nodes) i same = ground (arith, by_id-map f nodes i same, same n)

  pub is_done-map :
      (f : TaskNode F → TaskNode F) (nodes : List (TaskNode F)) (d : Uuid)
      → ((n : TaskNode F) → (f n).id ≡ n.id)
      → ((n : TaskNode F) → is_completed (f n).status ≡ is_completed n.status)
      → is_done (map f nodes) d ≡ is_done nodes d
  unfolding is_done
  is_done-map f nodes d same keeps = elim (Option-cases (by_id nodes d)) [
    | inl e ↦ rw (is_done, by_id-map f nodes d same, e)
    | inr (n, e) ↦ rw (is_done, by_id-map f nodes d same, e) (keeps n)
  ]

  pub is_done-map_mono :
      (f : TaskNode F → TaskNode F) (nodes : List (TaskNode F)) (d : Uuid)
      → ((n : TaskNode F) → (f n).id ≡ n.id)
      → ((n : TaskNode F)
          → by_id nodes d ≡ some n
          → is_completed n.status ≡ true
          → is_completed (f n).status ≡ true)
      → is_done nodes d ≡ true
      → is_done (map f nodes) d ≡ true
  unfolding is_done
  is_done-map_mono f nodes d same keeps h = elim (Option-cases (by_id nodes d)) [
    | inl e ↦ (let p : false ≡ true = (rw (is_done, e) at h) in cc)
    | inr (n, e) ↦ rw (is_done, by_id-map f nodes d same, e) (keeps n e (rw (is_done, e) at h))
  ]

  pub dependencies_satisfied-map_mono :
      (f : TaskNode F → TaskNode F) (nodes : List (TaskNode F)) (n n' : TaskNode F)
      → n'.depends_on ≡ n.depends_on
      → ((m : TaskNode F) → (f m).id ≡ m.id)
      → ((d : Uuid) (m : TaskNode F)
          → by_id nodes d ≡ some m
          → is_completed m.status ≡ true
          → is_completed (f m).status ≡ true)
      → dependencies_satisfied nodes n ≡ true
      → dependencies_satisfied (map f nodes) n' ≡ true
  unfolding dependencies_satisfied
  dependencies_satisfied-map_mono f nodes n n' deps same keeps h = rw deps (
      all_of_mono (is_done nodes) (is_done (map f nodes)) n.depends_on
        (λ d. is_done-map_mono f nodes d same (keeps d)) h)

  admit_lem : (nodes : List (TaskNode F)) → admit nodes ≡ map (admit_node nodes) nodes
  unfolding admit
  admit_lem nodes = refl

  module _ (nodes : List (TaskNode F)) where
    pub admit_node-id : (n : TaskNode F) → (admit_node nodes n).id ≡ n.id
    unfolding admit_node
    admit_node-id n = ground arith

    -- Admission completes no node.
    pub is_completed-admit_node :
        (n : TaskNode F) → is_completed (admit_node nodes n).status ≡ is_completed n.status
    unfolding admit_node may_start
    is_completed-admit_node n = ground arith

    pub is_done-admit : (d : Uuid) → is_done (admit nodes) d ≡ is_done nodes d
    unfolding admit
    is_done-admit d = is_done-map (admit_node nodes) nodes d admit_node-id is_completed-admit_node

    pub dependencies_satisfied-admit :
        (n : TaskNode F) → dependencies_satisfied (admit nodes) n ≡ dependencies_satisfied nodes n
    unfolding dependencies_satisfied
    dependencies_satisfied-admit n = all_of-ext _ _ n.depends_on is_done-admit

    -- An admitted node cannot be admitted again.
    may_start-admit : (n : TaskNode F) → may_start (admit nodes) (admit_node nodes n) ≡ false
    unfolding may_start admit_node dependencies_satisfied
    may_start-admit n = ground (arith, dependencies_satisfied-admit n)

    nothing_left :
        (rest : List (TaskNode F))
        → ids (keep (may_start (admit nodes)) (map (admit_node nodes) rest)) ≡ []
    nothing_left [] = refl
    nothing_left (n ∷ rest) = rw (may_start-admit n) (nothing_left rest)

    admit_node-admit :
        (n : TaskNode F) → admit_node (admit nodes) (admit_node nodes n) ≡ admit_node nodes n
    admit_node-admit n =
        unfold admit_node in
        ap
          (λ (b : Bool).
            if b then record (admit_node nodes n) { status = ready } else admit_node nodes n)
          (may_start-admit n)

    again :
        (rest : List (TaskNode F))
        → map (admit_node (admit nodes)) (map (admit_node nodes) rest) ≡ map (admit_node nodes) rest
    again [] = refl
    again (n ∷ rest) = rw (admit_node-admit n, again rest)

    -- After admission no node is left to promote, and a second admission changes nothing.
    pub admit_fixpoint : (promotable_ids (admit nodes) ≡ []) × (admit (admit nodes) ≡ admit nodes)
    admit_fixpoint = (
      unfold promotable_ids in
          subst (λ l. ids (keep (may_start (admit nodes)) l) ≡ []) (sym (admit_lem nodes))
            (nothing_left nodes),
      admit_lem (admit nodes)
          ∙ ap (map (admit_node (admit nodes))) (admit_lem nodes)
          ∙ again nodes
          ∙ sym (admit_lem nodes),
    )
