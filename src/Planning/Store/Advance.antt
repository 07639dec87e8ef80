-- ===== src/Planning/Store/Advance.antt =====
-- `resolve_transitions` and the loop of `apply_transitions` together, against the graph update
-- that they are meant to make.
use nova_project_bible.Common.{
  Uuid, String, ◌≡◌, refl, sym, ap, ◌∙◌, none, some, List, [], ◌∷◌, is_some, All, Bool, true,
  contains, arith, if◌then◌else◌, Bool-cases, inl, inr, map, Option-cases, subst, keep,
}
use nova_project_bible.Planning.Model.{
  TaskNode, TaskNodeStatus, pending, ready, running, blocked, completed, failed, by_id, ids,
  is_completed,
}
use nova_project_bible.Planning.Admission.{may_start, admit, promotable_ids}
use nova_project_bible.Planning.Admission.Checks.{IsUnique}
use nova_project_bible.Planning.Completion.{
  is_terminal, outcome_transition, restatus, set_status, to_ready, transitions_to,
  resolve_transitions,
}
use nova_project_bible.Planning.Completion.Promote.{
  status_if, status_if-restatus, map-status_if-nil, promote-eq-admit, ids-map,
}
use nova_project_bible.Planning.Completion.Consistent.{first_by_id-eq-by_id, restatus-id}
use nova_project_bible.Planning.Store.{ok, settle}

module _ {F : Type 0} where
  -- The update of a node that is known and not terminal.
  abbrev pub advance_to : Uuid → TaskNodeStatus → List (TaskNode F) → List (TaskNode F)
  advance_to i status nodes =
      if is_completed status
      then admit (set_status i completed nodes)
      else set_status i status nodes

  -- The graph after an outcome: the node gets its status, and a success admits the graph anew.
  abbrev pub advance : String → Uuid → List (TaskNode F) → List (TaskNode F)
  advance outcome i nodes = elim (by_id nodes i) [
    | none ↦ nodes
    | some n ↦ if is_terminal n.status then nodes else elim (outcome_transition outcome) [
      | none ↦ nodes
      | some status ↦ advance_to i status nodes
    ]
  ]

  pub ids-set_status :
      (i : Uuid) (st : TaskNodeStatus) (nodes : List (TaskNode F))
      → ids (set_status i st nodes) ≡ ids nodes
  unfolding set_status
  ids-set_status i st nodes = ids-map (restatus i st) nodes (restatus-id i st)

  pub known-contains :
      (nodes : List (TaskNode F)) (i : Uuid)
      → contains i (ids nodes) ≡ true
      → is_some (by_id nodes i) ≡ true
  unfolding by_id
  known-contains [] i h = cc
  known-contains (n ∷ nodes) i h = ground (arith, known-contains nodes i)

  contains-known :
      (nodes : List (TaskNode F)) (i : Uuid) (n : TaskNode F)
      → by_id nodes i ≡ some n
      → contains i (ids nodes) ≡ true
  unfolding by_id
  contains-known [] i n h = cc
  contains-known (m ∷ nodes) i n h = ground (arith, contains-known nodes i n)

  settle-to_ready :
      (l : List Uuid) (nodes : List (TaskNode F))
      → All (λ i. contains i (ids nodes) ≡ true) l
      → settle (to_ready l) nodes ≡ ok (map (status_if ready l) nodes)
  unfolding settle
  settle-to_ready [] nodes h = ap ok (sym (map-status_if-nil ready nodes))
  settle-to_ready (i ∷ l) nodes h = rw (known-contains nodes i h.0) (
      settle-to_ready l (set_status i ready nodes)
        (subst (λ t. All (λ j. contains j t ≡ true) l) (sym (ids-set_status i ready nodes)) h.1)
      ∙ ap ok (unfold set_status in status_if-restatus ready i l nodes))

  keep-All :
      (p : TaskNode F → Bool) (nodes : List (TaskNode F)) (all : List Uuid)
      → ((i : Uuid) → contains i (ids nodes) ≡ true → contains i all ≡ true)
      → All (λ i. contains i all ≡ true) (ids (keep p nodes))
  keep-All p [] all h = tt
  keep-All p (n ∷ nodes) all h = elim (Bool-cases (p n)) [
    | inl e ↦ rw e (h n.id (ground arith), keep-All p nodes all (λ i m. h i (ground arith)))
    | inr e ↦ rw e (keep-All p nodes all (λ i m. h i (ground arith)))
  ]

  promotable_ids-All :
      (nodes : List (TaskNode F)) → All (λ i. contains i (ids nodes) ≡ true) (promotable_ids nodes)
  unfolding promotable_ids
  promotable_ids-All nodes = keep-All (may_start nodes) nodes (ids nodes) (λ i m. m)

  module _ (i : Uuid) (nodes : List (TaskNode F)) (unique : IsUnique (ids nodes)) where
    settle-completed :
        contains i (ids nodes) ≡ true
        → settle (transitions_to i completed nodes) nodes
          ≡ ok (admit (set_status i completed nodes))
    unfolding settle transitions_to
    settle-completed m =
        let after = set_status i completed nodes in
        rw (known-contains nodes i m) (
          settle-to_ready (promotable_ids after) after (promotable_ids-All after)
          ∙ ap ok (
              promote-eq-admit after
                (subst IsUnique (sym (ids-set_status i completed nodes)) unique)))

    settle-transitions_to :
        (st : TaskNodeStatus)
        → contains i (ids nodes) ≡ true
        → settle (transitions_to i st nodes) nodes ≡ ok (advance_to i st nodes)
    settle-transitions_to completed m = settle-completed m
    settle-transitions_to pending m = unfold settle transitions_to in rw (known-contains nodes i m)
    settle-transitions_to ready m = unfold settle transitions_to in rw (known-contains nodes i m)
    settle-transitions_to running m = unfold settle transitions_to in rw (known-contains nodes i m)
    settle-transitions_to blocked m = unfold settle transitions_to in rw (known-contains nodes i m)
    settle-transitions_to failed m = unfold settle transitions_to in rw (known-contains nodes i m)

    -- The resolved transitions, applied one by one, never name a missing row, and amount to
    -- `advance`.
    pub settle-resolve_transitions :
        (outcome : String)
        → settle (resolve_transitions outcome i nodes) nodes ≡ ok (advance outcome i nodes)
    unfolding resolve_transitions
    settle-resolve_transitions outcome =
        let first = first_by_id-eq-by_id i nodes unique in
        elim (Option-cases (by_id nodes i)) [
          | inl e ↦ rw (resolve_transitions, advance, first, e) (unfold settle in refl)
          | inr (n, e) ↦ elim (Bool-cases (is_terminal n.status)) [
            | inl t ↦ rw (resolve_transitions, advance, first, e, t) (unfold settle in refl)
            | inr t ↦ elim (Option-cases (outcome_transition outcome)) [
              | inl o ↦ rw (resolve_transitions, advance, first, e, t, o) (unfold settle in refl)
              | inr (st, o) ↦
                  rw (resolve_transitions, advance, first, e, t, o)
                    (settle-transitions_to st (contains-known nodes i n e))
            ]
          ]
        ]
