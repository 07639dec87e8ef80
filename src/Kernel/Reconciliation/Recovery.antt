-- ===== src/Kernel/Reconciliation/Recovery.antt =====
-- After a reconciliation no row is running, and every lost assignment has been reported.
use nova_project_bible.Kernel.State.Gives.{>>=-ok}
use nova_project_bible.Common.{
  Uuid, ◌≡◌, refl, sym, ap, ◌∙◌, subst, none, some, List, [], ◌∷◌, ◌++◌, true, false, ◌==◌, ==_self,
  arith, Option-cases, Bool-cases, inl, inr, contains, All, append-nil, append_assoc,
}
use nova_project_bible.Kernel.Model.{AgentInstance, failed, is_running, TaskCompleted}
use nova_project_bible.Kernel.State.{
  Ports, State, Result, ok, ◌>>=◌, pure, update_status, publish_event, set_row,
}
use nova_project_bible.Kernel.Reconciliation.{
  list_running, interrupted, report_interrupted, reconcile_each, reconcile_running_instances,
}

abbrev pub row_ids : List AgentInstance → List Uuid
row_ids [] = []
row_ids (r ∷ rows) = r.id ∷ row_ids rows

-- Every running row has one of the ids.
abbrev Covered : List Uuid → List AgentInstance → Type 0
Covered is rows = All (λ r. is_running r.status ≡ true → contains r.id is ≡ true) rows

Covered-cons :
    (i : Uuid) (is : List Uuid) (rows : List AgentInstance)
    → Covered is rows
    → Covered (i ∷ is) rows
Covered-cons i is [] c = tt
Covered-cons i is (r ∷ rows) (c, cs) = (λ h. let k = c h in ground arith, Covered-cons i is rows cs)

Covered-list_running : (rows : List AgentInstance) → Covered (row_ids (list_running rows)) rows
unfolding list_running
Covered-list_running [] = tt
Covered-list_running (r ∷ rows) = elim (Bool-cases (is_running r.status)) [
  | inl e ↦
      let all : list_running (r ∷ rows) ≡ r ∷ list_running rows = rw (list_running, e) in
      subst (λ l. Covered (row_ids l) (r ∷ rows)) (sym all)
        (
          λ h. rw ==_self,
          Covered-cons r.id (row_ids (list_running rows)) rows (Covered-list_running rows),
        )
  | inr e ↦
      let all : list_running (r ∷ rows) ≡ list_running rows = rw (list_running, e) in
      subst (λ l. Covered (row_ids l) (r ∷ rows)) (sym all)
        (λ h. let q : false ≡ true = sym e ∙ h in cc, Covered-list_running rows)
]

Covered-set_row :
    (i : Uuid) (is : List Uuid) (rows : List AgentInstance)
    → Covered (i ∷ is) rows
    → Covered is (set_row i failed none rows)
unfolding set_row
Covered-set_row i is [] c = tt
Covered-set_row i is (r ∷ rows) (c, cs) = elim (Bool-cases (r.id == i)) [
  | inl e ↦ rw e (λ h. cc, Covered-set_row i is rows cs)
  | inr e ↦ rw e (λ h. let k = c h in ground arith, Covered-set_row i is rows cs)
]

Covered-nil : (rows : List AgentInstance) → Covered [] rows → list_running rows ≡ []
unfolding list_running
Covered-nil [] c = refl
Covered-nil (r ∷ rows) (c, cs) = elim (Bool-cases (is_running r.status)) [
  | inl e ↦ let k : false ≡ true = c e in cc
  | inr e ↦ rw e (Covered-nil rows cs)
]

module _ {W F O : Type 0} (ports : Ports W F O) (new_correlation_id : Uuid → Uuid) where
  -- The events that the rows are owed.
  abbrev pub owed : List AgentInstance → List (TaskCompleted O)
  owed [] = []
  owed (r ∷ rows) = elim r.assigned_task_node_id [
    | none ↦ owed rows
    | some task_node_id ↦ interrupted ports new_correlation_id task_node_id r.id ∷ owed rows
  ]

  -- A run of the loop: it returns the ids, and leaves this.
  record Reconciled (todo : List AgentInstance) (s : State W O)
      (out : Result (List Uuid) × State W O) : Type 0 where
    final : State W O
    runs : out ≡ (ok (row_ids todo), final)
    published : final.published ≡ s.published ++ owed todo
    covered : Covered (row_ids todo) s.rows → Covered [] final.rows

  module _ (answers : (event : TaskCompleted O) (w : W) → (ports.publish event w).0 ≡ some tt) where
    report_interrupted_lem :
        (r : AgentInstance) (s : State W O)
        → (w' : W) × (report_interrupted ports new_correlation_id r s
            ≡ (ok tt, record s { world = w'; published = s.published ++ owed (r ∷ []) }))
    report_interrupted_lem r s = elim (Option-cases r.assigned_task_node_id) [
      | inl e ↦
          (s.world, unfold report_interrupted in rw (report_interrupted, e, append-nil s.published))
      | inr (t, e) ↦
          let event : TaskCompleted O = interrupted ports new_correlation_id t r.id in
          (
            (ports.publish event s.world).1,
            unfold report_interrupted publish_event in
                rw (report_interrupted, publish_event, e, answers event s.world),
          )
    ]

    owed-cons :
        (r : AgentInstance) (rest : List AgentInstance)
        → owed (r ∷ rest) ≡ owed (r ∷ []) ++ owed rest
    owed-cons r rest = elim (Option-cases r.assigned_task_node_id) [
      | inl e ↦ rw e
      | inr (t, e) ↦ rw e
    ]

    reconcile_each-Reconciled :
        (todo : List AgentInstance) (s : State W O)
        → Reconciled todo s (reconcile_each ports new_correlation_id todo s)
    unfolding reconcile_each update_status
    reconcile_each-Reconciled [] s = record {
      final = s;
      runs = refl;
      published = sym (append-nil s.published);
      covered = λ c. c;
    }
    reconcile_each-Reconciled (r ∷ rest) s =
        let marked : State W O = record s { rows = set_row r.id failed none s.rows } in
        let (w', told) = report_interrupted_lem r marked in
        let s' : State W O = record marked {
          world = w';
          published = s.published ++ owed (r ∷ []);
        } in
        let later = reconcile_each-Reconciled rest s' in
        record {
          final = later.final;
          runs =
              >>=-ok (update_status r.id failed none)
                (λ _. report_interrupted ports new_correlation_id r >>= λ _.
                  reconcile_each ports new_correlation_id rest >>= λ ids. pure (r.id ∷ ids))
                s marked tt refl
              ∙ >>=-ok (report_interrupted ports new_correlation_id r)
                  (λ _. reconcile_each ports new_correlation_id rest >>= λ ids. pure (r.id ∷ ids))
                  marked s' tt told
              ∙ >>=-ok (reconcile_each ports new_correlation_id rest) (λ ids. pure (r.id ∷ ids)) s'
                  later.final (row_ids rest) later.runs;
          published =
              later.published
              ∙ append_assoc s.published (owed (r ∷ [])) (owed rest)
              ∙ ap (λ l. s.published ++ l) (sym (owed-cons r rest));
          covered = λ c. later.covered (Covered-set_row r.id (row_ids rest) s.rows c);
        }

    -- With a bus that takes every event, a reconciliation returns the ids of the running rows, leaves
    -- no row running, and publishes one interrupted outcome for each of these rows that had a task.
    pub reconcile_running_instances_lem :
        (s : State W O)
        → (s' : State W O) × (reconcile_running_instances ports new_correlation_id s
            ≡ (ok (row_ids (list_running s.rows)), s'))
          × (list_running s'.rows ≡ [])
          × (s'.published ≡ s.published ++ owed (list_running s.rows))
    unfolding reconcile_running_instances
    reconcile_running_instances_lem s =
        let r = reconcile_each-Reconciled (list_running s.rows) s in
        (
          r.final,
          r.runs,
          Covered-nil r.final.rows (r.covered (Covered-list_running s.rows)),
          r.published,
        )
