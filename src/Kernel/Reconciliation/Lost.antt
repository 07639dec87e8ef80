-- ===== src/Kernel/Reconciliation/Lost.antt =====
-- A reconciliation that raises, where the bus does not take an event.
use nova_project_bible.Kernel.State.Gives.{Gives, Gives-ok, Gives-err, >>=-ok, >>=-err, >>=-Gives}
use nova_project_bible.Common.{
  Uuid, ◌≡◌, refl, sym, ap, ◌∙◌, subst, none, some, List, [], ◌∷◌, ◌++◌, true, false, ◌==◌, ==_iff,
  Bool-cases, Option-cases, inl, inr, contains, All, append-nil, append_assoc,
}
use nova_project_bible.Kernel.Model.{AgentInstance, failed, is_running, TaskCompleted}
use nova_project_bible.Kernel.State.{
  Ports, State, Error, Result, port_raised, ok, err, ◌>>=◌, pure, update_status, publish_event,
  set_row,
}
use nova_project_bible.Kernel.Reconciliation.{
  list_running, interrupted, report_interrupted, reconcile_each, reconcile_running_instances,
}
use nova_project_bible.Kernel.Reconciliation.Recovery.{row_ids, owed}

-- A row set to failed is not found by the next reconciliation.
set_row-unseen :
    (i : Uuid) (rows : List AgentInstance)
    → contains i (row_ids (list_running (set_row i failed none rows))) ≡ false
unfolding list_running set_row
set_row-unseen i [] = refl
set_row-unseen i (r ∷ rows) = elim (Bool-cases (r.id == i)) [
  | inl e ↦ rw e (set_row-unseen i rows)
  | inr e ↦ elim (Bool-cases (is_running r.status)) [
    | inl k ↦ rw (e, k, e) (set_row-unseen i rows)
    | inr k ↦ rw (e, k) (set_row-unseen i rows)
  ]
]

abbrev pub AreFailed : Uuid → List AgentInstance → Type 0
AreFailed i rows = All (λ x. x.id ≡ i → x.status ≡ failed) rows

set_row-AreFailed :
    (i : Uuid) (rows : List AgentInstance) → AreFailed i (set_row i failed none rows)
unfolding set_row
set_row-AreFailed i [] = tt
set_row-AreFailed i (r ∷ rows) = elim (Bool-cases (r.id == i)) [
  | inl e ↦ rw e (λ q. refl, set_row-AreFailed i rows)
  | inr e ↦
      rw e (λ q. let k : (r.id == i) ≡ true = (==_iff r.id i).1 q in cc, set_row-AreFailed i rows)
]

row_ids-set_row :
    (i : Uuid) (rows : List AgentInstance) → row_ids (set_row i failed none rows) ≡ row_ids rows
unfolding set_row
row_ids-set_row i [] = refl
row_ids-set_row i (r ∷ rows) = elim (Bool-cases (r.id == i)) [
  | inl e ↦ rw e (ap (λ l. r.id ∷ l) (row_ids-set_row i rows))
  | inr e ↦ rw e (ap (λ l. r.id ∷ l) (row_ids-set_row i rows))
]

module _ {W F O : Type 0} (ports : Ports W F O) (new_correlation_id : Uuid → Uuid) where
  -- The rows before one of them are reported, and that one is failed without an event.
  pub record Lost (todo : List AgentInstance) (before after : State W O) : Type 0 where
    pub earlier : List AgentInstance
    pub row : AgentInstance
    pub rest : List AgentInstance
    pub task : Uuid
    pub split : todo ≡ earlier ++ row ∷ rest
    pub assigned : row.assigned_task_node_id ≡ some task
    pub told : after.published ≡ before.published ++ owed ports new_correlation_id earlier
    pub are_failed : AreFailed row.id after.rows
    pub unseen : contains row.id (row_ids (list_running after.rows)) ≡ false
    pub same_rows : row_ids after.rows ≡ row_ids before.rows

  abbrev Ends : List AgentInstance → State W O → Result (List Uuid) × State W O → Type 0
  Ends todo s out = Gives (λ _ _. Unit) (Lost todo s) out

  -- A reported row comes before the one that is lost.
  Lost-cons :
      (r : AgentInstance) (rest : List AgentInstance) (s s' t : State W O)
      → s'.rows ≡ set_row r.id failed none s.rows
      → s'.published ≡ s.published ++ owed ports new_correlation_id (r ∷ [])
      → Lost rest s' t
      → Lost (r ∷ rest) s t
  Lost-cons r rest s s' t rows published l = record {
    earlier = r ∷ l.earlier;
    row = l.row;
    rest = l.rest;
    task = l.task;
    split = ap (λ k. r ∷ k) l.split;
    assigned = l.assigned;
    told =
        l.told
        ∙ ap (λ k. k ++ owed ports new_correlation_id l.earlier) published
        ∙ append_assoc s.published (owed ports new_correlation_id (r ∷ []))
            (owed ports new_correlation_id l.earlier)
        ∙ ap (λ k. s.published ++ k) (owed-cons l.earlier);
    are_failed = l.are_failed;
    unseen = l.unseen;
    same_rows = l.same_rows ∙ ap row_ids rows ∙ row_ids-set_row r.id s.rows;
  }
    where
      owed-cons :
          (more : List AgentInstance)
          → owed ports new_correlation_id (r ∷ []) ++ owed ports new_correlation_id more
            ≡ owed ports new_correlation_id (r ∷ more)
      owed-cons more = elim (Option-cases r.assigned_task_node_id) [
        | inl e ↦ rw e
        | inr (t, e) ↦ rw e
      ]

  reconcile_each-Ends :
      (todo : List AgentInstance) (s : State W O)
      → Ends todo s (reconcile_each ports new_correlation_id todo s)
  unfolding reconcile_each update_status
  reconcile_each-Ends [] s = Gives-ok _ _ _ _ tt
  reconcile_each-Ends (r ∷ rest) s =
      subst (Ends (r ∷ rest) s)
        (sym (
          >>=-ok (update_status r.id failed none)
            (λ _. report_interrupted ports new_correlation_id r >>= λ _.
              reconcile_each ports new_correlation_id rest >>= λ ids. pure (r.id ∷ ids))
            s marked tt refl))
        (elim (Option-cases r.assigned_task_node_id) [
          | inl e ↦
              reported (λ s'. reconcile_each-Ends rest s') marked
                (unfold report_interrupted in rw (report_interrupted, e)) refl
                (rw e (sym (append-nil s.published)))
          | inr (t, e) ↦
              let event : TaskCompleted O = interrupted ports new_correlation_id t r.id in
              let w' = (ports.publish event s.world).1 in
              elim (Option-cases (ports.publish event s.world).0) [
                | inl refused ↦
                    subst (Ends (r ∷ rest) s)
                      (sym (
                        >>=-err (report_interrupted ports new_correlation_id r) go_on marked
                          (record marked { world = w' }) port_raised
                          (unfold report_interrupted publish_event in
                            rw (report_interrupted, publish_event, e, refused))))
                      (Gives-err _ _ port_raised _ (lost t e w'))
                | inr (taken, p) ↦
                    reported (λ s'. reconcile_each-Ends rest s')
                      (record marked { world = w'; published = s.published ++ event ∷ [] })
                      (unfold report_interrupted publish_event in
                        rw (report_interrupted, publish_event, e, p))
                      refl (rw e)
              ]
        ])
    where
      marked : State W O
      marked = record s { rows = set_row r.id failed none s.rows }

      go_on : Unit {0} → State W O → Result (List Uuid) × State W O
      go_on _ = reconcile_each ports new_correlation_id rest >>= λ ids. pure (r.id ∷ ids)

      lost :
          (t : Uuid)
          → r.assigned_task_node_id ≡ some t
          → (w' : W) → Lost (r ∷ rest) s (record marked { world = w' })
      lost t e w' = record {
        earlier = [];
        row = r;
        rest = rest;
        task = t;
        split = refl;
        assigned = e;
        told = sym (append-nil s.published);
        are_failed = set_row-AreFailed r.id s.rows;
        unseen = set_row-unseen r.id s.rows;
        same_rows = row_ids-set_row r.id s.rows;
      }

      reported :
          ((s' : State W O) → Ends rest s' (reconcile_each ports new_correlation_id rest s'))
          → (s' : State W O) → report_interrupted ports new_correlation_id r marked ≡ (ok tt, s')
          → s'.rows ≡ marked.rows
          → s'.published ≡ s.published ++ owed ports new_correlation_id (r ∷ [])
          → Ends (r ∷ rest) s ((report_interrupted ports new_correlation_id r >>= go_on) marked)
      reported again s' runs rows published =
          let later = again s' in
          let lifted : Ends (r ∷ rest) s (reconcile_each ports new_correlation_id rest s') =
            record {
              on_ok = later.on_ok;
              on_err = λ e q.
                  Lost-cons r rest s s' (reconcile_each ports new_correlation_id rest s').1 rows
                    published (later.on_err e q);
            } in
          subst (Ends (r ∷ rest) s)
            (sym (>>=-ok (report_interrupted ports new_correlation_id r) go_on marked s' tt runs))
            (>>=-Gives (λ _ _. Unit) (λ _ _. Unit) (Lost (r ∷ rest) s)
              (reconcile_each ports new_correlation_id rest) (λ ids. pure (r.id ∷ ids)) s' lifted
              λ ids t h. Gives-ok _ _ _ _ tt)

  -- Where a reconciliation raises, there is a running row with a task such that it has published the
  -- events of the running rows before it and no others. Every row with the id of that one is stored as
  -- failed, and the next reconciliation does not find it. The row ids stay the same.
  pub reconcile_running_instances-Lost :
      (s : State W O) (e : Error)
      → (reconcile_running_instances ports new_correlation_id s).0 ≡ err e
      → Lost (list_running s.rows) s (reconcile_running_instances ports new_correlation_id s).1
  unfolding reconcile_running_instances
  reconcile_running_instances-Lost s e raised =
      (reconcile_each-Ends (list_running s.rows) s).on_err e raised
