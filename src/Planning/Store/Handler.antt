-- ===== src/Planning/Store/Handler.antt =====
-- The handler of `agent_os.task.completed` keeps the stored graphs valid, and never raises.
use nova_project_bible.Common.{
  Uuid, String, ◌≡◌, ◌≢◌, refl, sym, ap, ◌∙◌, Option, some, List, [], ◌∷◌, ◌++◌, All, List-cases,
  cons-ne-nil, ◌⊎◌, true, ◌==◌, contains, arith, Bool-cases, inl, inr, subst, ==_self, Option-cases,
}
use nova_project_bible.Planning.Model.{TaskNode, by_id, ids}
use nova_project_bible.Planning.Admission.Checks.{IsUnique}
use nova_project_bible.Planning.Completion.{first_by_id, resolve_transitions}
use nova_project_bible.Planning.Completion.Consistent.{
  is_started, IsConsistent, first_by_id-eq-by_id,
}
use nova_project_bible.Planning.Store.{
  TaskGraph, Store, ok, find_graph, find_node, hand_off, handed_off, returned_nodes, save_nodes,
  apply_transitions, handle_task_completed,
}
use nova_project_bible.Planning.Store.Advance.{advance, settle-resolve_transitions}
use nova_project_bible.Planning.Store.Safety.{advance-IsConsistent, ids-advance}
use nova_project_bible.Planning.Store.HandOff.{
  ids-hand_off, handed_off-hand_off, hand_off-IsConsistent,
}

module _ {F : Type 0} where
  -- A stored graph: node ids are unique, a started node has its dependencies completed, and every
  -- ready node has been handed off.
  pub record IsValidGraph (g : TaskGraph F) : Type 0 where
    pub unique : IsUnique (ids g.nodes)
    pub consistent : IsConsistent g.nodes
    pub handed : handed_off g.nodes ≡ []

  abbrev pub graph_ids : List (TaskGraph F) → List Uuid
  graph_ids [] = []
  graph_ids (g ∷ graphs) = g.id ∷ graph_ids graphs

  pub record IsValid {E : Type 0} (s : Store F E) : Type 0 where
    pub keys : IsUnique (graph_ids s.graphs)
    pub each : All IsValidGraph s.graphs

  -- `find_node` names a stored graph, which its id finds again.
  record Located (i : Uuid) (graphs : List (TaskGraph F)) (g : TaskGraph F) (n : TaskNode F)
      : Type 0 where
    again : find_graph g.id graphs ≡ some g
    listed : contains g.id (graph_ids graphs) ≡ true
    valid : IsValidGraph g
    first : first_by_id i g.nodes ≡ some n

  locate :
      (i : Uuid) (graphs : List (TaskGraph F)) (g : TaskGraph F) (n : TaskNode F)
      → IsUnique (graph_ids graphs)
      → All IsValidGraph graphs
      → find_node i graphs ≡ some (g, n)
      → Located i graphs g n
  unfolding find_node find_graph
  locate i [] g n u v h = cc
  locate i (k ∷ graphs) g n u v h = elim (Option-cases (first_by_id i k.nodes)) [
    | inl e ↦
        let l = locate i graphs g n u.1 v.1 (rw (find_node, e) at h) in
        record {
          again = ground (arith, l.again, l.listed, u.0);
          listed = ground (arith, l.listed);
          valid = l.valid;
          first = l.first;
        }
    | inr (m, e) ↦
        let p : ◌≡◌ {A = Option (TaskGraph F × TaskNode F)} (some (k, m)) (some (g, n)) =
          (rw (find_node, e) at h) in
        let q : k ≡ g = cc in
        let r : m ≡ n = cc in
        record {
          again = rw q (rw ==_self);
          listed = rw q (rw ==_self);
          valid = subst IsValidGraph q v.0;
          first = rw (← q) (e ∙ ap some r);
        }
  ]

  graph_ids-save_nodes :
      (i : Uuid) (nodes : List (TaskNode F)) (graphs : List (TaskGraph F))
      → graph_ids (save_nodes i nodes graphs) ≡ graph_ids graphs
  unfolding save_nodes
  graph_ids-save_nodes i nodes [] = refl
  graph_ids-save_nodes i nodes (g ∷ graphs) = ground (arith, graph_ids-save_nodes i nodes graphs)

  save_nodes-All :
      (i : Uuid) (nodes : List (TaskNode F)) (graphs : List (TaskGraph F))
      → IsUnique (ids nodes)
      → IsConsistent nodes
      → handed_off nodes ≡ []
      → All IsValidGraph graphs
      → All IsValidGraph (save_nodes i nodes graphs)
  unfolding save_nodes
  save_nodes-All i nodes [] u c h v = tt
  save_nodes-All i nodes (g ∷ graphs) u c h v = elim (Bool-cases (g.id == i)) [
    | inl e ↦
        rw e (
          record { unique = u; consistent = c; handed = h },
          save_nodes-All i nodes graphs u c h v.1,
        )
    | inr e ↦ rw e (v.0, save_nodes-All i nodes graphs u c h v.1)
  ]

  module _ {E : Type 0} (i : Uuid) (outcome : String) (builder : TaskGraph F → E)
      (s : Store F E) where
    -- The store after an outcome that changes the graph `g`.
    abbrev pub advanced : TaskGraph F → Store F E
    advanced g = record {
      graphs = save_nodes g.id (hand_off (advance outcome i g.nodes)) s.graphs;
      outbox = s.outbox ++ builder (record g { nodes = advance outcome i g.nodes }) ∷ [];
    }

    advanced-IsValid :
        (g : TaskGraph F)
        → IsValid s
        → IsValidGraph g
        → ((m : TaskNode F) → by_id g.nodes i ≡ some m → is_started m.status ≡ true)
        → IsValid (advanced g)
    advanced-IsValid g v vg started =
        let nodes = advance outcome i g.nodes in
        record {
          keys = subst IsUnique (sym (graph_ids-save_nodes g.id (hand_off nodes) s.graphs)) v.keys;
          each =
              save_nodes-All g.id (hand_off nodes) s.graphs
                (subst IsUnique (sym (ids-hand_off nodes ∙ ids-advance g.nodes outcome i))
                  vg.unique)
                (hand_off-IsConsistent nodes
                  (advance-IsConsistent g.nodes outcome i started vg.consistent))
                (handed_off-hand_off nodes) v.each;
        }

    apply_resolved :
        (g : TaskGraph F)
        → find_graph g.id s.graphs ≡ some g
        → IsUnique (ids g.nodes)
        → (g' : TaskGraph F) × (apply_transitions g.id
              (resolve_transitions outcome i g.nodes)
              builder
              s
            ≡ ok (g', advanced g))
    unfolding apply_transitions
    apply_resolved g found u = (
      record g { nodes = returned_nodes (advance outcome i g.nodes) },
      rw (apply_transitions, found, settle-resolve_transitions i g.nodes u outcome),
    )

    -- The handler never raises and keeps the store valid, if the finished node had been started. Its
    -- result is the old store where no transition applies, and `advanced` otherwise.
    pub handle_task_completed-IsValid :
        IsValid s
        → ((g : TaskGraph F) (n : TaskNode F)
            → find_node i s.graphs ≡ some (g, n)
            → is_started n.status ≡ true)
        → (s' : Store F E) × (handle_task_completed i outcome builder s ≡ ok s')
          × IsValid s'
          × ((s' ≡ s)
              ⊎ ((g : TaskGraph F) × (find_graph g.id s.graphs ≡ some g)
                  × (resolve_transitions outcome i g.nodes ≢ [])
                  × (s' ≡ advanced g)))
    unfolding handle_task_completed
    handle_task_completed-IsValid v started = elim (Option-cases (find_node i s.graphs)) [
      | inl e ↦ (s, rw (handle_task_completed, e), v, inl refl)
      | inr ((g, n), e) ↦
          let l = locate i s.graphs g n v.keys v.each e in
          elim (List-cases (resolve_transitions outcome i g.nodes)) [
            | inl none_apply ↦ (s, rw (handle_task_completed, e, none_apply), v, inl refl)
            | inr (t, rest, some_apply) ↦
                let (g', done) = apply_resolved g l.again l.valid.unique in
                (
                  advanced g,
                  rw (handle_task_completed, e, some_apply, (rw some_apply at done)),
                  advanced-IsValid g v l.valid (λ m at_i.
                      let p : some n ≡ some m =
                        sym l.first ∙ first_by_id-eq-by_id i g.nodes l.valid.unique ∙ at_i in
                      let q : n ≡ m = cc in
                      subst (λ (k : TaskNode F). is_started k.status ≡ true) q (started g n e)),
                  inr (g, l.again, λ q. cons-ne-nil t rest (sym some_apply ∙ q), refl),
                )
          ]
    ]
