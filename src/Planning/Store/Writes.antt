-- ===== src/Planning/Store/Writes.antt =====
-- What `insert` and `apply_transitions` store, publish and return.
use nova_project_bible.Common.{
  Uuid, ◌≡◌, ◌≢◌, refl, sym, ap, ◌∙◌, subst, Option, none, some, List, [], ◌∷◌, ◌++◌, All, ◌==◌,
  ==_self, Bool-cases, inl, inr,
}
use nova_project_bible.Planning.Model.{
  TaskNode, TaskNodeStatus, pending, ready, running, blocked, completed, failed, ids,
}
use nova_project_bible.Planning.Admission.Checks.{IsUnique}
use nova_project_bible.Planning.Store.{
  TaskGraph, Store, find_graph, hand_off_node, hand_off, insert,
}
use nova_project_bible.Planning.Store.HandOff.{returned_nodes-eq-hand_off}

module _ {F : Type 0} where
  -- A ready node of the first list is running in the second, and no other node differs.
  abbrev pub HandsOver : List (TaskNode F) → List (TaskNode F) → Type 0
  HandsOver [] [] = Unit
  HandsOver [] (m ∷ ms) = ⊥
  HandsOver (n ∷ ns) [] = ⊥
  HandsOver (n ∷ ns) (m ∷ ms) =
      (n.status ≡ ready → m ≡ record n { status = running })
      × (n.status ≢ ready → m ≡ n)
      × HandsOver ns ms

  -- The graph `g` is what is stored; `published` is what the one event says.
  pub record Written {E : Type 0} (i : Uuid) (builder : TaskGraph F → E) (before after : Store F E)
      (published g : TaskGraph F) : Type 0 where
    pub stored : find_graph i after.graphs ≡ some g
    pub one_event : after.outbox ≡ before.outbox ++ builder published ∷ []
    pub hands_over : HandsOver published.nodes g.nodes
    pub none_ready : All (λ n. n.status ≢ ready) g.nodes

  running_node :
      (n : TaskNode F)
      → (n.status ≡ ready → hand_off_node n ≡ record n { status = running })
        × (n.status ≢ ready → hand_off_node n ≡ n)
        × ((hand_off_node n).status ≢ ready)
  running_node n = go n.status refl
    where
      go :
          (status : TaskNodeStatus)
          → n.status ≡ status
          → (n.status ≡ ready → hand_off_node n ≡ record n { status = running })
            × (n.status ≢ ready → hand_off_node n ≡ n)
            × ((hand_off_node n).status ≢ ready)
      go ready e = (λ q. rw e refl, λ q. absurd (q e), rw e (λ h. cc))
      go pending e =
          (λ q. let k : pending ≡ ready = sym e ∙ q in cc, λ q. rw e refl, rw e (λ h. cc))
      go running e =
          (λ q. let k : running ≡ ready = sym e ∙ q in cc, λ q. rw e refl, rw e (λ h. cc))
      go blocked e =
          (λ q. let k : blocked ≡ ready = sym e ∙ q in cc, λ q. rw e refl, rw e (λ h. cc))
      go completed e =
          (λ q. let k : completed ≡ ready = sym e ∙ q in cc, λ q. rw e refl, rw e (λ h. cc))
      go failed e = (λ q. let k : failed ≡ ready = sym e ∙ q in cc, λ q. rw e refl, rw e (λ h. cc))

  HandsOver-hand_off : (nodes : List (TaskNode F)) → HandsOver nodes (hand_off nodes)
  unfolding hand_off
  HandsOver-hand_off [] = tt
  HandsOver-hand_off (n ∷ nodes) =
      let (to, same, started) = running_node n in (to, same, HandsOver-hand_off nodes)

  hand_off-none_ready : (nodes : List (TaskNode F)) → All (λ n. n.status ≢ ready) (hand_off nodes)
  unfolding hand_off
  hand_off-none_ready [] = tt
  hand_off-none_ready (n ∷ nodes) =
      let (to, same, started) = running_node n in (started, hand_off-none_ready nodes)

  find_graph-append :
      (i : Uuid) (graphs : List (TaskGraph F)) (g : TaskGraph F)
      → find_graph i graphs ≡ none
      → g.id ≡ i
      → find_graph i (graphs ++ g ∷ []) ≡ some g
  unfolding find_graph
  find_graph-append i [] g absent is_i = rw (is_i, ==_self) refl
  find_graph-append i (x ∷ graphs) g absent is_i = elim (Bool-cases (x.id == i)) [
    | inl e ↦
        let p : ◌≡◌ {A = Option (TaskGraph F)} (some x) none = (rw (find_graph, e) at absent) in cc
    | inr e ↦ rw (find_graph, e) (find_graph-append i graphs g (rw (find_graph, e) at absent) is_i)
  ]

  module _ {E : Type 0} (builder : TaskGraph F → E) (s : Store F E) where
    -- Inserting a graph with a new id and distinct node ids stores the graph that it returns, in which
    -- no node is ready, and publishes once the graph as it was given, whose ready nodes are the ones
    -- that now run; the other nodes are stored as they were.
    pub insert-Written :
        (g : TaskGraph F)
        → find_graph g.id s.graphs ≡ none
        → IsUnique (ids g.nodes)
        → Written g.id builder s (insert g builder s).1 g (insert g builder s).0
    unfolding insert
    insert-Written g absent u =
        let same = returned_nodes-eq-hand_off g.nodes u in
        let graph_with = λ (nodes : List (TaskNode F)). record g { nodes = nodes } in
        record {
          stored =
              find_graph-append g.id s.graphs (record g { nodes = hand_off g.nodes }) absent refl
              ∙ ap (λ nodes. some (record g { nodes = nodes })) (sym same);
          one_event = refl;
          hands_over = subst (HandsOver g.nodes) (sym same) (HandsOver-hand_off g.nodes);
          none_ready = subst (All (λ n. n.status ≢ ready)) (sym same) (hand_off-none_ready g.nodes);
        }
