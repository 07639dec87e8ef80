-- ===== src/Planning/Cycle/Correct.antt =====
-- `find_cycle` returns a cycle exactly if the dependencies have one.
use nova_project_bible.Common.{
  ℕ, ◌≤◌, Uuid, ◌≡◌, ◌≢◌, refl, sym, ap, ◌∙◌, Option, none, some, List, [], ◌∷◌, ◌++◌, true, false,
  ◌==◌, contains, arith, Bool-cases, inl, inr, ==_iff, subst, length, ◌↔◌, is_some, Option-cases,
}
use nova_project_bible.Planning.Model.{TaskNode, by_id, ids}
use nova_project_bible.Planning.Cycle.{
  Color, white, Search, Outcome, found, clear, out_of_fuel, blank, known, visit, visit_all,
  search_cycle, find_cycle, has_cycle,
}
use nova_project_bible.Planning.Cycle.Walks.{IsWalk, IsCycle, IsWalk-snoc}
use nova_project_bible.Planning.Cycle.Visit.{
  count_white, count_white-le, contains-ids, Ends, ends, Inv, Later, Later-refl, Later-trans,
  Ensures, >>=-Ensures, Ensures-weaken, Visited,
}
use nova_project_bible.Planning.Cycle.Descent.{visit-Ensures, color-cases}

count_white-le_length :
    {F : Type 0} (c : Uuid → Color) (nodes : List (TaskNode F))
    → count_white c (ids nodes) ≤ length nodes
count_white-le_length c [] = omega arith
count_white-le_length c (n ∷ nodes) = elim (color-cases (c n.id)) [
  | inl p ↦ rw p (omega (arith, count_white-le_length c nodes))
  | inr (inl p) ↦ rw p (omega (arith, count_white-le_length c nodes))
  | inr (inr p) ↦ rw p (omega (arith, count_white-le_length c nodes))
]

module _ {F : Type 0} (nodes : List (TaskNode F)) where
  -- What the loop over `rest` leaves: no node of it is white, nor known and grey.
  record Started (rest : List (TaskNode F)) (s s' : Search) : Type 0 where
    inv : Inv nodes s'
    later : Later nodes s s'
    started : (i : Uuid) → contains i (ids rest) ≡ true → s'.color i ≢ white

  blank-Inv : Inv nodes blank
  blank-Inv = record { walk = tt; greys = λ x h. cc; blacks = λ x h. cc }

  -- What one round leaves.
  record Begun (i : Uuid) (s t : Search) : Type 0 where
    inv : Inv nodes t
    later : Later nodes s t
    begun : t.color i ≢ white

  begin-Ensures :
      (fuel : ℕ) (i : Uuid) (s : Search)
      → known nodes i ≡ true
      → Inv nodes s
      → s.path ≡ []
      → count_white s.color (ids nodes) ≤ fuel
      → Ensures nodes (Begun i s) (elim (s.color i) [ white ↦ visit nodes fuel i s | _ ↦ clear s ])
  begin-Ensures fuel i s k inv top enough = elim (color-cases (s.color i)) [
    | inl p ↦ rw p (
        Ensures-weaken nodes (Visited nodes i s) (Begun i s) (visit nodes fuel i s)
          (λ t v. record { inv = v.inv; later = v.later; begun = λ e. cc (v.done k) })
          (visit-Ensures nodes fuel i s inv p k (rw top tt) enough))
    | inr (inl p) ↦ rw p (record { inv = inv; later = Later-refl nodes s; begun = λ e. cc })
    | inr (inr p) ↦ rw p (record { inv = inv; later = Later-refl nodes s; begun = λ e. cc })
  ]

  Started-cons :
      (n : TaskNode F) (rest : List (TaskNode F)) (s t : Search)
      → Begun n.id s t
      → (u : Search) → Started rest t u
      → Started (n ∷ rest) s u
  Started-cons n rest s t b u st = record {
    inv = st.inv;
    later = Later-trans nodes b.later st.later;
    started = λ i h. elim (Bool-cases (n.id == i)) [
      | inl e ↦ λ w. b.begun (st.later.fades n.id (rw ((==_iff n.id i).0 e) w))
      | inr e ↦ st.started i (ground arith)
    ];
  }

  visit_all-Ensures :
      (fuel : ℕ) (rest : List (TaskNode F)) (s : Search)
      → ((i : Uuid) → contains i (ids rest) ≡ true → known nodes i ≡ true)
      → Inv nodes s
      → s.path ≡ []
      → count_white s.color (ids nodes) ≤ fuel
      → Ensures nodes (Started rest s) (visit_all nodes fuel rest s)
  unfolding visit_all
  visit_all-Ensures fuel [] s k inv top enough = record {
    inv = inv;
    later = Later-refl nodes s;
    started = λ i h. cc;
  }
  visit_all-Ensures fuel (n ∷ rest) s k inv top enough =
      >>=-Ensures nodes (Begun n.id s) (Started (n ∷ rest) s) _ (visit_all nodes fuel rest)
        (begin-Ensures fuel n.id s (k n.id (ground arith)) inv top enough)
        λ t b.
          Ensures-weaken nodes (Started rest t) (Started (n ∷ rest) s) (visit_all nodes fuel rest t)
            (Started-cons n rest s t b)
            (visit_all-Ensures fuel rest t (λ i h. k i (ground arith)) b.inv
              (b.later.same_path ∙ top)
              (omega (arith, count_white-le s.color t.color (ids nodes) b.later.fades)))

known-ids :
    {F : Type 0} (nodes : List (TaskNode F)) (i : Uuid)
    → contains i (ids nodes) ≡ true
    → known nodes i ≡ true
unfolding by_id
known-ids [] i h = cc
known-ids (n ∷ nodes) i h = ground (arith, known-ids nodes i)

module _ {F : Type 0} (nodes : List (TaskNode F)) where
  search_cycle-Ensures : Ensures nodes (Started nodes nodes blank) (search_cycle nodes)
  unfolding search_cycle
  search_cycle-Ensures =
      visit_all-Ensures nodes (length nodes) nodes blank (known-ids nodes) (blank-Inv nodes) refl
        (count_white-le_length blank.color nodes)

  Started-Ends :
      (s : Search) → Started nodes nodes blank s → (i : Uuid) → known nodes i ≡ true → Ends nodes i
  Started-Ends s st i k = elim (color-cases (s.color i)) [
    | inl p ↦ absurd (st.started i (contains-ids nodes i k) p)
    | inr (inl p) ↦
        (let off_path : contains i [] ≡ true =
            sym (ap (contains i) st.later.same_path) ∙ st.inv.greys i p in
          cc)
    | inr (inr p) ↦ st.inv.blacks i p
  ]

  -- A closed walk can be begun at its second node.
  no_closed_walk :
      {x : Uuid} (between : List Uuid) → Ends nodes x → IsWalk nodes (x ∷ (between ++ x ∷ [])) → ⊥
  no_closed_walk {x} [] (ends next) w = no_closed_walk [] (next x w.0) w
  no_closed_walk {x} (y ∷ r) (ends next) w =
      no_closed_walk (r ++ x ∷ []) (next y w.0) (IsWalk-snoc nodes (y ∷ r) x y w.1 w.0)

  known_end :
      (x y : Uuid) (between : List Uuid)
      → IsWalk nodes (x ∷ (between ++ y ∷ []))
      → known nodes y ≡ true
  known_end x y [] w = w.0.present
  known_end x y (z ∷ r) w = known_end z y r w.1

  -- The fuel, one unit for each node, is enough: the search ends for every list of nodes.
  pub search_cycle-ne-out_of_fuel : search_cycle nodes ≢ out_of_fuel
  search_cycle-ne-out_of_fuel e =
      subst (Ensures nodes (Started nodes nodes blank)) e search_cycle-Ensures

  -- A returned list is a closed walk along the dependencies of the graph.
  pub find_cycle-IsCycle : (c : List Uuid) → find_cycle nodes ≡ some c → IsCycle nodes c
  unfolding find_cycle
  find_cycle-IsCycle c e = go (search_cycle nodes) search_cycle-Ensures e
    where
      go :
          (o : Outcome)
          → Ensures nodes (Started nodes nodes blank) o
          → (elim o [ found c' ↦ some c' | clear _ ↦ none | out_of_fuel ↦ none ]) ≡ some c
          → IsCycle nodes c
      go (found c') h p = let q : c' ≡ c = cc in subst (IsCycle nodes) q h
      go (clear s) h p = cc
      go out_of_fuel h p = cc

  -- If None is returned, every chain of dependencies that begins at a node of the graph ends.
  pub find_cycle-Ends : find_cycle nodes ≡ none → (i : Uuid) → known nodes i ≡ true → Ends nodes i
  unfolding find_cycle
  find_cycle-Ends e = go (search_cycle nodes) search_cycle-Ensures e
    where
      go :
          (o : Outcome)
          → Ensures nodes (Started nodes nodes blank) o
          → ◌≡◌ {A = Option (List Uuid)}
              (elim o [ found c' ↦ some c' | clear _ ↦ none | out_of_fuel ↦ none ])
              none
          → (i : Uuid) → known nodes i ≡ true
          → Ends nodes i
      go (found c') h p = cc
      go (clear s) h p = Started-Ends s h
      go out_of_fuel h p = absurd h

  -- `has_cycle` is true exactly if there is a closed walk along the dependencies.
  pub has_cycle_iff : (has_cycle nodes ≡ true) ↔ ((c : List Uuid) × IsCycle nodes c)
  unfolding has_cycle
  has_cycle_iff = (forth, back)
    where
      forth : is_some (find_cycle nodes) ≡ true → (c : List Uuid) × IsCycle nodes c
      forth h = elim (Option-cases (find_cycle nodes)) [
        | inl e ↦ (let p : false ≡ true = (rw e at h) in cc)
        | inr (c, e) ↦ (c, find_cycle-IsCycle c e)
      ]

      back : (c : List Uuid) × IsCycle nodes c → is_some (find_cycle nodes) ≡ true
      back (c, cyc) = elim (Option-cases (find_cycle nodes)) [
        | inr (c', e) ↦ rw e
        | inl e ↦
            let w = subst (IsWalk nodes) cyc.closed cyc.walk in
            absurd (
              no_closed_walk cyc.between
                (find_cycle-Ends e cyc.start (known_end cyc.start cyc.start cyc.between w)) w)
      ]
