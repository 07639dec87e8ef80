-- ===== src/Planning/Admission/Checks.antt =====
-- The checks on a graph before its critical path is computed: duplicate ids, missing nodes.
use nova_project_bible.Common.{
  Uuid, ◌≡◌, ◌≢◌, refl, sym, ◌∙◌, List, [], ◌∷◌, ◌++◌, ◌↔◌, not, true, false, contains, arith,
  Bool-cases, inl, inr, ◌&&◌, Option-cases, is_some, all_of, List-cases, cons-ne-nil,
}
use nova_project_bible.Common.Dict.{Dict, put}
use nova_project_bible.Planning.Model.{TaskNode, by_id, ids}
use nova_project_bible.Planning.Admission.{
  duplicates_from, find_duplicate_ids, dangling_from, find_dangling_dependencies, missing_of,
}

-- Each identifier occurs once.
abbrev pub IsUnique : List Uuid → Type 0
IsUnique [] = Unit
IsUnique (x ∷ xs) = (contains x xs ≡ false) × IsUnique xs

-- No element of the second list occurs in the first.
abbrev pub IsFresh : List Uuid → List Uuid → Type 0
IsFresh seen [] = Unit
IsFresh seen (x ∷ xs) = (contains x seen ≡ false) × IsFresh seen xs

IsFresh-cons :
    (x : Uuid) (seen xs : List Uuid)
    → IsFresh (x ∷ seen) xs ↔ ((contains x xs ≡ false) × IsFresh seen xs)
IsFresh-cons x seen [] = (λ h. (refl, tt), λ h. tt)
IsFresh-cons x seen (y ∷ xs) =
    let (a, b) = IsFresh-cons x seen xs in
    (
      λ h. let (c, d) = a h.1 in (ground arith, (ground arith, d)),
      λ h. (ground arith, b (ground arith, h.1.1)),
    )

IsFresh-nil : (xs : List Uuid) → IsFresh [] xs
IsFresh-nil [] = tt
IsFresh-nil (x ∷ xs) = (refl, IsFresh-nil xs)

snoc-ne-nil : (xs : List Uuid) (x : Uuid) → xs ++ x ∷ [] ≢ []
snoc-ne-nil [] x e = cc
snoc-ne-nil (y ∷ xs) x e = cc

put-ne-nil : (d : Dict (List Uuid)) (k : Uuid) (v : List Uuid) → put d k v ≢ []
unfolding put
put-ne-nil [] k v e = cc
put-ne-nil ((j, w) ∷ d) k v e = ground arith

module _ {F : Type 0} where
  -- Once a duplicate is found it stays in the result.
  duplicates_from-ne-nil :
      (seen : List Uuid) (duplicates : List Uuid) (nodes : List (TaskNode F))
      → duplicates ≢ []
      → duplicates_from seen duplicates nodes ≢ []
  unfolding duplicates_from
  duplicates_from-ne-nil seen duplicates [] h = h
  duplicates_from-ne-nil seen duplicates (n ∷ nodes) h =
      duplicates_from-ne-nil (n.id ∷ seen) _ nodes λ e.
        elim (Bool-cases (contains n.id seen && not (contains n.id duplicates))) [
          | inl c ↦ snoc-ne-nil duplicates n.id (rw c at e)
          | inr c ↦ h (rw c at e)
        ]

  duplicates_from-eq-nil :
      (seen : List Uuid) (nodes : List (TaskNode F))
      → (duplicates_from seen [] nodes ≡ []) ↔ (IsUnique (ids nodes) × IsFresh seen (ids nodes))
  unfolding duplicates_from
  duplicates_from-eq-nil seen [] = (λ h. (tt, tt), λ h. refl)
  duplicates_from-eq-nil seen (n ∷ nodes) = elim (Bool-cases (contains n.id seen)) [
    | inl e ↦ rw e (
      λ p. absurd (duplicates_from-ne-nil (n.id ∷ seen) (n.id ∷ []) nodes (λ q. cc) p),
      λ w. let no_way : true ≡ false = w.1.0 in cc,
    )
    | inr e ↦ rw e (
        let (a, b) = duplicates_from-eq-nil (n.id ∷ seen) nodes in
        let (c, d) = IsFresh-cons n.id seen (ids nodes) in
        (
          λ p. let (u, fresh) = a p in let (x, y) = c fresh in ((x, u), (refl, y)),
          λ w. b (w.0.1, d (w.0.0, w.1.1)),
        ))
  ]

  -- `find_duplicate_ids` is empty exactly if each id occurs once.
  pub find_duplicate_ids-eq-nil :
      (nodes : List (TaskNode F)) → (find_duplicate_ids nodes ≡ []) ↔ IsUnique (ids nodes)
  unfolding find_duplicate_ids
  find_duplicate_ids-eq-nil nodes =
      let (a, b) = duplicates_from-eq-nil [] nodes in
      (λ p. (a p).0, λ u. b (u, IsFresh-nil (ids nodes)))

  -- Each dependency of each node is a node of the graph.
  abbrev pub IsLinked : List (TaskNode F) → List (TaskNode F) → Type 0
  IsLinked all [] = Unit
  IsLinked all (n ∷ nodes) =
      (all_of (λ d. is_some (by_id all d)) n.depends_on ≡ true) × IsLinked all nodes

  missing_of-eq-nil :
      (all : List (TaskNode F)) (deps : List Uuid)
      → (missing_of all deps ≡ []) ↔ (all_of (λ d. is_some (by_id all d)) deps ≡ true)
  missing_of-eq-nil all [] = (λ h. refl, λ h. refl)
  missing_of-eq-nil all (d ∷ deps) = elim (Option-cases (by_id all d)) [
    | inl e ↦ rw e (λ p. cc, λ p. cc)
    | inr (n, e) ↦ rw e (missing_of-eq-nil all deps)
  ]

  dangling_from-ne-nil :
      (all : List (TaskNode F)) (d : Dict (List Uuid)) (nodes : List (TaskNode F))
      → d ≢ []
      → dangling_from all d nodes ≢ []
  unfolding dangling_from
  dangling_from-ne-nil all d [] h = h
  dangling_from-ne-nil all d (n ∷ nodes) h = elim (List-cases (missing_of all n.depends_on)) [
    | inl e ↦ rw e (dangling_from-ne-nil all d nodes h)
    | inr (x, rest, e) ↦
        rw e (dangling_from-ne-nil all (put d n.id (x ∷ rest)) nodes (put-ne-nil d n.id (x ∷ rest)))
  ]

  dangling_from-eq-nil :
      (all nodes : List (TaskNode F)) → (dangling_from all [] nodes ≡ []) ↔ IsLinked all nodes
  unfolding dangling_from
  dangling_from-eq-nil all [] = (λ h. tt, λ h. refl)
  dangling_from-eq-nil all (n ∷ nodes) =
      let (a, b) = missing_of-eq-nil all n.depends_on in
      let (c, d) = dangling_from-eq-nil all nodes in
      elim (List-cases (missing_of all n.depends_on)) [
        | inl e ↦ rw e (λ p. (a e, c p), λ w. d w.1)
        | inr (x, rest, e) ↦ rw e (
          λ p. absurd (dangling_from-ne-nil all _ nodes (put-ne-nil [] n.id (x ∷ rest)) p),
          λ w. absurd (cons-ne-nil x rest (sym e ∙ b w.0)),
        )
      ]

  -- `find_dangling_dependencies` is empty exactly if each dependency is a node of the graph.
  pub find_dangling_dependencies-eq-nil :
      (nodes : List (TaskNode F)) → (find_dangling_dependencies nodes ≡ []) ↔ IsLinked nodes nodes
  unfolding find_dangling_dependencies
  find_dangling_dependencies-eq-nil nodes = dangling_from-eq-nil nodes nodes
