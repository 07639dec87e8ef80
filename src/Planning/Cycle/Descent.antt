-- ===== src/Planning/Cycle/Descent.antt =====
-- `visit` and its loop meet their specification, by induction on the fuel.
use nova_project_bible.Common.{
  ℕ, zero, suc, ◌≤◌, Uuid, ◌≡◌, ◌≢◌, refl, sym, ap, ◌∙◌, List, [], ◌∷◌, ◌++◌, true, ◌==◌, contains,
  contains-append, arith, Bool-cases, inl, inr, ==_iff, subst, ◌⊎◌,
}
use nova_project_bible.Planning.Model.{TaskNode, ids}
use nova_project_bible.Planning.Cycle.{
  Color, white, grey, black, Search, Outcome, clear, paint, pop, enter, leave, deps_of, known,
  visit_dep, visit_deps, visit,
}
use nova_project_bible.Planning.Cycle.Walks.{IsWalk, pop-snoc, IsWalk-snoc}
use nova_project_bible.Planning.Cycle.Visit.{
  count_white, count_white-le, count_white-paint_lt, contains-ids, Ends, ends, Inv, Later-refl,
  Later-trans, Ensures, >>=-Ensures, Ensures-weaken, Visited, AllVisited, Visits, IsCycle-found,
}

paint_self : (c : Uuid → Color) (i : Uuid) (d : Color) → paint c i d i ≡ d
unfolding paint
paint_self c i d = ground arith

-- A node other than the painted one keeps its colour.
paint_cases :
    (c : Uuid → Color) (i x : Uuid) (d : Color)
    → ((i ≡ x) × (paint c i d x ≡ d)) ⊎ ((i ≢ x) × (paint c i d x ≡ c x))
unfolding paint
paint_cases c i x d = ground arith

paint_ne : (c : Uuid → Color) (i x : Uuid) (d e : Color) → i ≢ x → paint c i d x ≡ e → c x ≡ e
unfolding paint
paint_ne c i x d e other h = ground arith

paint_keeps : (c : Uuid → Color) (i x : Uuid) (d e : Color) → i ≢ x → c x ≡ e → paint c i d x ≡ e
unfolding paint
paint_keeps c i x d e other h = ground arith

pub color-cases : (c : Color) → (c ≡ white) ⊎ (c ≡ grey) ⊎ (c ≡ black)
color-cases white = inl refl
color-cases grey = inr (inl refl)
color-cases black = inr (inr refl)

module _ {F : Type 0} (nodes : List (TaskNode F)) where
  Inv-enter :
      (i : Uuid) (s : Search)
      → Inv nodes s
      → IsWalk nodes (s.path ++ i ∷ [])
      → Inv nodes (enter i s)
  unfolding enter
  Inv-enter i s inv w = record {
    walk = w;
    greys = λ x h. elim (paint_cases s.color i x grey) [
      | inl (e, p) ↦ ground (arith, contains-append x s.path (i ∷ []))
      | inr (e, p) ↦ ground (arith, contains-append x s.path (i ∷ []), inv.greys x)
    ];
    blacks = λ x h. elim (paint_cases s.color i x grey) [
      | inl (e, p) ↦ cc
      | inr (e, p) ↦ inv.blacks x (cc)
    ];
  }

  visit_dep-Ensures :
      (fuel : ℕ) (go : Uuid → Search → Outcome)
      → Visits nodes fuel go
      → (d : Uuid) (s : Search) → Inv nodes s
      → (known nodes d ≡ true → IsWalk nodes (s.path ++ d ∷ []))
      → count_white s.color (ids nodes) ≤ fuel
      → Ensures nodes (Visited nodes d s) (visit_dep nodes go d s)
  unfolding visit_dep
  visit_dep-Ensures fuel go good d s inv w enough = elim (Bool-cases (known nodes d)) [
    | inr e ↦ rw e (record { inv = inv; later = Later-refl nodes s; done = λ h. cc })
    | inl e ↦ elim (color-cases (s.color d)) [
      | inl p ↦ rw (e, p) (good d s inv p e (w e) enough)
      | inr (inl p) ↦ rw (e, p) (IsCycle-found nodes d s inv p (w e))
      | inr (inr p) ↦ rw (e, p) (record { inv = inv; later = Later-refl nodes s; done = λ h. p })
    ]
  ]

  AllVisited-cons :
      (x : Uuid) (deps : List Uuid) (s t : Search)
      → Visited nodes x s t
      → (u : Search) → AllVisited nodes deps t u
      → AllVisited nodes (x ∷ deps) s u
  AllVisited-cons x deps s t first u rest = record {
    inv = rest.inv;
    later = Later-trans nodes first.later rest.later;
    done = λ d h k. elim (Bool-cases (x == d)) [
      | inl e ↦
          let same : x ≡ d = (==_iff x d).0 e in
          rest.later.still_black d (subst (λ v. t.color v ≡ black) same (first.done (rw same k)))
      | inr e ↦ rest.done d (ground arith) k
    ];
  }

  visit_deps-Ensures :
      (fuel : ℕ) (go : Uuid → Search → Outcome)
      → Visits nodes fuel go
      → (deps : List Uuid) (s : Search) → Inv nodes s
      → ((d : Uuid)
          → contains d deps ≡ true
          → known nodes d ≡ true
          → IsWalk nodes (s.path ++ d ∷ []))
      → count_white s.color (ids nodes) ≤ fuel
      → Ensures nodes (AllVisited nodes deps s) (visit_deps nodes go deps s)
  unfolding visit_deps
  visit_deps-Ensures fuel go good [] s inv w enough = record {
    inv = inv;
    later = Later-refl nodes s;
    done = λ d h k. cc;
  }
  visit_deps-Ensures fuel go good (x ∷ deps) s inv w enough =
      >>=-Ensures nodes (Visited nodes x s) (AllVisited nodes (x ∷ deps) s) (visit_dep nodes go x s)
        (visit_deps nodes go deps)
        (visit_dep-Ensures fuel go good x s inv (w x (ground arith)) enough)
        λ t first.
          Ensures-weaken nodes (AllVisited nodes deps t) (AllVisited nodes (x ∷ deps) s)
            (visit_deps nodes go deps t) (AllVisited-cons x deps s t first)
            (visit_deps-Ensures fuel go good deps t first.inv
              (λ d h k. rw (first.later.same_path) (w d (ground arith) k))
              (omega (arith, count_white-le s.color t.color (ids nodes) first.later.fades)))

  AllVisited-leave :
      (i : Uuid) (s t : Search)
      → Inv nodes s
      → s.color i ≡ white
      → AllVisited nodes (deps_of nodes i) (enter i s) t
      → Visited nodes i s (leave i t)
  unfolding enter leave
  AllVisited-leave i s t inv w all =
      let back : pop t.path ≡ s.path = ap pop all.later.same_path ∙ pop-snoc s.path i in
      record {
        inv = record {
          walk = rw back inv.walk;
          greys = λ x h. elim (paint_cases t.color i x black) [
            | inl (e, p) ↦ cc
            | inr (e, p) ↦ rw back (inv.greys x (grey_before x e (sym p ∙ h)))
          ];
          blacks = λ x h. elim (paint_cases t.color i x black) [
            | inl (e, p) ↦
                subst (Ends nodes) e
                  (ends (λ v edge. all.inv.blacks v (all.done v edge.listed edge.present)))
            | inr (e, p) ↦ all.inv.blacks x (cc)
          ];
        };
        later = record {
          same_path = back;
          fades = λ x h. elim (paint_cases t.color i x black) [
            | inl (e, p) ↦ cc
            | inr (e, p) ↦ paint_ne s.color i x grey white e (all.later.fades x (sym p ∙ h))
          ];
          no_new_grey = λ x h. elim (paint_cases t.color i x black) [
            | inl (e, p) ↦ cc
            | inr (e, p) ↦ grey_before x e (sym p ∙ h)
          ];
          still_black = λ x h. elim (paint_cases t.color i x black) [
            | inl (e, p) ↦ p
            | inr (e, p) ↦ p ∙ all.later.still_black x (paint_keeps s.color i x grey black e h)
          ];
        };
        done = λ h. paint_self t.color i black;
      }
    where
      grey_before : (x : Uuid) → i ≢ x → t.color x ≡ grey → s.color x ≡ grey
      grey_before x e g = paint_ne s.color i x grey grey e (all.later.no_new_grey x g)

  pub visit-Ensures : (fuel : ℕ) → Visits nodes fuel (visit nodes fuel)
  unfolding visit
  visit-Ensures zero i s inv w k walk enough =
      absurd (omega (arith, count_white-paint_lt s.color i (ids nodes) w (contains-ids nodes i k)))
  visit-Ensures (suc fuel) i s inv w k walk enough =
      >>=-Ensures nodes (AllVisited nodes (deps_of nodes i) (enter i s)) (Visited nodes i s)
        (visit_deps nodes (visit nodes fuel) (deps_of nodes i) (enter i s)) (λ t. clear (leave i t))
        (visit_deps-Ensures fuel (visit nodes fuel) (visit-Ensures fuel) (deps_of nodes i)
          (enter i s) (Inv-enter i s inv walk)
          (λ d h known_d.
            unfold enter in
            IsWalk-snoc nodes s.path i d walk (record { listed = h; present = known_d }))
          (unfold enter in
            omega (arith, count_white-paint_lt s.color i (ids nodes) w (contains-ids nodes i k))))
        (λ t. AllVisited-leave i s t inv w)
