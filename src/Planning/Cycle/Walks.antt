-- ===== src/Planning/Cycle/Walks.antt =====
-- Walks along the dependencies, which `path` holds while `find_cycle` runs.
use nova_project_bible.Common.{
  Uuid, ◌≡◌, refl, ap, List, [], ◌∷◌, ◌++◌, true, ◌==◌, contains, arith, Bool-cases, inl, inr,
}
use nova_project_bible.Planning.Model.{TaskNode}
use nova_project_bible.Planning.Cycle.{pop, from_index, deps_of, known}

pub pop-snoc : (p : List Uuid) (u : Uuid) → pop (p ++ u ∷ []) ≡ p
unfolding pop
pop-snoc [] u = refl
pop-snoc (x ∷ []) u = refl
pop-snoc (x ∷ y ∷ p) u = ap (λ t. x ∷ t) (pop-snoc (y ∷ p) u)

pub from_index-cons :
    (d : Uuid) (xs : List Uuid)
    → contains d xs ≡ true
    → (rest : List Uuid) × (from_index d xs ≡ d ∷ rest)
unfolding from_index
from_index-cons d [] h = cc
from_index-cons d (x ∷ xs) h = elim (Bool-cases (x == d)) [
  | inl e ↦ (xs, ground arith)
  | inr e ↦ let (rest, p) = from_index-cons d xs (ground arith) in (rest, rw e p)
]

module _ {F : Type 0} (nodes : List (TaskNode F)) where
  -- `v` is a dependency of `u`, and a node of the graph.
  pub record Edge (u v : Uuid) : Type 0 where
    pub listed : contains v (deps_of nodes u) ≡ true
    pub present : known nodes v ≡ true

  abbrev pub IsWalk : List Uuid → Type 0
  IsWalk [] = Unit
  IsWalk (x ∷ []) = Unit
  IsWalk (x ∷ y ∷ r) = Edge x y × IsWalk (y ∷ r)

  -- A walk that ends where it begins, along one dependency at least.
  pub record IsCycle (c : List Uuid) : Type 0 where
    pub start : Uuid
    pub between : List Uuid
    pub closed : c ≡ start ∷ (between ++ start ∷ [])
    pub walk : IsWalk c

  pub IsWalk-snoc :
      (p : List Uuid) (u d : Uuid)
      → IsWalk (p ++ u ∷ [])
      → Edge u d
      → IsWalk ((p ++ u ∷ []) ++ d ∷ [])
  IsWalk-snoc [] u d w e = (e, tt)
  IsWalk-snoc (x ∷ []) u d w e = (w.0, (e, tt))
  IsWalk-snoc (x ∷ y ∷ p) u d w e = (w.0, IsWalk-snoc (y ∷ p) u d w.1 e)

  pub IsWalk-tail : (x : Uuid) (xs : List Uuid) → IsWalk (x ∷ xs) → IsWalk xs
  IsWalk-tail x [] w = tt
  IsWalk-tail x (y ∷ xs) w = w.1

  pub IsWalk-from_index :
      (d : Uuid) (xs ys : List Uuid)
      → contains d xs ≡ true
      → IsWalk (xs ++ ys)
      → IsWalk (from_index d xs ++ ys)
  unfolding from_index
  IsWalk-from_index d [] ys h w = w
  IsWalk-from_index d (x ∷ xs) ys h w = elim (Bool-cases (x == d)) [
    | inl e ↦ rw e w
    | inr e ↦ rw e (IsWalk-from_index d xs ys (ground arith) (IsWalk-tail x (xs ++ ys) w))
  ]
