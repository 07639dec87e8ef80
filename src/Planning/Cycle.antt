-- ===== src/Planning/Cycle.antt =====
-- domain/task_graph.py: `find_cycle`, a depth-first search with three colours.
pub mod Walks
pub mod Visit
pub mod Descent
pub mod Correct
use nova_project_bible.Common.{
  ℕ, zero, suc, Uuid, Option, none, some, List, [], ◌∷◌, ◌++◌, Bool, true, false, ◌==◌,
  if◌then◌else◌, length, is_some,
}
use nova_project_bible.Planning.Model.{TaskNode, by_id}

pub data Color : Type 0 where
  white grey black : Color

-- `color` and `path`, which the inner function `visit` shares between its calls.
pub record Search : Type 0 where
  pub color : Uuid → Color
  pub path : List Uuid

-- `found` is a returned cycle, `clear` a return of None.
pub data Outcome : Type 0 where
  found : List Uuid → Outcome
  clear : Search → Outcome
  out_of_fuel : Outcome

infixl 5 ◌>>=◌
abbrev pub ◌>>=◌ : Outcome → (Search → Outcome) → Outcome
found c >>= f = found c
clear s >>= f = f s
out_of_fuel >>= f = out_of_fuel

unfoldable pub paint : (Uuid → Color) → Uuid → Color → Uuid → Color
paint color i c j = if i == j then c else color j

-- path[path.index(i):]
unfoldable pub from_index : Uuid → List Uuid → List Uuid
from_index i [] = []
from_index i (x ∷ xs) = if x == i then x ∷ xs else from_index i xs

-- path.pop()
unfoldable pub pop : List Uuid → List Uuid
pop [] = []
pop (x ∷ []) = []
pop (x ∷ y ∷ xs) = x ∷ pop (y ∷ xs)

unfoldable pub enter : Uuid → Search → Search
enter i s = record { color = paint s.color i grey; path = s.path ++ i ∷ [] }

unfoldable pub leave : Uuid → Search → Search
leave i s = record { color = paint s.color i black; path = pop s.path }

abbrev pub blank : Search
blank = record { color = λ _. white; path = [] }

module _ {F : Type 0} (nodes : List (TaskNode F)) where
  -- by_id[i].depends_on
  unfoldable pub deps_of : Uuid → List Uuid
  deps_of i = elim (by_id nodes i) [ none ↦ [] | some n ↦ n.depends_on ]

  abbrev pub known : Uuid → Bool
  known i = is_some (by_id nodes i)

  -- One round of the loop over `depends_on`; `go` is the recursive call of `visit`.
  unfoldable pub visit_dep : (Uuid → Search → Outcome) → Uuid → Search → Outcome
  visit_dep go d s =
      if known d
      then elim (s.color d) [
        | grey ↦ found (from_index d s.path ++ d ∷ [])
        | white ↦ go d s
        | black ↦ clear s
      ]
      else clear s

  unfoldable pub visit_deps : (Uuid → Search → Outcome) → List Uuid → Search → Outcome
  visit_deps go [] s = clear s
  visit_deps go (d ∷ deps) s = visit_dep go d s >>= visit_deps go deps

  unfoldable pub visit : ℕ → Uuid → Search → Outcome
  visit zero i s = out_of_fuel
  visit (suc fuel) i s =
      visit_deps (visit fuel) (deps_of i) (enter i s) >>= λ s'. clear (leave i s')

  -- The loop over the nodes that starts a visit at each white one.
  unfoldable pub visit_all : ℕ → List (TaskNode F) → Search → Outcome
  visit_all fuel [] s = clear s
  visit_all fuel (n ∷ rest) s =
      (elim (s.color n.id) [ white ↦ visit fuel n.id s | _ ↦ clear s ]) >>= visit_all fuel rest

  -- A visit paints a white node grey, so calls nest no deeper than there are nodes.
  unfoldable pub search_cycle : Outcome
  search_cycle = visit_all (length nodes) nodes blank

  unfoldable pub find_cycle : Option (List Uuid)
  find_cycle = elim search_cycle [ found c ↦ some c | clear _ ↦ none | out_of_fuel ↦ none ]

  unfoldable pub has_cycle : Bool
  has_cycle = is_some find_cycle
