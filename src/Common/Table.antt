-- ===== src/Common/Table.antt =====
-- Rows with a primary key: lookup, and the update of one row.
use mathlib.Core.Path.{◌≡◌, refl}
use mathlib.Core.Logic.{inl, inr}
use mathlib.Core.Option
use mathlib.Core.Option.{Option, none, some}
use mathlib.Core.List.{List, [], ◌∷◌, ◌++◌, map}
use native.Mathlib.Omega.{arith}
use nova_project_bible.Common.Tests.{Uuid, ◌==◌, if◌then◌else◌, Bool-cases}

module _ {ℓ} {A : Type ℓ} (key : A → Uuid) where
  unfoldable pub find : Uuid → List A → Option A
  find i [] = none
  find i (r ∷ rows) = if key r == i then some r else find i rows

  unfoldable pub update : Uuid → (A → A) → List A → List A
  update i f rows = map (λ r. if key r == i then f r else r) rows

  -- An update that keeps the keys is seen in its own row only.
  pub find-update :
      (i j : Uuid) (f : A → A) (rows : List A)
      → ((r : A) → key (f r) ≡ key r)
      → find j (update i f rows) ≡ (if i == j then Option.map f (find j rows) else find j rows)
  unfolding find update
  find-update i j f [] same = ground arith
  find-update i j f (r ∷ rows) same = ground (arith, find-update i j f rows same, same r)

  pub find-append :
      (i : Uuid) (rows : List A) (r : A)
      → find (key r) rows ≡ none
      → find i (rows ++ r ∷ []) ≡ (if key r == i then some r else find i rows)
  unfolding find
  find-append i [] r h = refl
  find-append i (x ∷ rows) r h = elim (Bool-cases (key x == key r)) [
    | inl e ↦ let q : ◌≡◌ {A = Option A} (some x) none = (rw (find, e) at h) in cc
    | inr e ↦
        let rest : find (key r) rows ≡ none = (rw (find, e) at h) in
        ground (arith, find-append i rows r rest)
  ]

  pub find-key : (i : Uuid) (rows : List A) (r : A) → find i rows ≡ some r → key r ≡ i
  unfolding find
  find-key i [] r h = cc
  find-key i (x ∷ rows) r h = ground (arith, find-key i rows r)
