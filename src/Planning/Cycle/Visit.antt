-- ===== src/Planning/Cycle/Visit.antt =====
-- What a visit of `find_cycle` ensures: it returns a cycle, or leaves every reachable node black.
use nova_project_bible.Common.{
  ℕ, ◌+◌, ◌≤◌, ◌<◌, Uuid, ◌≡◌, ◌≢◌, refl, ap, ◌∙◌, List, [], ◌∷◌, ◌++◌, true, ◌==◌, contains, arith,
  Bool-cases, inl, inr, ==_iff, ==_self,
}
use nova_project_bible.Planning.Model.{TaskNode, by_id, ids}
use nova_project_bible.Planning.Cycle.{
  Color, white, grey, black, Search, Outcome, found, clear, out_of_fuel, ◌>>=◌, paint, from_index,
  known,
}
use nova_project_bible.Planning.Cycle.Walks.{
  Edge, IsWalk, IsCycle, from_index-cons, IsWalk-from_index,
}

abbrev pub is_white : Color → ℕ
is_white white = 1
is_white _ = 0

abbrev pub count_white : (Uuid → Color) → List Uuid → ℕ
count_white color [] = 0
count_white color (x ∷ xs) = is_white (color x) + count_white color xs

-- No node turns white.
abbrev pub Fades : (Uuid → Color) → (Uuid → Color) → Type 0
Fades color color' = (x : Uuid) → color' x ≡ white → color x ≡ white

is_white-le : (c c' : Color) → (c' ≡ white → c ≡ white) → is_white c' ≤ is_white c
is_white-le white c' h = ground arith
is_white-le grey c' h = ground (arith, h)
is_white-le black c' h = ground (arith, h)

pub count_white-le :
    (c c' : Uuid → Color) (xs : List Uuid) → Fades c c' → count_white c' xs ≤ count_white c xs
count_white-le c c' [] h = omega arith
count_white-le c c' (x ∷ xs) h =
    omega (arith, is_white-le (c x) (c' x) (h x), count_white-le c c' xs h)

pub paint-Fades : (c : Uuid → Color) (i : Uuid) (d : Color) → d ≢ white → Fades c (paint c i d)
unfolding paint
paint-Fades c i d other x h = elim (Bool-cases (i == x)) [
  | inl e ↦ absurd (other (rw e at h))
  | inr e ↦ (rw e at h)
]

pub count_white-paint_lt :
    (c : Uuid → Color) (i : Uuid) (xs : List Uuid)
    → c i ≡ white
    → contains i xs ≡ true
    → count_white (paint c i grey) xs < count_white c xs
unfolding paint
count_white-paint_lt c i [] w h = cc
count_white-paint_lt c i (x ∷ xs) w h = elim (Bool-cases (x == i)) [
  | inl e ↦
      let same : x ≡ i = (==_iff x i).0 e in
      rw (same, ==_self, w)
        (omega (arith, count_white-le c (paint c i grey) xs (paint-Fades c i grey (λ p. cc))))
  | inr e ↦ omega (
    arith,
    is_white-le (c x) (paint c i grey x) (paint-Fades c i grey (λ p. cc) x),
    count_white-paint_lt c i xs w (ground arith),
  )
]

pub contains-ids :
    {F : Type 0} (nodes : List (TaskNode F)) (i : Uuid)
    → known nodes i ≡ true
    → contains i (ids nodes) ≡ true
unfolding by_id
contains-ids [] i h = cc
contains-ids (n ∷ nodes) i h = ground (arith, contains-ids nodes i)

module _ {F : Type 0} (nodes : List (TaskNode F)) where
  -- Every walk of dependencies from `u` ends.
  pub data Ends : Uuid → Type 0 where
    ends : {u : Uuid} → ((v : Uuid) → Edge nodes u v → Ends v) → Ends u

  pub record Inv (s : Search) : Type 0 where
    pub walk : IsWalk nodes s.path
    pub greys : (x : Uuid) → s.color x ≡ grey → contains x s.path ≡ true
    pub blacks : (x : Uuid) → s.color x ≡ black → Ends x

  -- What a call that returns None leaves as it was, and what it may change.
  pub record Later (s s' : Search) : Type 0 where
    pub same_path : s'.path ≡ s.path
    pub fades : Fades s.color s'.color
    pub no_new_grey : (x : Uuid) → s'.color x ≡ grey → s.color x ≡ grey
    pub still_black : (x : Uuid) → s.color x ≡ black → s'.color x ≡ black

  pub Later-refl : (s : Search) → Later s s
  Later-refl s = record {
    same_path = refl;
    fades = λ x h. h;
    no_new_grey = λ x h. h;
    still_black = λ x h. h;
  }

  pub Later-trans : {s t u : Search} → Later s t → Later t u → Later s u
  Later-trans a b = record {
    same_path = b.same_path ∙ a.same_path;
    fades = λ x h. a.fades x (b.fades x h);
    no_new_grey = λ x h. a.no_new_grey x (b.no_new_grey x h);
    still_black = λ x h. b.still_black x (a.still_black x h);
  }

  -- A total specification: fuel never runs out, a returned list is a cycle.
  abbrev pub Ensures : (Search → Type 0) → Outcome → Type 0
  Ensures P (found c) = IsCycle nodes c
  Ensures P (clear s) = P s
  Ensures P out_of_fuel = ⊥

  pub >>=-Ensures :
      (P Q : Search → Type 0) (o : Outcome) (f : Search → Outcome)
      → Ensures P o
      → ((s : Search) → P s → Ensures Q (f s))
      → Ensures Q (o >>= f)
  >>=-Ensures P Q (found c) f h k = h
  >>=-Ensures P Q (clear s) f h k = k s h
  >>=-Ensures P Q out_of_fuel f h k = h

  pub Ensures-weaken :
      (P Q : Search → Type 0) (o : Outcome) → ((s : Search) → P s → Q s) → Ensures P o → Ensures Q o
  Ensures-weaken P Q (found c) k h = h
  Ensures-weaken P Q (clear s) k h = k s h
  Ensures-weaken P Q out_of_fuel k h = h

  -- What a visit of `i` from `s` leaves.
  pub record Visited (i : Uuid) (s s' : Search) : Type 0 where
    pub inv : Inv s'
    pub later : Later s s'
    pub done : known nodes i ≡ true → s'.color i ≡ black

  -- What a loop over `deps` leaves.
  pub record AllVisited (deps : List Uuid) (s s' : Search) : Type 0 where
    pub inv : Inv s'
    pub later : Later s s'
    pub done : (d : Uuid) → contains d deps ≡ true → known nodes d ≡ true → s'.color d ≡ black

  abbrev pub Visits : ℕ → (Uuid → Search → Outcome) → Type 0
  Visits fuel go =
      (i : Uuid) (s : Search)
      → Inv s
      → s.color i ≡ white
      → known nodes i ≡ true
      → IsWalk nodes (s.path ++ i ∷ [])
      → count_white s.color (ids nodes) ≤ fuel
      → Ensures (Visited i s) (go i s)

  pub IsCycle-found :
      (d : Uuid) (s : Search)
      → Inv s
      → s.color d ≡ grey
      → IsWalk nodes (s.path ++ d ∷ [])
      → IsCycle nodes (from_index d s.path ++ d ∷ [])
  IsCycle-found d s inv g w =
      let on_path = inv.greys d g in
      let (rest, e) = from_index-cons d s.path on_path in
      record {
        start = d;
        between = rest;
        closed = ap (λ t. t ++ d ∷ []) e;
        walk = IsWalk-from_index nodes d s.path (d ∷ []) on_path w;
      }
