-- ===== src/Kernel/State/Yields.antt =====
-- Operations that return, where the ports answer and every minted id is new.
use nova_project_bible.Common.{
  Uuid, ◌≡◌, refl, sym, ap, ◌∙◌, subst, Option, none, some, List, [], ◌∷◌, ◌++◌, Bool, true, false,
  ◌==◌, ==_iff, Bool-cases, inl, inr, All,
}
use nova_project_bible.Kernel.Model.{
  AgentInstance, InstanceStatus, HealthStatus, Reply, peer_review_result,
}
use nova_project_bible.Kernel.State.{
  State, Result, ok, err, M, ◌>>=◌, pure, call, find_row, set_row, row_values, port_raised,
}
use nova_project_bible.Kernel.State.Gives.{>>=-ok}

-- An answer that is a reviewer's result, or none.
abbrev pub is_readable : {O : Type 0} → Option (Reply O) → Bool
is_readable (some (peer_review_result none)) = false
is_readable _ = true

-- The ids of the rows have the property.
abbrev pub Used : (Uuid → Type 0) → List AgentInstance → Type 0
Used P rows = All (λ r. P r.id) rows

pub Used-mono :
    (P Q : Uuid → Type 0) (rows : List AgentInstance)
    → ((i : Uuid) → P i → Q i)
    → Used P rows
    → Used Q rows
Used-mono P Q [] h all = tt
Used-mono P Q (r ∷ rows) h all = (h r.id all.0, Used-mono P Q rows h all.1)

pub find_row-Used :
    (P : Uuid → Type 0) (i : Uuid) (rows : List AgentInstance)
    → ¬ P i
    → Used P rows
    → find_row i rows ≡ none
unfolding find_row
find_row-Used P i [] new all = refl
find_row-Used P i (r ∷ rows) new all = elim (Bool-cases (r.id == i)) [
  | inl e ↦ absurd (new (subst P ((==_iff r.id i).0 e) all.0))
  | inr e ↦ rw (find_row, e) (find_row-Used P i rows new all.1)
]

pub Used-append :
    (P : Uuid → Type 0) (rows : List AgentInstance) (r : AgentInstance)
    → Used P rows
    → P r.id
    → Used P (rows ++ r ∷ [])
Used-append P [] r all h = (h, tt)
Used-append P (x ∷ rows) r all h = (all.0, Used-append P rows r all.1 h)

row_values-id :
    (status : InstanceStatus) (health : Option HealthStatus) (r : AgentInstance)
    → (row_values status health r).id ≡ r.id
row_values-id status none r = refl
row_values-id status (some h) r = refl

pub Used-set_row :
    (P : Uuid → Type 0) (i : Uuid) (status : InstanceStatus) (health : Option HealthStatus)
    (rows : List AgentInstance)
    → Used P rows
    → Used P (set_row i status health rows)
unfolding set_row
Used-set_row P i status health [] all = tt
Used-set_row P i status health (r ∷ rows) all = elim (Bool-cases (r.id == i)) [
  | inl e ↦ rw e (
    subst P (sym (row_values-id status health r)) all.0,
    Used-set_row P i status health rows all.1,
  )
  | inr e ↦ rw e (all.0, Used-set_row P i status health rows all.1)
]

-- `used w` are the ids that were minted by the time of `w`; none of them is forgotten.
abbrev pub Later : {W : Type 0} → (W → Uuid → Type 0) → W → W → Type 0
Later used w w' = (i : Uuid) → used w i → used w' i

-- A port that returns whatever the world is.
abbrev pub Answers :
    {W A : Type 0} → (W → Uuid → Type 0) → (A → Type 0) → (W → Option A × W) → Type 0
Answers {W} {A} used Q f =
    (w : W) → (a : A) × (w' : W) × (f w ≡ (some a, w')) × Later used w w' × Q a

module _ {W O : Type 0} where
  -- It returns, and the result and state have the property.
  pub record Yields {A : Type 0} (P : A → State W O → Type 0) (out : Result A × State W O)
      : Type 0 where
    pub value : A
    pub final : State W O
    pub runs : out ≡ (ok value, final)
    pub holds : P value final

  pub Yields-pure :
      {A : Type 0} (P : A → State W O → Type 0) (a : A) (s : State W O)
      → P a s
      → Yields P (pure a s)
  Yields-pure P a s p = record { value = a; final = s; runs = refl; holds = p }

  pub >>=-Yields :
      {A B : Type 0} (P : A → State W O → Type 0) (Q : B → State W O → Type 0) (m : M W O A)
      (f : A → M W O B) (s : State W O)
      → Yields P (m s)
      → ((a : A) (s' : State W O) → P a s' → Yields Q (f a s'))
      → Yields Q ((m >>= f) s)
  >>=-Yields P Q m f s h k =
      let next = k h.value h.final h.holds in
      record {
        value = next.value;
        final = next.final;
        runs = >>=-ok m f s h.final h.value h.runs ∙ next.runs;
        holds = next.holds;
      }

  module _ (used : W → Uuid → Type 0) where
    abbrev pub Good : {A : Type 0} → A → State W O → Type 0
    Good a s = Used (used s.world) s.rows

    pub answered-Yields :
        {A : Type 0} (Q : A → Type 0) (f : W → Option A × W) (s : State W O) (a : A) (w' : W)
        → f s.world ≡ (some a, w')
        → Later used s.world w'
        → Q a
        → Good tt s
        → Yields (λ a s'. Q a × Good a s') (call f s)
    answered-Yields {A} Q f s a w' answered later q good = record {
      value = a;
      final = record s { world = w' };
      runs = unfold call in ap continue answered;
      holds = (q, Used-mono (used s.world) (used w') s.rows later good);
    }
      where
        continue : Option A × W → Result A × State W O
        continue out =
            let (answer, w) = out in
            elim answer [
              | some a ↦ (ok a, record s { world = w })
              | none ↦ (err port_raised, record s { world = w })
            ]

    pub call-Yields :
        {A : Type 0} (Q : A → Type 0) (f : W → Option A × W) (s : State W O)
        → Answers used Q f
        → Good tt s
        → Yields (λ a s'. Q a × Good a s') (call f s)
    call-Yields Q f s answers good =
        let (a, w', answered, later, q) = answers s.world in
        answered-Yields Q f s a w' answered later q good
