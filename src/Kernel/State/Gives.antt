-- ===== src/Kernel/State/Gives.antt =====
-- What an operation of the kernel gives: a fact of what it returns, or another of where it raises.
use nova_project_bible.Common.{
  Uuid, ◌≡◌, refl, sym, ap, ◌∙◌, subst, Option, none, some, List, [], ◌∷◌, ◌++◌, ◌==◌, ==_self,
  Option-cases, Bool-cases, inl, inr,
}
use nova_project_bible.Kernel.Model.{AgentInstance, InstanceStatus, HealthStatus, TaskCompleted}
use nova_project_bible.Kernel.State.{
  State, Error, Result, ok, err, M, ◌>>=◌, call, ask, insert, find_row, set_row, row_values,
  port_raised,
}

-- Setting the row that was appended last.
pub set_row-append :
    (i : Uuid) (status : InstanceStatus) (health : Option HealthStatus) (rows : List AgentInstance)
    (r : AgentInstance)
    → find_row i rows ≡ none
    → r.id ≡ i
    → set_row i status health (rows ++ r ∷ []) ≡ rows ++ row_values status health r ∷ []
unfolding find_row set_row
set_row-append i status health [] r absent is_i = rw (is_i, ==_self)
set_row-append i status health (x ∷ rows) r absent is_i = elim (Bool-cases (x.id == i)) [
  | inl e ↦
      let p : ◌≡◌ {A = Option AgentInstance} (some x) none = (rw (find_row, e) at absent) in cc
  | inr e ↦
      rw e
        (ap (λ l. x ∷ l) (set_row-append i status health rows r (rw (find_row, e) at absent) is_i))
]

module _ {W O : Type 0} where
  pub record Gives {A : Type 0} (P : A → State W O → Type 0) (E : State W O → Type 0)
      (out : Result A × State W O) : Type 0 where
    pub on_ok : (a : A) → out.0 ≡ ok a → P a out.1
    pub on_err : (e : Error) → out.0 ≡ err e → E out.1

  pub Gives-ok :
      {A : Type 0} (P : A → State W O → Type 0) (E : State W O → Type 0) (a : A) (s : State W O)
      → P a s
      → Gives P E (ok a, s)
  Gives-ok P E a s p = record {
    on_ok = λ b q. let r : a ≡ b = cc in subst (λ x. P x s) r p;
    on_err = λ e q. cc;
  }

  pub Gives-err :
      {A : Type 0} (P : A → State W O → Type 0) (E : State W O → Type 0) (e : Error) (s : State W O)
      → E s
      → Gives P E (err e, s)
  Gives-err P E e s p = record { on_ok = λ b q. cc; on_err = λ e' q. p }

  pub >>=-ok :
      {A B : Type 0} (m : M W O A) (f : A → M W O B) (s s' : State W O) (a : A)
      → m s ≡ (ok a, s')
      → (m >>= f) s ≡ f a s'
  unfolding ◌>>=◌
  >>=-ok {A} {B} m f s s' a h = ap continue h
    where
      continue : Result A × State W O → Result B × State W O
      continue out = let (r, t) = out in elim r [ ok a ↦ f a t | err e ↦ (err e, t) ]

  pub >>=-err :
      {A B : Type 0} (m : M W O A) (f : A → M W O B) (s s' : State W O) (e : Error)
      → m s ≡ (err e, s')
      → (m >>= f) s ≡ (err e, s')
  unfolding ◌>>=◌
  >>=-err {A} {B} m f s s' e h = ap continue h
    where
      continue : Result A × State W O → Result B × State W O
      continue out = let (r, t) = out in elim r [ ok a ↦ f a t | err x ↦ (err x, t) ]

  pub >>=-Gives :
      {A B : Type 0} (P : A → State W O → Type 0) (Q : B → State W O → Type 0)
      (E : State W O → Type 0) (m : M W O A) (f : A → M W O B) (s : State W O)
      → Gives P E (m s)
      → ((a : A) (s' : State W O) → P a s' → Gives Q E (f a s'))
      → Gives Q E ((m >>= f) s)
  unfolding ◌>>=◌
  >>=-Gives {A} {B} P Q E m f s h k = go (m s) h
    where
      go :
          (out : Result A × State W O)
          → Gives P E out
          → Gives Q E (let (r, s') = out in elim r [ ok a ↦ f a s' | err e ↦ (err e, s') ])
      go (ok a, s') h = k a s' (h.on_ok a refl)
      go (err e, s') h = Gives-err Q E e s' (h.on_err e refl)

  -- The rows and the published events.
  abbrev pub At :
      {A : Type 0} → List AgentInstance → List (TaskCompleted O) → A → State W O → Type 0
  At rows events a s = (s.rows ≡ rows) × (s.published ≡ events)

  abbrev pub Silent : List (TaskCompleted O) → State W O → Type 0
  Silent events s = s.published ≡ events

  module _ (rows : List AgentInstance) (events : List (TaskCompleted O)) (s : State W O)
      (same : s.rows ≡ rows) (silent : s.published ≡ events) where
    pub call-Gives :
        {A : Type 0} (f : W → Option A × W) → Gives (At rows events) (Silent events) (call f s)
    unfolding call
    call-Gives {A} f = go (f s.world)
      where
        go :
            (out : Option A × W)
            → Gives {A = A} (At rows events) (Silent events) (
                let (answer, w) = out in
                elim answer [
                  | some a ↦ (ok a, record s { world = w })
                  | none ↦ (err port_raised, record s { world = w })
                ])
        go (some a, w) =
            Gives-ok (At rows events) (Silent events) a (record s { world = w }) (same, silent)
        go (none, w) =
            Gives-err (At rows events) (Silent events) port_raised (record s { world = w }) silent

    pub ask-Gives : {A : Type 0} (f : W → A × W) → Gives (At rows events) (Silent events) (ask f s)
    unfolding ask
    ask-Gives f =
        Gives-ok (At rows events) (Silent events) (f s.world).0 (record s { world = (f s.world).1 })
          (same, silent)

    pub insert-Gives :
        (r : AgentInstance)
        → Gives
            (λ _ s'.
              (find_row r.id rows ≡ none) × (s'.rows ≡ rows ++ r ∷ []) × (s'.published ≡ events))
            (Silent events)
            (insert r s)
    insert-Gives r = elim (Option-cases (find_row r.id s.rows)) [
      | inl e ↦
          unfold insert in
          rw (insert, e)
            (Gives-ok _ _ tt _
              (ap (find_row r.id) (sym same) ∙ e, ap (λ l. l ++ r ∷ []) same, silent))
      | inr (x, e) ↦ unfold insert in rw (insert, e) (Gives-err _ _ _ _ silent)
    ]
