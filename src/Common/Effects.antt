-- ===== src/Common/Effects.antt =====
-- State with failure: a step returns or raises, and leaves what it wrote either way.
use mathlib.Core.Path.{◌≡◌, refl, subst, ap}
use mathlib.Core.Bool.{Bool, true, false}
use nova_project_bible.Common.Tests.{if◌then◌else◌}

pub data Result (E A : Type 0) : Type 0 where
  ok : A → Result E A
  err : E → Result E A

abbrev pub M : Type 0 → Type 0 → Type 0 → Type 0
M S E A = S → Result E A × S

module _ {S E : Type 0} where
  infixl 5 ◌>>=◌ ◌>>◌
  unfoldable pub ◌>>=◌ : {A B : Type 0} → M S E A → (A → M S E B) → M S E B
  ◌>>=◌ m f s = let (r, s') = m s in elim r [ ok a ↦ f a s' | err e ↦ (err e, s') ]

  abbrev pub ◌>>◌ : {A B : Type 0} → M S E A → M S E B → M S E B
  m >> k = m >>= λ _. k

  abbrev pub pure : {A : Type 0} → A → M S E A
  pure a s = (ok a, s)

  abbrev pub raise : {A : Type 0} → E → M S E A
  raise e s = (err e, s)

  pub >>=-ok :
      {A B : Type 0} (m : M S E A) (f : A → M S E B) (s t : S) (a : A)
      → m s ≡ (ok a, t)
      → (m >>= f) s ≡ f a t
  unfolding ◌>>=◌
  >>=-ok {A} {B} m f s t a h = ap continue h
    where
      continue : Result E A × S → Result E B × S
      continue out = let (r, u) = out in elim r [ ok b ↦ f b u | err e ↦ (err e, u) ]

  -- A write that cannot fail.
  abbrev pub modify : (S → S) → M S E (Unit {0})
  modify f s = (ok tt, f s)

  -- A value read off the state.
  abbrev pub reads : {A : Type 0} → (S → A) → M S E A
  reads f s = (ok (f s), s)

  -- What a step gives: `P` of what it returns, `Q` where it raises.
  pub record Gives {A : Type 0} (P : A → S → Type 0) (Q : E → S → Type 0) (out : Result E A × S)
      : Type 0 where
    pub on_ok : (a : A) → out.0 ≡ ok a → P a out.1
    pub on_err : (e : E) → out.0 ≡ err e → Q e out.1

  pub Gives-raised :
      {A : Type 0} {P : A → S → Type 0} {Q : E → S → Type 0} {e : E} {s : S}
      → Q e s
      → Gives P Q (err e, s)
  Gives-raised {Q} {e} {s} p = record {
    on_ok = λ b q. cc;
    on_err = λ x q. let r : e ≡ x = cc in subst (λ y. Q y s) r p;
  }

  -- For goals in which `>>=` is unfolded.
  pub Gives-then :
      {A B : Type 0} {P : A → S → Type 0} {Q : E → S → Type 0} {R : B → S → Type 0}
      {out : Result E A × S} {f : A → M S E B}
      → Gives P Q out
      → ((a : A) (t : S) → P a t → Gives R Q (f a t))
      → Gives R Q (let (r, t) = out in elim r [ ok a ↦ f a t | err e ↦ (err e, t) ])
  Gives-then {out = (ok a, t)} h k = k a t (h.on_ok a refl)
  Gives-then {out = (err e, t)} h k = Gives-raised (h.on_err e refl)

  -- What holds whether it returns or raises.
  pub Gives-either :
      {A : Type 0} (P : S → Type 0) (out : Result E A × S) → Gives (λ _. P) (λ _. P) out → P out.1
  Gives-either P (ok a, s) h = h.on_ok a refl
  Gives-either P (err e, s) h = h.on_err e refl

  module _ {A : Type 0} (P : A → S → Type 0) (Q : E → S → Type 0) where
    pub Gives-ok : (a : A) (s : S) → P a s → Gives P Q (ok a, s)
    Gives-ok a s p = record {
      on_ok = λ b q. let r : a ≡ b = cc in subst (λ x. P x s) r p;
      on_err = λ e q. cc;
    }

    pub Gives-err : (e : E) (s : S) → Q e s → Gives P Q (err e, s)
    Gives-err e s p = Gives-raised p

    pub >>=-Gives :
        {B : Type 0} (R : B → S → Type 0) (m : M S E A) (f : A → M S E B) (s : S)
        → Gives P Q (m s)
        → ((a : A) (t : S) → P a t → Gives R Q (f a t))
        → Gives R Q ((m >>= f) s)
    unfolding ◌>>=◌
    >>=-Gives R m f s h k = Gives-then h k

    pub Gives-if :
        (b : Bool) (m n : M S E A) (s : S)
        → (b ≡ true → Gives P Q (m s))
        → (b ≡ false → Gives P Q (n s))
        → Gives P Q ((if b then m else n) s)
    Gives-if true m n s h k = h refl
    Gives-if false m n s h k = k refl
