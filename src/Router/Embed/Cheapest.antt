-- ===== src/Router/Embed/Cheapest.antt =====
-- What `plan_embedding_routing` selects.
use nova_project_bible.Common.{
  ℕ, ◌≤◌, Uuid, Option, none, some, List, [], ◌∷◌, Bool, true, false, ltb, ◌==◌, if◌then◌else◌, ◌≡◌,
  ◌≢◌, refl, arith, All, subst, sym, cons-ne-nil, Bool-cases, inl, inr,
}
use nova_project_bible.Router.Model.{PrivacyLevel, embedding, ModelDescriptor}
use nova_project_bible.Router.Plan.{Floats, candidates_pool, cost_per_token, latency_of}
use nova_project_bible.Router.Embed.{
  cheaper, insert_model, sort_models, head_of, plan_embedding_routing,
}
use nova_project_bible.Router.Pool.{IsDistinct, Serves, All-map, pool-Serves}

-- The floats that occur are totally ordered, as finite ones are.
pub record Ordered {F : Type 0} (floats : Floats F) : Type 0 where
  pub rank : F → ℕ
  pub lt_rank : (a b : F) → floats.lt a b ≡ ltb (rank a) (rank b)
  pub eq_rank : (a b : F) → floats.eq a b ≡ (rank a == rank b)

module _ {F : Type 0} (floats : Floats F) (order : Ordered floats) where
  -- By cost, then latency, then id.
  pub record NoDearer (a b : ModelDescriptor F) : Type 0 where
    pub by_cost : order.rank (cost_per_token floats a) ≤ order.rank (cost_per_token floats b)
    pub by_latency :
        order.rank (cost_per_token floats a) ≡ order.rank (cost_per_token floats b)
        → order.rank (latency_of floats a) ≤ order.rank (latency_of floats b)
    pub by_id :
        order.rank (cost_per_token floats a) ≡ order.rank (cost_per_token floats b)
        → order.rank (latency_of floats a) ≡ order.rank (latency_of floats b)
        → a.id ≤ b.id

  lexicographic : (c d l k i j : ℕ) → Bool
  lexicographic c d l k i j = if c == d then if l == k then ltb i j else ltb l k else ltb c d

  cheaper-lexicographic :
      (a b : ModelDescriptor F)
      → cheaper floats a b
        ≡ lexicographic
            (order.rank (cost_per_token floats a))
            (order.rank (cost_per_token floats b))
            (order.rank (latency_of floats a))
            (order.rank (latency_of floats b))
            a.id
            b.id
  unfolding cheaper lexicographic
  cheaper-lexicographic a b =
      rw
        (
          cheaper,
          order.eq_rank (cost_per_token floats a) (cost_per_token floats b),
          order.eq_rank (latency_of floats a) (latency_of floats b),
          order.lt_rank (latency_of floats a) (latency_of floats b),
          order.lt_rank (cost_per_token floats a) (cost_per_token floats b),
        )
        refl

  cheaper-NoDearer : (a b : ModelDescriptor F) → cheaper floats a b ≡ true → NoDearer a b
  unfolding lexicographic
  cheaper-NoDearer a b e =
      let q = cheaper-lexicographic a b in
      record { by_cost = ground arith; by_latency = λ p. ground arith; by_id = λ p r. ground arith }

  dearer-NoDearer : (a b : ModelDescriptor F) → cheaper floats a b ≡ false → NoDearer b a
  unfolding lexicographic
  dearer-NoDearer a b e =
      let q = cheaper-lexicographic a b in
      record { by_cost = ground arith; by_latency = λ p. ground arith; by_id = λ p r. ground arith }

  NoDearer-refl : (a : ModelDescriptor F) → NoDearer a a
  NoDearer-refl a = record {
    by_cost = omega (arith);
    by_latency = λ p. omega (arith);
    by_id = λ p r. omega (arith);
  }

  NoDearer-trans : (a b c : ModelDescriptor F) → NoDearer a b → NoDearer b c → NoDearer a c
  NoDearer-trans a b c h k =
      let cost_ab = h.by_cost in
      let cost_bc = k.by_cost in
      let latency_ab = h.by_latency in
      let latency_bc = k.by_latency in
      let id_ab = h.by_id in
      let id_bc = k.by_id in
      record {
        by_cost = omega (arith, cost_ab, cost_bc);
        by_latency = λ p. ground arith;
        by_id = λ p r. ground arith;
      }

  -- The first of the list has `P`, and none of the list is cheaper.
  pub record Cheapest (P : ModelDescriptor F → Type 0) (pool : List (ModelDescriptor F))
      (m : ModelDescriptor F) : Type 0 where
    pub holds : P m
    pub least : All (NoDearer m) pool

  -- A list that is sorted as far as its head.
  Headed :
      (ModelDescriptor F → Type 0) → List (ModelDescriptor F) → List (ModelDescriptor F) → Type 0
  Headed P pool ms = (m : ModelDescriptor F) → head_of floats ms ≡ some m → Cheapest P pool m

  insert_model-Headed :
      (P : ModelDescriptor F → Type 0) (pool : List (ModelDescriptor F)) (c : ModelDescriptor F)
      (ms : List (ModelDescriptor F))
      → P c
      → (ms ≡ [] → pool ≡ [])
      → Headed P pool ms
      → Headed P (c ∷ pool) (insert_model floats c ms)
  unfolding Headed insert_model
  insert_model-Headed P pool c [] p empty h m e =
      let q : c ≡ m = cc in
      subst (Cheapest P (c ∷ pool)) q (record {
        holds = p;
        least = (NoDearer-refl c, subst (All (NoDearer c)) (sym (empty refl)) tt);
      })
  insert_model-Headed P pool c (x ∷ xs) p empty h m e =
      let first = h x refl in
      elim (Bool-cases (cheaper floats x c)) [
        | inl d ↦
            let f = rw d at e in
            let q : x ≡ m = cc in
            subst (Cheapest P (c ∷ pool)) q
              (record { holds = first.holds; least = (cheaper-NoDearer x c d, first.least) })
        | inr d ↦
            let f = rw d at e in
            let q : c ≡ m = cc in
            subst (Cheapest P (c ∷ pool)) q (record {
              holds = p;
              least = (
                NoDearer-refl c,
                All-map pool (λ y. NoDearer-trans c x y (dearer-NoDearer x c d)) first.least,
              );
            })
      ]

  insert_model-ne-nil :
      (c : ModelDescriptor F) (ms : List (ModelDescriptor F)) → insert_model floats c ms ≢ []
  unfolding insert_model
  insert_model-ne-nil c [] e = cc
  insert_model-ne-nil c (x ∷ xs) e = elim (Bool-cases (cheaper floats x c)) [
    | inl q ↦ cons-ne-nil _ _ (rw q at e)
    | inr q ↦ cons-ne-nil _ _ (rw q at e)
  ]

  sort_models-nil : (ms : List (ModelDescriptor F)) → sort_models floats ms ≡ [] → ms ≡ []
  unfolding sort_models
  sort_models-nil [] e = refl
  sort_models-nil (c ∷ ms) e = absurd (insert_model-ne-nil c (sort_models floats ms) e)

  sort_models-Headed :
      (P : ModelDescriptor F → Type 0) (ms : List (ModelDescriptor F))
      → All P ms
      → Headed P ms (sort_models floats ms)
  unfolding Headed sort_models
  sort_models-Headed P [] h = λ m e. cc
  sort_models-Headed P (c ∷ ms) (p, h) =
      insert_model-Headed P ms c (sort_models floats ms) p (sort_models-nil ms)
        (sort_models-Headed P ms h)

  head_of-none : (ms : List (ModelDescriptor F)) → head_of floats ms ≡ none → ms ≡ []
  head_of-none [] e = refl
  head_of-none (m ∷ ms) e = cc

  module _ (models : List (ModelDescriptor F)) (privacy : PrivacyLevel) (exclude : List Uuid) where
    pub record Selects (out : Option (ModelDescriptor F)) : Type 0 where
      pub selects :
          (m : ModelDescriptor F)
          → out ≡ some m
          → Cheapest
              (λ x. Serves models embedding privacy exclude x.id)
              (candidates_pool models embedding privacy exclude)
              m
      pub refuses : out ≡ none → candidates_pool models embedding privacy exclude ≡ []

    -- Over models with distinct ids and floats that are totally ordered, `plan_embedding_routing` selects
    -- a model that embeds, is not unhealthy, is cleared for the privacy level and was not tried, and no
    -- candidate comes before it by cost, then latency, then id; it raises only where there is none.
    pub plan_embedding_routing-Selects :
        IsDistinct models → Selects (plan_embedding_routing floats models privacy exclude)
    unfolding plan_embedding_routing Headed
    plan_embedding_routing-Selects distinct = record {
      selects = sort_models-Headed _ _ (pool-Serves models embedding privacy exclude distinct);
      refuses = λ e. sort_models-nil _ (head_of-none _ e);
    }
