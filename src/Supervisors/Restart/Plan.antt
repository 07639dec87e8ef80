-- ===== src/Supervisors/Restart/Plan.antt =====
-- What a plan of each strategy holds.
use nova_project_bible.Common.{
  ℕ, Uuid, ◌≡◌, refl, sym, ap, ◌∙◌, subst, some, List, [], ◌∷◌, Bool, true, false, ◌==◌, ==_self,
  ==_iff, leb, not, ◌||◌, keep, contains, arith, Bool-cases, inl, inr, ◌↔◌, ◌⊎◌, ◌≢◌, ◌≤◌,
}
use nova_project_bible.Kernel.Model.{InstanceStatus, running, completed, failed}
use nova_project_bible.Supervisors.Restart.{
  RestartStrategy, one_for_one, one_for_all, rest_for_one, SupervisedInstance, is_completed,
  instance_ids, find_instance, insert_by_order, sort_by_order, candidates, plan_of, plan_restart,
}

contains-insert_by_order :
    (j : Uuid) (s : SupervisedInstance) (l : List SupervisedInstance)
    → contains j (instance_ids (insert_by_order s l)) ≡ (s.id == j || contains j (instance_ids l))
unfolding insert_by_order
contains-insert_by_order j s [] = refl
contains-insert_by_order j s (x ∷ rest) = ground (arith, contains-insert_by_order j s rest)

contains-sort_by_order :
    (j : Uuid) (l : List SupervisedInstance)
    → contains j (instance_ids (sort_by_order l)) ≡ contains j (instance_ids l)
unfolding sort_by_order
contains-sort_by_order j [] = refl
contains-sort_by_order j (s ∷ rest) =
    contains-insert_by_order j s (sort_by_order rest)
    ∙ ap (λ b. s.id == j || b) (contains-sort_by_order j rest)

-- An instance of the list satisfies it.
abbrev pub Exists : (SupervisedInstance → Type 0) → List SupervisedInstance → Type 0
Exists P [] = ⊥
Exists P (s ∷ rest) = P s ⊎ Exists P rest

Exists-map :
    (P Q : SupervisedInstance → Type 0) (l : List SupervisedInstance)
    → ((s : SupervisedInstance) → P s → Q s)
    → Exists P l
    → Exists Q l
Exists-map P Q [] f h = h
Exists-map P Q (s ∷ rest) f (inl p) = inl (f s p)
Exists-map P Q (s ∷ rest) f (inr h) = inr (Exists-map P Q rest f h)

Exists-elim :
    (P : SupervisedInstance → Type 0) (C : Type 0) (l : List SupervisedInstance)
    → ((s : SupervisedInstance) → P s → C)
    → Exists P l
    → C
Exists-elim P C [] f h = absurd h
Exists-elim P C (s ∷ rest) f (inl p) = f s p
Exists-elim P C (s ∷ rest) f (inr h) = Exists-elim P C rest f h

Exists-keep :
    (P : SupervisedInstance → Type 0) (p : SupervisedInstance → Bool) (l : List SupervisedInstance)
    → Exists P (keep p l) ↔ Exists (λ s. P s × (p s ≡ true)) l
Exists-keep P p [] = (λ h. h, λ h. h)
Exists-keep P p (s ∷ rest) =
    let (to, from) = Exists-keep P p rest in
    elim (Bool-cases (p s)) [
      | inl e ↦ rw e (kept to, kept_from from)
      | inr e ↦ rw e (λ h. inr (to h), lost from)
    ]
  where
    kept :
        (Exists P (keep p rest) → Exists (λ s. P s × (p s ≡ true)) rest)
        → P s ⊎ Exists P (keep p rest)
        → (P s × (true ≡ true)) ⊎ Exists (λ s. P s × (p s ≡ true)) rest
    kept to (inl q) = inl (q, refl)
    kept to (inr h) = inr (to h)

    kept_from :
        (Exists (λ s. P s × (p s ≡ true)) rest → Exists P (keep p rest))
        → (P s × (true ≡ true)) ⊎ Exists (λ s. P s × (p s ≡ true)) rest
        → P s ⊎ Exists P (keep p rest)
    kept_from from (inl (q, e)) = inl q
    kept_from from (inr h) = inr (from h)

    lost :
        (Exists (λ s. P s × (p s ≡ true)) rest → Exists P (keep p rest))
        → (P s × (false ≡ true)) ⊎ Exists (λ s. P s × (p s ≡ true)) rest
        → Exists P (keep p rest)
    lost from (inl (q, e)) = cc
    lost from (inr h) = from h

contains-Exists :
    (j : Uuid) (l : List SupervisedInstance)
    → (contains j (instance_ids l) ≡ true) ↔ Exists (λ s. s.id ≡ j) l
contains-Exists j [] = (λ h. let q : false ≡ true = h in cc, λ h. absurd h)
contains-Exists j (s ∷ rest) =
    let (to, from) = contains-Exists j rest in
    (
      λ h. elim (Bool-cases (s.id == j)) [
        | inl e ↦ inl ((==_iff s.id j).0 e)
        | inr e ↦ inr (to (rw e at h))
      ],
      λ h. elim h [ inl q ↦ rw (q, ==_self) | inr k ↦ let t = from k in ground arith ],
    )

found-Exists :
    (P : SupervisedInstance → Type 0) (i : Uuid) (l : List SupervisedInstance)
    (f : SupervisedInstance)
    → find_instance i l ≡ some f
    → P f
    → Exists P l
unfolding find_instance
found-Exists P i [] f h p = cc
found-Exists P i (s ∷ rest) f h p = elim (Bool-cases (s.id == i)) [
  | inl e ↦
      let same : some s ≡ some f = (rw (find_instance, e) at h) in
      let r : s ≡ f = cc in inl (subst P (sym r) p)
  | inr e ↦ inr (found-Exists P i rest f (rw (find_instance, e) at h) p)
]

find_instance-id :
    (i : Uuid) (l : List SupervisedInstance) (f : SupervisedInstance)
    → find_instance i l ≡ some f
    → f.id ≡ i
unfolding find_instance
find_instance-id i [] f h = cc
find_instance-id i (s ∷ rest) f h = ground (arith, find_instance-id i rest f)

le_of_leb : (m n : ℕ) → leb m n ≡ true → m ≤ n
le_of_leb m n e = ground arith

leb_of_le : (m n : ℕ) → m ≤ n → leb m n ≡ true
leb_of_le m n e = ground arith

-- The siblings that a strategy restarts with the failed instance.
abbrev pub Restarts : RestartStrategy → SupervisedInstance → SupervisedInstance → Type 0
Restarts one_for_one f s = s.id ≡ f.id
Restarts one_for_all f s = Unit
Restarts rest_for_one f s = f.started_order ≤ s.started_order

abbrev pub Due : RestartStrategy → SupervisedInstance → Uuid → SupervisedInstance → Type 0
Due strategy f j s = (s.id ≡ j) × (s.status ≢ completed) × Restarts strategy f s

open_iff : (status : InstanceStatus) → (not (is_completed status) ≡ true) ↔ (status ≢ completed)
open_iff running = (λ h q. let e = ap is_completed q in cc, λ h. refl)
open_iff completed = (λ h. cc, λ h. absurd (h refl))
open_iff failed = (λ h q. let e = ap is_completed q in cc, λ h. refl)

candidates-Exists :
    (P : SupervisedInstance → Type 0) (siblings : List SupervisedInstance)
    → Exists P (candidates siblings) ↔ Exists (λ s. P s × (s.status ≢ completed)) siblings
candidates-Exists P siblings =
    let (to, from) = Exists-keep P (λ s. not (is_completed s.status)) siblings in
    (
      λ h. Exists-map _ _ siblings (λ s (p, e). (p, (open_iff s.status).0 e)) (to h),
      λ h. from (Exists-map _ _ siblings (λ s (p, e). (p, (open_iff s.status).1 e)) h),
    )

plan_of-Due :
    (strategy : RestartStrategy) (i : Uuid) (siblings : List SupervisedInstance)
    (f : SupervisedInstance)
    → find_instance i siblings ≡ some f
    → f.status ≢ completed
    → (j : Uuid)
    → (contains j (plan_of strategy f siblings) ≡ true) ↔ Exists (Due strategy f j) siblings
unfolding plan_of
plan_of-Due one_for_one i siblings f found is_open j = (
  λ h. elim (Bool-cases (f.id == j)) [
    | inl e ↦ found-Exists _ i siblings f found ((==_iff f.id j).0 e, is_open, refl)
    | inr e ↦ let q : false ≡ true = (rw e at h) in cc
  ],
  λ h. Exists-elim _ _ siblings (λ s (is_j, o, is_f). rw (sym is_f ∙ is_j, ==_self)) h,
)
plan_of-Due one_for_all i siblings f found is_open j =
    let sorted = contains-sort_by_order j (candidates siblings) in
    let (to, from) = contains-Exists j (candidates siblings) in
    let (out, back) = candidates-Exists (λ s. s.id ≡ j) siblings in
    (
      λ h. Exists-map _ _ siblings (λ s (is_j, o). (is_j, o, tt)) (out (to (sym sorted ∙ h))),
      λ h. sorted ∙ from (back (Exists-map _ _ siblings (λ s (is_j, o, u). (is_j, o)) h)),
    )
plan_of-Due rest_for_one i siblings f found is_open j =
    let after : SupervisedInstance → Bool = λ s. leb f.started_order s.started_order in
    let sorted = contains-sort_by_order j (keep after (candidates siblings)) in
    let (to, from) = contains-Exists j (keep after (candidates siblings)) in
    let (kept, kept_back) = Exists-keep (λ s. s.id ≡ j) after (candidates siblings) in
    let (out, back) = candidates-Exists (λ s. (s.id ≡ j) × (after s ≡ true)) siblings in
    (
      λ h.
          Exists-map _ _ siblings
            (λ s ((is_j, e), o). (is_j, o, le_of_leb f.started_order s.started_order e))
            (out (kept (to (sym sorted ∙ h)))),
      λ h.
          sorted
          ∙ from (
              kept_back (
                back (
                  Exists-map _ _ siblings
                    (λ s (is_j, o, e). ((is_j, leb_of_le f.started_order s.started_order e), o))
                    h))),
    )

-- If the failed instance is among the siblings and has not completed, then under every strategy there
-- is a plan. It contains the failed instance, and it contains exactly the ids of the siblings that
-- have not completed and that the strategy restarts: those with the id of the failed instance for one
-- for one, all of them for one for all, and those not started before it for rest for one.
pub plan_restart_lem :
    (strategy : RestartStrategy) (i : Uuid) (siblings : List SupervisedInstance)
    (f : SupervisedInstance)
    → find_instance i siblings ≡ some f
    → f.status ≢ completed
    → (plan : List Uuid) × (plan_restart strategy i siblings ≡ some plan)
      × (contains i plan ≡ true)
      × ((j : Uuid) → (contains j plan ≡ true) ↔ Exists (Due strategy f j) siblings)
plan_restart_lem strategy i siblings f found is_open = (
  plan_of strategy f siblings,
  unfold plan_restart in rw (plan_restart, found),
  (plan_of-Due strategy i siblings f found is_open i).1 (
      found-Exists (Due strategy f i) i siblings f found
        (find_instance-id i siblings f found, is_open, itself strategy)),
  plan_of-Due strategy i siblings f found is_open,
)
  where
    itself : (strategy : RestartStrategy) → Restarts strategy f f
    itself one_for_one = refl
    itself one_for_all = tt
    itself rest_for_one = omega (arith)
