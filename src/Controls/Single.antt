-- ===== src/Controls/Single.antt =====
-- The statuses of run controls, and the open controls of a run, under a sequence of operations.
use taskboard.Common.{
  Bool, Bool-cases, List, String, [], arith, count, count-append, eq_iff, inl, inr, subst, sym,
  true, update, ◌∷◌, ◌≡◌, ◌≤◌,
}
use taskboard.Controls.{is_open}
use taskboard.Controls.Calls.{ControlCalls, ControlCalls-steps}
use taskboard.Controls.Create.{same_open}
use taskboard.Controls.Diagram.{
  Advances, Advances-append, Advances-refl, Advances-trans, Advances-update, Later,
}
use taskboard.Controls.Steps.{ControlStep, ControlSteps}
use taskboard.Model.{Board, ControlKind, RunControl, kind_beq_iff}

ControlStep-Advances : {xs ys : List RunControl} → ControlStep xs ys → Advances xs ys
ControlStep-Advances {xs} (ControlStep.kept same) =
    subst (Advances xs) (sym same) (Advances-refl xs)
ControlStep-Advances {xs} (ControlStep.changed here change later opened same) =
    subst (Advances xs) (sym same) (Advances-update here change xs later)
ControlStep-Advances {xs} (ControlStep.added item fresh same) =
    subst (Advances xs) (sym same) (Advances-append xs (item ∷ []))

ControlSteps-Advances : {xs ys : List RunControl} → ControlSteps xs ys → Advances xs ys
ControlSteps-Advances {xs} ControlSteps.none_taken = Advances-refl xs
ControlSteps-Advances {xs} {ys} (ControlSteps.then_step {ys = mid} steps step) =
    Advances-trans xs mid ys (ControlSteps-Advances steps) (ControlStep-Advances step)

-- Over any sequence of creations, agents' changes, expiries and reviews, every run control stays
-- on the board with its identifier, task, run, agent and kind, and its status moves along the
-- diagram requested, acknowledged, accepted, with rejected, completed and expired as ends that it
-- never leaves.
pub ControlCalls-Advances : {b c : Board} → ControlCalls b c → Advances b.controls c.controls
ControlCalls-Advances calls = ControlSteps-Advances (ControlCalls-steps calls)

-- No run has two open controls of one kind.
abbrev pub IsSingleOpen : List RunControl → Type 0
IsSingleOpen xs =
    (task_id run_id : String) (kind : ControlKind) → count (same_open task_id run_id kind) xs ≤ 1

count-update_keep {ℓ} :
    {A : Type ℓ} (p q : A → Bool) (f : A → A) (xs : List A)
    → ((x : A) → p x ≡ true → q (f x) ≡ true → q x ≡ true)
    → count q (update p f xs) ≤ count q xs
count-update_keep p q f [] h = omega arith
count-update_keep p q f (x ∷ xs) h = ground (arith, h x, count-update_keep p q f xs h)

Later-same_open :
    (task_id run_id : String) (kind : ControlKind) (c d : RunControl)
    → Later c d
    → is_open c.status ≡ true
    → same_open task_id run_id kind d ≡ true
    → same_open task_id run_id kind c ≡ true
Later-same_open task_id run_id kind c d later opened h =
    ground (arith, later.same_task, later.same_run, later.same_kind)

same_open-eq :
    (task_id run_id : String) (kind : ControlKind) (c : RunControl)
    → same_open task_id run_id kind c ≡ true
    → (c.task_id ≡ task_id)
      × (c.target_run_id ≡ run_id)
      × (c.kind ≡ kind)
      × (is_open c.status ≡ true)
same_open-eq task_id run_id kind c h = (
  ground (arith, eq_iff c.task_id task_id),
  ground (arith, eq_iff c.target_run_id run_id),
  ground (arith, kind_beq_iff c.kind kind),
  ground arith,
)

ControlStep-IsSingleOpen :
    {xs ys : List RunControl} → ControlStep xs ys → IsSingleOpen xs → IsSingleOpen ys
ControlStep-IsSingleOpen (ControlStep.kept same) single = subst IsSingleOpen (sym same) single
ControlStep-IsSingleOpen {xs} (ControlStep.changed here change later opened same) single =
    subst IsSingleOpen (sym same) (λ task_id run_id kind. omega (
      arith,
      single task_id run_id kind,
      count-update_keep here (same_open task_id run_id kind) change xs
          (λ c k. Later-same_open task_id run_id kind c (change c) (later c k) (opened c k)),
    ))
ControlStep-IsSingleOpen {xs} (ControlStep.added item fresh same) single =
    subst IsSingleOpen (sym same) (λ task_id run_id kind.
      elim (Bool-cases (same_open task_id run_id kind item)) [
        | inl mine ↦
            let (t1, r1, k1, o1) = same_open-eq task_id run_id kind item mine in
            let none_there : count (same_open task_id run_id kind) xs ≡ 0 =
              subst (λ k. count (same_open task_id run_id k) xs ≡ 0) k1
                (subst (λ r. count (same_open task_id r item.kind) xs ≡ 0) r1
                  (subst (λ t. count (same_open t item.target_run_id item.kind) xs ≡ 0) t1
                    (fresh o1))) in
            ground (arith, count-append (same_open task_id run_id kind) xs (item ∷ []))
        | inr other ↦ ground (
          arith,
          single task_id run_id kind,
          count-append (same_open task_id run_id kind) xs (item ∷ []),
        )
      ])

ControlSteps-IsSingleOpen :
    {xs ys : List RunControl} → ControlSteps xs ys → IsSingleOpen xs → IsSingleOpen ys
ControlSteps-IsSingleOpen ControlSteps.none_taken single = single
ControlSteps-IsSingleOpen (ControlSteps.then_step steps step) single =
    ControlStep-IsSingleOpen step (ControlSteps-IsSingleOpen steps single)

-- Over any sequence of creations, agents' changes, expiries and reviews, a run has at most one
-- open control of each kind, if that is so at the start.
pub ControlCalls-IsSingleOpen :
    {b c : Board} → ControlCalls b c → IsSingleOpen b.controls → IsSingleOpen c.controls
ControlCalls-IsSingleOpen calls single = ControlSteps-IsSingleOpen (ControlCalls-steps calls) single
