-- ===== src/Dependencies/Acyclic.antt =====
-- Cycles of dependencies under `addTaskDependencyFor` and `removeTaskDependencyFor`.
use taskboard.Access.{can_mutate}
use taskboard.Access.Principals.{Permission, Principal, can}
use taskboard.Board.Queries.{TaskView, get_task, insert_event, load_task}
use taskboard.Board.Settings.{Call, Settings}
use taskboard.Claim.{get_for}
use taskboard.Common.{
  >>=-eq-ok, Bool, Empty, In, In-append, In-select, List, String, [], any, ap, arith, conflict,
  count, eq_iff, false, forbidden, inl, inr, ltb, nat_eq, not, not_found, ok, ok_injective,
  refuse_if-eq-ok, select, string_eq, subst, sym, validation, ℕ, ◌++◌, ◌==◌, ◌||◌, ◌∙◌, ◌∷◌, ◌≡◌,
  ◌≢◌, ◌⊎◌,
}
use taskboard.Dependencies.{
  add_task_dependency_for, chain, delete_dependency, new_dependency, remove_task_dependency_for,
  same_dependency, write_dependency,
}
use taskboard.Dependencies.Chain.{Blocks, chain-Blocks}
use taskboard.Model.{
  Board, Dependency, control_kind_eq, control_status_eq, escalation_eq, item_eq, status_eq,
  visibility_eq,
}
use taskboard.Text.{contains, trim_space}

unfoldable pub IsAcyclic : List Dependency → Type 0
IsAcyclic deps = (x : String) → Blocks deps x x → Empty {0}

Blocks-trans :
    {deps : List Dependency} {x y z : String} → Blocks deps x y → Blocks deps y z → Blocks deps x z
Blocks-trans p (Blocks.direct d m from to) = Blocks.further p d m from to
Blocks-trans p (Blocks.further walk d m from to) = Blocks.further (Blocks-trans p walk) d m from to

-- The same task, or one that blocks it.
abbrev Reaches : List Dependency → String → String → Type 0
Reaches deps x y = (x ≡ y) ⊎ Blocks deps x y

Reaches-trans :
    {deps : List Dependency} (x y z : String)
    → Reaches deps x y
    → Reaches deps y z
    → Reaches deps x z
Reaches-trans {deps} x y z (inl e) q = subst (λ w. Reaches deps w z) (sym e) q
Reaches-trans {deps} x y z (inr p) (inl e) = inr (subst (Blocks deps x) e p)
Reaches-trans x y z (inr p) (inr q) = inr (Blocks-trans p q)

Blocks-step :
    {deps : List Dependency} (x y z : String) (d : Dependency)
    → In d deps
    → d.task_id ≡ y
    → d.blocked_by ≡ z
    → Reaches deps x y
    → Blocks deps x z
Blocks-step {deps} x y z d m from to (inl e) = Blocks.direct d m (from ∙ sym e) to
Blocks-step x y z d m from to (inr p) = Blocks.further p d m from to

-- A walk over one more row either does not use it, or reaches its start and goes on from its end.
Blocks-append :
    (deps : List Dependency) (e : Dependency) (x y : String)
    → Blocks (deps ++ e ∷ []) x y
    → Blocks deps x y ⊎ (Reaches deps x e.task_id × Reaches deps e.blocked_by y)
Blocks-append deps e x y (Blocks.direct d m from to) = elim (In-append d deps (e ∷ []) m) [
  | inl old ↦ inl (Blocks.direct d old from to)
  | inr (inl same) ↦ inr (
    inl (sym from ∙ ap (λ (r : Dependency). r.task_id) same),
    inl (ap (λ (r : Dependency). r.blocked_by) (sym same) ∙ to),
  )
  | inr (inr none_left) ↦ elim none_left [ ]
]
Blocks-append deps e x z (Blocks.further {y = y} walk d m from to) =
    go (Blocks-append deps e x y walk) (In-append d deps (e ∷ []) m)
  where
    go :
        Blocks deps x y ⊎ (Reaches deps x e.task_id × Reaches deps e.blocked_by y)
        → In d deps ⊎ In d (e ∷ [])
        → Blocks deps x z ⊎ (Reaches deps x e.task_id × Reaches deps e.blocked_by z)
    go (inl old) (inl k) = inl (Blocks.further old d k from to)
    go (inr (p, q)) (inl k) = inr (p, inr (Blocks-step e.blocked_by y z d k from to q))
    go before (inr (inl same)) = inr (
      elim before [
        | inl old ↦
            inr (subst (Blocks deps x) (sym from ∙ ap (λ (r : Dependency). r.task_id) same) old)
        | inr (p, q) ↦ p
      ],
      inl (ap (λ (r : Dependency). r.blocked_by) (sym same) ∙ to),
    )
    go before (inr (inr none_left)) = elim none_left [ ]

-- A row whose end does not reach its start closes no cycle.
IsAcyclic-append :
    (deps : List Dependency) (e : Dependency)
    → (e.blocked_by ≢ e.task_id)
    → contains e.task_id (chain deps e.blocked_by) ≡ false
    → IsAcyclic deps
    → IsAcyclic (deps ++ e ∷ [])
unfolding IsAcyclic
IsAcyclic-append deps e distinct clear acyclic x walk = elim (Blocks-append deps e x x walk) [
  | inl old ↦ acyclic x old
  | inr (p, q) ↦ elim (Reaches-trans e.blocked_by x e.task_id q p) [
    | inl same ↦ absurd (distinct same)
    | inr back ↦
        let hit = (chain-Blocks deps e.blocked_by e.task_id).1 back in absurd (ground arith)
  ]
]

Blocks-select :
    (p : Dependency → Bool) (deps : List Dependency) (x y : String)
    → Blocks (select p deps) x y
    → Blocks deps x y
Blocks-select p deps x y (Blocks.direct d m from to) =
    Blocks.direct d (In-select p d deps m).0 from to
Blocks-select p deps x z (Blocks.further {y = y} walk d m from to) =
    Blocks.further (Blocks-select p deps x y walk) d (In-select p d deps m).0 from to

write_dependency-rows :
    (call : Call) (b b' : Board) (task_id blocked_by : String) (expected : ℕ)
    (principal : Principal)
    → write_dependency call b task_id blocked_by expected principal ≡ ok b'
    → (contains task_id (chain b.dependencies blocked_by) ≡ false)
      × (b'.dependencies ≡ b.dependencies ++ new_dependency call task_id blocked_by principal ∷ [])
unfolding write_dependency insert_event
write_dependency-rows call b b' task_id blocked_by expected principal h =
    let (current, loaded, h1) = >>=-eq-ok (load_task b task_id) _ h in
    let (c0, h2) = refuse_if-eq-ok (not (current.version == expected)) conflict _ h1 in
    let (clear, h3) =
      refuse_if-eq-ok (contains task_id (chain b.dependencies blocked_by)) validation _ h2 in
    let (fresh, h4) =
      refuse_if-eq-ok (any (same_dependency task_id blocked_by) b.dependencies) validation _ h3 in
    (clear, sym (ap (λ (x : Board). x.dependencies) (ok_injective h4)))

delete_dependency-rows :
    (call : Call) (b b' : Board) (task_id blocked_by : String) (expected : ℕ)
    (principal : Principal)
    → delete_dependency call b task_id blocked_by expected principal ≡ ok b'
    → b'.dependencies
      ≡ select (λ (d : Dependency). not (same_dependency task_id blocked_by d)) b.dependencies
unfolding delete_dependency insert_event
delete_dependency-rows call b b' task_id blocked_by expected principal h =
    let (current, loaded, h1) = >>=-eq-ok (load_task b task_id) _ h in
    let (c0, h2) = refuse_if-eq-ok (not (current.version == expected)) conflict _ h1 in
    let (c1, h3) =
      refuse_if-eq-ok (not (count (same_dependency task_id blocked_by) b.dependencies == 1))
        not_found _ h2 in
    sym (ap (λ (x : Board). x.dependencies) (ok_injective h3))

-- A call that changes the dependencies.
pub data DependencyCall (b : Board) : Board → Type 0 where
  added :
      {b' : Board} (settings : Settings) (call : Call) (id blocked : String) (expected : ℕ)
      (principal : Principal) (task : TaskView)
      → add_task_dependency_for settings call b id blocked expected principal ≡ ok (b', task)
      → DependencyCall b b'
  removed :
      {b' : Board} (settings : Settings) (call : Call) (id blocked : String) (expected : ℕ)
      (principal : Principal) (task : TaskView)
      → remove_task_dependency_for settings call b id blocked expected principal ≡ ok (b', task)
      → DependencyCall b b'

add_task_dependency_for-IsAcyclic :
    (settings : Settings) (call : Call) (b b' : Board) (id blocked : String) (expected : ℕ)
    (principal : Principal) (task : TaskView)
    → add_task_dependency_for settings call b id blocked expected principal ≡ ok (b', task)
    → IsAcyclic b.dependencies
    → IsAcyclic b'.dependencies
unfolding add_task_dependency_for
add_task_dependency_for-IsAcyclic settings call b b' id blocked expected principal task h acyclic =
    let task_id = trim_space id in
    let blocked_by = trim_space blocked in
    let (c0, h1) =
      refuse_if-eq-ok (principal.agent || not (can principal.identity Permission.task_write))
        forbidden _ h in
    let (c1, h2) =
      refuse_if-eq-ok (task_id == "" || blocked_by == "" || task_id == blocked_by || ltb expected 1)
        validation _ h1 in
    let (seen, got, h3) = >>=-eq-ok (get_for settings call b task_id principal) _ h2 in
    let (c2, h4) = refuse_if-eq-ok (not (can_mutate seen.row principal)) forbidden _ h3 in
    let (other, got', h5) = >>=-eq-ok (get_for settings call b blocked_by principal) _ h4 in
    let (after, wrote, h6) =
      >>=-eq-ok (write_dependency call b task_id blocked_by expected principal) _ h5 in
    let (shown, got'', h7) = >>=-eq-ok (get_task settings call after task_id) _ h6 in
    let (clear, rows) =
      write_dependency-rows call b after task_id blocked_by expected principal wrote in
    let last : b'.dependencies ≡ after.dependencies =
      sym (ap (λ (p : Board × TaskView). p.0.dependencies) (ok_injective h7)) in
    subst IsAcyclic (sym (last ∙ rows)) (
      IsAcyclic-append b.dependencies (new_dependency call task_id blocked_by principal)
        (λ same. ground (arith, c1, same, eq_iff task_id blocked_by)) clear acyclic)

remove_task_dependency_for-IsAcyclic :
    (settings : Settings) (call : Call) (b b' : Board) (id blocked : String) (expected : ℕ)
    (principal : Principal) (task : TaskView)
    → remove_task_dependency_for settings call b id blocked expected principal ≡ ok (b', task)
    → IsAcyclic b.dependencies
    → IsAcyclic b'.dependencies
unfolding remove_task_dependency_for IsAcyclic
remove_task_dependency_for-IsAcyclic settings call b b' id blocked expected principal task h acyclic
      x walk =
    let (c0, h1) =
      refuse_if-eq-ok (principal.agent || not (can principal.identity Permission.task_write))
        forbidden _ h in
    let (seen, got, h2) = >>=-eq-ok (get_for settings call b id principal) _ h1 in
    let (c1, h3) = refuse_if-eq-ok (not (can_mutate seen.row principal)) forbidden _ h2 in
    let (after, wrote, h4) =
      >>=-eq-ok (delete_dependency call b id blocked expected principal) _ h3 in
    let (shown, got', h5) = >>=-eq-ok (get_task settings call after id) _ h4 in
    let rows : b'.dependencies
        ≡ select (λ (d : Dependency). not (same_dependency id blocked d)) b.dependencies =
      sym (ap (λ (p : Board × TaskView). p.0.dependencies) (ok_injective h5))
      ∙ delete_dependency-rows call b after id blocked expected principal wrote in
    acyclic x (
      Blocks-select (λ (d : Dependency). not (same_dependency id blocked d)) b.dependencies x x
        (subst (λ ds. Blocks ds x x) rows walk))

-- Adding and removing dependencies through the service keeps them free of cycles: if no task waits
-- for itself, directly or over others, before the call, none does after it.
pub DependencyCall-IsAcyclic :
    (b b' : Board) → DependencyCall b b' → IsAcyclic b.dependencies → IsAcyclic b'.dependencies
DependencyCall-IsAcyclic b b' (DependencyCall.added settings call id blocked expected p task h) k =
    add_task_dependency_for-IsAcyclic settings call b b' id blocked expected p task h k
DependencyCall-IsAcyclic b b' (DependencyCall.removed settings call id blocked expected p task h)
      k =
    remove_task_dependency_for-IsAcyclic settings call b b' id blocked expected p task h k
