-- ===== src/Dependencies/Chain.antt =====
-- The recursive query of `addTaskDependencyFor` against the relation that it searches.
use taskboard.Common.{
  Bool, Bool-cases, In, In-select, List, String, [], any, any-false-In, ap, arith, count,
  count-lt_of_In, count-zero-any, eq_iff, false, inl, inr, length, nat_eq, not, refl, select,
  string_eq, subst, suc, sym, true, zero, ℕ, ◌&&◌, ◌++◌, ◌==◌, ◌||◌, ◌↔◌, ◌∙◌, ◌∷◌, ◌≡◌, ◌≤◌,
}
use taskboard.Dependencies.{blockers, chain, close, first_blockers, grow, leads_out}
use taskboard.Model.{
  Dependency, control_kind_eq, control_status_eq, escalation_eq, item_eq, status_eq, visibility_eq,
}
use taskboard.Text.{contains}

-- `y` blocks `x` through one or more rows.
pub data Blocks (deps : List Dependency) (x : String) : String → Type 0 where
  direct :
      {y : String} (d : Dependency) → In d deps → d.task_id ≡ x → d.blocked_by ≡ y → Blocks deps x y
  further :
      {y z : String} (walk : Blocks deps x y) (d : Dependency)
      → In d deps
      → d.task_id ≡ y
      → d.blocked_by ≡ z
      → Blocks deps x z

-- No row leads out of the identifiers.
abbrev IsClosed : List Dependency → List String → Type 0
IsClosed deps seen = any (leads_out seen) deps ≡ false

contains-append :
    (x : String) (xs ys : List String) → contains x (xs ++ ys) ≡ (contains x xs || contains x ys)
unfolding contains
contains-append x [] ys = refl
contains-append x (y ∷ xs) ys = ground (arith, contains-append x xs ys)

contains-blockers :
    (d : Dependency) (deps : List Dependency)
    → In d deps
    → contains d.blocked_by (blockers deps) ≡ true
unfolding contains
contains-blockers d [] m = elim m [ ]
contains-blockers d (e ∷ deps) (inl same) =
    ground (arith, ap (λ (x : Dependency). x.blocked_by) same, eq_iff e.blocked_by d.blocked_by)
contains-blockers d (e ∷ deps) (inr m) = ground (arith, contains-blockers d deps m)

blockers-contains :
    (x : String) (deps : List Dependency)
    → contains x (blockers deps) ≡ true
    → (d : Dependency) × In d deps × (d.blocked_by ≡ x)
unfolding contains
blockers-contains x [] h = cc
blockers-contains x (e ∷ deps) h = elim (Bool-cases (e.blocked_by == x)) [
  | inl here ↦ (e, inl refl, ground (arith, eq_iff e.blocked_by x))
  | inr later ↦ let (d, m, same) = blockers-contains x deps (ground arith) in (d, inr m, same)
]

any-true-In {ℓ} :
    {A : Type ℓ} (p : A → Bool) (xs : List A) → any p xs ≡ true → (a : A) × In a xs × (p a ≡ true)
any-true-In p [] h = cc
any-true-In p (x ∷ xs) h = elim (Bool-cases (p x)) [
  | inl here ↦ (x, inl refl, here)
  | inr later ↦ let (a, m, e) = any-true-In p xs (ground arith) in (a, inr m, e)
]

select-none {ℓ} : {A : Type ℓ} (p : A → Bool) (xs : List A) → any p xs ≡ false → select p xs ≡ []
select-none p [] h = refl
select-none p (x ∷ xs) h = ground (arith, select-none p xs)

pub In-select_intro {ℓ} :
    {A : Type ℓ} (p : A → Bool) (a : A) (xs : List A) → In a xs → p a ≡ true → In a (select p xs)
In-select_intro p a [] m h = elim m [ ]
In-select_intro p a (x ∷ xs) (inl same) h =
    let hit : p x ≡ true = ap p (sym same) ∙ h in rw hit (inl same)
In-select_intro p a (x ∷ xs) (inr m) h = elim (Bool-cases (p x)) [
  | inl hit ↦ rw hit (inr (In-select_intro p a xs m h))
  | inr miss ↦ rw miss (In-select_intro p a xs m h)
]

append-nil {ℓ} : {A : Type ℓ} (xs : List A) → xs ++ [] ≡ xs
append-nil [] = refl
append-nil (x ∷ xs) = ap (λ ys. x ∷ ys) (append-nil xs)

count-le {ℓ} :
    {A : Type ℓ} (p q : A → Bool) (xs : List A)
    → ((x : A) → p x ≡ true → q x ≡ true)
    → count p xs ≤ count q xs
count-le p q [] h = omega arith
count-le p q (x ∷ xs) h = ground (arith, h x, count-le p q xs h)

grow-IsClosed :
    (deps : List Dependency) (seen : List String) → IsClosed deps seen → grow deps seen ≡ seen
grow-IsClosed deps seen closed = rw (select-none (leads_out seen) deps closed) (append-nil seen)

-- The rows whose blocking task is not found yet.
abbrev missing : List Dependency → List String → ℕ
missing deps seen = count (λ (d : Dependency). not (contains d.blocked_by seen)) deps

-- A round that is not the last finds a new blocking task.
missing-grow :
    (deps : List Dependency) (seen : List String)
    → any (leads_out seen) deps ≡ true
    → suc (missing deps (grow deps seen)) ≤ missing deps seen
missing-grow deps seen h =
    let (d, m, out) = any-true-In (leads_out seen) deps h in
    let p = λ (x : Dependency). not (contains x.blocked_by seen) in
    let r = λ (x : Dependency). not (contains x.blocked_by (grow deps seen)) in
    let split = λ (x : String). contains-append x seen (blockers (select (leads_out seen) deps)) in
    let found_now =
      contains-blockers d (select (leads_out seen) deps)
        (In-select_intro (leads_out seen) d deps m out) in
    let here : p d ≡ true = ground (arith, out) in
    let gone : r d ≡ false = ground (arith, split d.blocked_by, found_now) in
    omega (
      arith,
      count-lt_of_In p r d deps m here gone,
      count-le r (λ x. p x && r x) deps (λ x k. ground (arith, split x.blocked_by, k)),
    )

-- A row that leads out has a blocking task that is not found.
leads_out-missing :
    (deps : List Dependency) (seen : List String) → missing deps seen ≡ 0 → IsClosed deps seen
leads_out-missing deps seen h =
    let none_out : count (leads_out seen) deps ≡ 0 = omega (
      arith,
      h,
      count-le (leads_out seen) (λ (d : Dependency). not (contains d.blocked_by seen)) deps
          (λ d k. ground arith),
    ) in
    count-zero-any (leads_out seen) deps none_out

-- Enough rounds: after as many as rows are missing, no row leads out.
close-IsClosed :
    (rounds : ℕ) (deps : List Dependency) (seen : List String)
    → missing deps seen ≤ rounds
    → IsClosed deps (close rounds deps seen)
unfolding close
close-IsClosed zero deps seen enough = leads_out-missing deps seen (omega arith)
close-IsClosed (suc rounds) deps seen enough = elim (Bool-cases (any (leads_out seen) deps)) [
  | inl more ↦
      close-IsClosed rounds deps (grow deps seen) (omega (arith, missing-grow deps seen more))
  | inr closed ↦
      close_closed rounds (grow deps seen)
        (subst (IsClosed deps) (sym (grow-IsClosed deps seen closed)) closed)
]
  where
    close_closed : (n : ℕ) (xs : List String) → IsClosed deps xs → IsClosed deps (close n deps xs)
    close_closed zero xs k = k
    close_closed (suc n) xs k =
        close_closed n (grow deps xs) (subst (IsClosed deps) (sym (grow-IsClosed deps xs k)) k)

close-keeps :
    (rounds : ℕ) (deps : List Dependency) (seen : List String) (x : String)
    → contains x seen ≡ true
    → contains x (close rounds deps seen) ≡ true
unfolding close
close-keeps zero deps seen x h = h
close-keeps (suc rounds) deps seen x h =
    close-keeps rounds deps (grow deps seen) x
      (ground (arith, h, contains-append x seen (blockers (select (leads_out seen) deps))))

-- All that is found blocks the start.
abbrev AreBlockers : List Dependency → String → List String → Type 0
AreBlockers deps start seen = (x : String) → contains x seen ≡ true → Blocks deps start x

close-AreBlockers :
    (rounds : ℕ) (deps : List Dependency) (start : String) (seen : List String)
    → AreBlockers deps start seen
    → AreBlockers deps start (close rounds deps seen)
unfolding close
close-AreBlockers zero deps start seen h = h
close-AreBlockers (suc rounds) deps start seen h =
    close-AreBlockers rounds deps start (grow deps seen) (λ x k.
      elim (Bool-cases (contains x seen)) [
        | inl old ↦ h x old
        | inr new ↦
            let (d, m, same) = blockers-contains x (select (leads_out seen) deps) (
              ground (
                arith,
                new,
                k,
                contains-append x seen (blockers (select (leads_out seen) deps)),
              )) in
            let (stored, out) = In-select (leads_out seen) d deps m in
            let from : contains d.task_id seen ≡ true = ground (arith, out) in
            Blocks.further (h d.task_id from) d stored refl same
      ])

first_blockers-AreBlockers :
    (deps : List Dependency) (start : String) → AreBlockers deps start (first_blockers deps start)
first_blockers-AreBlockers deps start x h =
    let starts = λ (d : Dependency). d.task_id == start in
    let (d, m, same) = blockers-contains x (select starts deps) h in
    let (stored, here) = In-select starts d deps m in
    Blocks.direct d stored (ground (arith, here, eq_iff d.task_id start)) same

count-length {ℓ} : {A : Type ℓ} (p : A → Bool) (xs : List A) → count p xs ≤ length xs
count-length p [] = omega arith
count-length p (e ∷ xs) = ground (arith, count-length p xs)

chain-contains :
    (deps : List Dependency) (start x : String)
    → Blocks deps start x
    → contains x (chain deps start) ≡ true
unfolding chain
chain-contains deps start x (Blocks.direct d m from to) =
    let starts = λ (e : Dependency). e.task_id == start in
    let hit : starts d ≡ true = ground (arith, from, eq_iff d.task_id start) in
    close-keeps (length deps) deps (first_blockers deps start) x (
      subst (λ y. contains y (first_blockers deps start) ≡ true) to
        (contains-blockers d (select starts deps) (In-select_intro starts d deps m hit)))
chain-contains deps start x (Blocks.further {y = y} walk d m from to) =
    let all_found = chain deps start in
    let closed =
      any-false-In (leads_out all_found) d deps
        (close-IsClosed (length deps) deps (first_blockers deps start) (count-length _ deps)) m in
    let before : contains d.task_id all_found ≡ true =
      subst (λ z. contains z all_found ≡ true) (sym from) (chain-contains deps start y walk) in
    let after : contains d.blocked_by all_found ≡ true = ground (arith, closed, before) in
    subst (λ z. contains z all_found ≡ true) to after

-- The recursive query, run for as many rounds as there are rows, finds a task exactly when that
-- task blocks the start, directly or over others.
pub chain-Blocks :
    (deps : List Dependency) (start x : String)
    → (contains x (chain deps start) ≡ true) ↔ Blocks deps start x
unfolding chain
chain-Blocks deps start x = (
  λ h.
      close-AreBlockers (length deps) deps start (first_blockers deps start)
        (first_blockers-AreBlockers deps start) x h,
  chain-contains deps start x,
)
