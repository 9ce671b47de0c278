-- ===== src/Controls/Diagram.antt =====
-- The life of a run control: the diagram of its statuses, and the operations on the controls as
-- steps of the board.
use taskboard.Common.{
  Bool, Bool-cases, In, In-update, List, [], arith, false, inl, inr, refl, subst, true, update,
  ◌++◌, ◌∙◌, ◌∷◌, ◌≡◌,
}
use taskboard.Controls.{is_open, valid_control_transition}
use taskboard.Model.{ControlStatus, RunControl}

-- The edges of the diagram. Every open status may expire, and a review completes an open control.
pub data Edge : ControlStatus → ControlStatus → Type 0 where
  acknowledge : Edge ControlStatus.requested ControlStatus.acknowledged
  accept : Edge ControlStatus.acknowledged ControlStatus.accepted
  reject : Edge ControlStatus.acknowledged ControlStatus.rejected
  expire : (from : ControlStatus) → is_open from ≡ true → Edge from ControlStatus.expired
  complete : (from : ControlStatus) → is_open from ≡ true → Edge from ControlStatus.completed

-- A path of the diagram.
pub data StatusPath : ControlStatus → ControlStatus → Type 0 where
  stay : {status : ControlStatus} → StatusPath status status
  follow :
      {from via to : ControlStatus} (edge : Edge from via) (rest : StatusPath via to)
      → StatusPath from to

pub StatusPath-trans : {x y z : ControlStatus} → StatusPath x y → StatusPath y z → StatusPath x z
StatusPath-trans StatusPath.stay q = q
StatusPath-trans (StatusPath.follow edge rest) q = StatusPath.follow edge (StatusPath-trans rest q)

-- No edge leaves a status that is not open.
pub Edge-is_open : {x y : ControlStatus} → Edge x y → is_open x ≡ true
Edge-is_open Edge.acknowledge = refl
Edge-is_open Edge.accept = refl
Edge-is_open Edge.reject = refl
Edge-is_open (Edge.expire from h) = h
Edge-is_open (Edge.complete from h) = h

pub StatusPath-closed : {x y : ControlStatus} → StatusPath x y → is_open x ≡ false → x ≡ y
StatusPath-closed StatusPath.stay h = refl
StatusPath-closed (StatusPath.follow edge rest) h =
    let opened = Edge-is_open edge in absurd (ground arith)

-- The transitions that the agents ask for are edges of the diagram.
pub valid_control_transition-Edge :
    (from to : ControlStatus) → valid_control_transition from to ≡ true → Edge from to
unfolding valid_control_transition
valid_control_transition-Edge ControlStatus.requested ControlStatus.acknowledged h =
    Edge.acknowledge
valid_control_transition-Edge ControlStatus.requested ControlStatus.expired h =
    Edge.expire ControlStatus.requested refl
valid_control_transition-Edge ControlStatus.acknowledged ControlStatus.accepted h = Edge.accept
valid_control_transition-Edge ControlStatus.acknowledged ControlStatus.rejected h = Edge.reject
valid_control_transition-Edge ControlStatus.acknowledged ControlStatus.expired h =
    Edge.expire ControlStatus.acknowledged refl
valid_control_transition-Edge ControlStatus.accepted ControlStatus.completed h =
    Edge.complete ControlStatus.accepted refl
valid_control_transition-Edge ControlStatus.accepted ControlStatus.expired h =
    Edge.expire ControlStatus.accepted refl
valid_control_transition-Edge _ _ h = absurd (ground arith)

-- A later state of a control.
pub record Later (r s : RunControl) : Type 0 where
  pub same_id : s.id ≡ r.id
  pub same_task : s.task_id ≡ r.task_id
  pub same_run : s.target_run_id ≡ r.target_run_id
  pub same_agent : s.target_agent ≡ r.target_agent
  pub same_kind : s.kind ≡ r.kind
  pub path : StatusPath r.status s.status

pub Later-refl : (r : RunControl) → Later r r
Later-refl r = record {
  same_id = refl;
  same_task = refl;
  same_run = refl;
  same_agent = refl;
  same_kind = refl;
  path = StatusPath.stay;
}

pub Later-trans : (r s u : RunControl) → Later r s → Later s u → Later r u
Later-trans r s u p q = record {
  same_id = q.same_id ∙ p.same_id;
  same_task = q.same_task ∙ p.same_task;
  same_run = q.same_run ∙ p.same_run;
  same_agent = q.same_agent ∙ p.same_agent;
  same_kind = q.same_kind ∙ p.same_kind;
  path = StatusPath-trans p.path q.path;
}

-- Every control of the first table has a later state in the second.
abbrev pub Advances : List RunControl → List RunControl → Type 0
Advances xs ys = (r : RunControl) → In r xs → (s : RunControl) × In s ys × Later r s

pub Advances-refl : (xs : List RunControl) → Advances xs xs
Advances-refl xs r m = (r, m, Later-refl r)

pub Advances-trans : (xs ys zs : List RunControl) → Advances xs ys → Advances ys zs → Advances xs zs
Advances-trans xs ys zs f g r m =
    let (s, k, p) = f r m in let (u, l, q) = g s k in (u, l, Later-trans r s u p q)

pub Advances-update :
    (here : RunControl → Bool) (change : RunControl → RunControl) (xs : List RunControl)
    → ((c : RunControl) → here c ≡ true → Later c (change c))
    → Advances xs (update here change xs)
Advances-update here change xs later r m = elim (Bool-cases (here r)) [
  | inl hit ↦ (
    change r,
    subst (λ x. In x (update here change xs)) (rw hit refl) (In-update here change r xs m),
    later r hit,
  )
  | inr miss ↦ (
    r,
    subst (λ x. In x (update here change xs)) (rw miss refl) (In-update here change r xs m),
    Later-refl r,
  )
]

In-append_left {ℓ} : {A : Type ℓ} (a : A) (xs ys : List A) → In a xs → In a (xs ++ ys)
In-append_left a [] ys m = elim m [ ]
In-append_left a (x ∷ xs) ys (inl e) = inl e
In-append_left a (x ∷ xs) ys (inr m) = inr (In-append_left a xs ys m)

pub Advances-append : (xs ys : List RunControl) → Advances xs (xs ++ ys)
Advances-append xs ys r m = (r, In-append_left r xs ys m, Later-refl r)
