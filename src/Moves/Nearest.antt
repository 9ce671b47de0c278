-- ===== src/Moves/Nearest.antt =====
-- The neighbour that `Move` looks for.
-- In the direction of the move, `t` is at least as near as `u`.
use taskboard.Common.{
  Bool, In, In-head_row, In-order_by, In-order_by_intro, In-select, List, arith, eq_iff, false,
  head_row-none, head_row-order_by, if◌then◌else◌, ltb, ltb→lt, lt→ltb, nat_eq, none, not, order_by,
  refl, select, some, string_eq, true, ◌&&◌, ◌<◌, ◌==◌, ◌≡◌, ◌≢◌, ◌≤◌, ◌⊎◌,
}
use taskboard.Dependencies.Chain.{In-select_intro}
use taskboard.Model.{
  Task, TaskStatus, control_kind_eq, control_status_eq, escalation_eq, item_eq, message_eq,
  status_beq_iff, status_eq, visibility_eq,
}
use taskboard.Moves.{is_terminal_row, may_swap, nearer, neighbour}

abbrev pub IsNear : Bool → Task → Task → Type 0
IsNear true t u = t.sort_order ≤ u.sort_order
IsNear false t u = u.sort_order ≤ t.sort_order

IsNear-trans : (down : Bool) (x y z : Task) → IsNear down x y → IsNear down y z → IsNear down x z
IsNear-trans true x y z p q = omega arith
IsNear-trans false x y z p q = omega arith

nearer-IsNear : (down : Bool) (x y : Task) → nearer down x y ≡ true → IsNear down x y
nearer-IsNear true x y h = ground arith
nearer-IsNear false x y h = ground arith

nearer-after : (down : Bool) (x y : Task) → nearer down x y ≡ false → IsNear down y x
nearer-after true x y h = ground arith
nearer-after false x y h = ground arith

-- The task lies on the side of the move.
abbrev pub IsAhead : Bool → Task → Task → Type 0
IsAhead true current t = current.sort_order < t.sort_order
IsAhead false current t = t.sort_order < current.sort_order

-- Another open task of the section, on the side of the move.
pub record Candidate (down : Bool) (current t : Task) : Type 0 where
  pub section : t.section ≡ current.section
  pub other : t.id ≢ current.id
  pub not_done : t.status ≢ TaskStatus.done
  pub not_cancelled : t.status ≢ TaskStatus.cancelled
  pub ahead : IsAhead down current t

IsAhead-tests :
    (down : Bool) (current t : Task)
    → (if down then ltb current.sort_order t.sort_order else ltb t.sort_order current.sort_order)
      ≡ true
    → IsAhead down current t
IsAhead-tests true current t h = ltb→lt current.sort_order t.sort_order h
IsAhead-tests false current t h = ltb→lt t.sort_order current.sort_order h

IsAhead-tests_intro :
    (down : Bool) (current t : Task)
    → IsAhead down current t
    → (if down then ltb current.sort_order t.sort_order else ltb t.sort_order current.sort_order)
      ≡ true
IsAhead-tests_intro true current t h = lt→ltb current.sort_order t.sort_order h
IsAhead-tests_intro false current t h = lt→ltb t.sort_order current.sort_order h

four_tests :
    (p q r s : Bool) → (p && q && r && s) ≡ true → (p ≡ true) × (q ≡ true) × (r ≡ true) × (s ≡ true)
four_tests p q r s h = ground arith

pub may_swap-Candidate :
    (down : Bool) (current t : Task) → may_swap down current t ≡ true → Candidate down current t
may_swap-Candidate down current t h =
    let side =
      if down then ltb current.sort_order t.sort_order else ltb t.sort_order current.sort_order in
    let (section, apart, open_row, ahead) =
      four_tests (t.section == current.section) (not (t.id == current.id)) (not (is_terminal_row t))
        side h in
    record {
      section = (eq_iff t.section current.section).0 section;
      other = λ e. ground (arith, apart, (eq_iff t.id current.id).1 e);
      not_done = λ e. ground (arith, open_row, (status_beq_iff t.status TaskStatus.done).1 e);
      not_cancelled =
          λ e. ground (arith, open_row, (status_beq_iff t.status TaskStatus.cancelled).1 e);
      ahead = IsAhead-tests down current t ahead;
    }

test-false : (b : Bool) → ¬ (b ≡ true) → b ≡ false
test-false true h = absurd (h refl)
test-false false h = refl

pub may_swap-Candidate_intro :
    (down : Bool) (current t : Task) → Candidate down current t → may_swap down current t ≡ true
may_swap-Candidate_intro down current t c =
    let apart : (t.id == current.id) ≡ false =
      test-false (t.id == current.id) (λ e. c.other ((eq_iff t.id current.id).0 e)) in
    let not_done : (t.status == TaskStatus.done) ≡ false =
      test-false (t.status == TaskStatus.done)
        (λ e. c.not_done ((status_beq_iff t.status TaskStatus.done).0 e)) in
    let not_cancelled : (t.status == TaskStatus.cancelled) ≡ false =
      test-false (t.status == TaskStatus.cancelled)
        (λ e. c.not_cancelled ((status_beq_iff t.status TaskStatus.cancelled).0 e)) in
    rw ((eq_iff t.section current.section).1 c.section, apart, not_done, not_cancelled)
      (IsAhead-tests_intro down current t c.ahead)

pub neighbour-nearest :
    (down : Bool) (tasks : List Task) (current other : Task)
    → neighbour down tasks current ≡ some other
    → In other tasks
      × (may_swap down current other ≡ true)
      × ((t : Task)
          → In t tasks
          → may_swap down current t ≡ true
          → (t ≡ other) ⊎ IsNear down other t)
neighbour-nearest down tasks current other h =
    let rows = select (may_swap down current) tasks in
    let (stored, may) =
      In-select (may_swap down current) other tasks (
        In-order_by (nearer down) other rows (In-head_row other (order_by (nearer down) rows) h)) in
    (
      stored,
      may,
      λ t m k.
          head_row-order_by (nearer down) (IsNear down) (IsNear-trans down) (nearer-IsNear down)
            (nearer-after down) other t rows h
            (In-select_intro (may_swap down current) t tasks m k),
    )

pub neighbour-none :
    (down : Bool) (tasks : List Task) (current t : Task)
    → neighbour down tasks current ≡ none
    → In t tasks
    → ¬ Candidate down current t
neighbour-none down tasks current t h m c =
    let rows = select (may_swap down current) tasks in
    let there = In-order_by_intro (nearer down) t rows (
      In-select_intro (may_swap down current) t tasks m
        (may_swap-Candidate_intro down current t c)) in
    head_row-none t (order_by (nearer down) rows) h there
