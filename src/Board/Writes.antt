-- ===== src/Board/Writes.antt =====
-- What the statements on `tasks` do to the row that a call loaded.
use taskboard.Board.Queries.{found, insert_event, load_task, write_task}
use taskboard.Common.{
  Bool-cases, Option-cases, String, [], ap, arith, count, eq_iff, false, find, find-holds,
  find-update, find-update_other, if◌then◌else◌, inl, inr, nat_eq, ok, refl, some, string_eq, subst,
  sym, true, update, ℕ, ◌&&◌, ◌++◌, ◌+◌, ◌==◌, ◌∙◌, ◌∷◌, ◌≡◌,
}
use taskboard.Model.{Board, Event, Task, item_eq, status_eq, visibility_eq}

pub load_task-found :
    (b : Board) (id : String) (t : Task)
    → load_task b id ≡ ok t
    → find (λ u. u.id == id) b.tasks ≡ some t
unfolding load_task
load_task-found b id t h = elim (Option-cases (find (λ (u : Task). u.id == id) b.tasks)) [
  | inl none_there ↦ absurd (ground arith)
  | inr (u, e) ↦ ground arith
]

pub load_task-intro :
    (b : Board) (id : String) (t : Task)
    → find (λ u. u.id == id) b.tasks ≡ some t
    → load_task b id ≡ ok t
unfolding load_task
load_task-intro b id t h = ap found h

-- The row after a conditional write.
abbrev pub bumped : (Task → Task) → Task → Task
bumped change t = let new : Task = change t in record new { version = t.version + 1 }

-- A write that is not refused changes the row that the call loaded at the expected version, and
-- counts its version up.
pub load_task-write_task :
    (b b' : Board) (id : String) (t : Task) (change : Task → Task)
    → ((u : Task) → (change u).id ≡ u.id)
    → load_task b id ≡ ok t
    → write_task b id t.version change ≡ ok b'
    → load_task b' id ≡ ok (bumped change t)
unfolding write_task
load_task-write_task b b' id t change same loaded written =
    let here = λ (u : Task). u.id == id in
    let matches = λ (u : Task). u.id == id && u.version == t.version in
    let found_row = load_task-found b id t loaded in
    let rows : update matches (bumped change) b.tasks ≡ b'.tasks =
      elim (Bool-cases (count matches b.tasks == 1)) [
        | inl one ↦ ground arith
        | inr other ↦ absurd (ground arith)
      ] in
    let named : (t.id == id) ≡ true = find-holds here b.tasks t found_row in
    let after = find-update matches here (bumped change) b.tasks t (λ u m. rw (same u)) found_row in
    let whole : matches t ≡ true = ground (arith, named) in
    let changed : (if matches t then bumped change t else t) ≡ bumped change t = rw whole in
    load_task-intro b' id (bumped change t)
      (subst (λ ts. find here ts ≡ some (bumped change t)) rows (after ∙ ap some changed))

-- A conditional write leaves every other table as it is.
pub write_task-rest :
    (b b' : Board) (id : String) (expected : ℕ) (change : Task → Task)
    → write_task b id expected change ≡ ok b'
    → (b'.items ≡ b.items)
      × (b'.runs ≡ b.runs)
      × (b'.sessions ≡ b.sessions)
      × (b'.events ≡ b.events)
      × (b'.dependencies ≡ b.dependencies)
      × (b'.requirements ≡ b.requirements)
      × (b'.completion ≡ b.completion)
unfolding write_task
write_task-rest b b' id expected change h =
    elim (Bool-cases (count (λ (u : Task). u.id == id && u.version == expected) b.tasks == 1)) [
      | inl one ↦ (
        ground arith,
        ground arith,
        ground arith,
        ground arith,
        ground arith,
        ground arith,
        ground arith,
      )
      | inr other ↦ absurd (ground arith)
    ]

-- A write moves no row to another identifier.
pub load_task-write_other :
    (b b' : Board) (id other : String) (expected : ℕ) (change : Task → Task)
    → ((u : Task) → (change u).id ≡ u.id)
    → (id == other) ≡ false
    → write_task b id expected change ≡ ok b'
    → load_task b' other ≡ load_task b other
unfolding write_task load_task
load_task-write_other b b' id other expected change same apart h =
    let matches = λ (u : Task). u.id == id && u.version == expected in
    let rows : update matches (bumped change) b.tasks ≡ b'.tasks =
      elim (Bool-cases (count matches b.tasks == 1)) [
        | inl one ↦ ground arith
        | inr more ↦ absurd (ground arith)
      ] in
    ap found (
      ap (find (λ (u : Task). u.id == other)) (sym rows)
      ∙ find-update_other matches (λ (u : Task). u.id == other) (bumped change) b.tasks
          (λ u m.
            (ground (arith, eq_iff u.id id, eq_iff u.id other, eq_iff id other), rw (same u))))

-- A task is loaded from the table of tasks alone.
pub load_task-tasks :
    (b b' : Board) (id : String) → b.tasks ≡ b'.tasks → load_task b id ≡ load_task b' id
unfolding load_task
load_task-tasks b b' id e = ap (λ ts. found (find (λ (u : Task). u.id == id) ts)) e

pub load_task-insert_event :
    (b : Board) (id : String) (e : Event) → load_task (insert_event b e) id ≡ load_task b id
unfolding load_task insert_event
load_task-insert_event b id e = refl

pub events-insert_event : (b : Board) (e : Event) → (insert_event b e).events ≡ b.events ++ e ∷ []
unfolding insert_event
events-insert_event b e = refl

pub runs-insert_event : (b : Board) (e : Event) → (insert_event b e).runs ≡ b.runs
unfolding insert_event
runs-insert_event b e = refl

pub items-insert_event : (b : Board) (e : Event) → (insert_event b e).items ≡ b.items
unfolding insert_event
items-insert_event b e = refl
