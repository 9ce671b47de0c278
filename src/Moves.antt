-- ===== src/Moves.antt =====
-- The order of the tasks of a section: `Move` and `moveFor` of internal/service/service.go.
pub mod Nearest
pub mod Swap
mod Samples
use taskboard.Access.{can_mutate}
use taskboard.Access.Principals.{Permission, Principal, can}
use taskboard.Board.Queries.{get_task, insert_event, load_task}
use taskboard.Board.Settings.{Call, Settings}
use taskboard.Claim.{get_for, stale_hint}
use taskboard.Common.{
  Bool, List, Option, Result, String, [], forbidden, head_row, if◌then◌else◌, ltb, nat_eq, none,
  not, ok, order_by, refuse_if, select, some, string_eq, update, validation, version_conflict, ℕ,
  ◌&&◌, ◌+◌, ◌==◌, ◌>>=◌, ◌>>◌, ◌||◌, ◌∷◌,
}
use taskboard.Controls.{one_row}
use taskboard.Controls.Complete.{versioned}
use taskboard.Model.{
  Board, Event, Payload, Task, TaskStatus, Value, control_kind_eq, control_status_eq, escalation_eq,
  item_eq, status_eq, visibility_eq,
}
use taskboard.Stamp.{Time, stamp_before}
use taskboard.Text.{default_actor, to_lower, trim_space}

pub record MoveRequest : Type 0 where
  pub direction : String
  pub expected_version : ℕ

abbrev pub is_terminal_row : Task → Bool
is_terminal_row t = t.status == TaskStatus.done || t.status == TaskStatus.cancelled

-- The rows that the task may change places with.
abbrev pub may_swap : Bool → Task → Task → Bool
may_swap down current t =
    t.section == current.section
    && not (t.id == current.id)
    && not (is_terminal_row t)
    && (if down then ltb current.sort_order t.sort_order else ltb t.sort_order current.sort_order)

-- ORDER BY sort_order DESC,updated_at DESC, or ASC for both
abbrev pub nearer : Bool → Task → Task → Bool
nearer down t u =
    if down
    then ltb t.sort_order u.sort_order
      || t.sort_order == u.sort_order && stamp_before t.updated_at u.updated_at
    else ltb u.sort_order t.sort_order
      || t.sort_order == u.sort_order && stamp_before u.updated_at t.updated_at

abbrev pub neighbour : Bool → List Task → Task → Option Task
neighbour down tasks current =
    head_row (order_by (nearer down) (select (may_swap down current) tasks))

abbrev pub at_order : ℕ → Time → Task → Task
at_order order now t = record t { sort_order = order; updated_at = now }

abbrev pub moved_row : ℕ → Time → Task → Task
moved_row order now t = record t { sort_order = order; version = t.version + 1; updated_at = now }

move_event : Call → ℕ → String → String → String → Payload → Event
move_event call draws task_id actor direction payload = record {
  id = call.new_id draws;
  task_id = task_id;
  run_id = "";
  kind = "task.moved";
  actor = actor;
  message = direction;
  payload = payload;
  created_at = call.now;
}

abbrev direction_text : Bool → String
direction_text down = if down then "down" else "up"

-- The statements of a move, once the neighbour is known.
unfoldable pub swap_with :
    Settings → Call → Board → Task → Bool → ℕ → String → Option Task → Result (Board × Task)
unfolding move_event
swap_with settings call b current down expected actor none = ok (b, current)
swap_with settings call b current down expected actor (some other) = do
  let placed =
      update (λ (t : Task). t.id == other.id) (at_order current.sort_order call.now) b.tasks
  tasks ← one_row (versioned current.id expected) (moved_row other.sort_order call.now) placed
  let editor = default_actor actor current.owner
  let b1 =
      insert_event (record b { tasks = tasks })
        (move_event call 0 current.id editor (direction_text down)
          (("version", Value.number (expected + 1)) ∷ []))
  let b2 = insert_event b1 (move_event call 1 other.id editor (direction_text (not down)) [])
  task ← get_task settings call b2 current.id
  ok (b2, task.row)

-- Move
unfoldable pub move_task :
    Settings → Call → Board → String → MoveRequest → String → Result (Board × Task)
move_task settings call b id request actor = do
  let task_id = trim_space id
  let direction = to_lower (trim_space request.direction)
  let expected = request.expected_version
  refuse_if
      (task_id == "" || ltb expected 1 || not (direction == "up") && not (direction == "down"))
      validation
  current ← load_task b task_id
  refuse_if (not (current.version == expected))
      (version_conflict current.version expected (stale_hint current.status))
  refuse_if (is_terminal_row current) validation
  swap_with settings call b current (direction == "down") expected actor
      (neighbour (direction == "down") b.tasks current)

-- moveFor
pub move_for : Settings → Call → Board → String → MoveRequest → Principal → Result (Board × Task)
move_for settings call b task_id request principal = do
  refuse_if (principal.agent || not (can principal.identity Permission.task_write)) forbidden
  task ← get_for settings call b task_id principal
  refuse_if (not (can_mutate task.row principal)) forbidden
  move_task settings call b task_id request principal.id
