-- ===== src/Controls.antt =====
-- Run controls: requests of a person to pause, cancel, resume or retry a run of an agent.
-- internal/service/run_controls.go with the statements of internal/store/run_controls.go. A call
-- that is refused leaves the board as it was, since its transaction is rolled back.
pub mod Create
pub mod Complete
pub mod Change
pub mod Expire
pub mod Recover
pub mod Frame
pub mod Diagram
pub mod Steps
pub mod Reach
pub mod Calls
pub mod Single
pub mod Completed
mod Samples
use taskboard.Board.Queries.{TaskView, found}
use taskboard.Common.{
  Bool, List, Option, Result, String, [], any, conflict, count, err, failed, false, find,
  if◌then◌else◌, is_none, nat_eq, none, not, ok, string_eq, update, ◌&&◌, ◌*◌, ◌++◌, ◌==◌, ◌||◌,
  ◌∷◌,
}
use taskboard.Model.{
  Board, ControlKind, ControlStatus, Run, RunControl, Task, TaskStatus, Visibility, control_kind_eq,
  control_status_eq, escalation_eq, item_eq, status_eq, visibility_eq,
}
use taskboard.Stamp.{Time, minute}

-- isRunControlKind
unfoldable pub is_run_control_kind : ControlKind → Bool
is_run_control_kind kind = not (kind == ControlKind.unknown)

-- validControlTransition
unfoldable pub valid_control_transition : (from to : ControlStatus) → Bool
valid_control_transition from to =
    from == ControlStatus.requested
      && (to == ControlStatus.acknowledged || to == ControlStatus.expired)
    || from == ControlStatus.acknowledged
      && (to == ControlStatus.accepted
          || to == ControlStatus.rejected
          || to == ControlStatus.expired)
    || from == ControlStatus.accepted
      && (to == ControlStatus.completed || to == ControlStatus.expired)

-- `status IN (requested, acknowledged, accepted)`
abbrev pub is_open : ControlStatus → Bool
is_open status =
    status == ControlStatus.requested
    || status == ControlStatus.acknowledged
    || status == ControlStatus.accepted

-- validControlTarget
unfoldable pub valid_control_target : Task → Run → ControlKind → Bool
valid_control_target task run ControlKind.pause =
    task.status == TaskStatus.active && run.status == TaskStatus.active && is_none run.ended_at
valid_control_target task run ControlKind.cancel =
    task.status == TaskStatus.active && run.status == TaskStatus.active && is_none run.ended_at
valid_control_target task run ControlKind.resume =
    (task.status == TaskStatus.waiting || task.status == TaskStatus.blocked)
    && not (is_none run.ended_at)
valid_control_target task run ControlKind.retry =
    (task.status == TaskStatus.stale || task.status == TaskStatus.cancelled)
    && not (is_none run.ended_at)
valid_control_target task run ControlKind.unknown = false

-- taskRun
abbrev pub task_run : TaskView → String → Option Run
task_run task run_id = find (λ (r : Run). r.id == run_id) task.runs

-- InsertRunControl, which stores no time of acknowledgement, decision or completion.
unfoldable pub insert_run_control : Board → RunControl → Result Board
insert_run_control b item =
    if any (λ (c : RunControl). c.id == item.id) b.controls
    then err failed
    else ok (record b {
      controls =
          b.controls
          ++ record item { acknowledged_at = none; decided_at = none; completed_at = none } ∷ [];
    })

-- LoadRunControl
unfoldable pub load_run_control : Board → String → Result RunControl
load_run_control b id = found (find (λ (c : RunControl). c.id == id) b.controls)

-- oneRow on an UPDATE: the rows after it, or a conflict unless one row matched.
abbrev pub one_row {ℓ} : {A : Type ℓ} → (A → Bool) → (A → A) → List A → Result (List A)
one_row here change rows =
    if count here rows == 1 then ok (update here change rows) else err conflict

-- runControlLifetime
abbrev pub run_control_lifetime : Time
run_control_lifetime = 1440 * minute

-- The owner of a task that goes back to the queue.
abbrev pub requeued_owner : Task → String
requeued_owner task = if task.visibility == Visibility.agent then "" else task.owner
