-- ===== src/Controls/Complete.antt =====
-- completeRunControl: what an agent's completion of a control does to the run and the task.
use taskboard.Common.{
  Bool, Option, Result, String, conflict, err, failed, find, if◌then◌else◌, is_none, nat_eq, none,
  not, ok, refuse_if, some, string_eq, validation, ℕ, ◌&&◌, ◌+◌, ◌==◌, ◌>>=◌, ◌>>◌, ◌||◌,
}
use taskboard.Controls.{one_row, requeued_owner}
use taskboard.Model.{
  Board, ControlKind, Run, RunControl, Task, TaskStatus, control_kind_eq, control_status_eq,
  escalation_eq, item_eq, status_eq, visibility_eq,
}
use taskboard.Stamp.{Time}
use taskboard.Text.{clipped}

-- The run that the statement of a pause or a cancellation ends.
abbrev pub stoppable : String → Run → Bool
stoppable run_id r = r.id == run_id && r.status == TaskStatus.active && is_none r.ended_at

abbrev pub stopped : TaskStatus → Time → Run → Run
stopped status now r = record r {
  status = status;
  lease_expires = now;
  last_heartbeat = now;
  ended_at = some now;
}

abbrev pub versioned : String → ℕ → Task → Bool
versioned id version t = t.id == id && t.version == version

abbrev pub paused_row : Time → String → Task → Task
paused_row now note t = record t {
  status = TaskStatus.waiting;
  waiting_for = if note == "" then "Paused by request" else clipped note 1000;
  version = t.version + 1;
  updated_at = now;
}

abbrev pub cancelled_row : Time → String → Task → Task
cancelled_row now note t = record t {
  status = TaskStatus.cancelled;
  current_note = clipped note 1000;
  waiting_for = "";
  blocker = "";
  version = t.version + 1;
  updated_at = now;
  completed_at = some now;
}

abbrev pub requeued_row : Time → String → String → Task → Task
requeued_row now owner note t = record t {
  status = TaskStatus.queued;
  owner = owner;
  current_note = clipped note 1000;
  waiting_for = "";
  blocker = "";
  version = t.version + 1;
  updated_at = now;
  completed_at = none;
}

-- The statements of a pause or a cancellation.
unfoldable pub stop_run :
    Board → Task → RunControl → (Run → Run) → (Task → Task) → Run → Result Board
stop_run b task item stop change run = do
  refuse_if
      (not (task.status == TaskStatus.active)
        || not (run.status == TaskStatus.active)
        || not (is_none run.ended_at))
      conflict
  runs ← one_row (stoppable item.target_run_id) stop b.runs
  tasks ←
      one_row (λ (t : Task). versioned task.id task.version t && t.status == TaskStatus.active)
        change b.tasks
  ok (record b { runs = runs; tasks = tasks })

-- The statement of a resumption or a retry.
unfoldable pub requeue_task : Board → Task → (Task → Task) → Result Board
requeue_task b task change = one_row (versioned task.id task.version) change b.tasks >>= λ tasks.
    ok (record b { tasks = tasks })

unfoldable pub complete_on :
    Time → Board → Task → RunControl → String → ControlKind → Run → Result Board
complete_on now b task item note ControlKind.pause run =
    stop_run b task item (stopped TaskStatus.waiting now) (paused_row now note) run
complete_on now b task item note ControlKind.cancel run =
    stop_run b task item (stopped TaskStatus.cancelled now) (cancelled_row now note) run
complete_on now b task item note ControlKind.resume run =
    refuse_if
      (not (task.status == TaskStatus.waiting) && not (task.status == TaskStatus.blocked)
        || is_none run.ended_at)
      conflict
    >> requeue_task b task (requeued_row now (requeued_owner task) note)
complete_on now b task item note ControlKind.retry run =
    refuse_if
      (not (task.status == TaskStatus.stale) && not (task.status == TaskStatus.cancelled)
        || is_none run.ended_at)
      conflict
    >> requeue_task b task (requeued_row now (requeued_owner task) note)
complete_on now b task item note ControlKind.unknown run = err validation

abbrev pub target_row : RunControl → Run → Bool
target_row item r =
    r.id == item.target_run_id && r.task_id == item.task_id && r.agent == item.target_agent

abbrev pub or_failed {ℓ} : {A : Type ℓ} → Option A → Result A
or_failed none = err failed
or_failed (some a) = ok a

-- completeRunControl; a run that is missing is an error of the database.
unfoldable pub complete_run_control : Time → Board → Task → RunControl → String → Result Board
complete_run_control now b task item note = or_failed (find (target_row item) b.runs) >>= λ run.
    complete_on now b task item note item.kind run
