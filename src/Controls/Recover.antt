-- ===== src/Controls/Recover.antt =====
-- reviewAndRequeueFor: a person reviews stopped work and puts it back into the queue.
use Prim.Native.String.{len}
use taskboard.Access.Principals.{Permission, Principal, can, may_manage}
use taskboard.Board.Queries.{TaskView, get_task, insert_event, load_task, str_before}
use taskboard.Board.Settings.{Call, Settings}
use taskboard.Claim.{get_for}
use taskboard.Common.{
  Bool, Option, Result, String, [], conflict, count, err, find, forbidden, if◌then◌else◌, is_none,
  ltb, nat_eq, none, not, ok, order_by, refuse_if, select, some, string_eq, validation, ℕ, ◌&&◌,
  ◌+◌, ◌==◌, ◌>>=◌, ◌>>◌, ◌||◌, ◌∷◌,
}
use taskboard.Controls.{
  insert_run_control, is_open, load_run_control, one_row, requeued_owner, run_control_lifetime,
}
use taskboard.Controls.Complete.{versioned}
use taskboard.Controls.Create.{same_open}
use taskboard.Model.{
  Board, ControlKind, ControlStatus, Event, ReviewRequeueRequest, Run, RunControl, Task, TaskStatus,
  Value, control_kind_eq, control_status_eq, escalation_eq, item_eq, status_eq, visibility_eq,
}
use taskboard.Stamp.{Time, stamp_before}
use taskboard.Text.{clipped, has_prefix, trim_space}

-- mayRecover
unfoldable pub may_recover : Task → Principal → Bool
may_recover task principal =
    may_manage principal.role
    || has_prefix task.created_by "agent:"
    || not (task.created_by == "") && task.created_by == principal.id

-- A run of the task whose lease is current.
abbrev pub live_lease : Time → String → Run → Bool
live_lease now task_id r =
    r.task_id == task_id && is_none r.ended_at && not (stamp_before r.lease_expires now)

abbrev pub target_open : String → String → Run → Bool
target_open task_id run_id r = r.id == run_id && r.task_id == task_id && is_none r.ended_at

-- The checks on the target run, with the end of a run that stays open.
unfoldable pub close_target : Time → Board → Task → Run → Result (Board × ControlKind)
close_target now b current run =
    if current.status == TaskStatus.stale
    then refuse_if (not (run.status == TaskStatus.stale) || is_none run.ended_at) conflict
      >> ok (b, ControlKind.retry)
    else if ltb 0 (count (live_lease now current.id) b.runs)
    then err conflict
    else if not (is_none run.ended_at)
    then ok (b, ControlKind.resume)
    else one_row (target_open current.id run.id) (λ (r : Run). record r { ended_at = some now })
        b.runs
      >>= λ runs. ok (record b { runs = runs }, ControlKind.resume)

abbrev pub completed_control : Time → String → RunControl → RunControl
completed_control now note c = record c {
  status = ControlStatus.completed;
  outcome_note = note;
  updated_at = now;
  decided_at = some now;
  completed_at = some now;
}

abbrev pub reviewed_control :
    Call → Task → Run → ControlKind → ReviewRequeueRequest → Principal → RunControl
reviewed_control call current run kind request principal = record {
  id = call.new_id 0;
  task_id = current.id;
  target_run_id = run.id;
  target_agent = run.agent;
  kind = kind;
  status = ControlStatus.completed;
  requested_by = principal.id;
  reason = request.review_note;
  outcome_note = request.review_note;
  task_version = current.version;
  created_at = call.now;
  updated_at = call.now;
  expires_at = call.now + run_control_lifetime;
  acknowledged_at = none;
  decided_at = some call.now;
  completed_at = some call.now;
}

-- The open control that the review completes: ORDER BY id DESC LIMIT 1.
abbrev pub open_control : Board → String → String → ControlKind → Option RunControl
open_control b task_id run_id kind =
    find (λ (c : RunControl). is_open c.status)
      (order_by (λ (c d : RunControl). str_before d.id c.id)
        (select (same_open task_id run_id kind) b.controls))

-- The control of the review, and how many identifiers it draws: an open one is completed, otherwise
-- one is stored.
unfoldable pub settle_control :
    Call
    → Board
    → Task
    → Run
    → ControlKind
    → ReviewRequeueRequest
    → Principal
    → Option RunControl
    → Result (Board × String × ℕ)
settle_control call b current run kind request principal (some c) =
    one_row (λ (d : RunControl). d.id == c.id && is_open d.status)
      (completed_control call.now request.review_note) b.controls
    >>= λ controls. ok (record b { controls = controls }, c.id, 0)
settle_control call b current run kind request principal none =
    insert_run_control b (reviewed_control call current run kind request principal) >>= λ b'.
    ok (b', call.new_id 0, 1)

abbrev pub reviewed_row : Time → String → String → String → Task → Task
reviewed_row now owner note editor t = record t {
  status = TaskStatus.queued;
  owner = owner;
  current_note = clipped note 1000;
  waiting_for = "";
  blocker = "";
  last_edited_by = editor;
  version = t.version + 1;
  updated_at = now;
  completed_at = none;
}

reviewed_event : Call → ℕ → Task → String → ControlKind → ReviewRequeueRequest → Principal → Event
reviewed_event call draws current control_id kind request principal = record {
  id = call.new_id draws;
  task_id = current.id;
  run_id = request.target_run_id;
  kind = "task.reviewed_requeued";
  actor = principal.id;
  message = request.review_note;
  payload =
      ("control_id", Value.text control_id)
      ∷ ("control_kind", Value.control_kind_value kind)
      ∷ ("control_status", Value.control_status_value ControlStatus.completed)
      ∷ ("target_run_id", Value.text request.target_run_id)
      ∷ ("previous_last_edited_by", Value.text current.last_edited_by)
      ∷ ("last_edited_by", Value.text principal.id)
      ∷ ("version", Value.number (current.version + 1))
      ∷ [];
  created_at = call.now;
}

abbrev pub run_or_invalid : Option Run → Result Run
run_or_invalid none = err validation
run_or_invalid (some run) = ok run

-- The guards on the task that the transaction loads.
unfoldable pub check_recover : Task → ReviewRequeueRequest → Principal → Result (Unit {0})
check_recover current request principal = do
  refuse_if (not (current.version == request.expected_version)) conflict
  refuse_if (not (may_recover current principal)) forbidden
  refuse_if
      (not (current.status == TaskStatus.stale)
        && not (current.status == TaskStatus.blocked)
        && not (current.status == TaskStatus.waiting))
      conflict

-- The statement on the task.
unfoldable pub requeue_reviewed :
    Time → Board → Task → ReviewRequeueRequest → Principal → Result Board
requeue_reviewed now b current request principal =
    one_row (λ (t : Task). versioned current.id current.version t && t.status == current.status)
      (reviewed_row now (requeued_owner current) request.review_note principal.id) b.tasks
    >>= λ tasks. ok (record b { tasks = tasks })

-- The transaction of reviewAndRequeueFor: the board after it, and the identifier of the control.
unfoldable pub write_review :
    Call → Board → String → ReviewRequeueRequest → Principal → Result (Board × String)
unfolding reviewed_event
write_review call b task_id request principal = do
  current ← load_task b task_id
  check_recover current request principal
  run ←
      run_or_invalid
        (find (λ (r : Run). r.id == request.target_run_id && r.task_id == task_id) b.runs)
  (b1, kind) ← close_target call.now b current run
  b2 ← requeue_reviewed call.now b1 current request principal
  (b3, control_id, draws) ←
      settle_control call b2 current run kind request principal
        (open_control b2 task_id request.target_run_id kind)
  ok (
    insert_event b3 (reviewed_event call draws current control_id kind request principal),
    control_id,
  )

-- reviewAndRequeueFor
unfoldable pub review_and_requeue_for :
    Settings
    → Call
    → Board
    → String
    → ReviewRequeueRequest
    → Principal
    → Result (Board × TaskView × RunControl)
review_and_requeue_for settings call b id request principal = do
  refuse_if (principal.agent || not (can principal.identity Permission.task_write)) forbidden
  let task_id = trim_space id
  let asked = record request {
    target_run_id = trim_space request.target_run_id;
    review_note = trim_space request.review_note;
  }
  refuse_if
      (task_id == ""
        || asked.target_run_id == ""
        || ltb asked.expected_version 1
        || asked.review_note == "")
      validation
  refuse_if (ltb 1000 (len asked.review_note)) validation
  seen ← get_for settings call b task_id principal
  (b', control_id) ← write_review call b task_id asked principal
  task ← get_task settings call b' task_id
  control ← load_run_control b' control_id
  ok (b', task, control)
