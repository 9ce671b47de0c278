-- ===== src/Creation.antt =====
-- Creating tasks: `Start`, `startFor`, `Create`, `insertQueuedTask`, `createFor` and
-- `createDelegated` of internal/service/service.go, `normalizeRequirements` of
-- internal/service/matching.go and the search for similar tasks of internal/service/duplicates.go.
pub mod Requirements
pub mod Duplicates
pub mod Queue
pub mod Start
pub mod Agents
pub mod Row
pub mod Lane
pub mod Started
mod Samples
use Prim.Native.String.{len}
use taskboard.Board.Settings.{Call, Settings, instance_task_type}
use taskboard.Checklist.{bad_label}
use taskboard.Common.{
  Bool, List, Result, String, [], any, err, failed, if◌then◌else◌, length, ltb, nat_eq, none, not,
  ok, refuse_if, string_eq, validation, ◌++◌, ◌==◌, ◌>>=◌, ◌>>◌, ◌||◌, ◌∷◌,
}
use taskboard.Model.{
  Board, NewTask, Payload, Priority, Task, TaskStatus, TaskType, Value, Visibility, control_kind_eq,
  control_status_eq, escalation_eq, is_task_type, is_task_visibility, item_eq, normalized_priority,
  normalized_task_type, normalized_visibility, status_eq, visibility_eq,
}
use taskboard.Text.{normalized_recurrence, normalized_section, trim_space}
use taskboard.Update.Edit.{normalized_defer_until, validate_planning}
use taskboard.Update.Row.{next_sort_order}

-- The normalised fields of a new task.
pub record Planned : Type 0 where
  pub title : String
  pub task_type : TaskType
  pub visibility : Visibility
  pub summary : String
  pub section : String
  pub project : String
  pub repository : String
  pub priority : Priority
  pub due_date : String
  pub defer_until : String
  pub recurrence : String

-- Service.taskType
abbrev read_type : Settings → String → TaskType
read_type settings value = instance_task_type settings (normalized_task_type value)

unfoldable pub planned_of : Settings → NewTask → Planned
planned_of settings r = record {
  title = trim_space r.title;
  task_type = read_type settings r.task_type;
  visibility = normalized_visibility r.visibility Visibility.team;
  summary = trim_space r.summary;
  section = normalized_section r.section;
  project = trim_space r.project;
  repository = trim_space r.repository;
  priority = normalized_priority r.priority;
  due_date = trim_space r.due_date;
  defer_until = normalized_defer_until settings r.defer_until;
  recurrence = normalized_recurrence r.recurrence;
}

-- The checks on the fields, which Start and Create share; `extra` is that one of the other texts of
-- the request is too long.
unfoldable pub check_planned : Settings → Planned → Bool → Result (Unit {0})
unfolding validate_planning
check_planned settings p extra = do
  refuse_if (p.title == "") validation
  refuse_if (not (is_task_type p.task_type)) validation
  refuse_if (not (is_task_visibility p.visibility)) validation
  refuse_if
      (ltb 200 (len p.title)
        || ltb 2000 (len p.summary)
        || ltb 80 (len p.section)
        || ltb 120 (len p.project)
        || ltb 300 (len p.repository)
        || extra)
      validation
  validate_planning settings p.priority p.due_date p.defer_until p.recurrence

-- The loop over the checklist.
trim_labels : List String → Result (List String)
trim_labels [] = ok []
trim_labels (label ∷ labels) =
    let rest = trim_labels labels in
    if bad_label (trim_space label)
    then err validation
    else rest >>= λ trimmed_labels. ok (trim_space label ∷ trimmed_labels)

unfoldable pub check_labels : List String → Result (List String)
unfolding trim_labels
check_labels labels = if ltb 100 (length labels) then err validation else trim_labels labels

-- The inserted row; `status`, `owner` and `schedule_id` differ between the callers.
abbrev pub inserted_row :
    Call → List Task → Planned → String → String → TaskStatus → String → String → Task
inserted_row call tasks p created_by edited_by status owner schedule_id = record {
  id = call.new_id 0;
  title = p.title;
  summary = p.summary;
  task_type = p.task_type;
  visibility = p.visibility;
  created_by = created_by;
  last_edited_by = edited_by;
  section = p.section;
  project = p.project;
  repository = p.repository;
  priority = p.priority;
  due_date = p.due_date;
  defer_until = p.defer_until;
  recurrence = p.recurrence;
  sort_order = next_sort_order tasks p.section;
  reviewed_at = none;
  status = status;
  owner = owner;
  current_note = "";
  blocker = "";
  waiting_for = "";
  version = 1;
  created_at = call.now;
  updated_at = call.now;
  completed_at = none;
  schedule_id = schedule_id;
  duplicate_of = none;
}

-- INSERT INTO tasks
unfoldable pub insert_task : Board → Task → Result Board
insert_task b new =
    if any (λ (t : Task). t.id == new.id) b.tasks
    then err failed
    else ok (record b { tasks = b.tasks ++ new ∷ [] })

-- overriddenDuplicatesPayload
abbrev pub overridden_payload : List String → Payload
overridden_payload [] = []
overridden_payload (id ∷ ids) = ("overridden_duplicates", Value.texts (id ∷ ids)) ∷ []
