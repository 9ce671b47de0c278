-- ===== src/Update/Effects.antt =====
-- What an update does beside the row of the task: duplicate links, default requirements, the next
-- occurrence of a recurring task, and the run that sent it.
use Prim.Native.String.{◌++◌ as ◌+s+◌}
use taskboard.Board.Queries.{insert_event, list_items}
use taskboard.Board.Settings.{Call, Settings, instance_task_type}
use taskboard.Checklist.{insert_item, new_item}
use taskboard.Common.{
  Bool, List, Option, Result, String, [], any, count, err, failed, false, if◌then◌else◌, is_none,
  is_some, map, nat_eq, none, not, ok, refuse_if, select, some, string_eq, suc, update, validation,
  ℕ, ◌&&◌, ◌++◌, ◌+◌, ◌==◌, ◌>>=◌, ◌>>◌, ◌||◌, ◌∷◌,
}
use taskboard.Model.{
  Board, Event, Item, Requirement, Run, Task, TaskStatus, UpdateRequest, Value, Visibility, item_eq,
  status_eq, visibility_eq,
}
use taskboard.Stamp.{Time}
use taskboard.Text.{clipped, default_actor, trim_space}
use taskboard.Update.Edit.{Edit}
use taskboard.Update.Row.{next_sort_order}

abbrev own_open : String → String → String → Run → Bool
own_open task_id run_id actor r =
    r.task_id == task_id && not (r.id == run_id) && r.agent == actor && is_none r.ended_at

abbrev pub links_to : String → Task → Bool
links_to task_id t = elim t.duplicate_of [ none ↦ false | some kept ↦ kept == task_id ]

abbrev duplicate_event : Call → ℕ → String → String → String → String → Event
duplicate_event call from task_id kept title editor = record {
  id = call.new_id from;
  task_id = kept;
  run_id = "";
  kind = "task.duplicate_linked";
  actor = editor;
  message = clipped (title +s+ " was marked a duplicate of this task") 1000;
  payload = ("duplicate_task_id", Value.text task_id) ∷ [];
  created_at = call.now;
}

-- The link to the kept task, with the links of the task's own duplicates moved along.
unfoldable pub link_duplicates :
    Call
    → ℕ
    → Board
    → String
    → Task
    → Task
    → UpdateRequest
    → String
    → Option (String × String)
    → Board
link_duplicates call from b task_id current row r actor (some (kept, title)) =
    insert_event
      (record b {
        tasks =
            update (λ t. t.id == task_id || links_to task_id t)
              (λ (t : Task). record t { duplicate_of = some kept }) b.tasks;
        runs =
            update (own_open task_id r.run_id (trim_space actor))
              (λ (s : Run). record s { status = TaskStatus.cancelled; ended_at = some call.now })
              b.runs;
      })
      (duplicate_event call from task_id kept row.title row.last_edited_by)
link_duplicates call from b task_id current row r actor none =
    if is_some r.duplicate_of
      || current.status == TaskStatus.cancelled && not (row.status == TaskStatus.cancelled)
    then record b {
      tasks =
          update (λ t. t.id == task_id) (λ (t : Task). record t { duplicate_of = none }) b.tasks;
    }
    else b

abbrev pub requirement_of : String → String → Time → String → Requirement
requirement_of task_id actor now value = record {
  task_id = task_id;
  requirement = value;
  created_by = actor;
  created_at = now;
}

-- applyDefaultRequirements; with none configured it adds none.
unfoldable pub apply_default_requirements :
    Settings → Board → String → String → Time → Board × List String
apply_default_requirements settings b task_id actor now =
    if any (λ (r : Requirement). r.task_id == task_id) b.requirements then (b, []) else (
      record b {
        requirements =
            b.requirements ++ map (requirement_of task_id actor now) settings.default_requirements;
      },
      settings.default_requirements,
    )

-- The default requirements of a task that moves to the agent lane.
unfoldable pub lane_requirements :
    Settings → Board → String → Task → Task → Edit → Time → Board × List String
lane_requirements settings b task_id current row edit now =
    if is_some edit.visibility
      && row.visibility == Visibility.agent
      && not (current.visibility == Visibility.agent)
    then apply_default_requirements settings b task_id row.last_edited_by now
    else (b, [])

-- The switch of nextRecurringDate.
next_date : Settings → String → String → Time → Result String
next_date settings due_date recurrence now =
    if recurrence == "daily"
    then ok (settings.add_date due_date now 0 1)
    else if recurrence == "weekly"
    then ok (settings.add_date due_date now 0 7)
    else if recurrence == "monthly"
    then ok (settings.add_date due_date now 1 0)
    else err validation

-- nextRecurringDate
pub next_recurring_date : Settings → String → String → Time → Result String
unfolding next_date
next_recurring_date settings due_date recurrence now = do
  refuse_if (not (due_date == "") && not (settings.is_date due_date)) failed
  next_date settings due_date recurrence now

-- The checklist of the next occurrence: the labels of the old one, all open.
unfoldable pub copy_items : Call → ℕ → String → ℕ → List Item → List Item → Result (List Item)
copy_items call from next_id position items [] = ok items
copy_items call from next_id position items (i ∷ is) = do
  items' ←
      insert_item items (record (new_item (call.new_id from) next_id i.label position call.now) {
        required = i.required;
      })
  copy_items call (suc from) next_id (suc position) items' is

-- The row of the next occurrence of a completed task.
next_row : Settings → Call → List Task → Task → String → String → Task
next_row settings call tasks row next_id next_due = record row {
  id = next_id;
  task_type = instance_task_type settings row.task_type;
  due_date = next_due;
  defer_until = "";
  sort_order = next_sort_order tasks row.section;
  reviewed_at = none;
  status = TaskStatus.queued;
  owner = "";
  current_note = "";
  blocker = "";
  waiting_for = "";
  version = 1;
  created_at = call.now;
  updated_at = call.now;
  completed_at = none;
  schedule_id = "";
  duplicate_of = none;
}

recurring_event : Call → ℕ → String → String → String → String → String → Event
recurring_event call from next_id actor title task_id next_due = record {
  id = call.new_id from;
  task_id = next_id;
  run_id = "";
  kind = "task.recurring_created";
  actor = actor;
  message = title;
  payload =
      ("status", Value.status_value TaskStatus.queued)
      ∷ ("source_task_id", Value.text task_id)
      ∷ ("due_date", Value.text next_due)
      ∷ [];
  created_at = call.now;
}

copied_requirements : String → String → Time → List Requirement → List Requirement
copied_requirements task_id next_id now requirements =
    map (λ (r : Requirement). record r { task_id = next_id; created_at = now })
      (select (λ (r : Requirement). r.task_id == task_id) requirements)

-- The requirements of the next occurrence.
unfoldable pub route_next : Settings → Board → String → String → Task → Time → Board
unfolding copied_requirements
route_next settings b task_id next_id row now =
    let copied = record b {
      requirements = b.requirements ++ copied_requirements task_id next_id now b.requirements;
    } in
    if row.visibility == Visibility.agent
    then (apply_default_requirements settings copied next_id row.last_edited_by now).0
    else copied

-- The next occurrence of a recurring task that is done. Its identifiers are drawn
-- from `from` on.
unfoldable pub add_next : Settings → Call → ℕ → Board → String → Task → Task → String → Result Board
unfolding next_row recurring_event route_next
add_next settings call from b task_id current row actor =
    if not (row.status == TaskStatus.done && not (current.status == TaskStatus.done))
      || row.recurrence == ""
    then ok b
    else do
      next_due ← next_recurring_date settings row.due_date row.recurrence call.now
      let next_id = call.new_id from
      let next = next_row settings call b.tasks row next_id next_due
      items ← copy_items call (from + 2) next_id 0 b.items (list_items b task_id)
      let b1 = record b { tasks = b.tasks ++ next ∷ []; items = items }
      ok (
          insert_event (route_next settings b1 task_id next_id row call.now) (
            recurring_event call (from + 1) next_id (default_actor actor current.owner) row.title
              task_id next_due))

abbrev ends_run : TaskStatus → Bool
ends_run status =
    status == TaskStatus.done
    || status == TaskStatus.cancelled
    || status == TaskStatus.waiting
    || status == TaskStatus.blocked

reported_run : Settings → Time → TaskStatus → Run → Run
reported_run settings now status r = record r {
  status = status;
  lease_expires = if ends_run status then now else now + settings.lease_duration;
  last_heartbeat = now;
  ended_at = if ends_run status then some now else none;
}

-- The run that sent the update takes the status of the task.
unfoldable pub report_run : Settings → Call → Board → String → String → TaskStatus → Result Board
unfolding reported_run
report_run settings call b task_id run_id status =
    let here = λ (r : Run). r.id == run_id && r.task_id == task_id in
    if run_id == ""
    then ok b
    else if count here b.runs == 1
    then ok (record b { runs = update here (reported_run settings call.now status) b.runs })
    else err validation
