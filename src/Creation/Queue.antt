-- ===== src/Creation/Queue.antt =====
-- Create and insertQueuedTask: a task that waits in the queue, without a run.
use taskboard.Board.Queries.{TaskView, get_task, insert_event}
use taskboard.Board.Settings.{Call, Settings}
use taskboard.Checklist.{insert_labels}
use taskboard.Common.{
  List, Result, String, [], false, if◌then◌else◌, is_nil, length, nat_eq, not, ok, string_eq, suc,
  ◌&&◌, ◌==◌, ◌>>=◌, ◌>>◌, ◌∷◌,
}
use taskboard.Creation.{
  Planned, check_labels, check_planned, insert_task, inserted_row, overridden_payload, planned_of,
}
use taskboard.Creation.Requirements.{insert_requirements, normalize_requirements}
use taskboard.Model.{
  Board, CreateRequest, Event, Payload, Task, TaskStatus, Value, Visibility, control_kind_eq,
  control_status_eq, escalation_eq, item_eq, status_eq, visibility_eq,
}
use taskboard.Replay.{idempotency_payload, merge_payload}
use taskboard.Text.{default_actor}

-- queuedTask: a validated task to insert.
pub record QueuedTask : Type 0 where
  pub planned : Planned
  pub checklist : List String
  pub created_by : String
  pub edited_by : String
  pub schedule_id : String
  pub requirements : List String
  pub requirements_source : String
  -- merged into the payload of the event
  pub payload : Payload

queued_payload : QueuedTask → Payload
queued_payload item =
    merge_payload
      (merge_payload
        (("status", Value.status_value TaskStatus.queued)
          ∷ ("section", Value.text item.planned.section)
          ∷ ("type", Value.type_value item.planned.task_type)
          ∷ ("visibility", Value.visibility_value item.planned.visibility)
          ∷ [])
        (if is_nil item.requirements
          then []
          else ("requirements", Value.texts item.requirements)
            ∷ ("requirements_source", Value.text item.requirements_source)
            ∷ []))
      item.payload

abbrev pub created_event : Call → QueuedTask → Payload → Event
created_event call item payload = record {
  id = call.new_id (suc (length item.checklist));
  task_id = call.new_id 0;
  run_id = "";
  kind = "task.created";
  actor = item.edited_by;
  message = item.planned.title;
  payload = payload;
  created_at = call.now;
}

abbrev pub queued_row : Call → List Task → QueuedTask → Task
queued_row call tasks item =
    inserted_row call tasks item.planned item.created_by item.edited_by TaskStatus.queued ""
      item.schedule_id

-- insertQueuedTask; the new task has the first identifier of the call.
unfoldable pub insert_queued_task : Call → Board → QueuedTask → Result Board
unfolding queued_payload
insert_queued_task call b item = do
  b1 ← insert_task b (queued_row call b.tasks item)
  items ← insert_labels call.now call.new_id 1 (call.new_id 0) b1.items 0 item.checklist
  let b2 =
      insert_requirements call (record b1 { items = items }) (call.new_id 0) item.requirements
        item.edited_by
  ok (insert_event b2 (created_event call item (queued_payload item)))

-- The requirements of the new task, with where they come from.
unfoldable pub choose_requirements : Settings → Visibility → List String → List String × String
choose_requirements settings visibility requirements =
    if is_nil requirements
      && visibility == Visibility.agent
      && not (is_nil settings.default_requirements)
    then (settings.default_requirements, "default")
    else (requirements, "request")

-- The payload of Create.
create_payload : CreateRequest → Payload
create_payload request =
    merge_payload
      (merge_payload
        (if request.delegated_via == ""
          then []
          else ("delegated_via", Value.text request.delegated_via) ∷ [])
        (idempotency_payload "task_create" request.fields.idempotency_key
          request.fields.idempotency_hash))
      (overridden_payload request.fields.overridden_duplicates)

-- The request of Create as a validated task.
unfoldable pub queued_of : Settings → CreateRequest → String → Result QueuedTask
unfolding create_payload
queued_of settings request actor = do
  let p = planned_of settings request.fields
  check_planned settings p false
  labels ← check_labels request.fields.checklist
  items ← normalize_requirements request.requirements
  let (requirements, source) = choose_requirements settings p.visibility items
  ok (record {
    planned = p;
    checklist = labels;
    created_by = default_actor actor "user";
    edited_by = default_actor actor "user";
    schedule_id = "";
    requirements = requirements;
    requirements_source = source;
    payload = create_payload request;
  })

-- Create
unfoldable pub create_task :
    Settings → Call → Board → CreateRequest → String → Result (Board × TaskView)
create_task settings call b request actor = do
  item ← queued_of settings request actor
  b' ← insert_queued_task call b item
  task ← get_task settings call b' (call.new_id 0)
  ok (b', task)
