-- ===== src/Creation/Start.antt =====
-- Start: a new task that is active at once, with a run of the agent.
use Prim.Native.String.{len}
use taskboard.Board.Queries.{TaskView, get_task, insert_event}
use taskboard.Board.Settings.{Call, Settings}
use taskboard.Checklist.{insert_item, new_item}
use taskboard.Claim.{Claimed}
use taskboard.Common.{
  List, Result, String, [], err, failed, if◌then◌else◌, is_nil, length, ltb, nat_eq, ok, string_eq,
  suc, validation, ℕ, ◌+◌, ◌==◌, ◌>>=◌, ◌>>◌, ◌||◌, ◌∷◌,
}
use taskboard.Creation.{
  Planned, check_labels, check_planned, insert_task, inserted_row, overridden_payload, planned_of,
  refuse_if,
}
use taskboard.Model.{
  Board, Event, Item, ItemStatus, Run, StartRequest, TaskStatus, control_kind_eq, control_status_eq,
  escalation_eq, item_eq, status_eq, visibility_eq,
}
use taskboard.Replay.{idempotency_payload, merge_payload}
use taskboard.Sessions.{NewRun, insert_agent_run}
use taskboard.Stamp.{Time}
use taskboard.Text.{default_actor, trim_space}

abbrev pub first_active : Item → Item
first_active i = if i.position == 0 then record i { status = ItemStatus.active } else i

-- The checklist of a started task: its first item is current.
unfoldable pub insert_started :
    Time → (ℕ → String) → ℕ → String → List Item → ℕ → List String → Result (List Item)
insert_started now new_id from task_id items position [] = ok items
insert_started now new_id from task_id items position (label ∷ labels) = do
  items' ← insert_item items (first_active (new_item (new_id from) task_id label position now))
  insert_started now new_id (suc from) task_id items' (suc position) labels

abbrev pub or_unassigned : String → String → String
or_unassigned agent actor =
    let chosen = if agent == "" then actor else agent in
    if chosen == "" then "unassigned" else chosen

started_event : Call → ℕ → StartRequest → String → String → Event
started_event call draws request title agent = record {
  id = call.new_id (draws + 3);
  task_id = call.new_id 0;
  run_id = call.new_id 1;
  kind = "task.started";
  actor = agent;
  message = title;
  payload =
      merge_payload
        (idempotency_payload "task_start" request.fields.idempotency_key
          request.fields.idempotency_hash)
        (overridden_payload request.fields.overridden_duplicates);
  created_at = call.now;
}

abbrev pub started_run : Settings → Call → String → String → NewRun
started_run settings call agent client = record {
  id = call.new_id 1;
  task_id = call.new_id 0;
  agent = agent;
  client = client;
  lease_expires = call.now + settings.lease_duration;
  started_at = call.now;
}

-- The transaction of Start; the identifiers are drawn for the task, the run, the items, the session
-- and the event.
unfoldable pub write_start :
    Settings → Call → Board → Planned → List String → String → String → StartRequest → Result Board
unfolding started_event
write_start settings call b p labels agent creator request = do
  b1 ← insert_task b (inserted_row call b.tasks p creator creator TaskStatus.active agent "")
  items ← insert_started call.now call.new_id 2 (call.new_id 0) b1.items 0 labels
  b2 ←
      insert_agent_run settings (call.new_id (length labels + 2)) (record b1 { items = items })
        (started_run settings call agent (trim_space request.client))
        (trim_space request.agent_session_key)
  ok (insert_event b2 (started_event call (length labels) request p.title agent))

-- `task.Runs[0]`
abbrev pub newest_run : Board → TaskView → List Run → Result Claimed
newest_run b task [] = err failed
newest_run b task (run ∷ runs) = ok (record { board = b; task = task; run = run })

-- Start
unfoldable pub start_task : Settings → Call → Board → StartRequest → String → Result Claimed
start_task settings call b request actor = do
  let p = planned_of settings request.fields
  let agent = trim_space request.agent
  check_planned settings p (
      ltb 100 (len agent)
      || ltb 100 (len (trim_space request.client))
      || ltb 200 (len (trim_space request.agent_session_key)))
  refuse_if (is_nil request.fields.checklist) validation
  labels ← check_labels request.fields.checklist
  b' ←
      write_start settings call b p labels (or_unassigned agent actor) (default_actor actor "user")
        request
  task ← get_task settings call b' (call.new_id 0)
  newest_run b' task task.runs
