-- ===== src/Update/Handler.antt =====
-- Update: its statements in order.
use taskboard.Board.Queries.{TaskView, get_task, insert_event, load_task, write_task}
use taskboard.Board.Settings.{Call, Settings}
use taskboard.Common.{
  List, Option, Result, String, [], ltb, nat_eq, none, ok, or_else, refuse_if, some, string_eq,
  validation, ℕ, ◌++◌, ◌+◌, ◌==◌, ◌>>=◌, ◌>>◌, ◌||◌, ◌∷◌,
}
use taskboard.Model.{
  Board, Event, Payload, Task, UpdateRequest, Value, item_eq, status_eq, visibility_eq,
}
use taskboard.Replay.{idempotency_payload, merge_payload}
use taskboard.Text.{default_actor, trim_space}
use taskboard.Update.Edit.{Edit, edit_of}
use taskboard.Update.Effects.{add_next, lane_requirements, link_duplicates, report_run}
use taskboard.Update.Guards.{check_done, check_edit, kept_task}
use taskboard.Update.Row.{drawn, edit_items, edited_row, edited_status, started_items}

abbrev if_set {ℓ} : {A : Type ℓ} → Option A → Payload → Payload
if_set none p = []
if_set (some a) p = p

abbrev if_any : List String → Payload → Payload
if_any [] p = []
if_any (x ∷ xs) p = p

abbrev kept_id : Option (String × String) → Option String → String
kept_id none target = or_else target ""
kept_id (some (id, title)) target = id

-- The payload of the event; its keys are distinct.
update_payload : Edit → Task → Option (String × String) → List String → List String → Payload
update_payload edit row kept completed defaulted =
    let r = edit.request in
    merge_payload
      (("status", Value.status_value row.status)
          ∷ ("version", Value.number (r.expected_version + 1))
          ∷ if_set r.owner (("owner", Value.text row.owner) ∷ [])
        ++ if_set r.section (("section", Value.text row.section) ∷ [])
        ++ if_set edit.task_type (("type", Value.type_value row.task_type) ∷ [])
        ++ if_set edit.visibility (("visibility", Value.visibility_value row.visibility) ∷ [])
        ++ if_any defaulted (
            ("requirements", Value.texts defaulted)
            ∷ ("requirements_source", Value.text "default")
            ∷ [])
        ++ if_any completed (("completed_item_ids", Value.texts completed) ∷ [])
        ++ if_set r.duplicate_of (("duplicate_of", Value.text (kept_id kept r.duplicate_of)) ∷ []))
      (idempotency_payload "task_update" r.idempotency_key r.idempotency_hash)

update_event :
    Call
    → ℕ
    → String
    → Edit
    → Task
    → Task
    → Option (String × String)
    → String
    → List String
    → List String
    → Event
unfolding update_payload
update_event call from task_id edit current row kept actor completed defaulted = record {
  id = call.new_id from;
  task_id = task_id;
  run_id = edit.request.run_id;
  kind = "task.updated";
  actor = default_actor actor current.owner;
  message = row.current_note;
  payload = update_payload edit row kept completed defaulted;
  created_at = call.now;
}

-- What Update writes beside the row and the checklist, once the row is written.
unfoldable pub follow_up :
    Settings
    → Call
    → Board
    → String
    → Task
    → Task
    → Edit
    → Option (String × String)
    → String
    → List String
    → Result Board
unfolding update_event
follow_up settings call b task_id current row edit kept actor completed = do
  let from = drawn edit.request
  let linked = link_duplicates call from b task_id current row edit.request actor kept
  let (routed, defaulted) = lane_requirements settings linked task_id current row edit call.now
  next ← add_next settings call (from + 2) routed task_id current row actor
  reported ← report_run settings call next task_id edit.request.run_id row.status
  ok (
      insert_event reported
        (update_event call (from + 1) task_id edit current row kept actor completed defaulted))

-- The writes of Update on the task that its checks let pass.
unfoldable pub write_update : Settings → Call → Board → String → Task → Edit → String → Result Board
write_update settings call b task_id current edit actor = do
  let r = edit.request
  (items, completed) ← edit_items call task_id r b.items
  kept ← kept_task b task_id r actor r.duplicate_of
  let change = edited_row call.now b.tasks current edit kept actor
  check_done (record b { items = items }) task_id (edited_status current r)
  b1 ←
      write_task (record b { items = started_items call task_id current r items }) task_id
        r.expected_version change
  follow_up settings call b1 task_id current (change current) edit kept actor completed

-- Update
unfoldable pub update_task :
    Settings → Call → Board → String → UpdateRequest → String → Result (Board × TaskView)
update_task settings call b id request actor = do
  let task_id = trim_space id
  refuse_if (task_id == "" || ltb request.expected_version 1) validation
  edit ← edit_of settings request
  current ← load_task b task_id
  check_edit b task_id current edit actor
  b' ← write_update settings call b task_id current edit actor
  task ← get_task settings call b' task_id
  ok (b', task)
