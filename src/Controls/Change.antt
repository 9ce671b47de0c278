-- ===== src/Controls/Change.antt =====
-- UpdateRunControlFor: the agent that a control is addressed to moves it on.
use Prim.Native.String.{len}
use taskboard.Access.Principals.{Capability, Principal, has_capability}
use taskboard.Board.Queries.{insert_event, load_task}
use taskboard.Board.Settings.{Call}
use taskboard.Common.{
  Option, Result, String, [], conflict, err, forbidden, if◌then◌else◌, ltb, nat_eq, none, not, ok,
  refuse_if, some, string_eq, validation, ℕ, ◌&&◌, ◌+◌, ◌==◌, ◌>>=◌, ◌>>◌, ◌||◌, ◌∷◌,
}
use taskboard.Controls.{load_run_control, one_row, valid_control_transition}
use taskboard.Controls.Complete.{complete_run_control}
use taskboard.Model.{
  Board, ControlStatus, Event, RunControl, Task, UpdateControlRequest, Value, control_kind_eq,
  control_status_eq, escalation_eq, item_eq, status_eq, visibility_eq,
}
use taskboard.Replay.{idempotency_payload, merge_payload, payload_text, replay_idempotency}
use taskboard.Stamp.{Time}
use taskboard.Text.{trim_space}

-- The column that takes the time of a change.
pub data Column : Type 0 where
  acknowledged_column decided_column completed_column : Column

abbrev pub set_column : ControlStatus → Option Column
set_column ControlStatus.acknowledged = some Column.acknowledged_column
set_column ControlStatus.accepted = some Column.decided_column
set_column ControlStatus.rejected = some Column.decided_column
set_column ControlStatus.completed = some Column.completed_column
set_column ControlStatus.expired = some Column.decided_column
set_column _ = none

abbrev pub set_time : Option Column → Time → RunControl → RunControl
set_time none now c = c
set_time (some Column.acknowledged_column) now c = record c { acknowledged_at = some now }
set_time (some Column.decided_column) now c = record c { decided_at = some now }
set_time (some Column.completed_column) now c = record c { completed_at = some now }

abbrev pub changed_control : Time → UpdateControlRequest → RunControl → RunControl
changed_control now request c =
    set_time (set_column request.status) now
      (record c { status = request.status; outcome_note = request.outcome_note; updated_at = now })

updated_message : ControlStatus → String
updated_message ControlStatus.requested = "Run control requested"
updated_message ControlStatus.acknowledged = "Run control acknowledged"
updated_message ControlStatus.accepted = "Run control accepted"
updated_message ControlStatus.rejected = "Run control rejected"
updated_message ControlStatus.completed = "Run control completed"
updated_message ControlStatus.expired = "Run control expired"
updated_message ControlStatus.unknown = "Run control"

control_event : Call → RunControl → UpdateControlRequest → Principal → ℕ → Event
unfolding updated_message
control_event call item request principal version = record {
  id = call.new_id 0;
  task_id = item.task_id;
  run_id = item.target_run_id;
  kind = "task.control_updated";
  actor = principal.id;
  message = updated_message request.status;
  payload =
      merge_payload
        (("control_id", Value.text item.id)
          ∷ ("control_kind", Value.control_kind_value item.kind)
          ∷ ("control_status", Value.control_status_value request.status)
          ∷ ("target_run_id", Value.text item.target_run_id)
          ∷ ("version", Value.number version)
          ∷ [])
        (idempotency_payload "run_control_update" request.idempotency_key request.idempotency_hash);
  created_at = call.now;
}

-- The guards of UpdateRunControlFor on the loaded control.
unfoldable pub check_change :
    Time → RunControl → UpdateControlRequest → Principal → Result (Unit {0})
check_change now item request principal = do
  refuse_if (not (item.target_agent == principal.id)) forbidden
  refuse_if (not (valid_control_transition item.status request.status)) validation
  refuse_if (request.status == ControlStatus.expired && ltb now item.expires_at) validation
  refuse_if (not (request.status == ControlStatus.expired) && not (ltb now item.expires_at))
      conflict

-- The effect of a completion, and the version of the task in the event.
unfoldable pub completion_effect :
    Time → Board → Task → RunControl → UpdateControlRequest → Result (Board × ℕ)
completion_effect now b current item request =
    if not (request.status == ControlStatus.completed)
    then ok (b, current.version)
    else if not (current.version == request.expected_version)
    then err conflict
    else complete_run_control now b current item request.outcome_note >>= λ done_board.
        ok (done_board, current.version + 1)

-- The statement on the control.
unfoldable pub write_control : Time → Board → RunControl → UpdateControlRequest → Result Board
write_control now b item request =
    one_row (λ (c : RunControl). c.id == item.id && c.status == item.status)
      (changed_control now request) b.controls
    >>= λ controls. ok (record b { controls = controls })

-- The transaction of UpdateRunControlFor.
unfoldable pub change_control :
    Call → Board → String → UpdateControlRequest → Principal → Result (Board × RunControl)
unfolding control_event
change_control call b control_id request principal = do
  item ← load_run_control b control_id
  check_change call.now item request principal
  current ← load_task b item.task_id
  (b1, version) ← completion_effect call.now b current item request
  b2 ← write_control call.now b1 item request
  let b3 = insert_event b2 (control_event call item request principal version)
  shown ← load_run_control b3 item.id
  ok (b3, shown)

unfoldable pub change_control_after :
    Call
    → Board
    → String
    → UpdateControlRequest
    → Principal
    → Option Event
    → Result (Board × RunControl)
change_control_after call b control_id request principal none =
    change_control call b control_id request principal
change_control_after call b control_id request principal (some event) =
    load_run_control b (payload_text event.payload "control_id") >>= λ item. ok (b, item)

-- UpdateRunControlFor; `hash` is the digest of the request.
unfoldable pub update_run_control_for :
    (String → UpdateControlRequest → String)
    → Call
    → Board
    → String
    → UpdateControlRequest
    → Principal
    → Result (Board × RunControl)
unfolding change_control_after
update_run_control_for hash call b id request principal = do
  refuse_if (not principal.agent || not (has_capability principal.identity Capability.task_control))
      forbidden
  let control_id = trim_space id
  let asked = record request { outcome_note = trim_space request.outcome_note }
  refuse_if (control_id == "" || ltb 1000 (len asked.outcome_note)) validation
  refuse_if (asked.status == ControlStatus.rejected && asked.outcome_note == "") validation
  refuse_if (asked.status == ControlStatus.completed && ltb asked.expected_version 1) validation
  let digest = hash control_id asked
  replay ← replay_idempotency b principal "run_control_update" asked.idempotency_key digest
  change_control_after call b control_id (record asked { idempotency_hash = digest }) principal
      replay
