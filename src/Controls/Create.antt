-- ===== src/Controls/Create.antt =====
-- CreateRunControlFor: a person asks for a control of a run.
use Prim.Native.String.{len}
use taskboard.Access.{can_mutate}
use taskboard.Access.Principals.{Permission, Principal, can}
use taskboard.Board.Queries.{insert_event, load_task}
use taskboard.Board.Settings.{Call, Settings}
use taskboard.Claim.{get_for}
use taskboard.Common.{
  Bool, Option, Result, String, [], conflict, count, err, forbidden, if◌then◌else◌, ltb, nat_eq,
  none, not, ok, refuse_if, some, string_eq, validation, ℕ, ◌&&◌, ◌+◌, ◌==◌, ◌>>=◌, ◌>>◌, ◌||◌, ◌∷◌,
}
use taskboard.Controls.{
  insert_run_control, is_open, is_run_control_kind, load_run_control, run_control_lifetime,
  task_run, valid_control_target,
}
use taskboard.Model.{
  Board, ControlKind, ControlStatus, CreateControlRequest, Event, Run, RunControl, Task, Value,
  control_kind_eq, control_status_eq, escalation_eq, item_eq, status_eq, visibility_eq,
}
use taskboard.Replay.{idempotency_payload, merge_payload, payload_text, replay_idempotency}
use taskboard.Text.{trim_space}

-- An open control of this kind on the run.
abbrev pub same_open : String → String → ControlKind → RunControl → Bool
same_open task_id run_id kind c =
    c.task_id == task_id && c.target_run_id == run_id && c.kind == kind && is_open c.status

abbrev pub requested_control :
    Call → String → Run → CreateControlRequest → Principal → ℕ → RunControl
requested_control call task_id run request principal version = record {
  id = call.new_id 0;
  task_id = task_id;
  target_run_id = run.id;
  target_agent = run.agent;
  kind = request.kind;
  status = ControlStatus.requested;
  requested_by = principal.id;
  reason = request.reason;
  outcome_note = "";
  task_version = version;
  created_at = call.now;
  updated_at = call.now;
  expires_at = call.now + run_control_lifetime;
  acknowledged_at = none;
  decided_at = none;
  completed_at = none;
}

requested_event : Call → RunControl → CreateControlRequest → Principal → Event
requested_event call item request principal = record {
  id = call.new_id 1;
  task_id = item.task_id;
  run_id = item.target_run_id;
  kind = "task.control_requested";
  actor = principal.id;
  message = "Run control requested";
  payload =
      merge_payload
        (("control_id", Value.text item.id)
          ∷ ("control_kind", Value.control_kind_value item.kind)
          ∷ ("control_status", Value.control_status_value item.status)
          ∷ ("target_run_id", Value.text item.target_run_id)
          ∷ ("version", Value.number item.task_version)
          ∷ [])
        (idempotency_payload "run_control_create" request.idempotency_key request.idempotency_hash);
  created_at = call.now;
}

-- The transaction of CreateRunControlFor.
unfoldable pub write_requested :
    Call → Board → String → Run → CreateControlRequest → Principal → Result (Board × RunControl)
unfolding requested_event
write_requested call b task_id run request principal = do
  current ← load_task b task_id
  refuse_if (not (current.version == request.expected_version)) conflict
  refuse_if (ltb 0 (count (same_open task_id request.target_run_id request.kind) b.controls))
      conflict
  let item = requested_control call task_id run request principal current.version
  b1 ← insert_run_control b item
  ok (insert_event b1 (requested_event call item request principal), item)

unfoldable pub create_control_after :
    Call
    → Board
    → String
    → Run
    → CreateControlRequest
    → Principal
    → Option Event
    → Result (Board × RunControl)
create_control_after call b task_id run request principal none =
    write_requested call b task_id run request principal
create_control_after call b task_id run request principal (some event) =
    load_run_control b (payload_text event.payload "control_id") >>= λ item. ok (b, item)

abbrev pub on_target : Task → CreateControlRequest → Option Run → Result Run
on_target task request none = err validation
on_target task request (some run) =
    if valid_control_target task run request.kind then ok run else err validation

-- CreateRunControlFor; `hash` is the digest of the request.
unfoldable pub create_run_control_for :
    Settings
    → (String → CreateControlRequest → String)
    → Call
    → Board
    → String
    → CreateControlRequest
    → Principal
    → Result (Board × RunControl)
unfolding create_control_after
create_run_control_for settings hash call b id request principal = do
  refuse_if (principal.agent || not (can principal.identity Permission.task_write)) forbidden
  let task_id = trim_space id
  let asked = record request {
    target_run_id = trim_space request.target_run_id;
    reason = trim_space request.reason;
  }
  refuse_if
      (task_id == ""
        || asked.target_run_id == ""
        || ltb asked.expected_version 1
        || not (is_run_control_kind asked.kind))
      validation
  refuse_if (ltb 1000 (len asked.reason)) validation
  task ← get_for settings call b task_id principal
  refuse_if (not (can_mutate task.row principal)) forbidden
  run ← on_target task.row asked (task_run task asked.target_run_id)
  let digest = hash task_id asked
  replay ← replay_idempotency b principal "run_control_create" asked.idempotency_key digest
  create_control_after call b task_id run (record asked { idempotency_hash = digest }) principal
      replay
