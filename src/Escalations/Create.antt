-- ===== src/Escalations/Create.antt =====
-- CreateEscalationFor: an agent asks a question about the task that its run holds.
use taskboard.Access.{can_mutate}
use taskboard.Access.Principals.{Capability, Principal, has_capability}
use taskboard.Board.Queries.{TaskView, insert_event, load_task}
use taskboard.Board.Settings.{Call, Settings}
use taskboard.Claim.{get_for}
use taskboard.Common.{
  Bool, Option, Result, String, [], conflict, count, false, forbidden, if◌then◌else◌, ltb, nat_eq,
  none, not, ok, some, string_eq, validation, ℕ, ◌&&◌, ◌*◌, ◌+◌, ◌==◌, ◌>>=◌, ◌>>◌, ◌||◌, ◌∷◌,
}
use taskboard.Controls.{one_row}
use taskboard.Controls.Complete.{stoppable, stopped, versioned}
use taskboard.Escalations.{insert_escalation, insert_message, load_escalation, refuse_if}
use taskboard.Escalations.Request.{check_escalation}
use taskboard.Lease.{active_task_run, holds_lease}
use taskboard.Model.{
  Board, CreateEscalationRequest, Escalation, EscalationStatus, Event, Message, MessageKind, Run,
  Task, TaskStatus, Value, control_kind_eq, control_status_eq, escalation_eq, item_eq, message_eq,
  status_eq, visibility_eq,
}
use taskboard.Replay.{idempotency_payload, merge_payload, payload_text, replay_idempotency}
use taskboard.Stamp.{Time, second}
use taskboard.Text.{clipped, trim_space}

abbrev pub question_message : Call → String → CreateEscalationRequest → Principal → Message
question_message call task_id request principal = record {
  id = call.new_id 0;
  task_id = task_id;
  author = principal.id;
  author_run_id = request.run_id;
  target_run_id = "";
  kind = MessageKind.question;
  body = request.question;
  reply_to_id = "";
  supersedes_id = "";
  requires_ack = false;
  created_at = call.now;
}

abbrev pub asked_escalation : Call → String → CreateEscalationRequest → Escalation
asked_escalation call task_id request = record {
  id = call.new_id 1;
  task_id = task_id;
  run_id = request.run_id;
  question_message_id = call.new_id 0;
  answer_message_id = "";
  blocking = request.blocking;
  options = request.options;
  recommendation = request.recommendation;
  selected_option = "";
  status = EscalationStatus.open_status;
  answerers = request.answerers;
  expires_at =
      if ltb 0 request.expires_in then some (call.now + request.expires_in * second) else none;
  resolved_by = "";
  delegated_by = "";
  created_at = call.now;
  resolved_at = none;
}

escalated_event : Call → String → CreateEscalationRequest → Principal → ℕ → Event
escalated_event call task_id request principal version = record {
  id = call.new_id 2;
  task_id = task_id;
  run_id = request.run_id;
  kind = "task.escalated";
  actor = principal.id;
  message = "Agent requested a decision";
  payload =
      merge_payload
        (("escalation_id", Value.text (call.new_id 1))
          ∷ ("question_message_id", Value.text (call.new_id 0))
          ∷ ("blocking", Value.flag request.blocking)
          ∷ (
            "status",
            Value.status_value (if request.blocking then TaskStatus.waiting else TaskStatus.active),
          )
          ∷ ("version", Value.number version)
          ∷ [])
        (idempotency_payload "task_escalation_create" request.idempotency_key
          request.idempotency_hash);
  created_at = call.now;
}

-- The run that a blocking escalation ends.
abbrev pub asking_run : String → String → Run → Bool
asking_run task_id run_id r = stoppable run_id r && r.task_id == task_id

abbrev pub waiting_row : Time → String → Task → Task
waiting_row now question t = record t {
  status = TaskStatus.waiting;
  waiting_for = clipped question 1000;
  version = t.version + 1;
  updated_at = now;
}

-- The statements of a blocking escalation, and the version of the task after them.
unfoldable pub block_task : Time → Board → Task → CreateEscalationRequest → Result (Board × ℕ)
block_task now b current request = if not request.blocking then ok (b, current.version) else do
  runs ← one_row (asking_run current.id request.run_id) (stopped TaskStatus.waiting now) b.runs
  tasks ←
      one_row
        (λ (t : Task). versioned current.id current.version t && t.status == TaskStatus.active)
        (waiting_row now request.question) b.tasks
  ok (record b { runs = runs; tasks = tasks }, current.version + 1)

-- The transaction of CreateEscalationFor.
unfoldable pub write_question :
    Call → Board → String → CreateEscalationRequest → Principal → Result (Board × Escalation)
unfolding escalated_event block_task
write_question call b task_id request principal = do
  current ← load_task b task_id
  refuse_if
      (not (current.version == request.expected_version)
        || not (current.status == TaskStatus.active))
      conflict
  refuse_if
      (not (
        count (λ (r : Run). asking_run task_id request.run_id r && r.agent == principal.id) b.runs
        == 1))
      validation
  b1 ← insert_message b (question_message call task_id request principal)
  b2 ← insert_escalation b1 (asked_escalation call task_id request)
  (b3, version) ← block_task call.now b2 current request
  ok (
    insert_event b3 (escalated_event call task_id request principal version),
    asked_escalation call task_id request,
  )

unfoldable pub create_escalation_after :
    Call
    → Board
    → String
    → CreateEscalationRequest
    → Principal
    → Option Event
    → Result (Board × Escalation)
create_escalation_after call b task_id request principal none =
    write_question call b task_id request principal
create_escalation_after call b task_id request principal (some event) =
    load_escalation call b (payload_text event.payload "escalation_id") >>= λ e. ok (b, e)

-- activeOwnedRun
owned_run : TaskView → String → Principal → Bool
unfolding active_task_run
owned_run task run_id principal = elim (active_task_run task.runs run_id) [
  | none ↦ false
  | some run ↦ run.agent == principal.id
]

-- The checks of CreateEscalationFor on the task that the agent sees.
unfoldable pub check_asker :
    Call → TaskView → CreateEscalationRequest → Principal → Result (Unit {0})
unfolding owned_run
check_asker call task request principal = do
  refuse_if (not (can_mutate task.row principal)) forbidden
  refuse_if (not (owned_run task request.run_id principal)) validation
  refuse_if
      ((not (has_capability principal.identity Capability.task_escalate)
          || not (has_capability principal.identity Capability.task_message))
        && not (holds_lease task request.run_id principal call.now))
      forbidden

-- CreateEscalationFor; `fold` is strings.ToLower, `hash` the digest of the request.
unfoldable pub create_escalation_for :
    Settings
    → (String → String)
    → (String → CreateEscalationRequest → String)
    → Call
    → Board
    → String
    → CreateEscalationRequest
    → Principal
    → Result (Board × Escalation)
unfolding create_escalation_after
create_escalation_for settings fold hash call b id request principal = do
  refuse_if (not principal.agent) forbidden
  let task_id = trim_space id
  asked ← check_escalation fold task_id request
  task ← get_for settings call b task_id principal
  check_asker call task asked principal
  let digest = hash task_id asked
  replay ← replay_idempotency b principal "task_escalation_create" asked.idempotency_key digest
  create_escalation_after call b task_id (record asked { idempotency_hash = digest }) principal
      replay
