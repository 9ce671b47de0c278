-- ===== src/Escalations/Answer.antt =====
-- resolveEscalation, and the answers that a service forwards for a person.
use Prim.Native.String.{len}
use taskboard.Access.{can_mutate}
use taskboard.Access.Principals.{Permission, Principal, Role, can, human_principal}
use taskboard.Board.Queries.{insert_event, load_task}
use taskboard.Board.Settings.{Call, Settings}
use taskboard.Claim.{get_for}
use taskboard.Common.{
  Bool, List, Option, Result, String, [], conflict, false, forbidden, if◌then◌else◌, is_nil, ltb,
  nat_eq, none, not, not_found, ok, some, string_eq, validation, ℕ, ◌&&◌, ◌+◌, ◌==◌, ◌>>=◌, ◌>>◌,
  ◌||◌, ◌∷◌,
}
use taskboard.Controls.{one_row, requeued_owner}
use taskboard.Controls.Complete.{versioned}
use taskboard.Escalations.{insert_message, load_escalation, refuse_if}
use taskboard.Escalations.Request.{valid_person_id}
use taskboard.Model.{
  Board, Escalation, EscalationStatus, Event, Message, MessageKind, ResolveEscalationRequest, Task,
  TaskStatus, Value, control_kind_eq, control_status_eq, escalation_eq, item_eq, message_eq,
  status_eq, visibility_eq,
}
use taskboard.Replay.{idempotency_payload, merge_payload, payload_text, replay_idempotency}
use taskboard.Stamp.{Time}
use taskboard.Text.{contains, trim_space}

abbrev pub answer_message :
    Call → String → Escalation → ResolveEscalationRequest → Principal → Message
answer_message call task_id escalation request principal = record {
  id = call.new_id 0;
  task_id = task_id;
  author = principal.id;
  author_run_id = "";
  target_run_id = "";
  kind = MessageKind.answer;
  body = request.answer;
  reply_to_id = escalation.question_message_id;
  supersedes_id = "";
  requires_ack = false;
  created_at = call.now;
}

-- ResolveTaskEscalation
abbrev pub unanswered : String → Escalation → Bool
unanswered id e = e.id == id && e.status == EscalationStatus.open_status

abbrev pub resolved_row :
    Call → ResolveEscalationRequest → Principal → String → Escalation → Escalation
resolved_row call request principal delegated_by e = record e {
  answer_message_id = call.new_id 0;
  selected_option = request.selected_option;
  status = EscalationStatus.answered;
  resolved_by = principal.id;
  delegated_by = delegated_by;
  resolved_at = some call.now;
}

abbrev pub answered_row : Time → String → String → Task → Task
answered_row now owner editor t = record t {
  status = TaskStatus.queued;
  owner = owner;
  waiting_for = "";
  last_edited_by = editor;
  version = t.version + 1;
  updated_at = now;
}

-- The statement that puts the task of a blocking escalation back into the queue.
unfoldable pub release_task : Time → Board → Task → Escalation → Principal → Result (Board × ℕ)
release_task now b current escalation principal =
    if not escalation.blocking then ok (b, current.version) else do
      tasks ←
          one_row
            (λ (t : Task). versioned current.id current.version t && t.status == TaskStatus.waiting)
            (answered_row now (requeued_owner current) principal.id) b.tasks
      ok (record b { tasks = tasks }, current.version + 1)

resolved_event :
    Call → Task → Escalation → ResolveEscalationRequest → Principal → String → ℕ → Event
resolved_event call current escalation request principal delegated_by version = record {
  id = call.new_id 1;
  task_id = current.id;
  run_id = escalation.run_id;
  kind = "task.escalation_answered";
  actor = principal.id;
  message = "Escalation answered";
  payload =
      merge_payload
        (("escalation_id", Value.text escalation.id)
          ∷ ("answer_message_id", Value.text (call.new_id 0))
          ∷ ("blocking", Value.flag escalation.blocking)
          ∷ (
            "status",
            Value.status_value (if escalation.blocking then TaskStatus.queued else current.status),
          )
          ∷ ("version", Value.number version)
          ∷ (if delegated_by == "" then [] else ("delegated_by", Value.text delegated_by) ∷ []))
        (idempotency_payload "task_escalation_resolve" request.idempotency_key
          request.idempotency_hash);
  created_at = call.now;
}

-- The guards of resolveEscalation on the loaded escalation.
unfoldable pub check_answer :
    String → Task → Escalation → ResolveEscalationRequest → Principal → Result (Unit {0})
check_answer task_id current escalation request principal = do
  refuse_if (not (escalation.task_id == task_id)) not_found
  refuse_if (escalation.status == EscalationStatus.expired) validation
  refuse_if (not (escalation.status == EscalationStatus.open_status)) conflict
  refuse_if (not (is_nil escalation.answerers) && not (contains principal.id escalation.answerers))
      forbidden
  refuse_if
      (not (request.selected_option == "")
        && not (contains request.selected_option escalation.options))
      validation
  refuse_if (escalation.blocking && not (current.status == TaskStatus.waiting)) validation

-- The transaction of resolveEscalation.
unfoldable pub write_answer :
    Call
    → Board
    → String
    → String
    → ResolveEscalationRequest
    → Principal
    → String
    → Result (Board × Escalation)
unfolding resolved_event
write_answer call b task_id escalation_id request principal delegated_by = do
  current ← load_task b task_id
  refuse_if (not (current.version == request.expected_version)) conflict
  escalation ← load_escalation call b escalation_id
  check_answer task_id current escalation request principal
  b1 ← insert_message b (answer_message call task_id escalation request principal)
  rows ←
      one_row (unanswered escalation_id) (resolved_row call request principal delegated_by)
        b1.escalations
  (b2, version) ←
      release_task call.now (record b1 { escalations = rows }) current escalation principal
  let b3 =
      insert_event b2
        (resolved_event call current escalation request principal delegated_by version)
  shown ← load_escalation call b3 escalation_id
  ok (b3, shown)

unfoldable pub resolve_after :
    Call
    → Board
    → String
    → String
    → ResolveEscalationRequest
    → Principal
    → String
    → Option Event
    → Result (Board × Escalation)
resolve_after call b task_id escalation_id request principal delegated_by none =
    write_answer call b task_id escalation_id request principal delegated_by
resolve_after call b task_id escalation_id request principal delegated_by (some event) =
    load_escalation call b (payload_text event.payload "escalation_id") >>= λ e. ok (b, e)

-- The request with its texts trimmed; a selected option is an answer.
abbrev pub read_answer : ResolveEscalationRequest → ResolveEscalationRequest
read_answer request =
    let answer = trim_space request.answer in
    let selected = trim_space request.selected_option in
    record request {
      answer = if answer == "" then selected else answer;
      selected_option = selected;
    }

-- resolveEscalation; `hash` is the digest of the request.
unfoldable pub resolve_escalation :
    Settings
    → (String → String → String → ResolveEscalationRequest → String)
    → Call
    → Board
    → String
    → String
    → ResolveEscalationRequest
    → Principal
    → String
    → Result (Board × Escalation)
unfolding resolve_after
resolve_escalation settings hash call b id escalation request principal delegated_by = do
  refuse_if (principal.agent || not (can principal.identity Permission.task_write)) forbidden
  let task_id = trim_space id
  let escalation_id = trim_space escalation
  let asked = read_answer request
  refuse_if
      (task_id == ""
        || escalation_id == ""
        || ltb asked.expected_version 1
        || asked.answer == ""
        || ltb 4000 (len asked.answer))
      validation
  task ← get_for settings call b task_id principal
  refuse_if (not (can_mutate task.row principal)) forbidden
  let digest = hash task_id escalation_id delegated_by asked
  replay ← replay_idempotency b principal "task_escalation_resolve" asked.idempotency_key digest
  resolve_after call b task_id escalation_id (record asked { idempotency_hash = digest }) principal
      delegated_by replay

-- The services that may forward answers, the role of the people they act for, and the rows of
-- `revoked_principals`.
pub record Delegation : Type 0 where
  pub principals : List String
  pub role : Role
  pub revoked : List String

-- ResolveEscalationOnBehalfFor
unfoldable pub resolve_escalation_on_behalf_for :
    Settings
    → Delegation
    → (String → String → String → ResolveEscalationRequest → String)
    → Call
    → Board
    → String
    → String
    → String
    → ResolveEscalationRequest
    → Principal
    → Result (Board × Escalation)
resolve_escalation_on_behalf_for settings delegation hash call b task_id escalation_id person
      request delegate =
    do
      refuse_if (not delegate.agent || not (contains delegate.id delegation.principals)) forbidden
      let person_id = trim_space person
      refuse_if (not (valid_person_id person_id)) validation
      refuse_if (contains person_id delegation.revoked) forbidden
      escalation ← load_escalation call b (trim_space escalation_id)
      refuse_if (is_nil escalation.answerers) forbidden
      resolve_escalation settings hash call b task_id escalation_id request
          (human_principal person_id delegation.role) delegate.id
