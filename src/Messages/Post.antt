-- ===== src/Messages/Post.antt =====
-- AddMessageFor and ListMessagesFor.
use Prim.Native.String.{len}
-- The ids of ListTaskMessages before a place, the latest first; the receipts are left out.
use taskboard.Access.{can_mutate, producer_may_read}
use taskboard.Access.Principals.{Capability, Permission, Principal, can, has_capability}
use taskboard.Board.Queries.{TaskView, insert_event}
use taskboard.Board.Settings.{Call, Settings}
use taskboard.Claim.{get_for}
use taskboard.Common.{
  Bool, List, Option, Result, String, [], any, conflict, err, forbidden, if◌then◌else◌, is_none,
  ltb, nat_eq, none, not, ok, order_by, select, some, string_eq, validation, ℕ, ◌&&◌, ◌++◌, ◌==◌,
  ◌>>=◌, ◌>>◌, ◌||◌, ◌∷◌,
}
use taskboard.Escalations.{insert_message}
use taskboard.Lease.{active_task_run, holds_lease}
use taskboard.Messages.{active_owned_run, load_task_message, refuse_if, take}
use taskboard.Model.{
  AddMessageRequest, Board, Event, Message, MessageKind, Value, control_kind_eq, control_status_eq,
  escalation_eq, item_eq, message_eq, status_eq, visibility_eq,
}
use taskboard.Replay.{idempotency_payload, merge_payload, payload_text, replay_idempotency}
use taskboard.Text.{trim_space}

abbrev pub list_task_messages :
    (String → String → Bool) → Board → String → String → ℕ → List Message
list_task_messages id_before b task_id before limit =
    take (if limit == 0 || ltb 200 limit then 100 else limit) (
      order_by (λ (m n : Message). id_before n.id m.id)
        (select (λ (m : Message). m.task_id == task_id && (before == "" || id_before m.id before))
          b.messages))

-- ListMessagesFor, of a limit that is not negative
pub list_messages_for :
    Settings
    → (String → String → Bool)
    → Call
    → Board
    → String
    → String
    → ℕ
    → Principal
    → Result (List Message)
list_messages_for settings id_before call b task_id before limit principal = do
  task ← get_for settings call b task_id principal
  refuse_if
      (principal.agent
        && not (producer_may_read task.row principal)
        && (not (has_capability principal.identity Capability.task_message)
            || not (can_mutate task.row principal)))
      forbidden
  ok (list_task_messages id_before b task.row.id (trim_space before) limit)

-- IsMessageKind
abbrev pub is_message_kind : MessageKind → Bool
is_message_kind kind = not (kind == MessageKind.unknown)

-- The request with its texts trimmed; an instruction asks for an acknowledgement.
abbrev pub read_message : AddMessageRequest → AddMessageRequest
read_message r = record r {
  author_run_id = trim_space r.author_run_id;
  target_run_id = trim_space r.target_run_id;
  reply_to_id = trim_space r.reply_to_id;
  supersedes_id = trim_space r.supersedes_id;
  body = trim_space r.body;
  requires_ack = r.kind == MessageKind.instruction || r.requires_ack;
}

-- The checks before the task is loaded.
unfoldable pub check_message : AddMessageRequest → AddMessageRequest → Principal → Result (Unit {0})
check_message asked r principal = do
  refuse_if (not (is_message_kind r.kind)) validation
  refuse_if (r.body == "" || ltb 4000 (len r.body)) validation
  refuse_if
      (if principal.agent
        then r.author_run_id == ""
          || not (r.target_run_id == "")
          || asked.requires_ack
          || r.kind == MessageKind.instruction
        else not (r.author_run_id == ""))
      validation

abbrev check_agent_author : Call → TaskView → AddMessageRequest → Principal → Result (Unit {0})
check_agent_author call task r principal = do
  refuse_if (not (can_mutate task.row principal)) forbidden
  refuse_if (not (active_owned_run task r.author_run_id principal.id)) validation
  refuse_if
      (not (has_capability principal.identity Capability.task_message)
        && not (holds_lease task r.author_run_id principal call.now))
      forbidden

-- The checks on the task.
unfoldable pub check_author : Call → TaskView → AddMessageRequest → Principal → Result (Unit {0})
check_author call task r principal =
    let targeted = not (r.target_run_id == "") in
    let missing = is_none (active_task_run task.runs r.target_run_id) in
    if principal.agent
    then check_agent_author call task r principal
    else refuse_if (targeted && missing) validation

-- A message that is referred to, if one is: it is of the task.
abbrev pub linked : Board → String → String → Bool
linked b task_id id =
    id == "" || any (λ (m : Message). m.id == id && m.task_id == task_id) b.messages

-- A message that is superseded, if one is: it is of the same author.
abbrev pub own_message : Board → String → String → String → Bool
own_message b task_id author id =
    id == ""
    || any (λ (m : Message). m.id == id && m.task_id == task_id && m.author == author) b.messages

-- InsertTaskMessage under the unique index on `supersedes_id`, and the error that AddMessageFor
-- makes of a conflict.
unfoldable pub insert_superseding : Board → Message → Result Board
insert_superseding b m =
    if m.supersedes_id == ""
    then insert_message b m
    else if any (λ (n : Message). n.id == m.id || n.supersedes_id == m.supersedes_id) b.messages
    then err conflict
    else ok (record b { messages = b.messages ++ m ∷ [] })

abbrev pub added_message : Call → String → AddMessageRequest → Principal → Message
added_message call task_id r principal = record {
  id = call.new_id 0;
  task_id = task_id;
  author = principal.id;
  author_run_id = r.author_run_id;
  target_run_id = r.target_run_id;
  kind = r.kind;
  body = r.body;
  reply_to_id = r.reply_to_id;
  supersedes_id = r.supersedes_id;
  requires_ack = r.requires_ack;
  created_at = call.now;
}

added_event : Call → Message → AddMessageRequest → Principal → Event
added_event call m r principal = record {
  id = call.new_id 1;
  task_id = m.task_id;
  run_id = r.author_run_id;
  kind = "task.message_added";
  actor = principal.id;
  message = "Task message added";
  payload =
      merge_payload
        (("message_id", Value.text m.id)
          ∷ ("kind", Value.message_kind_value m.kind)
          ∷ ("target_run_id", Value.text m.target_run_id)
          ∷ ("requires_ack", Value.flag m.requires_ack)
          ∷ [])
        (idempotency_payload "task_message_add" r.idempotency_key r.idempotency_hash);
  created_at = call.now;
}

-- The transaction of AddMessageFor.
unfoldable pub write_message :
    Call → Board → String → AddMessageRequest → Principal → Result (Board × Message)
unfolding added_event
write_message call b task_id r principal = do
  refuse_if
      (not (linked b task_id r.reply_to_id)
        || not (own_message b task_id principal.id r.supersedes_id))
      validation
  let message = added_message call task_id r principal
  b1 ← insert_superseding b message
  ok (insert_event b1 (added_event call message r principal), message)

unfoldable pub message_after :
    Call → Board → String → AddMessageRequest → Principal → Option Event → Result (Board × Message)
message_after call b task_id r principal none = write_message call b task_id r principal
message_after call b task_id r principal (some event) =
    load_task_message b (payload_text event.payload "message_id") >>= λ m. ok (b, m)

-- AddMessageFor; `hash` is the digest of the request.
pub add_message_for :
    Settings
    → (String → AddMessageRequest → String)
    → Call
    → Board
    → String
    → AddMessageRequest
    → Principal
    → Result (Board × Message)
unfolding message_after check_author
add_message_for settings hash call b task_id asked principal = do
  refuse_if (not principal.agent && not (can principal.identity Permission.task_message)) forbidden
  let r = read_message asked
  check_message asked r principal
  task ← get_for settings call b task_id principal
  check_author call task r principal
  let digest = hash task.row.id r
  replay ← replay_idempotency b principal "task_message_add" r.idempotency_key digest
  message_after call b task.row.id (record r { idempotency_hash = digest }) principal replay
