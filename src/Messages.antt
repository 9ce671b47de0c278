-- ===== src/Messages.antt =====
-- Messages on tasks and their receipts: internal/service/messages.go with the statements of
-- internal/store/messages.go. `id_before` is the order of the identifiers in the database.
pub mod Post
pub mod Cleared
mod Samples
use taskboard.Access.{can_mutate}
use taskboard.Access.Principals.{Capability, Principal, has_capability}
use taskboard.Board.Queries.{TaskView, found, insert_event}
use taskboard.Board.Settings.{Call, Settings}
use taskboard.Claim.{get_for}
use taskboard.Common.{
  Bool, List, Option, Result, String, [], err, false, find, forbidden, if◌then◌else◌, is_none,
  length, ltb, nat_eq, none, not, ok, order_by, refuse_if, select, some, string_eq, suc, update,
  validation, zero, ℕ, ◌&&◌, ◌++◌, ◌+◌, ◌==◌, ◌>>=◌, ◌>>◌, ◌||◌, ◌∷◌,
}
use taskboard.Lease.{active_task_run, holds_lease}
use taskboard.Model.{
  Board, Event, Message, MessageReceipt, MessageReceiptRequest, Value, control_kind_eq,
  control_status_eq, escalation_eq, item_eq, message_eq, status_eq, visibility_eq,
}
use taskboard.Replay.{idempotency_payload, merge_payload, replay_idempotency}
use taskboard.Stamp.{Time}
use taskboard.Text.{contains, trim_space, unique}

unfoldable pub take {ℓ} : {A : Type ℓ} → ℕ → List A → List A
take zero xs = []
take (suc n) [] = []
take (suc n) (x ∷ xs) = x ∷ take n xs

abbrev pub receipt_of : String → String → MessageReceipt → Bool
receipt_of message_id run_id r = r.message_id == message_id && r.run_id == run_id

-- `receipt.acknowledged_at IS NOT NULL` of a message that asks for an acknowledgement, and
-- `receipt.observed_at IS NOT NULL` of another.
abbrev pub is_received : Bool → Option MessageReceipt → Bool
is_received requires_ack none = false
is_received requires_ack (some r) = not requires_ack || not (is_none r.acknowledged_at)

-- The rows of ListPendingTaskMessages.
abbrev pub is_pending : List MessageReceipt → String → String → String → Message → Bool
is_pending receipts task_id run_id observer m =
    m.task_id == task_id
    && not (m.author == observer)
    && (m.target_run_id == "" || m.target_run_id == run_id)
    && not (is_received m.requires_ack (find (receipt_of m.id run_id) receipts))

-- ListPendingTaskMessages, as the service calls it
abbrev pub list_pending_task_messages :
    (String → String → Bool) → Board → String → String → String → List Message
list_pending_task_messages id_before b task_id run_id observer = take 50 (
    order_by (λ (m n : Message). id_before m.id n.id)
      (select (is_pending b.receipts task_id run_id observer) b.messages))

-- INSERT ... ON CONFLICT DO NOTHING, given the row of the same key
abbrev pub put_receipt :
    List MessageReceipt → MessageReceipt → Option MessageReceipt → List MessageReceipt
put_receipt receipts row none = receipts ++ row ∷ []
put_receipt receipts row (some kept) = receipts

-- COALESCE(acknowledged_at,?)
abbrev pub first_time : Option Time → Time → Option Time
first_time none now = some now
first_time (some earlier) now = some earlier

-- The UPDATE of RecordMessageReceipt; `observed_at` is never null, so it stays.
abbrev pub marked : Time → String → Bool → MessageReceipt → MessageReceipt
marked now observer acknowledged r = record r {
  observer = observer;
  acknowledged_at = if acknowledged then first_time r.acknowledged_at now else r.acknowledged_at;
}

abbrev pub new_receipt : Time → String → String → String → Bool → MessageReceipt
new_receipt now message_id run_id observer acknowledged = record {
  message_id = message_id;
  run_id = run_id;
  observer = observer;
  observed_at = now;
  acknowledged_at = if acknowledged then some now else none;
}

-- RecordMessageReceipt
unfoldable pub record_message_receipt :
    Time → String → String → String → Bool → List MessageReceipt → List MessageReceipt
record_message_receipt now message_id run_id observer acknowledged receipts =
    update (receipt_of message_id run_id) (marked now observer acknowledged) (
      put_receipt receipts (new_receipt now message_id run_id observer acknowledged)
        (find (receipt_of message_id run_id) receipts))

-- LoadTaskMessage; a text that is NULL is read as the empty text
abbrev pub load_task_message : Board → String → Result Message
load_task_message b id = found (find (λ (m : Message). m.id == id) b.messages)

-- A message that the run may receive.
abbrev pub receivable : String → String → String → Message → Bool
receivable task_id run_id observer m =
    m.task_id == task_id
    && not (m.author == observer)
    && (m.target_run_id == "" || m.target_run_id == run_id)

-- `err != nil ||` and the tests on the loaded message
abbrev pub check_receivable : String → String → String → Option Message → Result (Unit {0})
check_receivable task_id run_id observer none = err validation
check_receivable task_id run_id observer (some m) =
    if receivable task_id run_id observer m then ok tt else err validation

-- The loop of RecordMessageReceiptsFor over the identifiers.
unfoldable pub record_all :
    Time
    → List Message
    → String
    → String
    → String
    → List String
    → List String
    → List MessageReceipt
    → Result (List MessageReceipt)
record_all now messages task_id run_id observer acknowledged [] receipts = ok receipts
record_all now messages task_id run_id observer acknowledged (id ∷ ids) receipts =
    check_receivable task_id run_id observer (find (λ (m : Message). m.id == id) messages) >>= λ u.
    record_all now messages task_id run_id observer acknowledged ids
      (record_message_receipt now id run_id observer (contains id acknowledged) receipts)

received_event :
    Call → String → String → List String → List String → MessageReceiptRequest → Principal → Event
received_event call task_id run_id observed acknowledged request principal = record {
  id = call.new_id 0;
  task_id = task_id;
  run_id = run_id;
  kind = "task.messages_received";
  actor = principal.id;
  message = "Task messages received";
  payload =
      merge_payload
        (("observed_message_ids", Value.texts observed)
          ∷ ("acknowledged_message_ids", Value.texts acknowledged)
          ∷ [])
        (idempotency_payload "task_message_receipt" request.idempotency_key
          request.idempotency_hash);
  created_at = call.now;
}

-- `all`, the identifiers of both lists
abbrev pub named_ids : MessageReceiptRequest → List String
named_ids request =
    unique (unique request.observed_message_ids ++ unique request.acknowledged_message_ids)

-- The transaction of RecordMessageReceiptsFor.
unfoldable pub write_receipts :
    Call → Board → String → String → MessageReceiptRequest → Principal → Result Board
unfolding received_event
write_receipts call b task_id run_id request principal = do
  let observed = unique request.observed_message_ids
  let acknowledged = unique request.acknowledged_message_ids
  receipts ←
      record_all call.now b.messages task_id run_id principal.id acknowledged (named_ids request)
        b.receipts
  ok (
      insert_event (record b { receipts = receipts })
        (received_event call task_id run_id observed acknowledged request principal))

unfoldable pub receipts_after :
    (String → String → Bool)
    → Call
    → Board
    → String
    → String
    → MessageReceiptRequest
    → Principal
    → Option Event
    → Result (Board × List Message)
receipts_after id_before call b task_id run_id request principal (some event) =
    ok (b, list_pending_task_messages id_before b task_id run_id principal.id)
receipts_after id_before call b task_id run_id request principal none =
    write_receipts call b task_id run_id request principal >>= λ b'.
    ok (b', list_pending_task_messages id_before b' task_id run_id principal.id)

-- activeOwnedRun
abbrev pub active_owned_run : TaskView → String → String → Bool
active_owned_run task run_id principal = elim (active_task_run task.runs run_id) [
  | none ↦ false
  | some r ↦ r.agent == principal
]

-- RecordMessageReceiptsFor; `hash` is the digest of the request.
pub record_message_receipts_for :
    Settings
    → (String → String → Bool)
    → (String → String → MessageReceiptRequest → String)
    → Call
    → Board
    → String
    → String
    → MessageReceiptRequest
    → Principal
    → Result (Board × List Message)
unfolding receipts_after
record_message_receipts_for settings id_before hash call b task run request principal = do
  refuse_if (not principal.agent) forbidden
  let task_id = trim_space task
  let run_id = trim_space run
  let named =
      length (unique request.observed_message_ids)
      + length (unique request.acknowledged_message_ids)
  refuse_if (named == 0 || ltb 100 named) validation
  seen ← get_for settings call b task_id principal
  refuse_if (not (can_mutate seen.row principal)) forbidden
  refuse_if (not (active_owned_run seen run_id principal.id)) validation
  refuse_if
      (not (has_capability principal.identity Capability.task_message)
        && not (holds_lease seen run_id principal call.now))
      forbidden
  let digest = hash task_id run_id request
  replay ← replay_idempotency b principal "task_message_receipt" request.idempotency_key digest
  receipts_after id_before call b task_id run_id (record request { idempotency_hash = digest })
      principal replay
