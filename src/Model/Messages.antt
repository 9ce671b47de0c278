-- ===== src/Model/Messages.antt =====
-- Messages and escalations of internal/model/model.go: the tables `task_messages`,
-- `message_receipts` and `task_escalations`, and the requests on them. The status
-- `expired` is derived when a row is read, and never stored.
use taskboard.Common.{
  Bool, Eq, List, Option, String, arith, nat_eq, string_eq, true, ℕ, ◌==◌, ◌↔◌, ◌≡◌,
}
use taskboard.Stamp.{Time}

pub data MessageKind : Type 0 where
  note instruction question answer unknown : MessageKind

pub data EscalationStatus : Type 0 where
  open_status answered expired : EscalationStatus

abbrev pub message_code : MessageKind → ℕ
message_code MessageKind.note = 0
message_code MessageKind.instruction = 1
message_code MessageKind.question = 2
message_code MessageKind.answer = 3
message_code MessageKind.unknown = 4

abbrev message_beq : MessageKind → MessageKind → Bool
message_beq a b = message_code a == message_code b

pub message_beq_iff : (a b : MessageKind) → (message_beq a b ≡ true) ↔ (a ≡ b)
message_beq_iff a b = ground arith

instance abbrev pub message_eq : Eq MessageKind
message_eq = record { same = message_beq; same_iff = message_beq_iff }

abbrev escalation_code : EscalationStatus → ℕ
escalation_code EscalationStatus.open_status = 0
escalation_code EscalationStatus.answered = 1
escalation_code EscalationStatus.expired = 2

abbrev escalation_beq : EscalationStatus → EscalationStatus → Bool
escalation_beq a b = escalation_code a == escalation_code b

pub escalation_beq_iff : (a b : EscalationStatus) → (escalation_beq a b ≡ true) ↔ (a ≡ b)
escalation_beq_iff a b = ground arith

instance abbrev pub escalation_eq : Eq EscalationStatus
escalation_eq = record { same = escalation_beq; same_iff = escalation_beq_iff }

-- A row of `task_messages`.
pub record Message : Type 0 where
  pub id : String
  pub task_id : String
  pub author : String
  pub author_run_id : String
  pub target_run_id : String
  pub kind : MessageKind
  pub body : String
  pub reply_to_id : String
  pub supersedes_id : String
  pub requires_ack : Bool
  pub created_at : Time

-- A row of `message_receipts`.
pub record MessageReceipt : Type 0 where
  pub message_id : String
  pub run_id : String
  pub observer : String
  pub observed_at : Time
  pub acknowledged_at : Option Time

pub record AddMessageRequest : Type 0 where
  pub author_run_id : String
  pub target_run_id : String
  pub kind : MessageKind
  pub body : String
  pub reply_to_id : String
  pub supersedes_id : String
  pub requires_ack : Bool
  pub idempotency_key : String
  pub idempotency_hash : String

pub record MessageReceiptRequest : Type 0 where
  pub observed_message_ids : List String
  pub acknowledged_message_ids : List String
  pub idempotency_key : String
  pub idempotency_hash : String

-- A row of `task_escalations`.
pub record Escalation : Type 0 where
  pub id : String
  pub task_id : String
  pub run_id : String
  pub question_message_id : String
  pub answer_message_id : String
  pub blocking : Bool
  pub options : List String
  pub recommendation : String
  pub selected_option : String
  pub status : EscalationStatus
  pub answerers : List String
  pub expires_at : Option Time
  pub resolved_by : String
  pub delegated_by : String
  pub created_at : Time
  pub resolved_at : Option Time

pub record CreateEscalationRequest : Type 0 where
  pub run_id : String
  pub expected_version : ℕ
  pub question : String
  pub options : List String
  pub recommendation : String
  pub blocking : Bool
  pub answerers : List String
  -- seconds; a negative number is refused as one below 60 is
  pub expires_in : ℕ
  pub idempotency_key : String
  pub idempotency_hash : String

pub record ResolveEscalationRequest : Type 0 where
  pub expected_version : ℕ
  pub answer : String
  pub selected_option : String
  pub idempotency_key : String
  pub idempotency_hash : String
