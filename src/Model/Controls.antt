-- ===== src/Model/Controls.antt =====
-- Run controls of internal/model/model.go: the table `run_control_requests` and its requests.
use taskboard.Common.{Bool, Eq, Option, String, arith, nat_eq, string_eq, true, ℕ, ◌==◌, ◌↔◌, ◌≡◌}
use taskboard.Stamp.{Time}

pub data ControlKind : Type 0 where
  pause cancel resume retry unknown : ControlKind

pub data ControlStatus : Type 0 where
  requested acknowledged accepted rejected completed expired unknown : ControlStatus

abbrev kind_code : ControlKind → ℕ
kind_code ControlKind.pause = 0
kind_code ControlKind.cancel = 1
kind_code ControlKind.resume = 2
kind_code ControlKind.retry = 3
kind_code ControlKind.unknown = 4

abbrev kind_beq : ControlKind → ControlKind → Bool
kind_beq a b = kind_code a == kind_code b

pub kind_beq_iff : (a b : ControlKind) → (kind_beq a b ≡ true) ↔ (a ≡ b)
kind_beq_iff a b = ground arith

instance abbrev pub control_kind_eq : Eq ControlKind
control_kind_eq = record { same = kind_beq; same_iff = kind_beq_iff }

abbrev control_code : ControlStatus → ℕ
control_code ControlStatus.requested = 0
control_code ControlStatus.acknowledged = 1
control_code ControlStatus.accepted = 2
control_code ControlStatus.rejected = 3
control_code ControlStatus.completed = 4
control_code ControlStatus.expired = 5
control_code ControlStatus.unknown = 6

abbrev control_beq : ControlStatus → ControlStatus → Bool
control_beq a b = control_code a == control_code b

pub control_beq_iff : (a b : ControlStatus) → (control_beq a b ≡ true) ↔ (a ≡ b)
control_beq_iff a b = ground arith

instance abbrev pub control_status_eq : Eq ControlStatus
control_status_eq = record { same = control_beq; same_iff = control_beq_iff }

-- A row of `run_control_requests`.
pub record RunControl : Type 0 where
  pub id : String
  pub task_id : String
  pub target_run_id : String
  pub target_agent : String
  pub kind : ControlKind
  pub status : ControlStatus
  pub requested_by : String
  pub reason : String
  pub outcome_note : String
  pub task_version : ℕ
  pub created_at : Time
  pub updated_at : Time
  pub expires_at : Time
  pub acknowledged_at : Option Time
  pub decided_at : Option Time
  pub completed_at : Option Time

pub record CreateControlRequest : Type 0 where
  pub target_run_id : String
  pub kind : ControlKind
  pub reason : String
  pub expected_version : ℕ
  pub idempotency_key : String
  pub idempotency_hash : String

pub record UpdateControlRequest : Type 0 where
  pub status : ControlStatus
  pub outcome_note : String
  pub expected_version : ℕ
  pub idempotency_key : String
  pub idempotency_hash : String

pub record ReviewRequeueRequest : Type 0 where
  pub target_run_id : String
  pub expected_version : ℕ
  pub review_note : String
