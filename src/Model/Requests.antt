-- ===== src/Model/Requests.antt =====
-- The requests of the service. A pointer field is an `Option`; a field of a string type that the
-- service normalises is the text that the client sent.
use taskboard.Common.{Bool, List, Option, String, ℕ}
use taskboard.Model.Kinds.{TaskStatus}

pub record ClaimRequest : Type 0 where
  pub expected_version : ℕ
  pub agent : String
  pub client : String
  pub agent_session_key : String
  pub idempotency_key : String
  pub idempotency_hash : String

pub record UpdateRequest : Type 0 where
  pub expected_version : ℕ
  pub run_id : String
  pub status : TaskStatus
  pub title : Option String
  pub task_type : Option String
  pub visibility : Option String
  pub summary : Option String
  pub owner : Option String
  pub section : Option String
  pub project : Option String
  pub repository : Option String
  pub priority : Option String
  pub due_date : Option String
  pub defer_until : Option String
  pub recurrence : Option String
  pub reviewed : Bool
  pub checklist : Option (List String)
  pub current_note : Option String
  pub blocker : Option String
  pub waiting_for : Option String
  pub current_item_id : String
  pub complete_item_ids : List String
  pub skip_item_ids : List String
  pub skip_reason : String
  pub add_items : List String
  pub duplicate_of : Option String
  pub idempotency_key : String
  pub idempotency_hash : String
