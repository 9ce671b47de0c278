-- ===== src/Model/NewTasks.antt =====
-- The requests that create a task, of internal/model/model.go.
use taskboard.Common.{Bool, List, String}

-- The fields that both requests share, as the client sent them.
pub record NewTask : Type 0 where
  pub title : String
  pub task_type : String
  pub visibility : String
  pub summary : String
  pub section : String
  pub project : String
  pub repository : String
  pub priority : String
  pub due_date : String
  pub defer_until : String
  pub recurrence : String
  pub checklist : List String
  pub force_new : Bool
  pub idempotency_key : String
  pub idempotency_hash : String
  pub overridden_duplicates : List String

pub record StartRequest : Type 0 where
  pub fields : NewTask
  pub agent : String
  pub client : String
  pub agent_session_key : String

pub record CreateRequest : Type 0 where
  pub fields : NewTask
  pub requirements : List String
  pub delegated_via : String
