-- ===== src/Model/Tables.antt =====
-- The rows of the tables that the service reads and writes, and the board: all tables together.
-- A nullable column is an `Option`.
use taskboard.Common.{Bool, List, Option, String, ℕ}
use taskboard.Model.Controls.{ControlKind, ControlStatus, RunControl}
use taskboard.Model.Kinds.{ItemStatus, Priority, TaskStatus, TaskType, Visibility}
use taskboard.Model.Messages.{Escalation, Message, MessageKind, MessageReceipt}
use taskboard.Stamp.{Time}

-- A row of `tasks`: the columns that LoadTask scans, and `duplicate_of`.
pub record Task : Type 0 where
  pub id : String
  pub title : String
  pub summary : String
  pub task_type : TaskType
  pub visibility : Visibility
  pub created_by : String
  pub last_edited_by : String
  pub section : String
  pub project : String
  pub repository : String
  pub priority : Priority
  pub due_date : String
  pub defer_until : String
  pub recurrence : String
  pub sort_order : ℕ
  pub reviewed_at : Option Time
  pub status : TaskStatus
  pub owner : String
  pub current_note : String
  pub blocker : String
  pub waiting_for : String
  pub version : ℕ
  pub created_at : Time
  pub updated_at : Time
  pub completed_at : Option Time
  pub schedule_id : String
  pub duplicate_of : Option String

-- A row of `checklist_items`.
pub record Item : Type 0 where
  pub id : String
  pub task_id : String
  pub label : String
  pub status : ItemStatus
  pub position : ℕ
  pub required : Bool
  pub note : String
  pub updated_at : Time

-- A row of `agent_runs`.
pub record Run : Type 0 where
  pub id : String
  pub task_id : String
  pub session_id : String
  pub agent : String
  pub client : String
  pub callsign : String
  pub status : TaskStatus
  pub lease_expires : Time
  pub last_heartbeat : Time
  pub started_at : Time
  pub ended_at : Option Time

-- A row of `agent_sessions`.
pub record Session : Type 0 where
  pub id : String
  pub agent : String
  pub client : String
  pub key_hash : String
  pub callsign : String
  pub created_at : Time
  pub updated_at : Time

-- A row of `task_dependencies`.
pub record Dependency : Type 0 where
  pub task_id : String
  pub blocked_by : String
  pub created_by : String
  pub created_at : Time

-- A row of `task_requirements`.
pub record Requirement : Type 0 where
  pub task_id : String
  pub requirement : String
  pub created_by : String
  pub created_at : Time

-- A row of `completion_requirements`; `met` is that its status is satisfied or waived.
pub record CompletionRequirement : Type 0 where
  pub task_id : String
  pub required : Bool
  pub met : Bool

-- A row of `worker_advertisements`.
pub record Advertisement : Type 0 where
  pub worker : String
  pub capabilities : List String
  pub capacity : ℕ
  pub expires_at : Time

-- The values that the service puts into the payload of an event.
pub data Value : Type 0 where
  text : String → Value
  number : ℕ → Value
  status_value : TaskStatus → Value
  visibility_value : Visibility → Value
  type_value : TaskType → Value
  texts : List String → Value
  flag : Bool → Value
  control_kind_value : ControlKind → Value
  control_status_value : ControlStatus → Value
  message_kind_value : MessageKind → Value

abbrev pub Payload : Type 0
Payload = List (String × Value)

-- A row of `events`.
pub record Event : Type 0 where
  pub id : String
  pub task_id : String
  pub run_id : String
  pub kind : String
  pub actor : String
  pub message : String
  pub payload : Payload
  pub created_at : Time

pub record Board : Type 0 where
  pub tasks : List Task
  pub items : List Item
  pub runs : List Run
  pub sessions : List Session
  pub events : List Event
  pub dependencies : List Dependency
  pub requirements : List Requirement
  pub completion : List CompletionRequirement
  pub advertisements : List Advertisement
  pub controls : List RunControl
  pub messages : List Message
  pub receipts : List MessageReceipt
  pub escalations : List Escalation
