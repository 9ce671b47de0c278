-- ===== src/Fixtures.antt =====
-- A small board for the tests.
use taskboard.Access.Principals.{
  Principal, Role, agent_principal, default_agent_policy, human_principal,
}
use taskboard.Board.Queries.{TaskView}
use taskboard.Board.Settings.{Call, Settings}
use taskboard.Common.{List, String, [], false, none, some, suc, true, zero, ℕ, ◌*◌, ◌∷◌}
use taskboard.Model.{
  Board, ClaimRequest, Item, ItemStatus, Priority, Run, Task, TaskStatus, TaskType, UpdateRequest,
  Visibility,
}
use taskboard.Stamp.{minute}

abbrev pub settings : Settings
settings = record {
  lease_duration = 2 * minute;
  fixed_type = TaskType.unset;
  default_requirements = [];
  key_hash = λ key. key;
  defer_start = λ value. none;
  normalize_defer_until = λ value. some value;
  is_date = λ value. true;
  add_date = λ date now months days. "2026-02-01";
}

abbrev pub id_of : ℕ → String
id_of zero = "id0"
id_of (suc zero) = "id1"
id_of (suc (suc n)) = "id2"

abbrev pub call : Call
call = record { now = 100 * minute; store_now = 100 * minute; new_id = id_of }

abbrev pub task : Task
task = record {
  id = "t1";
  title = "Write";
  summary = "";
  task_type = TaskType.work;
  visibility = Visibility.team;
  created_by = "ann";
  last_edited_by = "ann";
  section = "inbox";
  project = "";
  repository = "";
  priority = Priority.normal;
  due_date = "";
  defer_until = "";
  recurrence = "";
  sort_order = 0;
  reviewed_at = none;
  status = TaskStatus.queued;
  owner = "";
  current_note = "";
  blocker = "";
  waiting_for = "";
  version = 1;
  created_at = 0;
  updated_at = 0;
  completed_at = none;
  schedule_id = "";
  duplicate_of = none;
}

abbrev pub item : String → ItemStatus → ℕ → Item
item id status position = record {
  id = id;
  task_id = "t1";
  label = id;
  status = status;
  position = position;
  required = true;
  note = "";
  updated_at = 0;
}

abbrev pub checklist : List Item
checklist = item "i1" ItemStatus.active 0 ∷ item "i2" ItemStatus.todo 1 ∷ []

abbrev pub board : Board
board = record {
  tasks = task ∷ [];
  items = checklist;
  runs = [];
  sessions = [];
  events = [];
  dependencies = [];
  requirements = [];
  completion = [];
  advertisements = [];
  controls = [];
  messages = [];
  receipts = [];
  escalations = [];
}

abbrev pub request : ClaimRequest
request = record {
  expected_version = 1;
  agent = "bot";
  client = "cli";
  agent_session_key = "key";
  idempotency_key = "";
  idempotency_hash = "";
}

abbrev pub bot : Principal
bot = agent_principal "bot" default_agent_policy

abbrev pub ann : Principal
ann = human_principal "ann" Role.member

abbrev pub private_task : Task
private_task = record task { visibility = Visibility.private }

abbrev pub held_task : Task
held_task = record task { status = TaskStatus.active; owner = "bot"; version = 2 }

abbrev pub produced : TaskView
produced = record {
  row = record task { created_by = "bot"; visibility = Visibility.agent };
  items = [];
  runs = [];
  dependencies = [];
  deferred = false;
  ready = true;
  requirements = [];
}

abbrev pub note_request : UpdateRequest
note_request = record {
  expected_version = 1;
  run_id = "";
  status = TaskStatus.unset;
  title = none;
  task_type = none;
  visibility = none;
  summary = none;
  owner = none;
  section = none;
  project = none;
  repository = none;
  priority = none;
  due_date = none;
  defer_until = none;
  recurrence = none;
  reviewed = false;
  checklist = none;
  current_note = some "seen";
  blocker = none;
  waiting_for = none;
  current_item_id = "";
  complete_item_ids = [];
  skip_item_ids = [];
  skip_reason = "";
  add_items = [];
  duplicate_of = none;
  idempotency_key = "";
  idempotency_hash = "";
}

abbrev pub done_request : UpdateRequest
done_request = record note_request {
  status = TaskStatus.done;
  current_note = none;
  complete_item_ids = "i1" ∷ "i2" ∷ [];
}

abbrev pub held_run : Run
held_run = record {
  id = "r1";
  task_id = "t1";
  session_id = "s1";
  agent = "bot";
  client = "cli";
  callsign = "Amber";
  status = TaskStatus.active;
  lease_expires = 101 * minute;
  last_heartbeat = 99 * minute;
  started_at = 90 * minute;
  ended_at = none;
}

abbrev pub held_board : Board
held_board = record board { tasks = held_task ∷ []; runs = held_run ∷ [] }

abbrev pub held_request : UpdateRequest
held_request = record note_request {
  expected_version = 2;
  run_id = "r1";
  complete_item_ids = "i1" ∷ [];
}
