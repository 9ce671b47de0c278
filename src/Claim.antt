-- ===== src/Claim.antt =====
-- Claiming a task: `getFor`, `claimFor` and `Claim` of internal/service/service.go, and
-- `workerMatches` of internal/service/matching.go. The handoffs that a claim returns beside the
-- task and its run are read only, and left out.
pub mod Version
pub mod Outcome
pub mod Eligible
pub mod Limits
pub mod Samples
use Prim.Native.String.{len}
use taskboard.Access.{can_view}
use taskboard.Access.Principals.{Capability, Permission, Principal, can, has_capability}
use taskboard.Board.Queries.{
  TaskView, get_task, insert_event, load_task, unmet_dependencies, worker_advertisement, write_task,
}
use taskboard.Board.Settings.{Call, Settings, defer_active}
use taskboard.Checklist.{activate_first}
use taskboard.Common.{
  Bool, Hint, List, Option, Result, String, [], all, claim_stale, count, err, find, forbidden,
  if◌then◌else◌, is_none, is_some, leb, ltb, nat_eq, none, not, not_found, ok, rate_limit,
  refuse_if, retry, some, string_eq, validation, version_conflict, ℕ, ◌&&◌, ◌+◌, ◌==◌, ◌>>=◌, ◌>>◌,
  ◌||◌, ◌∷◌,
}
use taskboard.Model.{
  Board, ClaimRequest, Event, Run, Task, TaskStatus, Value, Visibility, item_eq, status_eq,
  visibility_eq,
}
use taskboard.Replay.{enforce_pickup_limits, idempotency_payload, merge_payload, replay_idempotency}
use taskboard.Sessions.{NewRun, insert_agent_run}
use taskboard.Stamp.{Time}
use taskboard.Text.{contains, default_actor, trim_space}

pub record Claimed : Type 0 where
  pub board : Board
  pub task : TaskView
  pub run : Run

-- getFor; what GetFor hides of linked tasks is not part of a TaskView.
unfoldable pub get_for : Settings → Call → Board → String → Principal → Result TaskView
get_for settings call b id principal = do
  refuse_if (not (can principal.identity Permission.task_read)) forbidden
  task ← get_task settings call b (trim_space id)
  if can_view task.row principal then ok task else err not_found

abbrev pub stale_hint : TaskStatus → Hint
stale_hint status = if status == TaskStatus.stale then claim_stale else retry

abbrev pub is_terminal_status : TaskStatus → Bool
is_terminal_status status = status == TaskStatus.done || status == TaskStatus.cancelled

abbrev with_run : Board → TaskView → Option Run → Result Claimed
with_run b task none = err not_found
with_run b task (some run) = ok (record { board = b; task = task; run = run })

-- `for _, run := range task.Runs { if run.ID == id { return … } }`
pub claimed_run : Board → TaskView → String → Result Claimed
claimed_run b task run_id = with_run b task (find (λ (r : Run). r.id == run_id) task.runs)

-- The checks of Claim on the loaded task.
check_claimable : Settings → Call → Board → String → Task → ℕ → Result (Unit {0})
check_claimable settings call b task_id current expected = do
  refuse_if (not (current.version == expected))
      (version_conflict current.version expected (stale_hint current.status))
  refuse_if (is_terminal_status current.status) validation
  refuse_if (ltb 0 (unmet_dependencies b task_id)) validation
  refuse_if (defer_active settings current.defer_until call.store_now) validation

abbrev pub claimed_row : String → Time → Task → Task
claimed_row agent now t = record t {
  status = TaskStatus.active;
  owner = agent;
  updated_at = now;
  completed_at = none;
}

abbrev pub claim_event : Call → String → String → ClaimRequest → Event
claim_event call task_id agent request = record {
  id = call.new_id 2;
  task_id = task_id;
  run_id = call.new_id 0;
  kind = "task.claimed";
  actor = agent;
  message = "Task claimed";
  payload =
      merge_payload
        (("status", Value.status_value TaskStatus.active)
          ∷ ("version", Value.number (request.expected_version + 1))
          ∷ [])
        (idempotency_payload "task_claim" request.idempotency_key request.idempotency_hash);
  created_at = call.now;
}

abbrev pub new_run : Settings → Call → String → String → String → NewRun
new_run settings call task_id agent client = record {
  id = call.new_id 0;
  task_id = task_id;
  agent = agent;
  client = client;
  lease_expires = call.now + settings.lease_duration;
  started_at = call.now;
}

-- What Claim writes once its checks have passed.
pub write_claim : Settings → Call → Board → String → String → ClaimRequest → Result Board
write_claim settings call b task_id agent request = do
  let b1 = record b { items = activate_first call.now task_id b.items }
  b2 ←
      insert_agent_run settings (call.new_id 1) b1
        (new_run settings call task_id agent (trim_space request.client))
        (trim_space request.agent_session_key)
  b3 ← write_task b2 task_id request.expected_version (claimed_row agent call.now)
  ok (insert_event b3 (claim_event call task_id agent request))

abbrev pub claim_agent : String → ClaimRequest → String
claim_agent actor request =
    let agent = trim_space request.agent in
    if agent == "" then default_actor actor "unassigned" else agent

-- Claim
pub claim : Settings → Call → Board → String → ClaimRequest → String → Result Claimed
claim settings call b id request actor = do
  let task_id = trim_space id
  refuse_if (task_id == "" || ltb request.expected_version 1) validation
  refuse_if (ltb 200 (len (trim_space request.agent_session_key))) validation
  current ← load_task b task_id
  check_claimable settings call b task_id current request.expected_version
  b' ← write_claim settings call b task_id (claim_agent actor request) request
  task ← get_task settings call b' task_id
  claimed_run b' task (call.new_id 0)

-- workerMatches
unfoldable pub worker_matches : List String → List String → Bool
worker_matches requirements capabilities = all (λ item. contains item capabilities) requirements

-- The checks of claimFor on the task that the principal sees, up to its own limits.
pub check_task : Call → Board → Principal → TaskView → Result (Unit {0})
check_task call b principal task = do
  let worker = worker_advertisement b call.now principal.id
  let active =
      λ (r : Run). r.agent == principal.id && is_none r.ended_at && r.status == TaskStatus.active
  refuse_if (is_some task.row.duplicate_of) validation
  refuse_if
      (not (task.row.status == TaskStatus.queued) && not (task.row.status == TaskStatus.stale))
      validation
  refuse_if
      (principal.operator == ""
        && task.row.visibility == Visibility.team
        && not (task.row.owner == "")
        && not (task.row.owner == principal.id))
      forbidden
  refuse_if (not (worker_matches task.requirements worker.capabilities)) validation
  refuse_if (ltb 0 worker.capacity && leb worker.capacity (count active b.runs)) rate_limit

pub check_pickup : Call → Board → Principal → TaskView → Result (Unit {0})
check_pickup call b principal task = do
  check_task call b principal task
  enforce_pickup_limits b call.now principal

-- A replay returns the task and the run of the recorded claim.
pub replayed_claim : Settings → Call → Board → Principal → Event → Result Claimed
replayed_claim settings call b principal event = do
  task ← get_for settings call b event.task_id principal
  claimed_run b task event.run_id

-- claimFor after the search for a replay.
pub claim_after :
    Settings → Call → Board → String → ClaimRequest → Principal → Option Event → Result Claimed
claim_after settings call b task_id request principal (some event) =
    replayed_claim settings call b principal event
claim_after settings call b task_id request principal none = do
  task ← get_for settings call b task_id principal
  check_pickup call b principal task
  claim settings call b task_id request principal.id

-- claimFor; `hash` is the digest of the request.
pub claim_for :
    Settings
    → (String → ClaimRequest → String)
    → Call
    → Board
    → String
    → ClaimRequest
    → Principal
    → Result Claimed
claim_for settings hash call b task_id request principal = do
  refuse_if (not principal.agent) forbidden
  refuse_if (not (has_capability principal.identity Capability.task_claim)) forbidden
  let asked = record request { agent = principal.id }
  replay ← replay_idempotency b principal "task_claim" request.idempotency_key (hash task_id asked)
  claim_after settings call b task_id (record asked { idempotency_hash = hash task_id asked })
      principal replay
