-- ===== src/Update/Agents.antt =====
-- Updates through the interface: `updateFor` of internal/service/service.go.
use taskboard.Access.{can_mutate, pickup_runner_may_note, producer_fields_only, producer_may_update}
use taskboard.Access.Principals.{Capability, Identity, Permission, Principal, can, has_capability}
use taskboard.Board.Queries.{TaskView}
use taskboard.Board.Settings.{Call, Settings}
use taskboard.Claim.{get_for}
use taskboard.Common.{
  Bool, Error, Option, Result, String, any, err, false, forbidden, if◌then◌else◌, is_nil, is_some,
  nat_eq, none, not, not_found, ok, refuse_if, some, string_eq, validation, ◌&&◌, ◌==◌, ◌>>=◌, ◌>>◌,
  ◌||◌,
}
use taskboard.Lease.{holds_lease}
use taskboard.Model.{
  Board, Event, Run, TaskStatus, UpdateRequest, control_kind_eq, control_status_eq, escalation_eq,
  item_eq, status_eq, visibility_eq,
}
use taskboard.Replay.{replay_idempotency}
use taskboard.Text.{trim_space}
use taskboard.Update.Handler.{update_task}

-- `request.DuplicateOf != nil && strings.TrimSpace(*request.DuplicateOf) != ""`
abbrev pub target_of : Option String → String
target_of none = ""
target_of (some target) = trim_space target

-- The principal's run holds the lease of a task that it may change.
unfoldable pub leased_by : Settings → Call → Board → String → UpdateRequest → Principal → Bool
leased_by settings call b task_id r principal =
    not (trim_space r.run_id == "") && elim (get_for settings call b task_id principal) [
      | err e ↦ false
      | ok task ↦ can_mutate task.row principal && holds_lease task r.run_id principal call.now
    ]

-- What an agent needs a capability for, whatever it holds.
unfoldable pub check_sensitive : UpdateRequest → Identity → Result (Unit {0})
check_sensitive r identity = do
  refuse_if
      ((r.status == TaskStatus.cancelled || not (target_of r.duplicate_of == ""))
        && not (has_capability identity Capability.task_sensitive))
      forbidden
  refuse_if
      (not (is_nil r.skip_item_ids)
        && not (has_capability identity Capability.task_skip)
        && not (has_capability identity Capability.task_sensitive))
      forbidden

-- What an agent needs a capability for unless its run holds the lease.
unfoldable pub check_leased : Bool → UpdateRequest → Identity → Result (Unit {0})
check_leased leased r identity = do
  refuse_if (not leased && not (has_capability identity Capability.task_update)) forbidden
  refuse_if
      (r.status == TaskStatus.done
        && not leased
        && not (has_capability identity Capability.task_complete))
      forbidden

-- No run of the task with the identifier of the request belongs to another agent.
unfoldable pub check_run : TaskView → UpdateRequest → Principal → Result (Unit {0})
check_run task r principal =
    refuse_if
      (principal.agent
        && not (trim_space r.run_id == "")
        && any (λ (s : Run). s.id == trim_space r.run_id && not (s.agent == principal.id))
            task.runs)
      forbidden

-- The access of the principal to the task, for this request.
unfoldable pub may_update : TaskView → Principal → UpdateRequest → Bool
may_update task principal r =
    can_mutate task.row principal
    || producer_may_update task principal && producer_fields_only r
    || pickup_runner_may_note task principal r

-- What no agent may change: the lane, and the owner but to itself.
unfoldable pub check_agent_fields : UpdateRequest → Principal → Result (Unit {0})
check_agent_fields r principal = do
  refuse_if (principal.agent && is_some r.visibility) forbidden
  refuse_if
      (principal.agent
        && elim r.owner [ none ↦ false | some owner ↦ not (trim_space owner == principal.id) ])
      forbidden

-- The kept task of a duplicate is one that the principal sees.
pub check_target : Settings → Call → Board → String → Principal → Result (Unit {0})
check_target settings call b target principal =
    if target == ""
    then ok tt
    else elim (get_for settings call b target principal) [ ok task ↦ ok tt | err e ↦ if_missing e ]
  where
    if_missing : Error → Result (Unit {0})
    if_missing not_found = err validation
    if_missing forbidden = err validation
    if_missing e = err e

-- updateFor after its part for agents.
unfoldable pub update_checked :
    Settings → Call → Board → String → UpdateRequest → Principal → Result (Board × TaskView)
unfolding check_target
update_checked settings call b task_id r principal = do
  current ← get_for settings call b task_id principal
  check_run current r principal
  refuse_if (not (may_update current principal r)) forbidden
  check_agent_fields r principal
  check_target settings call b (target_of r.duplicate_of) principal
  update_task settings call b task_id r principal.id

-- A replay returns the task as it is.
unfoldable pub replayed_update :
    Settings → Call → Board → Principal → Event → Result (Board × TaskView)
replayed_update settings call b principal event = do
  task ← get_for settings call b event.task_id principal
  ok (b, task)

-- updateFor for an agent, after the search for a replay.
unfoldable pub update_after :
    Settings
    → Call
    → Board
    → String
    → UpdateRequest
    → Principal
    → Option Event
    → Result (Board × TaskView)
update_after settings call b task_id r principal (some event) =
    replayed_update settings call b principal event
update_after settings call b task_id r principal none = do
  check_leased (leased_by settings call b task_id r principal) r principal.identity
  update_checked settings call b task_id r principal

unfoldable pub update_by_agent :
    Settings
    → Call
    → Board
    → String
    → UpdateRequest
    → String
    → Principal
    → Result (Board × TaskView)
update_by_agent settings call b task_id r hash principal = do
  check_sensitive r principal.identity
  replay ← replay_idempotency b principal "task_update" r.idempotency_key hash
  update_after settings call b task_id (record r { idempotency_hash = hash }) principal replay

unfoldable pub update_by_person :
    Settings → Call → Board → String → UpdateRequest → Principal → Result (Board × TaskView)
update_by_person settings call b task_id r principal = do
  refuse_if (not (can principal.identity Permission.task_write)) forbidden
  update_checked settings call b task_id r principal

-- updateFor; `digest` is the digest of the request.
unfoldable pub update_for :
    Settings
    → (String → UpdateRequest → String)
    → Call
    → Board
    → String
    → UpdateRequest
    → Principal
    → Result (Board × TaskView)
update_for settings digest call b task_id r principal =
    if principal.agent
    then update_by_agent settings call b task_id r (digest task_id r) principal
    else update_by_person settings call b task_id r principal
