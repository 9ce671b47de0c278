-- ===== src/Access.antt =====
-- Who may see and change a task: principals, capabilities, roles and the checks of
-- internal/service/service.go, from `Principal` to `pickupRunnerMayNote`.
pub mod Principals
pub mod Visible
pub mod Writers
mod Samples
use taskboard.Access.Principals.{
  Capability, Permission, Principal, acts_for_creator, can, has_capability,
}
use taskboard.Board.Queries.{TaskView}
use taskboard.Common.{
  Bool, List, [], false, if◌then◌else◌, is_nil, is_none, is_some, nat_eq, not, string_eq, true,
  ◌&&◌, ◌==◌, ◌||◌, ◌∷◌,
}
use taskboard.Model.{
  Run, Task, TaskStatus, UpdateRequest, Visibility, control_kind_eq, control_status_eq,
  escalation_eq, item_eq, status_eq, visibility_eq,
}

-- CanView
unfoldable pub can_view : Task → Principal → Bool
unfolding can
can_view task principal =
    if not (can principal.identity Permission.task_read)
    then false
    else if principal.agent
    then if task.visibility == Visibility.private
      then if not (principal.operator == "") && task.created_by == principal.operator
        then true
        else acts_for_creator task principal.on_behalf_of
      else if not (principal.operator == "")
      then task.visibility == Visibility.agent || task.visibility == Visibility.team
      else task.visibility == Visibility.agent
        || task.visibility == Visibility.team && (task.owner == "" || task.owner == principal.id)
    else not (task.visibility == Visibility.private)
      || not (task.created_by == "") && task.created_by == principal.id

-- canMutate
unfoldable pub can_mutate : Task → Principal → Bool
can_mutate task principal =
    if not (can_view task principal)
    then false
    else if not principal.agent
    then true
    else not (principal.operator == "") || not (task.owner == "") && task.owner == principal.id

-- producerMayRead
unfoldable pub producer_may_read : Task → Principal → Bool
unfolding has_capability
producer_may_read task principal =
    principal.agent
    && not (task.created_by == "")
    && task.created_by == principal.id
    && has_capability principal.identity Capability.task_message

-- No run of the task is still open: the loop over `task.Runs`.
pub all_ended : List Run → Bool
all_ended [] = true
all_ended (run ∷ runs) = not (is_none run.ended_at) && all_ended runs

-- producerMayUpdate
unfoldable pub producer_may_update : TaskView → Principal → Bool
producer_may_update task principal =
    if not principal.agent
      || task.row.created_by == ""
      || not (task.row.created_by == principal.id)
      || not (task.row.owner == "")
      || not (task.row.status == TaskStatus.queued)
    then false
    else all_ended task.runs

-- producerFieldsOnly
unfoldable pub producer_fields_only : UpdateRequest → Bool
producer_fields_only r =
    r.run_id == ""
    && (r.status == TaskStatus.unset || r.status == TaskStatus.cancelled)
    && is_none r.task_type
    && is_none r.visibility
    && is_none r.owner
    && is_none r.section
    && is_none r.project
    && is_none r.repository
    && is_none r.due_date
    && is_none r.defer_until
    && is_none r.recurrence
    && not r.reviewed
    && is_none r.checklist
    && is_none r.blocker
    && is_none r.waiting_for
    && r.current_item_id == ""
    && is_nil r.complete_item_ids
    && is_nil r.skip_item_ids
    && is_nil r.add_items
    && is_none r.duplicate_of

-- pickupRunnerMayNote
unfoldable pub pickup_runner_may_note : TaskView → Principal → UpdateRequest → Bool
unfolding has_capability
pickup_runner_may_note task principal r =
    if not (has_capability principal.identity Capability.task_claim)
      || not (task.row.visibility == Visibility.agent)
      || not (task.row.owner == "")
      || not (task.row.status == TaskStatus.queued) && not (task.row.status == TaskStatus.stale)
    then false
    else if not (all_ended task.runs)
    then false
    else is_some r.current_note
      && r.status == TaskStatus.unset
      && is_none r.title
      && is_none r.summary
      && is_none r.priority
      && producer_fields_only r
