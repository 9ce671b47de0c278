-- ===== src/Update/Guards.antt =====
-- The checks of an update on the task as it is stored.
use taskboard.Board.Queries.{live_on, unmet_dependencies}
use taskboard.Checklist.{open_required}
use taskboard.Common.{
  Bool, Hint, List, Option, Result, String, any, claim_stale, count, err, false, find, forbidden,
  if◌then◌else◌, is_some, ltb, nat_eq, none, not, ok, or_else, refuse_if, retry, run_ended, some,
  string_eq, suc, validation, version_conflict, zero, ℕ, ◌&&◌, ◌==◌, ◌>>=◌, ◌>>◌, ◌||◌,
}
use taskboard.Model.{
  Board, CompletionRequirement, Run, Task, TaskStatus, UpdateRequest, Visibility, item_eq,
  status_eq, visibility_eq,
}
use taskboard.Text.{trim_space}
use taskboard.Update.Edit.{Edit, when_set}

unfoldable pub changes_lane : Edit → Task → Bool
changes_lane edit current = when_set (λ v. not (v == current.visibility)) edit.visibility

unfoldable pub check_lane : Board → String → Task → Edit → String → Result (Unit {0})
unfolding changes_lane
check_lane b task_id current edit actor = if not (changes_lane edit current) then ok tt else do
  refuse_if (ltb 0 (count (live_on task_id) b.runs)) validation
  refuse_if
      (when_set (λ v. v == Visibility.private) edit.visibility
        && (current.created_by == "" || not (current.created_by == trim_space actor)))
      forbidden
  refuse_if
      (when_set (λ v. v == Visibility.agent) edit.visibility
        && not (current.status == TaskStatus.queued)
        && not (current.status == TaskStatus.stale)
        && not (current.status == TaskStatus.done)
        && not (current.status == TaskStatus.cancelled))
      validation

unfoldable pub check_owner : Board → String → Task → Edit → Result (Unit {0})
check_owner b task_id current edit = do
  refuse_if
      (when_set (λ o. not (o == current.owner)) edit.request.owner
        && ltb 0 (count (live_on task_id) b.runs))
      validation
  refuse_if
      (or_else edit.visibility current.visibility == Visibility.agent
        && when_set (λ o. not (o == "")) edit.request.owner)
      validation

unfoldable pub check_replacement : Board → String → Task → Edit → Result (Unit {0})
check_replacement b task_id current edit =
    refuse_if
      (is_some edit.request.checklist
        && (not (current.status == TaskStatus.queued)
            || ltb 0 (count (λ (r : Run). r.task_id == task_id) b.runs)))
      validation

-- SELECT ended_at FROM agent_runs WHERE id=? AND task_id=?
pub run_has_ended : Board → String → String → Bool
run_has_ended b task_id run_id =
    not (run_id == "") && elim (find (λ (r : Run). r.id == run_id && r.task_id == task_id) b.runs) [
      | none ↦ false
      | some r ↦ is_some r.ended_at
    ]

-- versionConflict
abbrev pub conflict_hint : TaskStatus → Bool → Hint
conflict_hint status ended =
    if status == TaskStatus.stale then claim_stale else if ended then run_ended else retry

unfoldable pub check_edit : Board → String → Task → Edit → String → Result (Unit {0})
unfolding run_has_ended
check_edit b task_id current edit actor = do
  refuse_if (not (current.version == edit.request.expected_version)) (
      version_conflict current.version edit.request.expected_version
        (conflict_hint current.status (run_has_ended b task_id edit.request.run_id)))
  check_lane b task_id current edit actor
  check_owner b task_id current edit
  check_replacement b task_id current edit

-- The loop of resolveDuplicateRoot, with the steps that it has left.
resolve_from : ℕ → List Task → String → String → Result (String × String)
resolve_from zero tasks task_id id = err validation
resolve_from (suc n) tasks task_id id = elim (find (λ (t : Task). t.id == id) tasks) [
  | none ↦ err validation
  | some t ↦
      let next = or_else t.duplicate_of "" in
      let rest = resolve_from n tasks task_id next in
      if id == task_id then err validation else if next == "" then ok (id, t.title) else rest
]

-- resolveDuplicateRoot
pub resolve_duplicate_root : Board → String → String → Result (String × String)
unfolding resolve_from
resolve_duplicate_root b target_id task_id = resolve_from 20 b.tasks task_id target_id

-- Runs of other agents that still hold the task.
abbrev held_by_others : String → String → String → Run → Bool
held_by_others task_id run_id actor r =
    live_on task_id r && not (r.id == run_id) && not (r.agent == actor)

-- The kept task that the request links to, with its title.
unfoldable pub kept_task :
    Board → String → UpdateRequest → String → Option String → Result (Option (String × String))
kept_task b task_id r actor none = ok none
kept_task b task_id r actor (some target) = if target == "" then ok none else do
  root ← resolve_duplicate_root b target task_id
  refuse_if (ltb 0 (count (held_by_others task_id r.run_id (trim_space actor)) b.runs)) validation
  ok (some root)

-- What a task needs to be done: no open required item, no unmet completion requirement, and no
-- unmet dependency.
unfoldable pub check_done : Board → String → TaskStatus → Result (Unit {0})
check_done b task_id status = if not (status == TaskStatus.done) then ok tt else do
  refuse_if (any (open_required task_id) b.items) validation
  refuse_if
      (any (λ (c : CompletionRequirement). c.task_id == task_id && c.required && not c.met)
        b.completion)
      validation
  refuse_if (ltb 0 (unmet_dependencies b task_id)) validation
