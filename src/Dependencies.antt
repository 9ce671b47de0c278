-- ===== src/Dependencies.antt =====
-- Dependencies between tasks: internal/service/dependencies.go, with the recursive query that
-- looks for a cycle.
pub mod Chain
pub mod Acyclic
mod Samples
use taskboard.Access.{can_mutate}
use taskboard.Access.Principals.{Permission, Principal, can}
use taskboard.Board.Queries.{TaskView, get_task, insert_event, list_dependencies, load_task}
use taskboard.Board.Settings.{Call, Settings}
use taskboard.Claim.{get_for}
use taskboard.Common.{
  Bool, List, Result, String, [], any, conflict, count, forbidden, length, ltb, map, nat_eq, not,
  not_found, ok, refuse_if, select, string_eq, suc, update, validation, zero, ℕ, ◌&&◌, ◌++◌, ◌+◌,
  ◌==◌, ◌>>=◌, ◌>>◌, ◌||◌, ◌∷◌,
}
use taskboard.Model.{
  Board, Dependency, Event, Task, Value, control_kind_eq, control_status_eq, escalation_eq, item_eq,
  status_eq, visibility_eq,
}
use taskboard.Stamp.{Time}
use taskboard.Text.{contains, trim_space}

abbrev pub blockers : List Dependency → List String
blockers deps = map (λ (d : Dependency). d.blocked_by) deps

-- The rows that lead out of the identifiers found so far.
abbrev pub leads_out : List String → Dependency → Bool
leads_out seen d = contains d.task_id seen && not (contains d.blocked_by seen)

-- One round of the recursive query. An identifier that two rows lead to in one round stands twice;
-- the query only asks whether it is there.
abbrev pub grow : List Dependency → List String → List String
grow deps seen = seen ++ blockers (select (leads_out seen) deps)

unfoldable pub close : ℕ → List Dependency → List String → List String
close zero deps seen = seen
close (suc rounds) deps seen = close rounds deps (grow deps seen)

abbrev pub first_blockers : List Dependency → String → List String
first_blockers deps start = blockers (select (λ (d : Dependency). d.task_id == start) deps)

-- `WITH RECURSIVE chain(id) AS …`: every round but the last finds a new blocking task, so there are
-- at most as many rounds as rows.
unfoldable pub chain : List Dependency → String → List String
unfolding close
chain deps start = close (length deps) deps (first_blockers deps start)

-- ListTaskDependenciesFor
pub list_task_dependencies_for :
    Settings → Call → Board → String → Principal → Result (List (String × Bool))
list_task_dependencies_for settings call b task_id principal =
    get_for settings call b task_id principal >>= λ task. ok (list_dependencies b task.row.id)

abbrev pub edited_version : Time → String → Task → Task
edited_version now editor t = record t {
  last_edited_by = editor;
  version = t.version + 1;
  updated_at = now;
}

-- UPDATE tasks …, of which the code does not read the count of rows.
abbrev pub touch_task : Time → String → ℕ → Principal → List Task → List Task
touch_task now task_id version principal tasks =
    update (λ (t : Task). t.id == task_id && t.version == version) (edited_version now principal.id)
      tasks

dependency_event : Call → String → String → String → String → ℕ → Principal → Event
dependency_event call kind message task_id blocked_by version principal = record {
  id = call.new_id 0;
  task_id = task_id;
  run_id = "";
  kind = kind;
  actor = principal.id;
  message = message;
  payload =
      ("blocked_by_task_id", Value.text blocked_by) ∷ ("version", Value.number (version + 1)) ∷ [];
  created_at = call.now;
}

abbrev pub same_dependency : String → String → Dependency → Bool
same_dependency task_id blocked_by d = d.task_id == task_id && d.blocked_by == blocked_by

abbrev pub new_dependency : Call → String → String → Principal → Dependency
new_dependency call task_id blocked_by principal = record {
  task_id = task_id;
  blocked_by = blocked_by;
  created_by = principal.id;
  created_at = call.now;
}

-- The transaction of addTaskDependencyFor.
unfoldable pub write_dependency : Call → Board → String → String → ℕ → Principal → Result Board
unfolding dependency_event
write_dependency call b task_id blocked_by expected principal = do
  current ← load_task b task_id
  refuse_if (not (current.version == expected)) conflict
  refuse_if (contains task_id (chain b.dependencies blocked_by)) validation
  refuse_if (any (same_dependency task_id blocked_by) b.dependencies) validation
  ok (
      insert_event
        (record b {
          dependencies = b.dependencies ++ new_dependency call task_id blocked_by principal ∷ [];
          tasks = touch_task call.now task_id expected principal b.tasks;
        })
        (dependency_event call "task.dependency_added" "Task dependency added" task_id blocked_by
          expected principal))

-- addTaskDependencyFor
unfoldable pub add_task_dependency_for :
    Settings → Call → Board → String → String → ℕ → Principal → Result (Board × TaskView)
add_task_dependency_for settings call b id blocked expected principal = do
  refuse_if (principal.agent || not (can principal.identity Permission.task_write)) forbidden
  let task_id = trim_space id
  let blocked_by = trim_space blocked
  refuse_if (task_id == "" || blocked_by == "" || task_id == blocked_by || ltb expected 1)
      validation
  task ← get_for settings call b task_id principal
  refuse_if (not (can_mutate task.row principal)) forbidden
  other ← get_for settings call b blocked_by principal
  b' ← write_dependency call b task_id blocked_by expected principal
  shown ← get_task settings call b' task_id
  ok (b', shown)

-- The transaction of removeTaskDependencyFor.
unfoldable pub delete_dependency : Call → Board → String → String → ℕ → Principal → Result Board
unfolding dependency_event
delete_dependency call b task_id blocked_by expected principal = do
  current ← load_task b task_id
  refuse_if (not (current.version == expected)) conflict
  refuse_if (not (count (same_dependency task_id blocked_by) b.dependencies == 1)) not_found
  ok (
      insert_event
        (record b {
          dependencies =
              select (λ (d : Dependency). not (same_dependency task_id blocked_by d))
                b.dependencies;
          tasks = touch_task call.now task_id expected principal b.tasks;
        })
        (dependency_event call "task.dependency_removed" "Task dependency removed" task_id
          blocked_by expected principal))

-- removeTaskDependencyFor, which does not trim the identifiers itself
unfoldable pub remove_task_dependency_for :
    Settings → Call → Board → String → String → ℕ → Principal → Result (Board × TaskView)
remove_task_dependency_for settings call b task_id blocked_by expected principal = do
  refuse_if (principal.agent || not (can principal.identity Permission.task_write)) forbidden
  task ← get_for settings call b task_id principal
  refuse_if (not (can_mutate task.row principal)) forbidden
  b' ← delete_dependency call b task_id blocked_by expected principal
  shown ← get_task settings call b' task_id
  ok (b', shown)
