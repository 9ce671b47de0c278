-- ===== src/Board/Queries.antt =====
-- Queries. Times in an ORDER BY or a comparison are compared as the stored stamps are.
use Prim.Native.Nat.{Ordering}
use Prim.Native.String.{compare as str_compare}
use taskboard.Board.Settings.{Call, Settings, defer_active}
use taskboard.Common.{
  Bool, Error, List, Option, Result, String, [], ap, claim_stale, conflict, count, err, false, find,
  if◌then◌else◌, is_none, ltb, map, nat_eq, none, not, not_found, ok, ok_injective, order_by, refl,
  retry, select, some, string_eq, suc, true, update, version_conflict, ℕ, ◌&&◌, ◌++◌, ◌+◌, ◌==◌,
  ◌>>=◌, ◌||◌, ◌∷◌, ◌≡◌,
}
use taskboard.Model.{
  Advertisement, Board, Dependency, Event, Item, Requirement, Run, Session, Task, TaskStatus,
  control_kind_eq, control_status_eq, escalation_eq, item_eq, message_eq, status_eq, visibility_eq,
}
use taskboard.Stamp.{Time, stamp_before}

-- A task with what GetTask loads beside its row.
pub record TaskView : Type 0 where
  pub row : Task
  pub items : List Item
  pub runs : List Run
  -- for each dependency, the blocking task and whether it is done
  pub dependencies : List (String × Bool)
  pub deferred : Bool
  pub ready : Bool
  pub requirements : List String

abbrev pub found {ℓ} : {A : Type ℓ} → Option A → Result A
found none = err not_found
found (some a) = ok a

pub found-eq-ok {ℓ} : {A : Type ℓ} (o : Option A) (a : A) → found o ≡ ok a → o ≡ some a
found-eq-ok none a h = cc
found-eq-ok (some b) a h = ap some (ok_injective h)

-- LoadTask
unfoldable pub load_task : Board → String → Result Task
load_task b id = found (find (λ t. t.id == id) b.tasks)

unfoldable pub list_items : Board → String → List Item
list_items b task_id =
    order_by (λ i j. ltb i.position j.position) (select (λ i. i.task_id == task_id) b.items)

-- COALESCE(agent_session.callsign,run.callsign)
unfoldable pub shown_run : Board → Run → Run
shown_run b run = elim (find (λ (s : Session). s.id == run.session_id) b.sessions) [
  | none ↦ run
  | some session ↦ record run { callsign = session.callsign }
]

unfoldable pub list_runs : Board → String → List Run
unfolding shown_run
list_runs b task_id =
    order_by (λ r s. stamp_before s.started_at r.started_at)
      (map (shown_run b) (select (λ r. r.task_id == task_id) b.runs))

-- The inner join with the blocking task.
join_blockers : List Task → List Dependency → List (String × Bool)
join_blockers tasks [] = []
join_blockers tasks (d ∷ ds) = elim (find (λ (t : Task). t.id == d.blocked_by) tasks) [
  | none ↦ join_blockers tasks ds
  | some blocker ↦ (d.blocked_by, blocker.status == TaskStatus.done) ∷ join_blockers tasks ds
]

unfoldable pub str_before : String → String → Bool
str_before s t = elim (str_compare s t) [ Ordering.lt ↦ true | _ ↦ false ]

-- ORDER BY created_at, blocked_by_task_id
dependency_before : Dependency → Dependency → Bool
unfolding str_before
dependency_before d e =
    stamp_before d.created_at e.created_at
    || not (stamp_before e.created_at d.created_at) && str_before d.blocked_by e.blocked_by

-- ListTaskDependencies
unfoldable pub list_dependencies : Board → String → List (String × Bool)
unfolding join_blockers dependency_before
list_dependencies b task_id =
    join_blockers b.tasks
      (order_by dependency_before (select (λ d. d.task_id == task_id) b.dependencies))

abbrev unmet : List (String × Bool) → ℕ
unmet [] = 0
unmet ((id, satisfied) ∷ ds) = if satisfied then unmet ds else suc (unmet ds)

-- The count of dependencies whose blocking task is not done.
unfoldable pub unmet_dependencies : Board → String → ℕ
unmet_dependencies b task_id = unmet (list_dependencies b task_id)

-- ListTaskRequirements
unfoldable pub list_requirements : Board → String → List String
unfolding str_before
list_requirements b task_id =
    order_by str_before
      (map (λ r. r.requirement) (select (λ (r : Requirement). r.task_id == task_id) b.requirements))

abbrev no_advertisement : String → Advertisement
no_advertisement worker = record {
  worker = worker;
  capabilities = [];
  capacity = 0;
  expires_at = 0;
}

-- GetWorkerAdvertisement; its callers go on with an empty advertisement on an error.
unfoldable pub worker_advertisement : Board → Time → String → Advertisement
worker_advertisement b now worker =
    elim (find (λ (a : Advertisement). a.worker == worker) b.advertisements) [
      | none ↦ no_advertisement worker
      | some a ↦ if ltb a.expires_at now then no_advertisement worker else a
    ]

-- GetTask with setReadiness
unfoldable pub get_task : Settings → Call → Board → String → Result TaskView
get_task settings call b id = do
  row ← load_task b id
  let deferred = defer_active settings row.defer_until call.store_now
  let dependencies = list_dependencies b id
  ok (record {
    row = row;
    items = list_items b id;
    runs = list_runs b id;
    dependencies = dependencies;
    deferred = deferred;
    ready = not deferred && unmet dependencies == 0;
    requirements = list_requirements b id;
  })

-- InsertEvent
unfoldable pub insert_event : Board → Event → Board
insert_event b e = record b { events = b.events ++ e ∷ [] }

-- Runs that hold the task: not ended, and active.
abbrev pub live_on : String → Run → Bool
live_on task_id run =
    run.task_id == task_id && run.status == TaskStatus.active && is_none run.ended_at

-- lostVersionRace
lost_version_race : Board → String → ℕ → Error
lost_version_race b id expected = elim (find (λ (t : Task). t.id == id) b.tasks) [
  | none ↦ conflict
  | some current ↦
      if current.version == expected
      then conflict
      else version_conflict current.version expected
          (if current.status == TaskStatus.stale then claim_stale else retry)
]

-- UPDATE tasks SET …,version=version+1 WHERE id=? AND version=?, refused unless one row matched.
unfoldable pub write_task : Board → String → ℕ → (Task → Task) → Result Board
unfolding lost_version_race
write_task b id expected change =
    let matches = λ (t : Task). t.id == id && t.version == expected in
    if count matches b.tasks == 1
    then ok (record b {
      tasks =
          update matches (λ t. let new : Task = change t in record new { version = t.version + 1 })
            b.tasks;
    })
    else err (lost_version_race b id expected)

-- Dependencies do not depend on checklists.
pub unmet_dependencies-items :
    (b : Board) (items : List Item) (task_id : String)
    → unmet_dependencies (record b { items = items }) task_id ≡ unmet_dependencies b task_id
unfolding unmet_dependencies list_dependencies
unmet_dependencies-items b items task_id = refl
