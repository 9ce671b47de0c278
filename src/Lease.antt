-- ===== src/Lease.antt =====
-- Leases of runs: `Heartbeat` and `SweepStale` of internal/service/service.go, and `holdsLease` of
-- internal/service/messages.go. Heartbeat and SweepStale run outside a transaction, so what they
-- have written stays when they fail later.
pub mod Sweep
pub mod Progress
mod Samples
-- activeTaskRun
use taskboard.Access.Principals.{Principal}
use taskboard.Board.Queries.{TaskView, found, get_task, live_on}
use taskboard.Board.Settings.{Call, Settings}
use taskboard.Common.{
  Bool, List, Option, Result, String, any, count, err, false, find, if◌then◌else◌, is_none, ltb,
  nat_eq, none, not, not_found, some, string_eq, update, ◌&&◌, ◌+◌, ◌==◌, ◌>>=◌,
}
use taskboard.Model.{
  Board, Run, Task, TaskStatus, control_kind_eq, control_status_eq, escalation_eq, item_eq,
  status_eq, visibility_eq,
}
use taskboard.Stamp.{Time, stamp_before}
use taskboard.Text.{trim_space}

unfoldable pub active_task_run : List Run → String → Option Run
active_task_run runs run_id =
    find (λ (r : Run). r.id == run_id && r.status == TaskStatus.active && is_none r.ended_at) runs

-- holdsLease
unfoldable pub holds_lease : TaskView → String → Principal → Time → Bool
unfolding active_task_run
holds_lease task run_id principal now =
    principal.agent && elim (active_task_run task.runs (trim_space run_id)) [
      | none ↦ false
      | some r ↦ r.agent == principal.id && not (r.id == "") && ltb now r.lease_expires
    ]

-- The run that the statement of Heartbeat renews.
abbrev pub renewable : String → String → Run → Bool
renewable task_id run_id r =
    r.id == run_id && r.task_id == task_id && is_none r.ended_at && r.status == TaskStatus.active

abbrev pub renewed : Settings → Time → Run → Run
renewed settings now r = record r {
  lease_expires = now + settings.lease_duration;
  last_heartbeat = now;
}

-- Heartbeat: the board after it, and its answer. The row is found by the trimmed identifiers, and
-- the answer by the identifiers as they came.
pub heartbeat : Settings → Call → Board → String → String → Board × Result Run
heartbeat settings call b task_id run_id =
    let here = renewable (trim_space task_id) (trim_space run_id) in
    let b' = record b { runs = update here (renewed settings call.now) b.runs } in
    if count here b.runs == 1
    then (
      b',
      get_task settings call b' task_id >>= λ task.
          found (find (λ (r : Run). r.id == run_id) task.runs),
    )
    else (b, err not_found)

-- The runs that SweepStale ends.
abbrev pub expired : Time → Run → Bool
expired now r =
    is_none r.ended_at && r.status == TaskStatus.active && stamp_before r.lease_expires now

abbrev pub ended : Time → Run → Run
ended now r = record r { status = TaskStatus.stale; ended_at = some now }

-- The task has a stale run, and none that still holds it.
abandoned : List Run → Time → String → Bool
abandoned runs now task_id =
    any (λ (r : Run). r.task_id == task_id && r.status == TaskStatus.stale) runs
    && not (any (λ (r : Run). live_on task_id r && not (stamp_before r.lease_expires now)) runs)

-- The tasks that SweepStale marks stale.
pub swept_task : List Run → Time → Task → Bool
unfolding abandoned
swept_task runs now t = t.status == TaskStatus.active && abandoned runs now t.id

-- SweepStale
pub sweep_stale : Time → Board → Board
unfolding swept_task
sweep_stale now b =
    let runs = update (expired now) (ended now) b.runs in
    record b {
      runs = runs;
      tasks =
          update (swept_task runs now)
            (λ (t : Task). record t {
              status = TaskStatus.stale;
              version = t.version + 1;
              updated_at = now;
            })
            b.tasks;
    }
