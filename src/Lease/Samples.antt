-- ===== src/Lease/Samples.antt =====
-- A run with a lease until minute 101 and its heartbeat at minute 100, with a lease of two
-- minutes.
use taskboard.Common.{Error, In, arith, err, inl, none, refl, some, ◌*◌, ◌+◌, ◌<◌, ◌≡◌, ◌⊎◌}
use taskboard.Fixtures.{bot, call, held_board, held_run, settings}
use taskboard.Lease.{heartbeat, renewed, sweep_stale}
use taskboard.Lease.Progress.{Renews, heartbeat_for, heartbeat_for-Renews}
use taskboard.Lease.Sweep.{
  IsHeld, heartbeat-sweep_stale, sweep_stale-ends, sweep_stale-keeps, sweep_stale-none,
}
use taskboard.Model.{Run, Task, TaskStatus}
use taskboard.Stamp.{minute, second}
use taskboard.Text.{trim_space}

sweep_stale-keeps_example : In held_run (sweep_stale (100 * minute) held_board).runs
sweep_stale-keeps_example =
    sweep_stale-keeps (100 * minute) held_board held_run (inl refl) (omega arith)

sweep_stale-ends_example :
    In
      (record held_run { status = TaskStatus.stale; ended_at = some (102 * minute) })
      (sweep_stale (102 * minute) held_board).runs
sweep_stale-ends_example =
    sweep_stale-ends (102 * minute) held_board held_run (inl refl) refl refl (omega arith)

sweep_stale-none_example :
    ((r : Run)
      → In r (sweep_stale (102 * minute) held_board).runs
      → r.status ≡ TaskStatus.active
      → r.ended_at ≡ none
      → 102 * minute < r.lease_expires + second)
    × ((t : Task) (r : Run)
        → In t (sweep_stale (102 * minute) held_board).tasks
        → t.status ≡ TaskStatus.active
        → In r (sweep_stale (102 * minute) held_board).runs
        → r.task_id ≡ t.id
        → r.status ≡ TaskStatus.stale
        → (k : Run) × In k (sweep_stale (102 * minute) held_board).runs
          × (k.task_id ≡ t.id)
          × IsHeld (102 * minute) k)
sweep_stale-none_example = sweep_stale-none (102 * minute) held_board

heartbeat-sweep_stale_example :
    In
      (renewed settings (100 * minute) held_run)
      (sweep_stale (101 * minute) (heartbeat settings call held_board "t1" "r1").0).runs
unfolding trim_space
heartbeat-sweep_stale_example =
    heartbeat-sweep_stale settings call held_board "t1" "r1" held_run (101 * minute) (inl refl) refl
      refl (omega arith)

heartbeat_for-Renews_example :
    ((refused : Error) × (heartbeat_for settings call held_board "t1" "r1" bot
        ≡ (held_board, err refused)))
    ⊎ Renews settings call held_board "t1" "r1" bot
heartbeat_for-Renews_example = heartbeat_for-Renews settings call held_board "t1" "r1" bot
