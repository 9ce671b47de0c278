-- ===== src/Lease/Sweep.antt =====
-- What a sweep ends and keeps.
use taskboard.Board.Queries.{live_on}
use taskboard.Board.Settings.{Call, Settings}
use taskboard.Common.{
  Bool-cases, In, In-any, In-update, String, any, any-In, any-false-In, arith, count,
  count-update_zero, count-zero-any, eq_iff, false, if◌then◌else◌, inl, inr, is_none-none, ltb,
  ltb→lt, nat_eq, none, not, refl, some, string_eq, subst, true, update, ◌&&◌, ◌+◌, ◌<◌, ◌==◌, ◌≡◌,
  ◌≤◌,
}
use taskboard.Lease.{
  abandoned, ended, expired, heartbeat, renewable, renewed, sweep_stale, swept_task,
}
use taskboard.Model.{
  Board, Run, Task, TaskStatus, control_kind_eq, control_status_eq, escalation_eq, item_eq,
  message_eq, status_beq_iff, status_eq, visibility_eq,
}
use taskboard.Stamp.{Time, second, stamp_before}
use taskboard.Stamp.Order.{stamp_before-bound, stamp_before_of_second}
use taskboard.Text.{trim_space}

sweep_stale-In :
    (now : Time) (b : Board) (r : Run)
    → In r b.runs
    → In (if expired now r then ended now r else r) (sweep_stale now b).runs
unfolding sweep_stale
sweep_stale-In now b r m = In-update (expired now) (ended now) r b.runs m

-- A sweep leaves every run as it is whose lease ends at least one second after the sweep.
pub sweep_stale-keeps :
    (now : Time) (b : Board) (r : Run)
    → In r b.runs
    → now + second ≤ r.lease_expires
    → In r (sweep_stale now b).runs
sweep_stale-keeps now b r m late =
    let held : stamp_before r.lease_expires now ≡ false =
      elim (Bool-cases (stamp_before r.lease_expires now)) [
        | inl before ↦ absurd (omega (arith, stamp_before-bound r.lease_expires now before))
        | inr after ↦ after
      ] in
    let quiet : expired now r ≡ false = ground (arith, held) in
    subst (λ x. In x (sweep_stale now b).runs) (rw quiet refl) (sweep_stale-In now b r m)

-- A sweep gives every active run, not ended before, whose lease has ended at least one second ago,
-- the status stale and the time of the sweep as its end, and leaves the other fields.
pub sweep_stale-ends :
    (now : Time) (b : Board) (r : Run)
    → In r b.runs
    → r.status ≡ TaskStatus.active
    → r.ended_at ≡ none
    → r.lease_expires + second ≤ now
    → In (record r { status = TaskStatus.stale; ended_at = some now }) (sweep_stale now b).runs
sweep_stale-ends now b r m active unended early =
    let out : expired now r ≡ true =
      rw (active, unended, stamp_before_of_second r.lease_expires now early) refl in
    subst (λ x. In x (sweep_stale now b).runs) (rw out refl) (sweep_stale-In now b r m)

-- The lease of the run has not ended a second or longer ago.
abbrev pub IsHeld : Time → Run → Type 0
IsHeld now r =
    (r.status ≡ TaskStatus.active) × (r.ended_at ≡ none) × (now < r.lease_expires + second)

stamp_before-held : (a now : Time) → stamp_before a now ≡ false → now < a + second
stamp_before-held a now h = elim (Bool-cases (ltb now (a + second))) [
  | inl soon ↦ ltb→lt now (a + second) soon
  | inr late ↦ let before = stamp_before_of_second a now (ground arith) in absurd (ground arith)
]

unexpired-held :
    (now : Time) (b : Board) (r : Run)
    → In r (sweep_stale now b).runs
    → r.status ≡ TaskStatus.active
    → r.ended_at ≡ none
    → now < r.lease_expires + second
unfolding sweep_stale
unexpired-held now b r m active unended =
    let zero_left =
      count-update_zero (expired now) (expired now) (ended now) b.runs (λ k e. e)
        (λ k e. ground arith) in
    let runs = update (expired now) (ended now) b.runs in
    let quiet : expired now r ≡ false =
      any-false-In (expired now) r runs (count-zero-any (expired now) runs zero_left) m in
    let open_run = rw (active, unended) at quiet in stamp_before-held r.lease_expires now open_run

-- An active task with a stale run has another run that holds it.
kept_task :
    (now : Time) (b : Board) (t : Task) (r : Run)
    → In t (sweep_stale now b).tasks
    → t.status ≡ TaskStatus.active
    → In r (sweep_stale now b).runs
    → r.task_id ≡ t.id
    → r.status ≡ TaskStatus.stale
    → (k : Run) × In k (sweep_stale now b).runs × (k.task_id ≡ t.id) × IsHeld now k
unfolding sweep_stale swept_task abandoned
kept_task now b t r m active stored mine stale =
    let runs = update (expired now) (ended now) b.runs in
    let mark = λ (u : Task). record u {
      status = TaskStatus.stale;
      version = u.version + 1;
      updated_at = now;
    } in
    let here = swept_task runs now in
    let zero_left = count-update_zero here here mark b.tasks (λ u e. e) (λ u e. refl) in
    let rows = update here mark b.tasks in
    let quiet : here t ≡ false = any-false-In here t rows (count-zero-any here rows zero_left) m in
    let stale_here = λ (x : Run). x.task_id == t.id && x.status == TaskStatus.stale in
    let live_here = λ (x : Run). live_on t.id x && not (stamp_before x.lease_expires now) in
    let hit : stale_here r ≡ true = rw (stale, mine, (eq_iff t.id t.id).1 refl) refl in
    let one_stale : any stale_here runs ≡ true = In-any stale_here r runs stored hit in
    let one_live : any live_here runs ≡ true = ground (arith, quiet, active, one_stale) in
    let (k, there, live) = any-In live_here runs one_live in
    (
      k,
      there,
      (eq_iff k.task_id t.id).0 (ground arith),
      (
        (status_beq_iff k.status TaskStatus.active).0 (ground arith),
        is_none-none k.ended_at (ground arith),
        stamp_before-held k.lease_expires now (ground arith),
      ),
    )

-- After a sweep, the lease of every active run that is not ended ends less than one second before
-- the time of the sweep, or later. A task that is active and has a stale run also has such a run.
pub sweep_stale-none :
    (now : Time) (b : Board)
    → ((r : Run)
        → In r (sweep_stale now b).runs
        → r.status ≡ TaskStatus.active
        → r.ended_at ≡ none
        → now < r.lease_expires + second)
      × ((t : Task) (r : Run)
          → In t (sweep_stale now b).tasks
          → t.status ≡ TaskStatus.active
          → In r (sweep_stale now b).runs
          → r.task_id ≡ t.id
          → r.status ≡ TaskStatus.stale
          → (k : Run) × In k (sweep_stale now b).runs × (k.task_id ≡ t.id) × IsHeld now k)
sweep_stale-none now b =
    (unexpired-held now b, λ t r m active k mine stale. kept_task now b t r m active k mine stale)

-- A heartbeat protects its run: if it is the one open run with its identifiers, a sweep at least
-- one second before one lease duration has passed since the heartbeat keeps the run as the
-- heartbeat left it.
pub heartbeat-sweep_stale :
    (settings : Settings) (call : Call) (b : Board) (task_id run_id : String) (r : Run) (now : Time)
    → In r b.runs
    → renewable (trim_space task_id) (trim_space run_id) r ≡ true
    → count (renewable (trim_space task_id) (trim_space run_id)) b.runs ≡ 1
    → now + second ≤ call.now + settings.lease_duration
    → In
        (renewed settings call.now r)
        (sweep_stale now (heartbeat settings call b task_id run_id).0).runs
unfolding heartbeat
heartbeat-sweep_stale settings call b task_id run_id r now m mine one early =
    let here = renewable (trim_space task_id) (trim_space run_id) in
    let single : (count here b.runs == 1) ≡ true = ground (arith, one) in
    let after = (heartbeat settings call b task_id run_id).0 in
    let stored : In (renewed settings call.now r) after.runs = rw single (
      subst (λ x. In x (update here (renewed settings call.now) b.runs)) (rw mine refl)
        (In-update here (renewed settings call.now) r b.runs m)) in
    sweep_stale-keeps now after (renewed settings call.now r) stored early
