-- ===== src/Lease/Progress.antt =====
-- HeartbeatFor and runProgress of internal/service/service.go. The messages that wait for the run
-- are left out of the answer.
use taskboard.Access.{can_mutate}
use taskboard.Access.Principals.{Capability, Principal, has_capability}
use taskboard.Board.Queries.{TaskView, found, found-eq-ok}
use taskboard.Board.Settings.{Call, Settings}
use taskboard.Checklist.{is_terminal}
use taskboard.Claim.{get_for}
use taskboard.Common.{
  >>=-eq-ok, Bool, Bool-cases, Error, List, Option, Result, String, [], arith, count, err, false,
  find, forbidden, if◌then◌else◌, inl, inr, is_nil, leb, length, ltb, max, nat_eq, not, ok,
  rate_limit, refl, refuse_if, refuse_if-eq-ok, select, some, string_eq, true, ℕ, ◌&&◌, ◌*◌, ◌-◌,
  ◌/◌, ◌==◌, ◌>>=◌, ◌>>◌, ◌∷◌, ◌≡◌, ◌⊎◌,
}
use taskboard.Controls.Expire.{list_pending_run_controls_for}
use taskboard.Lease.{heartbeat, holds_lease}
use taskboard.Model.{
  Board, Item, ItemStatus, Run, RunControl, control_kind_eq, control_status_eq, escalation_eq,
  item_eq, message_eq, status_eq, visibility_eq,
}
use taskboard.Stamp.{Time, minute, second}
use taskboard.Text.{trim_space}

pub record RunProgress : Type 0 where
  pub total_items : ℕ
  pub completed_items : ℕ
  pub current_item_id : String
  pub last_changed : Time
  pub age_seconds : ℕ
  pub stale_after_seconds : ℕ
  pub is_stale : Bool

last_changed_of : Time → List Item → Time
last_changed_of latest [] = latest
last_changed_of latest (i ∷ is) = last_changed_of (max latest i.updated_at) is

-- The last current item of the loop.
current_of : String → List Item → String
current_of id [] = id
current_of id (i ∷ is) = current_of (if i.status == ItemStatus.active then i.id else id) is

-- runProgress; the difference of two times is not below zero.
unfoldable pub run_progress : Settings → Time → TaskView → Run → RunProgress
unfolding last_changed_of current_of
run_progress settings now task run =
    let changed = last_changed_of run.started_at task.items in
    let stale_after = max (3 * settings.lease_duration) (10 * minute) in
    record {
      total_items = length task.items;
      completed_items = count (λ (i : Item). is_terminal i.status) task.items;
      current_item_id = current_of "" task.items;
      last_changed = changed;
      age_seconds = (now - changed) / second;
      stale_after_seconds = stale_after / second;
      is_stale = not (is_nil task.items) && leb stale_after (now - changed);
    }

pub record HeartbeatResult : Type 0 where
  pub run : Run
  pub progress : RunProgress
  pub controls : List RunControl

-- The run of the agent that the heartbeat is for.
abbrev pub own_run : TaskView → String → Principal → Option Run
own_run task run_id principal =
    find (λ (r : Run). r.id == trim_space run_id && r.agent == principal.id) task.runs

-- The controls that wait for the run, and the board after the expiry that their listing does.
pending_controls : Call → Board → String → String → Principal → Board × Result (List RunControl)
pending_controls call b task_id run_id principal =
    if not (has_capability principal.identity Capability.task_control)
    then (b, ok [])
    else let (b', listed) = list_pending_run_controls_for call b 100 principal in
      (
        b',
        listed >>= λ items.
            ok (
              select (λ (c : RunControl). c.task_id == task_id && c.target_run_id == run_id) items),
      )

answered :
    Settings
    → Call
    → TaskView
    → Run
    → Board × Result (List RunControl)
    → Board × Result HeartbeatResult
answered settings call task updated (b, listed) = (
  b,
  listed >>= λ controls. ok (record {
    run = updated;
    progress = run_progress settings call.now task updated;
    controls = controls;
  }),
)

renew :
    Settings
    → Call
    → TaskView
    → String
    → String
    → Principal
    → Board × Result Run
    → Board × Result HeartbeatResult
unfolding pending_controls answered
renew settings call task task_id run_id principal (b, err refused) = (b, err refused)
renew settings call task task_id run_id principal (b, ok updated) =
    answered settings call task updated (pending_controls call b task_id run_id principal)

-- The maximal duration of a run, none when it is zero.
abbrev pub too_long : Principal → Time → Run → Bool
too_long principal now run =
    ltb 0 principal.policy.max_run_duration
    && leb principal.policy.max_run_duration (now - run.started_at)

-- The guards of HeartbeatFor, and the run that it is for.
unfoldable pub check_heartbeat :
    Settings → Call → Board → String → String → Principal → Result (TaskView × Run)
check_heartbeat settings call b task_id run_id principal = do
  refuse_if (not principal.agent) forbidden
  task ← get_for settings call b task_id principal
  refuse_if (not (can_mutate task.row principal)) forbidden
  refuse_if
      (not (holds_lease task run_id principal call.now)
        && not (has_capability principal.identity Capability.task_update))
      forbidden
  run ← found (own_run task run_id principal)
  refuse_if (too_long principal call.now run) rate_limit
  ok (task, run)

after_check :
    Settings
    → Call
    → Board
    → String
    → String
    → Principal
    → Result (TaskView × Run)
    → Board × Result HeartbeatResult
unfolding renew
after_check settings call b task_id run_id principal (err refused) = (b, err refused)
after_check settings call b task_id run_id principal (ok (task, run)) =
    renew settings call task task_id run_id principal (heartbeat settings call b task_id run_id)

-- HeartbeatFor, outside a transaction: what it has written stays when it fails later.
unfoldable pub heartbeat_for :
    Settings → Call → Board → String → String → Principal → Board × Result HeartbeatResult
unfolding after_check
heartbeat_for settings call b task_id run_id principal =
    after_check settings call b task_id run_id principal
      (check_heartbeat settings call b task_id run_id principal)

-- A renewed lease: of an own run of the agent on a task that it may change, which has not run for
-- too long, and whose lease is current unless the agent may update tasks.
pub record Renews (settings : Settings) (call : Call) (b : Board) (task_id run_id : String)
    (principal : Principal) : Type 0 where
  pub agent : principal.agent ≡ true
  pub task : TaskView
  pub seen : get_for settings call b task_id principal ≡ ok task
  pub may : can_mutate task.row principal ≡ true
  pub run : Run
  pub own : own_run task run_id principal ≡ some run
  pub short : too_long principal call.now run ≡ false
  pub leased :
      (holds_lease task run_id principal call.now ≡ true)
      ⊎ (has_capability principal.identity Capability.task_update ≡ true)

check_heartbeat-Renews :
    (settings : Settings) (call : Call) (b : Board) (task_id run_id : String)
    (principal : Principal) (result : TaskView × Run)
    → check_heartbeat settings call b task_id run_id principal ≡ ok result
    → Renews settings call b task_id run_id principal
unfolding check_heartbeat
check_heartbeat-Renews settings call b task_id run_id principal result h =
    let (agent, h1) = refuse_if-eq-ok (not principal.agent) forbidden _ h in
    let (task, seen, h2) = >>=-eq-ok (get_for settings call b task_id principal) _ h1 in
    let (may, h3) = refuse_if-eq-ok (not (can_mutate task.row principal)) forbidden _ h2 in
    let lease = holds_lease task run_id principal call.now in
    let able = has_capability principal.identity Capability.task_update in
    let (leased, h4) = refuse_if-eq-ok (not lease && not able) forbidden _ h3 in
    let (run, own, h5) = >>=-eq-ok (found (own_run task run_id principal)) _ h4 in
    let (short, h6) = refuse_if-eq-ok (too_long principal call.now run) rate_limit _ h5 in
    record {
      agent = ground (arith, agent);
      task = task;
      seen = seen;
      may = ground (arith, may);
      run = run;
      own = found-eq-ok (own_run task run_id principal) run own;
      short = short;
      leased = elim (Bool-cases lease) [
        | inl held ↦ inl held
        | inr lapsed ↦ inr (ground (arith, leased, lapsed))
      ];
    }

-- A heartbeat through the interface either is refused with the board unchanged, or comes from an
-- agent for its own run of a task that it sees and may change, the run has not reached the maximal
-- duration, and its lease is current or the agent has the update capability.
pub heartbeat_for-Renews :
    (settings : Settings) (call : Call) (b : Board) (task_id run_id : String)
    (principal : Principal)
    → ((refused : Error) × (heartbeat_for settings call b task_id run_id principal
          ≡ (b, err refused)))
      ⊎ Renews settings call b task_id run_id principal
unfolding heartbeat_for after_check
heartbeat_for-Renews settings call b task_id run_id principal =
    go (check_heartbeat settings call b task_id run_id principal) refl
  where
    go :
        (checked : Result (TaskView × Run))
        → check_heartbeat settings call b task_id run_id principal ≡ checked
        → ((refused : Error) × (after_check settings call b task_id run_id principal checked
              ≡ (b, err refused)))
          ⊎ Renews settings call b task_id run_id principal
    go (err refused) e = inl (refused, refl)
    go (ok result) e =
        inr (check_heartbeat-Renews settings call b task_id run_id principal result e)
