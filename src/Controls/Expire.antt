-- ===== src/Controls/Expire.antt =====
-- expireRunControls, and the listings that run it first. Each expiry is a transaction of its own,
-- so what a listing has expired stays when the listing is refused.
use taskboard.Access.{can_mutate}
use taskboard.Access.Principals.{Capability, Principal, has_capability}
use taskboard.Board.Queries.{TaskView, insert_event, str_before}
use taskboard.Board.Settings.{Call, Settings}
use taskboard.Claim.{get_for}
use taskboard.Common.{
  Bool, List, Result, String, [], any, count, err, forbidden, if◌then◌else◌, is_none, ltb, map,
  nat_eq, not, ok, order_by, refuse_if, select, some, string_eq, suc, update, zero, ℕ, ◌&&◌, ◌==◌,
  ◌>>=◌, ◌>>◌, ◌||◌, ◌∷◌,
}
use taskboard.Controls.{is_open}
use taskboard.Model.{
  Board, ControlKind, ControlStatus, Event, Run, RunControl, TaskStatus, Value, control_kind_eq,
  control_status_eq, escalation_eq, item_eq, status_eq, visibility_eq,
}
use taskboard.Stamp.{Time, stamp_before}

-- The statement of one expiry.
abbrev pub expiring : Time → String → RunControl → Bool
expiring now id c = c.id == id && is_open c.status && not (stamp_before now c.expires_at)

abbrev pub expired_control : Time → RunControl → RunControl
expired_control now c = record c {
  status = ControlStatus.expired;
  updated_at = now;
  decided_at = some now;
}

expiry_event : Call → ℕ → RunControl → Event
expiry_event call draws item = record {
  id = call.new_id draws;
  task_id = item.task_id;
  run_id = item.target_run_id;
  kind = "task.control_updated";
  actor = "taskboard";
  message = "Run control expired";
  payload =
      ("control_id", Value.text item.id)
      ∷ ("control_kind", Value.control_kind_value item.kind)
      ∷ ("control_status", Value.control_status_value ControlStatus.expired)
      ∷ [];
  created_at = call.now;
}

-- One turn of the loop: the board, and how many identifiers are draws.
unfoldable pub expire_one : Call → ℕ → Board → RunControl → Board × ℕ
unfolding expiry_event
expire_one call draws b item =
    if ltb call.now item.expires_at
      || item.status == ControlStatus.completed
      || item.status == ControlStatus.rejected
      || item.status == ControlStatus.expired
    then (b, draws)
    else if count (expiring call.now item.id) b.controls == 1
    then (
      insert_event
          (record b {
            controls = update (expiring call.now item.id) (expired_control call.now) b.controls;
          })
          (expiry_event call draws item),
      suc draws,
    )
    else (b, draws)

unfoldable pub expire_from : Call → ℕ → Board → List RunControl → Board
expire_from call draws b [] = b
expire_from call draws b (item ∷ items) =
    let (b', draws') = expire_one call draws b item in expire_from call draws' b' items

-- ORDER BY task_id,id
by_task : RunControl → RunControl → Bool
by_task c d = str_before c.task_id d.task_id || c.task_id == d.task_id && str_before c.id d.id

-- expireRunControls
unfoldable pub expire_run_controls : Call → Board → Board
unfolding by_task
expire_run_controls call b = expire_from call 0 b (order_by by_task b.controls)

-- ListTaskRunControls, latest identifier first
list_task_run_controls : Board → String → List RunControl
list_task_run_controls b task_id =
    order_by (λ (c d : RunControl). str_before d.id c.id)
      (select (λ (c : RunControl). c.task_id == task_id) b.controls)

addressed : Principal → List RunControl → List RunControl
addressed principal items =
    if principal.agent
    then select (λ (c : RunControl). c.target_agent == principal.id) items
    else items

-- ListTaskRunControlsFor
unfoldable pub list_task_run_controls_for :
    Settings → Call → Board → String → Principal → Board × Result (List RunControl)
unfolding list_task_run_controls addressed
list_task_run_controls_for settings call b task_id principal =
    let b' = expire_run_controls call b in
    (
      b',
      do
        task ← get_for settings call b' task_id principal
        refuse_if
            (principal.agent
              && (not (has_capability principal.identity Capability.task_control)
                  || not (can_mutate task.row principal)))
            forbidden
        ok (addressed principal (list_task_run_controls b' task.row.id)),
    )

abbrev pub first_rows {ℓ} : {A : Type ℓ} → ℕ → List A → List A
first_rows zero xs = []
first_rows (suc n) [] = []
first_rows (suc n) (x ∷ xs) = x ∷ first_rows n xs

abbrev listing_limit : ℕ → ℕ
listing_limit limit = if limit == 0 || ltb 200 limit then 100 else limit

-- ListAgentRunControls
list_agent_run_controls : Board → String → ℕ → List RunControl
list_agent_run_controls b agent limit = first_rows (listing_limit limit) (
    order_by (λ (c d : RunControl). str_before c.id d.id)
      (select (λ (c : RunControl). c.target_agent == agent && is_open c.status) b.controls))

-- ListPendingRunControlsFor; a refusal comes before the expiry.
unfoldable pub list_pending_run_controls_for :
    Call → Board → ℕ → Principal → Board × Result (List RunControl)
unfolding list_agent_run_controls
list_pending_run_controls_for call b limit principal =
    if not principal.agent || not (has_capability principal.identity Capability.task_control)
    then (b, err forbidden)
    else let b' = expire_run_controls call b in
      (b', ok (list_agent_run_controls b' principal.id limit))

-- An open cancellation of the run that has not expired.
cancel_pending : Time → Board → Run → Bool
cancel_pending now b run =
    any
      (λ (c : RunControl).
        is_open c.status
        && c.kind == ControlKind.cancel
        && ltb now c.expires_at
        && c.target_run_id == run.id)
      b.controls

pub record MarkedTask : Type 0 where
  pub task : TaskView
  pub cancel_requested : Bool

-- MarkCancelRequestedFor
unfoldable pub mark_cancel_requested_for :
    Time → Board → List MarkedTask → Principal → List MarkedTask
unfolding cancel_pending
mark_cancel_requested_for now b tasks principal =
    if principal.agent
    then tasks
    else map
        (λ (m : MarkedTask). record m {
          cancel_requested =
              any
                (λ (r : Run).
                  r.status == TaskStatus.active && is_none r.ended_at && cancel_pending now b r)
                m.task.runs;
        })
        tasks
