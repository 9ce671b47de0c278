-- ===== src/Update/Allowed.antt =====
-- What an agent must be allowed for its update to succeed.
use taskboard.Access.Principals.{Capability, Principal, has_capability}
use taskboard.Board.Queries.{TaskView}
use taskboard.Board.Settings.{Call, Settings}
use taskboard.Claim.{get_for}
use taskboard.Common.{
  >>=-eq-ok, Option, String, any, ap, arith, false, if-taken, inl, inr, is_none, is_some, nat_eq,
  none, not, ok, ok_injective, refuse_if-eq-ok, refuse_if-false, some, string_eq, sym, true, ◌&&◌,
  ◌==◌, ◌||◌, ◌≡◌, ◌⊎◌,
}
use taskboard.Model.{
  Board, Event, Run, TaskStatus, UpdateRequest, control_kind_eq, control_status_eq, escalation_eq,
  item_eq, status_eq, visibility_eq,
}
use taskboard.Replay.{replay_idempotency}
use taskboard.Text.{trim_space}
use taskboard.Update.Agents.{
  check_agent_fields, check_leased, check_run, check_sensitive, leased_by, may_update,
  replayed_update, target_of, update_after, update_by_agent, update_checked, update_for,
}

-- A checked update: what the agent sees, and what its request leaves alone.
pub record Allowed (settings : Settings) (call : Call) (b : Board) (task_id : String)
    (r : UpdateRequest) (p : Principal) : Type 0 where
  pub task : TaskView
  pub seen : get_for settings call b task_id p ≡ ok task
  pub allowed : may_update task p r ≡ true
  pub same_lane : is_none r.visibility ≡ true
  pub own_run :
      not (trim_space r.run_id == "")
        && any (λ (s : Run). s.id == trim_space r.run_id && not (s.agent == p.id)) task.runs
      ≡ false

update_checked-Allowed :
    (settings : Settings) (call : Call) (b : Board) (task_id : String) (r : UpdateRequest)
    (p : Principal) (result : Board × TaskView)
    → p.agent ≡ true
    → update_checked settings call b task_id r p ≡ ok result
    → Allowed settings call b task_id r p
unfolding update_checked check_run check_agent_fields
update_checked-Allowed settings call b task_id r p result agent h =
    let (task, seen, h1) = >>=-eq-ok (get_for settings call b task_id p) _ h in
    let other = any (λ (s : Run). s.id == trim_space r.run_id && not (s.agent == p.id)) task.runs in
    let (u, run, h2) = >>=-eq-ok (check_run task r p) _ h1 in
    let own = refuse_if-false (p.agent && not (trim_space r.run_id == "") && other) _ u run in
    let (may, h3) = refuse_if-eq-ok (not (may_update task p r)) _ _ h2 in
    let (v, fields, h4) = >>=-eq-ok (check_agent_fields r p) _ h3 in
    let (lane, h5) = refuse_if-eq-ok (p.agent && is_some r.visibility) _ _ fields in
    record {
      task = task;
      seen = seen;
      allowed = ground arith;
      same_lane = ground arith;
      own_run = ground arith;
    }

-- The capabilities that an agent needs for a request.
abbrev pub HasCapabilities : Settings → Call → Board → String → UpdateRequest → Principal → Type 0
HasCapabilities settings call b task_id r p =
    ((r.status == TaskStatus.cancelled || not (target_of r.duplicate_of == ""))
        && not (has_capability p.identity Capability.task_sensitive)
      ≡ false)
    × (leased_by settings call b task_id r p || has_capability p.identity Capability.task_update
        ≡ true)
    × ((r.status == TaskStatus.done
          && not (leased_by settings call b task_id r p)
          && not (has_capability p.identity Capability.task_complete))
        ≡ false)

update_after-Allowed :
    (settings : Settings) (call : Call) (b : Board) (task_id : String) (r : UpdateRequest)
    (p : Principal) (replay : Option Event) (result : Board × TaskView)
    → p.agent ≡ true
    → ((r.status == TaskStatus.cancelled || not (target_of r.duplicate_of == ""))
          && not (has_capability p.identity Capability.task_sensitive)
        ≡ false)
    → update_after settings call b task_id r p replay ≡ ok result
    → (result.0 ≡ b)
      ⊎ (Allowed settings call b task_id r p × HasCapabilities settings call b task_id r p)
unfolding update_after replayed_update check_leased
update_after-Allowed settings call b task_id r p (some event) result agent able h =
    let (task, seen, h1) = >>=-eq-ok (get_for settings call b event.task_id p) _ h in
    inl (sym (ap (λ (x : Board × TaskView). x.0) (ok_injective h1)))
update_after-Allowed settings call b task_id r p none result agent able h =
    let leased = leased_by settings call b task_id r p in
    let (u, checked, h1) = >>=-eq-ok (check_leased leased r p.identity) _ h in
    let (updates, c1) =
      refuse_if-eq-ok (not leased && not (has_capability p.identity Capability.task_update)) _ _
        checked in
    let completes = refuse_if-false _ _ u c1 in
    inr (
      update_checked-Allowed settings call b task_id r p result agent h1,
      (able, ground arith, completes),
    )

-- An update by an agent through the interface either is a replay, which leaves the board
-- unchanged, or the agent sees the task and may update it, the request leaves the lane and names
-- no run of another agent on it, the agent has the sensitive capability where it cancels or marks
-- a duplicate, holds the lease or the update capability, and holds the lease or the completion
-- capability where it marks the task done.
pub update_for-Allowed :
    (settings : Settings) (digest : String → UpdateRequest → String) (call : Call) (b : Board)
    (task_id : String) (request : UpdateRequest) (p : Principal) (result : Board × TaskView)
    → p.agent ≡ true
    → update_for settings digest call b task_id request p ≡ ok result
    → (result.0 ≡ b)
      ⊎ (Allowed settings call b task_id
            (record request { idempotency_hash = digest task_id request })
            p
          × HasCapabilities settings call b task_id
              (record request { idempotency_hash = digest task_id request })
              p)
unfolding update_for update_by_agent check_sensitive
update_for-Allowed settings digest call b task_id request p result agent h =
    let go = if-taken p.agent _ _ agent h in
    let (u, sensitive, h1) = >>=-eq-ok (check_sensitive request p.identity) _ go in
    let (able, skips) =
      refuse_if-eq-ok
        ((request.status == TaskStatus.cancelled || not (target_of request.duplicate_of == ""))
          && not (has_capability p.identity Capability.task_sensitive))
        _ _ sensitive in
    let (replay, searched, h2) =
      >>=-eq-ok
        (replay_idempotency b p "task_update" request.idempotency_key (digest task_id request)) _
        h1 in
    update_after-Allowed settings call b task_id
      (record request { idempotency_hash = digest task_id request }) p replay result agent able h2
