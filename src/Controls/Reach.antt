-- ===== src/Controls/Reach.antt =====
-- The expiry and the review as steps on the controls, and the boards that the operations reach.
use taskboard.Access.Principals.{Principal}
use taskboard.Board.Queries.{insert_event, load_task}
use taskboard.Board.Settings.{Call}
use taskboard.Common.{
  >>=-eq-ok, Bool-cases, List, Option, String, [], ap, arith, conflict, count, find, inl, inr,
  is_none, ltb, nat_eq, none, ok, ok_injective, refl, refuse_if-eq-ok, some, string_eq, subst, sym,
  ℕ, ◌&&◌, ◌==◌, ◌||◌, ◌∙◌, ◌∷◌, ◌≡◌,
}
use taskboard.Controls.{insert_run_control, is_open, one_row}
use taskboard.Controls.Diagram.{Edge, StatusPath}
use taskboard.Controls.Expire.{
  expire_from, expire_one, expire_run_controls, expired_control, expiring,
}
use taskboard.Controls.Frame.{one_row-eq-ok}
use taskboard.Controls.Recover.{
  check_recover, close_target, completed_control, live_lease, open_control, requeue_reviewed,
  run_or_invalid, settle_control, write_review,
}
use taskboard.Controls.Steps.{
  ControlStep, ControlSteps, ControlSteps-one, ControlSteps-trans, insert_run_control-step,
}
use taskboard.Model.{
  Board, ControlKind, ControlStatus, ReviewRequeueRequest, Run, RunControl, Task, TaskStatus,
  control_kind_eq, control_status_eq, escalation_eq, item_eq, status_eq, visibility_eq,
}
use taskboard.Stamp.{Time}

expire_one-step :
    (call : Call) (draws : ℕ) (b : Board) (item : RunControl)
    → ControlStep b.controls (expire_one call draws b item).0.controls
unfolding expire_one insert_event
expire_one-step call draws b item =
    elim (Bool-cases (
      ltb call.now item.expires_at
      || item.status == ControlStatus.completed
      || item.status == ControlStatus.rejected
      || item.status == ControlStatus.expired)) [
        | inl early ↦ rw early (ControlStep.kept refl)
        | inr late ↦ elim (Bool-cases (count (expiring call.now item.id) b.controls == 1)) [
          | inl one ↦
              rw (late, one)
                (ControlStep.changed (expiring call.now item.id) (expired_control call.now)
                  (λ c k. record {
                    same_id = refl;
                    same_task = refl;
                    same_run = refl;
                    same_agent = refl;
                    same_kind = refl;
                    path = StatusPath.follow (Edge.expire c.status (ground arith)) StatusPath.stay;
                  })
                  (λ c k. ground arith) refl)
          | inr other ↦ rw (late, other) (ControlStep.kept refl)
        ]
      ]

expire_from-steps :
    (call : Call) (draws : ℕ) (b : Board) (items : List RunControl)
    → ControlSteps b.controls (expire_from call draws b items).controls
unfolding expire_from
expire_from-steps call draws b [] = ControlSteps.none_taken
expire_from-steps call draws b (item ∷ items) =
    let after = expire_one call draws b item in
    ControlSteps-trans (ControlSteps-one (expire_one-step call draws b item))
      (expire_from-steps call after.1 after.0 items)

pub expire_run_controls-steps :
    (call : Call) (b : Board) → ControlSteps b.controls (expire_run_controls call b).controls
unfolding expire_run_controls
expire_run_controls-steps call b = expire_from-steps call 0 b _

close_target-controls :
    (now : Time) (b b' : Board) (current : Task) (run : Run) (kind : ControlKind)
    → close_target now b current run ≡ ok (b', kind)
    → b'.controls ≡ b.controls
unfolding close_target
close_target-controls now b b' current run kind h =
    elim (Bool-cases (current.status == TaskStatus.stale)) [
      | inl stale_task ↦
          let go = rw stale_task at h in
          sym (
            ap (λ (p : Board × ControlKind). p.0.controls)
              (ok_injective (refuse_if-eq-ok _ conflict _ go).1))
      | inr stopped_task ↦ elim (Bool-cases (ltb 0 (count (live_lease now current.id) b.runs))) [
        | inl live ↦ let go = rw (stopped_task, live) at h in cc
        | inr free ↦ elim (Bool-cases (is_none run.ended_at)) [
          | inr over ↦
              let go = rw (stopped_task, free, over) at h in
              sym (ap (λ (p : Board × ControlKind). p.0.controls) (ok_injective go))
          | inl unended ↦
              let go = rw (stopped_task, free, unended) at h in
              let (rs, one, last) = >>=-eq-ok (one_row _ _ b.runs) _ go in
              sym (ap (λ (p : Board × ControlKind). p.0.controls) (ok_injective last))
        ]
      ]
    ]

requeue_reviewed-controls :
    (now : Time) (b b' : Board) (current : Task) (request : ReviewRequeueRequest)
    (principal : Principal)
    → requeue_reviewed now b current request principal ≡ ok b'
    → b'.controls ≡ b.controls
unfolding requeue_reviewed
requeue_reviewed-controls now b b' current request principal h =
    let (ts, one, last) = >>=-eq-ok (one_row _ _ b.tasks) _ h in
    sym (ap (λ (x : Board). x.controls) (ok_injective last))

settle_control-step :
    (call : Call) (b b' : Board) (current : Task) (run : Run) (kind : ControlKind)
    (request : ReviewRequeueRequest) (principal : Principal) (target : Option RunControl)
    (id : String) (draws : ℕ)
    → settle_control call b current run kind request principal target ≡ ok (b', id, draws)
    → ControlStep b.controls b'.controls
unfolding settle_control
settle_control-step call b b' current run kind request principal none id draws h =
    let (after, put_in, last) = >>=-eq-ok (insert_run_control b _) _ h in
    ControlStep.added _ (λ o. absurd (ground arith))
      (sym (ap (λ (p : Board × String × ℕ). p.0.controls) (ok_injective last))
        ∙ insert_run_control-step b after _ put_in)
settle_control-step call b b' current run kind request principal (some c) id draws h =
    let here = λ (d : RunControl). d.id == c.id && is_open d.status in
    let change = completed_control call.now request.review_note in
    let (cs, one, last) = >>=-eq-ok (one_row here change b.controls) _ h in
    ControlStep.changed here change
      (λ d k. record {
        same_id = refl;
        same_task = refl;
        same_run = refl;
        same_agent = refl;
        same_kind = refl;
        path = StatusPath.follow (Edge.complete d.status (ground arith)) StatusPath.stay;
      })
      (λ d k. ground arith)
      (sym (ap (λ (p : Board × String × ℕ). p.0.controls) (ok_injective last))
        ∙ (one_row-eq-ok here change b.controls cs one).1)

pub write_review-step :
    (call : Call) (b b' : Board) (task_id : String) (request : ReviewRequeueRequest)
    (principal : Principal) (id : String)
    → write_review call b task_id request principal ≡ ok (b', id)
    → ControlStep b.controls b'.controls
unfolding write_review insert_event
write_review-step call b b' task_id request principal id h =
    let (current, loaded, h1) = >>=-eq-ok (load_task b task_id) _ h in
    let (u, checked, h2) = >>=-eq-ok (check_recover current request principal) _ h1 in
    let (run, target, h3) =
      >>=-eq-ok
        (run_or_invalid
          (find (λ (r : Run). r.id == request.target_run_id && r.task_id == task_id) b.runs))
        _ h2 in
    let ((b1, kind), closed, h4) = >>=-eq-ok (close_target call.now b current run) _ h3 in
    let (b2, queued, h5) =
      >>=-eq-ok (requeue_reviewed call.now b1 current request principal) _ h4 in
    let ((b3, control_id, draws), settled, h6) =
      >>=-eq-ok
        (settle_control call b2 current run kind request principal
          (open_control b2 task_id request.target_run_id kind))
        _ h5 in
    let start : b2.controls ≡ b.controls =
      requeue_reviewed-controls call.now b1 b2 current request principal queued
      ∙ close_target-controls call.now b b1 current run kind closed in
    let step =
      settle_control-step call b2 b3 current run kind request principal
        (open_control b2 task_id request.target_run_id kind) control_id draws settled in
    subst (λ cs. ControlStep b.controls cs)
      (ap (λ (p : Board × String). p.0.controls) (ok_injective h6))
      (subst (λ cs. ControlStep cs b3.controls) start step)
