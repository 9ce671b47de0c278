-- ===== src/Controls/Steps.antt =====
-- What one operation does to the table of controls: nothing, a change of rows along the diagram, or
-- one new row.
use taskboard.Access.Principals.{Principal}
use taskboard.Board.Queries.{insert_event, load_task}
use taskboard.Board.Settings.{Call}
use taskboard.Common.{
  >>=-eq-ok, Bool, Bool-cases, List, Option, String, [], any, ap, arith, conflict, count, eq_iff,
  inl, inr, ltb, nat_eq, none, not, ok, ok_injective, refl, refuse_if-eq-ok, some, string_eq, subst,
  sym, true, update, ◌&&◌, ◌++◌, ◌==◌, ◌∙◌, ◌∷◌, ◌≡◌,
}
use taskboard.Controls.{insert_run_control, is_open}
use taskboard.Controls.Change.{Column, change_control, changed_control, set_column, set_time}
use taskboard.Controls.Create.{requested_control, same_open, write_requested}
use taskboard.Controls.Diagram.{
  Edge, Edge-is_open, Later, StatusPath, valid_control_transition-Edge,
}
use taskboard.Controls.Frame.{change_control-Changed}
use taskboard.Model.{
  Board, ControlStatus, CreateControlRequest, Run, RunControl, UpdateControlRequest,
  control_beq_iff, control_kind_eq, control_status_eq, escalation_eq, item_eq, status_eq,
  visibility_eq,
}
use taskboard.Stamp.{Time}

pub data ControlStep (xs : List RunControl) : List RunControl → Type 0 where
  kept : {ys : List RunControl} → ys ≡ xs → ControlStep xs ys
  changed :
      {ys : List RunControl} (here : RunControl → Bool) (change : RunControl → RunControl)
      → ((c : RunControl) → here c ≡ true → Later c (change c))
      → ((c : RunControl) → here c ≡ true → is_open c.status ≡ true)
      → ys ≡ update here change xs
      → ControlStep xs ys
  added :
      {ys : List RunControl} (item : RunControl)
      → (is_open item.status ≡ true
          → count (same_open item.task_id item.target_run_id item.kind) xs ≡ 0)
      → ys ≡ xs ++ item ∷ []
      → ControlStep xs ys

pub data ControlSteps (xs : List RunControl) : List RunControl → Type 0 where
  none_taken : ControlSteps xs xs
  then_step :
      {ys zs : List RunControl} → ControlSteps xs ys → ControlStep ys zs → ControlSteps xs zs

pub ControlSteps-one : {xs ys : List RunControl} → ControlStep xs ys → ControlSteps xs ys
ControlSteps-one step = ControlSteps.then_step ControlSteps.none_taken step

pub ControlSteps-trans :
    {xs ys zs : List RunControl} → ControlSteps xs ys → ControlSteps ys zs → ControlSteps xs zs
ControlSteps-trans p ControlSteps.none_taken = p
ControlSteps-trans p (ControlSteps.then_step q step) =
    ControlSteps.then_step (ControlSteps-trans p q) step

pub insert_run_control-step :
    (b b' : Board) (item : RunControl)
    → insert_run_control b item ≡ ok b'
    → b'.controls
      ≡ b.controls
        ++ record item { acknowledged_at = none; decided_at = none; completed_at = none } ∷ []
unfolding insert_run_control
insert_run_control-step b b' item h =
    elim (Bool-cases (any (λ (c : RunControl). c.id == item.id) b.controls)) [
      | inl taken ↦ let go = rw taken at h in cc
      | inr free ↦ let go = rw free at h in sym (ap (λ (x : Board). x.controls) (ok_injective go))
    ]

pub write_requested-step :
    (call : Call) (b b' : Board) (task_id : String) (run : Run) (request : CreateControlRequest)
    (principal : Principal) (item : RunControl)
    → (run.id == request.target_run_id) ≡ true
    → write_requested call b task_id run request principal ≡ ok (b', item)
    → ControlStep b.controls b'.controls
unfolding write_requested insert_event
write_requested-step call b b' task_id run request principal item target h =
    let (current, loaded, h1) = >>=-eq-ok (load_task b task_id) _ h in
    let (same, h2) =
      refuse_if-eq-ok (not (current.version == request.expected_version)) conflict _ h1 in
    let (fresh, h3) =
      refuse_if-eq-ok
        (ltb 0 (count (same_open task_id request.target_run_id request.kind) b.controls)) conflict _
        h2 in
    let new = requested_control call task_id run request principal current.version in
    let (b1, put_in, h4) = >>=-eq-ok (insert_run_control b new) _ h3 in
    let named : run.id ≡ request.target_run_id =
      ground (arith, eq_iff run.id request.target_run_id) in
    ControlStep.added new (λ o. rw named (ground arith))
      (sym (ap (λ (p : Board × RunControl). p.0.controls) (ok_injective h4))
        ∙ insert_run_control-step b b1 new put_in)

set_time-Later :
    (now : Time) (request : UpdateControlRequest) (from : ControlStatus) (c : RunControl)
    → c.status ≡ from
    → Edge from request.status
    → Later c (changed_control now request c)
set_time-Later now request from c same edge = go (set_column request.status)
  where
    go :
        (column : Option Column)
        → Later c (
            set_time column now (record c {
              status = request.status;
              outcome_note = request.outcome_note;
              updated_at = now;
            }))
    go none = record {
      same_id = refl;
      same_task = refl;
      same_run = refl;
      same_agent = refl;
      same_kind = refl;
      path =
          subst (λ s. StatusPath s request.status) (sym same)
            (StatusPath.follow edge StatusPath.stay);
    }
    go (some Column.acknowledged_column) = record {
      same_id = refl;
      same_task = refl;
      same_run = refl;
      same_agent = refl;
      same_kind = refl;
      path =
          subst (λ s. StatusPath s request.status) (sym same)
            (StatusPath.follow edge StatusPath.stay);
    }
    go (some Column.decided_column) = record {
      same_id = refl;
      same_task = refl;
      same_run = refl;
      same_agent = refl;
      same_kind = refl;
      path =
          subst (λ s. StatusPath s request.status) (sym same)
            (StatusPath.follow edge StatusPath.stay);
    }
    go (some Column.completed_column) = record {
      same_id = refl;
      same_task = refl;
      same_run = refl;
      same_agent = refl;
      same_kind = refl;
      path =
          subst (λ s. StatusPath s request.status) (sym same)
            (StatusPath.follow edge StatusPath.stay);
    }

pub change_control-step :
    (call : Call) (b b' : Board) (control_id : String) (request : UpdateControlRequest)
    (principal : Principal) (shown : RunControl)
    → change_control call b control_id request principal ≡ ok (b', shown)
    → ControlStep b.controls b'.controls
change_control-step call b b' control_id request principal shown h =
    let c = change_control-Changed call b b' control_id request principal shown h in
    let edge = valid_control_transition-Edge c.item.status request.status c.valid in
    let from : (d : RunControl)
        → (d.id == c.item.id && d.status == c.item.status) ≡ true
        → d.status ≡ c.item.status =
      λ d k. ground (arith, control_beq_iff d.status c.item.status) in
    ControlStep.changed (λ (d : RunControl). d.id == c.item.id && d.status == c.item.status)
      (changed_control call.now request)
      (λ d k. set_time-Later call.now request c.item.status d (from d k) edge)
      (λ d k. subst (λ s. is_open s ≡ true) (sym (from d k)) (Edge-is_open edge)) c.written
