-- ===== src/Controls/Frame.antt =====
-- The operations on run controls taken apart: their guards, and what they write to the controls.
use taskboard.Access.Principals.{Principal}
use taskboard.Board.Queries.{insert_event, load_task}
use taskboard.Board.Settings.{Call}
use taskboard.Common.{
  >>=-eq-ok, Bool, Bool-cases, List, Option-cases, String, ap, arith, conflict, count, find,
  forbidden, inl, inr, nat_eq, not, ok, ok_injective, refuse_if-eq-ok, some, string_eq, sym, true,
  update, validation, ℕ, ◌&&◌, ◌==◌, ◌∙◌, ◌≡◌,
}
use taskboard.Controls.{load_run_control, one_row, valid_control_transition}
use taskboard.Controls.Change.{
  change_control, changed_control, check_change, completion_effect, write_control,
}
use taskboard.Controls.Complete.{
  complete_on, complete_run_control, requeue_task, stop_run, stoppable, target_row,
}
use taskboard.Model.{
  Board, ControlKind, ControlStatus, Run, RunControl, Task, UpdateControlRequest, control_kind_eq,
  control_status_eq, escalation_eq, item_eq, status_eq, visibility_eq,
}
use taskboard.Stamp.{Time}

pub one_row-eq-ok {ℓ} :
    {A : Type ℓ} (here : A → Bool) (change : A → A) (rows rows' : List A)
    → one_row here change rows ≡ ok rows'
    → (count here rows ≡ 1) × (rows' ≡ update here change rows)
one_row-eq-ok here change rows rows' h = elim (Bool-cases (count here rows == 1)) [
  | inl one ↦ let go = rw one at h in (ground arith, sym (ok_injective go))
  | inr other ↦ absurd (ground arith)
]

pub stop_run-controls :
    (b b' : Board) (task : Task) (item : RunControl) (stop : Run → Run) (change : Task → Task)
    (run : Run)
    → stop_run b task item stop change run ≡ ok b'
    → b'.controls ≡ b.controls
unfolding stop_run
stop_run-controls b b' task item stop change run h =
    let (c, h1) = refuse_if-eq-ok _ conflict _ h in
    let (rs, k, h2) = >>=-eq-ok (one_row (stoppable item.target_run_id) stop b.runs) _ h1 in
    let (ts, k', h3) = >>=-eq-ok (one_row _ change b.tasks) _ h2 in
    sym (ap (λ (x : Board). x.controls) (ok_injective h3))

pub requeue_task-controls :
    (b b' : Board) (task : Task) (change : Task → Task)
    → requeue_task b task change ≡ ok b'
    → b'.controls ≡ b.controls
unfolding requeue_task
requeue_task-controls b b' task change h =
    let (ts, k, h1) = >>=-eq-ok (one_row _ change b.tasks) _ h in
    sym (ap (λ (x : Board). x.controls) (ok_injective h1))

complete_on-controls :
    (now : Time) (b b' : Board) (task : Task) (item : RunControl) (note : String)
    (kind : ControlKind) (run : Run)
    → complete_on now b task item note kind run ≡ ok b'
    → b'.controls ≡ b.controls
unfolding complete_on
complete_on-controls now b b' task item note ControlKind.pause run h =
    stop_run-controls b b' task item _ _ run h
complete_on-controls now b b' task item note ControlKind.cancel run h =
    stop_run-controls b b' task item _ _ run h
complete_on-controls now b b' task item note ControlKind.resume run h =
    requeue_task-controls b b' task _ (refuse_if-eq-ok _ conflict _ h).1
complete_on-controls now b b' task item note ControlKind.retry run h =
    requeue_task-controls b b' task _ (refuse_if-eq-ok _ conflict _ h).1
complete_on-controls now b b' task item note ControlKind.unknown run h = cc

pub complete_run_control-eq-ok :
    (now : Time) (b b' : Board) (current : Task) (item : RunControl) (note : String)
    → complete_run_control now b current item note ≡ ok b'
    → (run : Run) × (find (target_row item) b.runs ≡ some run)
      × (complete_on now b current item note item.kind run ≡ ok b')
unfolding complete_run_control
complete_run_control-eq-ok now b b' current item note h =
    elim (Option-cases (find (target_row item) b.runs)) [
      | inl absent ↦ let go = rw absent at h in cc
      | inr (run, e) ↦ let go = rw e at h in (run, e, go)
    ]

pub completion_effect-controls :
    (now : Time) (b b' : Board) (current : Task) (item : RunControl)
    (request : UpdateControlRequest) (version : ℕ)
    → completion_effect now b current item request ≡ ok (b', version)
    → b'.controls ≡ b.controls
unfolding completion_effect
completion_effect-controls now b b' current item request version h =
    elim (Bool-cases (request.status == ControlStatus.completed)) [
      | inl finishing ↦ elim (Bool-cases (current.version == request.expected_version)) [
        | inl same ↦
            let go = rw (finishing, same) at h in
            let (after, made, last) =
              >>=-eq-ok (complete_run_control now b current item request.outcome_note) _ go in
            let (run, found_run, rest) =
              complete_run_control-eq-ok now b after current item request.outcome_note made in
            sym (ap (λ (p : Board × ℕ). p.0.controls) (ok_injective last))
            ∙ complete_on-controls now b after current item request.outcome_note item.kind run rest
        | inr moved ↦ let go = rw (finishing, moved) at h in cc
      ]
      | inr other ↦
          let go = rw other at h in sym (ap (λ (p : Board × ℕ). p.0.controls) (ok_injective go))
    ]

-- A change of a control that succeeds.
pub record Changed (call : Call) (b : Board) (control_id : String) (request : UpdateControlRequest)
    (principal : Principal) (b' : Board) (shown : RunControl) : Type 0 where
  pub item : RunControl
  pub loaded : load_run_control b control_id ≡ ok item
  pub mine : (item.target_agent == principal.id) ≡ true
  pub valid : valid_control_transition item.status request.status ≡ true
  pub current : Task
  pub task_loaded : load_task b item.task_id ≡ ok current
  pub after : Board
  pub version : ℕ
  pub effect : completion_effect call.now b current item request ≡ ok (after, version)
  pub written :
      b'.controls
      ≡ update
          (λ (c : RunControl). c.id == item.id && c.status == item.status)
          (changed_control call.now request)
          b.controls
  pub same_tasks : b'.tasks ≡ after.tasks
  pub same_runs : b'.runs ≡ after.runs

check_change-eq-ok :
    (now : Time) (item : RunControl) (request : UpdateControlRequest) (principal : Principal)
    (u : Unit {0})
    → check_change now item request principal ≡ ok u
    → ((item.target_agent == principal.id) ≡ true)
      × (valid_control_transition item.status request.status ≡ true)
unfolding check_change
check_change-eq-ok now item request principal u h =
    let (mine, h1) = refuse_if-eq-ok (not (item.target_agent == principal.id)) forbidden _ h in
    let valid = valid_control_transition item.status request.status in
    let (t, h2) = refuse_if-eq-ok (not valid) validation _ h1 in (ground arith, ground arith)

write_control-eq-ok :
    (now : Time) (b b' : Board) (item : RunControl) (request : UpdateControlRequest)
    → write_control now b item request ≡ ok b'
    → b' ≡ record b {
      controls =
          update
            (λ (c : RunControl). c.id == item.id && c.status == item.status)
            (changed_control now request)
            b.controls;
    }
unfolding write_control
write_control-eq-ok now b b' item request h =
    let here = λ (c : RunControl). c.id == item.id && c.status == item.status in
    let (cs, one, h1) = >>=-eq-ok (one_row here (changed_control now request) b.controls) _ h in
    sym (ok_injective h1)
    ∙ ap (λ k. record b { controls = k })
        (one_row-eq-ok here (changed_control now request) b.controls cs one).1

pub change_control-Changed :
    (call : Call) (b b' : Board) (control_id : String) (request : UpdateControlRequest)
    (principal : Principal) (shown : RunControl)
    → change_control call b control_id request principal ≡ ok (b', shown)
    → Changed call b control_id request principal b' shown
unfolding change_control insert_event
change_control-Changed call b b' control_id request principal shown h =
    let (item, loaded, h1) = >>=-eq-ok (load_run_control b control_id) _ h in
    let (u, checked, h2) = >>=-eq-ok (check_change call.now item request principal) _ h1 in
    let (current, task_loaded, h3) = >>=-eq-ok (load_task b item.task_id) _ h2 in
    let ((after, version), effect, h4) =
      >>=-eq-ok (completion_effect call.now b current item request) _ h3 in
    let (b2, wrote, h5) = >>=-eq-ok (write_control call.now after item request) _ h4 in
    let (seen, reloaded, h6) = >>=-eq-ok (load_run_control _ item.id) _ h5 in
    let last = ok_injective h6 in
    let row = write_control-eq-ok call.now after b2 item request wrote in
    let here = λ (c : RunControl). c.id == item.id && c.status == item.status in
    record {
      item = item;
      loaded = loaded;
      mine = (check_change-eq-ok call.now item request principal u checked).0;
      valid = (check_change-eq-ok call.now item request principal u checked).1;
      current = current;
      task_loaded = task_loaded;
      after = after;
      version = version;
      effect = effect;
      written =
          sym (ap (λ (p : Board × RunControl). p.0.controls) last)
          ∙ ap (λ (k : Board). k.controls) row
          ∙ ap (update here (changed_control call.now request))
              (completion_effect-controls call.now b after current item request version effect);
      same_tasks =
          sym (ap (λ (p : Board × RunControl). p.0.tasks) last) ∙ ap (λ (k : Board). k.tasks) row;
      same_runs =
          sym (ap (λ (p : Board × RunControl). p.0.runs) last) ∙ ap (λ (k : Board). k.runs) row;
    }
