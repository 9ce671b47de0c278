-- ===== src/Controls/Completed.antt =====
-- What the completion of a control does to its run and its task.
use taskboard.Access.Principals.{Principal}
use taskboard.Board.Queries.{load_task}
use taskboard.Board.Settings.{Call}
use taskboard.Board.Writes.{load_task-found, load_task-intro, load_task-tasks}
use taskboard.Common.{
  >>=-eq-ok, Bool, Bool-cases, String, ap, arith, conflict, count, count-update_zero, eq_iff, false,
  find, find-holds, find-update, inl, inr, nat_beq_iff, nat_eq, ok, ok_injective, refl,
  refuse_if-eq-ok, some, string_eq, subst, sym, true, update, ℕ, ◌&&◌, ◌+◌, ◌==◌, ◌||◌, ◌∙◌, ◌≡◌,
}
use taskboard.Controls.{load_run_control, one_row, requeued_owner, valid_control_transition}
use taskboard.Controls.Change.{change_control, completion_effect}
use taskboard.Controls.Complete.{
  cancelled_row, complete_on, complete_run_control, paused_row, requeue_task, requeued_row,
  stop_run, stoppable, stopped, versioned,
}
use taskboard.Controls.Frame.{change_control-Changed, complete_run_control-eq-ok, one_row-eq-ok}
use taskboard.Model.{
  Board, ControlKind, ControlStatus, Run, RunControl, Task, TaskStatus, UpdateControlRequest,
  control_kind_eq, control_status_eq, escalation_eq, item_eq, status_eq, visibility_eq,
}
use taskboard.Stamp.{Time}

-- The status that a task has after a control of a kind.
abbrev pub goal_status : ControlKind → TaskStatus
goal_status ControlKind.pause = TaskStatus.waiting
goal_status ControlKind.cancel = TaskStatus.cancelled
goal_status ControlKind.resume = TaskStatus.queued
goal_status ControlKind.retry = TaskStatus.queued
goal_status ControlKind.unknown = TaskStatus.unknown

-- The kinds that end their run.
abbrev pub stops : ControlKind → Bool
stops kind = kind == ControlKind.pause || kind == ControlKind.cancel

-- The task and the runs after a completion.
pub record Settled (b b' : Board) (task : Task) (run_id : String) (kind : ControlKind)
    : Type 0 where
  pub after : Task
  pub loaded : load_task b' task.id ≡ ok after
  pub version : after.version ≡ task.version + 1
  pub status : after.status ≡ goal_status kind
  pub no_run : stops kind ≡ true → count (stoppable run_id) b'.runs ≡ 0
  pub same_runs : stops kind ≡ false → b'.runs ≡ b.runs

pub row_after :
    (b b' : Board) (task : Task) (here : Task → Bool) (change : Task → Task)
    → load_task b task.id ≡ ok task
    → here task ≡ true
    → ((t : Task) → (change t).id ≡ t.id)
    → b'.tasks ≡ update here change b.tasks
    → load_task b' task.id ≡ ok (change task)
row_after b b' task here change loaded hit same rows =
    let mine = λ (t : Task). t.id == task.id in
    load_task-intro b' task.id (change task) (
      subst (λ ts. find mine ts ≡ some (change task)) (sym rows)
        (find-update here mine change b.tasks task (λ u k. rw (same u))
            (load_task-found b task.id task loaded)
          ∙ ap some (rw hit)))

stop_run-Settled :
    (b b' : Board) (task : Task) (item : RunControl) (status : TaskStatus) (now : Time)
    (change : Task → Task) (run : Run) (kind : ControlKind)
    → stop_run b task item (stopped status now) change run ≡ ok b'
    → load_task b task.id ≡ ok task
    → ((t : Task) → (change t).id ≡ t.id)
    → (change task).version ≡ task.version + 1
    → (change task).status ≡ goal_status kind
    → stops kind ≡ true
    → Settled b b' task item.target_run_id kind
unfolding stop_run
stop_run-Settled b b' task item status now change run kind h loaded same counted named ends =
    let here = λ (t : Task). versioned task.id task.version t && t.status == TaskStatus.active in
    let stop = stopped status now in
    let (c, h1) = refuse_if-eq-ok _ conflict _ h in
    let (rs, k, h2) = >>=-eq-ok (one_row (stoppable item.target_run_id) stop b.runs) _ h1 in
    let (ts, k', h3) = >>=-eq-ok (one_row here change b.tasks) _ h2 in
    let rows = (one_row-eq-ok here change b.tasks ts k').1 in
    let runs = (one_row-eq-ok (stoppable item.target_run_id) stop b.runs rs k).1 in
    let hit : here task ≡ true =
      ground (arith, nat_beq_iff task.version task.version, eq_iff task.id task.id) in
    record {
      after = change task;
      loaded =
          row_after b b' task here change loaded hit same
            (sym (ap (λ (x : Board). x.tasks) (ok_injective h3)) ∙ rows);
      version = counted;
      status = named;
      no_run = λ e.
          subst (λ xs. count (stoppable item.target_run_id) xs ≡ 0)
            (sym runs ∙ ap (λ (x : Board). x.runs) (ok_injective h3))
            (count-update_zero (stoppable item.target_run_id) (stoppable item.target_run_id) stop
              b.runs (λ r e. e) (λ r e. ground arith));
      same_runs = λ e. absurd (ground arith);
    }

requeue_task-Settled :
    (b b' : Board) (task : Task) (run_id : String) (change : Task → Task) (kind : ControlKind)
    → requeue_task b task change ≡ ok b'
    → load_task b task.id ≡ ok task
    → ((t : Task) → (change t).id ≡ t.id)
    → (change task).version ≡ task.version + 1
    → (change task).status ≡ goal_status kind
    → stops kind ≡ false
    → Settled b b' task run_id kind
unfolding requeue_task
requeue_task-Settled b b' task run_id change kind h loaded same counted named ends =
    let here = versioned task.id task.version in
    let (ts, k, h1) = >>=-eq-ok (one_row here change b.tasks) _ h in
    let rows = (one_row-eq-ok here change b.tasks ts k).1 in
    let hit : here task ≡ true =
      ground (arith, nat_beq_iff task.version task.version, eq_iff task.id task.id) in
    record {
      after = change task;
      loaded =
          row_after b b' task here change loaded hit same
            (sym (ap (λ (x : Board). x.tasks) (ok_injective h1)) ∙ rows);
      version = counted;
      status = named;
      no_run = λ e. absurd (ground arith);
      same_runs = λ e. sym (ap (λ (x : Board). x.runs) (ok_injective h1));
    }

complete_on-Settled :
    (now : Time) (b b' : Board) (task : Task) (item : RunControl) (note : String)
    (kind : ControlKind) (run : Run)
    → complete_on now b task item note kind run ≡ ok b'
    → load_task b task.id ≡ ok task
    → Settled b b' task item.target_run_id kind
unfolding complete_on
complete_on-Settled now b b' task item note ControlKind.pause run h loaded =
    stop_run-Settled b b' task item TaskStatus.waiting now (paused_row now note) run
      ControlKind.pause h loaded (λ t. refl) refl refl refl
complete_on-Settled now b b' task item note ControlKind.cancel run h loaded =
    stop_run-Settled b b' task item TaskStatus.cancelled now (cancelled_row now note) run
      ControlKind.cancel h loaded (λ t. refl) refl refl refl
complete_on-Settled now b b' task item note ControlKind.resume run h loaded =
    requeue_task-Settled b b' task item.target_run_id (requeued_row now (requeued_owner task) note)
      ControlKind.resume (refuse_if-eq-ok _ conflict _ h).1 loaded (λ t. refl) refl refl refl
complete_on-Settled now b b' task item note ControlKind.retry run h loaded =
    requeue_task-Settled b b' task item.target_run_id (requeued_row now (requeued_owner task) note)
      ControlKind.retry (refuse_if-eq-ok _ conflict _ h).1 loaded (λ t. refl) refl refl refl
complete_on-Settled now b b' task item note ControlKind.unknown run h loaded = cc

-- A completion.
pub record Completion (call : Call) (b b' : Board) (control_id : String)
    (request : UpdateControlRequest) (principal : Principal) : Type 0 where
  pub item : RunControl
  pub loaded : load_run_control b control_id ≡ ok item
  pub addressed : item.target_agent ≡ principal.id
  pub accepted : item.status ≡ ControlStatus.accepted
  pub task : Task
  pub task_loaded : load_task b item.task_id ≡ ok task
  pub task_named : task.id ≡ item.task_id
  pub expected : task.version ≡ request.expected_version
  pub settled : Settled b b' task item.target_run_id item.kind

pub load_task-named : (b : Board) (id : String) (t : Task) → load_task b id ≡ ok t → t.id ≡ id
load_task-named b id t h =
    let k = find-holds (λ (u : Task). u.id == id) b.tasks t (load_task-found b id t h) in
    ground (arith, eq_iff t.id id)

valid_control_transition-completed :
    (from : ControlStatus)
    → valid_control_transition from ControlStatus.completed ≡ true
    → from ≡ ControlStatus.accepted
unfolding valid_control_transition
valid_control_transition-completed from h = ground arith

Settled-board :
    (b c b' : Board) (task : Task) (run_id : String) (kind : ControlKind)
    → b'.tasks ≡ c.tasks
    → b'.runs ≡ c.runs
    → Settled b c task run_id kind
    → Settled b b' task run_id kind
Settled-board b c b' task run_id kind tasks runs s = record {
  after = s.after;
  loaded = load_task-tasks b' c task.id tasks ∙ s.loaded;
  version = s.version;
  status = s.status;
  no_run = λ e. subst (λ rs. count (stoppable run_id) rs ≡ 0) (sym runs) (s.no_run e);
  same_runs = λ e. runs ∙ s.same_runs e;
}

-- An agent completes a control only if the control is addressed to it and accepted, and the task
-- is at the expected version. The task then is one version on, waiting after a pause, cancelled
-- after a cancellation and queued after a resumption or a retry; a pause and a cancellation leave
-- no open active run with the identifier of the target, the other two leave the runs as they are.
pub change_control-Completion :
    (call : Call) (b b' : Board) (control_id : String) (request : UpdateControlRequest)
    (principal : Principal) (shown : RunControl)
    → change_control call b control_id request principal ≡ ok (b', shown)
    → request.status ≡ ControlStatus.completed
    → Completion call b b' control_id request principal
unfolding completion_effect
change_control-Completion call b b' control_id request principal shown h finishing =
    let c = change_control-Changed call b b' control_id request principal shown h in
    let made : completion_effect call.now b c.current c.item request ≡ ok (c.after, c.version) =
      c.effect in
    let task_named = load_task-named b c.item.task_id c.current c.task_loaded in
    let loaded : load_task b c.current.id ≡ ok c.current =
      subst (λ i. load_task b i ≡ ok c.current) (sym task_named) c.task_loaded in
    elim (Bool-cases (c.current.version == request.expected_version)) [
      | inr moved ↦ let go = rw (finishing, moved) at made in cc
      | inl same ↦
          let go = rw (finishing, same) at made in
          let (done_board, ran, last) =
            >>=-eq-ok (complete_run_control call.now b c.current c.item request.outcome_note) _
              go in
          let (run, there, did) =
            complete_run_control-eq-ok call.now b done_board c.current c.item request.outcome_note
              ran in
          let settled =
            complete_on-Settled call.now b done_board c.current c.item request.outcome_note
              c.item.kind run did loaded in
          let same_board : c.after ≡ done_board =
            sym (ap (λ (p : Board × ℕ). p.0) (ok_injective last)) in
          record {
            item = c.item;
            loaded = c.loaded;
            addressed = ground (arith, c.mine, eq_iff c.item.target_agent principal.id);
            accepted =
                valid_control_transition-completed c.item.status
                  (subst (λ s. valid_control_transition c.item.status s ≡ true) finishing c.valid);
            task = c.current;
            task_loaded = c.task_loaded;
            task_named = task_named;
            expected = ground (arith, same);
            settled =
                Settled-board b done_board b' c.current c.item.target_run_id c.item.kind
                  (c.same_tasks ∙ ap (λ (x : Board). x.tasks) same_board)
                  (c.same_runs ∙ ap (λ (x : Board). x.runs) same_board) settled;
          }
    ]
