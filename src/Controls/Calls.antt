-- ===== src/Controls/Calls.antt =====
-- The operations on run controls as calls on the board, and the boards that they reach.
use Prim.Native.String.{len}
-- One operation on run controls.
use taskboard.Access.{can_mutate}
use taskboard.Access.Principals.{Capability, Principal, has_capability}
use taskboard.Board.Queries.{TaskView, get_task}
use taskboard.Board.Settings.{Call, Settings}
use taskboard.Claim.{get_for}
use taskboard.Common.{
  >>=-eq-ok, Bool-cases, Option, Option-cases, String, ap, find-holds, forbidden, inl, inr, ltb,
  nat_eq, none, not, ok, ok_injective, refuse_if-eq-ok, some, string_eq, subst, sym, true,
  validation, ◌&&◌, ◌==◌, ◌||◌, ◌≡◌,
}
use taskboard.Controls.{load_run_control, task_run, valid_control_target}
use taskboard.Controls.Change.{change_control_after, update_run_control_for}
use taskboard.Controls.Create.{create_control_after, create_run_control_for, on_target}
use taskboard.Controls.Expire.{expire_run_controls}
use taskboard.Controls.Reach.{expire_run_controls-steps, write_review-step}
use taskboard.Controls.Recover.{review_and_requeue_for, write_review}
use taskboard.Controls.Steps.{
  ControlStep, ControlSteps, ControlSteps-one, ControlSteps-trans, change_control-step,
  write_requested-step,
}
use taskboard.Model.{
  Board, ControlStatus, CreateControlRequest, Event, ReviewRequeueRequest, Run, RunControl,
  UpdateControlRequest, control_kind_eq, control_status_eq, escalation_eq, item_eq, status_eq,
  visibility_eq,
}
use taskboard.Replay.{payload_text, replay_idempotency}
use taskboard.Text.{trim_space}

pub data ControlCall (b : Board) : Board → Type 0 where
  created :
      {b' : Board} (settings : Settings) (hash : String → CreateControlRequest → String)
      (call : Call) (task_id : String) (request : CreateControlRequest) (principal : Principal)
      (item : RunControl)
      → create_run_control_for settings hash call b task_id request principal ≡ ok (b', item)
      → ControlCall b b'
  updated :
      {b' : Board} (hash : String → UpdateControlRequest → String) (call : Call)
      (control_id : String) (request : UpdateControlRequest) (principal : Principal)
      (item : RunControl)
      → update_run_control_for hash call b control_id request principal ≡ ok (b', item)
      → ControlCall b b'
  expiry : (call : Call) → ControlCall b (expire_run_controls call b)
  reviewed :
      {b' : Board} (settings : Settings) (call : Call) (task_id : String)
      (request : ReviewRequeueRequest) (principal : Principal) (task : TaskView) (item : RunControl)
      → review_and_requeue_for settings call b task_id request principal ≡ ok (b', task, item)
      → ControlCall b b'

-- The boards that sequences of operations reach.
pub data ControlCalls (b : Board) : Board → Type 0 where
  no_calls : ControlCalls b b
  and_then : {c d : Board} → ControlCalls b c → ControlCall c d → ControlCalls b d

on_target-run :
    (task : TaskView) (asked : CreateControlRequest) (run : Run)
    → on_target task.row asked (task_run task asked.target_run_id) ≡ ok run
    → (run.id == asked.target_run_id) ≡ true
on_target-run task asked run h = elim (Option-cases (task_run task asked.target_run_id)) [
  | inl absent ↦ let go = rw absent at h in cc
  | inr (r, e) ↦ elim (Bool-cases (valid_control_target task.row r asked.kind)) [
    | inl valid ↦
        let go = rw (e, valid) at h in
        subst (λ (x : Run). (x.id == asked.target_run_id) ≡ true) (ok_injective go)
          (find-holds (λ (x : Run). x.id == asked.target_run_id) task.runs r e)
    | inr wrong ↦ let go = rw (e, wrong) at h in cc
  ]
]

create_run_control_for-steps :
    (settings : Settings) (hash : String → CreateControlRequest → String) (call : Call)
    (b b' : Board) (id : String) (request : CreateControlRequest) (principal : Principal)
    (item : RunControl)
    → create_run_control_for settings hash call b id request principal ≡ ok (b', item)
    → ControlSteps b.controls b'.controls
unfolding create_run_control_for create_control_after
create_run_control_for-steps settings hash call b b' id request principal item h =
    let task_id = trim_space id in
    let asked : CreateControlRequest = record request {
      target_run_id = trim_space request.target_run_id;
      reason = trim_space request.reason;
    } in
    let (c0, h1) = refuse_if-eq-ok _ forbidden _ h in
    let (c1, h2) = refuse_if-eq-ok _ validation _ h1 in
    let (c2, h3) = refuse_if-eq-ok (ltb 1000 (len asked.reason)) validation _ h2 in
    let (task, seen, h4) = >>=-eq-ok (get_for settings call b task_id principal) _ h3 in
    let (c3, h5) = refuse_if-eq-ok (not (can_mutate task.row principal)) forbidden _ h4 in
    let (run, target, h6) =
      >>=-eq-ok (on_target task.row asked (task_run task asked.target_run_id)) _ h5 in
    let (replay, replayed, h7) =
      >>=-eq-ok
        (replay_idempotency b principal "run_control_create" asked.idempotency_key
          (hash task_id asked))
        _ h6 in
    go run asked (on_target-run task asked run target) replay h7
  where
    go :
        (run : Run) (asked : CreateControlRequest)
        → (run.id == asked.target_run_id) ≡ true
        → (replay : Option Event)
        → create_control_after call b
            (trim_space id)
            run
            (record asked { idempotency_hash = hash (trim_space id) asked })
            principal
            replay
          ≡ ok (b', item)
        → ControlSteps b.controls b'.controls
    go run asked target none k =
        ControlSteps-one
          (write_requested-step call b b' (trim_space id) run _ principal item target k)
    go run asked target (some event) k =
        let (found_control, there, last) =
          >>=-eq-ok (load_run_control b (payload_text event.payload "control_id")) _ k in
        ControlSteps-one (
          ControlStep.kept
            (sym (ap (λ (p : Board × RunControl). p.0.controls) (ok_injective last))))

update_run_control_for-steps :
    (hash : String → UpdateControlRequest → String) (call : Call) (b b' : Board) (id : String)
    (request : UpdateControlRequest) (principal : Principal) (item : RunControl)
    → update_run_control_for hash call b id request principal ≡ ok (b', item)
    → ControlSteps b.controls b'.controls
unfolding update_run_control_for change_control_after
update_run_control_for-steps hash call b b' id request principal item h =
    let asked : UpdateControlRequest = record request {
      outcome_note = trim_space request.outcome_note;
    } in
    let (c0, h1) =
      refuse_if-eq-ok
        (not principal.agent || not (has_capability principal.identity Capability.task_control))
        forbidden _ h in
    let (c1, h2) =
      refuse_if-eq-ok (trim_space id == "" || ltb 1000 (len asked.outcome_note)) validation _ h1 in
    let (c2, h3) =
      refuse_if-eq-ok (asked.status == ControlStatus.rejected && asked.outcome_note == "")
        validation _ h2 in
    let (c3, h4) =
      refuse_if-eq-ok (asked.status == ControlStatus.completed && ltb asked.expected_version 1)
        validation _ h3 in
    let (replay, replayed, h5) =
      >>=-eq-ok
        (replay_idempotency b principal "run_control_update" asked.idempotency_key
          (hash (trim_space id) asked))
        _ h4 in
    go asked replay h5
  where
    go :
        (asked : UpdateControlRequest) (replay : Option Event)
        → change_control_after call b
            (trim_space id)
            (record asked { idempotency_hash = hash (trim_space id) asked })
            principal
            replay
          ≡ ok (b', item)
        → ControlSteps b.controls b'.controls
    go asked none k =
        ControlSteps-one (change_control-step call b b' (trim_space id) _ principal item k)
    go asked (some event) k =
        let (found_control, there, last) =
          >>=-eq-ok (load_run_control b (payload_text event.payload "control_id")) _ k in
        ControlSteps-one (
          ControlStep.kept
            (sym (ap (λ (p : Board × RunControl). p.0.controls) (ok_injective last))))

review_and_requeue_for-steps :
    (settings : Settings) (call : Call) (b b' : Board) (id : String)
    (request : ReviewRequeueRequest) (principal : Principal) (task : TaskView) (item : RunControl)
    → review_and_requeue_for settings call b id request principal ≡ ok (b', task, item)
    → ControlSteps b.controls b'.controls
unfolding review_and_requeue_for
review_and_requeue_for-steps settings call b b' id request principal task item h =
    let asked : ReviewRequeueRequest = record request {
      target_run_id = trim_space request.target_run_id;
      review_note = trim_space request.review_note;
    } in
    let (c0, h1) = refuse_if-eq-ok _ forbidden _ h in
    let (c1, h2) = refuse_if-eq-ok _ validation _ h1 in
    let (c2, h3) = refuse_if-eq-ok _ validation _ h2 in
    let (view, seen, h4) = >>=-eq-ok (get_for settings call b (trim_space id) principal) _ h3 in
    let ((after, control_id), wrote, h5) =
      >>=-eq-ok (write_review call b (trim_space id) asked principal) _ h4 in
    let (view', seen', h6) = >>=-eq-ok (get_task settings call after (trim_space id)) _ h5 in
    let (control, there, last) = >>=-eq-ok (load_run_control after control_id) _ h6 in
    ControlSteps-one (
      subst (λ cs. ControlStep b.controls cs)
        (ap (λ (p : Board × TaskView × RunControl). p.0.controls) (ok_injective last))
        (write_review-step call b after (trim_space id) asked principal control_id wrote))

pub ControlCall-steps : {b c : Board} → ControlCall b c → ControlSteps b.controls c.controls
ControlCall-steps {b} {c} (ControlCall.created settings hash call id request principal item h) =
    create_run_control_for-steps settings hash call b c id request principal item h
ControlCall-steps {b} {c} (ControlCall.updated hash call id request principal item h) =
    update_run_control_for-steps hash call b c id request principal item h
ControlCall-steps {b} (ControlCall.expiry call) = expire_run_controls-steps call b
ControlCall-steps {b} {c} (ControlCall.reviewed settings call id request principal task item h) =
    review_and_requeue_for-steps settings call b c id request principal task item h

pub ControlCalls-steps : {b c : Board} → ControlCalls b c → ControlSteps b.controls c.controls
ControlCalls-steps ControlCalls.no_calls = ControlSteps.none_taken
ControlCalls-steps (ControlCalls.and_then calls one) =
    ControlSteps-trans (ControlCalls-steps calls) (ControlCall-steps one)
