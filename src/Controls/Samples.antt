-- ===== src/Controls/Samples.antt =====
-- The theorems on run controls at work on a small board.
use taskboard.Access.{can_mutate, can_view}
use taskboard.Access.Principals.{agent_principal, can, human_principal}
use taskboard.Board.Queries.{
  get_task, insert_event, list_dependencies, list_items, list_requirements, list_runs, load_task,
}
use taskboard.Board.Settings.{defer_active}
use taskboard.Claim.{get_for}
use taskboard.Common.{[], arith, none, ok, order_by, refl, some, ◌*◌, ◌∷◌, ◌≡◌}
use taskboard.Controls.{
  insert_run_control, is_run_control_kind, load_run_control, valid_control_target,
  valid_control_transition,
}
use taskboard.Controls.Calls.{ControlCall, ControlCalls}
use taskboard.Controls.Change.{change_control, check_change, completion_effect, write_control}
use taskboard.Controls.Complete.{complete_on, complete_run_control, stop_run}
use taskboard.Controls.Completed.{Completion, change_control-Completion}
use taskboard.Controls.Create.{create_control_after, create_run_control_for, write_requested}
use taskboard.Controls.Diagram.{Advances}
use taskboard.Controls.Single.{ControlCalls-Advances, ControlCalls-IsSingleOpen, IsSingleOpen}
use taskboard.Fixtures.{ann, bot, call, held_board, settings}
use taskboard.Model.{
  Board, ControlKind, ControlStatus, CreateControlRequest, RunControl, UpdateControlRequest,
}
use taskboard.Replay.{replay_idempotency}
use taskboard.Stamp.{minute}
use taskboard.Text.{clipped, trim_space}

abbrev pause_request : CreateControlRequest
pause_request = record {
  target_run_id = "r1";
  kind = ControlKind.pause;
  reason = "";
  expected_version = 2;
  idempotency_key = "";
  idempotency_hash = "";
}

sample_created :
    (p : Board × RunControl) × (create_run_control_for settings
        (λ id r. "hash")
        call
        held_board
        "t1"
        pause_request
        ann
      ≡ ok p)
unfolding create_run_control_for create_control_after write_requested insert_run_control trim_space
    load_task can human_principal get_for get_task can_view can_mutate is_run_control_kind
    valid_control_target replay_idempotency insert_event list_items list_runs list_dependencies
    list_requirements defer_active order_by
sample_created = (_, refl)

ControlCalls-Advances_example : Advances held_board.controls sample_created.0.0.controls
ControlCalls-Advances_example = ControlCalls-Advances {b = held_board} {c = sample_created.0.0} (
    ControlCalls.and_then ControlCalls.no_calls (
      ControlCall.created settings (λ id r. "hash") call "t1" pause_request ann sample_created.0.1
        sample_created.1))

ControlCalls-IsSingleOpen_example : IsSingleOpen sample_created.0.0.controls
ControlCalls-IsSingleOpen_example =
    ControlCalls-IsSingleOpen {b = held_board} {c = sample_created.0.0}
      (ControlCalls.and_then ControlCalls.no_calls (
        ControlCall.created settings (λ id r. "hash") call "t1" pause_request ann sample_created.0.1
          sample_created.1))
      (λ task_id run_id kind. omega arith)

abbrev accepted_pause : RunControl
accepted_pause = record {
  id = "c1";
  task_id = "t1";
  target_run_id = "r1";
  target_agent = "bot";
  kind = ControlKind.pause;
  status = ControlStatus.accepted;
  requested_by = "ann";
  reason = "";
  outcome_note = "";
  task_version = 2;
  created_at = 0;
  updated_at = 0;
  expires_at = 200 * minute;
  acknowledged_at = some 0;
  decided_at = some 0;
  completed_at = none;
}

abbrev pausing_board : Board
pausing_board = record held_board { controls = accepted_pause ∷ [] }

abbrev finish_request : UpdateControlRequest
finish_request = record {
  status = ControlStatus.completed;
  outcome_note = "";
  expected_version = 2;
  idempotency_key = "";
  idempotency_hash = "";
}

sample_finished :
    (p : Board × RunControl) × (change_control call pausing_board "c1" finish_request bot ≡ ok p)
unfolding change_control load_run_control check_change agent_principal trim_space
    valid_control_transition load_task completion_effect complete_run_control complete_on stop_run
    clipped write_control insert_event
sample_finished = (_, refl)

change_control-Completion_example :
    Completion call pausing_board sample_finished.0.0 "c1" finish_request bot
change_control-Completion_example =
    change_control-Completion call pausing_board sample_finished.0.0 "c1" finish_request bot
      sample_finished.0.1 sample_finished.1 refl
