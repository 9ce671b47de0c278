-- ===== src/Escalations/Samples.antt =====
-- The theorems on escalations at work on a small board.
use taskboard.Access.Principals.{human_principal}
use taskboard.Board.Queries.{insert_event, load_task}
use taskboard.Common.{[], err, false, none, ok, refl, some, true, validation, ◌*◌, ◌∷◌, ◌≡◌}
use taskboard.Escalations.{insert_message, load_escalation, shown_escalation}
use taskboard.Escalations.Answer.{check_answer, release_task, write_answer}
use taskboard.Escalations.Answered.{Answers, write_answer-Answers}
use taskboard.Escalations.Once.{IsFinal, write_answer-IsFinal}
use taskboard.Escalations.Request.{normalize_answerers, valid_person_id}
use taskboard.Escalations.Steps.{EscalationCalls}
use taskboard.Fixtures.{ann, board, call, task}
use taskboard.Model.{Board, Escalation, EscalationStatus, ResolveEscalationRequest, TaskStatus}
use taskboard.Stamp.{minute}
use taskboard.Text.{contains, has_prefix, trim_space}

abbrev question : Escalation
question = record {
  id = "e1";
  task_id = "t1";
  run_id = "r1";
  question_message_id = "m1";
  answer_message_id = "";
  blocking = true;
  options = "left" ∷ "right" ∷ [];
  recommendation = "";
  selected_option = "";
  status = EscalationStatus.open_status;
  answerers = "ann" ∷ [];
  expires_at = some (200 * minute);
  resolved_by = "";
  delegated_by = "";
  created_at = 0;
  resolved_at = none;
}

abbrev waiting_board : Board
waiting_board = record board {
  tasks = record task { status = TaskStatus.waiting; version = 3 } ∷ [];
  escalations = question ∷ [];
}

abbrev answer_request : ResolveEscalationRequest
answer_request = record {
  expected_version = 3;
  answer = "left";
  selected_option = "left";
  idempotency_key = "";
  idempotency_hash = "";
}

sample_answer :
    (p : Board × Escalation) × (write_answer call waiting_board "t1" "e1" answer_request ann ""
      ≡ ok p)
unfolding write_answer load_task load_escalation shown_escalation check_answer contains
    insert_message release_task insert_event human_principal trim_space
sample_answer = (_, refl)

write_answer-Answers_example :
    Answers call waiting_board "t1" "e1" answer_request ann "" sample_answer.0.0
write_answer-Answers_example =
    write_answer-Answers call waiting_board sample_answer.0.0 "t1" "e1" answer_request ann ""
      sample_answer.0.1 sample_answer.1

write_answer-IsFinal_example :
    (row : Escalation) × (row.resolved_by ≡ ann.id)
    × (row.selected_option ≡ "left")
    × IsFinal sample_answer.0.0 "e1" row
write_answer-IsFinal_example =
    write_answer-IsFinal call waiting_board sample_answer.0.0 sample_answer.0.0 "t1" "e1"
      answer_request ann "" sample_answer.0.1 sample_answer.1 EscalationCalls.no_calls

tests_request :
    (normalize_answerers (" ann" ∷ "ann" ∷ "bob" ∷ []) ≡ ok ("ann" ∷ "bob" ∷ []))
    × (normalize_answerers ("agent:bot" ∷ []) ≡ err validation)
    × (valid_person_id "a b" ≡ false)
unfolding normalize_answerers valid_person_id has_prefix contains trim_space
tests_request = (refl, refl, refl)
