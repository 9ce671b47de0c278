-- ===== src/Creation/Samples.antt =====
-- The theorems on creation at work on a small board.
use taskboard.Access.{can_view}
use taskboard.Access.Principals.{
  Capability, agent_principal, can, default_capabilities, has_capability,
}
use taskboard.Board.Queries.{
  TaskView, get_task, insert_event, list_dependencies, list_items, list_requirements, list_runs,
  load_task, str_before,
}
use taskboard.Board.Settings.{defer_active, instance_task_type}
use taskboard.Callsigns.{candidates}
use taskboard.Checklist.{insert_item, insert_labels}
use taskboard.Claim.{Claimed}
use taskboard.Common.{[], false, none, ok, order_by, refl, some, true, ◌∷◌, ◌≡◌, ◌⊎◌}
use taskboard.Creation.{check_labels, check_planned, insert_task, planned_of}
use taskboard.Creation.Agents.{
  check_allowed, create_allowed, create_by_agent, create_for, fresh_or_replayed, start_for,
}
use taskboard.Creation.Duplicates.{
  Words, check_duplicates, find_duplicate_candidates, same_scope, title_similarity, title_tokens,
}
use taskboard.Creation.Lane.{AgentTask, create_for-AgentTask}
use taskboard.Creation.Queue.{choose_requirements, create_task, insert_queued_task, queued_of}
use taskboard.Creation.Requirements.{
  insert_requirements, is_requirement_token, normalize_requirements,
}
use taskboard.Creation.Start.{insert_started, start_task, write_start}
use taskboard.Creation.Started.{Started, start_task-Started}
use taskboard.Fixtures.{board, bot, call, settings}
use taskboard.Model.{
  Board, CreateRequest, NewTask, StartRequest, Visibility, normalized_priority,
  normalized_task_type, normalized_visibility, read_priority, read_task_type, read_visibility,
}
use taskboard.Replay.{enforce_pickup_limits, idempotency_payload, merge_payload, replay_idempotency}
use taskboard.Sessions.{insert_agent_run}
use taskboard.Text.{
  contains, default_actor, normalized_recurrence, normalized_section, to_lower, trim_space,
}
use taskboard.Update.Edit.{normalized_defer_until, validate_planning}
use taskboard.Update.Row.{next_sort_order}

abbrev plain_words : Words
plain_words = record { fold = λ s. s; split = λ s. s ∷ []; starts_with_digit = λ s. false }

abbrev fields : NewTask
fields = record {
  title = "Paint";
  task_type = "work";
  visibility = "";
  summary = "";
  section = "";
  project = "";
  repository = "";
  priority = "";
  due_date = "";
  defer_until = "";
  recurrence = "";
  checklist = "brush" ∷ [];
  force_new = false;
  idempotency_key = "";
  idempotency_hash = "";
  overridden_duplicates = [];
}

abbrev create_request : CreateRequest
create_request = record { fields = fields; requirements = []; delegated_via = "" }

abbrev start_request : StartRequest
start_request = record { fields = fields; agent = ""; client = "cli"; agent_session_key = "key" }

sample_created :
    (p : Board × TaskView) × (create_for settings plain_words
        (λ r. "hash")
        call
        board
        create_request
        bot
      ≡ ok p)
unfolding create_for create_allowed create_by_agent fresh_or_replayed check_allowed
    normalize_requirements agent_principal has_capability default_capabilities trim_space
    replay_idempotency check_duplicates find_duplicate_candidates title_tokens title_similarity
    same_scope can_view can create_task queued_of planned_of check_planned validate_planning
    normalized_defer_until normalized_visibility read_visibility normalized_task_type read_task_type
    normalized_priority read_priority normalized_section normalized_recurrence to_lower
    instance_task_type check_labels choose_requirements insert_queued_task insert_task insert_labels
    insert_requirements insert_event next_sort_order merge_payload idempotency_payload default_actor
    get_task load_task list_items list_runs list_dependencies list_requirements defer_active
    order_by contains
sample_created = (_, refl)

create_for-AgentTask_example :
    (has_capability bot.identity Capability.task_create ≡ true)
    × ((sample_created.0.0 ≡ board) ⊎ AgentTask board bot sample_created.0.0)
unfolding agent_principal
create_for-AgentTask_example =
    create_for-AgentTask settings plain_words (λ r. "hash") call board sample_created.0.0
      create_request bot sample_created.0.1 refl refl sample_created.1

sample_started : (c : Claimed) × (start_task settings call board start_request "bot" ≡ ok c)
unfolding start_task write_start planned_of check_planned validate_planning normalized_defer_until
    normalized_visibility read_visibility normalized_task_type read_task_type normalized_priority
    read_priority normalized_section normalized_recurrence to_lower instance_task_type check_labels
    insert_task insert_started insert_item insert_agent_run candidates insert_event next_sort_order
    merge_payload idempotency_payload default_actor get_task load_task list_items list_runs
    list_dependencies list_requirements defer_active order_by trim_space
sample_started = (_, refl)

start_task-Started_example : Started settings call board start_request "bot" sample_started.0.board
start_task-Started_example =
    start_task-Started settings call board start_request "bot" sample_started.0 sample_started.1

tests_requirements :
    (normalize_requirements ("Runner:K8s-Job" ∷ "gpu" ∷ " gpu" ∷ [])
      ≡ ok ("gpu" ∷ "runner:k8s-job" ∷ []))
    × (is_requirement_token "runner:" ≡ false)
    × (is_requirement_token "1a" ≡ false)
unfolding normalize_requirements is_requirement_token to_lower trim_space contains order_by
    str_before
tests_requirements = (refl, refl, refl)

tests_similar :
    (title_similarity ("fix" ∷ "login" ∷ "bug" ∷ []) ("fix" ∷ "login" ∷ "bug" ∷ "now" ∷ [])
      ≡ some (record { shared = 3; whole = 4 }))
    × (title_similarity ("fix" ∷ "login" ∷ []) ("fix" ∷ "logout" ∷ []) ≡ none)
    × (same_scope plain_words "owner/name.git" "name" ≡ true)
unfolding title_similarity contains same_scope trim_space
tests_similar = (refl, refl, refl)

-- The lane of a start is checked before its visibility is read: an agent that spells the private
-- lane with a capital starts a private task, which startFor means to refuse.
private_start :
    (c : Claimed) × (start_for settings plain_words
        (λ r. "hash")
        call
        board
        (record start_request { fields = record fields { visibility = "Private" } })
        bot
      ≡ ok c)
unfolding start_for agent_principal has_capability default_capabilities replay_idempotency
    enforce_pickup_limits check_duplicates find_duplicate_candidates title_tokens title_similarity
    same_scope can_view can start_task write_start planned_of check_planned validate_planning
    normalized_defer_until normalized_visibility read_visibility normalized_task_type read_task_type
    normalized_priority read_priority normalized_section normalized_recurrence to_lower
    instance_task_type check_labels insert_task insert_started insert_item insert_agent_run
    candidates insert_event next_sort_order merge_payload idempotency_payload default_actor get_task
    load_task list_items list_runs list_dependencies list_requirements defer_active order_by
    trim_space contains
private_start = (_, refl)

tests_private : private_start.0.task.row.visibility ≡ Visibility.private
unfolding private_start
tests_private = refl
