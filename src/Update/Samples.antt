-- ===== src/Update/Samples.antt =====
-- The theorems on updates at work on a small board.
use taskboard.Access.{can_mutate, can_view}
use taskboard.Access.Principals.{agent_principal, can, default_capabilities, has_capability}
use taskboard.Board.Queries.{
  TaskView, get_task, insert_event, list_dependencies, list_items, list_runs, load_task, shown_run,
  unmet_dependencies, write_task,
}
use taskboard.Checklist.{
  add_items, complete_items, next_position, open_required, set_current, skip_items,
}
use taskboard.Checklist.OneActive.{IsSingle}
use taskboard.Checklist.Samples.{checklist-IsSingle}
use taskboard.Claim.{get_for}
use taskboard.Common.{
  Hint, any, arith, err, false, nat_eq, ok, order_by, refl, string_eq, suc, true, version_conflict,
  zero, ℕ, ◌==◌, ◌≡◌, ◌⊎◌,
}
use taskboard.Fixtures.{
  board, bot, call, done_request, held_board, held_request, id_of, settings, task,
}
use taskboard.Lease.{holds_lease}
use taskboard.Model.{Board, TaskStatus, item_eq, status_eq, visibility_eq}
use taskboard.Replay.{replay_idempotency}
use taskboard.Text.{default_actor, trim_space, unique}
use taskboard.Update.Agents.{
  check_agent_fields, check_leased, check_run, check_sensitive, leased_by, may_update, update_after,
  update_by_agent, update_checked, update_for,
}
use taskboard.Update.Allowed.{Allowed, HasCapabilities, update_for-Allowed}
use taskboard.Update.Done.{open_requirement, update_task-done}
use taskboard.Update.Edit.{Edit, edit_of}
use taskboard.Update.Effects.{add_next, lane_requirements, link_duplicates, report_run}
use taskboard.Update.Guards.{
  changes_lane, check_done, check_edit, check_lane, check_owner, check_replacement, kept_task,
}
use taskboard.Update.Handler.{follow_up, update_task, write_update}
use taskboard.Update.Lost.{update_task-IsAt, update_task-twice}
use taskboard.Update.Row.{edit_items, edited_row, edited_status, replaced}
use taskboard.Update.Single.{update_task-IsSingle}
use taskboard.Update.Version.{IsAt}

sample_edit : (edit : Edit) × (edit_of settings done_request ≡ ok edit)
unfolding edit_of
sample_edit = (_, refl)

sample_load : load_task board (trim_space "t1") ≡ ok task
unfolding load_task trim_space
sample_load = refl

sample_done : edited_status task sample_edit.0.request ≡ TaskStatus.done
unfolding edit_of sample_edit
sample_done = refl

sample_update :
    (r : Board × TaskView) × (update_task settings call board "t1" done_request "ann" ≡ ok r)
unfolding update_task edit_of check_edit changes_lane check_lane check_owner check_replacement
    write_update edit_items replaced complete_items skip_items set_current add_items next_position
    unique kept_task edited_row follow_up link_duplicates lane_requirements add_next report_run
    check_done trim_space load_task write_task unmet_dependencies list_dependencies get_task
    insert_event order_by default_actor
sample_update = (_, refl)

fresh : (n : ℕ) → (id_of n == trim_space "t1") ≡ false
unfolding trim_space
fresh zero = refl
fresh (suc zero) = refl
fresh (suc (suc n)) = refl

update_task-done_example :
    (any (open_required (trim_space "t1")) sample_update.0.0.items ≡ false)
    × (any (open_requirement (trim_space "t1")) board.completion ≡ false)
    × (unmet_dependencies board (trim_space "t1") ≡ 0)
update_task-done_example =
    update_task-done settings call board "t1" done_request "ann" task sample_edit.0 sample_update.0
      sample_load sample_edit.1 sample_update.1 sample_done fresh

update_task-IsSingle_example : IsSingle sample_update.0.0.items
update_task-IsSingle_example =
    update_task-IsSingle settings call board "t1" done_request "ann" task sample_edit.0
      sample_update.0 sample_load sample_edit.1 sample_update.1 checklist-IsSingle

update_task-IsAt_example :
    (1 ≡ sample_edit.0.request.expected_version) × IsAt (trim_space "t1") 2 sample_update.0.0.tasks
update_task-IsAt_example =
    update_task-IsAt settings call board "t1" done_request "ann" task sample_edit.0 sample_update.0
      sample_load sample_edit.1 sample_update.1

update_task-twice_example :
    (hint : Hint) × (update_task settings call sample_update.0.0 "t1" done_request "eve"
      ≡ err (version_conflict 2 1 hint))
update_task-twice_example =
    update_task-twice settings call board "t1" done_request "ann" task sample_edit.0 sample_update.0
      sample_load sample_edit.1 sample_update.1 call done_request "eve" sample_edit.0 sample_edit.1
      (omega arith) refl

sample_update_for :
    (r : Board × TaskView) × (update_for settings
        (λ id r. "hash")
        call
        held_board
        "t1"
        held_request
        bot
      ≡ ok r)
unfolding update_for update_by_agent update_after update_checked check_sensitive check_leased
    check_run check_agent_fields may_update can_mutate can_view can get_for leased_by holds_lease
    agent_principal has_capability default_capabilities replay_idempotency update_task edit_of
    check_edit changes_lane check_lane check_owner check_replacement write_update edit_items
    replaced complete_items skip_items set_current add_items next_position unique kept_task
    edited_row follow_up link_duplicates lane_requirements add_next report_run check_done trim_space
    load_task write_task unmet_dependencies list_dependencies get_task insert_event order_by
    default_actor list_runs list_items shown_run
sample_update_for = (_, refl)

bot_is_agent : bot.agent ≡ true
unfolding agent_principal
bot_is_agent = refl

update_for-Allowed_example :
    (sample_update_for.0.0 ≡ held_board)
    ⊎ (Allowed settings call held_board "t1" (record held_request { idempotency_hash = "hash" }) bot
        × HasCapabilities settings call held_board "t1"
            (record held_request { idempotency_hash = "hash" })
            bot)
update_for-Allowed_example =
    update_for-Allowed settings (λ id r. "hash") call held_board "t1" held_request bot
      sample_update_for.0 bot_is_agent sample_update_for.1
