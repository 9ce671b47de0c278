-- ===== src/Access/Samples.antt =====
-- The theorems on access at work on small tasks.
use taskboard.Access.{
  all_ended, can_view, pickup_runner_may_note, producer_fields_only, producer_may_update,
}
use taskboard.Access.Principals.{
  agent_principal, can, default_capabilities, has_capability, human_principal,
}
use taskboard.Access.Visible.{ActsFor, can_view-private}
use taskboard.Access.Writers.{pickup_runner_may_note-note, producer_may_update-idle}
use taskboard.Common.{count, false, is_none, refl, true, ◌≡◌, ◌≢◌, ◌⊎◌}
use taskboard.Fixtures.{ann, bot, note_request, private_task, produced}
use taskboard.Model.{Run, TaskStatus}
use taskboard.Text.{trim_space}

can_view-private_example :
    ((ann.agent ≡ false) × (private_task.created_by ≡ ann.id))
    ⊎ ((ann.agent ≡ true) × (ann.operator ≢ "") × (private_task.created_by ≡ ann.operator))
    ⊎ ((ann.agent ≡ true) × ActsFor ann private_task.created_by)
unfolding can_view can human_principal trim_space
can_view-private_example = can_view-private private_task ann refl refl

producer_may_update-idle_example :
    (produced.row.created_by ≡ bot.id)
    × (produced.row.owner ≡ "")
    × (produced.row.status ≡ TaskStatus.queued)
    × (count (λ (r : Run). is_none r.ended_at) produced.runs ≡ 0)
unfolding producer_may_update agent_principal trim_space all_ended
producer_may_update-idle_example = producer_may_update-idle produced bot refl

pickup_runner_may_note-note_example :
    (produced.row.owner ≡ "")
    × (count (λ (r : Run). is_none r.ended_at) produced.runs ≡ 0)
    × (note_request.status ≡ TaskStatus.unset)
    × (is_none note_request.title ≡ true)
    × (is_none note_request.owner ≡ true)
    × (is_none note_request.visibility ≡ true)
    × (note_request.run_id ≡ "")
unfolding pickup_runner_may_note producer_fields_only agent_principal has_capability
    default_capabilities all_ended
pickup_runner_may_note-note_example = pickup_runner_may_note-note produced bot note_request refl
