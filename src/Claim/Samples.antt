-- ===== src/Claim/Samples.antt =====
-- The theorems on claims at work on a small board.
use Prim.Native.String.{len}
use taskboard.Access.{can_view}
use taskboard.Access.Principals.{
  Capability, agent_principal, can, default_capabilities, has_capability,
}
use taskboard.Board.Queries.{
  get_task, insert_event, list_dependencies, list_items, list_requirements, list_runs, load_task,
  unmet_dependencies, worker_advertisement, write_task,
}
use taskboard.Board.Settings.{defer_active}
use taskboard.Callsigns.{candidates}
use taskboard.Checklist.OneActive.{IsSingle}
use taskboard.Checklist.Samples.{checklist-IsSingle}
use taskboard.Claim.{
  Claimed, check_claimable, check_pickup, check_task, claim, claim_after, claim_agent, claim_for,
  claimed_run, get_for, is_terminal_status, worker_matches, write_claim,
}
use taskboard.Claim.Limits.{IsWithin, Picked, claim_for-IsWithin, claim_for-Picked}
use taskboard.Claim.Outcome.{claim-IsSingle, claim-events, claim-row, claim-run, claim-twice}
use taskboard.Common.{
  [], arith, err, false, nat_eq, none, ok, order_by, refl, retry, string_eq, true, version_conflict,
  ◌*◌, ◌++◌, ◌+◌, ◌==◌, ◌∷◌, ◌≡◌, ◌≤◌,
}
use taskboard.Fixtures.{board, bot, call, request, settings}
use taskboard.Model.{
  ClaimRequest, Event, Task, TaskStatus, control_kind_eq, control_status_eq, escalation_eq, item_eq,
  message_eq, status_eq, visibility_eq,
}
use taskboard.Replay.{enforce_pickup_limits, holds_text, replay_idempotency}
use taskboard.Sessions.{insert_agent_run}
use taskboard.Stamp.{minute}
use taskboard.Text.{trim_space}

sample_claim : (c : Claimed) × (claim settings call board "t1" request "bot" ≡ ok c)
unfolding claim check_claimable write_claim claimed_run insert_agent_run trim_space load_task
    unmet_dependencies list_dependencies defer_active candidates write_task get_task insert_event
    list_runs order_by
sample_claim = (_, refl)

sample_claim_for :
    (c : Claimed) × (claim_for settings (λ id r. "hash") call board "t1" request bot ≡ ok c)
unfolding claim claim_for check_pickup check_task claim_after check_claimable write_claim
    claimed_run insert_agent_run trim_space load_task agent_principal has_capability
    default_capabilities replay_idempotency get_for can can_view worker_matches list_requirements
    worker_advertisement enforce_pickup_limits unmet_dependencies list_dependencies defer_active
    candidates write_task get_task insert_event list_items list_runs order_by
sample_claim_for = (_, refl)

claim-row_example :
    (current : Task) × (load_task board (trim_space "t1") ≡ ok current)
    × (current.version ≡ 1)
    × (is_terminal_status current.status ≡ false)
    × (unmet_dependencies board (trim_space "t1") ≡ 0)
    × (defer_active settings current.defer_until (100 * minute) ≡ false)
    × (load_task sample_claim.0.board (trim_space "t1")
        ≡ ok (record current {
          status = TaskStatus.active;
          owner = claim_agent "bot" request;
          completed_at = none;
          updated_at = 100 * minute;
          version = current.version + 1;
        }))
claim-row_example = claim-row settings call board "t1" request "bot" sample_claim.0 sample_claim.1

claim-run_example :
    (sample_claim.0.run.task_id ≡ trim_space "t1")
    × (sample_claim.0.run.agent ≡ claim_agent "bot" request)
    × (sample_claim.0.run.status ≡ TaskStatus.active)
    × (sample_claim.0.run.ended_at ≡ none)
    × (sample_claim.0.run.lease_expires ≡ 102 * minute)
claim-run_example = claim-run settings call board "t1" request "bot" sample_claim.0 sample_claim.1

claim-IsSingle_example : IsSingle sample_claim.0.board.items
claim-IsSingle_example =
    claim-IsSingle settings call board "t1" request "bot" sample_claim.0 sample_claim.1
      checklist-IsSingle

abbrev keyed_request : ClaimRequest
keyed_request = record request { idempotency_key = "again"; idempotency_hash = "digest" }

keyed_claim : (c : Claimed) × (claim settings call board "t1" keyed_request "bot" ≡ ok c)
unfolding claim check_claimable write_claim claimed_run insert_agent_run trim_space load_task
    unmet_dependencies list_dependencies defer_active candidates write_task get_task insert_event
    list_runs order_by
keyed_claim = (_, refl)

claim-events_example :
    (event : Event) × (keyed_claim.0.board.events ≡ [] ++ event ∷ [])
    × (event.kind ≡ "task.claimed")
    × (event.task_id ≡ trim_space "t1")
    × (event.run_id ≡ keyed_claim.0.run.id)
    × (event.actor ≡ keyed_claim.0.run.agent)
    × (event.created_at ≡ 100 * minute)
    × ((keyed_request.idempotency_key == "") ≡ false
        → (holds_text event.payload "idempotency_operation" "task_claim" ≡ true)
          × (holds_text event.payload "idempotency_key" "again" ≡ true)
          × (holds_text event.payload "idempotency_hash" "digest" ≡ true))
claim-events_example =
    claim-events settings call board "t1" keyed_request "bot" keyed_claim.0 keyed_claim.1

short_key : len (trim_space request.agent_session_key) ≤ 200
unfolding trim_space
short_key = omega arith

claim-twice_example :
    claim settings call sample_claim.0.board "t1" request "eve" ≡ err (version_conflict 2 1 retry)
claim-twice_example =
    claim-twice settings call board "t1" request "bot" sample_claim.0 sample_claim.1 call request
      "eve" refl short_key

claim_for-IsWithin_example : IsWithin bot (100 * minute) sample_claim_for.0.board
claim_for-IsWithin_example =
    claim_for-IsWithin settings (λ id r. "hash") call board "t1" request bot sample_claim_for.0
      (λ u. omega arith) sample_claim_for.1

claim_for-Picked_example :
    (bot.agent ≡ true)
    × (has_capability bot.identity Capability.task_claim ≡ true)
    × Picked settings call board "t1" request bot sample_claim_for.0
claim_for-Picked_example =
    claim_for-Picked settings (λ id r. "hash") call board "t1" request bot sample_claim_for.0
      sample_claim_for.1
