-- ===== src/Replay.antt =====
-- Event payloads and idempotent replays: `mergePayload`, `idempotencyPayload`,
-- `replayIdempotency` and `enforceAgentPickupLimits` of internal/service/service.go.
use taskboard.Access.Principals.{Principal}
use taskboard.Common.{
  Bool, List, Option, Result, String, [], conflict, count, err, false, if◌then◌else◌, is_none, leb,
  ltb, nat_eq, none, not, ok, order_by, rate_limit, refuse_if, select, some, string_eq, validation,
  ◌&&◌, ◌-◌, ◌==◌, ◌>>=◌, ◌>>◌, ◌||◌, ◌∷◌,
}
use taskboard.Model.{
  Board, Event, Payload, Run, TaskStatus, Value, control_kind_eq, control_status_eq, escalation_eq,
  item_eq, status_eq, visibility_eq,
}
use taskboard.Stamp.{Time, minute, stamp_before}
use taskboard.Text.{validate_idempotency_key}

-- `m[key] = value`
put : String → Value → Payload → Payload
put key value [] = (key, value) ∷ []
put key value ((k, v) ∷ p) = if k == key then (key, value) ∷ p else (k, v) ∷ put key value p

unfoldable pub merge_payload : Payload → Payload → Payload
unfolding put
merge_payload base [] = base
merge_payload base ((k, v) ∷ extra) = merge_payload (put k v base) extra

unfoldable pub idempotency_payload : String → String → String → Payload
idempotency_payload operation key hash =
    if key == ""
    then []
    else ("idempotency_operation", Value.text operation)
      ∷ ("idempotency_key", Value.text key)
      ∷ ("idempotency_hash", Value.text hash)
      ∷ []

-- `payload[key] == text`
abbrev value_is : String → Value → Bool
value_is text (Value.text t) = t == text
value_is text _ = false

-- A value as a string; any other value reads as the empty string.
abbrev pub text_of : Value → String
text_of (Value.text t) = t
text_of _ = ""

unfoldable pub holds_text : Payload → String → String → Bool
holds_text [] key text = false
holds_text ((k, v) ∷ p) key text = if k == key then value_is text v else holds_text p key text

-- The loop over the principal's events, latest first.
replay_from : String → String → String → List Event → Result (Option Event)
replay_from operation key hash [] = ok none
replay_from operation key hash (e ∷ es) =
    if not (holds_text e.payload "idempotency_operation" operation)
      || not (holds_text e.payload "idempotency_key" key)
    then replay_from operation key hash es
    else if holds_text e.payload "idempotency_hash" hash
    then ok (some e)
    else err conflict

-- replayIdempotency
unfoldable pub replay_idempotency :
    Board → Principal → String → String → String → Result (Option Event)
unfolding replay_from
replay_idempotency b principal operation key hash =
    if key == ""
    then if principal.agent && principal.policy.require_idempotency then err validation else ok none
    else validate_idempotency_key key >>= λ _. replay_from operation key hash (
        order_by (λ (e f : Event). stamp_before f.created_at e.created_at)
          (select (λ e. e.actor == principal.id) b.events))

-- Open runs of an agent whose lease is current.
abbrev pub leased_run : String → Time → Run → Bool
leased_run agent now r =
    r.agent == agent
    && is_none r.ended_at
    && r.status == TaskStatus.active
    && not (stamp_before r.lease_expires now)

-- enforceAgentPickupLimits
unfoldable pub enforce_pickup_limits : Board → Time → Principal → Result (Unit {0})
enforce_pickup_limits b now principal =
    let running = count (leased_run principal.id now) b.runs in
    let recent =
      λ (r : Run). r.agent == principal.id && not (stamp_before r.started_at (now - minute)) in
    if not principal.agent then ok tt else do
      refuse_if
          (ltb 0 principal.policy.max_concurrent_runs
            && leb principal.policy.max_concurrent_runs running)
          rate_limit
      refuse_if
          (ltb 0 principal.policy.max_pickups_per_minute
            && leb principal.policy.max_pickups_per_minute (count recent b.runs))
          rate_limit

-- `id, _ := event.Payload[key].(string)`
unfoldable pub payload_text : Payload → String → String
payload_text [] key = ""
payload_text ((k, v) ∷ p) key = if k == key then text_of v else payload_text p key
