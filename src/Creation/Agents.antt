-- ===== src/Creation/Agents.antt =====
-- createFor, createDelegated and startFor: who may create a task, and in which lane.
use taskboard.Access.Principals.{Capability, Identity, Permission, Principal, can, has_capability}
use taskboard.Board.Queries.{TaskView}
use taskboard.Board.Settings.{Call, Settings}
use taskboard.Claim.{Claimed, get_for, replayed_claim}
use taskboard.Common.{
  Bool, List, Option, Result, String, all, forbidden, if◌then◌else◌, nat_eq, none, not, ok, some,
  string_eq, true, ◌&&◌, ◌==◌, ◌>>=◌, ◌>>◌, ◌||◌,
}
use taskboard.Creation.{refuse_if}
use taskboard.Creation.Duplicates.{Words, check_duplicates}
use taskboard.Creation.Queue.{create_task}
use taskboard.Creation.Requirements.{normalize_requirements}
use taskboard.Creation.Start.{start_task}
use taskboard.Model.{
  Board, CreateRequest, Event, NewTask, StartRequest, control_kind_eq, control_status_eq,
  escalation_eq, item_eq, status_eq, visibility_eq,
}
use taskboard.Replay.{enforce_pickup_limits, replay_idempotency}

-- The person that an agent acts for, as a principal of their own.
abbrev pub person_principal : Identity → Principal
person_principal person = record { identity = person; on_behalf_of = none; operator = "" }

-- `len(person.ID) == 0`, an agent, or a person that may not write
abbrev may_not_delegate : Identity → Bool
may_not_delegate person = person.agent || person.id == "" || not (can person Permission.task_write)

abbrev pub with_visibility : String → NewTask → NewTask
with_visibility visibility r = record r { visibility = visibility }

-- The requirements that the policy of an agent allows.
unfoldable pub check_allowed : Principal → List String → Result (Unit {0})
check_allowed principal requirements =
    if not principal.agent
    then ok tt
    else normalize_requirements requirements >>= λ items.
        refuse_if (not (all principal.policy.allowed_requirements items)) forbidden

abbrev pub hashed : String → NewTask → NewTask
hashed hash r = record r { idempotency_hash = hash }

replayed_or_created :
    Settings
    → Call
    → Board
    → CreateRequest
    → String
    → Principal
    → Option Event
    → Result (Board × TaskView)
replayed_or_created settings call b request creator reader none =
    create_task settings call b request creator
replayed_or_created settings call b request creator reader (some event) =
    get_for settings call b event.task_id reader >>= λ task. ok (b, task)

-- createDelegated; `hash` is the digest of the request.
unfoldable pub create_delegated :
    Settings
    → (CreateRequest → String)
    → Call
    → Board
    → CreateRequest
    → Principal
    → Identity
    → Result (Board × TaskView)
unfolding replayed_or_created
create_delegated settings hash call b request principal person = do
  refuse_if
      (may_not_delegate person || not (has_capability principal.identity Capability.task_create))
      forbidden
  let lane = if request.fields.visibility == "" then "private" else request.fields.visibility
  let asked = record request { fields = with_visibility lane request.fields; delegated_via = "mcp" }
  let reader : Principal =
      person_principal (record person { agent = true; policy = principal.policy })
  replay ← replay_idempotency b reader "task_create" asked.fields.idempotency_key (hash asked)
  replayed_or_created settings call b (record asked { fields = hashed (hash asked) asked.fields })
      person.id (person_principal person) replay

-- A fresh creation by an agent passes the search for similar tasks.
unfoldable pub fresh_or_replayed :
    Settings
    → Words
    → Call
    → Board
    → CreateRequest
    → Principal
    → Option Event
    → Result (Board × TaskView)
fresh_or_replayed settings words call b request principal (some event) =
    get_for settings call b event.task_id principal >>= λ task. ok (b, task)
fresh_or_replayed settings words call b request principal none = do
  overridden ← check_duplicates words b principal request.fields
  let fields : NewTask = request.fields
  create_task settings call b
      (record request { fields = record fields { overridden_duplicates = overridden } })
      principal.id

-- What createFor does for an agent that acts for nobody, or in the agent lane.
unfoldable pub create_by_agent :
    Settings
    → Words
    → (CreateRequest → String)
    → Call
    → Board
    → CreateRequest
    → Principal
    → Result (Board × TaskView)
create_by_agent settings words hash call b request principal = do
  refuse_if (not (has_capability principal.identity Capability.task_create)) forbidden
  let lane = if request.fields.visibility == "" then "agent" else request.fields.visibility
  refuse_if (not (lane == "agent")) forbidden
  let asked = record request { fields = with_visibility lane request.fields }
  replay ← replay_idempotency b principal "task_create" asked.fields.idempotency_key (hash asked)
  let stamped = record asked { fields = hashed (hash asked) asked.fields }
  fresh_or_replayed settings words call b stamped principal replay

create_by_person : Settings → Call → Board → CreateRequest → Principal → Result (Board × TaskView)
create_by_person settings call b request principal = do
  refuse_if (not (can principal.identity Permission.task_write)) forbidden
  let lane = if request.fields.visibility == "" then "private" else request.fields.visibility
  create_task settings call b (record request { fields = with_visibility lane request.fields })
      principal.id

-- createFor after the check of the requirements
unfoldable pub create_allowed :
    Settings
    → Words
    → (CreateRequest → String)
    → Call
    → Board
    → CreateRequest
    → Principal
    → Option Identity
    → Result (Board × TaskView)
unfolding create_by_agent create_by_person
create_allowed settings words hash call b request principal none =
    if principal.agent
    then create_by_agent settings words hash call b request principal
    else create_by_person settings call b request principal
create_allowed settings words hash call b request principal (some person) =
    if principal.agent && not (request.fields.visibility == "agent")
    then create_delegated settings hash call b request principal person
    else if principal.agent
    then create_by_agent settings words hash call b request principal
    else create_by_person settings call b request principal

-- createFor
unfoldable pub create_for :
    Settings
    → Words
    → (CreateRequest → String)
    → Call
    → Board
    → CreateRequest
    → Principal
    → Result (Board × TaskView)
unfolding create_allowed create_by_agent create_by_person fresh_or_replayed
create_for settings words hash call b request principal = do
  check_allowed principal request.requirements
  create_allowed settings words hash call b request principal principal.on_behalf_of

-- The person for whom an agent starts private work.
delegated_person : Principal → String → Option Identity → Option Identity
delegated_person principal visibility none = none
delegated_person principal visibility (some person) =
    if principal.agent && (visibility == "" || visibility == "private") then some person else none

start_checked :
    Settings
    → Words
    → Call
    → Board
    → StartRequest
    → Principal
    → String
    → Option Event
    → Result Claimed
start_checked settings words call b request principal creator (some event) =
    replayed_claim settings call b principal event
start_checked settings words call b request principal creator none = do
  enforce_pickup_limits b call.now principal
  overridden ← check_duplicates words b principal request.fields
  let fields : NewTask = request.fields
  start_task settings call b
      (record request { fields = record fields { overridden_duplicates = overridden } }) creator

-- startFor for an agent, once its lane is settled; `creator` is the person it acts for, or itself.
start_by_agent :
    Settings
    → Words
    → (StartRequest → String)
    → Call
    → Board
    → StartRequest
    → Principal
    → String
    → String
    → Result Claimed
unfolding start_checked
start_by_agent settings words hash call b request principal lane creator = do
  let asked : StartRequest = record request {
    fields = with_visibility lane request.fields;
    agent = principal.id;
  }
  replay ← replay_idempotency b principal "task_start" asked.fields.idempotency_key (hash asked)
  start_checked settings words call b (record asked { fields = hashed (hash asked) asked.fields })
      principal creator replay

-- startFor for an agent: with the person it acts for, or in a lane of its own.
start_in_lane :
    Settings
    → Words
    → (StartRequest → String)
    → Call
    → Board
    → StartRequest
    → Principal
    → Option Identity
    → Result Claimed
unfolding start_by_agent
start_in_lane settings words hash call b request principal (some person) = do
  refuse_if (not (has_capability principal.identity Capability.task_create)) forbidden
  refuse_if (may_not_delegate person) forbidden
  start_by_agent settings words hash call b request principal "private" person.id
start_in_lane settings words hash call b request principal none = do
  refuse_if (not (has_capability principal.identity Capability.task_create)) forbidden
  let lane = if request.fields.visibility == "" then "agent" else request.fields.visibility
  refuse_if (lane == "private") forbidden
  start_by_agent settings words hash call b request principal lane principal.id

start_by_person : Settings → Call → Board → StartRequest → Principal → Result Claimed
start_by_person settings call b request principal = do
  refuse_if (not (can principal.identity Permission.task_write)) forbidden
  let lane = if request.fields.visibility == "" then "private" else request.fields.visibility
  start_task settings call b (record request { fields = with_visibility lane request.fields })
      principal.id

-- startFor
unfoldable pub start_for :
    Settings
    → Words
    → (StartRequest → String)
    → Call
    → Board
    → StartRequest
    → Principal
    → Result Claimed
unfolding start_in_lane start_by_person start_by_agent start_checked delegated_person
start_for settings words hash call b request principal =
    if principal.agent
    then start_in_lane settings words hash call b request principal
        (delegated_person principal request.fields.visibility principal.on_behalf_of)
    else start_by_person settings call b request principal
