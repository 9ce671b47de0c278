-- ===== src/Creation/Lane.antt =====
-- The lane of a task that `createFor` creates for an agent that acts for nobody.
use taskboard.Access.Principals.{Capability, Principal, has_capability}
use taskboard.Board.Queries.{TaskView}
use taskboard.Board.Settings.{Call, Settings}
use taskboard.Checklist.OneActive.{IsSingle}
use taskboard.Claim.{get_for}
use taskboard.Common.{
  >>=-eq-ok, Option, String, [], any, ap, arith, eq_iff, false, forbidden, if-taken, if◌then◌else◌,
  inl, inr, nat_eq, none, not, ok, ok_injective, refl, refuse_if-eq-ok, some, string_eq, subst, sym,
  true, ◌++◌, ◌==◌, ◌∙◌, ◌∷◌, ◌≡◌, ◌⊎◌,
}
use taskboard.Creation.{Planned, planned_of}
use taskboard.Creation.Agents.{
  check_allowed, create_allowed, create_by_agent, create_for, fresh_or_replayed, hashed,
  with_visibility,
}
use taskboard.Creation.Duplicates.{Words, check_duplicates}
use taskboard.Creation.Queue.{queued_row}
use taskboard.Creation.Row.{Created, create_task-Created}
use taskboard.Model.{
  Board, CreateRequest, Event, NewTask, Task, TaskStatus, Visibility, control_kind_eq,
  control_status_eq, escalation_eq, item_eq, normalized_visibility, read_visibility, status_eq,
  visibility_eq,
}
use taskboard.Replay.{replay_idempotency}
use taskboard.Text.{default_actor, to_lower, trim_space}

-- The row that such a creation adds.
pub record AgentTask (b : Board) (principal : Principal) (b' : Board) : Type 0 where
  pub row : Task
  pub added : b'.tasks ≡ b.tasks ++ row ∷ []
  pub fresh : any (λ (t : Task). t.id == row.id) b.tasks ≡ false
  pub visibility : row.visibility ≡ Visibility.agent
  pub status : row.status ≡ TaskStatus.queued
  pub owner : row.owner ≡ ""
  pub creator : row.created_by ≡ default_actor principal.id "user"
  pub version : row.version ≡ 1
  pub runs : b'.runs ≡ b.runs
  pub single : IsSingle b.items → IsSingle b'.items

agent_lane :
    (settings : Settings) (fields : NewTask)
    → fields.visibility ≡ "agent"
    → (planned_of settings fields).visibility ≡ Visibility.agent
unfolding planned_of normalized_visibility read_visibility trim_space to_lower
agent_lane settings fields h = ap (λ v. normalized_visibility v Visibility.team) h

Created-AgentTask :
    (settings : Settings) (call : Call) (b b' : Board) (request : CreateRequest)
    (principal : Principal)
    → request.fields.visibility ≡ "agent"
    → Created settings call b request principal.id b'
    → AgentTask b principal b'
Created-AgentTask settings call b b' request principal lane c = record {
  row = queued_row call b.tasks c.item;
  added = c.queued.tasks;
  fresh = c.queued.fresh;
  visibility =
      ap (λ (p : Planned). p.visibility) c.planned ∙ agent_lane settings request.fields lane;
  status = refl;
  owner = refl;
  creator = c.creator;
  version = refl;
  runs = c.queued.runs;
  single = c.queued.single;
}

fresh_or_replayed-AgentTask :
    (settings : Settings) (words : Words) (call : Call) (b b' : Board) (request : CreateRequest)
    (principal : Principal) (replay : Option Event) (task : TaskView)
    → request.fields.visibility ≡ "agent"
    → fresh_or_replayed settings words call b request principal replay ≡ ok (b', task)
    → (b' ≡ b) ⊎ AgentTask b principal b'
unfolding fresh_or_replayed
fresh_or_replayed-AgentTask settings words call b b' request principal (some event) task lane h =
    let (seen, got, last) = >>=-eq-ok (get_for settings call b event.task_id principal) _ h in
    inl (sym (ap (λ (p : Board × TaskView). p.0) (ok_injective last)))
fresh_or_replayed-AgentTask settings words call b b' request principal none task lane h =
    let (ids, checked, made) = >>=-eq-ok (check_duplicates words b principal request.fields) _ h in
    inr (
      Created-AgentTask settings call b b' _ principal lane
        (create_task-Created settings call b b' _ principal.id task made))

create_by_agent-AgentTask :
    (settings : Settings) (words : Words) (hash : CreateRequest → String) (call : Call)
    (b b' : Board) (request : CreateRequest) (principal : Principal) (task : TaskView)
    → create_by_agent settings words hash call b request principal ≡ ok (b', task)
    → (has_capability principal.identity Capability.task_create ≡ true)
      × ((b' ≡ b) ⊎ AgentTask b principal b')
unfolding create_by_agent
create_by_agent-AgentTask settings words hash call b b' request principal task h =
    let lane = if request.fields.visibility == "" then "agent" else request.fields.visibility in
    let (able, h1) =
      refuse_if-eq-ok (not (has_capability principal.identity Capability.task_create)) forbidden _
        h in
    let (kept, h2) = refuse_if-eq-ok (not (lane == "agent")) forbidden _ h1 in
    let asked : CreateRequest = record request { fields = with_visibility lane request.fields } in
    let (replay, replayed, h3) =
      >>=-eq-ok
        (replay_idempotency b principal "task_create" asked.fields.idempotency_key (hash asked)) _
        h2 in
    (
      ground (arith, able),
      fresh_or_replayed-AgentTask settings words call b b'
          (record asked { fields = hashed (hash asked) asked.fields }) principal replay task
          (ground (arith, kept, eq_iff lane "agent")) h3,
    )

-- An agent that acts for nobody and creates a task through the interface has the capability to
-- create. It is then either a replay, which leaves the board unchanged, or exactly one row is
-- added, under a new identifier: a queued task of the agent lane at version 1, without an owner,
-- created by the agent. No run is added, and the checklists stay single.
pub create_for-AgentTask :
    (settings : Settings) (words : Words) (hash : CreateRequest → String) (call : Call)
    (b b' : Board) (request : CreateRequest) (principal : Principal) (task : TaskView)
    → principal.agent ≡ true
    → principal.on_behalf_of ≡ none
    → create_for settings words hash call b request principal ≡ ok (b', task)
    → (has_capability principal.identity Capability.task_create ≡ true)
      × ((b' ≡ b) ⊎ AgentTask b principal b')
unfolding create_for create_allowed
create_for-AgentTask settings words hash call b b' request principal task agent alone h =
    let (u, allowed, h1) = >>=-eq-ok (check_allowed principal request.requirements) _ h in
    let go : create_allowed settings words hash call b request principal none ≡ ok (b', task) =
      subst (λ o. create_allowed settings words hash call b request principal o ≡ ok (b', task))
        alone h1 in
    let made : create_by_agent settings words hash call b request principal ≡ ok (b', task) =
      if-taken principal.agent _ _ agent go in
    create_by_agent-AgentTask settings words hash call b b' request principal task made
