-- ===== src/Sessions.antt =====
-- Runs and the sessions that name them: `insertAgentRun` of internal/service/service.go. The
-- unique indexes of `agent_sessions` (migration 15) decide which insertions conflict.
pub mod Key
pub mod Names
pub mod Added
mod Samples
use Prim.Native.String.{◌++◌ as ◌+s+◌}
use taskboard.Board.Settings.{Settings}
use taskboard.Callsigns.{candidates}
use taskboard.Common.{
  Bool, List, Option, Result, String, [], any, err, failed, find, if◌then◌else◌, nat_eq, none, ok,
  some, string_eq, update, ◌&&◌, ◌++◌, ◌==◌, ◌||◌, ◌∷◌,
}
use taskboard.Fixtures.{settings}
use taskboard.Model.{Board, Run, Session, TaskStatus, item_eq, status_eq, visibility_eq}
use taskboard.Stamp.{Time}
use taskboard.Text.{sql_lower}

-- A run before it is stored: the fields that the callers set.
pub record NewRun : Type 0 where
  pub id : String
  pub task_id : String
  pub agent : String
  pub client : String
  pub lease_expires : Time
  pub started_at : Time

abbrev pub key_material : String → String → String
key_material session_key run_id =
    if session_key == "" then "run\0" +s+ run_id else "session\0" +s+ session_key

abbrev of_key : String → String → Session → Bool
of_key agent hash s = s.agent == agent && s.key_hash == hash

-- The primary key, or one of the unique indexes on (agent, key_hash) and lower(callsign).
pub session_conflicts : Session → Session → Bool
session_conflicts new s =
    s.id == new.id
    || of_key new.agent new.key_hash s
    || sql_lower s.callsign == sql_lower new.callsign

-- The loop over the candidate names: the first insertion that does not conflict. After a conflict
-- it looks for the session of the key again.
pub insert_session : List Session → Session → List String → Option (List Session × Session)
unfolding session_conflicts
insert_session sessions new [] = none
insert_session sessions new (name ∷ names) =
    let named : Session = record new { callsign = name } in
    let rest = insert_session sessions new names in
    let again : Option (List Session × Session) =
      elim (find (of_key new.agent new.key_hash) sessions) [
        | some s ↦ some (sessions, s)
        | none ↦ rest
      ] in
    if any (session_conflicts named) sessions then again else some (sessions ++ named ∷ [], named)

-- The session of the run: the one of its key, or a new one under a free name.
pub run_session :
    Settings → String → List Session → NewRun → String → Option (List Session × Session)
unfolding insert_session
run_session settings session_id sessions run session_key =
    let hash = settings.key_hash (key_material session_key run.id) in
    elim (find (of_key run.agent hash) sessions) [
      | some s ↦ some (sessions, s)
      | none ↦
          insert_session sessions
            (record {
              id = session_id;
              agent = run.agent;
              client = run.client;
              key_hash = hash;
              callsign = "";
              created_at = run.started_at;
              updated_at = run.started_at;
            })
            (candidates session_id)
    ]

abbrev pub stored_run : NewRun → Session → Run
stored_run run session = record {
  id = run.id;
  task_id = run.task_id;
  session_id = session.id;
  agent = run.agent;
  client = run.client;
  callsign = session.callsign;
  status = TaskStatus.active;
  lease_expires = run.lease_expires;
  last_heartbeat = run.started_at;
  started_at = run.started_at;
  ended_at = none;
}

abbrev touched : NewRun → Session → Session
touched run s = record s { client = run.client; updated_at = run.started_at }

abbrev add_run : Board → NewRun → Option (List Session × Session) → Result Board
add_run b run none = err failed
add_run b run (some (sessions, session)) =
    if any (λ (r : Run). r.id == run.id) b.runs
    then err failed
    else ok (record b {
      sessions = update (λ s. s.id == session.id) (touched run) sessions;
      runs = b.runs ++ stored_run run session ∷ [];
    })

-- insertAgentRun
unfoldable pub insert_agent_run : Settings → String → Board → NewRun → String → Result Board
unfolding run_session
insert_agent_run settings session_id b run session_key =
    add_run b run (run_session settings session_id b.sessions run session_key)
