-- ===== src/Sessions/Added.antt =====
-- A started run is stored as asked for, under the session's name, and no other table changes.
use taskboard.Board.Settings.{Settings}
use taskboard.Common.{
  Bool-cases, List, Option, String, [], any, arith, false, inl, inr, nat_eq, none, ok, some,
  string_eq, ◌++◌, ◌==◌, ◌∷◌, ◌≡◌,
}
use taskboard.Model.{Board, Run, Session, item_eq, status_eq, visibility_eq}
use taskboard.Sessions.{NewRun, add_run, insert_agent_run, run_session, stored_run}

-- What `insert_agent_run` does to the board.
pub record RunAdded (b b' : Board) (run : NewRun) : Type 0 where
  pub session : Session
  pub fresh : any (λ (r : Run). r.id == run.id) b.runs ≡ false
  pub runs : b'.runs ≡ b.runs ++ stored_run run session ∷ []
  pub tasks : b'.tasks ≡ b.tasks
  pub items : b'.items ≡ b.items
  pub events : b'.events ≡ b.events
  pub dependencies : b'.dependencies ≡ b.dependencies

add_run-RunAdded :
    (b b' : Board) (run : NewRun) (o : Option (List Session × Session))
    → add_run b run o ≡ ok b'
    → RunAdded b b' run
add_run-RunAdded b b' run none h = absurd (ground arith)
add_run-RunAdded b b' run (some (ss, s)) h =
    elim (Bool-cases (any (λ (r : Run). r.id == run.id) b.runs)) [
      | inl taken ↦ absurd (ground arith)
      | inr free ↦ record {
        session = s;
        fresh = free;
        runs = ground arith;
        tasks = ground arith;
        items = ground arith;
        events = ground arith;
        dependencies = ground arith;
      }
    ]

pub insert_agent_run-RunAdded :
    (settings : Settings) (id : String) (b b' : Board) (run : NewRun) (key : String)
    → insert_agent_run settings id b run key ≡ ok b'
    → RunAdded b b' run
unfolding insert_agent_run
insert_agent_run-RunAdded settings id b b' run key h =
    add_run-RunAdded b b' run (run_session settings id b.sessions run key) h
