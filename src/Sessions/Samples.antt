-- ===== src/Sessions/Samples.antt =====
-- A run on a board without sessions.
use taskboard.Callsigns.{candidates}
use taskboard.Common.{String, ok, refl, ◌≡◌}
use taskboard.Fixtures.{board, settings}
use taskboard.Model.{Board}
use taskboard.Sessions.{NewRun, insert_agent_run}
use taskboard.Sessions.Key.{OfKey}
use taskboard.Sessions.Names.{IsDistinct, insert_agent_run-IsDistinct}

abbrev sample_run : String → NewRun
sample_run id = record {
  id = id;
  task_id = "t1";
  agent = "bot";
  client = "cli";
  lease_expires = 1;
  started_at = 0;
}

started : (b : Board) × (insert_agent_run settings "s1" board (sample_run "r1") "k1" ≡ ok b)
unfolding insert_agent_run candidates
started = (_, refl)

insert_agent_run-IsDistinct_example :
    IsDistinct started.0.sessions × OfKey settings board started.0 (sample_run "r1") "k1"
insert_agent_run-IsDistinct_example =
    insert_agent_run-IsDistinct settings "s1" board started.0 (sample_run "r1") "k1" tt started.1
