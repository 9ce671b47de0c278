-- ===== src/FanOut/Samples.antt =====
-- The theorem on delivery at work on two events.
use taskboard.Common.{List, String, [], arith, refl, ◌*◌, ◌∷◌, ◌≡◌}
use taskboard.FanOut.{
  FanOutStep, drop_oldest, mark_event_seen, no_events, publish, publish_all, subscribe,
}
use taskboard.FanOut.Window.{publish-window}
use taskboard.Model.{Event}
use taskboard.Stamp.{minute}

abbrev event_named : String → Event
event_named id = record {
  id = id;
  task_id = "t1";
  run_id = "";
  kind = "task.updated";
  actor = "bot";
  message = "";
  payload = [];
  created_at = 0;
}

abbrev later_steps : List FanOutStep
later_steps = FanOutStep.published (12 * minute) (event_named "e2") ∷ FanOutStep.subscribed ∷ []

publish-window_example :
    (publish
      (15 * minute)
      (publish_all
        (publish
          (10 * minute)
          (publish_all no_events (FanOutStep.subscribed ∷ []))
          (event_named "e1"))
        later_steps)
      (event_named "e1")).subscribers
    ≡ (publish_all
        (publish
          (10 * minute)
          (publish_all no_events (FanOutStep.subscribed ∷ []))
          (event_named "e1"))
        later_steps).subscribers
unfolding publish_all
publish-window_example =
    publish-window (FanOutStep.subscribed ∷ []) later_steps (10 * minute) (15 * minute)
      (event_named "e1") refl refl (omega arith) (omega arith, tt)

-- The first subscriber has got both events, and the second one none.
tests_delivered :
    (publish_all
      (publish
        (10 * minute)
        (publish_all no_events (FanOutStep.subscribed ∷ []))
        (event_named "e1"))
      later_steps).subscribers
    ≡ (event_named "e1" ∷ event_named "e2" ∷ []) ∷ [] ∷ []
unfolding publish_all publish mark_event_seen drop_oldest
tests_delivered = refl

tests_queue :
    (publish 1 (publish 0 (subscribe no_events) (event_named "e1")) (event_named "e1")).subscribers
    ≡ (event_named "e1" ∷ []) ∷ []
unfolding publish mark_event_seen drop_oldest
tests_queue = refl
