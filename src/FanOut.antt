-- ===== src/FanOut.antt =====
-- The delivery of events to subscribers: `Subscribe`, `publish` and `markEventSeen` of
-- internal/service/service.go. A subscriber is its channel, the queue of what it has not received.
pub mod Marks
pub mod Window
mod Samples
use taskboard.Common.{
  Bool, List, String, [], any, false, if◌then◌else◌, length, ltb, map, nat_eq, not, select,
  string_eq, true, ℕ, ◌&&◌, ◌*◌, ◌++◌, ◌-◌, ◌==◌, ◌||◌, ◌∷◌,
}
use taskboard.Model.{
  Event, control_kind_eq, control_status_eq, escalation_eq, item_eq, message_eq, status_eq,
  visibility_eq,
}
use taskboard.Stamp.{Time, minute}

abbrev pub Entry : Type 0
Entry = String × Time

-- `recentEvents`, as the list of its entries, and `recentOrder`.
pub record Recent : Type 0 where
  pub events : List Entry
  pub order : List Entry

abbrev pub has_key : String → Entry → Bool
has_key id (key, seen) = key == id

-- `seen.Equal(oldest.seen)`: the entry of the map that the oldest mark has made
abbrev pub same_mark : Entry → Entry → Bool
same_mark (id, at_time) (key, seen) = key == id && seen == at_time

abbrev pub forget : Entry → List Entry → List Entry
forget oldest events = select (λ e. not (same_mark oldest e)) events

abbrev pub max_recent : ℕ
max_recent = 4096

-- The loop that drops the oldest marks.
unfoldable pub drop_oldest : Time → List Entry → List Entry → Recent
drop_oldest cutoff events [] = record { events = events; order = [] }
drop_oldest cutoff events (oldest ∷ order) =
    let rest = drop_oldest cutoff (forget oldest events) order in
    if ltb max_recent (length (oldest ∷ order)) || ltb oldest.1 cutoff
    then rest
    else record { events = events; order = oldest ∷ order }

-- markEventSeen
unfoldable pub mark_event_seen : Time → Recent → String → Recent × Bool
mark_event_seen now recent id = if any (has_key id) recent.events then (recent, false) else (
  drop_oldest (now - 10 * minute) (recent.events ++ (id, now) ∷ [])
      (recent.order ++ (id, now) ∷ []),
  true,
)

pub record FanOut : Type 0 where
  pub recent : Recent
  pub subscribers : List (List Event)

-- A send to a channel of 16 places, which is dropped when the channel is full.
abbrev pub offer : Event → List Event → List Event
offer event queue = if ltb (length queue) 16 then queue ++ event ∷ [] else queue

-- Subscribe
abbrev pub subscribe : FanOut → FanOut
subscribe s = record s { subscribers = s.subscribers ++ [] ∷ [] }

-- publish
unfoldable pub publish : Time → FanOut → Event → FanOut
publish now s event =
    let (recent, fresh) =
      if event.id == "" then (s.recent, true) else mark_event_seen now s.recent event.id in
    if fresh
    then record { recent = recent; subscribers = map (offer event) s.subscribers }
    else record s { recent = recent }

-- What happens to the service: a new subscriber, or an event at a time.
pub data FanOutStep : Type 0 where
  subscribed : FanOutStep
  published : Time → Event → FanOutStep

unfoldable pub publish_all : FanOut → List FanOutStep → FanOut
publish_all s [] = s
publish_all s (FanOutStep.subscribed ∷ steps) = publish_all (subscribe s) steps
publish_all s (FanOutStep.published now event ∷ steps) = publish_all (publish now s event) steps

-- The state of a new service.
abbrev pub no_events : FanOut
no_events = record { recent = record { events = []; order = [] }; subscribers = [] }
