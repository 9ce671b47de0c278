-- ===== src/FanOut/Window.antt =====
-- A second publication of an event, by `publish` and `markEventSeen`.
use taskboard.Common.{
  Bool-cases, List, String, [], any, arith, false, inl, inr, nat_eq, refl, string_eq, suc, true, ℕ,
  ◌*◌, ◌+◌, ◌<◌, ◌==◌, ◌∷◌, ◌≡◌, ◌≤◌,
}
use taskboard.FanOut.{
  FanOut, FanOutStep, has_key, mark_event_seen, max_recent, no_events, publish, publish_all,
  subscribe,
}
use taskboard.FanOut.Marks.{
  IsKept, IsSynced, mark_event_seen-IsKept, mark_event_seen-IsSynced, mark_event_seen-first,
}
use taskboard.Model.{
  Event, control_kind_eq, control_status_eq, escalation_eq, item_eq, message_eq, status_eq,
  visibility_eq,
}
use taskboard.Stamp.{Time, minute}

publish-IsSynced :
    (now : Time) (s : FanOut) (event : Event)
    → IsSynced s.recent
    → IsSynced (publish now s event).recent
unfolding publish
publish-IsSynced now s event synced = elim (Bool-cases (event.id == "")) [
  | inl blank ↦ rw blank synced
  | inr named ↦
      let next = mark_event_seen-IsSynced now s.recent event.id synced in
      elim (Bool-cases (mark_event_seen now s.recent event.id).1) [
        | inl fresh ↦ rw (named, fresh) next
        | inr again ↦ rw (named, again) next
      ]
]

publish_all-IsSynced :
    (s : FanOut) (steps : List FanOutStep)
    → IsSynced s.recent
    → IsSynced (publish_all s steps).recent
unfolding publish_all
publish_all-IsSynced s [] synced = synced
publish_all-IsSynced s (FanOutStep.subscribed ∷ steps) synced =
    publish_all-IsSynced (subscribe s) steps synced
publish_all-IsSynced s (FanOutStep.published now event ∷ steps) synced =
    publish_all-IsSynced (publish now s event) steps (publish-IsSynced now s event synced)

publish-IsKept :
    (id : String) (now later : Time) (n : ℕ) (s : FanOut) (event : Event)
    → later ≤ now + 10 * minute
    → suc n < max_recent
    → IsKept id now n s.recent
    → IsKept id now (suc n) (publish later s event).recent
unfolding publish
publish-IsKept id now later n s event young room k = elim (Bool-cases (event.id == "")) [
  | inl blank ↦ rw blank (record {
    before = k.before;
    after = k.after;
    order = k.order;
    apart = k.apart;
    few = omega (arith, k.few);
    known = k.known;
  })
  | inr named ↦
      let next = mark_event_seen-IsKept id event.id now later n s.recent young room k in
      elim (Bool-cases (mark_event_seen later s.recent event.id).1) [
        | inl fresh ↦ rw (named, fresh) next
        | inr again ↦ rw (named, again) next
      ]
]

-- Every event of the list is at most ten minutes after `now`.
abbrev pub AreSoon : Time → List FanOutStep → Type 0
AreSoon now [] = Unit
AreSoon now (FanOutStep.subscribed ∷ steps) = AreSoon now steps
AreSoon now (FanOutStep.published later event ∷ steps) =
    (later ≤ now + 10 * minute) × AreSoon now steps

abbrev pub publications : List FanOutStep → ℕ
publications [] = 0
publications (FanOutStep.subscribed ∷ steps) = publications steps
publications (FanOutStep.published later event ∷ steps) = suc (publications steps)

publish_all-known :
    (id : String) (now : Time) (n : ℕ) (s : FanOut) (steps : List FanOutStep)
    → AreSoon now steps
    → n + publications steps < max_recent
    → IsKept id now n s.recent
    → any (has_key id) (publish_all s steps).recent.events ≡ true
unfolding publish_all
publish_all-known id now n s [] soon room k = k.known
publish_all-known id now n s (FanOutStep.subscribed ∷ steps) soon room k =
    publish_all-known id now n (subscribe s) steps soon room k
publish_all-known id now n s (FanOutStep.published later event ∷ steps) (young, soon) room k =
    publish_all-known id now (suc n) (publish later s event) steps soon (omega (arith, room))
      (publish-IsKept id now later n s event young (omega (arith, room)) k)

publish-first :
    (now : Time) (s : FanOut) (event : Event)
    → (event.id == "") ≡ false
    → IsSynced s.recent
    → any (has_key event.id) s.recent.events ≡ false
    → IsKept event.id now 0 (publish now s event).recent
unfolding publish
publish-first now s event named synced absent =
    let next = mark_event_seen-first event.id now s.recent synced absent in
    elim (Bool-cases (mark_event_seen now s.recent event.id).1) [
      | inl fresh ↦ rw (named, fresh) next
      | inr again ↦ rw (named, again) next
    ]

publish-known :
    (now : Time) (s : FanOut) (event : Event)
    → (event.id == "") ≡ false
    → any (has_key event.id) s.recent.events ≡ true
    → (publish now s event).subscribers ≡ s.subscribers
unfolding publish mark_event_seen
publish-known now s event named known = rw (named, known) refl

-- An event with an identifier that was published when it was not among the recent ones is not
-- delivered again: while fewer than 4096 events have been published since, each at most ten
-- minutes after it, a second publication changes no subscriber's queue, whoever has subscribed
-- before the first publication or since.
pub publish-window :
    (history later : List FanOutStep) (now again : Time) (event : Event)
    → (event.id == "") ≡ false
    → any (has_key event.id) (publish_all no_events history).recent.events ≡ false
    → publications later < max_recent
    → AreSoon now later
    → let s = publish_all (publish now (publish_all no_events history) event) later in
      (publish again s event).subscribers ≡ s.subscribers
publish-window history later now again event named fresh few soon =
    let before = publish_all no_events history in
    let synced =
      publish_all-IsSynced no_events history
        (record { once = λ id. omega arith; known = λ id m. m }) in
    let first = publish-first now before event named synced fresh in
    let known =
      publish_all-known event.id now 0 (publish now before event) later soon (omega (arith, few))
        first in
    publish-known again (publish_all (publish now before event) later) event named known
