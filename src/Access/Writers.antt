-- ===== src/Access/Writers.antt =====
-- The rights of agents that do not hold a task: its producer and a runner that leaves a note.
use taskboard.Access.{all_ended, pickup_runner_may_note, producer_fields_only, producer_may_update}
use taskboard.Access.Principals.{Principal}
use taskboard.Board.Queries.{TaskView}
use taskboard.Common.{List, [], arith, count, eq_iff, is_none, refl, true, ◌∷◌, ◌≡◌}
use taskboard.Model.{Run, TaskStatus, UpdateRequest}

-- No open run stands in a list that `all_ended` accepts.
all_ended-count :
    (runs : List Run) → all_ended runs ≡ true → count (λ r. is_none r.ended_at) runs ≡ 0
unfolding all_ended
all_ended-count [] h = refl
all_ended-count (r ∷ runs) h = ground (arith, all_ended-count runs)

-- The producer of a task may update it only while it is queued, without an owner and without an
-- open run.
pub producer_may_update-idle :
    (t : TaskView) (p : Principal)
    → producer_may_update t p ≡ true
    → (t.row.created_by ≡ p.id)
      × (t.row.owner ≡ "")
      × (t.row.status ≡ TaskStatus.queued)
      × (count (λ r. is_none r.ended_at) t.runs ≡ 0)
unfolding producer_may_update
producer_may_update-idle t p h = (
  ground (arith, eq_iff t.row.created_by p.id),
  ground (arith, eq_iff t.row.owner ""),
  ground arith,
  all_ended-count t.runs (ground arith),
)

-- A request of only producer fields names no run, and leaves owner, lane and duplicate link.
producer_fields_only-keeps :
    (r : UpdateRequest)
    → producer_fields_only r ≡ true
    → (is_none r.owner ≡ true) × (is_none r.visibility ≡ true) × (is_none r.duplicate_of ≡ true)
unfolding producer_fields_only
producer_fields_only-keeps r h = (ground arith, ground arith, ground arith)

producer_fields_only-run : (r : UpdateRequest) → producer_fields_only r ≡ true → r.run_id ≡ ""
unfolding producer_fields_only
producer_fields_only-run r h = ground (arith, eq_iff r.run_id "")

-- A request that a runner may send to a task it does not hold keeps status, title, owner and lane
-- and names no run, and the task then has no owner and no open run.
pub pickup_runner_may_note-note :
    (t : TaskView) (p : Principal) (r : UpdateRequest)
    → pickup_runner_may_note t p r ≡ true
    → (t.row.owner ≡ "")
      × (count (λ r. is_none r.ended_at) t.runs ≡ 0)
      × (r.status ≡ TaskStatus.unset)
      × (is_none r.title ≡ true)
      × (is_none r.owner ≡ true)
      × (is_none r.visibility ≡ true)
      × (r.run_id ≡ "")
unfolding pickup_runner_may_note
pickup_runner_may_note-note t p r h =
    let fields : producer_fields_only r ≡ true = ground arith in
    let kept = producer_fields_only-keeps r fields in
    (
      ground (arith, eq_iff t.row.owner ""),
      all_ended-count t.runs (ground arith),
      ground arith,
      ground arith,
      kept.0,
      kept.1,
      producer_fields_only-run r fields,
    )
