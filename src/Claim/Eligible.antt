-- ===== src/Claim/Eligible.antt =====
-- The checks of `claimFor` on the task and on the worker.
-- What a fresh claim requires of the task and of the worker.
use taskboard.Access.Principals.{Principal}
use taskboard.Board.Queries.{TaskView, worker_advertisement}
use taskboard.Board.Settings.{Call}
use taskboard.Checklist.{first}
use taskboard.Claim.{check_task, worker_matches}
use taskboard.Common.{
  Bool, Bool-cases, List, String, [], all, arith, count, eq_iff, false, forbidden, inl, inr,
  is_none, is_some, is_some-none, leb, ltb, nat_eq, none, not, ok, rate_limit, refuse_if-eq-ok,
  refuse_if-false, string_eq, subst, true, validation, ◌&&◌, ◌<◌, ◌==◌, ◌∷◌, ◌≡◌, ◌⊎◌,
}
use taskboard.Model.{
  Board, Run, TaskStatus, Visibility, control_kind_eq, control_status_eq, escalation_eq, item_eq,
  message_eq, status_beq_iff, status_eq, visibility_eq,
}
use taskboard.Text.{contains}

pub record Eligible (call : Call) (b : Board) (p : Principal) (task : TaskView) : Type 0 where
  pub canonical : task.row.duplicate_of ≡ none
  pub waits : (task.row.status ≡ TaskStatus.queued) ⊎ (task.row.status ≡ TaskStatus.stale)
  pub free :
      p.operator ≡ ""
      → task.row.visibility ≡ Visibility.team
      → (task.row.owner ≡ "") ⊎ (task.row.owner ≡ p.id)
  pub fits :
      (item : String)
      → contains item task.requirements ≡ true
      → contains item (worker_advertisement b call.now p.id).capabilities ≡ true
  pub room :
      0 < (worker_advertisement b call.now p.id).capacity
      → count
          (λ (r : Run). r.agent == p.id && is_none r.ended_at && r.status == TaskStatus.active)
          b.runs
        < (worker_advertisement b call.now p.id).capacity

all-contains :
    (p : String → Bool) (xs : List String) (x : String)
    → all p xs ≡ true
    → contains x xs ≡ true
    → p x ≡ true
unfolding contains
all-contains p [] x h k = cc
all-contains p (y ∷ ys) x h k = elim (Bool-cases (y == x)) [
  | inl same ↦ subst (λ z. p z ≡ true) ((eq_iff y x).0 same) (ground arith)
  | inr other ↦ all-contains p ys x (ground arith) (ground arith)
]

status_choice : (s t u : TaskStatus) → (not (s == t) && not (s == u)) ≡ false → (s ≡ t) ⊎ (s ≡ u)
status_choice s t u h = elim (Bool-cases (s == t)) [
  | inl first ↦ inl ((status_beq_iff s t).0 first)
  | inr other ↦ inr ((status_beq_iff s u).0 (ground arith))
]

pub check_task-Eligible :
    (call : Call) (b : Board) (p : Principal) (task : TaskView) (u : Unit {0})
    → check_task call b p task ≡ ok u
    → Eligible call b p task
unfolding check_task worker_matches
check_task-Eligible call b p task u h =
    let worker = worker_advertisement b call.now p.id in
    let busy =
      count (λ (r : Run). r.agent == p.id && is_none r.ended_at && r.status == TaskStatus.active)
        b.runs in
    let (c1, h1) = refuse_if-eq-ok (is_some task.row.duplicate_of) validation _ h in
    let (c2, h2) =
      refuse_if-eq-ok
        (not (task.row.status == TaskStatus.queued) && not (task.row.status == TaskStatus.stale))
        validation _ h1 in
    let (c3, h3) =
      refuse_if-eq-ok
        (p.operator == ""
          && task.row.visibility == Visibility.team
          && not (task.row.owner == "")
          && not (task.row.owner == p.id))
        forbidden _ h2 in
    let (c4, h4) =
      refuse_if-eq-ok (not (all (λ item. contains item worker.capabilities) task.requirements))
        validation _ h3 in
    let c5 = refuse_if-false (ltb 0 worker.capacity && leb worker.capacity busy) rate_limit u h4 in
    record {
      canonical = is_some-none task.row.duplicate_of c1;
      waits = status_choice task.row.status TaskStatus.queued TaskStatus.stale c2;
      free = λ alone lane. elim (Bool-cases (task.row.owner == "")) [
        | inl unowned ↦ inl ((eq_iff task.row.owner "").0 unowned)
        | inr owned ↦ elim (Bool-cases (task.row.owner == p.id)) [
          | inl mine ↦ inr ((eq_iff task.row.owner p.id).0 mine)
          | inr other ↦ let bad = rw (alone, lane, owned, other) at c3 in cc
        ]
      ];
      fits = λ item k.
          all-contains (λ x. contains x worker.capabilities) task.requirements item (ground arith)
            k;
      room = λ some_room. ground arith;
    }
