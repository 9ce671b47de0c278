-- ===== src/Creation/Started.antt =====
-- What a start stores: an active task of the agent, its run under a lease, and a checklist whose
-- first item is current.
use taskboard.Board.Queries.{TaskView, get_task, insert_event}
use taskboard.Board.Settings.{Call, Settings}
use taskboard.Checklist.{active_in, has_id, insert_item, new_item}
use taskboard.Checklist.OneActive.{IsSingle, insert_item-IsSingle, keys-snoc}
use taskboard.Claim.{Claimed}
use taskboard.Common.{
  >>=-eq-ok, Bool-cases, List, String, [], any, ap, arith, count, count-append, eq_iff, false, inl,
  inr, is_nil, length, nat_eq, none, ok, ok_injective, refl, refuse_if-eq-ok, string_eq, subst, suc,
  sym, validation, ℕ, ◌++◌, ◌+◌, ◌==◌, ◌∙◌, ◌∷◌, ◌≡◌,
}
use taskboard.Creation.{check_labels, check_planned, insert_task, inserted_row, planned_of}
use taskboard.Creation.Row.{insert_task-eq-ok}
use taskboard.Creation.Start.{
  first_active, insert_started, newest_run, or_unassigned, start_task, started_run, write_start,
}
use taskboard.Model.{
  Board, Item, Run, StartRequest, Task, TaskStatus, Visibility, control_kind_eq, control_status_eq,
  escalation_eq, item_eq, message_eq, normalized_visibility, status_eq, visibility_eq,
}
use taskboard.Sessions.{insert_agent_run, stored_run}
use taskboard.Sessions.Added.{insert_agent_run-RunAdded}
use taskboard.Stamp.{Time}
use taskboard.Text.{default_actor, trim_space}

-- A current item of a task that has none.
insert_current-IsSingle :
    (items : List Item) (new : Item) (items' : List Item)
    → IsSingle items
    → count (active_in new.task_id) items ≡ 0
    → insert_item items new ≡ ok items'
    → IsSingle items'
unfolding insert_item
insert_current-IsSingle items new items' s idle h = elim (Bool-cases (any (has_id new.id) items)) [
  | inl taken ↦ let go = rw taken at h in cc
  | inr free ↦
      let go = rw free at h in
      subst IsSingle (ok_injective go) (record {
        keys = λ id. keys-snoc items new id free (s.keys id);
        current = λ t. elim (Bool-cases (new.task_id == t)) [
          | inl mine ↦
              let none_yet : count (active_in t) items ≡ 0 =
                subst (λ k. count (active_in k) items ≡ 0) ((eq_iff new.task_id t).0 mine) idle in
              ground (arith, none_yet, count-append (active_in t) items (new ∷ []))
          | inr other ↦ ground (arith, s.current t, count-append (active_in t) items (new ∷ []))
        ];
      })
]

insert_rest-IsSingle :
    (now : Time) (new_id : ℕ → String) (from : ℕ) (task_id : String) (items : List Item)
    (position : ℕ) (labels : List String) (items' : List Item)
    → IsSingle items
    → insert_started now new_id from task_id items (suc position) labels ≡ ok items'
    → IsSingle items'
unfolding insert_started
insert_rest-IsSingle now new_id from task_id items position [] items' s h =
    subst IsSingle (ok_injective h) s
insert_rest-IsSingle now new_id from task_id items position (label ∷ labels) items' s h =
    let new = first_active (new_item (new_id from) task_id label (suc position) now) in
    let (mid, one, rest) = >>=-eq-ok (insert_item items new) _ h in
    insert_rest-IsSingle now new_id (suc from) task_id mid (suc position) labels items'
      (insert_item-IsSingle items new s (ground arith) one) rest

pub insert_started-IsSingle :
    (now : Time) (new_id : ℕ → String) (from : ℕ) (task_id : String) (items : List Item)
    (labels : List String) (items' : List Item)
    → IsSingle items
    → count (active_in task_id) items ≡ 0
    → insert_started now new_id from task_id items 0 labels ≡ ok items'
    → IsSingle items'
unfolding insert_started
insert_started-IsSingle now new_id from task_id items [] items' s idle h =
    subst IsSingle (ok_injective h) s
insert_started-IsSingle now new_id from task_id items (label ∷ labels) items' s idle h =
    let new = first_active (new_item (new_id from) task_id label 0 now) in
    let (mid, one, rest) = >>=-eq-ok (insert_item items new) _ h in
    insert_rest-IsSingle now new_id (suc from) task_id mid 0 labels items'
      (insert_current-IsSingle items new mid s idle one) rest

-- A start that succeeds.
pub record Started (settings : Settings) (call : Call) (b : Board) (request : StartRequest)
    (actor : String) (b' : Board) : Type 0 where
  pub row : Task
  pub added : b'.tasks ≡ b.tasks ++ row ∷ []
  pub named : row.id ≡ call.new_id 0
  pub fresh : any (λ (t : Task). t.id == row.id) b.tasks ≡ false
  pub status : row.status ≡ TaskStatus.active
  pub owner : row.owner ≡ or_unassigned (trim_space request.agent) actor
  pub owner_asked : (trim_space request.agent == "") ≡ false → row.owner ≡ trim_space request.agent
  pub version : row.version ≡ 1
  pub visibility : row.visibility ≡ normalized_visibility request.fields.visibility Visibility.team
  pub run : Run
  pub runs : b'.runs ≡ b.runs ++ run ∷ []
  pub run_id : run.id ≡ call.new_id 1
  pub run_fresh : any (λ (r : Run). r.id == run.id) b.runs ≡ false
  pub run_task : run.task_id ≡ row.id
  pub run_agent : run.agent ≡ row.owner
  pub run_status : run.status ≡ TaskStatus.active
  pub run_open : run.ended_at ≡ none
  pub leased : run.lease_expires ≡ call.now + settings.lease_duration
  pub single : IsSingle b.items → count (active_in (call.new_id 0)) b.items ≡ 0 → IsSingle b'.items

newest_run-board :
    (b : Board) (task : TaskView) (runs : List Run) (c : Claimed)
    → newest_run b task runs ≡ ok c
    → c.board ≡ b
newest_run-board b task [] c h = cc
newest_run-board b task (run ∷ runs) c h = sym (ap (λ (x : Claimed). x.board) (ok_injective h))

-- A start adds exactly one row, under a new identifier: an active task at version 1 of the asked
-- visibility, owned by the agent or the actor. It adds one run, under a new identifier: active and
-- not ended, of that task and its owner, with a lease that ends one lease duration after the
-- start. It keeps the checklists single if the new identifier has no current item before.
pub start_task-Started :
    (settings : Settings) (call : Call) (b : Board) (request : StartRequest) (actor : String)
    (c : Claimed)
    → start_task settings call b request actor ≡ ok c
    → Started settings call b request actor c.board
unfolding start_task write_start planned_of insert_event
start_task-Started settings call b request actor c h =
    let p = planned_of settings request.fields in
    let agent = or_unassigned (trim_space request.agent) actor in
    let creator = default_actor actor "user" in
    let new = inserted_row call b.tasks p creator creator TaskStatus.active agent "" in
    let run = started_run settings call agent (trim_space request.client) in
    let (u, checked, h1) = >>=-eq-ok (check_planned settings p _) _ h in
    let (listed, h2) = refuse_if-eq-ok (is_nil request.fields.checklist) validation _ h1 in
    let (labels, clean, h3) = >>=-eq-ok (check_labels request.fields.checklist) _ h2 in
    let (after, wrote, h4) =
      >>=-eq-ok (write_start settings call b p labels agent creator request) _ h3 in
    let (view, seen, h5) = >>=-eq-ok (get_task settings call after (call.new_id 0)) _ h4 in
    let (b1, put_in, w1) = >>=-eq-ok (insert_task b new) _ wrote in
    let (items, made, w2) =
      >>=-eq-ok (insert_started call.now call.new_id 2 (call.new_id 0) b1.items 0 labels) _ w1 in
    let (b2, ran, w3) =
      >>=-eq-ok
        (insert_agent_run settings (call.new_id (length labels + 2)) (record b1 { items = items })
          run (trim_space request.agent_session_key))
        _ w2 in
    let (fresh, row) = insert_task-eq-ok b b1 new put_in in
    let r =
      insert_agent_run-RunAdded settings (call.new_id (length labels + 2))
        (record b1 { items = items }) b2 run (trim_space request.agent_session_key) ran in
    let last : c.board ≡ after = newest_run-board after view view.runs c h5 in
    let stored = ok_injective w3 in
    record {
      row = new;
      added =
          ap (λ (x : Board). x.tasks) last
          ∙ sym (ap (λ (x : Board). x.tasks) stored)
          ∙ r.tasks
          ∙ ap (λ (x : Board). x.tasks) row;
      named = refl;
      fresh = fresh;
      status = refl;
      owner = refl;
      owner_asked = λ given. rw (given, given) refl;
      version = refl;
      visibility = refl;
      run = stored_run run r.session;
      runs =
          ap (λ (x : Board). x.runs) last
          ∙ sym (ap (λ (x : Board). x.runs) stored)
          ∙ r.runs
          ∙ ap (λ (x : Board). x.runs ++ stored_run run r.session ∷ []) row;
      run_id = refl;
      run_fresh =
          ap (λ (x : Board). any (λ (k : Run). k.id == call.new_id 1) x.runs) (sym row) ∙ r.fresh;
      run_task = refl;
      run_agent = refl;
      run_status = refl;
      run_open = refl;
      leased = refl;
      single = λ s idle.
          subst IsSingle
            (sym r.items
              ∙ ap (λ (x : Board). x.items) stored
              ∙ ap (λ (x : Board). x.items) (sym last))
            (insert_started-IsSingle call.now call.new_id 2 (call.new_id 0) b1.items labels items
              (subst IsSingle (ap (λ (x : Board). x.items) (sym row)) s)
              (subst (λ is. count (active_in (call.new_id 0)) is ≡ 0)
                (ap (λ (x : Board). x.items) (sym row)) idle)
              made);
    }
