-- ===== src/Claim/Outcome.antt =====
-- What a successful claim has done.
use Prim.Native.String.{len}
use taskboard.Board.Queries.{
  insert_event, list_runs, load_task, shown_run, unmet_dependencies, write_task,
}
use taskboard.Board.Settings.{Call, Settings, defer_active}
use taskboard.Board.Views.{In-list_runs, get_task-fields, shown_run-stored}
use taskboard.Board.Writes.{
  events-insert_event, items-insert_event, load_task-insert_event, load_task-tasks,
  load_task-write_task, runs-insert_event, write_task-rest,
}
use taskboard.Checklist.{activate_first}
use taskboard.Checklist.Activate.{activate_first-IsSingle}
use taskboard.Checklist.OneActive.{IsSingle}
use taskboard.Claim.{
  Claimed, check_claimable, claim, claim_agent, claim_event, claimed_row, is_terminal_status,
  new_run, write_claim,
}
use taskboard.Claim.Version.{claim-Claimable}
use taskboard.Common.{
  >>=-eq-ok, In, In-append, In-find, String, [], any, any-false-In, ap, arith, eq_iff, err, false,
  find-holds, inl, inr, ltb, nat_eq, none, not, ok, refl, refuse_if-eq-ok, retry, string_eq, subst,
  sym, true, version_conflict, ◌++◌, ◌+◌, ◌==◌, ◌||◌, ◌∙◌, ◌∷◌, ◌≡◌, ◌≤◌,
}
use taskboard.Model.{
  Board, ClaimRequest, Event, Run, Session, Task, TaskStatus, control_kind_eq, control_status_eq,
  escalation_eq, item_eq, message_eq, status_eq, visibility_eq,
}
use taskboard.Replay.{holds_text, idempotency_payload, merge_payload}
use taskboard.Sessions.{NewRun, insert_agent_run, stored_run}
use taskboard.Sessions.Added.{RunAdded, insert_agent_run-RunAdded}
use taskboard.Text.{trim_space}

abbrev pub claim_run : Settings → Call → String → String → ClaimRequest → NewRun
claim_run settings call id actor request =
    new_run settings call (trim_space id) (claim_agent actor request) (trim_space request.client)

-- The steps of `write_claim`.
record Written (settings : Settings) (call : Call) (b : Board) (id agent : String)
    (request : ClaimRequest) (b' : Board) : Type 0 where
  middle : Board
  last : Board
  added :
      RunAdded
        (record b { items = activate_first call.now id b.items })
        middle
        (new_run settings call id agent (trim_space request.client))
  row : write_task middle id request.expected_version (claimed_row agent call.now) ≡ ok last
  logged : b' ≡ insert_event last (claim_event call id agent request)

write_claim-Written :
    (settings : Settings) (call : Call) (b : Board) (id agent : String) (request : ClaimRequest)
    (b' : Board)
    → write_claim settings call b id agent request ≡ ok b'
    → Written settings call b id agent request b'
unfolding write_claim
write_claim-Written settings call b id agent request b' h =
    let b1 = record b { items = activate_first call.now id b.items } in
    let run = new_run settings call id agent (trim_space request.client) in
    let key = trim_space request.agent_session_key in
    let (b2, started, h1) = >>=-eq-ok (insert_agent_run settings (call.new_id 1) b1 run key) _ h in
    let (b3, row, h2) =
      >>=-eq-ok (write_task b2 id request.expected_version (claimed_row agent call.now)) _ h1 in
    record {
      middle = b2;
      last = b3;
      added = insert_agent_run-RunAdded settings (call.new_id 1) b1 b2 run key started;
      row = row;
      logged = cc h2;
    }

module _ (settings : Settings) (call : Call) (b : Board) (id : String) (request : ClaimRequest)
    (actor : String) (c : Claimed) (ok_claim : claim settings call b id request actor ≡ ok c) where
  steps : Written settings call b (trim_space id) (claim_agent actor request) request c.board
  steps =
      write_claim-Written settings call b (trim_space id) (claim_agent actor request) request
        c.board (claim-Claimable settings call b id request actor c ok_claim).written

  -- A claim succeeds only on a task at the expected version that is not terminal, has no unmet
  -- dependency and is not deferred. The stored row of the task then has the status active, the
  -- claiming agent as its owner, no time of completion, the next version and the time of the
  -- claim, and every other field as before.
  pub claim-row :
      (current : Task) × (load_task b (trim_space id) ≡ ok current)
      × (current.version ≡ request.expected_version)
      × (is_terminal_status current.status ≡ false)
      × (unmet_dependencies b (trim_space id) ≡ 0)
      × (defer_active settings current.defer_until call.store_now ≡ false)
      × (load_task c.board (trim_space id)
          ≡ ok (record current {
            status = TaskStatus.active;
            owner = claim_agent actor request;
            completed_at = none;
            updated_at = call.now;
            version = current.version + 1;
          }))
  claim-row =
      let p = claim-Claimable settings call b id request actor c ok_claim in
      let w = steps in
      let change = claimed_row (claim_agent actor request) call.now in
      let task_id = trim_space id in
      let row : write_task w.middle task_id p.current.version change ≡ ok w.last =
        ap (λ v. write_task w.middle task_id v change) p.version ∙ w.row in
      let before : load_task w.middle task_id ≡ ok p.current =
        load_task-tasks w.middle b task_id w.added.tasks ∙ p.loaded in
      (
        p.current,
        p.loaded,
        p.version,
        p.open_status,
        p.met,
        p.due,
        ap (λ k. load_task k task_id) w.logged
            ∙ load_task-insert_event w.last task_id _
            ∙ load_task-write_task w.middle w.last task_id p.current change (λ u. refl) before row,
      )

  -- The runs of the board after a claim: one more, with a new identifier.
  pub claim-runs :
      (session : Session) × (c.board.runs
        ≡ b.runs ++ stored_run (claim_run settings call id actor request) session ∷ [])
      × (any (λ (r : Run). r.id == call.new_id 0) b.runs ≡ false)
  claim-runs =
      let w = steps in
      (
        w.added.session,
        ap (λ k. k.runs) w.logged
            ∙ runs-insert_event w.last _
            ∙ (write_task-rest w.middle w.last (trim_space id) _ _ w.row).1
            ∙ w.added.runs,
        w.added.fresh,
      )

  -- The new run is the only one with its identifier.
  only_new : (s new : Run) → In s (b.runs ++ new ∷ []) → (s.id == call.new_id 0) ≡ true → s ≡ new
  only_new s new m named = elim (In-append s b.runs _ m) [
    | inl old ↦ absurd (
        ground (arith, any-false-In (λ (r : Run). r.id == call.new_id 0) s b.runs claim-runs.2 old))
    | inr (inl e) ↦ e
    | inr (inr bad) ↦ elim bad [ ]
  ]

  -- The run that a successful claim returns holds the task for the claiming agent, is active and
  -- not ended, and its lease ends one lease duration after the claim.
  pub claim-run :
      (c.run.task_id ≡ trim_space id)
      × (c.run.agent ≡ claim_agent actor request)
      × (c.run.status ≡ TaskStatus.active)
      × (c.run.ended_at ≡ none)
      × (c.run.lease_expires ≡ call.now + settings.lease_duration)
  claim-run =
      let p = claim-Claimable settings call b id request actor c ok_claim in
      let w = steps in
      let task_id = trim_space id in
      let (session, stored, fresh) = claim-runs in
      let new = stored_run (claim_run settings call id actor request) session in
      let listed : In c.run (list_runs c.board task_id) =
        subst (In c.run) (get_task-fields settings call c.board task_id c.task p.view).2
          (In-find (λ (r : Run). r.id == call.new_id 0) c.task.runs c.run p.run) in
      let (s, m, here, shown) = In-list_runs c.board task_id c.run listed in
      let named : (c.run.id == call.new_id 0) ≡ true =
        find-holds (λ (r : Run). r.id == call.new_id 0) c.task.runs c.run p.run in
      let plain = shown ∙ shown_run-stored c.board s in
      let same : s ≡ new =
        only_new s new (subst (In s) stored m)
          (ap (λ (r : Run). r.id == call.new_id 0) (sym plain) ∙ named) in
      let whole : c.run ≡ record new { callsign = (shown_run c.board s).callsign } =
        plain ∙ ap (λ (r : Run). record r { callsign = (shown_run c.board s).callsign }) same in
      (
        ap (λ r. r.task_id) whole,
        ap (λ r. r.agent) whole,
        ap (λ r. r.status) whole,
        ap (λ r. r.ended_at) whole,
        ap (λ r. r.lease_expires) whole,
      )

  -- A claim keeps the checklists single: no task has two current items, and no two items share an
  -- identifier.
  pub claim-IsSingle : IsSingle b.items → IsSingle c.board.items
  claim-IsSingle s =
      let w = steps in
      let items : c.board.items ≡ activate_first call.now (trim_space id) b.items =
        ap (λ k. k.items) w.logged
        ∙ items-insert_event w.last _
        ∙ (write_task-rest w.middle w.last (trim_space id) _ _ w.row).0
        ∙ w.added.items in
      subst IsSingle (sym items) (activate_first-IsSingle call.now (trim_space id) b.items s)

  -- A successful claim appends one event and removes none: of the kind task.claimed, of the
  -- claimed task, the returned run and its agent, at the time of the claim. If the request has an
  -- idempotency key, the payload holds the operation, the key and the digest of the request, by
  -- which a replay is found.
  pub claim-events :
      (event : Event) × (c.board.events ≡ b.events ++ event ∷ [])
      × (event.kind ≡ "task.claimed")
      × (event.task_id ≡ trim_space id)
      × (event.run_id ≡ c.run.id)
      × (event.actor ≡ c.run.agent)
      × (event.created_at ≡ call.now)
      × ((request.idempotency_key == "") ≡ false
          → (holds_text event.payload "idempotency_operation" "task_claim" ≡ true)
            × (holds_text event.payload "idempotency_key" request.idempotency_key ≡ true)
            × (holds_text event.payload "idempotency_hash" request.idempotency_hash ≡ true))
  unfolding merge_payload idempotency_payload holds_text
  claim-events =
      let p = claim-Claimable settings call b id request actor c ok_claim in
      let w = steps in
      let rest = write_task-rest w.middle w.last (trim_space id) _ _ w.row in
      let event = claim_event call (trim_space id) (claim_agent actor request) request in
      (
        event,
        ap (λ k. k.events) w.logged
            ∙ events-insert_event w.last _
            ∙ ap (λ es. es ++ event ∷ []) (rest.3 ∙ w.added.events),
        refl,
        refl,
        sym (
            (eq_iff c.run.id (call.new_id 0)).0
              (find-holds (λ (r : Run). r.id == call.new_id 0) c.task.runs c.run p.run)),
        sym claim-run.1,
        refl,
        λ keyed. rw keyed (
          refl,
          (eq_iff request.idempotency_key request.idempotency_key).1 refl,
          (eq_iff request.idempotency_hash request.idempotency_hash).1 refl,
        ),
      )

  -- After a successful claim, a second claim of the task at the same expected version, with a
  -- session key of at most 200 bytes, is refused with a version conflict that names the new
  -- version, whoever makes it and whenever.
  pub claim-twice :
      (call' : Call) (request' : ClaimRequest) (actor' : String)
      → request'.expected_version ≡ request.expected_version
      → len (trim_space request'.agent_session_key) ≤ 200
      → claim settings call' c.board id request' actor'
        ≡ err (version_conflict (request.expected_version + 1) request.expected_version retry)
  unfolding claim check_claimable
  claim-twice call' request' actor' same short =
      let task_id = trim_space id in
      let (named, _) =
        refuse_if-eq-ok (task_id == "" || ltb request.expected_version 1) _ _ ok_claim in
      let row = claim-row in
      let v : row.0.version ≡ request.expected_version = row.2 in
      let named' : (task_id == "" || ltb request'.expected_version 1) ≡ false = rw same named in
      let short' : ltb 200 (len (trim_space request'.agent_session_key)) ≡ false = ground arith in
      let late : not (row.0.version + 1 == request'.expected_version) ≡ true = ground arith in
      rw (named', short', row.6, late, v, same)
