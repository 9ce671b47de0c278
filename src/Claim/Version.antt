-- ===== src/Claim/Version.antt =====
-- A claim taken apart: what held before, and what was written.
use taskboard.Board.Queries.{TaskView, get_task, load_task, unmet_dependencies}
use taskboard.Board.Settings.{Call, Settings, defer_active}
use taskboard.Claim.{
  Claimed, check_claimable, claim, claim_agent, claimed_run, is_terminal_status, write_claim,
}
use taskboard.Common.{
  >>=-eq-ok, Option-cases, String, ap, arith, false, find, inl, inr, ltb, nat_eq, not, ok,
  refuse_if-eq-ok, refuse_if-false, some, string_eq, subst, sym, validation, ℕ, ◌==◌, ◌||◌, ◌∙◌,
  ◌≡◌,
}
use taskboard.Model.{Board, ClaimRequest, Run, Task, item_eq, status_eq, visibility_eq}
use taskboard.Text.{trim_space}

-- The conditions of a claim that succeeds, and the board it leaves.
pub record Claimable (settings : Settings) (call : Call) (b : Board) (id : String)
    (request : ClaimRequest) (actor : String) (c : Claimed) : Type 0 where
  pub current : Task
  pub loaded : load_task b (trim_space id) ≡ ok current
  pub version : current.version ≡ request.expected_version
  pub open_status : is_terminal_status current.status ≡ false
  pub met : unmet_dependencies b (trim_space id) ≡ 0
  pub due : defer_active settings current.defer_until call.store_now ≡ false
  pub written :
      write_claim settings call b (trim_space id) (claim_agent actor request) request ≡ ok c.board
  pub view : get_task settings call c.board (trim_space id) ≡ ok c.task
  pub run : find (λ (r : Run). r.id == call.new_id 0) c.task.runs ≡ some c.run

check_claimable-eq-ok :
    (settings : Settings) (call : Call) (b : Board) (id : String) (current : Task) (expected : ℕ)
    (u : Unit {0})
    → check_claimable settings call b id current expected ≡ ok u
    → (current.version ≡ expected)
      × (is_terminal_status current.status ≡ false)
      × (unmet_dependencies b id ≡ 0)
      × (defer_active settings current.defer_until call.store_now ≡ false)
unfolding check_claimable
check_claimable-eq-ok settings call b id current expected u h =
    let terminal = is_terminal_status current.status in
    let unmet = unmet_dependencies b id in
    let (v, h1) = refuse_if-eq-ok (not (current.version == expected)) _ _ h in
    let (o, h2) = refuse_if-eq-ok terminal validation _ h1 in
    let (m, h3) = refuse_if-eq-ok (ltb 0 unmet) validation _ h2 in
    (ground arith, o, ground arith, refuse_if-false _ validation u h3)

pub claimed_run-eq-ok :
    (b : Board) (task : TaskView) (id : String) (c : Claimed)
    → claimed_run b task id ≡ ok c
    → (c.board ≡ b) × (c.task ≡ task) × (find (λ (r : Run). r.id == id) c.task.runs ≡ some c.run)
unfolding claimed_run
claimed_run-eq-ok b task id c h = elim (Option-cases (find (λ (r : Run). r.id == id) task.runs)) [
  | inl absent ↦ absurd (ground arith)
  | inr (r, e) ↦
      let same : c ≡ record { board = b; task = task; run = r } = ground arith in
      (
        ap (λ k. k.board) same,
        ap (λ k. k.task) same,
        subst (λ k. find (λ (x : Run). x.id == id) k.task.runs ≡ some k.run) (sym same) e,
      )
]

pub claim-Claimable :
    (settings : Settings) (call : Call) (b : Board) (id : String) (request : ClaimRequest)
    (actor : String) (c : Claimed)
    → claim settings call b id request actor ≡ ok c
    → Claimable settings call b id request actor c
unfolding claim
claim-Claimable settings call b id request actor c h =
    let task_id = trim_space id in
    let (named, h1) = refuse_if-eq-ok (task_id == "" || ltb request.expected_version 1) _ _ h in
    let (keyed, h2) = refuse_if-eq-ok _ _ _ h1 in
    let (current, loaded, h3) = >>=-eq-ok (load_task b task_id) _ h2 in
    let (u, checked, h4) =
      >>=-eq-ok (check_claimable settings call b task_id current request.expected_version) _ h3 in
    let (b', written, h5) =
      >>=-eq-ok (write_claim settings call b task_id (claim_agent actor request) request) _ h4 in
    let (task, view, h6) = >>=-eq-ok (get_task settings call b' task_id) _ h5 in
    let facts =
      check_claimable-eq-ok settings call b task_id current request.expected_version u checked in
    let (same_board, same_task, seen) = claimed_run-eq-ok b' task (call.new_id 0) c h6 in
    record {
      current = current;
      loaded = loaded;
      version = facts.0;
      open_status = facts.1;
      met = facts.2;
      due = facts.3;
      written = written ∙ ap ok (sym same_board);
      view =
          subst (λ k. get_task settings call k task_id ≡ ok c.task) (sym same_board)
            (view ∙ ap ok (sym same_task));
      run = seen;
    }
