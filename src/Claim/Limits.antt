-- ===== src/Claim/Limits.antt =====
-- A claim through the agent interface respects the agent's policy and access.
use taskboard.Access.Principals.{Capability, Principal, has_capability}
use taskboard.Board.Queries.{TaskView}
use taskboard.Board.Settings.{Call, Settings}
use taskboard.Claim.{
  Claimed, check_pickup, check_task, claim, claim_after, claim_for, get_for, replayed_claim,
}
use taskboard.Claim.Eligible.{Eligible, check_task-Eligible}
use taskboard.Claim.Outcome.{claim-runs, claim_run}
use taskboard.Claim.Version.{claimed_run-eq-ok}
use taskboard.Common.{
  >>=-eq-ok, Bool, List, Option, String, [], arith, count, count-append, forbidden, none, not, ok,
  refl, refuse_if-eq-ok, some, suc, true, ◌++◌, ◌<◌, ◌∙◌, ◌∷◌, ◌≡◌, ◌≤◌,
}
use taskboard.Model.{Board, ClaimRequest, Event}
use taskboard.Replay.{enforce_pickup_limits, leased_run, replay_idempotency}
use taskboard.Sessions.{stored_run}
use taskboard.Stamp.{Time}

-- What is open for an agent within its limit stays within it.
abbrev pub IsWithin : Principal → Time → Board → Type 0
IsWithin p now b =
    0 < p.policy.max_concurrent_runs
    → count (leased_run p.id now) b.runs ≤ p.policy.max_concurrent_runs

enforce_pickup_limits-room :
    (b : Board) (now : Time) (p : Principal) (u : Unit {0})
    → p.agent ≡ true
    → enforce_pickup_limits b now p ≡ ok u
    → 0 < p.policy.max_concurrent_runs
    → count (leased_run p.id now) b.runs < p.policy.max_concurrent_runs
unfolding enforce_pickup_limits
enforce_pickup_limits-room b now p u agent h limited = ground arith

-- The outcome of a claim through the interface: the replay of an earlier one, which changes
-- nothing, or a fresh claim at the version of the request, by the principal, of a task that it
-- sees and is eligible for.
pub data Picked (settings : Settings) (call : Call) (b : Board) (id : String) (asked : ClaimRequest)
    (p : Principal) (c : Claimed) : Type 0 where
  replayed : c.board ≡ b → Picked settings call b id asked p c
  fresh :
      (request : ClaimRequest) (task : TaskView) (u : Unit {0})
      → get_for settings call b id p ≡ ok task
      → Eligible call b p task
      → enforce_pickup_limits b call.now p ≡ ok u
      → request.agent ≡ p.id
      → request.expected_version ≡ asked.expected_version
      → request.agent_session_key ≡ asked.agent_session_key
      → request.idempotency_key ≡ asked.idempotency_key
      → claim settings call b id request p.id ≡ ok c
      → Picked settings call b id asked p c

replayed_claim-board :
    (settings : Settings) (call : Call) (b : Board) (p : Principal) (e : Event) (c : Claimed)
    → replayed_claim settings call b p e ≡ ok c
    → c.board ≡ b
unfolding replayed_claim
replayed_claim-board settings call b p e c h =
    let (task, got, run) = >>=-eq-ok (get_for settings call b e.task_id p) _ h in
    (claimed_run-eq-ok b task e.run_id c run).0

claim_after-Picked :
    (settings : Settings) (call : Call) (b : Board) (id : String) (request : ClaimRequest)
    (p : Principal) (replay : Option Event) (c : Claimed)
    → request.agent ≡ p.id
    → claim_after settings call b id request p replay ≡ ok c
    → Picked settings call b id request p c
unfolding claim_after check_pickup
claim_after-Picked settings call b id request p (some e) c named h =
    Picked.replayed (replayed_claim-board settings call b p e c h)
claim_after-Picked settings call b id request p none c named h =
    let (task, got, h1) = >>=-eq-ok (get_for settings call b id p) _ h in
    let (u, checked, claimed) = >>=-eq-ok (check_pickup call b p task) _ h1 in
    let (v, passed, limits) = >>=-eq-ok (check_task call b p task) _ checked in
    Picked.fresh request task u got (check_task-Eligible call b p task v passed) limits named refl
      refl refl claimed

Picked-asked :
    (settings : Settings) (call : Call) (b : Board) (id : String) (r asked : ClaimRequest)
    (p : Principal) (c : Claimed)
    → r.expected_version ≡ asked.expected_version
    → r.agent_session_key ≡ asked.agent_session_key
    → r.idempotency_key ≡ asked.idempotency_key
    → Picked settings call b id r p c
    → Picked settings call b id asked p c
Picked-asked settings call b id r asked p c version key again (Picked.replayed same) =
    Picked.replayed same
Picked-asked settings call b id r asked p c version key again
      (Picked.fresh request task u got may limits named v k i claimed) =
    Picked.fresh request task u got may limits named (v ∙ version) (k ∙ key) (i ∙ again) claimed

-- A claim through the interface succeeds only for an agent with the capability to claim. It is
-- then either a replay that leaves the board unchanged, or a claim by that agent, at the version
-- and with the keys of the request, of a task that the agent sees, that is queued or stale and no
-- duplicate, whose requirements the worker advertises, that no one else owns if it is a team task
-- and the agent has no operator, and while the worker's advertised capacity and the agent's own
-- limits have room.
pub claim_for-Picked :
    (settings : Settings) (hash : String → ClaimRequest → String) (call : Call) (b : Board)
    (id : String) (request : ClaimRequest) (p : Principal) (c : Claimed)
    → claim_for settings hash call b id request p ≡ ok c
    → (p.agent ≡ true)
      × (has_capability p.identity Capability.task_claim ≡ true)
      × Picked settings call b id request p c
unfolding claim_for
claim_for-Picked settings hash call b id request p c h =
    let (agent, h1) = refuse_if-eq-ok (not p.agent) forbidden _ h in
    let (able, h2) =
      refuse_if-eq-ok (not (has_capability p.identity Capability.task_claim)) forbidden _ h1 in
    let asked = record request { agent = p.id } in
    let (replay, searched, h3) =
      >>=-eq-ok (replay_idempotency b p "task_claim" request.idempotency_key (hash id asked)) _
        h2 in
    (
      ground arith,
      ground arith,
      Picked-asked settings call b id (record asked { idempotency_hash = hash id asked }) request p
          c refl refl refl
          (claim_after-Picked settings call b id (record asked { idempotency_hash = hash id asked })
            p replay c refl h3),
    )

count-snoc_le {ℓ} :
    {A : Type ℓ} (p : A → Bool) (xs : List A) (x : A) → count p (xs ++ x ∷ []) ≤ suc (count p xs)
count-snoc_le p xs x = ground (arith, count-append p xs (x ∷ []))

-- One more run, where there was room for one.
fresh-IsWithin :
    (settings : Settings) (call : Call) (b : Board) (id : String) (request : ClaimRequest)
    (p : Principal) (c : Claimed)
    → count (leased_run p.id call.now) b.runs < p.policy.max_concurrent_runs
    → claim settings call b id request p.id ≡ ok c
    → count (leased_run p.id call.now) c.board.runs ≤ p.policy.max_concurrent_runs
fresh-IsWithin settings call b id request p c room claimed =
    let (session, runs, new) = claim-runs settings call b id request p.id c claimed in
    rw runs (
      omega (
        arith,
        room,
        count-snoc_le (leased_run p.id call.now) b.runs
            (stored_run (claim_run settings call id p.id request) session),
      ))

-- A claim through the agent interface never takes an agent over its limit of open runs: if the
-- runs it holds under a current lease are within the limit before, they are within it after, the
-- new run counted.
pub claim_for-IsWithin :
    (settings : Settings) (hash : String → ClaimRequest → String) (call : Call) (b : Board)
    (id : String) (request : ClaimRequest) (p : Principal) (c : Claimed)
    → IsWithin p call.now b
    → claim_for settings hash call b id request p ≡ ok c
    → IsWithin p call.now c.board
claim_for-IsWithin settings hash call b id request p c within h limited =
    let (agent, able, picked) = claim_for-Picked settings hash call b id request p c h in
    after agent picked
  where
    after :
        p.agent ≡ true
        → Picked settings call b id request p c
        → count (leased_run p.id call.now) c.board.runs ≤ p.policy.max_concurrent_runs
    after agent (Picked.replayed same) = rw same (within limited)
    after agent (Picked.fresh request' task u got may limits named v k i claimed) =
        fresh-IsWithin settings call b id request' p c
          (enforce_pickup_limits-room b call.now p u agent limits limited) claimed
