-- ===== src/Lib.antt =====
-- The service of the task board, where people and agents share tasks: who may see and change a
-- task, how tasks are created, claimed, updated, moved and blocked, how a person controls the run of
-- an agent and answers its questions, and how checklists, sessions, leases, events and stored times
-- behave. The code is internal/service/service.go, with run_controls.go, escalations.go,
-- dependencies.go, duplicates.go, matching.go and messages.go beside it, internal/model/model.go,
-- internal/store/store.go, with run_controls.go, escalations.go, messages.go, duplicates.go,
-- matching.go and dependencies.go beside it, and internal/agentidentity/identity.go.
--
-- How the code is read. The database is a record of tables, `Board` (Model/Tables); a table is the
-- list of its rows in the order of insertion, and a nullable column an `Option`, save a text that is
-- read back as the empty text when it is NULL: that is a `String`. A method of
-- Service is a function from the board, its request and a `Call` (the time, the time of the
-- store's clock, and the identifiers that the call draws) to a `Result`: the new board, or the
-- error by which it was refused. A transaction that is refused leaves the board as it was, so an
-- error carries no board; a method of several transactions returns the board beside its result. The
-- errors are the sentinels of the source, version conflicts with their numbers and their hint; the
-- wording of the messages is left out. Time is in nanoseconds. A string type of the source is a data
-- type whose `unset` is the empty text and whose `unknown` is any other text.
--
-- Parts, and the files that model them:
-- - Common: tests, results and rows of tables, shared by all; Common/Order is ORDER BY.
-- - Stamp: `stamp` and `formatTime`, the text form of a time, as the queries compare it.
-- - Text: the string helpers of service.go.
-- - Model: Kinds (the statuses, types, lanes and priorities), Controls (run controls), Messages
--   (messages and escalations), Tables (the rows and the board), Requests and NewTasks (requests).
-- - Board: Settings (the configuration and the calls), Queries (`LoadTask`, `GetTask`,
--   `ListTaskDependencies`, `InsertEvent`, `lostVersionRace`, the conditional write of a task),
--   Writes and Views (what those do to the board).
-- - Access: `Principal` and `Can` (Principals), `CanView`, `canMutate`, `producerMayUpdate`,
--   `pickupRunnerMayNote`.
-- - Callsigns: `Candidates` of internal/agentidentity. Sessions: `insertAgentRun`, with the unique
--   indexes of `agent_sessions` as the conflicts of an insertion.
-- - Checklist: every statement on `checklist_items`.
-- - Replay: `mergePayload`, `replayIdempotency`, `enforceAgentPickupLimits`.
-- - Claim: `Claim` and `claimFor`, which use Sessions, Checklist, Replay and Access.
-- - Update: `Update`: the request (Edit), the checks (Guards), the row and the checklist (Row), links
--   to duplicates, requirements, recurrence and the run (Effects), the whole (Handler), and
--   `updateFor` (Agents).
-- - Creation: Start (`Start`), Queue (`Create`, `insertQueuedTask`), Agents (`createFor`,
--   `createDelegated`, `startFor`), Requirements (tokens, the requirements of a task and the
--   advertisement of a worker) and Duplicates (the search for similar open tasks). Row, Lane and
--   Started hold proofs.
-- - Moves: `Move` and `moveFor`; Nearest and Swap hold proofs.
-- - Dependencies: the handlers of dependencies.go with the recursive query of
--   `addTaskDependencyFor`; Chain and Acyclic hold proofs.
-- - Controls: the requests to pause, cancel, resume or retry a run. Create (`CreateRunControlFor`),
--   Change (`UpdateRunControlFor`), Complete (`completeRunControl`), Expire (`expireRunControls` and
--   the listings) and Recover (`reviewAndRequeueFor`). Diagram and Steps read them as steps on the
--   table of controls; Frame, Reach, Calls, Single and Completed hold proofs. They take the task and
--   its runs from Claim, and their completion uses the same conditional writes as Update.
-- - Escalations: the questions of an agent. Request and Create (`CreateEscalationFor`), Answer
--   (`resolveEscalation`, with and without delegation); Guards, Steps, Once and Answered hold proofs.
-- - Messages: `RecordMessageReceiptsFor` and the messages that wait for a run; Post is `AddMessageFor`
--   and `ListMessagesFor`, Cleared holds proofs. They use Claim, Lease and Replay.
-- - Lease: `Heartbeat`, `SweepStale` and `holdsLease` of internal/service/messages.go; Progress is
--   `HeartbeatFor` and `runProgress`.
-- - FanOut: `publish`, `markEventSeen` and `Subscribe`, with the bounded queue of each subscriber;
--   Marks and Window hold proofs.
-- - Fixtures and the files named Samples: a small board, and the theorems at work on it.
--
-- Bounds and fuel. `resolve_from` takes the 20 steps of the loop in resolveDuplicateRoot and
-- refuses after them, as the code does. `chain`, the recursive query over the dependencies, runs one
-- round for each row of the table: a round that adds nothing is the last, and a row is used up by the
-- first round that adds the task it leads to. Every other loop is recursion on a list. The marks of
-- recent events are bounded by 4096 and by ten minutes, the queue of a subscriber by 16, and the
-- pending messages of a run by 50, as in the code. The arithmetic of the names is that of unsigned
-- 64-bit integers. Times, versions and positions are natural numbers, far from the bounds of int64.
--
-- Parameters. The digests (SHA-256 of a session key, the JSON digest of a request), the calendar
-- of Go's time package (parsing a date or a deferral, adding days and months), strings.ToLower and
-- the split of a title into words where they rest on the tables of Unicode, the principals that may
-- answer for a person or are revoked, the order of identifiers in the database, and the identifiers
-- come with `Settings` and `Call`, or as an argument; no theorem assumes more of them than it says.
--
-- Not modelled: failures of the database, metrics, handoffs, the links that GetFor hides, the tone
-- and the renaming of a session, the end of a subscription, a primary key conflict of a drawn event or task identifier; the fan-out of events
-- across instances; the listing of tasks and of the capabilities of workers, the pending messages of
-- a heartbeat, live discussions, completion evidence, templates, schedules, analytics, bridges, the
-- HTTP server, push and webhooks.
pub mod Common
pub mod Stamp
pub mod Text
pub mod Model
pub mod Board
pub mod Access
pub mod Callsigns
pub mod Sessions
pub mod Checklist
pub mod Replay
pub mod Claim
pub mod Controls
pub mod Escalations
pub mod Dependencies
pub mod Update
pub mod Creation
pub mod Lease
pub mod FanOut
pub mod Messages
pub mod Moves
pub mod Fixtures
