-- ===== src/Lib.antt =====
-- Nightshift is a control plane that drives coding agents: tasks on a board are claimed by agent
-- runs, reviewed, and merged. This library models the part of it that decides: the state machines,
-- the claim, the gates, and the order in which they are composed. Paths are from the repository's
-- root.
--
-- The state. `Db.State.Db` is the database: one list of rows for each table that is modelled
-- (src/db/schema.ts, src/db/columns.ts), in the order of insertion, and the next row ids. A writer
-- link (src/db/writer.ts) runs alone, so it is a function from `Db` to `Db` with its result, and an
-- interleaving of callers is a sequence of such functions; what runs between the checks of a call and
-- its link, or while a call is awaited, is a function that the operation takes where a theorem depends
-- on it. A timestamp is the instant in
-- milliseconds that its text names, a cost is a natural number in a small unit, and an event's
-- payload is data in place of its JSON text. Priorities are integers (`Prelude.Int`).
--
-- The parts:
--   Db            the enumerated columns, the rows, the event log (src/events/events.ts), and the
--                 guarded UPDATE as `update_rows` with the lemmas about it in Db.Rows
--   Db.Events.Subscription
--                 a subscriber of the log (src/events/events.ts): `subscribe`, `push`, `next`, and
--                 `feed_step` for the order in which emits and pulls come
--   Tasks.Machine, Tasks.Transitions
--                 the task state machine (src/tasks/transitions.ts): `find_transition` and
--                 `transition_task`, whose link is `transition_link`
--   Tasks.Dependencies
--                 the dependency graph (src/tasks/dependencies.ts): `would_create_cycle`,
--                 `add_dependency`, `remove_dependency`, `recompute_readiness`
--   Tasks.Fields, Tasks.Crud
--                 creating, editing and deleting tasks (src/tasks/tasks.ts): `create_task`,
--                 `update_task`, `delete_task` with what the foreign keys do
--   Tasks.Drafts  the draft lane (src/tasks/draftLane.ts): `promote_draft`, and in
--                 Tasks.Drafts.Markdown `parse_markdown_drafts` and `import_markdown_drafts`
--   Runs.Machine, Runs.Transitions
--                 the run state machine (src/runs/transitions.ts): `transition_run`
--   Runs.Claim    creating, claiming and finishing runs (src/runs/runs.ts)
--   Runs.Watchdog, Runs.Budget
--                 the watchdog over a silent run and the budgets (src/runs/watchdog.ts,
--                 src/runs/budget.ts): `evaluate_run`, `evaluate_run_budget`, `sweep`; the class of
--                 a transcript is in Runs.Transcript
--   Providers.Capacity
--                 the capacity pools (src/providers/capacity.ts): `can_spawn`, `observe`,
--                 `ensure_provider`
--   Providers.Failback
--                 retries and the chain of models (src/providers/failback.ts):
--                 `failback_decision`, `routing_decision`
--   Providers.Classify
--                 the class of a failure and the signal to the capacity gate, by the words in an
--                 exit reason (src/providers/failback.ts, src/providers/capacity.ts)
--   Providers.Router
--                 the driver for a role (src/providers/router.ts): `select_driver`
--   Worktree.Lock the lock file of a worktree (src/worktree/lock.ts): `acquire_lock` as one operation,
--                 and `next_call` as one system call of a process among others
--   Review.Verdict
--                 the check of a reviewer's JSON (src/review/verdict.ts): `validate_verdict`
--   Review.Judge  the reading of a reviewer's output (src/review/judge.ts,
--                 src/providers/schemaRepair.ts): `extract_structured`, `parse_output`
--   Review.Tournament
--                 two reviews made into one (src/review/tournament.ts, src/review/tiebreaker.ts):
--                 `synthesize`, `resolve_with_tiebreak`, `tournament_runner`, whose output is in the
--                 envelope that the judge reads
--   Review.RiskTier
--                 the depth of a review (src/review/riskTier.ts): `classify_risk_tier`
--   Review.Coordinator
--                 the triage of the specialists' findings (src/review/coordinator.ts): `coordinate`
--   Triggers.Cron the evaluator of cron expressions (src/triggers/cron.ts): `parse_cron`,
--                 `next_fire_time`, `due_triggers`
--   Scheduler     the slot-filling pass (src/scheduler/scheduler.ts): `tick_once`
--   Gate.Ci, Gate.Freshness, Gate.PrePr
--                 the gate before a pull request (src/gate/)
--   Gate.Preflight
--                 the preflight before a merge (src/forge/preflight.ts), over JSON as data
--   Orchestrator.AutoMerge
--                 the merge of an approved task (src/orchestrator/autoMerge.ts), with its
--                 confirmation (src/orchestrator/coder.ts), which uses the transition of the task
--                 and the promotion pass of the dependencies
-- A definition keeps the name of the function it models, in the spelling of this language
-- (`tryAutoMerge` is `try_auto_merge`). A body that is long is split at its branches, and the pieces
-- stand directly above it.
--
-- Errors. A thrown or returned refusal is a constructor of the result (`Transitions.Reason`,
-- `CreateResult`, `DependencyError`); reasons that are only texts for people are constructors too
-- where nothing reads the text.
--
-- Fuel. `Tasks.Dependencies.walk` is given two more than the number of edges, and the walk ends
-- within it, since each step that goes on explores a further edge. `Prelude.Text.decimal` is given
-- the number and one more, since a number has fewer digits than that. `Triggers.Cron.walk_minutes` is
-- given the 527040 minutes of its horizon of 366 days, and `Triggers.Cron.steps` one round for each
-- value of the range. `Review.Judge.last_block` is given one more than the number of characters, and
-- each block that it finds takes up at least its tags (`Review/Judge/Fuel.antt`). All else is structural.
--
-- Texts. A text that is only compared or joined is a native `String`; one whose characters are read (a
-- diff, a cron expression, a summary that may be blank) is the list of its character codes
-- (`Prelude.Text`). JSON is data (`Prelude.Json`), with its numbers by kind.
--
-- Parameters. What is injected or lies outside stands as an argument: the answers of git, of the CI
-- client and of the forge, the routing and the start of a run in the scheduler, and in the merge what
-- other links do while a call is awaited; the planner of the draft lane; the runs of the
-- reviewers; JSON.parse and JSON.stringify where a review is read and printed; and the parser of dates. The instant `now` is an argument of each operation.
--
-- Not modelled: the HTTP routes, the web interface, the processes, containers and checkouts that run
-- agents, the clients of external services, the notifications and the configuration, which do input
-- and output; and, so far, the life cycle of findings and the webhooks, which are
-- logic of the same kind as what is modelled.
mod Prelude
pub mod Db
pub mod Tasks
pub mod Runs
pub mod Providers
pub mod Orchestrator
pub mod Gate
pub mod Worktree
pub mod Review
pub mod Triggers
pub mod Scheduler
