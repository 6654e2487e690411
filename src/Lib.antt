-- ===== src/Lib.antt =====
-- The core of autodev-harness: a scheduler claims tasks from a blackboard of queue directories, a
-- conductor drives each task through a worker, two fences, a critic and a machine gate, and merges
-- it or hands it to an operator.
--
-- Files, and the code they model:
-- Common, Util/Fallible: lists, dictionaries, and functions that change a state and may throw.
-- Util/Glob, Util/Match, Util/Text: src/util/glob.ts (normalizePath, globMatch, globToRegExp) and
-- the string methods that the code calls.
-- Util/Fingerprint: src/util/fingerprint.ts (workerTouched, strayChanged, forbiddenTouches) and
-- oracleGlobTouches of src/gate/oracle-paths.ts. A snapshot is a list of paths with fingerprints.
-- Util/Fingerprint/Fences has the lemmas.
-- Blackboard: src/blackboard (Task, QueueState, listTasks, moveTask, safePathSegment). A queue
-- directory is the list of its files, each keyed by its name without `.md`. Blackboard/Moves has
-- the lemmas on moves.
-- Scheduler: src/scheduler/scheduler.ts (fileSetsDisjoint, claimNextTask, listClaimable). A claim
-- takes the board it read and the board at which it renames, since other processes may move tasks
-- between. Scheduler/Locks states the history of a board as a step relation; Scheduler/Report is
-- about the dry run.
-- Gate/Zones, Gate/Guards: src/gate/invariants.ts, src/gate/zone-scope.ts, src/gate/guards.ts.
-- Gate/Zones/Scoped says which lines a zone sees. Gate/Guards/Table has parseGuardsTable,
-- Gate/Guards/Load its caller loadGuardPairsFrom (src/composition/root.ts), Gate/Guards/Oracle
-- where a file is read from (src/util/path-contain.ts), Cells, RoundTrip and Loads the lemmas and
-- theorems.
-- Gate/Monad, Gate/Steps, Gate/Run: src/gate/gate.ts (runGate), one function per numbered step,
-- its early answer, its writes and its `finally`. Gate/Steps/Tools, Gate/Steps/Coverage and
-- Gate/Run/Laws have its lemmas and theorems.
-- Gate/Findings: src/gate/finding-filter.ts. Paths and Filter have the definitions; Places says
-- which file a reported path stands for; Candidates, Laws and Dropped have the other lemmas and
-- theorems.
-- Gate/Mutation: src/gate/mutation-check.ts (mutationCheck), on one target file.
-- Router: src/router/router.ts (resolveLadder).
-- Util/Chars: texts as lists of characters, where a program walks them.
-- Escalate/Body, Escalate/Delivery: src/escalate/escalate.ts (buildBody, parseEscalation;
-- escalate). Escalate/RoundTrip and Escalate/Delivered have the theorems.
-- Registry: src/registry/registry.ts (loadRegistry, slugForName, isPathRegistered, addProject,
-- removeProject, renameProject). Registry/Slugs and Registry/Laws have the theorems.
-- Thread: src/thread/strip-fenced-json.ts (stripFencedJson, StreamingFenceStripper).
-- Thread/Removal describes the removal of fences in one pass; Scans, Streams, Parts and Batch have
-- the lemmas and theorems.
-- Gate/Diff: src/gate/diff-lines.ts. Quoting, Headers, Walk, Lines and Readers have the
-- definitions, Refusal what is thrown. Keeps, Names, Accounts, Agree, Bodies and Numbers have the
-- lemmas and theorems.
-- Chat: src/orchestrator/chat-session-manager.ts, one function for what the code does between two
-- awaits. Chat/History states its histories as a step relation; Totals, Slots and Laws have the
-- lemmas and theorems.
-- Orchestrator: src/orchestrator/json-array-extract.ts. Orchestrator/Brackets describes balanced
-- text by a grammar; Closes, Sound, Finds and Extracts have the lemmas and theorems.
-- Supervisor, Supervisor/Effects: src/autonomy/overnight-supervisor.ts (superviseOvernight). Saga
-- is about one rework, Rounds about the actions of a round, Room and Ends about the end of the
-- loop, Budget about the number of reworks.
-- Conductor/State: the world that an iteration of src/conductor/conductor.ts changes, and the
-- environment that answers it. A merge is noted with its worktree, its target and its commit.
-- Conductor/Iteration and Conductor/Iteration/Stages: runIteration. Its early returns are the ends
-- of stages, each of which calls the next; Leaving, Clears, Merges, Releases, Travels, Refines and
-- Laws below it have the lemmas and theorems.
-- Conductor/Run/Options, Conductor/Run/Loop: `run` of src/conductor/conductor.ts, with
-- src/anti-drift/north-star.ts. Kept says what a run keeps when its steps do; Counts, Bounds, Ends
-- and Laws have the other lemmas and the theorems.
-- Watchdog: src/watchdog/watchdog.ts (classifyWatchTick, newestMtimeUnder,
-- newestActivityPathsMtime, heartbeatMtime, the poll loop of runWatched). What a poll sees, the
-- exit of the child included, is a parameter; a directory is a finite tree, so links that lead
-- back are left out, and the windows are whole seconds. Watchdog/Laws is about the end of the
-- loop, Watchdog/Silence about staleness.
-- Tests: concrete boards, snapshots, gates and environments.
--
-- Interaction: the supervisor drains the queue by `run`, which is an answer of its environment;
-- `run` calls runIteration itself, with an environment for each iteration. The conductor claims
-- through the scheduler, whose moves are the blackboard's; it calls the fences of Util/Fingerprint
-- itself, and the gate through an answer of the environment. The gate's own writes into the task's
-- runtime files are not seen in that answer, since the iteration reads none of them afterwards.
--
-- Bounds: three loops of the code have no bound of their own, `for (;;)` of the supervisor, `while
-- (true)` of `run`, and the poll loop of the watchdog. They are run on fuel, an answer says that a
-- run was cut off, and a theorem for each gives a fuel that is enough: the budget of all listed
-- tasks, the number of iterations by which the session is over, and the number of polls by which
-- the timeout has passed. The search of slugForName is on fuel too, for which a theorem shows that
-- one more than the number of taken ids is enough; the loop of `push` in Thread runs on the length
-- of its buffer, and a round takes at least three characters of it. The loop over rounds is
-- recursion on the rounds that are left, which start at `task.max_rounds` or the configured
-- number; all other loops are structural. Numbers are unbounded naturals, as no counter of the
-- code nears 2^53; `attempts - 1` is taken after one was added.
--
-- Parameters: `replaceAll`, git, the worker, the critic, the loaders, regular expressions,
-- `localeCompare` and `toLowerCase` are fields of Env and GateDeps, round by round where they may
-- answer differently. File faults are Boolean tests in Env, by the number of the rename or the
-- write, so that each may fail by itself. The gate takes the readers of Gate/Diff as fields of
-- GateDeps.
--
-- Not modelled: texts of reasons and escalations, logs, token usage, line-ending normalisation and
-- the critic's evidence manifest (each best effort in the code, without effect on a decision),
-- markDone and the digest, the anti-drift check, parseReworkCount, the rate-limit text, spawn and
-- kill of the watchdog, the evaluation corpus, the server, the settings, and the wiring.
pub mod Common
pub mod Util
pub mod Watchdog
pub mod Blackboard
pub mod Scheduler
pub mod Escalate
pub mod Gate
pub mod Registry
pub mod Router
pub mod Orchestrator
pub mod Chat
pub mod Supervisor
pub mod Conductor
pub mod Thread
pub mod Tests
