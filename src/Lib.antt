-- ===== src/Lib.antt =====
-- Quant-dominater: a contest platform that runs submitted matching engines under load, checks what
-- they answer, and ranks them.
--
-- The control panel (services/control-panel) runs the reference engine on its own, at most eight
-- runs at a time, in one process and with a file of its own. In the contest a submission is
-- uploaded (services/submission-api), the orchestrator (services/orchestrator) starts it in a
-- sandbox, lets a fleet of bots trade with it, validates the trades, scores the run and hands the
-- result to the leaderboard (services/leaderboard-api). The engine in examples/stub-engine is the
-- reference submission. Several orchestrator processes share one index file of submissions and
-- runs; a lock file and a claim on each queued run keep two of them from executing the same run.
--
-- What each part of this library models:
-- - Base: Boolean tests, lists measured by native numbers, Go's int64 as ℤ, Go's float64 as bit
--   patterns; routines with early returns and panics as functions of a state, with rules for what
--   holds where they are left (Base.Exits); the cancel functions of a manager (Base.Keys).
-- - Orchestrator.Model, Orchestrator.Statuses: services/orchestrator/internal/model/model.go;
--   statuses are a data type and `Terminal` is `is_terminal`.
-- - Orchestrator.Store: services/orchestrator/internal/store/json_store.go and filelock.go. The
--   index file is a value of `File`, which may be missing or not decode; what the operating system
--   answers to a call (the lock, reading, encoding, writing, renaming) is an argument, so every
--   error path is a value. `save_run`, `claim_run` and `claim_next_queued_run` are the locked
--   sections of the methods of those names; `sort.Slice`, which is not stable, is a parameter.
-- - Orchestrator.Execute: `execute` of services/orchestrator/internal/orchestrator/manager.go with
--   `transition`, `fail` and the deferred functions. The goroutine is a monad over a `World` (store
--   file, slots, cancels, live engine, the trail of statuses) in which a step returns, fails, or
--   panics; what the components answer is an `Env`. The store and the files may fail at every call;
--   the sandbox (its `Stop` included), the bot fleet, the validator, the scorer and the publisher
--   may fail or panic.
-- - Orchestrator.Manager, Orchestrator.Slots, Orchestrator.Sequences, Orchestrator.Cancel:
--   `StartRun`, `StartNextQueued`, `claimAvailable`, `CancelRun`, `Shutdown` and the end of a run's
--   goroutine, as functions of a `Manager` (index, slots in use, registered cancel functions,
--   executing runs) and as a step relation in which a start goes on only with a free slot or a dead
--   context.
-- - Orchestrator.Limits, Orchestrator.Endpoint: `normalizeConfig`, the time limit of
--   `BenchmarkEndpoint`, `validateBenchmarkEndpoint` and `isBlockedIP`; an IP address is a number,
--   `net.LookupIP`, `url.Parse` and `strings.EqualFold` are arguments.
-- - Control.Model, Control.Requests: services/control-panel/internal/run/model.go, `IsTerminal` and
--   `NormalizeRequest` of state.go.
-- - Control.Store: services/control-panel/internal/store/json_store.go. The map of runs is a list
--   in the order of the insertions; ranging over it and the unstable sort are one argument, any
--   reordering of the entries.
-- - Control.Execute, Control.Manager: services/control-panel/internal/run/manager.go. `execute` is
--   a routine over a `World` (run, file, engine, whether the clean-up is deferred, cancel
--   functions, slots), the answers of the engine, the bot fleet, the validator, the store, the
--   files and the clean-up are an `Env`; nothing of it panics. The engine of
--   services/control-panel/internal/executor/engine.go is a process of the run's context, so that
--   it is killed where that is cancelled; whether it is by the end of the goroutine is an answer
--   too. Control.Execute.Standing, Stages and Ending prove how it goes and ends, Control.Slots,
--   Sequences and Cancel are about the manager's calls.
-- - Submissions.Store, Submissions.Handler: services/submission-api/internal/store/json_store.go
--   and api/handler.go: the two saves into the orchestrator's index file, `CreateSubmission`
--   (`create_submission`) and `CreateRun` (`request_run`) as functions of a decoded request, with
--   the HTTP status of each answer. Submissions.Upserts, Claimed and Uploads are about them,
--   Claimed with the orchestrator's claim.
-- - Sandbox.Paths, Sandbox.Artifact, Sandbox.Unzip:
--   services/sandbox-runner/internal/sandbox/artifact.go, and the file names of
--   services/submission-api/internal/store/artifact_store.go. A text is a list of code points; a
--   cleaned path is its parts, innermost first, as `filepath.Clean` and `filepath.Join` leave them
--   on Unix. An archive is a list of entries, whose headers may lie. Sandbox.Contained, Addresses,
--   Within and Extracted are about them. Sandbox.Dockerfile is `validateUntrustedDockerfile` of the
--   same file, on a text that could be read; `strings.ToLower` and `strings.EqualFold` are written
--   out for the letters of ASCII, since no other character becomes one of those that they are
--   compared with. Sandbox.Instructions, Screened and Joined are about it, Joined on the lines as
--   Docker joins them. Sandbox.Context is `prepareBuildContext` with `writeDefaultDockerfile`, over
--   the answers of the file system, of which one is what the copied or extracted artifact leaves in
--   the directory; Sandbox.Prepared is about it.
-- - Scoring.Formula, Scoring.Services: services/score-engine/internal/scoring,
--   services/orchestrator/internal/executor/score.go (`score_run_of`) and
--   services/control-panel/internal/run/score.go (`calculate_score`). Each service has its own copy
--   of the formula: Scoring.Formula, Scoring.Orchestrated and Scoring.Panel translate one each; the
--   arithmetic of float64 and package math are an argument, and its constants are bit patterns.
--   Scoring.Twins sets the three services beside one another.
-- - Engine.Order, Engine.Search, Engine.Book: `Order`, `orderBefore`, `sort.Search`, `insertSorted`
--   and `removeOrder` of examples/stub-engine/main.go.
-- - Engine.Match: `matchBuy` and `matchSell`, one function of the side; `uniqueClients`, `nextSeq`
--   and the index of resting orders.
-- - Engine.State, Engine.Process: `ProcessNew`, `ProcessCancel`, `RejectAck`, `rejectResidual`,
--   `bookFor` and the messages.
-- - Engine.Served: sequences of requests, each one a section under its book's lock. A cancel loads
--   its order from the index before it takes the lock, so its order is an argument.
-- - Engine.Ring, Engine.Publish, Engine.Fifo: `ring` of examples/stub-engine/disruptor.go, with the
--   parts of `publish` (claim, write, release) and `consume` as the steps of a relation, in any
--   interleaving. The spin loops are the conditions under which a step can be made; the parts of
--   `consume`, which one goroutine runs and whose slot no producer may touch before its last store,
--   are one step.
-- - Engine.Shard, Engine.Disruptor, Engine.Mirror: `matchBuy` and `matchSell`, `processNew`,
--   `processCancel`, the messages of `matchLoop` and `enqueue` of disruptor.go, for one shard.
-- - Leaderboard.Board, Leaderboard.Results, Leaderboard.Ranking: `Board` of
--   services/leaderboard-api/internal/board/board.go, with `New`, `Upsert`, `List` (`snapshot`),
--   `Subscribe` and the function that it returns. The sort over the entries of a map, whose order
--   is arbitrary, is a parameter; a payload is the snapshot that it encodes; a channel is a list
--   that a send with a default case extends up to its capacity.
-- - Leaderboard.Redis: `Board` of services/leaderboard-api/internal/redisboard/redisboard.go, with
--   `refresh`, `Upsert`, `Subscribe` and `Ready`. Redis and what it holds are an argument, a record
--   of its operations, as are the texts of numbers and the comparison of two encoded snapshots;
--   which of its calls fail and what the clock says are arguments of each refresh. What other
--   writers do to redis between the calls of an upsert, and what they let its refresh read, is an
--   argument too. Leaderboard.Scorecards is about an upsert, Leaderboard.Polls about sequences of
--   calls; Leaderboard.Codec has texts and Leaderboard.Trials a redis that keep the laws.
-- - Orchestrator.Tests, Orchestrator.Trials, Control.Tests, Submissions.Tests, Sandbox.Tests,
--   Sandbox.Trials, Scoring.Tests, Engine.Tests, Engine.Races, Leaderboard.Tests,
--   Leaderboard.Trials: runs at concrete inputs.
--
-- Loops: `sort.Search` runs on fuel, the length of the list, and halves its range in each round;
-- the matching loop runs on fuel, one more than the number of resting orders, and each round ends
-- the active order or the first resting one. The files Engine/Search.antt and Engine/Ends.antt hold
-- the proofs that this is enough. All other recursion is structural.
--
-- Numbers: `engineSeq` and `insertSeq` are uint64 and wrap around at 2^64; `engineSeq` is shared by
-- all books and by the requests that are answered without a lock, so that an argument, `others`,
-- says for each of its values how often others count on before the next message of the book takes a
-- number; prices are ℤ; a quantity is tested to be positive before it enters a book and is a
-- natural number from there on.
--
-- Pointers: an order carries its address, by which `removeOrder` compares. The copy of an order in
-- the index has the quantity of the time when it was stored; a cancel reads only its address, side,
-- symbol, price, time and insertion number, which do not change.
--
-- Not modelled: JSON over HTTP and WebSocket, protobuf messages, files other than the index,
-- processes and containers, the clock (an argument), `strings.ToUpper`, `strings.TrimSpace` and the
-- byte length of a string (parameters). Of the engine, requests for one symbol are served one after
-- another, as the book's lock orders them; requests for other symbols, which run at the same time
-- in the program, stand in the sequence one behind the other. Of the disruptor, the goroutines that
-- connect rings, matchers and writers are not modelled. To the executions of runs a scorer is an
-- argument. Of the board over redis the metrics and series of a run are not modelled, nor are the
-- runners of the sandbox; of the control panel the handlers and the executors are not, and of the
-- artifacts the copies.
pub mod Base
pub mod Orchestrator
pub mod Control
pub mod Submissions
pub mod Sandbox
pub mod Scoring
pub mod Engine
pub mod Leaderboard
