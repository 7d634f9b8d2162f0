-- ===== src/Lib.antt =====
-- SurfWright is a command line that drives browsers through a background daemon. This library
-- models the parts of it that decide, and proves what makes them correct; the parts that talk to
-- browsers, sockets and files are parameters or are left out.
--
-- Parts and files (paths of the repository):
--   Cli.Options, Cli.CommandPath: src/cli/options.ts and src/cli/command-path.ts, the readers of the
--     arguments. An argument list with an index is the list of the arguments from the index on.
--   Daemon.Request: src/core/daemon/app/worker-request-orchestrator.ts, from a request line of a
--     client to its answer. It names the lane of a command by Daemon.LaneKey and runs it by a
--     parameter, which in the worker is the lane scheduler.
--   Daemon.LaneKey: src/core/daemon/domain/lane-key-resolver.ts, the lane in which a command runs.
--   Daemon.Scheduler: src/core/daemon/domain/lane-scheduler.ts, createDaemonLaneScheduler. The state
--     is a record, each closure a function on it, and the callers, timers and settling promises are
--     the steps of the relation in Daemon.Scheduler.Steps.
--   Session.Hygiene, Session.Normalize: src/core/session/domain/hygiene.ts, session/app/hygiene.ts and
--     session/app/state-normalizer.ts, a session's owner, lease and the form in which it is read.
--   Session.RuntimePool: src/core/session/infra/runtime-pool.ts, createSessionRuntimePool. Each
--     operation is a function up to its wait; what waits is in the state, and the calls and the ends
--     of waits are the events of a history. What has waited goes on by an event of its
--     own, so that others can come before it.
--   State.SessionPrune: src/core/state/infra/maintenance-session-prune.ts, sessionPruneInternal: probes
--     of a snapshot, then one pass over the state as it is by then.
--   State.DiskOptions, State.DiskEntries, State.DiskPrune: src/core/state/infra/disk-prune.ts, the
--     retention of run, capture and profile directories.
--   State.StateLock: src/core/state/infra/state-lock.ts, withStateFileLock. A turn of its loop is
--     synchronous, hence one function; the calls of several processes take their turns in any order.
--     State.StateLock.Race cuts turns of different processes before an unlink.
--   Target.SnapshotDiff: src/core/target/infra/utils/target-snapshot-diff.ts, from two parsed snapshots
--     to the report of their difference.
--   State.IdleParking: src/core/state/infra/session-idle-parking.ts, the scan for idle managed sessions,
--     the signals to their processes and process groups, by killManagedBrowserProcessTree of
--     src/core/browser.ts, and the change of the state behind them.
--   Versions: src/core/shared/domain/semver.ts, comparison of versions and ranges.
--   State.NetworkArtifacts: src/core/state/repo/network-artifact-repo.ts, the list and the
--     prune of the artifacts in the state.
--   Base: lists, texts, maps in insertion order and JSON values, shared by all.
--
-- Conventions. Numbers that the source keeps whole and not negative are natural numbers; a JavaScript
-- number of unknown form is Base.Json.Number. Texts that the code takes apart are lists of UTF-16
-- code units, texts that are only compared are strings. null and undefined are `none`. Letters
-- beyond ASCII have no lower case.
--
-- Bounds and fuel. The dispatch loop of the scheduler runs on fuel, the number of free places, which
-- Daemon.Scheduler.Rounds shows to be enough; the digits of a number run on fuel one above it. All
-- other loops are structural. The tree of a directory is finite: a link into itself is outside the
-- model.
--
-- Parameters. The calendar (Date.parse and toISOString of times from 1970 on, with the law that a
-- written time up to the last date is read back), the URL parser, JSON.parse, the command manifest, localeCompare, the path module, and the
-- probes of endpoints and processes. One call reads the clock once, except that the probes of a
-- prune and its change of the state have a time each.
--
-- Not modelled: the daemon's transport and processes, the state store's files, the append of a
-- network artifact, the stop of one session, the commands on targets but the difference of snapshots,
-- and the registration of commands.
pub mod Base
pub mod Cli
pub mod Daemon
pub mod Session
pub mod State
pub mod Target
pub mod Versions
