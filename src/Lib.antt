-- ===== src/Lib.antt =====
-- A model of wemixvisor, the process manager that runs a Wemix node and replaces its binary at the
-- heights that upgrade plans name.
--
-- The parts and how they interact. The upgrade file watcher finds new upgrade plans; the height
-- monitor polls the chain and sends each new height to its subscribers; the orchestrator takes
-- plans from the first and heights from the second, and has the node manager stop and start the
-- node. The governance tracker mirrors the proposals of the chain, and the scheduler keeps the
-- upgrades that proposals carry. Batch plans are lists of upgrades made by hand. The command line
-- parser separates the options of wemixvisor from the arguments of the node. The governance monitor
-- feeds the scheduler from the tracker and writes the upgrade file when an upgrade is due; the WBFT
-- coordinator writes it when the next upgrade of a batch plan is near. The process manager is the
-- other way to run the node: it stops the process when the file watcher has an update, and performs
-- upgrades with the pre-upgrade hooks and a backup. The configuration is validated and migrated
-- between versions. The monitor tells the notifier of what it does, and the middleware guards the API.
-- The performance cache, the connection pool, the priority queue of the workers and the alert manager
-- stand by themselves.
--
--   Orchestrator        internal/orchestrator/orchestrator.go (on_height is one receive of
--                       monitorHeights, watch_tick one tick of watchUpgradeConfigs)
--   Node                internal/node/manager.go, internal/node/state.go (monitor_exit is monitor
--                       once the process is gone; Node.Events.step is one call, exit or restart)
--   Height              internal/height/monitor.go (poll is one round of monitorLoop)
--   Watcher             internal/upgrade/watcher.go (take_upgrade is one round of WaitForUpgrade)
--   Types               pkg/types/upgrade.go
--   Governance          internal/governance/types.go
--   Governance.Scheduler internal/governance/scheduler.go
--   Governance.Proposals internal/governance/proposals.go
--   Governance.Monitor  internal/governance/monitor.go (one tick of each loop)
--   Governance.Notifier internal/governance/notifier.go
--   Api                 internal/api/middleware.go (rate_limiter is one request at the RateLimiter)
--   Batch               internal/batch/batch.go
--   Wbft                internal/wbft/coordinator.go, the waits of internal/wbft/client.go (on_state
--                       is one state received by MonitorAndCoordinate)
--   Process             internal/process/manager.go, the links of internal/config/paths.go
--                       (run_process_cycle is one round of mainLoop)
--   Hooks               internal/hooks/preupgrade.go
--   Config              internal/config/config.go
--   Config.Manager      internal/config/manager.go (splitting, merging, updates)
--   Config.Validator    internal/config/validator.go (Fields has ValidateField)
--   Config.Migrator     internal/config/migrator.go
--   Cli.Parser          internal/cli/parser.go
--   Cache               internal/performance/cache.go
--   Connections         internal/performance/pool.go (advance is the next step of a call)
--   Workers             the priority queue of internal/performance/worker.go
--   Alerting            internal/alerting/manager.go
--
-- A function has the name of the Go function in lower case with underscores, and the child modules
-- hold the theorems. Base has the shared parts: Boolean tests, lists, integers, maps, sorting and
-- heaps.
--
-- How the code is represented. An int64, a time and a duration are unbounded integers; no modelled
-- code adds heights, so none overflows, and times are far from the bounds. A Go map is an
-- association list without repeated keys, and where the code ranges over one the order is that of
-- the list. A pointer that several structures share is an index into a heap. sort.Slice is a stable
-- insertion sort, one of the orders it may give among equal keys. The clock, the file system, the
-- operating system and the network answer through arguments. A method that holds a lock is one
-- step, and runs are lists of steps; the calls of the connection pool, which hold it for parts only, are
-- taken apart into steps that interleave; the upgrades that are scheduled while one executes are an
-- argument of on_height. A process that was killed is taken to be gone when Stop has slept its
-- 100 ms. A float is a parameter with its comparisons. Two loops are on fuel: Config.Migrator.migrate
-- with ten rounds, one for each version of the progression and two more, and Hooks.retry with one
-- round for the first run and one for each retry; that this is enough is proved. Every other loop goes
-- over a list.
--
-- Not modelled: logging, metrics, health checks, the routes of the API server, the channels of the
-- alert manager, loading of configuration files, templates, downloads, backups, the RPC clients, the
-- dispatcher of the worker pool, and the commands that print. They are I/O or libraries' work, or
-- parts apart from those above. The validation of JWT tokens is a parameter.
pub mod Base
pub mod Types
pub mod Config
pub mod Cache
pub mod Connections
pub mod Workers
pub mod Alerting
pub mod Hooks
pub mod Process
pub mod Wbft
pub mod Api
pub mod Governance
pub mod Cli
pub mod Batch
pub mod Height
pub mod Watcher
pub mod Node
pub mod Orchestrator
