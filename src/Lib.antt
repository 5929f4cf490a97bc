-- ===== src/Lib.antt =====
-- Pre-trade risk controls of the riskguard package.
--
-- A guard runs an ordered chain of checks on each order request and records the orders that were
-- placed. The model passes the guard's state explicitly: an operation takes the readings of the
-- clocks and the state, and returns its result and the new state. Where calls interleave, in CheckOrder
-- and in a subprocess check, there is a step relation next to the operations.
--
-- The parts, and the files that model them:
--   Prelude     numbers, texts, lists and maps. Go's int and int64 are integers with the wrap to 64
--               bits written out; a map is an association list that holds each key once.
--   Env         what the package uses and does not contain, as one record: float64, Money, the
--               database, SHA-256, formatting, whether the zone's data is there, and the world that
--               lookups and plugin checks read.
--   Calendar    Go's time: instants are nanoseconds since the zero time; the clock of Asia/Kolkata.
--   Model       the types of guard.go, limits.go, trackers.go, per_second.go and dedup.go. State is
--               Guard without its chain and its logger; `sent` lists the events and notifications.
--   Limits      limits.go: GetEffectiveLimits, getOrCreateLimits, persistLimits, LoadLimits, InitTable
--               and the setters of hooks (Limits/Setup).
--   Trackers    trackers.go: getOrCreateTracker, maybeResetDay, GetUserStatus, and the JSON form of
--               UserStatus (Trackers/StatusJson).
--   Lifecycle   lifecycle.go: FreezeGlobal, UnfreezeGlobal, Freeze, Unfreeze, IsFrozen,
--               recordRejection, checkAutoFreeze.
--   PerSecond   per_second.go: the counter by calendar second; orders in flight between their check and
--               their record (PerSecond/InFlight).
--   Dedup       dedup.go: SeenOrAdd, Cleanup, Size.
--   Chain       check.go and guard.go: the Check interface, RegisterCheck, ListCheckNames; sequences of
--               registrations and their classes (Chain/Registrations, Chain/Classes).
--   Itoa        otr_band.go: the decimal formatter and the messages built with it.
--   Checks      internal_checks.go, otr_band.go, circuit_limit.go, margin_check.go and
--               market_hours.go: the rules themselves.
--   Builtin     check.go: the adapters of the rules, builtinChecks; guard.go: NewGuard.
--   CheckOrder  guard.go: CheckOrderCtx with safeEvaluate, and RecordOrder; the rules that a new guard
--               enforces, without the code that enforces them (CheckOrder/Acceptance);
--               concurrent calls as steps (CheckOrder/Concurrent).
--   Middleware  middleware.go: the wrapper of a tool call over an abstract next handler.
--   Discovery   plugin_discovery.go: DiscoverPlugins over an abstract registrar.
--   Checkrpc    checkrpc/types.go: the wire types, a plugin's server and the host's proxy, over net/rpc;
--               the adapters and names that go-plugin is configured with (Checkrpc/Plugin).
--   Subprocess  subprocess_check.go: a check in a child process, one call at a time (Subprocess) and
--               concurrent calls as steps (Subprocess/Concurrent), which a call that runs alone follows
--               (Subprocess/Concurrent/Sequential); its registration (Subprocess/Registration), and
--               examples/riskguard-check-plugin (Subprocess/Example).
--   Hclog       hclog_shim.go: the adapter between two loggers.
--   Tests       a concrete Env, runs, and the theorems at concrete inputs.
--
-- How they interact: a check reads the state, and some change trackers or keys while they run; a
-- rejection by a check that records goes through recordRejection and checkAutoFreeze, which freezes
-- the user's entry of the limits and persists it; the kill switch, first in the chain, reads that
-- entry. RecordOrder feeds the counters that the rate, duplicate and value checks read.
--
-- A panic is a value: a check ends with a result, with a panic that CheckOrder recovers, or with a
-- panic that leaves the guard's mutex locked, and then a later lock never returns (`hangs`). No
-- definition runs on fuel but the loop of `itoa`, whose fuel is the 20 bytes of the source's buffer.
-- Instants before the zero time do not occur, so a subtraction of a duration stops there.
--
-- A call that hangs leaves the mutex locked; nothing is said of the calls after it.
--
-- go-plugin, net/rpc, the file system and the processes are parameters (Host, RpcClient), and the
-- subprocess checks, which the chain shares by pointers, are cells of a heap in the world (Heap).
--
-- Not modelled: what the guard itself logs, and with it SetLoggerPort, SetServiceCtx and the request's
-- context; SetClock of the guard and of Dedup, since the readings of the clocks are arguments; the test
-- seam of the zone's loader (loadMarketHoursIST); waiting for a lock of
-- SubprocessCheck, where a locked section is one step. A check's Evaluate, which takes the guard's lock more
-- than once, is one step of a concurrent call.
pub mod Prelude
pub mod Env
pub mod Calendar
pub mod Model
pub mod Limits
pub mod Trackers
pub mod Lifecycle
pub mod PerSecond
pub mod Dedup
pub mod Chain
pub mod Itoa
pub mod Checks
pub mod Builtin
pub mod CheckOrder
pub mod Middleware
pub mod Discovery
pub mod Checkrpc
pub mod Subprocess
pub mod Hclog
pub mod Tests
