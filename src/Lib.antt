-- ===== src/Lib.antt =====
-- sos-beacon: a harvester that fetches public posts, filters and classifies them, posts pointers to a
-- channel and records what it has handled. This library models the Go program and proves what makes
-- its parts correct.
--
-- How the parts interact. A run of one beacon (internal/engine/engine.go, RunBeacon) fetches signals
-- from its sources, and takes each through the freshness gate, the dedupe check, the keyword gate
-- (internal/filter/filter.go), the classifier, the thresholds and the sink, and records it in the store
-- (internal/store/file.go). cmd/sos-beacon/main.go wires one store into all runs of the process.
--
-- Files.
--   Base and its children: shared names, lists, texts, maps, integers, float64, errors, and what the
--     program uses of Go's standard library.
--   Core: internal/core/core.go, the domain types and the ports.
--   Config: internal/config/config.go, the configuration and its defaults.
--   Filter: internal/filter/filter.go, Match.
--   Store/Key, Store/Disk, Store/File: internal/store/file.go. Store/Disk is package os as the store
--     uses it; the children of Store/File hold the laws.
--   Store/Contract: what the persistence port promises, and what an adapter has to show for it.
--   Store/AzureSql: internal/store/azuresql.go and schema.sql. Its child Statements has the SQL
--     statements on three tables, Open the opening of the connection.
--   Store/Registry: internal/store/registry.go, and purge of cmd/sos-beacon/main.go.
--   Engine/Tally, Engine/Pipeline, Engine/Run: internal/engine/engine.go: the counters, the body of the
--     loop over the signals, and RunBeacon around it. Engine/Pipeline/Trace observes the loop's calls,
--     Engine/Pipeline/Logged sets the counters beside them, Engine/Pipeline/Script has them one by one,
--     and Engine/Spans has the spans of a run.
--   Engine/Interleave: the goroutines of several beacons, which take turns at the calls of their ports.
--   Wiring: runBeacon of cmd/sos-beacon/main.go: where the store becomes deduper and recorder, and, in
--     Wiring/Prepare, which fetchers and which sink the engine gets. Wiring/Start: run of main.go.
--     Wiring/Together: the goroutines of runLoop over one store. Wiring/Summary: the lines of a run.
--   Loop: runLoop and loopBeacon of cmd/sos-beacon/main.go, as a step relation.
--   Sources/Lobsters, Sources/Hn, Sources/Reddit: internal/sources/lobsters.go, hn.go and reddit.go,
--     what a fetch makes of the answers that it gets, and Reddit's token. Sources/Web: their requests.
--   Sources/Registry, Ai/Registry, Delivery/Registry: registry.go in the directory of each.
--   Ai, Prompts: internal/ai/openaicompat.go and internal/prompts/embed.go.
--   Delivery/Labels, Delivery/Pace, Delivery/Describe, Delivery/Deliver: internal/delivery/labels.go and
--     internal/delivery/discord.go: the title and the link, the pacing, the description, and the post.
--   Schedule: the poll intervals, phase offsets and log levels of cmd/sos-beacon/main.go.
--   Health: internal/health/health.go, the probes.
--   Telemetry: the keys, the allowlist and, in Telemetry/Setup, Init of internal/telemetry/telemetry.go.
--     Ai/Enrichments: what recordGenAI adds to the engine's spans.
--   Tests: concrete inputs.
--
-- How state is modelled. A port is a record of functions that take the state of the outside world and
-- return the next one, so every effect is in the types and its order is the code's. Errors are values
-- with the text and the wrapped cause. The file store is its memory, a disk, and a list of the faults
-- that its coming saves meet; each method holds the mutex throughout, so it is one step. The SQL store
-- is its tables and the outcomes of the coming calls of the driver: a call is done, it fails, or it is
-- executed and its answer is lost. The goroutines of the loop mode are a list of tasks, and any of
-- them may take the next step; a poll is one phase there, with a start and an end. Engine/Interleave looks
-- into the polls: a step is one call of a port, since a method of the store holds its lock throughout. A
-- Go map is an association list, and what the program does with it does not depend on the order of
-- iteration. Base/Query and Base/Base64 have the query escaping and the base64 of Go's library.
--
-- Bounds. Strings are the lists of their code points, which is exact for valid UTF-8. A float64 is its
-- bit pattern with the IEEE comparisons, NaN included. Times are nanoseconds since Go's zero time, and
-- time.Sub saturates at 64 bits. The counters of a run count elements of slices in memory and are
-- natural numbers. Every loop is a recursion on the list that the code ranges over, so no fuel is used.
--
-- Parameters. The case tables of package unicode, time.ParseDuration, encoding/json, the YAML library,
-- package fmt's verbs, the environment's variables, the clock, the network behind fetchers, classifier
-- and sink, the SQL server's collation, and the choice of which call of a file or of the driver fails.
-- A theorem that needs something of them has it as a hypothesis.
--
-- Not modelled: the log lines but for the summary of a run, which no result depends on; the code of the
-- OpenTelemetry SDK, HTTP serving, flags and signals, which are calls of third-party code and of the
-- operating system.
pub mod Ai
pub mod Base
pub mod Core
pub mod Delivery
pub mod Filter
pub mod Store
pub mod Config
pub mod Engine
pub mod Telemetry
pub mod Wiring
pub mod Sources
pub mod Health
pub mod Loop
pub mod Prompts
pub mod Schedule
mod Tests
