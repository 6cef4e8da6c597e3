-- ===== src/Lib.antt =====
-- Models and proofs of the core of Atenea, the service that answers a request for a capability
-- (search this code, look at the desktop) with the best of several implementations.
--
-- The parts and how they meet. A client's request names a capability and a repository. The catalog
-- (internal/registry) gives the implementations registered for the capability, with the health
-- that probes of this repository found. The selector (internal/selector) sends them through a
-- funnel of three stages, ranks the survivors and chooses one, with a record of every stage. A
-- guard on the conversation (internal/core/tainted.go) refuses a call that would act on the device
-- after the conversation was handed the screen. The answers of pure capabilities are kept by a
-- bounded cache (internal/resultcache). A plan of several steps is cut into waves (pkg/contract) and
-- dispatched wave by wave (internal/orchestrator), where a step that failed blocks what needs it. The
-- servers behind the implementations are child processes that a supervisor (internal/supervisor)
-- keeps alive. The types they share stand in pkg/contract.
--
-- Which file models which part:
--   Prelude       Boolean tests, lists, Go maps (association lists), strings (lists of bytes),
--                 signed integers over the native numbers, float64 as far as it is compared.
--   Contract      pkg/contract. Enums and Implementation: implementation.go and repository.go,
--                 where `stale`, `usable`, `effective`, `barren`, `speaks_any` are the methods
--                 Stale, Usable, Effective, Barren, SpeaksAny. Names and Kinds: the parsers and
--                 printers of the enumerations there and in capability.go.
--                 Value: the values of a payload. Ids, Capability, Validate: capability.go and the
--                 Validate methods, `true` for the nil error. Payload: checkPayload and what it
--                 calls; Schema: schema.go, with what JSON Schema says of a value (`accepts`).
--                 Plan: workflow.go, with `layers_after` for LayersAfter and `index` for the checks
--                 of a plan; Sort, Waves, Layers, Schedule and Cycle hold what it answers.
--                 Version: version.go. Completeness: completeness.go.
--   ResultCache   internal/resultcache/cache.go. A `Cache` is the map, the list of recency
--                 and the byte count; `get`, `put`, `evict`, `remove_locked` are Get, Put, evict
--                 and removeLocked. Bounds, Order, Reads, ReadBack hold its invariant, its order of
--                 eviction, and what reads give. Flights: DoIfState, as the parts of calls that
--                 interleave, each between two operations on the lock, a channel or the provider.
--   Selector      internal/selector/selector.go. Funnel: fits, answers, Eligible and the three
--                 stages (`sift` is their common loop). Rank: the comparators `cheaper`,
--                 `dominated`, `rank_with_quality`. Choose: the sort, the preference and the rules.
--                 Select: the method Select. Quality: the observations it reads;
--                 Quality/Book: how internal/selector/quality.go makes, adds and checks them.
--                 Quality/Ledger: the book itself, with Record, persistLocked (`persist`) and
--                 readQualityRows (`read_rows`); History has books that share one file, and
--                 Snapshots has Snapshot and SnapshotVersion.
--   Registry      internal/registry/registry.go. A `Registry` holds the five maps. Its operations
--                 return the new catalog or a refusal; Observed holds SetHealth, what
--                 persistLocked returns, Observed and Observations; Distance holds levenshtein. Steps defines the catalogs that calls
--                 build, as a relation; Index, Providers and Probes hold what reads of them give.
--   Taint         internal/core/tainted.go, and the calls of it in internal/core/mcp.go: the
--                 calls of one conversation between two handshakes, as a list.
--   Devices       internal/core/device_ownership.go. The owners are shared objects, so the state
--                 is a store of owners and a map into it; a reservation is its first check, the
--                 probe, and `commit_reservation` behind the probe, with other calls between.
--   Orchestrator  internal/orchestrator/orchestrator.go. Closing: close and judge (`review_of`), and
--                 `Surroundings`, which has what the steps answer. Loop: dispatch, runWave,
--                 blockedBy, totalSpent and overallVerdict. Ids, Waves and Order hold what each
--                 wave closes, Complete and Approval how a dispatch ends and what its verdict
--                 says. Ask: Ask, with floor.go and what it uses of grant.go; Ask/Permit holds
--                 what a question that went well was permitted.
--   Supervisor    internal/supervisor. Ring: ring.go, the tail of a process's output. Process:
--                 process.go, one process, as the parts of its callers, the reaper, a shutdown
--                 and its activations (`run`) that interleave; Single, Budget and Latch hold what
--                 any order of them keeps.
--   Tests         runs of the model, and the theorems at concrete inputs.
--
-- Fuel. `evict` of the cache is on fuel: each round removes the last element of the list of
-- recency, so one round more than the list is long is enough, and `put` gives that many. The
-- printing of a version is on fuel too: 20 digits are enough for a 64-bit number. The waves of a plan
-- are on fuel: each round but the last finishes a step, so one round more than there are steps is
-- enough.
--
-- Time is a number that a caller passes in. Locks are not modelled: what holds the lock of its
-- component from start to end is one step. Deep copies are not needed, since values do not change.
-- Parameters of the model stand for what is outside this code: the hash of a configuration, the
-- canonical root of a repository, the stored table of quality observations that the selector reads,
-- the division of two counts, the sort of the rows of the ledger, the encoding of the catalog's state
-- and the failure of the file system that keeps it, the answers of child processes, and the answers of
-- the steps of a plan.
--
-- Limits of the model. The sort of the candidates is by insertion, as `slices.SortFunc` sorts up to
-- twelve elements; where the comparison is a strict total order, every sort gives this list.
-- `dominated` counts for a candidate, where the source keeps a table by id: they agree on candidates
-- with distinct ids, as the catalog's are. The names of languages are ASCII. The conversion of a float
-- out of the range of int64 gives what amd64 gives.
--
-- Not modelled: command line, configuration files, adapters, transports, sockets, stores on disk,
-- the registration of processes and the loop of the reaper, the purse of several steps and the choice
-- for one step in the orchestrator, and the metrics, which are input and output for the most part; of
-- the modelled packages, the listings and the lookup by directory of the catalog.
pub mod Contract
pub mod Devices
pub mod Orchestrator
pub mod Prelude
pub mod Registry
pub mod ResultCache
pub mod Selector
pub mod Supervisor
pub mod Taint
pub mod Tests
