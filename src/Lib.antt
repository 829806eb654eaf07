-- ===== src/Lib.antt =====
-- The structural core of agent-dispatch, a program that watches a directory and hands bounded
-- batches of changes to agents: what it may do with a batch, which paths count, and how a dispatch
-- and its route move through their states.
--
-- The parts, and how they work together. The pattern engine classifies each path of a batch; the
-- planner turns the classified batch into a disposition; the destination selection decides which of
-- the route's destinations it goes to. A dispatch then lives as an intent, whose transitions the
-- intent state machine validates, and the lane that carries it moves through the route state
-- machine. A submission's result is classified into the intent transition to ask for, and a work
-- receipt completes the lane, with a follow-up where work remains, whose intent takes the lane's
-- slot in the same transaction. Lanes that share a serialization group take turns with its slot.
-- Apart from that, two instances keep a wiki in step: signed membership plans say which instances
-- publish, and a verification concludes from their statuses that they agree.
--
--   Base           the shared names: Go strings as lists of bytes, slices as lists, Go's `int` as ℤ,
--                  `(value, error)` as `Result`
--   Records        internal/domain/records: `Enums` (enums.go, the closed enums and their parsers),
--                  `Paths` (digest.go, `NormalizePath`), `Fanout` (fanout.go)
--   State          internal/domain/state: `Intent` (intent.go), `Projection` (projection.go), `Route`
--                  (route.go). A table is a function of two states into optional reasons, the guards
--                  are a function by clauses on the edge, and an error is a value
--   Policy         internal/domain/policy/pattern.go: `Glob` (`matchSegment`), `Rows` (`matchRow` and
--                  its callers), `Compile` (`compile`), `Engine` (`newEngine`, `Classify`)
--   Dispatch       internal/app/dispatch: `Classify` (classify.go), `Planner` (planner.go), `Selection`
--                  (selection.go)
--   Lanes          internal/adapters/sqlite: `Rows` (lanes.go: `laneSnapshotInTx`,
--                  `applyLaneTransition`, `routeUncertainHoldTx`), `Groups` and `Promotion`
--                  (serialization.go: `acquireGroupSlotTx`; `releaseGroupSlotTx`,
--                  `transferGroupSlotTx`), `Intents` (store.go: `SaveIntent`, and
--                  coordination.go: the records of a follow-up), `Completion` and
--                  `Handover` (coordination.go: `completeActiveTx` on the rows of the lane and its
--                  route, and with the slot of its group), `Activation` and `Merging`
--                  (coordination.go: `ActivateDispatch`, `ActivateFollowup`; `mergeLanesTx`) as
--                  functions from one store to the next, and `Reach`, their steps as a relation
--   Sync           internal/domain/syncrecords: `Patterns` and `Endpoint` (the regular expressions,
--                  endpoint.go), `Membership` (membership.go: `Validate`; its children `Change`, `Plan`
--                  and `Transition`: `applyChange`, `NewPlan`, `ValidateTransition`,
--                  `AuthorizePublisher`), `Verification` (peer.go, verification.go)
--   Retention      `Durations` (internal/config/semantic.go: `ParseDuration`), `Policies`
--                  (internal/app/maintenance/policy.go)
--   Tests          runs and applications on concrete inputs
--
-- Moves of both state machines are stated a second time as data types, one rule for each documented
-- edge and reason (State/Intent/Moves, State/Route/Moves); the meaning of patterns likewise
-- (Policy/Glob/Meaning, Policy/Rows/Meaning).
--
-- Fuel: only the loop of `matchSegment` runs on fuel, `segment_fuel`, a bound on its rounds by the
-- lengths of the pattern and of the name. The other loops are structural.
--
-- Parameters: the validity of UTF-8, Unicode normalization and case folding (`valid_utf8`, `nfc`,
-- `fold`), `json.Marshal` as the number of bytes (`marshal`), `sort.Strings` (`sort_strings`), and
-- the path matcher of the destination selection; for the sync records the parser of URLs
-- (`parse_url`), the JSON encoding that is hashed (`marshal`) and SHA-256 (`sha256_hex`).
--
-- Not modelled: SQL and the failures of the database, the version columns and the audit trail; the
-- checks of an intent's fan-out record, whose answer is a field of the intent; merges of several
-- destinations at once, the topology of serialization groups and the rest of the store's
-- coordination; ingestion and the submission loop; of synchronization the strict JSON decoders, the
-- publications, imports and checkpoints, and git; notifications, the rest of the configuration, the
-- command line, and all adapters that only do I/O.
pub mod Base
pub mod Records
pub mod State
pub mod Policy
pub mod Dispatch
pub mod Lanes
pub mod Sync
pub mod Retention
pub mod Tests
