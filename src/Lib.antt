-- ===== src/Lib.antt =====
-- A model of tod-dl, a downloader that keeps its queue in an SQLite manifest and fetches each item
-- through aria2 over Tor, with an operator's monitor beside it.
--
-- The manifest (`downloads`, `run_items`, `download_transitions`, `control_requests`,
-- `tor_renewals`, `telemetry_revisions` of src/tod-dl.py) is the durable state. The controller,
-- class `Downloader` of src/tod-dl.py, changes an item's row in one transaction that also logs the
-- change and advances the run's revision, and then tells the in-memory summary
-- (`TelemetryStateProjection`) which the monitor shows. The monitor's confirmed requests reach
-- `control_action`, whose handlers change rows or flags and record the request.
--
-- - Base: tests, integers, lists, dictionaries and texts that the parts share.
-- - Status, Json, Manifest: the states and their display buckets; the values of a request; the
--   tables as lists of records, with the statements that the methods run.
-- - Telemetry: the calls to the publisher, and `sanitize_message` (src/download_telemetry.py).
-- - Projection: `TelemetryStateProjection`. Projection/Hydrate: `hydrate`, with its pages, and `copy`.
--   Projection/Sync says what it summarises.
-- - Controller: `Downloader` with `transition`, `apply_projection_change`, `provenance_event` and
--   `record_local_failure`.
-- - Control: `control_action`, `control_state`, the eleven actions, and `request_newnym`.
-- - Scheduler: the choice of the next item, the daily rechecks, and the restart (`next_pending`,
--   `retry_wait`, `claim_recheck`, `requeue_interrupted_transfers`, `record_source_generation`).
-- - Server: the confirmations of `ControlServer` (src/controller.py), in front of the controller.
-- - Files: the directory tree, one entry for a path, as `lstat` sees it.
-- - Worker: what the workers' methods share: their state, and steps that return, raise, or end the
--   process at a failpoint. Worker/Failures, Worker/Events, Worker/Representation: the texts of
--   aria2, the evidence of a transfer, and the decision to resume. Worker/Transfer: `transfer`, with
--   its promotion in Worker/Transfer/Promotion and the whole in Worker/Transfer/Run.
--   Worker/Recovery: `reconcile_promotions` and `cleanup_completed_staging`. Worker/Keeps,
--   Worker/Entries and Worker/Overwrites follow the tree through the steps; Worker/Sound,
--   Worker/Plain, Worker/Crash and Worker/Finishes follow the row; Worker/Outcomes,
--   Worker/Integrity, Worker/Checked and Worker/Completion follow the answer; Worker/Resume is about
--   partial files, Worker/Slots about the numbers of the workers, and Worker/Selection about
--   `scope_run` and `dry_run`.
-- - Provenance: the chained record of a run (src/provenance.py, src/verify_provenance.py).
--   Provenance/Schema, with its constants in Provenance/Schema/Rules, and
--   Provenance/Schema/Errors: `schema_document` and `schema_errors`. Provenance/Writer:
--   `ProvenanceWriter`, with `event` and `close`. Provenance/Events: `check_event` and the loop
--   over the lines, which Provenance/Events/Loading parses. Provenance/Verifier: `verify`, with
--   its checks in Provenance/Verifier/Summary and Provenance/Verifier/Delivery. Provenance/Lines,
--   Provenance/Chain, Provenance/Verified and Provenance/Signed are about a record that verifies,
--   Provenance/Returns about the records of which `verify` returns; Provenance/Loaded,
--   Provenance/Recorded, Provenance/Written, Provenance/Whole, Provenance/Accepted,
--   Provenance/Log, Provenance/Sound and Provenance/Closed about one that a writer leaves.
--   Json/Dict and Json/Equal: Python's dictionaries with their keys in the order of `sort_keys`,
--   and `==`.
-- - Tests: a small run, and more of it in Tests/Schedule, in Tests/Transfers a small tree, and in
--   Tests/Records and Tests/Calls a record.
--
-- A method is a function from the state to the state and its answer, or the exception that leaves
-- it. A method is one step, with nothing of another thread within it: `db_lock` is held around its
-- statements, but `transition` tells the projection after it has released the lock, and the call of
-- Tor in `request_newnym` is outside of the locks. The check of `request_newnym` and the rest of the
-- call are two steps (`begin_newnym`, `finish_newnym`), which other calls can come between. A row of
-- a table is a record, an UPDATE a map over the rows, a SELECT a filter; a column that may be NULL is
-- an Option. Times are whole seconds. Functions are by recursion on their data. Only the pages of
-- `hydrate` run on fuel, one more than the rows of the run, which is enough; the loop of
-- `move_candidate` runs over the names that `uuid4` gives, as many as the model is given, and gets no
-- further where all of them are in use.
--
-- Parameters: the SHA-256 of a url in hexadecimal (`sha256_hex`; where it matters, no two urls share
-- it, `NoCollision`), the clock, the origin of a url (`urlsplit`), the nonces of the server, the
-- answer of the Tor control port, the headers and files that aria2 leaves, the hash of a file, the
-- paths of `pathlib`, the errors of the file system, and what SQLite leaves on disk when it fails in
-- `transition`. For the record: the bytes of `json` and what it reads back, SHA-256, the key's
-- signatures, `re.search`, `urlsplit`, `PurePosixPath` and the comparison of floats (`Library`).
--
-- Not modelled: the waits and the progress within a transfer, `import_queues` and the parsing
-- of queues and listings, the inventory and inspection queries, the sockets of the servers, the
-- monitor's drawing, and the evaluation tools, which start processes and measure them. A text is of
-- Unicode scalar values, so that a text with a lone surrogate is not in the model of the record, nor
-- is a value nested more deeply than Python's recursion goes, nor a schema.json that cannot be read. Where SQLite
-- fails in a control action or in a transfer, or Python prints, the model has nothing.
pub mod Base
pub mod Status
pub mod Json
pub mod Manifest
pub mod Telemetry
pub mod Projection
pub mod Controller
pub mod Control
pub mod Files
pub mod Worker
pub mod Scheduler
pub mod Server
pub mod Provenance
pub mod Tests
