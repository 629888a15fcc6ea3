-- ===== src/Lib.antt =====
-- A verification library of the schema drift monitor: models of its Python code, and the theorems that
-- make them correct.
--
-- The program. A route (POST /track in app/main.py) hands each request's payload to the runtime
-- (app/runtime). The runtime makes a canonical schema of the payload, compares it with the endpoint's
-- current version in the contract registry, gives each change a compatibility class, registers the
-- schema as a new version, and writes one outbox row for each subscription that the change concerns.
-- The route then keeps the legacy tables (app/core): it registers a structural fingerprint of the
-- payload, and logs each change against the endpoint's baseline with a severity. A worker
-- (app/workers/outbox_worker.py) polls the outbox and posts each row to its consumer; what it cannot
-- deliver ends in the dead letter queue, from which it can be replayed. Beside it stands the monitor
-- (backend/app): it reads a registry of endpoints, fetches each, infers the schema of what it gets,
-- compares that with the schema of the last snapshot, stores both with a severity for each change,
-- writes changelogs, and drops old samples. One run at a time works, under an advisory lock.
--
-- Which file models what:
--
-- - Base and its children: Python's tests, lists, dicts and sorted sets, the results that may be
--   exceptions, and tables with distinct keys.
-- - Json.antt, Schema.antt: payloads as json.loads gives them, and canonical schemas with Python's ==,
--   bool, str and repr on them.
-- - Runtime/Models.antt: app/runtime/models.py, the classes and their ranks.
-- - Runtime/Canonical.antt: app/runtime/canonical.py. canonicalize is the function of that name;
--   Canonical/Shape and Canonical/Keys say what of a payload it keeps.
-- - Runtime/Classifier.antt: app/runtime/classifier.py. flatten, classify, diff_and_classify and
--   summarize_classification are the functions of those names, less the leading underscore;
--   classify_both, classify_types and classify_enums are the branches of _classify. Its children are
--   Diff, Summary, Worst, Returns and Masking.
-- - Runtime/Database.antt: the tables of migrations/, as lists of records with the newest row first,
--   and the gauges.
-- - Runtime/Registry.antt: app/runtime/registry.py. ensure_endpoint, get_current_schema and
--   upsert_schema_version; register_version is the part of the latter behind the advisory lock.
--   Lineage, Upsert and Registration hold the invariant of versions.
-- - Runtime/Subscriptions.antt: app/runtime/subscriptions.py, one function for each of its own.
--   Subscriptions/Selection says who is told of an event.
-- - Runtime/Webhook.antt: app/runtime/webhook.py. attempts_from is the loop of deliver_with_retry; the
--   other functions have their names.
-- - Runtime/Outbox.antt: app/workers/outbox_worker.py. poll_once is _poll_once; process_item is the
--   body of its loop and settle the branches behind a delivery. Outbox/Shared.antt has several workers:
--   the row locks of the query, which skips the rows that others hold, and the commit behind the first
--   update that gives them up.
-- - Runtime/Service.antt: app/runtime/service.py. enqueue_webhook_outbox is _enqueue_webhook_outbox
--   with the body of its loop as enqueue; track_contract calls the modules above in the order of the
--   source, follow_up is what comes after the registration, and announce its branch for a new version
--   behind an older one.
-- - Runtime/System.antt: the requests and polls as steps of one database. System/Frame, System/Requests
--   and System/Registered hold what each of them keeps, System/Reachable the theorem.
-- - Runtime/Events.antt: app/runtime/events.py, with publish_from as the loop of publish_with_retry.
-- - Track.antt: POST /track in app/main.py; track_payload is the function of that name and dual_write
--   what follows its first commit. Track/Served holds the theorem.
-- - Core/Parser.antt: app/core/parser.py, under its own names; serialize is serialize_ast_to_string.
--   Core/Parser/Sorting and Core/Parser/Alike say what the structural text does not depend on.
-- - Core/Drift.antt: the structural diff and the severities of app/core/engine.py; mark_safe,
--   mark_risky and mark_breaking are the loop bodies of the three passes.
-- - Core/Snapshots.antt: the tables of app/core/engine.py, with ensure_api_endpoint for its
--   ensure_endpoint, and the second half of track_payload in app/main.py as track_legacy.
-- - Runtime/Documents.antt: app/runtime/document_store.py, _document and InMemoryDocumentStore, with
--   store_payload_snapshot and the other operations under their names and list_documents for _list;
--   Documents/Mongo: MongoDocumentStore over a client, and build_document_store; Documents/Calls: a
--   write of either, or a read of a payload snapshot, as a value for both to be run on. Collections and
--   Returns have the lemmas on one call; Stored, Newest and Alike hold the theorems.
-- - Monitor/Types.antt, Monitor/States.antt, Monitor/Infer.antt: backend/app/core/schema_infer.py.
--   States has the dict of accumulators and the parts of _emit_value that concern a scalar, as
--   note_null, note_type, note_example and note_text; Infer has _walk, with walk_array for its branch
--   on lists, the rest of _emit_value, _finalize and infer_schema. Infer/Walks is the induction over a
--   walk, Infer/Nodes and Infer/Steps the invariants, Infer/Sorted the theorems.
-- - Monitor/Severity.antt: backend/app/core/severity.py, with the keys of its table as the type
--   ChangeType.
-- - Monitor/Changes.antt, Monitor/Diff.antt: backend/app/core/schema_diff.py. Changes has the
--   comparison of two nodes and the messages; Diff has the three loops of diff_schemas, whose bodies
--   are removed_at, added_at and changed_at. Their children are Mirror, Loops, Exact and Unchanged.
-- - Monitor/Canonical.antt, Monitor/Normalizer.antt: backend/app/core/canonical.py and normalizer.py.
-- - Monitor/Tables.antt: the tables of backend/app/models.py, as lists of records.
-- - Monitor/Registry.antt: backend/app/core/registry_loader.py, from the parsed file on.
-- - Monitor/Process.antt: _process_endpoint and _get_prior_snapshot of
--   backend/app/workers/monitor_runner.py, and FetchResult of backend/app/core/fetcher.py.
--   process_fetch is what follows the fetch.
-- - Monitor/Runner.antt: run_monitor and _retention_sweep. run_body is what stands in its try block and
--   fail_run what the except block does. Turns, Runs, Statuses, Settled and Retention hold the
--   theorems.
-- - Monitor/Locking.antt: backend/app/core/locking.py. locked_run is run_monitor inside advisory_lock;
--   release is the block behind it.
-- - Monitor/Changelog.antt: backend/app/core/changelog.py, with choose_text for the choice between the
--   model's answer and the template.
-- - Tests and its children: runs at concrete data.
--
-- How state is modelled. A database is a record of tables; an operation takes it and returns the one it
-- leaves. An id is a number drawn from next_id where the database draws a random UUID, and a time is a
-- number of seconds that the caller gives. A call that may raise returns a Result. A consumer is a
-- function from the attempt, or from the outbox row, to its reply. What the monitor calls outside the
-- repository is the record Environment (the digest, the encoder, the expansion of variables, the HTTP
-- fetch); the theorems name what they ask of it. A JSONB column is a Column, in which SQL NULL and the
-- JSON value null are two values. The lock manager and the MongoDB client are records of operations and
-- their laws, LockService and Client.
--
-- Bounds. All loops are over lists or over the number of attempts that are left, so no fuel is needed.
-- Numbers are unbounded where Python's are; the columns' 32 bits are not modelled.
--
-- What is not modelled: SHA-256, so that a fingerprint is a text that the caller gives or a parameter;
-- the advisory lock of the runtime, and interleavings of transactions other than the selections of
-- outbox workers; that a run of the monitor fetches its endpoints concurrently, since all of them write
-- through one session; the sleeps between attempts, histograms and logs; the MongoDB driver, of which
-- Client says what is asked, refusals included; the event backends, whose code only calls a driver; the
-- FastAPI routes and the pages in front of them; the call of a language model, whose answer is an
-- argument; the text of floats; the order in which a JSON column returns the keys of a stored schema,
-- which is that of the schema here; migrations, load tests, the simulator and the scripts.
pub mod Base
pub mod Json
pub mod Schema
pub mod Runtime
pub mod Core
pub mod Track
pub mod Monitor
pub mod Tests
