-- ===== src/Lib.antt =====
-- The ingestion backend for satellite imagery (src/akasha): a Python service that plans, locks, runs
-- and records imports of scenes from external catalogues.
--
-- How the parts interact. The scheduler (scheduler/) builds a registry of sources from the settings,
-- plans a run for every source and area, and hands each plan to `run_source_job`, which gates it,
-- takes the lock of the source and area, and calls an ingestion service with a `SyncRequest`. The
-- service makes a job in the job store under an idempotency key, so that the same request is worked
-- on once, runs its stages in the stage store, and records every provider day in the sync ledger.
--
-- Which file models what:
--   Jobs/Store      src/akasha/jobs/store.py: `InMemoryJobStore`. A store is a record of two dicts;
--                   each method is a function of the old store; `none` stands for a `KeyError` or
--                   for a handle to a job that the store does not hold.
--   Jobs/Stages     src/akasha/jobs/stage_store.py: `InMemoryStageStore` (Defs) and
--                   `PostgresStageStore` (Table), whose constraints are those of migration 0002;
--                   the cast of an id to a UUID and the jobs of the database are arguments.
--   Jobs/Table      src/akasha/jobs/sql_store.py: `PostgresJobStore` as its statements over the table of
--                   migration 0001 with its partial unique index. `create_or_get` takes the table as
--                   each of its statements meets it, since others commit in between.
--   Jobs/Keys       src/akasha/jobs/idempotency.py: the keys as a digest of sorted items.
--   Schemas         src/akasha/schemas.py: `SyncRequest` and its validator, on strings from which
--                   pydantic has stripped the surrounding whitespace.
--   Providers       src/akasha/providers/contracts.py: the errors of providers.
--   Scheduler       src/akasha/scheduler: source_registry.py (Registry), planner.py (Planner),
--                   locks.py (Locks), orchestrator.py (Orchestrator).
--   Catalog         src/akasha/catalog/sync_ledger_repository.py: the ledger in memory.
--   Services        src/akasha/services/sentinel2_ingestion.py: the summary, the loop over the items
--                   of a search, `_execute_provider_day` with the ledger, and the body
--                   of the loop (Item), where each call of a repository may raise; the loop
--                   takes an item as a function that returns an outcome, and so leaves out the
--                   exceptions that end it. `recover_worker_lost` over the stores in memory
--                   (Recovery). The window of a scheduled run (Window) is that of
--                   src/akasha/jobs/sentinel2_tasks.py.
--                   eos04_ingestion.py (Eos04) on `_StageContext` (Staged), whose `World` puts the job
--                   store and the stage store beside the state of everything else;
--                   readiness.py (Readiness); signing.py (Signing);
--                   source_mirroring.py (Mirroring).
--   Processing      src/akasha/processing/sar_comparability.py (Comparability),
--                   src/akasha/processing/sar_temporal.py (Temporal).
--   Storage         src/akasha/storage/object_store.py: `InMemoryObjectStore`, a dict of bytes.
--   Base            what these share: dicts, lists, stable sorting, equality, texts.
--
-- Conventions. A date is a number of days and a moment a number of microseconds. A method under a
-- lock is one step. `uuid4()` and the clock are arguments of the functions; a method that reads the
-- clock more than once gets one moment. A percentage is a number of millionths. Every loop of
-- the program is structural recursion. Only `decimal`, which prints a number, takes fuel: one more
-- than the number, which has fewer digits than that.
--
-- Parameters. The ingestion service that the orchestrator calls, redaction, the disk and path checks
-- of the host, and the provider, catalogue and raster operations of the Sentinel-2 service are
-- arguments of the definitions that use them, as are the operations of the EOS-04 service
-- (`Records.Operations`), the repositories that readiness reads (`Decision.Catalogue`), digests,
-- `dumps` and `loads`, and the parts of Python's `str`, `float` and `strptime` that readiness and
-- comparability call. In the EOS-04 service `uuid4()` is a sequence of ids. The laws that a theorem
-- assumes of them stand in its statement: `Scenes.Laws` for the repositories, `Works.Works` for
-- operations that return, that `uuid4()` gives different ids, and that no two digests of keys and no
-- two signatures under one secret are the same.
--
-- Not modelled: HTTP clients of the providers, the FastAPI application, Celery wiring, and raster
-- arithmetic over floating-point numbers (numpy, rasterio); the SQL of the other repositories.
pub mod Base
pub mod Catalog
pub mod Jobs
pub mod Processing
pub mod Providers
pub mod Scheduler
pub mod Schemas
pub mod Services
pub mod Storage
