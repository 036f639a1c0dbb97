-- ===== src/Lib.antt =====
-- The supply-chain integration hub: its operational core, as far as its rules, its state and its
-- durable import of partner inventory go. Paths are those of the repository; the Python package lies
-- in src/supply_chain_hub.
--
-- The program. Partners send inventory snapshots and shipment events to an HTTP interface. A snapshot
-- is stored as it is in an object store and becomes an import job in the database; a background worker
-- claims the job, translates the payload by the partner's adapter, tests every record against the
-- mappings of partner names, and writes positions and snapshots in one transaction. Failures are
-- classified, retried with a growing delay and given up after a number of attempts; jobs whose worker
-- lets its lease expire are recovered. Beside this there are the services for suppliers, products,
-- warehouses, inventory, mappings, purchase orders and shipments. Celery's workers run the executions
-- and two periodic tasks around these services. The analytics compare generated reported quantities
-- with recorded ones by two data frame libraries, and assess the risk of running out of stock.
--
-- The files.
--   Base            lists, tables of rows, tests on numbers and texts, integers
--   Domain          domain/enums.py, exceptions.py, inventory.py, shipments.py; Decimal is Python's
--   Settings        settings/config.py, the settings of the imports
--   Store           infrastructure/db: Rows has a record for each table of models.py, Db the tables,
--                   Constraints their unique and check constraints, Session the transactions
--   Objects         infrastructure/object_storage.py, and build_raw_object_key in Keys
--   Partners        integrations/base.py, supplier_a.py, supplier_b.py, carrier_c.py
--   Imports         application/integration_services.py: Queue is submit_inventory_import,
--                   mark_job_dispatched and jobs_due_for_dispatch; Payload is _load_import_payload and
--                   _adapt_retained_payload; Apply and Totals are _apply_inventory_result and
--                   _validate_and_apply_record; Execute is execute_import_job; Failure is
--                   record_import_failure with its policies; Recovery is recover_stale_imports and
--                   Replay is replay_failed_import; Direct is process_inventory_import; Steps
--                   puts the services together; Jobs
--                   has the reads and writes that they share, with record_import_event of
--                   application/learning_services.py
--   Imports/Soundness  the invariant of jobs and attempts, and the operations that keep it
--   Services        application/services.py, and the mappings and carrier events of
--                   integration_services.py; Lists has the lists of both files, with the database's
--                   order of texts as a parameter
--   Worker          worker/: Broker is queueing.py, Tasks the three tasks of tasks.py and the delivery
--                   of a retried one; Lifecycle is the abstract machine of a job that Refinement
--                   compares a run with, after the lemmas of Handling; Retries and Publication are
--                   about whole deliveries, with the lemmas of Messages
--   Analytics       analytics/ and application/analytics_services.py: Types, Frames (what pandas and
--                   polars promise), Reconciliation, Synthetic, Floats, Risk, Benchmark; Tables is the
--                   three tables of models.py, Services and RiskRuns the services; Ordering, Sorting,
--                   Engines, Generated, Runs, Stored, Agreement, Severity and Paging prove
--   Learning        the events of a job: Events is list_import_events of learning_services.py, Stream
--                   is stream_import_events of api/routes/learning.py; Unseen, Rounds and Delivery prove
--   Api             the partners' routes of api/routes/integrations.py and the replay of
--                   api/routes/imports.py (Imports), api/headers.py and api/security.py (Headers), the
--                   exception handlers of main.py (Errors); Answers, Publication, Guards, Routes and
--                   Replays prove
--   Examples        the theorems at concrete values
--
-- How the code is read. A transaction is a function from the database to a result with the database
-- it leaves (Tx); an exception rolls back what it wrote, and flush and commit refuse a database that
-- breaks a constraint. An attribute that is assigned on a loaded object is an update of the first
-- row that the same search finds. A UUID is a number that the database never gave before. An instant
-- is a number of microseconds, and one transaction has one instant, or one at its beginning and one
-- at its end. A Decimal is a whole number of millionths: the factors and quantities have three
-- decimal places, so their products are exact; `stored` is the rounding of a product to the three
-- places of its column. The data frames hold 64-bit numbers, whose differences wrap around
-- (`wrap64`). Loops are structural recursion over their lists or their rounds; the delivery of a
-- retried task runs over a list of what its runs meet, and Retries says which length is enough; the
-- event stream runs over a list of what its rounds meet, and stops by itself after 201 of them.
--
-- Parameters stand for code that is not in the repository: the S3 client of boto3, the digest of
-- hashlib, the validation of a payload or a row by Pydantic, the decoding and the splitting of CSV,
-- the text of a date, the text of an exception, the database's order of texts, Celery's broker,
-- pandas and polars, numpy's generator and its floating-point numbers. IsFaithful states what the
-- object store promises, IsDocumented what a data frame library does with quantities that fit its
-- columns, the fields of Generator the ranges of the generator, IsOrdered how the floating-point
-- numbers are compared, a NaN included.
--
-- Not modelled: texts of messages, titles and explanations, which no code reads; foreign keys,
-- indexes and relationships, which are joins over ids; the lengths of text columns other than those
-- of an import job, which the request schemas bound or which hold codes; a CSV file that the csv
-- module refuses, and the missing cells of short rows; locks between transactions that run at the
-- same time; the entity tag of a stored object; the durations and the machine's description in the
-- benchmark; the validation of a request's body, which FastAPI and Pydantic do; the summaries for
-- the learner and the HTTP routes that pass a request on to one service; the pipelines and the
-- migrations.
pub mod Base
pub mod Domain
pub mod Settings
pub mod Store
pub mod Objects
pub mod Partners
pub mod Imports
pub mod Services
pub mod Worker
pub mod Analytics
pub mod Learning
pub mod Api
pub mod Examples
