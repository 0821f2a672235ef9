-- ===== src/Lib.antt =====
-- A verification library for the EDO adapter: the service that takes documents over HTTP, sends each of them
-- through the tenant's account with a provider of electronic document exchange (Diadoc, Kontur, SBIS or a
-- stub), and follows their statuses.
--
-- How the program works. An endpoint of src/presentation/api/v1 stores a document and its delivery in the
-- database, and queues a call of the task `send_document`. The task
-- (src/infrastructure/queue/tasks/send_document_task.py) reads the delivery and the account, asks the circuit
-- breaker of the account (src/infrastructure/reliability/circuit_breaker.py, a hash in Redis), calls the
-- provider, and stores what came of it: SENT, a retry with exponential backoff, or FAILED with a dead letter.
-- Each answer of a provider leaves an audit event. Dead letters are replayed by an endpoint, and the task
-- `process_dlq` is meant to replay those of every tenant.
--
-- The files, and the code that each of them is about:
--   Core: Config has the settings of src/core/config.py, with durations in microseconds, and Environment those
--     that are texts: addresses and the origins of CORS. Logging is the masking of src/core/logging.py.
--   Domain: src/domain. Status is value_objects/unified_document_status.py, Errors is
--     exceptions/domain_exceptions.py, Inn is value_objects/inn.py, CircuitState is
--     value_objects/delivery_status.py; Delivery, Document, Account, Audit, DeadLetter, Incoming and Webhook are
--     the entities. A method that mutates its entity is a function to the new record.
--   Database: Rows has the tables of src/infrastructure/database/models and the mappers between rows and
--     entities; Deliveries, Accounts and Others are the repositories of
--     src/infrastructure/database/repositories. A table is the list of its rows. Schema has the catalog of the
--     database: Initial and Aligned are the two revisions of src/infrastructure/database/migrations, and
--     Models is what the models declare.
--   Reliability: Backoff is retry_backoff.py and Circuit is circuit_breaker.py of
--     src/infrastructure/reliability. Circuit/Hash is the breaker's specification, a machine on one hash,
--     and Circuit/Workers has the commands of several workers on it, which interleave.
--   Providers: Interface and Factory are about src/application/interfaces and provider_factory.py. Calls has what
--     the methods of a provider need of httpx and JSON; Http is the handling of errors; StatusMaps, Diadoc,
--     Kontur, Sbis and Stub are the providers of src/infrastructure/providers. An object that keeps a token or a
--     session is a record that is passed on with the state of the world.
--   Tasks: World is the state that runs share (database, Redis, queue). SendDocument is the task
--     `send_document`, one function per step: with_id, with_file, with_delivery, with_account, guarded,
--     after_guard, dispatch, call_provider, conclude; Sending has its `try` statement with `finally`.
--     Outcomes joins the providers to it. ProcessDlq, ProcessWebhook, Cleanup and Background are the other
--     tasks of src/infrastructure/queue/tasks.
--   Api: Sessions is the transaction of a request (src/infrastructure/database/session.py) and the user of
--     src/presentation/deps.py; Documents, Dlq, Accounts, Audit, Incoming and Webhooks are the endpoints of the
--     files of src/presentation/api/v1 with these names, and Status those of health.py and providers.py.
--     Errors is exception_handlers.py, and Middleware is src/presentation/middleware.
--   Security: Tokens is src/core/security.py with `get_current_user` of src/presentation/deps.py, Login is
--     src/presentation/api/v1/auth.py, Roles is src/infrastructure/security/rbac.py, and Signatures is
--     webhook_signature_verifier.py beside it. Seed is src/scripts/seed_demo_users.py.
--   System: the parts together. Sound is what the tables keep, Requests and Runs that endpoints and tasks keep it,
--     and Reachable has the histories: requests and runs of tasks one after the other in any order.
--   Shared: lists measured by native numbers, Boolean tests, results that carry an exception, tables.
--   Examples: concrete inputs for the theorems.
--
-- Conventions. Identifiers and times are natural numbers, and times are microseconds since 1970. An endpoint starts
-- from the user that `get_current_user` has found; Tokens says which one that is.
-- What the code takes from outside is a parameter: the clock, new identifiers, random draws, the texts of identifiers, SHA-256, the answers of a provider, Redis
-- (the record Circuit.Redis, with the one law that HSET sets one field of one hash), the broker, the gauges
-- of prometheus_client, Python's texts of times, and pyseto, which is called without a deserializer and so gives
-- a payload of bytes (both in Tokens.Library), what Python knows of a Unicode character (Inn.Unicode), httpx with
-- its clocks (Calls.Outside: each request moves the state of the world on), HMAC, json.loads, and the command SCAN. An
-- exception is a value of Results.Fault, of a result type, of Calls.Call or of Domain.Errors. Loops go over lists,
-- save two that run on fuel: the scan of Tasks/Cleanup, where fuel for as many calls is enough as SCAN takes to come
-- back to the cursor 0, a number that Redis alone decides and leaves open while keys are added, and the runs
-- of a webhook in Tasks/ProcessWebhook, for which four are enough, the number that Celery makes at most.
--
-- Not modelled: faults of the database and of Redis themselves, constraints and foreign keys on rows, transactions
-- of the database that overlap, the hashing of passwords, the checks of fields by pydantic, the statements of
-- the tasks sync_statuses, poll_incoming, provider_health and process_webhook after the one that raises on every
-- run, and the set-up of libraries. A retry count from 1024 on makes
-- `2 ** retry_count` too large for a float, and a retry after the year 9999 is no `datetime`: the model raises
-- OverflowError there as the code does. Settings that are infinite or negative are left out.
pub mod Shared
pub mod Core
pub mod Domain
pub mod Database
pub mod Reliability
pub mod Providers
pub mod Tasks
pub mod Api
pub mod Security
pub mod System
mod Examples
