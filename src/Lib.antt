-- ===== src/Lib.antt =====
-- A verification library of the realtime analytics pipeline: clients send events to the ingestion
-- service, which hands them to Kafka; the processing service aggregates them into windows; the storage
-- service writes the windows to ClickHouse and the cache service keeps the latest of them in Redis.
-- The paths below are those of the repository.
--
-- Prelude         the shared names, lists over native numbers, Python's exceptions (`Outcome` is a
--                 value or an exception) and total orders
-- Ingestion/Producer
--                 services/ingestion/src/infrastructure/kafka/producer.py, `send_event`, and
--                 api/v1/endpoints/track.py, `track_event`, over an interface of the Kafka client
-- Ingestion/Events
--                 services/ingestion/src/schemas/analytics_event.py and the JSON of an event
-- Ingestion/Topics
--                 services/ingestion/src/infrastructure/kafka/admin.py, `create_topics`
-- Ingestion/Service
--                 services/ingestion/src: `initialize_application` of startup.py, and `lifespan` of
--                 main.py around the requests
-- Startup         services/storage/src/infrastructure/kafka/topic_waiter.py, and `_ensure_topics` and
--                 `start_consumer_with_retries` of services/cache/src/infrastructure/kafka/consumer.py
-- Processing/Coordinator
--                 services/processing/src/core/job_coordinator.py and the jobs of main.py beside core
-- Processing/Configuration
--                 services/processing/src/core/job_coordinator.py: the settings of Flink
-- Processing/Settings, Schemas, Jobs, Connectors
--                 services/processing/src: core/config.py, core/schemas, jobs with
--                 transformations/device_categorizer.py, and connectors, as data of Processing/Tables;
--                 Tables/Scope is a check of the names that these use
-- Storage/Consumer
--                 services/storage/src/infrastructure/kafka/consumer.py: `consume_batch`, which fills
--                 the buffers of the topics and hands them over
-- Storage/Inserts services/storage/src/services/processor.py: the concurrent insert tasks of one cycle
-- Storage/Loop    the cycles of `process_batches` in that file, which put a poll, the inserts and the
--                 commit together
-- Storage/Main    services/storage/src/main.py: the signals, and the loop of processor.py with its sleeps
--                 and its end
-- Storage/Health  services/storage/src/main.py: the handler of `/healthz`
-- Storage/Ddl     services/storage/src/infrastructure/clickhouse/ddl.py
-- Storage/ClickHouse
--                 services/storage/src/infrastructure/clickhouse/client.py: the statement of
--                 `insert_rows`
-- Cache/Parser    services/cache/src/infrastructure/kafka/message_parser.py
-- Cache/Worker    services/cache/src/infrastructure/kafka/worker.py, `redis_batch_worker`, and the body
--                 of `consume_loop` in consumer.py beside it, with the queue between them
-- Cache/Main      services/cache/src/main.py, `lifespan`, around `consume_loop` and the worker
-- Cache/Connect   services/cache/src/main.py, `_init_redis_with_retry`
-- Cache/Api       services/cache/src/api: the endpoints over Cache/Main and Cache/Service
-- Cache/Logger    services/cache/src/core/logger.py over Shared/Logging
-- Cache/System    the worker and the repository together: a run of the worker with Redis beside it
-- Cache/Redis     the commands of Redis that the repository sends, as an interface with laws
-- Cache/Repository
--                 services/cache/src/infrastructure/redis/repository.py, `CacheRepository`
-- Cache/Service   services/cache/src/services/cache_service.py over the repository
-- Cache/Index     sorted sets whose members are their scores, for the indices of the repository
-- Chain           what one service writes against what the next one makes of it: the events of the
--                 ingestion service and the source of the processing service, and the records that
--                 the cache service parses, writes and reads again
-- Shared/Metrics  shared/metrics.py, the names of metrics and the functions that make metrics
-- Shared/Redaction
--                 shared/logging/json.py, the filter of sensitive data and the formatter's data
-- Shared/Logging  shared/logging/logger.py, and the set-up of logging in json.py, over the root logger of
--                 Python's logging and what its handlers write
-- Shared/Topics, Shared/RedisKeys, Shared/Environments
--                 shared/constants/topics.py, redis_keys.py and environments.py
-- Shared/Retry    shared/utils/retry.py, `retry` and `retry_async`
--
-- State and steps. A coroutine is a record of its variables and of what it has done (what is written,
-- committed or dropped), and each stretch between two awaits is a function on it; `Step` and `Reach`
-- are the steps and runs in every interleaving, with every call outside free to fail. A loop over a
-- range is recursion on the rounds left, so its fuel is the number of rounds in the code. The run of the
-- worker after a stop has fuel, one round for each queued operation and one more, and its theorem gives
-- its result. Calls that may raise have an `Outcome`; an exception of a library that the code treats
-- like any other is `library`.
--
-- Parameters. `json.dumps` and the % formatting of log messages are left to Python: a line of the
-- log is the object to be dumped, and the message is given by `get_message`. Kafka, Redis and
-- ClickHouse are not modelled: a call of them is given by its outcome, or by an interface (`Client`,
-- `Redis`) with the documented laws of the calls used, which the tests fill with a small
-- implementation. An insert of ClickHouse that raises may have stored its rows, as one block, or
-- not: what was stored so is kept apart from the batches whose insert has returned. A pipeline of
-- Redis that raises has executed any of its commands. What `commit()` without offsets commits is the
-- parameter `commit_offset` of the position and the offset committed before; parsing of timestamps
-- and the random numbers are parameters too. Times are natural numbers of milliseconds, so rounding
-- of floats is not modelled.
--
-- Not modelled: what Flink computes from the tables of the processing service and the types that it
-- gives to expressions; the FastAPI and Prometheus wiring, the threads of the servers of the storage
-- service, what is validated in an event of the ingestion service, and what a cancelled cycle of the
-- storage service has done.
pub mod Cache
pub mod Chain
pub mod Ingestion
pub mod Prelude
pub mod Processing
pub mod Shared
pub mod Startup
pub mod Storage
