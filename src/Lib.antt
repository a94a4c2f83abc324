-- ===== src/Lib.antt =====
-- tickstream, a market-data lakehouse: exchange messages are normalized to events, published to
-- Kafka topics, aggregated to tumbling windows, and landed. This library models the Python package
-- src/tickstream; paths below are from the repository's root.
--
-- How the parts work together: a client of an exchange (src/tickstream/producer/exchanges) yields
-- raw JSON messages; `normalize_safe` (src/tickstream/producer/normalize.py) turns each into events
-- that meet the contract of `MarketEvent` (src/tickstream/schema.py) and into rejects;
-- `run_producer` (src/tickstream/producer/service.py) and `replay`
-- (src/tickstream/producer/replay.py) publish events to the topic of their type and rejects to the
-- quarantine topic; `compute_windows` and `closed_windows` (src/tickstream/processing/metrics.py)
-- are the reference of the windowed metrics that the stream processor emits. `run_pipeline`
-- (src/tickstream/pipeline.py) runs a recording through replay, the quarantine sink, the bronze
-- sink, the processor, the window sink, the gold table and the SLA report.
--
-- Files:
--   Prelude and its modules: lists, integers, dicts, grouping, sorting and text over native numbers.
--   Errors: Python's exceptions that the code can raise, and the result of fallible code. An
--     exception is its class, for a validation error with the violated rule; not its wording.
--   Py: what is used of Python. Py.Float: floats, as an interface `Double` of the operations that the
--     code calls, without laws; a theorem that needs an order has it as a hypothesis.
--     Py.Value: JSON values, `payload["k"]`, `.get`, iteration, truth, `float()`.
--     Py.Platform: the parts of the library that are parameters (`Runtime`): case mapping, `str()`,
--     character classes, `int()`, `datetime.fromisoformat`, `datetime.fromtimestamp`.
--   Time: an aware UTC datetime, as the count of its microseconds from 1970.
--   Schema: src/tickstream/schema.py. Config: src/tickstream/config.py; Config.Environment has the
--     settings that come from variables of the environment, and `get_settings`.
--   Normalize: src/tickstream/producer/normalize.py. Timestamp has `parse_ts`, Record the loop over
--     records that rejects what raises one of NORMALIZE_ERRORS, Coinbase and BinanceUs the two
--     exchanges, Dispatch `normalize_safe` and `build_symbol_map`; the other modules have theorems.
--   Metrics: src/tickstream/processing/metrics.py, with its theorems below it.
--   Processing: src/tickstream/processing/app.py. Topology has the application and its two streams
--     as data, that is, what they ask of Quix Streams; Finalize the finalizers, Ticker and Trades
--     what they emit against the reference.
--   Quality: the SLA report (src/tickstream/quality/sla.py), the quarantine sink
--     (src/tickstream/quality/quarantine.py), and the data contract with the count of records out of
--     order (src/tickstream/quality/contract.py). In Quality.Contract a data frame is the list of
--     its rows with the types of its columns; `Pandera` is what the library answers, and Rows says
--     what lazy validation is documented to report.
--   Lake: Poll is the poll loop that the three sinks share; Bronze, Windows, Iceberg and Marts are
--     src/tickstream/lake/bronze.py, windows.py, iceberg.py and marts.py, with `time_travel` of
--     src/tickstream/query/duck.py. A round of a poll loop is a value `Poll` with the times of the
--     monotonic clock, and the loop recurs on the list of the rounds; a list that ends stands for a
--     deadline that has passed. pyiceberg is the interface `Tables` with the laws `IsVersioned`.
--   Consume: src/tickstream/consume.py.
--   Pipeline: src/tickstream/pipeline.py, as steps on the store of the tables on disk. `World` holds
--     what the broker, Quix and dbt answer.
--   Kafka: src/tickstream/kafka_utils.py, and the messages that are handed to the broker. Kafka.Reads
--     is the relation of what was produced to what a consumer reads: partitions keep their order.
--   Producer: Backoff, Exchanges, Publisher, Demo, Service, Recording, Recorder and Replay model
--     backoff.py, exchanges/, publisher.py, demo.py, service.py, recording.py, record.py and
--     replay.py of src/tickstream/producer; Boundary is about what they let onto the topics.
--   Cli: src/tickstream/cli.py. A command is a function from what the broker, the exchange and the
--     disk answer to how it ends: `finished` with what it echoes, an exit code, or an exception.
--   Ui: src/tickstream/ui/dashboard.py, from what it loads to the rows that it shows.
--   Tests: runs at concrete inputs, and each theorem of the results at such an input.
--
-- State and loops: a loop over a list is a structural recursion. The endless reconnect loop of
-- `run_producer` recurs on the list of the connections that the exchange will serve, and has the
-- outcome `running` when that list ends first; a connection is the messages of its stream and the
-- exception that ends it, if one does; what the producer does to the broker is a log. No
-- fuel is used. A generator is the list of what it yields, each element a value or an exception.
--
-- Not modelled: the wording of log lines and exceptions, and the parsing of the command line;
-- `poll(0)`; the pacing of `replay`; a signal that reaches the producer anywhere but in its sleep
-- between two connections; rounding of `datetime.timestamp()`, which is taken as exact in
-- microseconds; the range check of the end of a window; the dbt models and the SQL queries, which
-- are written for other programs; the captions and the drawing of the dashboard; the layout of
-- Parquet files, where a table is the list of its rows; what Quix Streams does with the topology,
-- which is a parameter of the pipeline. The client library of the broker, the sockets, the JSON
-- coder, Pandera's validation and the coercions of pydantic enter as arguments.
pub mod Prelude
pub mod Errors
pub mod Py
pub mod Time
pub mod Schema
pub mod Config
pub mod Normalize
pub mod Metrics
pub mod Kafka
pub mod Producer
pub mod Processing
pub mod Lake
pub mod Consume
pub mod Quality
pub mod Pipeline
pub mod Cli
pub mod Ui
pub mod Tests
