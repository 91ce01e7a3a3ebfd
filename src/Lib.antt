-- ===== src/Lib.antt =====
-- vpsiner collects the logs and the metrics of the Docker containers of one machine. Its containers
-- are observed through Docker (src/docker), their lines are buffered and stored by service (src/logs),
-- samples are stored and rolled up into coarser resolutions (src/metrics), services have numeric ids in
-- a dictionary (src/metadata), old data is deleted every day (src/retention.rs), and a guard refuses
-- data of another schema at startup (src/db_version.rs). A line goes from Docker through
-- `strip_ansi_escape_codes` to `LogBuffer::push`; a flush stores the lines, interns the name of the
-- service with `ServiceRegistry::id_of`, advances the checkpoints and notifies the flush watcher. The
-- retention reclaims ids through the registry.
--
-- Model and code:
-- Model/ContainerId.antt: src/model/container_id.rs. Model/Logs.antt: src/model/logs.rs.
-- Model/Metrics.antt: src/model/metrics.rs, src/model/time.rs. Model/Containers.antt:
-- src/model/containers.rs. Error.antt: src/error.rs.
-- Logs/Buffer.antt: the critical sections of src/logs/buffer.rs for one service, as functions on
-- `Service`; Logs/Buffer/Steps.antt puts them together to a step relation on `System`, in which any
-- step may follow another that its state allows. An append that fails may have stored the lines of
-- some weeks. All lines are taken to have a time that names a week, as those of Docker have.
-- Logs/Rows.antt: the table of src/logs/schema.rs and the statements of src/logs/store.rs on it.
-- Logs/Store.antt: query of src/logs/store.rs; Logs/Store/Appending.antt: append;
-- Logs/Store/Deletion.antt: delete_before. A root is a map of
-- directories, a directory a map of files, and a file one table; the files in the root itself are
-- those of the empty name; `Refusals` says what the file system
-- and SQLite refuse, and `panicked` is a panic. The specification is the timeline
-- (Logs/Store/Timeline.antt), the entries of all weeks of a directory one after another.
-- Logs/Locks.antt: lock_path and forget_path of src/logs/store.rs, and the steps of tasks that use them.
-- Logs/Weeks.antt: the names of the week databases, src/logs/helpers.rs; `Calendar` is the `time`
-- crate's. The store takes the names as `Weeks` with the laws `IsWeeks`, which Logs/Weeks/Mondays.antt
-- proves for the code. Logs/Levels.antt: detect_level of src/logs/helpers.rs.
-- Logs/Helpers.antt: text functions of src/logs/helpers.rs; a panic is `none`.
-- Logs/FlushWatcher.antt: src/logs/flush_watcher.rs.
-- Metrics/Downsampling.antt and `bucket_end` of Metrics/Bucket.antt: src/metrics/downsampling.rs.
-- The rest of Metrics/Bucket.antt: src/metrics/rollup.rs. Metrics/Watcher.antt:
-- src/metrics/bucket_watcher.rs. Metrics/Bucketizer.antt: src/metrics/bucketizer.rs.
-- Metadata/Store.antt and Metadata/Checkpoints.antt: the tables of src/metadata/mod.rs and its
-- statements; whether SQLite refuses a statement is an argument. Metadata/Registry.antt:
-- src/metadata/service_registry.rs, with the cache and the table threaded through.
-- Docker/Observed.antt: the refresh of src/docker/container_registry.rs; Docker's answer is an
-- argument, and the bounded channels are part of the state. Docker/Controls.antt and
-- Docker/Since.antt: src/docker/mod.rs.
-- DbVersion.antt: src/db_version.rs on a state of the data directory; what the file system refuses is
-- an argument. Retention.antt: src/retention.rs; Retention/Boundary.antt
-- puts its cutoff together with the deletion of the log store. Config.antt: src/config.rs on an environment.
-- Prelude.antt and its children: Boolean tests, integers with 64-bit wrap-around written out, lists,
-- and maps as association lists. Tests.antt and its children: the theorems at concrete inputs.
--
-- Bounds: `i64` and `u64` results wrap around in the model where they may leave their range. `IsTime`
-- is a time within 2^61 milliseconds of 1970, past any clock, which keeps sums of times and lengths
-- inside 64 bits. Bucket lengths are below 2^32 and counts of samples below 2^64. Ids of services fit 32
-- bits until 2^32 of them have been given out. Loops of the code are recursions on lists. Fuel has
-- `read_back`, the client that pages through a service's logs, where more than the number of matching
-- lines is enough, and `digits`, which prints a number with more fuel than the number.
--
-- Not modelled: floating-point rates (snapshots, the interpolating bucketizers, group sums), the SQL of
-- metrics, the cache of the log store's connections, the HTTP handlers, timers and tasks,
-- and the texts of messages. Parameters: the hash of a line, which characters are white space, the
-- calendar, the JSON and base64 of cursors, and `MATCH` of the full-text index.
pub mod Config
pub mod Prelude
pub mod Model
pub mod Metrics
pub mod Logs
pub mod Error
pub mod Metadata
pub mod Docker
pub mod DbVersion
pub mod Retention
pub mod Tests
