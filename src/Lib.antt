-- ===== src/Lib.antt =====
-- Verification of netdata-postgres-mcp, the sidecar that copies Netdata's metrics into PostgreSQL.
--
-- The program collects samples from Netdata (internal/collector) on the ticks of a scheduler
-- (internal/scheduler), behind a circuit breaker (internal/circuitbreaker), and stores them in
-- batches (internal/store); it receives samples by Prometheus remote write as well
-- (internal/remotewrite), and counts what it does (internal/metrics). An MCP server answers queries
-- on the samples, behind authentication and a rate limiter (cmd/netdata-postgres-mcp): its tools
-- (internal/mcp) build a SELECT statement, read its rows and report on them.
--
-- Base, with its children, passes on the library's names and has tests on numbers, lists over the
--   native numbers, Go's byte strings, Go's maps with string keys as lists of their entries, and float64
--   as an interface of operations and of what IEEE 754 says of its order; Floats.Whole, whole numbers,
--   is for concrete runs only.
-- Breaker models internal/circuitbreaker/breaker.go: each method is a function of its name on the
--   record, since it holds the mutex throughout; `step` is one call and `run` a sequence of them, in
--   any order that goroutines may make them. The clock's readings are arguments.
-- Metrics models the counters and the durations of internal/metrics/metrics.go.
-- Postgres is what the code sees of the database, which is not part of the repository: multi-row
--   statements with their placeholders, and the record `Pool` of operations and of what PostgreSQL
--   documents of transactions and of ON CONFLICT DO NOTHING. Postgres.Memory is an instance of it.
-- Store models `UpsertNode`, `InsertSamples` and `insertBatch` of internal/store/store.go over any `Pool`,
--   and `Migrate` over any `Schema`; Store.Rollup models `AggregateHourly` of internal/store/rollup.go.
-- Alerts models `evaluateAlert` and `handleCheckAlerts` of internal/mcp/alerts.go.
-- RemoteWrite models internal/remotewrite/handler.go: Varint and Parse the protobuf reader, with an
--   outcome for a run-time panic; Ingest the rows and their batches; Handler `ServeHTTP`. Snappy is a
--   parameter. Parse.Wire is the wire format of the protobuf specification, as a reference.
-- Collector models the Prometheus text format of internal/collector/collector.go: Runes is Go's loop over
--   the runes of a text, Labels the splitting of labels, Prometheus a line, Response a whole text and the fallback of `Collect`; Json models the
--   three shapes of a JSON response, over their decoding, and `ResolveNodeID`.
-- Derived models `Compute` of internal/derived/derived.go, Reload internal/reload/reload.go.
-- Mcp models the tools of internal/mcp. Select is a statement as the code builds it, condition by
--   condition with the numbers of its placeholders, and Select.Meaning what it asks for; Times is
--   `parseTimeArg`; Queries are the statements and, in Answers, what the tools make of their rows;
--   Natural is nlquery.go; Summary, with Sections and Build, and Bottlenecks, with Readings for the
--   loop over the aggregates, are the two reports of server.go, behind their queries in Reports;
--   Anomalies is anomaly.go, and Forecast forecast.go, with Regression for `linearRegression`.
--   Sorting is what sort.Slice promises, with insertion sort as an instance. PostgreSQL is a function
--   from statements to rows.
-- Config models internal/config: `Load` with its defaults, the environment and `Validate`.
-- Tenant, Webhook and RateLimit model internal/tenant/tenant.go, `Notify` of
--   internal/webhook/webhook.go and internal/middleware/ratelimit.go; Server the middleware and
--   the routes of cmd/netdata-postgres-mcp/main.go, with http.ServeMux's cleaning of paths. Hashes, queries, the sending of requests
--   and float64 are parameters, with the laws that are used as fields of the interface.
-- Scheduler models `collectOnce`, the cycles of `Run` and `runRetention` of
--   internal/scheduler/scheduler.go. A `World` holds what the calls of one cycle return: the error of
--   the node's upsert, the three attempts of the collector, the clock. The upsert and the insert are
--   those of Store.
--
-- Fuel: a message loop has as much as the message has bytes, and each round takes one at least; the
-- batch loops have one more than there are rows, and each round takes 500. An outcome `stuck` or
-- `none` stands for a loop out of fuel, and the results exclude it.
--
-- Numbers: lengths, counters and times are natural numbers; a uint64, an int64 and a float64 of the
-- wire are their 64 bits, with the wrap-around written out. There a float64 is only copied, or
-- tested for NaN and infinity; where the code computes with it, its arithmetic is a parameter.
--
-- A time of Mcp is its nanoseconds since the year 1; the durations that are taken from it are below 300
-- years, so that no difference stops at 0.
--
-- Not modelled: the tickers and the goroutines, logging, the text of /metrics, the SQL of the daily rollups,
-- the HTTP requests to Netdata and to webhooks, the texts of explanations and messages, JSON and YAML
-- themselves, the registration of the tools, and start-up and shutdown: they are input and output, or
-- calls of libraries.
pub mod Alerts
pub mod Base
pub mod Breaker
pub mod Collector
pub mod Config
pub mod Derived
pub mod Mcp
pub mod Metrics
pub mod Postgres
pub mod RateLimit
pub mod Reload
pub mod RemoteWrite
pub mod Scheduler
pub mod Server
pub mod Store
pub mod Tenant
pub mod Webhook
