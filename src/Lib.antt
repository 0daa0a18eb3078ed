-- ===== src/Lib.antt =====
-- tdarr-exporter: a Prometheus exporter for the Tdarr media server, in Go.
--
-- The program reads its configuration, serves HTTP, and on every scrape its collector asks the Tdarr API for
-- the server's status, its totals, the list of its libraries and its nodes, sweeps the libraries for their
-- statistics unless the cached ones still hold, and sends metrics to the registry, the last of them
-- `tdarr_up`. The requests go through a client whose transport retries. The development models these
-- parts: the configuration, the request client down to the attempts of a round trip, the collector from the
-- answers of the API up to the metrics, alone and with other scrapes at once, the routes, middleware and pages
-- of the server, and the way in which the process starts and shuts down. They are put together in
-- Collector.Remote, the collector over the client, in Process.Scrapes, the exporter from its command line to the
-- scrapes, and in Server.Exchange, a request from the middleware to its handler.
--
-- The modules, and the code that each is about:
--   Prelude      shared names and tests, lists measured by native numbers, integers (Prelude.Int), and
--                Go maps as association lists (Prelude.Assoc)
--   GoText       Go strings, as lists of code points, and the functions of `strings` that are called
--   Config       internal/config/config.go: the record
--     Numbers    the functions of strconv that read numbers and truth values
--     Results    the errors and the fallible results
--     Env        getDefaults and applyEnvDefaults
--     Flags      the flags and flag.FlagSet.Parse
--     Path       the checks of the metrics path, and path.Clean
--     Parse      parseLogLevel, parseUrl, parseConfig and NewConfig
--   Models       internal/collector/tdarr_models.go: a record for each document
--   Enums        internal/collector/tdarr_enums.go: `normalize_status_slice` is normalizeStatusSlice, and so on
--   Metrics      internal/collector/tdarr.go: typedDesc and its constructors; float64 is an interface
--   Nodes        internal/collector/tdarr_nodes.go: descriptors (Nodes.Descs), worker types and their counts
--                (Nodes.WorkerType), the ETA (Nodes.Eta), and the emission (Nodes.Emit)
--   Client       internal/client:
--     Transport  transport.go: `round_trip` is ClientTransport.RoundTrip; the options and the constructor
--                (Transport.Options)
--     Body       client.go: cappedWriter and unmarshalBody
--     Request    client.go: NewRequestClient, DoRequest and DoPostRequest
--   Collector    internal/collector/tdarr.go:
--     Descs      the descriptors, descsList and Describe
--     Emit       the emit functions of the collector
--     Shape      what the emitted metrics have in common
--     Api        the tdarrAPI interface, httpReqHelper and the two categories of errors
--     Unknown    the counters of unknown statuses and bumpUnknownStatus
--     Cache      the library-stats cache, libraryFingerprint and shouldRefetch
--     Pies       getLibStats and fetchPies: the workers as a step relation (Pies.Fan), and the sweep as one
--                worker would do it
--     Scrape     collect and Collect, over the state that outlives a scrape
--     Setup      NewTdarrCollector and newTdarrCollectorWithAPI
--     Remote     the tdarrAPI as *client.RequestClient implements it, and histories of scrapes
--     Concurrent scrapes at once over the shared cache and counters, as a step relation around that of Pies.Fan,
--                with the lock that collect holds while it sends the counters
--   Handlers     internal/handlers: handlers as trees of calls of a writer (Handlers.Writer), middleware.go
--                (Handlers.Middleware, its log in Middleware.AccessLog), healthz.go and index.go (Handlers.Pages), metrics.go (Handlers.Metrics)
--   Server       internal/server/server.go: the routes of newMux, for metrics paths that are accepted; the
--                handler that newMux returns, and the http.Server of ServeHttp (Server.Exchange)
--   Process      cmd/exporter/main.go and internal/server/server.go: the goroutines of the start and the shutdown
--                as a step relation, `run` up to the start of the server (Process.Run), buildRegistry
--                (Process.Registry), and the scrapes of a process that serves (Process.Scrapes)
--   Tests        runs at concrete inputs
--
-- State. A scrape takes and returns a record of the cache, the counters and the channel of metrics; a step
-- of it ends in a value, an error, a panic that Collect recovers from, or a crash of the process. A round
-- trip returns its outcome and the list of its effects, and a request adds what the client does with the
-- body. The sweep's workers move by a step relation; the scrape uses the sequential sweep, to which
-- Collector.Pies.Schedules compares the schedules. Collector.Scrape takes a scrape as a whole, and
-- Collector.Concurrent.Alone compares it to the steps of Collector.Concurrent, in which scrapes
-- interleave. A handler runs against any writer, and the middleware's recorder is such a
-- writer around another.
--
-- Numbers. Go's int is an integer; where the code multiplies (the ETA, the client's timeout), the
-- wrap-around of int64 is written out, and so is the range where it is parsed. Counts are natural numbers.
-- Float64 values are an abstract type with the operations that the code uses.
--
-- Fuel. No definition runs on fuel: the loops are over lists, and the workers and the shutdown are relations.
-- The printing of a number counts down from above the number, which has no more digits than that.
--
-- Parameters, for code that is not in this repository: the wrapped http.RoundTripper and the select
-- of a wait, net/url (parsing, joining, encoding, Hostname, unescaping), the decoder of encoding/json as a
-- tree of reads, the client's http.ResponseWriter, sort.Slice (with what it documents, that it permutes and sorts),
-- strconv.ParseFloat and float64 arithmetic, json.Marshal, the table of unicode.ToLower, the redirect handler of
-- net/http, and the Prometheus client library: the registry with what it documents of a registration, and the
-- handlers of promhttp, whose output is any.
--
-- Not modelled: logging (but for the status of the access log and the head of a body), help and usage texts,
-- JSON decoding, patterns of http.ServeMux other than those of newMux, and the context that cancels a scrape, which
-- shows only in the outcomes of the attempts and waits. An exchange over HTTP and the scrape that promhttp starts in
-- it are not put together, since promhttp gathers between them.
pub mod Prelude
pub mod GoText
pub mod Config
pub mod Models
pub mod Enums
pub mod Metrics
pub mod Nodes
pub mod Client
pub mod Collector
pub mod Handlers
pub mod Server
pub mod Process
pub mod Tests
