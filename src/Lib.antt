-- ===== src/Lib.antt =====
-- EasyProxyPool: a pool of upstream SOCKS5 proxies behind an HTTP and a SOCKS5 proxy server.
--
-- An updater fills the pool; both servers take an upstream from it for each request, dial through it,
-- and report to it whether that worked. The HTTP server can keep a session to one upstream. A ring of
-- log events feeds the admin server. The files model, by path from the repository's root:
--   Pool           internal/pool/pool.go: Update, Next, Get, Active, MarkSuccess, MarkFailure, Stats
--   LogBuffer      internal/logging/logbuffer.go: Append, SnapshotSince, Subscribe and its cancel
--   LogLevel       internal/logging/logging.go: parseLevel, NewWithBuffer
--   Upstream       internal/upstream/spec.go: the IDs of nodes, Deduplicate, SafeSummary
--   Clash          internal/clash/parser.go: ParseYAML on a decoded document
--   Sources        internal/sources/loader.go: Load
--   Xray           internal/xray: Generate and Outbound are config.go, Process is manager.go,
--                  Metrics is ParseDebugVars of metrics.go
--   Status         internal/orchestrator/status.go: the setters and snapshots
--   Updater        internal/orchestrator/updater.go: runOnce; Updater.Run is its part for xray
--   Config         internal/config/config.go: applyDefaults, validate, Load
--   Fetcher        internal/fetcher/fetcher.go: Fetch, from the scanned lines on
--   HttpProxy      internal/server/httpproxy: Header, Credentials, Attempts, Connect and Forward are
--                  parts of proxy.go, Policy and Rendezvous of sticky.go
--   SocksProxy     internal/server/socks5proxy/server.go: the credential store and dial
--   Prelude        what they share: Boolean tests, lists, byte strings, Go maps, 64-bit words, decimal
--                  numbers, sorting, Go's `any`, the outcome of a call, net.SplitHostPort
--   Tests          the theorems at concrete inputs
--
-- Each method of the pool and of the log buffer holds its lock for its whole body and is one function
-- from state to state, so that an interleaving is a list of calls. A request loop takes a `World`,
-- which says by the number of the attempt what the clock shows, what the generator draws and what
-- other goroutines do to the pool before and during the dial. The dialer, the HTTP client, go-socks5's
-- map of users, os.ReadFile and yaml.Unmarshal are parameters.
--
-- A text is a list of bytes. An int or a time.Duration is a 64-bit word in two's complement, a
-- time.Time the number of nanoseconds since the zero time. `to_lower` changes ASCII letters only (Go's
-- also changes other letters, none of which the program's keywords have). A Go map is an association
-- list; its order of iteration is that list's. A loop `for attempt := 0; attempt <= retries` is a
-- recursion on retries + 1 rounds, which is all of them for fewer than 2^63 - 1 retries. A panic is
-- `none`, `panics` or `panicked`.
--
-- A round of `runOnce` is one step: it takes what the sources, xray and the health checks give in it as
-- a `Round`, with the order in which the checks end. `Generate` and the IDs of nodes take
-- json.MarshalIndent and sha256.Sum256; a document of Clash is taken as yaml.Unmarshal gives it. What
-- the processes of xray do, and whether a kill gives an error, is an argument of `Ensure` and `Stop`,
-- which hold the lock; the processes are known by the order of their starts. What Go allocates always
-- fits: a `make` of a channel or a ring too large for it panics in Go and never here.
--
-- Not modelled: the start and stop of the servers and of the updater, its ticker, other calls on the
-- pool during a round, the copying of a tunnel, logging and its handler, the admin server and its UI,
-- the TLS dial of a health check, the requests to xray's metrics.
pub mod Prelude
pub mod Pool
pub mod LogBuffer
pub mod LogLevel
pub mod Config
pub mod Upstream
pub mod Fetcher
pub mod Sources
pub mod HttpProxy
pub mod SocksProxy
pub mod Xray
pub mod Clash
pub mod Status
pub mod Updater
pub mod Tests
