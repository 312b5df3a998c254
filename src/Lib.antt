-- ===== src/Lib.antt =====
-- Sis, a DNS resolver for a home network: queries are checked against lists of domains, answered from
-- a cache, or forwarded to resolvers over HTTPS.
--
-- The parts and their files, with the paths of the code from the repository's root:
--   Base                what the parts share: lists, Go's strings, maps and sorts, results
--   Policy/Names        internal/policy/domains.go: NormalizeDomainPattern, labelsFor, validLabel
--   Policy/Trie         internal/policy/domains.go: the node, and the walks of Add, Match and Delete
--   Policy/Domains      internal/policy/domains.go: Domains, with Clone, Len and Entries
--   Policy/Parser       internal/policy/parser.go: ParseBlocklist
--   Policy/Config       internal/config/types.go: what policy reads of the configuration
--   Policy/Errors       the errors of internal/policy
--   Policy/Schedule     internal/policy/group.go: CompileSchedule, ActiveAt, parseDays, parseClock
--   Policy/Group        internal/policy/group.go and store_resolver.go: CompileGroups, GroupOf
--   Policy/Engine       internal/policy/engine.go: Engine, For, Evaluate and the methods that change it
--   Upstream/Pool       internal/upstream/pool.go: Replace, Forward, Test, ProbeUnhealthy, the breaker
--   Dns/Message         the parts of a DNS message that the program reads
--   Dns/Cache           internal/dns/cache.go: Get, Put, Flush, Reconfigure
--   Dns/Synthetic       internal/dns/synthetic.go: the answers that the server makes
--   Dns/Special         internal/dns/special.go and edns.go
--   Dns/Pipeline        internal/dns/pipeline.go: Handle, which runs the others in order
--   Dns/Limiter         internal/dns/ratelimit.go: the token buckets of the clients
--   Config/Types        internal/config/types.go: Config
--   Config/Domain       internal/config/validate.go: validDomainPattern
--   Config/Checks       internal/config/validate.go: validateSchedule and the tests of single values
--   Config/Sections     internal/config/validate.go: the loops of Validate
--   Config/Validate     internal/config/validate.go: Validate
--   Config/Load         internal/config/load.go: Load, applyDefaults, applyEnvOverrides
--   Config/Compiles     what Validate accepts, against internal/policy: groups and schedules
--   Config/Accepted     the same: NewEngine and ReloadConfig
--   Log/Fanout          internal/log/fanout.go: the ring of recent entries and the subscribers
--   Log/Query           internal/log/query.go: Write, Recent, Reconfigure
--   Store/File          internal/store/file.go: fileStore, with Open, Close and runMigrations
--   Store/Collections   internal/store/file.go: clients, custom lists, sessions, statistics, history
--   Api/Limiter         internal/api/ratelimit.go: windows of requests
--   Api/Auth            internal/api/auth.go: setup, login, logout, the session of a request
--   Api/Apply           internal/api/config_mutation.go, internal/config/secrets.go: applyConfig
--   Stats/Histogram     internal/stats/histogram.go
--   Stats/Counters      internal/stats/counters.go: totals, tables of the busiest names, upstreams
--   Tests               the theorems at concrete inputs
--
-- A pointer's target is a value and a method returns the state after it, so a nil pointer is `none`. A
-- method under a mutex is one step. Numbers are natural; a uint64 counter is taken modulo 2^64, a
-- uint32 modulo 2^32, and a duration or an instant is in nanoseconds. A string is the list of its code
-- points, with bytes that are no UTF-8 kept apart; its length is in bytes. Where a Go map is walked,
-- the order of the list stands for the order of the walk.
--
-- Fuel: the cache's eviction loop has one unit for each item and one more, and each round removes an
-- item; the loop of isPrivatePTR has its 16 rounds and that of Forward its 3. All else is structural.
--
-- How the parts meet: Validate and NewEngine read one configuration, and so do the parts that
-- applyConfig reconfigures; login stands on the limiter of requests and on the store's sessions; the
-- query log on its fan-out. What becomes of a write to a file is a parameter of each operation that
-- writes, and so are random salts and tokens and the time at which an operation runs. Subscribe is two
-- steps, since it sends the backlog behind the mutex.
--
-- Parameters, since their code is elsewhere: golang.org/x/net/idna, the codec and names of
-- github.com/miekg/dns, package time's zones, net.ParseIP and the other parsers of net and net/url,
-- encoding/json, the environment and the parsers of strconv, the keyed hash of crypto/hmac, the
-- password hash, the network, the float64 products of the histogram's quantiles, and the float64
-- arithmetic of the rate limiter's tokens, a float64 being known by its 64 bits. The pipeline takes
-- the rate limiter and the client table as interfaces.
--
-- Not modelled: the client and ARP tables, the DNS server and its workers, the DoH client, the
-- aggregator, the files of the configuration, the synchronisation of lists, the audit log and the rotation
-- of files, the SQLite store, the handlers of the HTTP API but for those above, the web interface and
-- the commands; and what concurrent calls do to a pool between two of its steps.
pub mod Api
pub mod Base
pub mod Config
pub mod Dns
pub mod Log
pub mod Policy
pub mod Stats
pub mod Store
pub mod Upstream
mod Tests
