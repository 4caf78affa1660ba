-- ===== src/Lib.antt =====
-- A model of Dinosaur DNS, a caching and filtering DNS proxy.
--
-- The program reads its flags and a configuration file and makes the configuration that its server
-- starts with. A query comes to the handler of proxy/proxy.go. It checks the client against the ACL
-- and the name against the block list, answers from the cache or asks the upstream resolvers in
-- order, may synthesise AAAA records (DNS64), and puts an item into the query log. A query over HTTPS
-- comes to the same handler. The API changes the block list and the cache while the proxy runs, and
-- keeps a change log, from which it makes a merged configuration. In the background the cache is
-- flushed and the block list refreshed.
--
-- Common: shared helpers: Boolean tests, lists, maps (Go maps are association lists) and the
-- functions of Go's `strings` on lists of bytes.
-- Dns: messages and records, and DnsLib, the functions of github.com/miekg/dns that the program
-- calls, which are a parameter; Dns.Sample is a concrete one for the tests.
-- Util.Lines: LineReader of util/urlreader.go; Util.Urls: UrlOpen of the same file; Util.Addrs:
-- util/parseaddr.go; Util.Ids: util/user_unix.go.
-- Blocklist.Trie: blocklist/trie.go, with the entries that a trie holds (Trie.Stored), its invariant
-- (Trie.Invariant), and each operation on them. Blocklist: blocklist/blocklist.go over it:
-- Blocklist.Rules has the specification, a set of rules and the set of nodes (Trie.Nodes),
-- Blocklist.Load
-- the list files.
-- Cache: cache/cache.go; Cache.Ptr: cache/ptr.go; Cache.Reach has the calls on a cache as a step
-- relation.
-- Stats: statshandler/stats.go; Stats.Buffer: statshandler/buffer.go, against the list of all items
-- inserted; Stats.Channels: the clients that follow the log, with api/log.go.
-- Proxy.Upstream: `resolve` of proxy/proxy.go, with Proxy.Upstream.Demotion and
-- Proxy.Upstream.Failover; Proxy.Handler: MakeHandler, with Access, Blocking, Dns64
-- and Returns; Proxy.Sample has a state and a connection for the tests. The two Keeps modules say what
-- a call of resolve and of the handler consists of, for an invariant.
-- Doh: doh/doh.go around the handler; Doh.Requests has the two methods.
-- Resolver.Udp, Resolver.Dot and Resolver.Https: resolver/resolver.go. Resolver.Dot has the pool of
-- connections, with Ownership, Bounds, Attempts and Serving; Resolver.Https.Served lets a DohResolver
-- ask this program's own server.
-- Config: the UserConfig of config/userconfig.go; Config.Options: cmd/dinosaur/options.go, and in
-- Config.Options.Start main of cmd/dinosaur/main.go; Config.Startup: GetProxyConfig of
-- config/userconfig.go, and the ProxyConfig of config/config.go. The fields of it that the handler
-- uses are a record of their own in Proxy.Upstream.
-- Config.Sample: flags and a system for the tests. Config.Sources: UpdateBlockList of
-- config/userconfig.go and URLReader of util/urlreader.go; what
-- UrlOpen finds under a name is a parameter.
-- Api.Changelog: api/changelog.go, with the keys of entries in Api.Changelog.Keys; Api.Service: the
-- calls of api/jsonrpc.go that change the block list, the cache and the change log, and
-- GetMergedConfig; Api.Pause: the calls that pause blocking.
-- Server: the rounds of the background work of server/server.go, and server/util.go; Server.Steps: the
-- running server as a step relation, whose steps are queries, API calls, clients of the query log and
-- background rounds; the answers of the resolvers are a parameter that may differ from query to query;
-- Server.Started: the server from the start of the program on.
-- The Tests modules apply the theorems to concrete data.
--
-- A method is one step on a state that it is given and returns. A Go panic is
-- `none`. Times are nanoseconds, and each reading of the clock is an argument. Integers of w bits
-- keep their wrap-around (the TTLs of a cached reply). The loops are structural recursions on the
-- lists that they range over, or on the number of their rounds, so no fuel is needed. An upstream
-- resolver is known by a value of any type, and what it answers during one call is a parameter.
--
-- Resolve of the DoT resolver has its three attempts as a number that decreases, and
-- the loop of getConn is a recursion on the pool that it empties.
--
-- Not modelled: printing and logging, the JSON encoding, files, URLs, sockets and certificates, the
-- listeners of the server, the HTTP glue of the API, the flag package and the other command-line
-- tools.
-- Interleavings inside one call of the handler are not modelled: a call runs from the state that it
-- finds to the state that it leaves. The end of a query waits for the clients that follow the query
-- log, so what is said of a query that returns is said where there is no such client. Calls that use
-- the pool of a DoT resolver at the same time are seen
-- only as connections that others hold.
pub mod Common
pub mod Util
pub mod Dns
pub mod Blocklist
pub mod Cache
pub mod Config
pub mod Proxy
pub mod Doh
pub mod Api
pub mod Resolver
pub mod Server
pub mod Stats
