-- ===== src/Lib.antt =====
-- dnsredir: a verification library beside the CoreDNS plugin dnsredir, which sends the requests for
-- listed domain names to chosen upstream DNS servers.
--
-- The program. Setup (upstream.go, parse.go) reads a block of directives into a list of upstreams.
-- Each has name lists (namelist.go), which files and URLs refill at run time, INLINE and except names, and
-- a pool of hosts (healthcheck.go, policy.go). For a request ServeDNS (dnsredir.go) takes the first upstream
-- whose Match accepts the name, selects a host of its pool, exchanges over a cached or a new connection or
-- over HTTPS, and tries again on failure. The addresses of a reply go to the kernel's ipsets (Linux) or pf
-- tables (macOS) in front of the client. A failed exchange counts against its host and may start a probe.
--
-- The files, each with the source it is about:
--   Base: shared tests, lists, byte strings, sequences of steps, and the outcomes Run (a value, a panic, out of fuel) and
--     Base/Result (a value, a returned error, a panic).
--   Externals: the calls out of the repository that the name lists make, with what is relied on.
--   Domain: utils.go (isDomainName, stringToDomain, SplitByByte). Domain/Labels and Domain/Valid
--     describe domain names without walking a text. Once: the Once of utils.go.
--   StringSet: string_set.go. DomainSet: the domainSet of namelist.go as an association list from
--     bucket to names; DomainSet/Laws, DomainSet/Match, DomainSet/Search,
--     DomainSet/Ends, DomainSet/Held.
--   NameFile: NameList.parse and the line loop of updateItemFromUrl; NameFile/Meaning, NameFile/Lines.
--   NameList: the items, Match, updateList and the updates of namelist.go; NameList/Reload,
--     NameList/Runs, NameList/Lookup.
--   Policy: policy.go; Policy/RoundRobin, Policy/Healthy. HealthCheck: HealthCheck.Select of
--     healthcheck.go; HealthCheck/Select.
--   Fails: the fail counter of a host, as a step relation over the goroutines of healthCheck
--     (dnsredir.go), Check and the worker (healthcheck.go) and checkDownFunc (checkdown.go); Fails/Down.
--   Connections: the cache of connections of a Transport (healthcheck.go: connManager, cleanup, Yield;
--     type.go), by the events that connManager selects; Connections/Conserve,
--     Connections/Sorted, Connections/Tidy, Connections/Fresh.
--   Exchange: Dial, Exchange and Yield of healthcheck.go on a cache of connections, and the inner loop of
--     ServeDNS over it; Exchange/Account, Exchange/Retry. DialTime: the moving average of the dial time;
--     DialTime/Average.
--   Doh: dohExchange of healthcheck.go, doh-json.go and doh-ietf.go; Doh/Ids, Doh/Dispatch.
--   UrlContent: getUrlContent and fixUrl of utils.go; UrlContent/Hops.
--   Route: route/route_linux.go, rtattr.go, rtmsg.go, util.go; Route/Walk with the layout of attributes,
--     Route/Default with the kernel's routes.
--   Addresses: what ipsetAddIP and pfAddIP take out of a reply. IpSet: ipset_linux.go; IpSet/Adds.
--   Pf: pf_darwin.go and pf/table.go; Pf/Options, Pf/Tables, Pf/Adds. Pf/Calls is pf/pf_darwin_cgo.go over the
--     C functions, and Pf/Device is pfSetup over them.
--   Handler: ServeDNS as a whole, over Serve, IpSet and Pf; Handler/Prepared.
--   Lifecycle: OnStartup, OnShutdown and the Start and Stop of upstreams, health checks and transports, with
--     the connection of ipset_linux.go or pf_darwin.go;
--     Lifecycle/Begins, Lifecycle/Closes, Lifecycle/Balance.
--   Probe: the exchange of a health check (healthcheck.go: send, dohSend, udpWireFormatSend); Probe/Sends.
--   System: the plugin from setup to requests (upstream.go: NewReloadableUpstreams, and the updates of the
--     lists of namelist.go in any order); System/Sourced, System/Loaded, System/Runs, System/Updates,
--     System/Safety, System/Redirect.
--   Traffic: the channels of a Transport (healthcheck.go: connManager, Dial, Yield, Stop) with any number of
--     callers, over Connections; Traffic/Callers, Traffic/Filed, Traffic/Sound, Traffic/Owners,
--     Traffic/Served.
--   Dialing: how connections are opened (healthcheck.go: dialTimeout0, dialTimeoutWithTLS, dialTimeout and the
--     rest of Dial; type.go: transportTypeFromConn); Dialing/Configured, Dialing/Kinds,
--     Dialing/Bootstrap.
--   Metrics: metrics.go and the observations of dnsredir.go and healthcheck.go; Metrics/Counts.
--   HostPort: parse.go; HostPort/Split.
--   Config: the records and directives of upstream.go; Config/Block is parseBlock and what it calls,
--     Config/Finish parseFrom and newReloadableUpstream; Config/Bounds, Config/Ready,
--     Config/Inherits, Config/Spares, Config/Gains, Config/Sets, Config/Made, Config/PlainHttp. Config/Block/Args has the
--     parsers of arguments.
--   Upstream: reloadableUpstream.Match of upstream.go; Upstream/Rules.
--   Serve: the loop of ServeDNS and match of dnsredir.go; Serve/Rounds, Serve/Loop.
--   Tests: a concrete environment, runs on concrete inputs, and the theorems applied to them.
--
-- State and environment. State is a record that operations take and return; a pointer that may be nil
-- is an Option. What files, URLs, the clock, random numbers and the packages net, time and idna answer
-- is an argument. A goroutine's update of an item is one step, as the item's lock makes it.
--
-- Fuel. The loop of domainSet.Match runs on the length of the name plus one, which is enough since a
-- round drops a byte at least. The loop of ServeDNS runs on any fuel above max_retry + 1, for a
-- max_retry below the largest int32, at which the count of attempts would wrap; its inner
-- loop on fuel within which a cached connection is found open, which serve-Answers assumes and
-- serve_on_caches proves of caches. getUrlContent calls itself with no bound: on fuel above the number of
-- URLs that it is led through it returns, and where they lead to one another no fuel is enough. The loop over
-- the attributes of a route runs on the number of their bytes plus one, as a round takes four at least.
--
-- Not modelled: the sockets, TLS and HTTP clients, which are arguments of the models that use them, with
-- the timeouts and limits that are set on them; log messages; setup.go, which registers the plugin with Caddy; the C
-- code of pf; in the lifecycle, the goroutines that requests and probes begin, which end by themselves. Error messages are left out; the order in which Go walks a map is fixed, and no theorem
-- rests on it.
pub mod Base
pub mod Domain
pub mod Externals
pub mod StringSet
pub mod DomainSet
pub mod Lifecycle
pub mod NameFile
pub mod NameList
pub mod Policy
pub mod Handler
pub mod HealthCheck
pub mod Fails
pub mod Connections
pub mod HostPort
pub mod Config
pub mod Upstream
pub mod Serve
pub mod System
pub mod Traffic
pub mod Dialing
pub mod Metrics
pub mod Once
pub mod Exchange
pub mod DialTime
pub mod Doh
pub mod UrlContent
pub mod Addresses
pub mod IpSet
pub mod Pf
pub mod Probe
pub mod Route
mod Tests
