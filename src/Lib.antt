-- ===== src/Lib.antt =====
-- Verification of SpoofDPI-Turkiye, a local proxy that gets past deep packet inspection: it resolves
-- hosts through upstreams of its own and sends a TLS ClientHello in small pieces.
--
-- A connection goes through the program like this. The accept loop hands it to `handle`, which reads
-- an HTTP request, tidies it, asks whether the domain is to be bypassed, resolves it, and gives it to
-- the HTTP or the HTTPS handler. A bypassed host is resolved through a cache in front of a race of
-- upstreams, any other one through the system. The HTTPS handler answers CONNECT, reads the first TLS
-- record, and sends it in chunks if the host is bypassed; from then on both directions are copied.
-- Before all that, `run` reads the command line, loads the configuration and, on macOS, points the
-- proxy settings of the system at itself, until it ends.
--
-- The files, and the code they model:
--
--   Prelude       booleans, lists, byte strings, results, Go maps as association lists, `Itoa`, hosts
--                 with ports
--   Entry         main.go: `run`, in the stages `run_args`, `run_loaded` and `run_config`; Shutdown
--                 its end, with the goroutines of `Start`
--   Args          util/args.go: the flags, Uint the flag of a uint16, Command what package flag does,
--                 with `parse_args` for `ParseArgs`
--   System        util/os.go: `set_os_proxy` and `unset_os_proxy`
--   Log           util/log/context.go and log.go: trace ids, context values, fields of a line
--   Proxy         proxy/proxy.go: `start` is `Start`, with its loop `accept_loop` and
--                 `next_delay`; `pattern_matches`, `is_looped_request` and `handle` keep their names,
--                 with `handle` in the stages `handle_request`, `handle_found` and `handle_ip`
--   Config        util/config.go: `load` and `compile_allowed_patterns`; `new_proxy` is `New` of
--                 proxy/proxy.go, with `dns_config` for what its call of `NewDns` reads
--   Handler       proxy/handler/https.go and http.go: Chunks has `split_in_chunks` and
--                 `write_chunks`, Copy has `copy_with_timeout`, Pipe the steps of `pipe`, Port the
--                 port of a request, and Serve the two `Serve` methods as `serve_http` and
--                 `serve_https`
--   Packet        packet/https.go (Tls: `read_tls_message`, `is_client_hello`) and packet/http.go
--                 (Http: `read_headers` is the header loop of `ReadHttpRequest`, `tidy` is `Tidy`)
--   Net           what dns/dns.go and proxy/proxy.go call of package net: `parse_ip` is `ParseIP`;
--                 Text has `ip_string` and `addr_string` for the two `String` methods
--   Dns           dns/dns.go: `new_dns` and `resolve_host`; Clients the resolvers that it makes
--   Resolver      dns/resolver: Chain is the race of chain.go, Lookup is resolver.go with the
--                 exchange of general.go and system.go, Doh is doh.go, Cache is cache.go. Each has
--                 its loop as a function, and a Machine that lets its goroutines or callers take
--                 their steps in any order; Slices has the cache with its slices as pointers
--   AddrSelect    dns/addrselect/addrselect.go: Ip, the policy table (Policy), `less` and its rules
--                 (Rules), and the sort (Sort); Sources is `defaultSrcAddrs`, and Flags is
--                 dns/addrselect/addrselect_linux.go
--
-- The modules below these hold proofs, named for what they prove, and Tests the runs of the theorems
-- at concrete inputs.
--
-- How state and time are modelled. A byte string is a list of numbers; a Go string is its bytes, or
-- its code points in Dns. Errors are data. A reader is the bytes still to come before the end of the
-- stream. A connection to a server is what has been sent and how the writes to come end, each of which
-- may fail after any number of bytes. What arrives over a channel, what `Accept` returns, and how
-- reads go are lists that the statements take for any list, in any order. The cache's map is an
-- association list; a slice is the list of what it holds, and in Resolver/Cache/Slices the number of
-- an array; the order in which Go iterates over a map is a parameter with the laws that the language
-- gives. The two goroutines of `pipe` and its caller take steps in the order of a list of threads;
-- those of a race and of a lookup, those at the end of `run`, and the callers of the cache, take the
-- steps of a relation, which leaves the order to the environment. A resolver of the race returns when
-- its own context ends, whatever it returns. An exchange of a lookup replies the same to the same
-- query, and the cache reads the clock in its critical section and not just before it. Commands and
-- what else the program does to the system are a log, and how the commands end is given. Times are
-- numbers of nanoseconds, delays of the accept loop of milliseconds.
--
-- Bounds and fuel. Numbers are natural numbers; the sum of a TLS length and the header's length keeps
-- its wrap-around at 2^16, as does the port that `run` hands to `SetOsProxy`; query types and ports are
-- below 2^16 where a statement says so. Three functions run on fuel: `trace_from`, with the 32 rounds of
-- its loop, `chunk_from`, with the length of what is cut, since each round takes a byte at
-- least, and `digits_from`, with one more than the number, since each round divides it by ten.
--
-- What the code takes from elsewhere. Of the standard library, addresses and prefixes (net,
-- net/netip), `slices.Chunk`, `io.ReadFull`, `strconv.Atoi` of what is no negative number, `strings`,
-- `JoinHostPort`, `strconv.ParseUint` in bases 16 and 0, package flag and the encoding of `base64` are
-- modelled, and `sort.Stable` is by the insertion sort that it runs on short slices; `SplitHostPort`
-- is modelled in Prelude, `ParseIP` and the texts of addresses in Net; a statement that holds for any
-- such functions takes them as parameters. `http.ReadRequest`, `url.Parse`, `regexp.Compile`, what the
-- operating system tells of interfaces and sources, the HTTP client and the DNS library are
-- parameters.
--
-- What is not modelled: the texts of log lines and of help, the set-up of the logging library and of
-- net/http with its timeouts and pools, the banner, recovery from a panic, the type test of `dialTCP`,
-- and the buffer pool of `copyWithTimeout`. These are input and output, or bear on none of the statements.
pub mod Prelude
pub mod AddrSelect
pub mod Resolver
pub mod Dns
pub mod Net
pub mod Packet
pub mod Handler
pub mod Proxy
pub mod Args
pub mod Config
pub mod System
pub mod Log
pub mod Entry
