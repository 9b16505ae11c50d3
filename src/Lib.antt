-- ===== src/Lib.antt =====
-- Coinsurf proxy: verification library.
--
-- The server gives clients an HTTP proxy and a SOCKS5 proxy whose traffic leaves through exit nodes
-- that are connected to it by libp2p. A client's request goes this way: its Proxy-Authorization header
-- is decoded (pkg/utils.go), the user name is parsed into targeting data (pkg/username.go), the
-- password is authenticated (pkg/auth/redis.go), the router chooses a node (pkg/router/genji.go), a
-- stream to the node is opened, and the bytes are copied (pkg/transfer.go) and accounted
-- (pkg/accountant/redis.go). A SOCKS5 connection authenticates by the same parts and then relays TCP
-- or enters its request for UDP packets (pkg/service_proxy_socks5.go). Nodes join by
-- pkg/service_auth.go, and pools of nodes that pass a check are kept by pkg/pool/redis.go. An API lists
-- nodes and pools (pkg/api.go).
--
-- Which file models what:
--   Base         numbers, Booleans, byte strings, int64 patterns and maps that the parts share.
--   Auth         pkg/auth.go: errors and permissions; `Outcome` is a result, an error or a panic.
--   Request      pkg/request.go: the request, HasPermissions, IsRandomLocation, reset.
--   Node         pkg/node.go: the node and its names (IP, FullID, ShortID).
--   Username     pkg/username.go: `parse` is Parse; `parse_params` is its loop, `check_targeting` and
--                `check_location` the checks behind it, `add_session` its end.
--   Credentials  pkg/utils.go: `parse_basic_auth` is parseBasicAuth, `decode` is base64's decoder.
--   Accountant   pkg/accountant/redis.go: `step` is one turn of the loop that NewRedis starts.
--   Transfer     pkg/transfer.go: `transfer` is Transfer, `round` a turn of its loop;
--                Transfer.Traffic has several transfers at one accountant.
--   Router       pkg/router_filter.go and queryBuilder of pkg/router/genji.go.
--   Router.Genji pkg/router/genji.go: Actions has the monad of code that changes the router, Nodes
--                Add, Remove, Count, GetByIP and GetAll, Pools the operations on pools and the
--                statistics, Routing Route, pick, pickFromPool and findSession.
--   Http         pkg/service_proxy_http.go, with UnwrapConn, cleanRequestHeaders and
--                getRequestHeaderSize of pkg/utils.go: `http_proxy_handler` is httpProxyHandler,
--                `serve_https` and `serve_http` are serveHTTPS and serveHTTP.
--   Dialer       pkg/dialer.go: `dial_stream` is what Dial asks libp2p for, `disconnect` Disconnect.
--   Socks5       pkg/service_proxy_socks5.go: `serve_conn` is the goroutine of a connection, `negotiate`,
--                `handle_tcp` and `handle_udp` the methods of these names.
--   Socks5.Udp   pkg/service_proxy_socks5.go: `udp_handle` is UDPHandle, `end_exchange` what the
--                goroutine of an exchange defers, `Step` a step of associations, packets and ends.
--   PoolSync     pkg/pool/redis.go: `tick` is a tick of the loop of Serve, `initial_scheduling` the
--                goroutine in front of it; Checks has scheduleTask with the steps of its goroutines.
--   Options      pkg/server_options.go: `WithOption` has the functions With….
--   Server       pkg/server.go: `new_server` is NewServer, `listen` Listen. Server.Proxies puts
--                the two proxies that it starts on the Redis authentication and the Genji router.
--   Geo          internal/geo/formatter.go: `format` is Format, `load` Load.
--   Main         cmd/main.go: `relays` is its discovery keys and addresses, `server_options` its options.
--   Discovery    pkg/discovery/redis.go: `join_redis` is Join with its goroutine and Leave; also
--                pkg/discovery/consul.go and pkg/device_registry/redis.go.
--   Resolver     pkg/resolver/ip2location.go: `lookup_ip` is LookupIP.
--   RequestPool  pkg/utils.go: AcquireRequest and ReleaseRequest, in any order.
--   CountConn    pkg/utils.go: the counting connection.
--   Api          pkg/api.go: listNodes, listPoolNodes, countryStats, poolStats, ipCheck.
--   RedisAuth    pkg/auth/redis.go and internal/keys/keys.go: `authenticate` is Authenticate.
--   ServiceAuth  pkg/service_auth.go: `on_connect` is OnConnect, `on_disconnect` OnDisconnect.
--   SessionCache internal/cache/fastcache.go: Get, Delete, SetWithExpire and the jobs of its clock;
--                `fast_cache` is it as the cache that Router.Genji takes.
--   Location     pkg/location: FindCountry, FindRegion and FindCity of both lookups, NewBase.
--
-- A byte string is a list of numbers; a slice that the code compares with nil is an `Option`. An
-- int64 or a duration is its 64-bit pattern, a number below 2 ^ 64, added and multiplied modulo 2 ^
-- 64 and compared as signed. A Go map is an association list, of which no order is read. Code that
-- changes the router is a function from the router to an outcome and a router; the handlers of both
-- proxies give the list of their effects; the accountant and the transfer run over lists of events
-- and of rounds, which stand for any order that goroutines, connections and timers may take. The
-- goroutines of the SOCKS5 service's UDP packets take turns at the tables, a tick of pool
-- synchronisation is a step of its own (it holds a lock), and the checks of nodes are given as any
-- order of the steps of their goroutines. All loops are structural recursion, but for the digits of
-- `itoa`, whose fuel n + 1 is above their number. `equal_fold` is exact for keywords in ASCII,
-- `lower` is strings.ToLower on ASCII, and the API's password is taken to be ASCII.
--
-- Parameters are what is not in the repository: the Genji databases, gcache, Redis, gjson, gountries,
-- xxhash, libp2p's peer ids, easyjson's code for nodes, and fasthttp (vendored in internal/fasthttp).
-- So are fastcache's store and its clock, and the interfaces of the repository (Cache, Router, Auth)
-- where a part uses another one through them. A theorem that relies on one names what it relies on
-- (`KeepsSessions`, `Deletes`, `Keeps`, `Removes`, `Stores`, `IsExact`, `KeepsOthers`).
--
-- Not modelled: the pools of readers, hashes and connections, which are sync.Pool's; SaveJSON and the
-- reading of files; the resource limits and the construction of the libp2p host; the parts of
-- cmd/main.go that make objects of other packages; the loops that accept connections and start
-- handlers; logging; and timeouts other than as answers of the environment.
pub mod Accountant
pub mod Api
pub mod Auth
mod Base
pub mod CountConn
pub mod Credentials
pub mod Dialer
pub mod Discovery
pub mod Geo
pub mod Http
pub mod Location
pub mod Main
pub mod Node
pub mod Options
pub mod PoolSync
pub mod RedisAuth
pub mod Request
pub mod RequestPool
pub mod Resolver
pub mod Router
pub mod Server
pub mod ServiceAuth
pub mod SessionCache
pub mod Socks5
pub mod Transfer
pub mod Username
