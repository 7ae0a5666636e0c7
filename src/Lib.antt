-- ===== src/Lib.antt =====
-- The orbit API gateway, modelled and verified.
--
-- The gateway is the HTTP edge of a platform. It renders orbit-auth's gRPC services as JSON routes,
-- keeps ownership challenges, workstation claims and an audit trail in memory, spends rate-limit
-- budgets, and offers token middleware to the deployments that mount further routes.
--
-- How the program is laid out here:
--   Base        Boolean tests, maps, integers and Go's string functions
--   Domain      internal/domain: the data, the policies and what is derived from them, and the ports
--               as records of operations (Domain.Services); Domain.Runtime has the functions of Go
--               packages that are parameters of the model
--   Json, Grpc  documents as encoding/json reads them, and the messages of orbit-auth
--   World       the stores of the process and the log of its outside calls; a use case is a
--               function on them (Op), with its error as a value
--   Ids         internal/infrastructure/ids
--   Memory      internal/infrastructure/memory
--   RateLimit, Jwks, Assets
--               the adapters internal/infrastructure/ratelimit, jwks and assets
--   Upstream    internal/infrastructure/auth: client.go and flags.go
--   Service     internal/application; its methods that only pass on to a port are in
--               Service.Passed, and NewService in Service.Wiring; Service.Threads has the use
--               cases as threads
--   Http        internal/infrastructure/httpapi: response.go is Http.Response and Http.Client,
--               middleware.go Http.Tokens, handlers.go, orgs.go, flags.go and openapi.go
--               Http.Handlers, Http.Limits and Http.Names; server.go is Http.Server, with its table
--               in Http.Routes and its middleware on headers in Http.Front
--   Startup     cmd/gateway/main.go, up to the listeners; what it builds is Startup.Process
--   Tests       a small deployment, and the theorems at its inputs
-- The modules below these hold the proofs and are named for what they prove.
--
-- A handler is a function from a request and a Conn (world and response writer) to a Conn; Part and
-- its do blocks spell the early returns. Service.History serves requests one after the other, each as
-- one use case; Http.Effects carries its results over to the table of routes, for any choice of a
-- route that net/http may make. Service.Threads is the same application with its requests as threads
-- that interleave: each access to a store is atomic under its mutex, and so is each call of the
-- limiter, but a request makes several of them, and a schedule says who is next.
-- Http.Routes.Walk is the interface through which a property of all handlers becomes one of the table.
-- The outside services (orbit-auth, the limiter, the HTTP client) are
-- functions of the log of all calls made so far, so that they may answer differently each time.
--
-- Numbers: instants are nanoseconds since the zero time, and no instant of the model reaches the
-- bounds of int64. The decimal digits of a number are written with as much fuel as it has units, which
-- is always enough. The delay of the Retry-After header, a float64 in Go, is modelled with its mantissa
-- of 53 bits and the rounding of its last addition; 64 steps find the binade of a delay in int64.
--
-- Not modelled: the matching of paths by net/http, what Fiber does with its limits and timeouts, the
-- listeners and the shutdown, the observability package and the clock. golang-jwt, SHA-256, the Unicode
-- tables above ASCII, the rate-limiting package, the reading of keys and files and fasthttp's store
-- of headers are parameters. The metadata of an audit entry, which no code sets, is left out. Headers
-- keep one value for a name.
pub mod Base
pub mod Domain
pub mod Json
pub mod Grpc
pub mod World
pub mod Ids
pub mod RateLimit
pub mod Jwks
pub mod Memory
pub mod Upstream
pub mod Service
pub mod Http
pub mod Assets
pub mod Startup
pub mod Tests
