-- ===== src/Lib.antt =====
-- A model of the token service: a server that issues, verifies and revokes JSON Web Tokens. It
-- signs with a key of a key service, keeps the identifiers (`jti`) of live tokens and the refresh
-- tokens in Redis, guards its routes by access levels, and limits the rate of requests.
--
-- The parts, and the files that model them:
-- - Base and its children: lists measured by native numbers, results, texts as lists of code points
--   with the functions of Rust's `str` that the program calls.
-- - Env: the readers of environment variables (in src/auth.rs, src/jwk.rs, src/rate_limit.rs). An
--   environment is a function from a name to its value.
-- - Counters: the events that the handlers and the layers count (src/metrics.rs).
-- - Store: the trait `JtiStore` of src/models/jwt.rs as a record of operations on a state, each at
--   a moment; the names of keys. Store/Keys: that the names do not collide.
-- - Redis: `RedisClient` of src/redis.rs, which fills that record. Redis/Server is the Redis
--   server, a parameter: a command may fail at any time, and one that replies had its documented
--   effect, which Redis/Keyspace writes out. Redis/Refines relates each operation to its effect on
--   the key space; Redis/Activity is about a `jti`, Redis/Groups, Redis/Members and
--   Redis/Revocation are about the groups, Redis/Records, Redis/Rotation and Redis/Exchange about
--   what is done once. Redis/Registry is the contract of the client for what expires, as an
--   abstract registry. Redis/Settings is `new`, the timeouts and retries of the connection.
-- - Token and its children: src/models/jwt.rs. Token/Platform is what comes from outside
--   (serde_json, base64, openssl, chrono, uuid); Token/Run is a run that reads the clock, draws
--   UUIDs and works on the store and the key source, and is done, fails or panics; Token/Claims,
--   Token/Headers and Token/Signed are the operations. Token/Serde is what is relied on in the
--   printers and parsers. Token/Inversion, Token/Soundness, Token/Issuance and Token/RoundTrip are
--   about them.
-- - Manager: `JwtManager` of src/jwt.rs; Manager/Reuse is about the exchange of a used token,
--   Manager/Lifecycle about a token from its issue to its verification, Manager/Rotation says what
--   the exchange leaves in the store, and Manager/Rotation/Steps and Manager/Rotation/Exchanges are
--   about it.
-- - Jwks: src/jwk.rs and src/key.rs. Jwks/Service holds the state of the cache and the key service,
--   whose replies are a parameter; Jwks/Cache is `public_key`, Jwks/PrivateKeys the private key,
--   Jwks/Manager `KeyManager`. Jwks/Answers, Jwks/Requests and Jwks/Outage are about them.
--   Jwks/Quiet, Jwks/Settled and Jwks/SingleFlight are about calls of `public_key` that interleave:
--   a turn is a look at the cache or what a call does under the refresh lock.
-- - Auth: src/auth.rs. Auth/Base32 and Auth/Hotp, Auth/Validators, Auth/Config, Auth/Middleware are
--   the code; Auth/Totp, Auth/Codes, Auth/Replay and Auth/Setup are about it.
-- - RateLimit: src/rate_limit.rs. RateLimit/Address, RateLimit/Client and RateLimit/Limiter are the
--   code; RateLimit/Trust and RateLimit/Bounds are about it.
-- - Issuer: src/issuer.rs. Handlers: src/handlers.rs and src/error.rs, on top of all others;
--   Handlers/Laws is about one request, Handlers/Revocation and Handlers/Lifecycle are about two,
--   one after the other.
-- - Server: src/server.rs; Server/Workers is about the number of workers.
-- - Routes: src/main.rs. Routes itself is the table of `configure_api`, Routes/Endpoints runs the
--   handlers on the state of the process, Routes/Serve takes a request through the layers, and
--   Routes/Startup is `main`. Routes/Layers, Routes/Levels, Routes/Order, Routes/Flood,
--   Routes/Arrival and Routes/Quiet are about the layers, Routes/Revoked and Routes/Lifecycle about
--   two requests to the whole application, Routes/Starts about the start.
-- - ApiDoc: the OpenAPI description, in src/openapi.rs and in the attributes `utoipa::path` of
--   src/handlers.rs. ApiDoc/Registered compares it with the table of routes, ApiDoc/Statuses,
--   ApiDoc/Replies, ApiDoc/Answers and ApiDoc/Documented with the statuses of the replies, of the
--   handlers and of the layers around them; ApiDoc/Undocumented is about a status that it does not
--   name.
-- - Telemetry: Telemetry/RequestLog is the middleware of src/logging.rs, and Telemetry/RequestIds
--   is about it; Telemetry/Subscriber is `init_subscriber` of the same file, and Telemetry/OptIn is
--   about what it sends out; Telemetry/Otel and Telemetry/GlitchTip are the settings of
--   src/tracing_otel.rs and src/sentry_glitchtip.rs, Telemetry/Propagation is the headers that
--   src/tracing_otel.rs reads and writes, Telemetry/Traces is about them, Telemetry/Metrics is
--   src/metrics.rs.
-- - Tests: runs at concrete inputs.
--
-- Numbers: a `u64` or an `i64` is a natural number, with `% 2 ^ 64` where the source can wrap; a
-- negative `i64` is its bit pattern. Redis keeps scores as doubles: the laws on scores hold below 2
-- ^ 53. No function runs on fuel: every loop of the source is over a list.
--
-- A layer is what `.wrap` puts around a service, the last call outermost; a request is answered by
-- the first resource whose pattern fits its path. Floating point numbers are a parameter wherever
-- they occur, in the number of workers with the law that the ceiling of a quotient of integers
-- below 2 ^ 53 is exact.
--
-- A moment is a natural number: a clock before 1970, which src/auth.rs clamps to 0, does not occur.
--
-- Not modelled: the texts of the OpenAPI description, its JSON form and the test that writes it
-- (output of the crate utoipa); what the layers of the subscriber write, the spans and the shutdown
-- of the providers in src/logging.rs and src/tracing_otel.rs; the socket, the threads and the
-- shutdown of src/main.rs. Log lines and the metrics of a command or a request are left out of the
-- models of the other files; the counters of the handlers and of the layers are kept. The routing
-- of actix-web, the crate actix-cors, the token buckets of the crate governor, the parser of IP
-- addresses and the HMAC are parameters. Requests run one after the other, but for the calls of
-- `public_key` in Jwks/SingleFlight; what another request does in between is the state from which
-- the next operation starts.
pub mod Base
pub mod Env
pub mod Counters
pub mod Store
pub mod Redis
pub mod Token
pub mod Manager
pub mod Issuer
pub mod Auth
pub mod RateLimit
pub mod Jwks
pub mod Handlers
pub mod Server
pub mod Routes
pub mod ApiDoc
pub mod Telemetry
pub mod Tests
