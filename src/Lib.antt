-- ===== src/Lib.antt =====
-- FastAPI Chassis: a model of the service template and the theorems that hold of it.
--
-- The program is a FastAPI service: settings read from the environment (src/app/settings.py), a stack of ASGI
-- middleware round the routes (src/app/middleware, put together in src/app/app_builder.py), JWT authentication
-- with a cache of signing keys (src/app/auth), a response cache (src/app/cache), readiness checks
-- (src/app/readiness, with probes in src/app/cache/health.py and src/app/db/health.py), routes (src/app/routes),
-- error handlers (src/app/errors), a database (src/app/db), logging (src/app/log_config, src/app/logging_setup.py) and
-- tracing (src/app/observability). The builder (src/app/app_builder.py, src/app/__init__.py) puts them together, and the
-- lifespan (src/app/lifespan.py) makes and releases what they hold. The cache and the limiter each have an in-process
-- store and a Redis store behind one interface. A request passes the security headers, the request log, the request
-- identifiers, the rate limiter, the body limit and the time limit, in that order, before a route runs;
-- protected routes get their principal from the authentication dependencies.
--
-- How code is modelled. An ASGI application is the tree of what it does (Asgi: await receive, await
-- send, return, raise), and a middleware is a function of applications; `run` gives what is sent for
-- given arrivals and how the run ends. Asgi/Protocol says what a well-ordered response is. Stateful
-- classes are records with one function per method, which takes the state and the reading of the clock
-- and returns the new state. Code that raises returns Checked (settings) or Outcome (the rest), and a Task
-- is such code over a state. A `dict` is an association list with distinct keys (Base/Dict). Clock
-- readings, deadlines and sizes are natural numbers in one unit.
--
-- Files, with the code that each is about:
--   Base, Base/Text, Base/Dict       helpers: tests, lists, Python's text operations and dictionaries
--   Outcome, Settings/Result         results of code that raises
--   Asgi, Asgi/Protocol, Asgi/Path   the ASGI convention; src/app/utils/http.py
--   Starlette                        what is used of Starlette: JSON responses and header maps
--   Settings and below               src/app/settings.py: Fields and Defaults hold the fields, Constraints
--                                    their bounds, Resolve the `_resolve_*`, `_derive_*` and `_build_*`
--                                    functions, Validate the `_validate_*` functions and the model
--                                    validator; KeyMaterial, Accepted, Idempotent and Urls hold
--                                    the proofs
--   Redis                            what is relied on of a Redis server and its client
--   Cache and below                  src/app/cache/store.py: MemoryCacheStore in Cache, with the proofs in Evict,
--                                    Bounds, History, Exact and Overflow; the interface CacheStore in Store,
--                                    RedisCacheStore in RedisStore and RedisExact, create_cache_store in Factory
--   RateLimit and below              src/app/middleware/rate_limit.py: MemoryRateLimitStore in RateLimit, the
--                                    key in Key, the middleware in Middleware; Prune, Count and Decide
--                                    hold the proofs; the interface RateLimitStore in Store,
--                                    RedisRateLimitStore in RedisStore, RedisCount and Interleaving, the choice
--                                    of the store in Factory; SharedServer is about a server that both stores use
--   Proxy and below                  src/app/utils/proxy.py
--   Middleware/BodySize and below    src/app/middleware/body_size.py
--   Middleware/Timeout and below     src/app/middleware/timeout.py
--   Middleware/RequestId             src/app/middleware/request_id.py
--   Middleware/RequestLogging        src/app/middleware/request_logging.py, its log record in Entry below it,
--                                    as an application round another in Wrapped, with the
--                                    identifiers of the response in Unique and Identified
--   Middleware/SecurityHeaders       src/app/middleware/security_headers.py
--   Middleware/Headers               the `send_wrapper`s that change the headers of a start
--   Builder, Builder/Whole           src/app/app_builder.py, setup_middleware; Builder/Refused on a request
--                                    that the limiter refuses
--   Builder/Setup                    the other methods of src/app/app_builder.py, and src/app/__init__.py;
--                                    Builder/Ready holds the proofs
--   Logging and below                src/app/log_config and src/app/logging_setup.py: Context and Filters hold the
--                                    definitions, Scopes runs them, Setup configures
--   Tracing and below                src/app/observability/tracing.py, `_parse_headers` in Headers
--   Database and below               src/app/db/engine.py and src/app/db/session.py
--   Lifespan and below               src/app/lifespan.py
--   Auth/Claims, Auth/Service        src/app/auth/models.py and src/app/auth/service.py; Auth/Ready has its
--                                    readiness check and warm-up
--   Auth/Jwks                        `_fetch_jwks` and the state that it keeps; Freshness, Refusal, Rotation,
--                                    Renewal and Errors hold the proofs
--   Auth/Dependencies, Auth/Access   src/app/auth/dependencies.py
--   Readiness and below              src/app/readiness/registry.py and the two probes
--   Routes/Health, Routes/Ready      src/app/routes/health.py
--   Routes/Api                       src/app/routes/api.py
--   Errors                           src/app/errors/handlers.py
--   Fixtures and below, and Tests    concrete instances of the parameters, runs and uses of the theorems
--
-- Fuel and bounds. No definition runs on fuel: all recursion is on lists, texts and application trees.
-- The time limit counts the steps of the inner application until the timer fires, which may be any
-- number, and says whether it fires while a send waits. A history of calls is a list, the latest first.
--
-- Interleaving. A fetch of signing keys takes what other tasks do to the state while it waits for the
-- lock as an argument, any function; the stores in memory do not await within an operation. A hit of the
-- Redis limiter is two commands: a schedule of the commands of several workers is a list, the latest first.
--
-- Parameters, for code that is not part of the repository: the address library (IpAddresses, with the
-- law that the text of an address is read back), the rendering of JSON and the header maps of Starlette
-- (with the law that a lookup after an assignment gives the value assigned), SHA-256, PyJWT (JwtLibrary,
-- with the law that a decoded token has the required claims), `str` and `json.loads` (Printing), UTF-8
-- (Utf8, with the law that an encoded text is decoded back), the parsing of queries, the HTTP client, SQLAlchemy, pathlib, `dictConfig` and the clocks, and a
-- Redis server (Redis, with the documented behaviour of its commands on what a client can see, and one clock for
-- the server and the application). Fixtures shows an instance of each law.
--
-- Not modelled: the session factory, the base class and the models of the database, which declare objects of SQLAlchemy;
-- the tracing span of a request and the objects of OpenTelemetry; the middleware for CORS and trusted hosts, which is
-- Starlette's; the metrics, which another library collects; the process runner, migrations, deployment files and
-- scripts. Failures of a Redis command are left out, but for those of the ping that a probe sends. Log messages are left
-- out, but for the request log. Text operations treat letters and white space beyond ASCII as other characters.
mod Base
pub mod Asgi
pub mod Starlette
pub mod Middleware
pub mod Proxy
mod Fixtures
pub mod Settings
mod Outcome
pub mod Readiness
pub mod Routes
pub mod Auth
pub mod Errors
pub mod Cache
mod Redis
pub mod RateLimit
pub mod Logging
pub mod Tracing
pub mod Database
pub mod Builder
pub mod Lifespan
