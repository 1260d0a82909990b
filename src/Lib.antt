-- ===== src/Lib.antt =====
-- microlib: a Go library for microservices. This development models the parts of it that carry
-- state and rules of their own, as functions over records, and proves what makes them correct.
--
-- Parts and files (paths from the repository's root):
--   * core/health.go, core/service.go: the registry of health checks and the service's lifecycle.
--     Core/Health.antt and Core/Service.antt have a function for each method (RunChecks is
--     `run_checks`, Start is `start`, Shutdown is `shutdown`); Core/Health/Order, and
--     Core/Service/Hooks, Lifecycle and Restart hold the proofs. A service owns a health checker;
--     Start runs its checks and then the startup hooks, Shutdown runs the shutdown hooks.
--   * jobs/retry_policy.go: Jobs/RetryPolicy.antt (CalculateBackoff, ShouldRetry, NextRetryTime),
--     with Jobs/RetryPolicy/Bounds.
--   * jobs/scheduler.go, jobs/job_queue.go, jobs/metrics.go: the job types (Jobs/Job.antt) and
--     MemoryJobQueue (Jobs/MemoryQueue.antt for the calls, Worker for a worker's round, Listing for
--     Get, List and GetDeadLetteredJobs, System for the interleavings). The queue and the maps of the
--     source share their entries by pointer; the model keeps a store of entries and lists of pointers.
--     A worker's failures go through the retry policy.
--   * security/local_policy_evaluator.go: Security/Pattern.antt (matchesPattern) and
--     Security/LocalPolicy.antt (LoadPolicies, Evaluate and the conditions), over Go's strings
--     (Text.antt) and `interface{}` values (Security/Values.antt).
--   * security/authorization.go: Security/Rbac.antt (RBACAuthorizer's role map and checks) and
--     Security/Middleware.antt (what each middleware does with a request). The middleware asks an
--     evaluator, which with local policies is `evaluate`.
--   * security/grpc_authorization.go: Security/Interceptors.antt, with the same checks and evaluator, for
--     calls of gRPC; Calls and Agreement hold the proofs.
--   * security/jwks_client.go, security/auth.go, http/auth_middleware_impl.go: Security/Jwks.antt
--     (JWKSClient), Security/Authentication.antt (ValidateToken, extractToken) and
--     Security/Authentication/Middlewares.antt (what the middlewares do with a request: the next
--     handler's request, or a status). A token with an unknown key makes ValidateToken refresh the keys;
--     what the endpoint would answer then is an argument. Rotation, Authenticated and Scopes hold the
--     proofs. The library of JWT is the record `JwtLibrary`.
--   * http/middleware.go: Http/Middleware.antt (the chain, and the middleware for panics, CORS, headers of
--     security and health paths, on a writer of responses), with Http/Middleware/Stack.
--   * messaging/message.go, messaging/outbox.go, messaging/memory_broker.go, messaging/relay.go:
--     Messaging/Message, Broker and Relay. A batch of the relay (processBatch is `process_batch`)
--     acts on a store, a broker and a clock, which are the record `Environment`; Relay/Trace also
--     keeps the calls that are made of them.
--   * data/migration.go, data/seeder.go, with the transaction of data/postgres.go: Data/Database.antt has
--     the server, which is a parameter, and the loop that migrations and seeds share;
--     Data/Migration.antt (AddMigration, Apply, Rollback, Status), Data/Seeder.antt (AddSeed, Apply,
--     Reset) and Data/Files.antt (the names and contents of their files) stand on it. Sorting, Registry,
--     Runs, Applied and RoundTrip hold the proofs.
--   * config/source.go: Config/Sources.antt (EnvSource and FlagSource) and Config/Files.antt
--     (FileSource with its watch loop). config/manager.go: Config/Values.antt (values and structs),
--     Config/Convert.antt (setFieldValue and setSliceValue), Config/Fields.antt (findField),
--     Config/Merge.antt (mergeConfig) and Config/Manager.antt (Load, the reload and the calls of a
--     manager). config/config.go: Config/Container.antt. The sources load settings, the manager merges
--     them by priority into a struct and validates it, and a source's watch calls the reload.
--   * jobs/leader_election.go, jobs/cron_scheduler.go: Jobs/Leader.antt (MemoryLeaderElector, with its
--     renewals) and Jobs/Cron.antt (CronScheduler, whose monitor asks an elector).
--   * observability/health.go: Observability/Probes.antt (the answers of the probes, and the
--     manager), on top of Core/Health.antt.
--   * Text.antt: the functions of strings, strconv and fmt that the code uses, with Text/Parts and
--     Text/Numbers.
--   * Prelude.antt: shared names, Go's maps, lists and tests. Tests.antt: runs at concrete inputs.
--
-- How the model stands to the code:
--   * Go maps are association lists with unique keys (Prelude/Maps.antt); their order stands for the
--     order in which `range` visits them, which the theorems leave arbitrary.
--   * A method returns its error as a value beside the new state. Text of error messages is kept as
--     constructors. Log lines are left out, since nothing reads them back.
--   * `time.Now`, random numbers and the results of handlers, hooks and checks are arguments.
--     Times and durations are natural numbers of nanoseconds; a clock does not run backwards.
--   * `float64` is the parameter `Float64` of Jobs/RetryPolicy.antt, with the two facts about
--     conversions that the code relies on, and `Floats` of Messaging/Relay.antt, whose conversion
--     yields a signed integer; the tests instantiate them by whole numbers.
--   * A comparison of `interface{}` values that panics is `none` (Security/Values.antt).
--   * A configuration's struct is a tree of fields with their names and tags. Its fields are exported and
--     are strings, booleans, integers, floats, slices of these, and structs. A `reflect.Value` of a field
--     is the field's place. Integers of width w wrap at 2^w (`wrap_int`, `wrap_uint`).
--   * `float64` in config/ is the parameter `ConfigFloats`. The case of characters is that of ASCII.
--   * Loops are recursions on the list or the count that they go through, so no fuel is needed.
--   * Concurrency: a critical section is one step, and a schedule is a list of steps in any order
--     (Jobs/MemoryQueue/System.antt). The methods of the service are taken one at a time.
--
-- Not modelled: the adapters to Redis, Postgres, RabbitMQ, Kafka, Vault, AWS, Azure and OPA, the
-- servers for HTTP and gRPC, OpenTelemetry and Prometheus, and the code generator of the CLI,
-- which are calls of other libraries for the most part; the relay's background loop; fields of
-- configurations that are maps, pointers, times or unexported; and the parsing of policies, tokens and
-- configuration files, whose results are arguments.
pub mod Prelude
pub mod Text
pub mod Core
pub mod Jobs
pub mod Security
pub mod Http
pub mod Messaging
pub mod Data
pub mod Config
pub mod Observability
pub mod Tests
