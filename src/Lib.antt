-- ===== src/Lib.antt =====
-- argvio: CLI telemetry ingest and its query API, modelled from the Go source.
--
-- The public server takes OTLP batches of metrics, logs and spans from clients that it does not trust.
-- Each record passes structural bounds, resolves the consent tier that it declares, is evaluated against
-- a data-driven allowlist and the tenant's ceiling, and is shaped into a row. The files follow that path:
--
--   Prelude      strings as bytes, maps as association lists, integers, float64 bit patterns, results
--   Allowlist    internal/allowlist: schema.go (Allowlist, Allowlist/Finalize, Allowlist/Lookups) and
--                validate.go (Allowlist/Check)
--   Consent      internal/consent/tier.go: the evaluation of one event (Consent), its loop over the
--                attributes (Consent/Filter), decisions (Consent/Evaluate), tiers (Consent/Tiers)
--   Otlp         internal/otlp: clamp.go (Otlp/Clamp), limits.go and caps.go (Otlp/Limits), attrs.go
--                (Otlp/Attrs), the promoted columns of pipeline.go and usage.go (Otlp/Promote),
--                resolveAndEvaluate (Otlp/Pipeline), the shape checks of metrics.go (Otlp/Metrics), checkCatalog
--                of catalog.go (Otlp/Catalog), foldDims of dims.go (Otlp/FoldDims), reasons.go (Otlp/Reasons),
--                counters.go and the rest of dims.go (Otlp/VendorCaps)
--   Tenant       internal/tenant/cache.go: the cache (Tenant/Cache), its keys (Tenant/Cache/Keys), where its
--                entries come from in every state (Tenant/Cache/Reachable), the age of an answer
--                (Tenant/Cache/Fresh), expiry and the janitor (Tenant/Cache/Eviction)
--   Storage      internal/storage: dims.go (Storage/Dims, read back in Storage/Dims/Tuple), error_reasons.go
--                (Storage/Vocabulary: what a plan admits, the limit, what is stored),
--                semver.go (Storage/Versions), installs.go (Storage/Installs: the span, the changes, the upsert),
--                query.go (Storage/Predicates: the WHERE clauses, read with the arguments that they bind)
--   RateLimit    internal/ratelimit/limiter.go
--   Authn        internal/authn: admins (Authn/Admin), the tenant of a user (Authn/Select), credentials and their
--                routes (Authn/Credentials), how a verifier is built (Authn/Setup)
--   Config       internal/config: auth.go and admin.go (Config/Auth), their checks (Config/Auth/Validate)
--   Examples     a small schema, tests, and the theorems at concrete inputs
--
-- Names are those of the source in this library's spelling: EvaluateEvent is evaluate_event. A Go string
-- is the list of its bytes. A map is an association list in its iteration order, which Go leaves open;
-- the theorems take any list. An int64, int32 or int is an integer (ℤ), a uint64 a natural number,
-- and their ranges are written where the code narrows them. A float64 is its IEEE 754 bit pattern, with
-- the comparisons that the code makes. A pointer that may be nil is an option. An error or a rejection
-- reason is a constructor that holds what its message shows, not the text. A compiled regular expression
-- is the predicate that its MatchString computes, and regexp.Compile is a parameter. Loops are recursions
-- on the list that they walk, so no fuel is needed. Logging is left out. The tenant store is what
-- its queries answer at each time; the cache's functions are its critical sections, so that any order of
-- them is an interleaving of the server's goroutines. SHA-256 is a parameter without collisions. A
-- vocabulary is the rows of one tenant; its SQL statements change them, any of them may fail, and a
-- function stands for what other batches do between the first read and the lock. A transaction that
-- fails leaves the rows. Counts of records are non-negative int64s, natural numbers added modulo 2^64.
-- A WHERE clause is its text with its placeholders. The limiters of x/time/rate are a parameter.
--
-- Not modelled: transport, YAML and HTTP, cryptography, the SELECT statements and the scanning of rows, the
-- loops over whole batches, and the parts that only wire others together.
pub mod Allowlist
pub mod Authn
pub mod Config
pub mod Consent
pub mod Examples
pub mod Otlp
pub mod Prelude
pub mod RateLimit
pub mod Storage
pub mod Tenant
