-- ===== src/Lib.antt =====
-- The backend of a real-estate listing service (backend/, in Go): an HTTP API over PostgreSQL,
-- Redis and a storage bucket, with a worker that sends reminders from a queue. A request passes
-- Authenticate (backend/internal/middleware/auth.go) and Require (rbac.go), a handler
-- (backend/internal/handlers) decodes it and calls a service (backend/internal/services), the
-- service runs statements on the tables, and the handler writes one envelope
-- (backend/internal/respond).
--
-- World holds the tables, the keys in Redis and the queue of the worker; the outside world is
-- an oracle in it, whose n-th use answers whether a statement fails, the clock, a fresh uuid or
-- random bytes. An operation is an Action: World to a result and the world that it leaves,
-- after an error too. The source opens no transaction, so what a failed operation has already
-- written stays. World/Keeps has the rules for predicates that calls keep.
--
-- Files, by part of the program:
--   Common and its children: Boolean tests, lists over native numbers, texts as code points
--     (strings.TrimSpace, strings.Split, strconv.Atoi), integers, sorting with what a sorted
--     list is.
--   Float: float64 as IEEE binary64 values in units of 2^-1074, rounded to nearest even;
--     Float/Sql: PostgreSQL's order on them.
--   Models: backend/internal/models, the rows of the tables (users, refresh_tokens, properties,
--     property_photos, notification_jobs).
--   External: what is not in the repository, as parameters: PostgreSQL's column types,
--     collation and PostGIS, uuid, SHA-256, bcrypt, JWT, the storage client.
--   Auth/Tokens, Auth/Rows, Auth/Service: backend/internal/services/token.go and auth.go,
--     Register, Login, RefreshTokens, Logout, UpsertGoogleUser; Auth/Service/History has
--     sequences of calls.
--   Middleware: Authenticate, extractBearerToken, Require.
--   Properties/ListQuery, Properties/SetClauses: buildListQuery, buildCountQuery and
--     buildSetClauses of backend/internal/services/properties.go as conditions and assignments
--     with numbered placeholders; Properties/Select executes them on a table.
--   Properties/Service: Create, List, Get, Patch, Delete, and ScrubForRole of scrubber.go.
--   Properties/Nearby: Nearby of the service and of its handler.
--   Photos: backend/internal/services/photos.go and PresignPut, CDNUrl of
--     backend/internal/gcs/gcs.go.
--   Format: backend/internal/utils/format.go. Calculator:
--     backend/internal/services/calculator.go.
--   Share, Share/Generate: backend/internal/services/share.go, the view and the texts, and
--     Generate with the cache of places; the endpoint of backend/internal/handlers/share.go.
--   Regexp: the regular expressions of the parser, matched leftmost-first; Ocr/Parser:
--     parseOCRText; Ocr: ScanPhoto, GetResult and upsertResult of
--     backend/internal/services/ocr.go.
--   Notifications: backend/internal/services/notification.go, and List and Get of
--     backend/internal/handlers/notifications.go.
--   Stale: backend/internal/services/stale.go, the enqueue methods of
--     backend/internal/worker/client.go, and TriggerStaleScan of
--     backend/internal/handlers/notifications.go.
--   Worker, Worker/Tasks: the tasks HandleWhatsApp, HandleSMS, HandleStale and HandleOCR of
--     backend/internal/worker/dispatcher.go, normalisePhone, and the routing of
--     backend/internal/worker/server.go.
--   Middleware/RateLimit: backend/internal/middleware/ratelimit.go.
--   Middleware/Window, Middleware/Limit: the sliding window against a log of the requests.
--   Router, Router/Access: the routes and the health check of backend/cmd/api/main.go.
--   Config: backend/internal/config/config.go.
--   Handlers, Handlers/Properties, Handlers/Photos, Handlers/Auth, Handlers/Ocr,
--     Handlers/Lists, Handlers/Tools: backend/internal/handlers, with Response from Respond.
--   Tests: a small database, and the theorems run on it.
--
-- Numbers: a uuid is a number, a time counts nanoseconds, query integers are ℤ within 64 bits
-- by atoi. int64 of a float64 that it does not hold is -2 ^ 63, as on amd64. The process and
-- the database run in UTC, so a day has 24 hours.
--
-- Loops: the loop of FormatIndianNumber runs on the number of its digits, and the search for
-- all matches on the length of the text; Format/Grouping and Regexp/All show that these are
-- enough. Decimal numerals are cut at 400 digits, which hold the hundredfold of every float64.
-- Every other function is structurally recursive.
--
-- Rows of one created_at are listed in table order, which PostgreSQL leaves open; the trigger
-- of migration 003 keeps geom at (location_lng, location_lat), so ST_Within and the distances
-- read those columns. The operator <-> measures on the sphere and ST_Distance on the spheroid,
-- so the two are separate parameters. updated_at of a patch is cut to the microseconds that
-- TIMESTAMPTZ keeps; other times are kept as the clock gives them. The TTLs of the
-- configuration are positive. Texts hold no NUL, which PostgreSQL refuses.
--
-- Not modelled: the start of the processes and the test support, which are I/O; chi, which
-- matches a request to a route, and its middleware for logging, CORS and timeouts; the HTTP
-- requests to Google Maps, the Vision API and Twilio, of which the replies are parameters; JSON
-- encoding and the quoting of CSV, which Go's library does; retries and priorities of the
-- queue; maskContact, which shapes log lines only; the text of internal errors.
pub mod Common
pub mod Float
pub mod Models
pub mod World
pub mod External
pub mod Config
pub mod Format
pub mod Calculator
pub mod Properties
pub mod Respond
pub mod Handlers
pub mod Auth
pub mod Middleware
pub mod Router
pub mod Photos
pub mod Notifications
pub mod Stale
pub mod Regexp
pub mod Ocr
pub mod Share
pub mod Worker
pub mod Tests
