-- ===== src/Lib.antt =====
-- NexGuard: a scanner that finds files by the SHA-256 of their content (cmd/avtool and the packages
-- of internal), and the service that sells and checks its licenses (cmd/avtool-web, internal/web).
--
-- The scanner keeps three tables in SQLite. `sync` and `hashes` fill the hash table; `scan` walks a
-- directory, looks up the hash of each file and asks what to do with a match; `watch` queues its
-- matches as detections, which `review` scans again and resolves with the same question; a file that
-- is put into quarantine is moved to a body file named after its record. The service keeps users,
-- sessions, subscriptions and licenses in MySQL: a user signs up, logs in and is sent to Stripe's
-- checkout, Stripe's webhook stores subscriptions and issues and revokes licenses, and an endpoint
-- answers whether a license key is valid.
--
-- Prelude: lists, texts (as code points), decimal numbers and SQL-like list operations.
-- Exec: functions that return a value and an error. A function is a map from a state to a result
--   and the state that is left, so what was done before an error stays done. Exec.Fixes and
--   Exec.Preserves are the frame and invariant rules of this sequencing.
-- World, Store, Files: the scanner's state: the tables of internal/store/store.go, the files, the
--   input, the output, the clock, and a list of outcomes. Each call of the database or of `os`
--   takes the next outcome, which says whether it works and, for a copy or a read, how far it got;
--   when none is left, calls work. A theorem over all worlds thus holds for every failure at every
--   call.
-- HashDb: internal/hashdb/hashdb.go. Feed: internal/feed/feed.go.
-- Scanner: internal/scanner/scanner.go, over the calls that `filepath.Walk` makes.
-- Quarantine: internal/quarantine/quarantine.go, with `moveFile` as a rename or a copy and removal;
--   Actions, Kept and Isolation follow one record while the others change.
-- Detections: internal/detections/detections.go. ReportLog: internal/reportlog/reportlog.go.
-- Prompt: `Resolve` of internal/prompt/prompt.go, with `ReadString` on the shared input.
-- Review: `runReview` of cmd/avtool/review.go.
-- Watcher: the loop of `Watch` in internal/watcher/watcher.go as a step relation: time passes, an
--   event comes, a timer expires, or the loop takes the path of an expired timer and calls the
--   handler.
-- Commands.Watch.Live: the watcher at work, as a step relation over the loop, the files and the
--   queue: files are written and removed, fsnotify has or drops an event of a write directly in a
--   watched directory, the loop takes events, and its timers lead to calls of the handler, which
--   scans and queues. Waiting, Protection, Drain and Counts prove what comes of it.
-- Notify: the script of internal/notify/notify_darwin.go. Config: internal/config/config.go.
-- Commands: `runSync` (cmd/avtool/sync.go), `add`, `list` and `rm` (cmd/avtool/hashes.go),
--   `runScan` (cmd/avtool/scan.go), cmd/avtool/quarantine.go, what cmd/avtool/main.go runs first,
--   and `runWatch`, `validateWatchPaths` and the handler of changed files (cmd/avtool/watch.go).
-- Web.World: the service's tables (database/avtool-web), clock, random bytes and outcomes.
-- Web.Config: internal/web/config/config.go and siteinfo.go.
-- Web.License: internal/web/license/license.go, in Refinement as a map from hashes to users.
-- Web.Sessions: internal/web/auth/sessions.go.
-- Web.Users: internal/web/auth/users.go. Web.Middleware: internal/web/auth/middleware.go.
-- Web.Billing: `HandleWebhook` of internal/web/billing/webhook.go and what it calls.
-- Web.Billing.Threads: `upsertSubscription` and `cancelSubscription` stopped before each of their
--   calls of the database, for deliveries that are handled at once; Alone checks them against the
--   functions themselves.
-- Web.RateLimit, Web.Request: internal/web/ratelimit/ratelimit.go, and `normalizePhone`, `checked`
--   and `clientIP` of internal/web/handlers/consent.go.
-- Web.Http: what a handler reads of a request and writes into a response.
-- Web.Handlers: the handlers of internal/web/handlers: Account (signup.go, login.go, logout.go,
--   dashboard.go), Checkout (checkout.go, with internal/web/billing/checkout.go), LicenseApi (api.go)
--   and Pages (landing.go, pages.go, articles.go, alternatives.go, seo.go).
-- Web.Server: `newRouter` of cmd/avtool-web/main.go: each endpoint with its middleware and its
--   limiter, so that the theorems of the handlers compose to theorems on sequences of requests.
-- Web.Launch: `main` of cmd/avtool-web/main.go up to the address, internal/web/db/db.go, and
--   `serveGraceful` as the steps of its two goroutines, apart from what comes from outside.
-- Tests: the theorems at concrete inputs.
--
-- Operations keep the source's names in snake case; an `if err != nil` that wraps an error is
-- `wrapping`, one that looks at it is `attempt`. A message is kept without its formatted arguments.
--
-- Parameters: `Platform` has Go's `unicode.ToLower`, SHA-256, RFC 3339 times, `filepath.Join` and
-- `json.Marshal`; `Backend` the collation of the database's texts, SHA-256, bcrypt and what a
-- DATETIME column keeps; `Stripe` the check of a signature and the parsing of its objects;
-- `StripeApi` its calls that make a customer and a checkout session; `Env` the list of articles,
-- whose texts are those of articles.go in the service that runs, and what the pages take from net,
-- net/http and encoding/xml. A page is the name of its template and the data it is given. What a
-- theorem relies on is a hypothesis of it: `LowerLaws`, `IsCollation`, `BcryptLaws`, or an equation
-- on a time.
--
-- Bounds: loops are recursion on the list that the code ranges over; `decimal` divides with fuel
-- one above the number, which is more than its digits. The size limits of a scan and of a webhook's
-- body are those of the code. Ids and times are unbounded numbers: the code's 64 bits do not
-- overflow in use. A session's lifetime is not negative, as in every caller.
--
-- Not modelled: requests to the service at once, but for deliveries of the webhook; a review that
-- runs beside the watcher; which route chi picks for a path; the rendering of templates; net/http's
-- server, fsnotify and the database drivers, which the models take by what they answer; the parsing of
-- the commands' flags; what closing a file loses, whose error `moveFile` ignores; lines on standard
-- error; and the other libraries behind the parameters.
pub mod Prelude
pub mod Exec
pub mod Store
pub mod World
pub mod HashDb
pub mod Files
pub mod Quarantine
pub mod Scanner
pub mod Detections
pub mod ReportLog
pub mod Prompt
pub mod Review
pub mod Web
pub mod Tests
pub mod Feed
pub mod Commands
pub mod Notify
pub mod Config
pub mod Watcher
