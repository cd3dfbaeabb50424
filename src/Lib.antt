-- ===== src/Lib.antt =====
-- Warnly receives the errors of programs, groups them into issues, and alerts teams about them. This
-- library models its core and states what makes it correct.
--
-- Parts and files, with paths from the repository's root:
--
-- Session models internal/session/session.go. Cookie has SecureCookie: a value is serialised,
-- encrypted if there is a block cipher, and signed with the cookie's name and the time (Encode,
-- Decode and their helpers). Store has the codecs, the cookie store and the registry of a request;
-- Name has the check of cookie names. RoundTrip, Genuine and StoreLaws hold the proofs. The
-- serialiser, the hash, the cipher, base64 and the decimal notation are the fields of Runtime, and
-- Laws states what is documented of them.
--
-- Locks models the lock table of internal/mysql/notification.go: AcquireAlertLock,
-- ReleaseAlertLock and CleanupExpiredLocks as functions on the rows. Rows says what each does to the
-- row of an alert, Exclusion what sequences of operations by several instances come to, and
-- Refinement that the rows are a map from alerts to locks.
--
-- Db has the tables (Tables) and the statements (Statements) of internal/mysql/alert.go,
-- notification.go, issue.go, team.go, project.go, message.go and assingment.go that the worker and
-- the services use. A statement is a step on the tables that may fail; Env says which statements
-- fail and what the clocks show. A statement that fails leaves the tables as they were. Alerts and
-- channels stand in the order in which they are listed.
--
-- Notifier models internal/notifier/webhook.go: Secret has the encryption of webhook secrets, Send
-- the requests. HTTP, JSON and AES-GCM are parameters.
--
-- Worker models one round of internal/worker/alert_worker.go, from processAlerts to
-- sendNotification, on Db, Locks and Notifier; the analytics store is a parameter. Frame says what
-- the steps leave alone, Locking what a check does to locks, Verdict and Decision when it changes an
-- alert, Settled how its notifications end, and Lifecycle has Start and Stop as a state machine, where
-- the ticker panics if the interval is not positive.
--
-- Service models internal/svc/alert/alert.go on Db. Access, Listing and Strangers say who may see and
-- change an alert.
--
-- Event models internal/warnly/envelope.go and the row that internal/svc/event/event.go stores: Body
-- has the data, Frames what is read off exceptions and threads, Row the row. Aligned, Pairs and
-- Breaker hold the proofs. Hash has the grouping of internal/warnly/normalize.go, Uuid the text of a
-- UUID, Ingest the method IngestEvent on the statements of Db/Issues; Delivery is about what it hands
-- on. A Go map is the list of its entries in the order of a loop's visit.
--
-- Query models ParseQuery of internal/warnly/project.go and the parser of filters in
-- internal/svc/project/project.go (Parse). RoundTrip and Agree hold the proofs.
--
-- Project models internal/svc/project/project.go on Db: Types has the service, its errors and the
-- interface of the analytics store; Duration has ParseDuration of internal/warnly/project.go;
-- Projects, Threads, Entries, Issues and Details have the methods, each with what it calls. Reads
-- says which steps only read. Atomic is about units of work, Rights and Foreign about who may see and
-- change what, Pages, Order and Period about lists and times. slices.SortFunc is a field of the
-- service, and Insertion a concrete one. Dashboard has the chart of a project of
-- internal/warnly/project.go, Window and Buckets its proofs; Stack what a page shows of an event, Shown
-- that this is what was stored. Db/UnitOfWork has the transactions of internal/mysql/uow.go: the
-- writes of a transaction are held back until it commits, and a statement of a store that does not
-- take part goes past it.
--
-- Hooks models internal/svc/notification/notification.go on Db and Notifier: Config has the methods,
-- Saved says that a configuration that was saved is the one that is read.
--
-- Accounts models internal/svc/session/session.go with the stores of users and passwords: Users has
-- the rows and statements, SignIn the methods; Proven says who may sign in, Created which users are
-- made. These rows are kept apart from Db, whose users are the columns that lists of teammates show.
--
-- Olap models internal/ch/ch.go: Statement has what is sent and received, Issues, Insert, Events, Pages,
-- Tags and System the methods with the texts of their statements, Store the whole as the interface
-- that the project service uses. Requests lists the calls; Marks, Bound, Values, Columns and Rows hold
-- the proofs.
--
-- Server models parts of internal/server: Web has requests and replies, Auth the middleware of auth.go,
-- middleware.go and recoverer.go in the chains of route.go, Login signing in and out of root.go on
-- Session and Accounts, Ingest the handler of event.go on Event. Sessions, Gates, SignedIn, Envelopes
-- and Keys hold the proofs.
--
-- Alert has the types of internal/warnly/alert.go and notification.go, Base the shared helpers: byte
-- strings, lists, results, state-passing actions and int64 differences.
--
-- Bounds: a time is a number of nanoseconds, or of seconds for cookies, since a fixed origin; int64
-- differences of cookie times wrap around at 2 ^ 63, and so does the comparison of a threshold at
-- 2 ^ 64. The offsets, limits, pages and durations of the project service are int64 that wrap around.
-- In the chart a time counts from year 1, and now is at least 293 years later, so that the start of a
-- period is no earlier. Ids and counts of events, also their totals, stand for ints that do not
-- overflow. Texts are compared byte by byte, also in statements, where the collation of MySQL may take
-- more of them to be equal, and times keep their nanoseconds, where columns of MySQL keep seconds.
-- Every loop is a structural recursion
-- over a list or a number, so no fuel is needed.
--
-- Not modelled: the Kafka client, the decoding of events, the validation of ids, the first start of
-- the program, the percentages of tag values, what ClickHouse makes of a statement, the other handlers
-- of the HTTP server, its templates, migrations and tracing. They are I/O, glue, or left for later. A
-- panic is an error value that passes every caller.
pub mod Base
pub mod Alert
pub mod Hooks
pub mod Locks
pub mod Db
pub mod Notifier
pub mod Worker
pub mod Session
pub mod Project
pub mod Query
pub mod Service
pub mod Event
pub mod Accounts
pub mod Olap
pub mod Server
