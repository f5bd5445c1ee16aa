-- ===== src/Lib.antt =====
-- DoUpRo, an update manager for Docker containers: the scripts of its web interface, the
-- authentication and the rate limit that their requests meet, the updater of a container with the
-- guard that keeps two operations apart and the rollback, the watches that count crashes after an
-- update with their monitor, the schedules and the replacement of the daemon itself, the choice of
-- a newer version, and the notifications with their queue.
--
-- - Base: names, tests, lists, texts (lists of code units) and integers that the rest shares.
-- - Web/Csv and Web/Html: split, join, trim and escapeHtml, as web/static/combobox.js uses them.
-- - Web/Combobox: web/static/combobox.js, function by function (selected, renderChips, highlight,
--   open, close, pick, and the listeners, which are the cases of step).
-- - Web/Csrf: web/static/csrf.js (getCookie, the patched fetch, the submit listener).
-- - Web/Stacks: web/static/stacks.js; its three functions are Web/Stacks, Web/Stacks/Filter and
--   Web/Stacks/Action, with the element of createDonutSpinner in Web/Stacks/Spinner.
-- - Web/Wiring: the end of each of these scripts, where it waits for DOMContentLoaded or attaches its
--   listeners at once, over the elements of a page as they are parsed.
-- - Web/Prefs: web/static/theme.js and web/static/sidebar.js.
-- - Auth/Access: roles and permissions of internal/store/auth.go.
-- - Auth/Middleware: RequireAuth, RequirePermission and validCSRF of internal/auth/middleware.go;
--   Browser puts the CSRF script and the middleware together.
-- - Store/Time: instants, as Go compares them and as the text columns of the database do.
-- - Store/Watches: the rollback watches of internal/store/crashloop.go, a step for each transaction.
-- - Store/Containers: the rows of internal/store/store.go that the updater and
--   the crash monitor write.
-- - Updater/Guard: operationGuard and beginOperation of internal/updater/operations.go.
-- - Updater/Json, Updater/Volumes, Updater/Validate, Updater/Engine and Updater/Recreate:
--   internal/updater/recreate.go. Json has compareJSONSubset, Volumes preserveAnonymousVolumes,
--   Validate validateRecreation and the types, and Recreate buildRecreationPlan and recreate, with the
--   calls to the Docker engine (Engine) as a log. cloneJSON is the identity, as it copies what came
--   from JSON.
-- - Updater/Update: Update, revert and failBeforeRemoval of internal/updater/updater.go, which use the
--   guard, the recreation and both tables.
-- - Updater/Rollback: Rollback of internal/updater/updater.go.
-- - Updater/SelfUpdate: RunSelfUpdateHelper of internal/updater/self_update.go over the engine's log, and
--   in Updater/SelfUpdate/Start its StartSelfUpdate, which closes the guard. The callback selfBlockers is
--   a parameter there; Scheduler/Blockers has the function that the daemon passes.
-- - Store/Schedules and Store/Candidates: internal/store/schedules.go and update_candidates.go beside it.
-- - Scheduler: runDueSchedules and runRelativePolicies of internal/scheduler/scheduler.go over both tables,
--   the rows of the containers and the updater; Scheduler/Blockers: SelfUpdateBlockers;
--   Scheduler/Check: how checkOneContainer of internal/scheduler/check.go finds candidates. A tick is a
--   function of the daemon's state, with the clock and the failures of the store at that moment;
--   Scheduler/Ticks: the two kinds of tick of Run in a sequence, where what Check does to the tables in
--   a check tick is any function.
-- - Crash/Monitor: handleEvent, syncState, recordCrash and reconcile of internal/crashloop/monitor.go;
--   Crash/Task is its task that rolls a container back, over Updater/Rollback.
-- - Notifier/Channels: the channels of internal/notifier/notifier.go (categorize, matches, SetChannels,
--   PublicChannels, Notify).
-- - Notifier/Queue: internal/store/notification_queue.go, with deliverOne, backoff and the
--   inner loop of Run of the notifier.
-- - Registry/Semver: SelectSemverCandidates of internal/registry/semver.go; Registry/Ref: its ReplaceTag,
--   and ParseRef and ClassifyUpdate of internal/registry/registry.go.
-- - Api/RateLimit: internal/api/ratelimit.go, with the time in nanoseconds as a number.
--
-- The browser and the Go library are not modelled: toLowerCase and decodeURIComponent are
-- parameters, JSON is a record with the laws that the scripts rely on, and the store's lookups by
-- session or API key, with the hash of a token, are a record of functions. The Docker engine is a
-- record of functions of the calls made so far, each of which may fail, and encoding/json on the
-- types of Docker's API is a parameter. In the scheduler time.ParseDuration, the cron library, the
-- clock and the columns stack and excluded of a container's row are parameters, and in the
-- self-update what is read of the machine and of the fields of Docker's API that nothing else
-- reads. Writes to the database may fail as a whole in Updater/Update, Updater/Rollback, Crash/Task
-- and Scheduler, and do not in Store/Watches, Crash/Monitor and Notifier/Queue. Metrics, events and
-- log messages are left out. A page's elements are the fields that the scripts read and write.
-- Every loop is a recursion on its list, or on a number that the source counts; the notifier's
-- inner loop runs over a list of turns, of which one more than the attempts that are left is
-- enough, as each delivery uses up one; how often a rollback polls a restarting container is any
-- number. The registry client, the rest of the registry check, the HTTP handlers and the endless
-- loops that wait for events are not modelled.
pub mod Base
pub mod Web
pub mod Auth
pub mod Store
pub mod Updater
pub mod Api
pub mod Registry
pub mod Notifier
pub mod Crash
pub mod Scheduler
